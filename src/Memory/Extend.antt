-- ===== src/Memory/Extend.antt =====
-- A request in a new page behind those that the thread has: allocate_new_page of myallocate.
use asst.Base.{
  ℕ, ◌+◌, ◌*◌, ◌<◌, ◌≤◌, ◌≡◌, ◌≢◌, ◌∙◌, refl, ap, subst, true, false, Bool, some, Ptr, null, ltb,
  ◌==◌, if◌then◌else◌, update, List, arith,
}
use asst.Types.{Tcb}
use asst.Malloc.{Arena, mymalloc, free_mem_count}
use asst.Malloc.Blocks.{Block}
use asst.Malloc.Payloads.{Handed}
use asst.Malloc.First.{free_bytes}
use asst.Malloc.Whole.{free_mem_count-Holds}
use asst.Malloc.Given.{payload-inside}
use asst.Malloc.Fresh.{blank, mymalloc-Opened}
use asst.Memory.{Mm, frame_address, protect_all}
use asst.Memory.FirstRequest.{stored, enough_fuel}
use asst.Memory.Page.{block_fuel, use_new_page, run_mymalloc, store_arena}
use asst.Memory.World.{World, Thread, NoPage}
use asst.Memory.Own.{page_used, low, World-turned, Thread-turned}
use asst.Memory.Clear.{Cleared, swap_open-Cleared}
use asst.Memory.NewPage.{Added, added, raised, World-added}
use asst.Memory.NewLinks.{Thread-foreign, Thread-later, NoPage-added}
use asst.Memory.Grow.{opened, linked_metas, use_new_page-added}
use asst.Memory.Allocate.{finish, allocate_new_page}

-- The new meta is linked behind the last of the thread.
linked-Added :
    {home : Ptr → ℕ} {held : Ptr → List Block} {top : ℕ} {m m1 : Mm}
    → World home held top m
    → (i n : ℕ) (before : Ptr) → Cleared i m m1
    → before ≢ m1.os_mem_ptr
    → (m.metas before).tid ≡ n
    → Added i n m1 (linked_metas i n before m1)
linked-Added {m = m} {m1 = m1} w i n before c older own =
    let front : (m1.metas m1.os_mem_ptr).front_meta ≡ null =
      ap (λ v. v.front_meta) (c.metas m1.os_mem_ptr)
      ∙ w.clear m1.os_mem_ptr (omega (arith, c.region)) in
    let own1 : (m1.metas before).tid ≡ n = ap (λ v. v.tid) (c.metas before) ∙ own in
    record {
      frame = ground (arith, older);
      tid = ground (arith, older);
      next = ground (arith, older);
      front = ground (arith, older, front);
      others = λ p ne. ground (arith, ne);
      foreign = λ p ne other. ground (arith, ne, other, own1);
    }

-- The request is served in the page, and the call returns.
allocate_new_page-run :
    (x q n : ℕ) (a : Arena) (t t' : Tcb) (m m2 : Mm)
    → use_new_page t m ≡ some (some (t', m2))
    → mymalloc block_fuel x (frame_address t'.malloc_frame m2) 4096 m2.arena ≡ some (q, a)
    → m2.current_page_meta ≢ null
    → free_mem_count block_fuel a ≡ some n
    → allocate_new_page x t m ≡ some (finish q t' (stored a n m2.current_page_meta m2))
unfolding allocate_new_page run_mymalloc store_arena
allocate_new_page-run x q n a t t' m m2 grow serve used count =
    let e : (m2.current_page_meta == null) ≡ false = ground (arith, used) in
    rw (grow, serve, e, count) refl

-- What a new page of the thread gives: a payload in it, the pages of all threads as they were, and one
-- page more for this thread.
pub record Grown (home : Ptr → ℕ) (held : Ptr → List Block) (top : ℕ) (t : Tcb) (page : ℕ → Ptr)
    (x : ℕ) (m : Mm) (q : Ptr) (m' : Mm) : Type 0 where
  pub fresh_page : Ptr
  pub made : List Block
  pub world :
      World
        (update home fresh_page (t.malloc_frame + 1))
        (update held fresh_page made)
        (raised (t.malloc_frame + 1) top)
        m'
  pub thread :
      Thread
        (update home fresh_page (t.malloc_frame + 1))
        (record t { malloc_frame = t.malloc_frame + 1 })
        (update page (t.malloc_frame + 1) fresh_page)
        m'
  pub others :
      (u : Tcb) (pages : ℕ → Ptr)
      → u.tid ≢ t.tid
      → Thread home u pages m
      → Thread (update home fresh_page (t.malloc_frame + 1)) u pages m'
  pub absent : (u : ℕ) → u ≢ t.tid → NoPage u m → NoPage u m'
  pub handed : Handed q x (frame_address (t.malloc_frame + 1) m) blank made
  pub some_address : q ≢ null
  pub counted : m'.page_counter ≡ m.page_counter + 1
  pub block : m'.myblock_ptr ≡ m.myblock_ptr

module _ {home : Ptr → ℕ} {held : Ptr → List Block} {top : ℕ} {m : Mm} (w : World home held top m)
    {t : Tcb} {page : ℕ → Ptr} (th : Thread home t page m) (x : ℕ) (small : x ≤ 4064)
    (here : m.frame_table t.malloc_frame ≡ page t.malloc_frame)
    (space : m.page_counter < 1596) where
  abbrev i : ℕ
  i = t.malloc_frame + 1

  in_reach : i ≤ top
  in_reach = omega (arith, low w th t.malloc_frame (omega arith))

  pub allocate_new_page-Grown :
      (q : Ptr) × (m' : Mm) × (allocate_new_page x t m
        ≡ some (q, record t { malloc_frame = i }, m'))
      × Grown home held top t page x m q m'
      × (m'.mem_flag ≡ false)
      × ((k : ℕ) → k < 1596 → m'.access k ≡ false)
  allocate_new_page-Grown =
      let last = page t.malloc_frame in
      let used = page_used w th t.malloc_frame (omega arith) in
      let (m1, run, c) =
        swap_open-Cleared i (record t { malloc_frame = i }) w (omega (arith, in_reach, w.high))
          space in
      let at : m1.frame_table t.malloc_frame ≡ last =
        c.frames t.malloc_frame (omega (arith, in_reach, w.high)) (omega arith) ∙ here in
      let older : last ≢ m1.os_mem_ptr = λ e. omega (arith, c.known.1 t.malloc_frame, at, e) in
      let new = linked-Added w i t.tid last c older (th.mine t.malloc_frame (omega arith)) in
      let metas = linked_metas i t.tid last m1 in
      let m2 = added i metas true (opened m1) m1 in
      let grow =
        use_new_page-added t m m1 last space (omega (arith, in_reach, w.high, space)) run
          (omega (arith, c.known.2)) at used in
      let o =
        mymalloc-Opened block_fuel x (frame_address i m2) m2.arena refl
          (omega (arith, w.pos, c.block)) small (omega (arith, enough_fuel)) in
      let count =
        free_mem_count-Holds block_fuel (frame_address i m2) 4096 o.made o.after o.holds
          (omega arith) o.whole enough_fuel in
      let size = free_bytes o.made in
      let p = m1.os_mem_ptr in
      let m3 = stored o.after size p m2 in
      let closed : ℕ → Bool = λ k. if ltb k 1596 then false else m2.access k in
      let inside =
        payload-inside (frame_address i m2) o.made o.address o.handed.payload.size
          o.handed.payload.below o.handed.payload.above o.handed.payload.after in
      (
        o.address,
        record (protect_all false m3) { mem_flag = false },
        allocate_new_page-run x o.address size o.after t (record t { malloc_frame = i }) m m2 grow
            o.run (omega (arith, c.known.2)) count,
        record {
          fresh_page = p;
          made = o.made;
          world = World-turned p o.after.head o.after.middle false closed (
              World-added w i t.tid c in_reach space metas new true (opened m1) o.after size o.made
                o.holds o.whole o.local);
          thread = Thread-turned p o.after.head o.after.middle false closed _ _ (
              Thread-later w i t.tid c in_reach space metas new true (opened m1) o.after size o.made
                t page th refl refl (ground (arith, older)) (λ z ne ne'. ground (arith, ne, ne')));
          others = λ u pages other tu.
              Thread-turned p o.after.head o.after.middle false closed u pages (
                Thread-foreign w i t.tid c in_reach space metas new true (opened m1) o.after size
                  o.made u pages other tu);
          absent = λ u other none_of.
              NoPage-added w i t.tid c in_reach space metas new true (opened m1) o.after size o.made
                u other none_of;
          handed = subst (λ b. Handed o.address x (b + i * 4096) blank o.made) c.block o.handed;
          some_address = omega (arith, inside);
          counted = c.given;
          block = c.block;
        },
        refl,
        λ k h. ground (arith, h),
      )
