-- ===== src/Memory/FirstRequest.antt =====
-- The first request of a thread to myallocate.
use asst.Base.{
  ℕ, ◌+◌, ◌<◌, ◌≤◌, ◌≡◌, ◌≢◌, ◌∙◌, refl, sym, ap, subst, true, false, some, [], ◌∷◌, Ptr, null,
  ◌==◌, update, ltb, arith,
}
use asst.Types.{Tcb, Platform, threadreq}
use asst.Malloc.{sizeof_mementry, Arena, mymalloc, free_mem_count}
use asst.Malloc.Blocks.{end}
use asst.Malloc.Spec.{Zipper, blocks}
use asst.Malloc.Payloads.{payloads}
use asst.Malloc.Refine.{Represents}
use asst.Malloc.RoundTrip.{Holds-of_Represents}
use asst.Malloc.First.{free_bytes}
use asst.Malloc.Whole.{mymalloc-Hands, free_mem_count-Holds}
use asst.Memory.{Mm, enter, frame_address, protect_all}
use asst.Memory.Library.{begin_call}
use asst.Memory.Page.{block_fuel, store_arena, run_mymalloc, use_first_page}
use asst.Memory.FirstPage.{Known, Evictable, Owned, use_first_page-Owned}
use asst.Memory.Allocate.{finish, allocate_in_pages, allocate_small, myallocate}

-- The arena of the page with the meta `p`.
abbrev pub page_arena : Ptr → Mm → Arena
page_arena p m = record { head = (m.metas p).head; middle = (m.metas p).middle; mem = m.arena.mem }

-- Frame 0 holds the page of the thread, with one payload of `x` bytes at least at `q`, and is closed.
abbrev pub HasBlock : ℕ → Ptr → Tcb → Mm → Type 0
HasBlock x q t m =
    (z : Zipper) × (n : ℕ) × Known m
    × (m.frame_table 0 ≡ t.first_page)
    × ((m.metas t.first_page).tid ≡ t.tid)
    × Represents m.myblock_ptr z (page_arena t.first_page m)
    × (payloads m.myblock_ptr (blocks z) ≡ (q, n) ∷ [])
    × (end m.myblock_ptr (blocks z) ≡ m.myblock_ptr + 4096)
    × (m.myblock_ptr + sizeof_mementry ≤ q)
    × (q + x ≤ m.myblock_ptr + 4096)
    × (m.mem_flag ≡ false)
    × ((j : ℕ) → j < 1596 → m.access j ≡ false)

-- The page meta with what is stored back.
abbrev pub stored : Arena → ℕ → Ptr → Mm → Mm
stored a n p m = record m {
  arena = a;
  metas =
      update m.metas p (record (m.metas p) { head = a.head; middle = a.middle; free_page_mem = n });
}

Known-stored : (a : Arena) (n : ℕ) (p : Ptr) (m : Mm) → Known m → Known (stored a n p m)
Known-stored a n p m (agree, below, pos) =
    ((λ k h used. ground (arith, agree k h used)), below, pos)

pub allocate_in_pages-stored :
    (x n q : ℕ) (a : Arena) (t : Tcb) (m : Mm)
    → mymalloc block_fuel x (frame_address t.malloc_frame m) 4096 m.arena ≡ some (q, a)
    → m.current_page_meta ≢ null
    → free_mem_count block_fuel a ≡ some n
    → q ≢ null
    → allocate_in_pages x t m ≡ some (finish q t (stored a n m.current_page_meta m))
unfolding allocate_in_pages run_mymalloc store_arena
allocate_in_pages-stored x n q a t m served page count some_q =
    let e : (m.current_page_meta == null) ≡ false = ground (arith, page) in
    let e' : (q == null) ≡ false = ground (arith, some_q) in rw (served, e, count, e') refl

pub begin_call-later :
    (os : Platform) (m : Mm) → m.first_call ≡ false → begin_call os m ≡ some (enter m)
unfolding begin_call
begin_call-later os m set_up = ground (arith, set_up)

pub not_large : (x : ℕ) → x ≤ 4064 → ltb 4064 x ≡ false
not_large x small = ground (arith, small)

is_null : (p : Ptr) → p ≡ null → (p == null) ≡ true
is_null p e = ground (arith, e)

-- The fuel is more than the bytes of a page.
pub enough_fuel : 4096 < block_fuel
unfolding block_fuel
enough_fuel = omega arith

frame_zero : (i : ℕ) (m : Mm) → i ≡ 0 → frame_address i m ≡ m.myblock_ptr
frame_zero i m e = omega (arith, e)

pub myallocate_lem :
    (os : Platform) (x : ℕ) (t t' : Tcb) (m m1 : Mm) (r : Ptr × Tcb × Mm)
    → m.first_call ≡ false
    → x ≤ 4064
    → t.first_page ≡ null
    → use_first_page t (enter m) ≡ some (some (t', m1))
    → allocate_in_pages x t' m1 ≡ some r
    → myallocate os x threadreq t m ≡ some r
unfolding myallocate allocate_small
myallocate_lem os x t t' m m1 r set_up small no_page placed served =
    rw
      (
        begin_call-later os m set_up,
        not_large x small,
        is_null t.first_page no_page,
        placed,
        served,
      )
      refl

page_arena-stored :
    (a : Arena) (n : ℕ) (m : Mm) (p : Ptr)
    → page_arena p (record (protect_all false (stored a n p m)) { mem_flag = false }) ≡ a
page_arena-stored a n m p = ground arith

-- The page that was made, with the request served in it.
HasBlock-stored :
    (x n q k : ℕ) (t : Tcb) (m0 m : Mm) (a : Arena) (z : Zipper)
    → Owned t m0 m
    → Represents m.myblock_ptr z a
    → payloads m.myblock_ptr (blocks z) ≡ (q, k) ∷ []
    → end m.myblock_ptr (blocks z) ≡ m.myblock_ptr + 4096
    → m.myblock_ptr + sizeof_mementry ≤ q
    → q + x ≤ m.myblock_ptr + 4096
    → HasBlock x q
        (record t { first_page = m.current_page_meta })
        (record (protect_all false (stored a n m.current_page_meta m)) { mem_flag = false })
HasBlock-stored x n q k t m0 m a z (known, top, at_frame, mine, block, unset, counter) rep only
      whole above below =
    (
      z,
      k,
      Known-stored a n m.current_page_meta m known,
      at_frame,
      ground (arith, mine),
      subst (Represents m.myblock_ptr z) (sym (page_arena-stored a n m m.current_page_meta)) rep,
      only,
      whole,
      above,
      below,
      refl,
      (λ j h. ground (arith, h)),
    )

-- The first request of a thread of at most 4064 bytes, with the memory manager set up, frame 0 that
-- can be evicted to a frame of memory, and the frame table and the page metas in order: it does not
-- fault, and gives a block in a page of the thread in frame 0, the only one there, from behind the
-- header of the page to its end; the frame table and the page metas stay in order, every frame is
-- closed, and mem_flag is cleared.
pub myallocate-HasBlock :
    (os : Platform) (x : ℕ) (t : Tcb) (m : Mm)
    → m.first_call ≡ false
    → x ≤ 4064
    → t.first_page ≡ null
    → t.malloc_frame ≡ 0
    → 0 < m.myblock_ptr
    → Evictable m
    → Known m
    → (q : Ptr) × (t' : Tcb) × (m' : Mm) × (myallocate os x threadreq t m ≡ some (q, t', m'))
      × (t'.first_page ≡ m.os_mem_ptr)
      × (m'.myblock_ptr ≡ m.myblock_ptr)
      × HasBlock x q t' m'
myallocate-HasBlock os x t m set_up small no_page first pos ready known =
    let (m1, placed, owned) = use_first_page-Owned t (enter m) ready known in
    let (known1, top, at_frame, mine, block, unset, counter) = owned in
    let (q, a, z, k, served, rep, only, whole, above, below) =
      mymalloc-Hands block_fuel x m1.myblock_ptr 4096 m1.arena unset (omega (arith, pos, block))
        (omega (arith, small)) (omega arith) (omega (arith, enough_fuel)) in
    let count =
      free_mem_count-Holds block_fuel m1.myblock_ptr 4096 (blocks z) a
        (Holds-of_Represents m1.myblock_ptr z a rep) (omega arith) whole enough_fuel in
    let t' = record t { first_page = m1.current_page_meta } in
    let n = free_bytes (blocks z) in
    (
      q,
      t',
      record (protect_all false (stored a n m1.current_page_meta m1)) { mem_flag = false },
      myallocate_lem os x t t' m m1 (finish q t' (stored a n m1.current_page_meta m1)) set_up small
          no_page placed
          (allocate_in_pages-stored x n q a t' m1
            (ap (λ b. mymalloc block_fuel x b 4096 m1.arena) (frame_zero t.malloc_frame m1 first)
              ∙ served)
            (omega (arith, top, known.2)) count (omega (arith, above))),
      top,
      block,
      HasBlock-stored x n q k t (enter m) m1 a z owned rep only whole above below,
    )
