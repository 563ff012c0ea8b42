-- ===== src/Memory/NewThread.antt =====
-- The first request of a thread, among the pages of other threads: myallocate.
use asst.Base.{
  ℕ, ◌+◌, ◌*◌, ◌<◌, ◌≤◌, ◌≡◌, ◌≢◌, refl, subst, true, false, Bool, some, Ptr, null, ltb,
  if◌then◌else◌, update, List, arith,
}
use asst.Types.{Tcb, PageMeta, Platform, threadreq}
use asst.Malloc.{mymalloc}
use asst.Malloc.Blocks.{Block}
use asst.Malloc.Payloads.{Handed}
use asst.Malloc.First.{free_bytes}
use asst.Malloc.Whole.{free_mem_count-Holds}
use asst.Malloc.Given.{payload-inside}
use asst.Malloc.Fresh.{blank, mymalloc-Opened}
use asst.Memory.{Mm, enter, frame_address}
use asst.Memory.Page.{block_fuel}
use asst.Memory.FirstPage.{page_meta, use_first_page-placed}
use asst.Memory.FirstRequest.{stored, enough_fuel, allocate_in_pages-stored, myallocate_lem}
use asst.Memory.World.{World, Thread, NoPage}
use asst.Memory.Own.{World-turned, Thread-turned}
use asst.Memory.Clear.{swap_open-Cleared}
use asst.Memory.NewPage.{Added, added, raised, World-added}
use asst.Memory.NewLinks.{Thread-foreign, Thread-first, NoPage-added}
use asst.Memory.Grow.{opened}
use asst.Memory.Answer.{Ended, closing, closing-Ended}
use asst.Memory.Requests.{World-enter, Thread-enter}
use asst.Memory.Allocate.{finish, myallocate}

-- No page is of the thread.
abbrev pub Without : Tcb → Mm → Type 0
Without t m = (t.first_page ≡ null) × (t.malloc_frame ≡ 0) × NoPage t.tid m

-- What the first page of the thread gives: a payload in it, and the pages of all threads as they were.
pub record Begun (home : Ptr → ℕ) (held : Ptr → List Block) (top : ℕ) (t : Tcb) (x : ℕ) (m : Mm)
    (fresh_page q : Ptr) (m' : Mm) : Type 0 where
  pub made : List Block
  pub next_meta : fresh_page ≡ m.os_mem_ptr
  pub world : World (update home fresh_page 0) (update held fresh_page made) (raised 0 top) m'
  pub thread :
      Thread (update home fresh_page 0) (record t { first_page = fresh_page }) (λ k. fresh_page) m'
  pub others :
      (u : Tcb) (pages : ℕ → Ptr)
      → u.tid ≢ t.tid
      → Thread home u pages m
      → Thread (update home fresh_page 0) u pages m'
  pub absent : (u : ℕ) → u ≢ t.tid → NoPage u m → NoPage u m'
  pub handed : Handed q x (frame_address 0 m) blank made
  pub some_address : q ≢ null
  pub counted : m'.page_counter ≡ m.page_counter + 1
  pub block : m'.myblock_ptr ≡ m.myblock_ptr
  pub ended : Ended m'

abbrev first_metas : Tcb → Mm → Ptr → PageMeta
first_metas t m = update m.metas m.os_mem_ptr (page_meta t (m.metas m.os_mem_ptr))

first-Added : (t : Tcb) (m1 : Mm) → Added 0 t.tid m1 (first_metas t m1)
first-Added t m1 = record {
  frame = ground arith;
  tid = ground arith;
  next = ground arith;
  front = ground arith;
  others = λ p ne. ground (arith, ne);
  foreign = λ p ne other. ground (arith, ne);
}

-- The first request of a thread, of at most 4064 bytes, among the pages of any number of other threads,
-- with a frame left: it does not fault and is not refused. It gives a payload in a page of the thread,
-- which is its only one and the next to be given out, every other page holds what it held, every other
-- thread has the pages it had, every frame is closed, and mem_flag is cleared.
pub myallocate-Begun :
    (os : Platform) (x : ℕ) {home : Ptr → ℕ} {held : Ptr → List Block} {top : ℕ} {m : Mm}
    → World home held top m
    → (t : Tcb) → Without t m
    → x ≤ 4064
    → m.page_counter < 1596
    → (p : Ptr) × (q : Ptr) × (m' : Mm) × (myallocate os x threadreq t m
        ≡ some (q, record t { first_page = p }, m'))
      × Begun home held top t x m p q m'
myallocate-Begun os x {home} {held} {top} {m} w0 t (no_page, first, alone) small space =
    let w = World-enter w0 in
    let (m1, run, c) = swap_open-Cleared 0 t w (omega arith) space in
    let metas = first_metas t m1 in
    let new = first-Added t m1 in
    let m2 = added 0 metas true (opened m1) m1 in
    let t' = record t { first_page = m1.os_mem_ptr } in
    let grow = use_first_page-placed t (enter m) m1 space run c.known.2 in
    let base : frame_address 0 m2 ≡ frame_address t.malloc_frame m2 = omega (arith, first) in
    let o =
      mymalloc-Opened block_fuel x (frame_address 0 m2) m2.arena refl
        (omega (arith, w.pos, c.block)) small (omega (arith, enough_fuel)) in
    let count =
      free_mem_count-Holds block_fuel (frame_address 0 m2) 4096 o.made o.after o.holds (omega arith)
        o.whole enough_fuel in
    let size = free_bytes o.made in
    let p = m1.os_mem_ptr in
    let m3 = stored o.after size p m2 in
    let closed : ℕ → Bool = λ k. if ltb k 1596 then false else m2.access k in
    let inside =
      payload-inside (frame_address 0 m2) o.made o.address o.handed.payload.size
        o.handed.payload.below o.handed.payload.above o.handed.payload.after in
    (
      p,
      o.address,
      closing m3,
      myallocate_lem os x t t' m m2 (finish o.address t' m3) w0.later small no_page grow (
          allocate_in_pages-stored x size o.address o.after t' m2
            (subst (λ b. mymalloc block_fuel x b 4096 m2.arena ≡ some (o.address, o.after)) base
              o.run)
            (omega (arith, c.known.2)) count (omega (arith, inside))),
      record {
        made = o.made;
        next_meta = c.region;
        world = World-turned p o.after.head o.after.middle false closed (
            World-added w 0 t.tid c (omega arith) space metas new true (opened m1) o.after size
              o.made o.holds o.whole o.local);
        thread =
            Thread-turned p o.after.head o.after.middle false closed t' (λ k. p)
              (Thread-first w 0 t.tid c (omega arith) space metas new true (opened m1) o.after size
                o.made t refl refl first alone);
        others = λ u pages other tu.
            Thread-turned p o.after.head o.after.middle false closed u pages (
              Thread-foreign w 0 t.tid c (omega arith) space metas new true (opened m1) o.after size
                o.made u pages other (Thread-enter tu));
        absent = λ u other none_of.
            NoPage-added w 0 t.tid c (omega arith) space metas new true (opened m1) o.after size
              o.made u other none_of;
        handed = subst (λ b. Handed o.address x (b + 0 * 4096) blank o.made) c.block o.handed;
        some_address = omega (arith, inside);
        counted = c.given;
        block = c.block;
        ended = closing-Ended m3;
      },
    )
