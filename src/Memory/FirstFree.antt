-- ===== src/Memory/FirstFree.antt =====
-- The return of the first block of a thread by mydeallocate.
use asst.Base.{
  ℕ, ◌+◌, ◌<◌, ◌≤◌, ◌≡◌, ◌≢◌, refl, sym, subst, true, false, some, List, [], Ptr, null, ◌==◌, arith,
}
use asst.Types.{Tcb, Platform, threadreq}
use asst.Malloc.{Arena, FreeReport, freed, myfree, free_mem_count}
use asst.Malloc.Blocks.{Block}
use asst.Malloc.Spec.{blocks}
use asst.Malloc.Payloads.{payloads}
use asst.Malloc.Merge.{Holds}
use asst.Malloc.RoundTrip.{Holds-of_Represents}
use asst.Malloc.First.{free_bytes, free_mem_count-free_bytes}
use asst.Malloc.Whole.{myfree-only, length-le}
use asst.Memory.{Mm, enter, protect_all}
use asst.Memory.Page.{block_fuel, load_arena, store_arena}
use asst.Memory.FirstPage.{Known, Evictable}
use asst.Memory.Allocate.{myallocate}
use asst.Memory.Release.{free_in_page, page_index, mydeallocate}
use asst.Memory.Offset.{page_index-inside}
use asst.Memory.FirstRequest.{page_arena, HasBlock, stored, enough_fuel, myallocate-HasBlock}

-- The page of the thread, loaded.
abbrev loaded : Ptr → Mm → Mm
loaded p m = record (enter m) { current_page_meta = p; arena = page_arena p m }

load_arena-loaded :
    (p : Ptr) (m : Mm)
    → p ≢ null
    → load_arena (record (enter m) { current_page_meta = p }) ≡ some (loaded p m)
unfolding load_arena
load_arena-loaded p m page = ground (arith, page)

free_in_page-stored :
    (q n : ℕ) (p : Ptr) (m : Mm) (report : FreeReport) (a : Arena)
    → p ≢ null
    → myfree q (page_arena p m) ≡ (report, a)
    → free_mem_count block_fuel a ≡ some n
    → free_in_page q (loaded p m) ≡ some (report, stored a n p (loaded p m))
unfolding free_in_page store_arena
free_in_page-stored q n p m report a page run count =
    let e : (p == null) ≡ false = ground (arith, page) in rw (run, e, count) refl

mydeallocate_lem :
    (q : ℕ) (t : Tcb) (m m1 : Mm) (report : FreeReport)
    → m.myblock_ptr ≤ q
    → q < m.myblock_ptr + 4096
    → m.frame_table 0 ≡ t.first_page
    → t.first_page ≢ null
    → (m.metas t.first_page).tid ≡ t.tid
    → free_in_page q (loaded t.first_page m) ≡ some (report, m1)
    → mydeallocate q t m ≡ some (report, record (protect_all false m1) { mem_flag = false })
unfolding mydeallocate
mydeallocate_lem q t m m1 report above below at page mine run =
    let e1 : page_index q m.myblock_ptr ≡ some 0 =
      page_index-inside q m.myblock_ptr 0 (omega (arith, above)) (omega (arith, below))
        (omega arith) in
    let e3 : (t.first_page == null) ≡ false = ground (arith, page) in
    let e4 : (t.tid == t.tid) ≡ true = ground arith in
    rw (e1, at, e3, mine, e4, load_arena-loaded t.first_page m page, run) refl

-- The page of the thread holds no payload, and is closed.
abbrev pub HasNone : Tcb → Mm → Type 0
HasNone t m =
    (bs : List Block) × Holds m.myblock_ptr bs (page_arena t.first_page m)
    × (payloads m.myblock_ptr bs ≡ [])
    × (m.mem_flag ≡ false)
    × ((j : ℕ) → j < 1596 → m.access j ≡ false)

page_arena-freed :
    (a : Arena) (n : ℕ) (m : Mm) (p : Ptr)
    → page_arena p (record (protect_all false (stored a n p (loaded p m))) { mem_flag = false }) ≡ a
page_arena-freed a n m p = ground arith

mydeallocate-HasNone :
    (x q : ℕ) (t : Tcb) (m : Mm)
    → 0 < x
    → t.first_page ≢ null
    → HasBlock x q t m
    → (m' : Mm) × (mydeallocate q t m ≡ some (freed, m')) × HasNone t m'
mydeallocate-HasNone x q t m some_bytes page
      (z, n, known, at, mine, rep, only, whole, above, below, idle, closed) =
    let held = Holds-of_Represents m.myblock_ptr z (page_arena t.first_page m) rep in
    let (a, bs, run, held', none_left, some_block, fewer) =
      myfree-only m.myblock_ptr (page_arena t.first_page m) (blocks z) q n held only
        (omega (arith, below)) in
    let count =
      free_mem_count-free_bytes block_fuel m.myblock_ptr bs a held'
        (omega (arith, fewer, length-le m.myblock_ptr (blocks z), whole, enough_fuel)) some_block in
    let m1 = stored a (free_bytes bs) t.first_page (loaded t.first_page m) in
    (
      record (protect_all false m1) { mem_flag = false },
      mydeallocate_lem q t m m1 freed (omega (arith, above)) (omega (arith, below, some_bytes)) at
          page mine (free_in_page-stored q (free_bytes bs) t.first_page m freed a page run count),
      (
        bs,
        subst (Holds m.myblock_ptr bs) (sym (page_arena-freed a (free_bytes bs) m t.first_page))
            held',
        none_left,
        refl,
        (λ j h. ground (arith, h)),
      ),
    )

-- The first request of a thread, of 1 to 4064 bytes, with the memory manager set up, frame 0 that can
-- be evicted to a frame of memory, and the frame table and the page metas in order, gives a block
-- that mydeallocate takes back: the free succeeds, the page of the thread holds no payload then,
-- every frame is closed, and mem_flag is cleared.
pub myallocate-mydeallocate :
    (os : Platform) (x : ℕ) (t : Tcb) (m : Mm)
    → m.first_call ≡ false
    → 0 < x
    → x ≤ 4064
    → t.first_page ≡ null
    → t.malloc_frame ≡ 0
    → 0 < m.myblock_ptr
    → Evictable m
    → Known m
    → (q : Ptr) × (t' : Tcb) × (m' : Mm) × (m'' : Mm) × (myallocate os x threadreq t m
        ≡ some (q, t', m'))
      × (mydeallocate q t' m' ≡ some (freed, m''))
      × HasNone t' m''
myallocate-mydeallocate os x t m set_up some_bytes small no_page first pos ready known =
    let (q, t', m', run, at_top, same, has) =
      myallocate-HasBlock os x t m set_up small no_page first pos ready known in
    let (m'', run', none_left) =
      mydeallocate-HasNone x q t' m' some_bytes (omega (arith, at_top, known.2)) has in
    (q, t', m', m'', run, run', none_left)
