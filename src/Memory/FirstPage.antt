-- ===== src/Memory/FirstPage.antt =====
-- The first page of a thread: use_first_page of myallocate.
use asst.Base.{
  ℕ, ◌+◌, ◌%◌, ◌^◌, ◌<◌, ◌≡◌, ◌≢◌, refl, sym, true, false, some, Ptr, null, minus_one, Bool-cases,
  inl, inr, ◌⊎◌, ◌==◌, update, ltb, arith,
}
use asst.Types.{Tcb, PageMeta, sizeof_page_meta}
use asst.Memory.{Mm, enter, frame_address, copy_page, protect_all}
use asst.Memory.Swap.{evict_to_memory, swap_pages}
use asst.Memory.Exchange.{Consistent}
use asst.Memory.Pages.{Consistent-moved}
use asst.Memory.Library.{new_meta}
use asst.Memory.Page.{swap_open, use_first_page, clear_arena}

-- The frame table and the page metas agree, and the metas stand in the OS region given out.
abbrev pub Known : Mm → Type 0
Known m =
    Consistent m.frame_table m.metas
    × ((k : ℕ) → m.frame_table k < m.os_mem_ptr)
    × (0 < m.os_mem_ptr)

-- Frame 0 can be evicted to a frame of memory.
abbrev pub Evictable : Mm → Type 0
Evictable m = (m.page_counter < 1596) × ((m.frame_table 0 ≡ null) ⊎ (m.page_counter ≢ 0))

-- Frame 0 is given up.
abbrev pub Opened : Mm → Mm → Type 0
Opened m m' =
    Known m'
    × (m'.os_mem_ptr ≡ m.os_mem_ptr)
    × (m'.myblock_ptr ≡ m.myblock_ptr)
    × (m'.page_counter ≡ m.page_counter + 1)

swap_pages-vacant :
    (t : Tcb) (m : Mm)
    → m.page_counter < 1596
    → m.frame_table 0 ≡ null
    → Known m
    → (m' : Mm) × (swap_pages 0 minus_one t m ≡ some m') × Opened m m'
unfolding swap_pages evict_to_memory
swap_pages-vacant t m low vacant known =
    let m0 = enter (record m { count = (m.count + 1) % 2 ^ 32 }) in
    (
      record m0 {
        arena = record (m.arena) {
          mem = copy_page (frame_address m.page_counter m) (frame_address 0 m) m.arena.mem;
        };
        page_counter = m.page_counter + 1;
        mem_flag = false;
      },
      ground (arith, low, vacant),
      (known, refl, refl, refl),
    )

swap_pages-used :
    (t : Tcb) (m : Mm)
    → m.page_counter < 1596
    → m.frame_table 0 ≢ null
    → m.page_counter ≢ 0
    → Known m
    → (m' : Mm) × (swap_pages 0 minus_one t m ≡ some m') × Opened m m'
unfolding swap_pages evict_to_memory
swap_pages-used t m low used ne (agree, below, pos) =
    let m0 = enter (record m { count = (m.count + 1) % 2 ^ 32 }) in
    (
      record m0 {
        frame_table = update (update m.frame_table m.page_counter (m.frame_table 0)) 0 null;
        metas =
            update m.metas (m.frame_table 0)
              (record (m.metas (m.frame_table 0)) { page_frame = m.page_counter });
        arena = record (m.arena) {
          mem = copy_page (frame_address m.page_counter m) (frame_address 0 m) m.arena.mem;
        };
        page_counter = m.page_counter + 1;
        mem_flag = false;
      },
      ground (arith, low, ne, used),
      (
        (
          Consistent-moved m.frame_table m.metas 0 m.page_counter (omega arith) (λ e. ne (sym e))
              used agree,
          (λ k. ground (arith, below k, below 0, pos)),
          pos,
        ),
        refl,
        refl,
        refl,
      ),
    )

swap_open-Opened :
    (t : Tcb) (m : Mm)
    → Evictable m
    → Known m
    → (m' : Mm) × (swap_open 0 minus_one t m ≡ some m') × Opened m m'
unfolding swap_open
swap_open-Opened t m (low, free) known = elim (Bool-cases (m.frame_table 0 == null)) [
  | inl vacant ↦
      let (m', run, opened) = swap_pages-vacant t m low (ground (arith, vacant)) known in
      (protect_all true m', rw run refl, opened)
  | inr used ↦
      let (m', run, opened) =
        swap_pages-used t m low (ground (arith, used)) (ground (arith, used, free)) known in
      (protect_all true m', rw run refl, opened)
]

Consistent-new :
    (table : ℕ → Ptr) (metas : Ptr → PageMeta) (p : Ptr) (v : PageMeta)
    → Consistent table metas
    → ((k : ℕ) → table k < p)
    → v.page_frame ≡ 0
    → Consistent (update table 0 p) (update metas p v)
Consistent-new table metas p v agree below front k h used = elim (Bool-cases (k == 0)) [
  | inl first ↦ ground (arith, first, front)
  | inr later ↦
      let there : table k ≢ null = ground (arith, later, used) in
      ground (arith, later, agree k h there, below k)
]

-- The new meta of the thread's page, after what stood there.
abbrev pub page_meta : Tcb → PageMeta → PageMeta
page_meta t v = record v {
  page_frame = 0;
  tid = t.tid;
  next = null;
  head = null;
  middle = null;
  front_meta = null;
  num_pages = 1;
}

-- Frame 0 holds the new page.
abbrev pub placed : Tcb → Mm → Mm
placed t m =
    let m2 =
      enter
        (protect_all false (record (enter m) { os_mem_ptr = m.os_mem_ptr + sizeof_page_meta })) in
    record m2 {
      metas = update m.metas m.os_mem_ptr (page_meta t (m.metas m.os_mem_ptr));
      frame_table = update m.frame_table 0 m.os_mem_ptr;
      current_page_meta = m.os_mem_ptr;
      arena = record (m.arena) { head = null; middle = null };
    }

pub use_first_page-placed :
    (t : Tcb) (m m1 : Mm)
    → m.page_counter < 1596
    → swap_open 0 minus_one t m ≡ some m1
    → 0 < m1.os_mem_ptr
    → use_first_page t m ≡ some (some (record t { first_page = m1.os_mem_ptr }, placed t m1))
unfolding use_first_page new_meta clear_arena
use_first_page-placed t m m1 low run pos =
    let e : ltb m.page_counter 5692 ≡ true = ground (arith, low) in
    let e1 : (m1.os_mem_ptr == null) ≡ false = ground (arith, pos) in rw (e, run, e1) refl

-- The thread has a page of its own in frame 0, with no block in it.
abbrev pub Owned : Tcb → Mm → Mm → Type 0
Owned t m m' =
    Known m'
    × (m'.current_page_meta ≡ m.os_mem_ptr)
    × (m'.frame_table 0 ≡ m'.current_page_meta)
    × ((m'.metas m'.current_page_meta).tid ≡ t.tid)
    × (m'.myblock_ptr ≡ m.myblock_ptr)
    × (m'.arena.head ≡ null)
    × (m'.page_counter ≡ m.page_counter + 1)

pub use_first_page-Owned :
    (t : Tcb) (m : Mm)
    → Evictable m
    → Known m
    → (m' : Mm) × (use_first_page t m
        ≡ some (some (record t { first_page = m'.current_page_meta }, m')))
      × Owned t m m'
use_first_page-Owned t m ready known =
    let (m1, run, ((agree, below, pos), top, block, counter)) = swap_open-Opened t m ready known in
    (
      placed t m1,
      use_first_page-placed t m m1 ready.0 run pos,
      (
        (
          Consistent-new m1.frame_table m1.metas m1.os_mem_ptr
              (page_meta t (m1.metas m1.os_mem_ptr)) agree below refl,
          bounded m1.frame_table m1.os_mem_ptr below,
          omega (arith, pos),
        ),
        top,
        ground arith,
        ground arith,
        block,
        refl,
        counter,
      ),
    )
  where
    bounded :
        (table : ℕ → Ptr) (p : Ptr)
        → ((k : ℕ) → table k < p)
        → (k : ℕ) → update table 0 p k < p + sizeof_page_meta
    bounded table p below k = ground (arith, below k)
