-- ===== src/Memory/Page.antt =====
-- The page that a request of a thread is served from: the current one, the first one, one that the
-- thread has, or a new one.
use asst.Base.{
  ℕ, zero, suc, ◌+◌, ◌-◌, ◌^◌, Bool, true, ◌&&◌, Option, none, some, Ptr, null, minus_one, ltb, leb,
  ◌==◌, if◌then◌else◌, ◌>>=◌,
}
use asst.Types.{Tcb, PageMeta}
use asst.Malloc.{mymalloc, free_mem_count}
use asst.Memory.{Mm, num_frames, protect_all, frame_at, set_frame, meta_at, set_meta, set_next_page}
use asst.Memory.Swap.{swap_pages}
use asst.Memory.Library.{new_meta}

-- More than the blocks that the shared frames can hold, and more than the pages.
unfoldable pub block_fuel : ℕ
block_fuel = 2 ^ 18

unfoldable pub page_fuel : ℕ
page_fuel = 2 ^ 13

abbrev pub max_pages : ℕ
max_pages = 5692

-- `swap_pages` and the mprotect that opens the memory again.
unfoldable pub swap_open : ℕ → ℕ → Tcb → Mm → Option Mm
unfolding swap_pages
swap_open src_frame dest_frame t m = do
  m' ← swap_pages src_frame dest_frame t m
  some (protect_all true m')

-- `head` and `middle` from `current_page_meta`, and back to it with the free memory.
unfoldable pub load_arena : Mm → Option Mm
load_arena m = do
  v ← meta_at m.current_page_meta m
  some (record m { arena = record (m.arena) { head = v.head; middle = v.middle } })

unfoldable pub clear_arena : Mm → Mm
clear_arena m = record m { arena = record (m.arena) { head = null; middle = null } }

unfoldable pub store_arena : Mm → Option Mm
store_arena m = do
  v ← meta_at m.current_page_meta m
  n ← free_mem_count block_fuel m.arena
  set_meta m.current_page_meta
      (record v { head = m.arena.head; middle = m.arena.middle; free_page_mem = n }) m

-- `mymalloc` on the globals.
unfoldable pub run_mymalloc : ℕ → Ptr → ℕ → Mm → Option (Ptr × Mm)
run_mymalloc x memptr size m = do
  (p, a) ← mymalloc block_fuel x memptr size m.arena
  some (p, record m { arena = a })

-- The last page of a list.
unfoldable pub last_page : ℕ → Ptr → Mm → Option Ptr
last_page zero p m = none
last_page (suc f) p m = do v ← meta_at p m; if v.next == null then some p else last_page f v.next m

-- The pages of a chunk before the current one are swapped to the frames where they belong. The
-- loop reads `frame_table` and `page_frame` anew in each round.
unfoldable pub gather_chunk : ℕ → ℕ → Ptr → Tcb → Mm → Option Mm
gather_chunk zero i swap_ptr t m = none
gather_chunk (suc f) i swap_ptr t m = do
  c ← meta_at m.current_page_meta m
  if ltb i c.page_frame
      then (do
        temp_ptr ← frame_at i m
        m' ←
            (if temp_ptr == swap_ptr then some m else (do
              u ← meta_at temp_ptr m
              v ← meta_at swap_ptr m
              swap_open u.page_frame v.page_frame t m))
        w ← meta_at swap_ptr m'
        gather_chunk f (i + 1) w.next t m')
      else some m

unfoldable pub gather_front : Tcb → Mm → Option Mm
gather_front t m = do
  c ← meta_at m.current_page_meta m
  if c.front_meta == null then some m else (do
    front ← meta_at c.front_meta m
    gather_chunk page_fuel front.page_frame c.front_meta t m)

-- The thread has a page: its last one is brought to its frame.
unfoldable pub use_last_page : Tcb → Mm → Option Mm
use_last_page t m = do
  temp_ptr ← frame_at t.malloc_frame m
  v ← meta_at temp_ptr m
  m1 ←
      (if v.tid == t.tid then some (record m { current_page_meta = temp_ptr }) else (do
        q ← last_page page_fuel t.first_page m
        u ← meta_at q m
        m' ← swap_open t.malloc_frame u.page_frame t m
        some (record m' { current_page_meta = q })))
  m2 ← gather_front t m1
  load_arena m2

-- The first page of a thread. `free_page_mem` keeps what the memory held; NULL in place of a
-- state: there is no page left.
unfoldable pub use_first_page : Tcb → Mm → Option (Option (Tcb × Mm))
unfolding swap_open new_meta clear_arena
use_first_page t m =
    if ltb m.page_counter max_pages
    then (do
      m1 ← swap_open 0 minus_one t m
      let (p, m2) = new_meta m1
      v ← meta_at p m2
      m3 ←
          set_meta p
            (record v {
              page_frame = 0;
              tid = t.tid;
              next = null;
              head = null;
              middle = null;
              front_meta = null;
              num_pages = 1;
            })
            m2
      m4 ← set_frame 0 p m3
      some (some (record t { first_page = p }, clear_arena (record m4 { current_page_meta = p }))))
    else some none

-- A new page behind those that the thread has. `front_meta` keeps what the memory held.
unfoldable pub use_new_page : Tcb → Mm → Option (Option (Tcb × Mm))
use_new_page t0 m =
    if ltb m.page_counter max_pages && ltb t0.malloc_frame num_frames
    then (do
      let t = record t0 { malloc_frame = t0.malloc_frame + 1 }
      m1 ← swap_open t.malloc_frame minus_one t m
      let (p, m2) = new_meta m1
      v ← meta_at p m2
      m3 ←
          set_meta p
            (record v {
              page_frame = t.malloc_frame;
              tid = t.tid;
              next = null;
              head = null;
              middle = null;
              num_pages = 1;
            })
            m2
      m4 ← set_frame t.malloc_frame p m3
      before ← frame_at (t.malloc_frame - 1) m4
      m5 ← set_next_page before p m4
      some (some (t, clear_arena (record m5 { current_page_meta = p }))))
    else some none

-- `free_page_mem >= (int)x`, of signed numbers: -1 marks the inner pages of a chunk.
abbrev pub may_fit : ℕ → PageMeta → Bool
may_fit x v = ltb v.free_page_mem (2 ^ 31) && leb x v.free_page_mem

-- One page of the search through the pages of a thread: the address, NULL if it does not fit.
unfoldable pub try_page : ℕ → Ptr → ℕ → Tcb → Mm → Option (Ptr × Mm)
try_page x temp_ptr counter t m = do
  v ← meta_at temp_ptr m
  if may_fit x v
      then (do
        let m1 = record m { current_page_meta = temp_ptr }
        m2 ← (if v.page_frame == counter then some m1 else swap_open counter v.page_frame t m1)
        m3 ← gather_front t m2
        m4 ← load_arena m3
        (p, m5) ← run_mymalloc x null 0 m4
        if p == null then some (null, m5) else (do m6 ← store_arena m5; some (p, m6)))
      else some (null, m)

unfoldable pub search_pages : ℕ → ℕ → Ptr → ℕ → Tcb → Mm → Option (Ptr × Mm)
search_pages zero x temp_ptr counter t m = none
search_pages (suc f) x temp_ptr counter t m = if temp_ptr == null then some (null, m) else (do
  (p, m') ← try_page x temp_ptr counter t m
  v ← meta_at temp_ptr m'
  let rest = search_pages f x v.next (counter + 1) t m'
  if p == null then rest else some (p, m'))
