-- ===== src/Memory/Release.antt =====
-- mydeallocate of mymemorymanager.c.
use asst.Base.{ℕ, ◌^◌, ◌-◌, ◌/◌, false, Option, none, some, Ptr, ltb, ◌==◌, if◌then◌else◌, ◌>>=◌}
use asst.Types.{Tcb}
use asst.Malloc.{FreeReport, myfree}
use asst.Memory.{Mm, page_size, protect_all, enter, frame_at, meta_at, nth_page}
use asst.Memory.Swap.{int_difference}
use asst.Memory.Page.{swap_open, load_arena, store_arena}

-- `myfree` in the page of `current_page_meta`.
unfoldable pub free_in_page : Ptr → Mm → Option (FreeReport × Mm)
unfolding store_arena
free_in_page x m = do
  let (report, a) = myfree x m.arena
  m' ← store_arena (record m { arena = a })
  some (report, m')

-- The meta of the thread's page at `index`, which is not in its frame.
unfoldable pub find_page : ℕ → Tcb → Mm → Option Ptr
find_page index t m =
    let walk = nth_page index t.first_page m in
    if index == 0 then walk else (do
      p ← frame_at (index - 1) m
      v ← meta_at p m
      if v.tid == t.tid then some v.next else walk)

-- `(int)(x - myblock_ptr) / 4096`, which rounds to zero; none where it is negative.
unfoldable pub page_index : Ptr → Ptr → Option ℕ
page_index x base =
    let mem_offset = int_difference x base in
    if ltb mem_offset (2 ^ 31)
    then some (mem_offset / page_size)
    else (if ltb (2 ^ 32 - mem_offset) page_size then some 0 else none)

-- `mydeallocate` returns 0; the report is what `myfree` prints. A negative index is a fault.
unfoldable pub mydeallocate : Ptr → Tcb → Mm → Option (FreeReport × Mm)
mydeallocate x t m0 = do
  let m = enter m0
  index ← page_index x m.myblock_ptr
  p ← frame_at index m
  v ← meta_at p m
  (report, m') ←
      (if v.tid == t.tid
        then (do m1 ← load_arena (record m { current_page_meta = p }); free_in_page x m1)
        else (do
          temp ← find_page index t m
          m1 ← load_arena (record m { current_page_meta = temp })
          u ← meta_at temp m1
          m2 ← swap_open index u.page_frame t m1
          free_in_page x m2))
  some (report, record (protect_all false m') { mem_flag = false })
