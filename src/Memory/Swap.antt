-- ===== src/Memory/Swap.antt =====
-- swap_pages, swap_handler and lock_mem of mymemorymanager.c.
use asst.Base.{
  ℕ, ◌+◌, ◌-◌, ◌*◌, ◌/◌, ◌%◌, ◌^◌, true, false, Option, some, Ptr, null, minus_one, ltb, ◌==◌,
  if◌then◌else◌, update, ◌>>=◌,
}
use asst.Types.{Tcb}
use asst.Memory.{
  Mm, num_frames, page_size, protect_all, enter, frame_at, set_frame, meta_at, set_page_frame,
  frame_address, copy_page, with_mem, read_page, write_page, nth_page,
}

-- The frames below this number lie in memory for swap_pages, those from it on in the file. The numbers
-- compared with it are below 2 ^ 31, where the comparison of the patterns is that of the integers.
abbrev pub swap_start : ℕ
swap_start = 1597

-- An eviction to the next unused frame of memory.
unfoldable pub evict_to_memory : ℕ → Mm → Option Mm
evict_to_memory src_frame m = do
  let m1 =
      with_mem (copy_page (frame_address m.page_counter m) (frame_address src_frame m) m.arena.mem)
        m
  p ← frame_at src_frame m1
  if p == null then some m1 else (do
    m2 ← set_page_frame p m1.page_counter m1
    m3 ← set_frame m2.page_counter p m2
    set_frame src_frame null m3)

-- An eviction to the next unused page of the swap file.
unfoldable pub evict_to_file : ℕ → Mm → Option Mm
evict_to_file src_frame m = do
  p ← frame_at src_frame m
  m1 ← set_page_frame p m.page_counter m
  some (write_page ((m1.page_counter - swap_start) * page_size) (frame_address src_frame m1) m1)

-- An exchange of two frames of memory.
unfoldable pub swap_in_memory : ℕ → ℕ → Mm → Option Mm
swap_in_memory src_frame dest_frame m = do
  let src = frame_address src_frame m
  let dest = frame_address dest_frame m
  let mem1 = copy_page m.swap_temp src m.arena.mem
  let mem2 = copy_page src dest mem1
  let m1 = with_mem (copy_page dest m.swap_temp mem2) m
  temp_pm ← frame_at src_frame m1
  p ← frame_at dest_frame m1
  m2 ← set_frame src_frame p m1
  m3 ← set_frame dest_frame temp_pm m2
  q ← frame_at src_frame m3
  m4 ← set_page_frame q src_frame m3
  r ← frame_at dest_frame m4
  set_page_frame r dest_frame m4

-- The offset in the swap file of a page to be read back: the source has 4906.
abbrev pub read_offset : ℕ → ℕ
read_offset dest_frame = (dest_frame - swap_start) * 4906

-- An exchange with a page of the swap file. The page is the `src_frame`-th of the current thread.
unfoldable pub swap_with_file : ℕ → ℕ → Tcb → Mm → Option Mm
unfolding nth_page
swap_with_file src_frame dest_frame current m = do
  p ← frame_at src_frame m
  m1 ← set_page_frame p dest_frame m
  temp_pm ← nth_page src_frame current.first_page m1
  m2 ← set_page_frame temp_pm src_frame m1
  m3 ← set_frame src_frame temp_pm m2
  let src = frame_address src_frame m3
  let m4 = with_mem (copy_page m3.swap_temp src m3.arena.mem) m3
  let m5 = read_page (read_offset dest_frame) src m4
  some (write_page (read_offset dest_frame) m5.swap_temp m5)

unfoldable pub swap_pages : ℕ → ℕ → Tcb → Mm → Option Mm
unfolding evict_to_memory evict_to_file swap_in_memory swap_with_file
swap_pages src_frame dest_frame current m = do
  let m0 = enter (record m { count = (m.count + 1) % 2 ^ 32 })
  m1 ←
      (if dest_frame == minus_one
        then (do
          m' ←
              (if ltb m0.page_counter swap_start
                then evict_to_memory src_frame m0
                else evict_to_file src_frame m0)
          some (record m' { page_counter = (m'.page_counter + 1) % 2 ^ 32 }))
        else (if ltb dest_frame swap_start
            then swap_in_memory src_frame dest_frame m0
            else swap_with_file src_frame dest_frame current m0))
  some (record m1 { mem_flag = false })

-- `exit(EXIT_FAILURE)`, or the new state.
pub data Handled : Type 0 where
  exited : Handled
  handled : Mm → Handled

-- `(int)(p - q)`, as the 32-bit pattern of an `int`, of two 64-bit addresses.
abbrev pub int_difference : Ptr → Ptr → ℕ
int_difference p q = (p + 2 ^ 64 - q) % 2 ^ 32

-- The fault handler at the address `seg_address`. A negative offset is a pattern from 2 ^ 31 on, so
-- the one test of the pattern stands for the two of the source.
unfoldable pub swap_handler : Ptr → Tcb → Mm → Option Handled
swap_handler seg_address current m =
    let difference = int_difference seg_address m.myblock_ptr in
    let frame = difference / page_size in
    if ltb (num_frames * page_size) difference
    then some exited
    else (if ltb current.malloc_frame frame then some exited else (do
      p ← frame_at frame m
      v ← meta_at p m
      m' ←
          (if v.tid == current.tid then some m else (do
            temp_ptr ← nth_page frame current.first_page m
            u ← meta_at temp_ptr m
            m1 ← swap_pages frame u.page_frame current m
            some (protect_all false m1)))
      some (handled (record m' { access = update m'.access frame true }))))

unfoldable pub lock_mem : Mm → Mm
lock_mem m = protect_all false m
