-- ===== src/Memory/Allocate.antt =====
-- myallocate and shalloc of mymemorymanager.c.
use asst.Base.{ℕ, ◌*◌, false, Option, none, some, Ptr, null, ltb, ◌==◌, if◌then◌else◌, ◌>>=◌}
use asst.Types.{Tcb, Platform, ReqType, threadreq, libraryreq}
use asst.Malloc.{mymalloc}
use asst.Memory.{Mm, page_size, protect_all, frame_address}
use asst.Memory.Library.{begin_call, bump}
use asst.Memory.Page.{
  block_fuel, page_fuel, use_last_page, use_first_page, use_new_page, search_pages, run_mymalloc,
  store_arena,
}
use asst.Memory.Chunk.{allocate_chunk}

-- The end of a call that returns `p`.
abbrev pub finish : Ptr → Tcb → Mm → Ptr × Tcb × Mm
finish p t m = (p, t, record (protect_all false m) { mem_flag = false })

-- A new page, and the request in it.
unfoldable pub allocate_new_page : ℕ → Tcb → Mm → Option (Ptr × Tcb × Mm)
allocate_new_page x t m = do
  placed ← use_new_page t m
  elim placed [
    | none ↦ some (null, t, m)
    | some (t', m1) ↦ (do
      (p, m2) ← run_mymalloc x (frame_address t'.malloc_frame m1) page_size m1
      m3 ← store_arena m2
      some (finish p t' m3))
  ]

-- The request in the current page, in any page of the thread, or in a new one.
unfoldable pub allocate_in_pages : ℕ → Tcb → Mm → Option (Ptr × Tcb × Mm)
allocate_in_pages x t m = do
  (p, m1) ← run_mymalloc x (frame_address t.malloc_frame m) page_size m
  m2 ← store_arena m1
  if p == null
      then (do
        (q, m3) ← search_pages page_fuel x t.first_page 0 t m2
        if q == null then allocate_new_page x t m3 else some (finish q t m3))
      else some (finish p t m2)

-- A request of at most 4064 bytes. A return of NULL for want of pages leaves `mem_flag` set.
unfoldable pub allocate_small : ℕ → Tcb → Mm → Option (Ptr × Tcb × Mm)
allocate_small x t m =
    if t.first_page == null
    then (do
      placed ← use_first_page t m
      elim placed [ none ↦ some (null, t, m) | some (t', m1) ↦ allocate_in_pages x t' m1 ])
    else (do m1 ← use_last_page t m; allocate_in_pages x t m1)

-- `myallocate` on behalf of the current thread `t`.
unfoldable pub myallocate : Platform → ℕ → ReqType → Tcb → Mm → Option (Ptr × Tcb × Mm)
myallocate os x rt t m = do
  m1 ← begin_call os m
  elim rt [
    | libraryreq ↦ (let (p, m2) = bump x m1 in some (p, t, m2))
    | threadreq ↦ if ltb 4064 x then allocate_chunk x t m1 else allocate_small x t m1
  ]

-- `shalloc`, from the four shared pages.
unfoldable pub shalloc : ℕ → Mm → Option (Ptr × Mm)
shalloc size m = do
  (p, a) ←
      mymalloc block_fuel size m.shalloc_mem_ptr (4 * page_size)
        (record (m.arena) { head = m.shalloc_head; middle = m.shalloc_middle })
  some (p, record m { arena = a; shalloc_head = a.head; shalloc_middle = a.middle })
