-- ===== src/Memory/Cases.antt =====
-- Faults, the swap file and the first request of a thread, at a block with two pages in use.
use asst.Base.{
  ℕ, ◌+◌, ◌*◌, ◌≡◌, ◌≢◌, ◌<◌, ◌≤◌, ◌⊎◌, inl, inr, true, refl, none, some, Option, Ptr, null,
  minus_one, update, ◌==◌, if◌then◌else◌, arith,
}
use asst.Types.{Tcb, PageMeta, Platform, threadreq}
use asst.Malloc.{
  freed, mymalloc, initialize, mymalloc_large, walk_next, walk_prev, free_mem_count, take_left,
}
use asst.Memory.Page.{block_fuel}
use asst.Memory.{Mm, frame_address, nth_page}
use asst.Memory.Swap.{swap_pages, swap_handler, handled}
use asst.Memory.Exchange.{Consistent}
use asst.Memory.Fault.{Brought, swap_handler-Brought}
use asst.Memory.File.{swap_pages-shifted}
use asst.Memory.Chunk.{allocate_chunk, num_of_pages}
use asst.Memory.Lost.{allocate_chunk-Lost}
use asst.Memory.Allocate.{myallocate}
use asst.Memory.Release.{mydeallocate}
use asst.Memory.FirstPage.{Known}
use asst.Memory.FirstRequest.{HasBlock, myallocate-HasBlock}
use asst.Memory.FirstFree.{HasNone, myallocate-mydeallocate}
use asst.Memory.Tests.{page_of, block_mm, thread, table-Consistent}

abbrev platform : Platform
platform = record {
  memalign = 4096;
  sigaction = true;
  setitimer = λ usec. true;
  sizeof_ucontext = 936;
}

-- Frame 0 holds a page of thread 1, and frame 5 the first page of thread 2.
abbrev table : ℕ → Ptr
table = update (update (λ k. null) 0 700) 5 800

abbrev page_metas : Ptr → PageMeta
page_metas p = if p == 700 then page_of 0 1 else page_of 5 2

abbrev two_pages : Mm
two_pages = record block_mm { frame_table = table; metas = page_metas }

abbrev second : Tcb
second = record thread { tid = 2; first_page = 800 }

two_pages-Consistent : Consistent table page_metas
two_pages-Consistent k h used = ground (arith, used)

first_of_second : nth_page 0 800 two_pages ≡ some 800
unfolding nth_page
first_of_second = refl

swap_handler-Brought_example :
    ((page_metas 700).tid ≡ second.tid)
      × (swap_handler 4136 second two_pages
          ≡ some (handled (record two_pages { access = update two_pages.access 0 true })))
    ⊎ ((m' : Mm) × ((page_metas 700).tid ≢ second.tid)
        × (swap_handler 4136 second two_pages ≡ some (handled m'))
        × Brought 0 5 800 second two_pages m')
swap_handler-Brought_example =
    swap_handler-Brought 4136 0 5 800 second two_pages (omega arith) (omega arith) (omega arith)
      (omega arith) (omega arith) (omega arith) first_of_second (omega arith) refl refl
      two_pages-Consistent (inr (omega arith)) (inr (omega arith))

-- The same block with 1598 pages given out.
abbrev full : Mm
full = record two_pages { page_counter = 1598 }

first_in_full : nth_page 0 800 full ≡ some 800
unfolding nth_page
first_in_full = refl

swap_pages-shifted_example :
    (m1 : Mm) × (m2 : Mm) × (swap_pages 0 minus_one thread full ≡ some m1)
    × (swap_pages 0 1598 second m1 ≡ some m2)
    × ((j : ℕ)
        → 810 + j < 4096
        → m2.arena.mem (frame_address 0 full + j)
          ≡ full.arena.mem (frame_address 0 full + (810 + j)))
    × ((j : ℕ)
        → j < 4096
        → 4096 ≤ 810 + j
        → m2.arena.mem (frame_address 0 full + j) ≡ full.swap_file (4906 + j))
swap_pages-shifted_example =
    swap_pages-shifted 0 1 800 thread second full (omega arith) (omega arith) refl first_in_full
      (omega arith) (omega arith)

block_mm-Known : Known block_mm
block_mm-Known = (table-Consistent, (λ k. ground arith), omega arith)

first_request :
    (q : Ptr) × (t' : Tcb) × (m' : Mm) × (myallocate platform 600 threadreq thread block_mm
      ≡ some (q, t', m'))
    × (t'.first_page ≡ 4096 + 1601 * 4096)
    × (m'.myblock_ptr ≡ 4096)
    × HasBlock 600 q t' m'
first_request =
    myallocate-HasBlock platform 600 thread block_mm refl (omega arith) refl refl (omega arith)
      (omega arith, inl refl) block_mm-Known

first_request_returned :
    (q : Ptr) × (t' : Tcb) × (m' : Mm) × (m'' : Mm) × (myallocate platform 600 threadreq thread
        block_mm
      ≡ some (q, t', m'))
    × (mydeallocate q t' m' ≡ some (freed, m''))
    × HasNone t' m''
first_request_returned =
    myallocate-mydeallocate platform 600 thread block_mm refl (omega arith) (omega arith) refl refl
      (omega arith) (omega arith, inl refl) block_mm-Known

-- Thread 1 has the page in frame 0 and makes a request of two pages.
abbrev one_page : Tcb
one_page = record thread { tid = 1; first_page = 700; malloc_frame = 0 }

abbrev told_state : Option (Ptr × Tcb × Mm) → Ptr × Tcb × Mm
told_state none = (null, one_page, two_pages)
told_state (some r) = r

abbrev chunked : Ptr × Tcb × Mm
chunked = told_state (allocate_chunk 5000 one_page two_pages)

two_more : num_of_pages 5000 ≡ 2
unfolding num_of_pages
two_more = refl

chunk_placed : allocate_chunk 5000 one_page two_pages ≡ some chunked
unfolding allocate_chunk mymalloc initialize mymalloc_large walk_next block_fuel walk_prev
    free_mem_count take_left
chunk_placed = refl

second_page : nth_page 1 chunked.1.first_page chunked.2 ≡ some (two_pages.os_mem_ptr + 48)
unfolding allocate_chunk nth_page mymalloc initialize mymalloc_large walk_next block_fuel walk_prev
    free_mem_count take_left
second_page = refl

allocate_chunk-Lost_example : two_pages.os_mem_ptr + 48 ≢ 700
allocate_chunk-Lost_example =
    allocate_chunk-Lost 5000 1 one_page chunked.1 two_pages chunked.2 chunked.0
      (two_pages.os_mem_ptr + 48) 700 (omega arith) (omega (arith, two_more)) (omega arith)
      (omega arith) chunk_placed second_page
