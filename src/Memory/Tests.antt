-- ===== src/Memory/Tests.antt =====
-- The theorems of the memory manager at a block with two pages in use.
use asst.Base.{
  none, minus_one, ◌<◌, ℕ, ◌+◌, ◌*◌, ◌≡◌, ◌≤◌, inr, false, refl, some, Ptr, null, update, ◌==◌,
  if◌then◌else◌, arith,
}
use asst.Types.{Tcb, PageMeta}
use asst.Malloc.{Mementry}
use asst.Memory.{Mm}
use asst.Memory.Swap.{swap_pages}
use asst.Memory.Exchange.{Consistent, Exchanged}
use asst.Memory.Pages.{Evicted, swap_pages-Exchanged, swap_pages-Evicted, swap_pages-overflow}
use asst.Memory.Chunk.{num_of_pages}
use asst.Memory.Sizes.{num_of_pages-least, num_of_pages-wraps}

abbrev blank : Mementry
blank = record { size = 0; code = 0; free = 0; next = null; prev = null }

abbrev pub page_of : ℕ → ℕ → PageMeta
page_of frame tid = record {
  page_frame = frame;
  tid = tid;
  num_pages = 1;
  free_page_mem = 0;
  next = null;
  front_meta = null;
  head = null;
  middle = null;
}

abbrev table : ℕ → Ptr
table = update (update (λ k. null) 3 700) 5 800

abbrev page_metas : Ptr → PageMeta
page_metas p = if p == 700 then page_of 3 1 else page_of 5 2

-- Frame 3 holds a page of thread 1, and frame 5 one of thread 2.
abbrev pub block_mm : Mm
block_mm = record {
  myblock_ptr = 4096;
  frame_table = table;
  first_call = false;
  arena = record { mem = (λ a. record blank { size = a }); head = null; middle = null };
  os_mem_ptr = 4096 + 1601 * 4096;
  swap_temp = 4096 + 1600 * 4096;
  swap_file = λ o. blank;
  page_counter = 2;
  current_page_meta = null;
  mem_flag = false;
  shalloc_mem_ptr = 4096 + 1596 * 4096;
  shalloc_head = null;
  shalloc_middle = null;
  count = 0;
  metas = page_metas;
  access = λ i. false;
}

pub table-Consistent : Consistent table page_metas
table-Consistent k h used = ground (arith, used)

-- A thread whose pages play no part.
abbrev pub thread : Tcb
thread = record {
  tid = 1;
  thread_context = null;
  thread_priority = 0;
  join_id = 0;
  value_ptr = null;
  mid = 0;
  malloc_frame = 0;
  first_page = null;
}

swap_pages-Exchanged_example :
    (m' : Mm) × (swap_pages 3 5 thread block_mm ≡ some m')
    × (m'.mem_flag ≡ false)
    × Exchanged 3 5 block_mm m'
swap_pages-Exchanged_example =
    swap_pages-Exchanged 3 5 thread block_mm (omega arith) (omega arith) (omega arith) (omega arith)
      (omega arith) table-Consistent (inr (omega arith)) (inr (omega arith))

swap_pages-Evicted_example :
    (m' : Mm) × (swap_pages 3 minus_one thread block_mm ≡ some m')
    × (m'.mem_flag ≡ false)
    × Evicted 3 2 block_mm m'
swap_pages-Evicted_example =
    swap_pages-Evicted 3 thread block_mm (omega arith) (omega arith) (omega arith) (omega arith)
      table-Consistent

swap_pages-overflow_example :
    swap_pages 3 minus_one thread (record block_mm { page_counter = 1596 }) ≡ none
swap_pages-overflow_example =
    swap_pages-overflow 3 thread (record block_mm { page_counter = 1596 }) (omega arith)
      (omega arith) refl

num_of_pages-least_example :
    (9000 + 32 ≤ num_of_pages 9000 * 4096) × (num_of_pages 9000 * 4096 < 9000 + 32 + 4096)
num_of_pages-least_example = num_of_pages-least 9000 (omega arith)

num_of_pages_near_end : num_of_pages 4294967290 ≤ 1
num_of_pages_near_end = num_of_pages-wraps 4294967290 (omega arith) (omega arith)

num_of_pages_9000 : num_of_pages 9000 ≡ 3
unfolding num_of_pages
num_of_pages_9000 = refl
