-- ===== src/Malloc/Tests.antt =====
-- Runs of the allocator, and its theorems at a page with four blocks.
use asst.Base.{
  ◌+◌, ◌≡◌, refl, true, false, Option, none, some, List, [], ◌∷◌, arith, Ptr, null, update,
}
use asst.Malloc.{
  sizeof_mementry, Mementry, Mem, Arena, mymalloc, mymalloc_small, mymalloc_large,
  mymalloc_leftwards, initialize, walk_next, walk_prev, take_small, take_right, take_left, myfree,
  free_block, merge_prev, merge_next, free_mem_count, freed, double_free, out_of_bounds,
}
use asst.Malloc.Blocks.{Block, block, header}
use asst.Malloc.Spec.{Zipper, zipper, blocks, malloc, small, large, first_fit, last_fit}
use asst.Malloc.Payloads.{payloads}
use asst.Malloc.Refine.{Represents, Meets}
use asst.Malloc.Correct.{mymalloc-Meets}
use asst.Malloc.Serve.{Served, mymalloc-Served}
use asst.Malloc.Merge.{Holds, coalesce}
use asst.Malloc.Free.{myfree-freed, myfree-double_free}
use asst.Malloc.RoundTrip.{Holds-of_Represents, myfree-payload, mymalloc-myfree}
use asst.Malloc.Standalone as Standalone
use asst.Malloc.Agree.{told, told_free, mymalloc-told, myfree-told_free}
use asst.Malloc.First.{fresh, started, mymalloc-first, free_bytes, free_mem_count-free_bytes}

abbrev blank : Mementry
blank = record { size = 0; code = 0; free = 0; next = null; prev = null }

abbrev base : Ptr
base = 8192

-- Used, free, used, free.
abbrev b0 : Block
b0 = block 40 true

abbrev b1 : Block
b1 = block 1000 false

abbrev b2 : Block
b2 = block 96 true

abbrev b3 : Block
b3 = block 2832 false

abbrev page : Zipper
page = zipper (b0 ∷ []) b1 (b2 ∷ b3 ∷ [])

abbrev memory : Mem
memory =
    update
      (update (update (update (λ _. blank) 8192 (header b0 0 8264)) 8264 (header b1 8192 9296)) 9296
        (header b2 8264 9424))
      9424 (header b3 9296 0)

abbrev arena : Arena
arena = record { head = 8192; middle = 8264; mem = memory }

page-Represents : Represents base page arena
page-Represents = record {
  base_pos = omega arith;
  head = refl;
  middle = refl;
  bound = omega arith;
  seg = (refl, (refl, (refl, (refl, tt))));
}

page-Holds : Holds base (blocks page) arena
page-Holds = Holds-of_Represents base page arena page-Represents

-- The address of a request's result.
abbrev address : Option (Ptr × Arena) → Option Ptr
address none = none
address (some (p, a)) = some p

-- A small request is served from the block of `middle`, a large one from the right of it.
requests :
    (address (mymalloc 9 50 null 0 arena) ≡ some 8296)
    × (address (mymalloc 9 500 null 0 arena) ≡ some 9456)
    × (address (mymalloc 9 3000 null 0 arena) ≡ some null)
unfolding mymalloc mymalloc_small mymalloc_large mymalloc_leftwards initialize walk_next walk_prev
    take_small take_right take_left
requests = (refl, refl, refl)

-- With the free block on the right gone, a large request is served from the right of `middle`'s.
leftwards :
    malloc 200 base (zipper (b0 ∷ []) b1 [])
    ≡ some (9096, zipper (b0 ∷ []) (block 768 false) (block 200 true ∷ []))
unfolding malloc small large first_fit last_fit
leftwards = refl

free_reports :
    ((myfree 8224 arena).0 ≡ freed)
    × ((myfree 8296 arena).0 ≡ double_free)
    × ((myfree 13192 arena).0 ≡ out_of_bounds)
unfolding myfree free_block merge_prev merge_next
free_reports = (refl, refl, refl)

mymalloc-Served_example : Served 50 base page arena (mymalloc 9 50 null 0 arena)
mymalloc-Served_example = mymalloc-Served 9 50 null 0 base arena page page-Represents (omega arith)

mymalloc-Meets_example : Meets base arena (malloc 500 base page) (mymalloc 9 500 null 0 arena)
mymalloc-Meets_example = mymalloc-Meets 9 500 null 0 base arena page page-Represents (omega arith)

myfree-freed_example :
    (a' : Arena) × (myfree (9296 + sizeof_mementry) arena ≡ (freed, a'))
    × Holds base (coalesce (b0 ∷ b1 ∷ []) 96 (b3 ∷ [])) a'
myfree-freed_example =
    myfree-freed base arena (b0 ∷ b1 ∷ []) b2 (b3 ∷ []) page-Holds refl (omega arith)

free_twice : myfree (8264 + sizeof_mementry) arena ≡ (double_free, arena)
free_twice = myfree-double_free base arena (b0 ∷ []) b1 (b2 ∷ b3 ∷ []) page-Holds refl (omega arith)

free_one :
    (a' : Arena) × (bs' : List Block) × (myfree 9328 arena ≡ (freed, a'))
    × Holds base bs' a'
    × (payloads base bs' ≡ (8224, 40) ∷ [])
free_one =
    myfree-payload base arena (blocks page) 9328 96 ((8224, 40) ∷ []) [] page-Holds refl
      (omega arith)

-- The arena after a request for 50 bytes.
abbrev after_request : Arena
after_request = (take_small 50 8264 arena).1

request_50 : mymalloc 9 50 null 0 arena ≡ some (8296, after_request)
unfolding mymalloc mymalloc_small initialize walk_next take_small
request_50 = refl

mymalloc-myfree_example :
    (a'' : Arena) × (bs : List Block) × (myfree 8296 after_request ≡ (freed, a''))
    × Holds base bs a''
    × (payloads base bs ≡ payloads base (blocks page))
mymalloc-myfree_example =
    mymalloc-myfree 9 50 null 0 base arena after_request page 8296 page-Represents (omega arith)
      request_50 (omega arith) (omega arith)

first_of_region :
    Served 600 4096
      (fresh 4096)
      (started 4096 4096 (record arena { head = null }))
      (mymalloc 9 600 4096 4096 (record arena { head = null }))
first_of_region =
    mymalloc-first 9 600 4096 4096 (record arena { head = null }) refl (omega arith) (omega arith)
      (omega arith) (omega arith)

free_bytes_of_page : free_mem_count 9 arena ≡ some (free_bytes (blocks page))
free_bytes_of_page =
    free_mem_count-free_bytes 9 base (blocks page) arena page-Holds (omega arith) (omega arith)

mymalloc-told_example : Standalone.mymalloc 9 500 null 0 arena ≡ told (mymalloc 9 500 null 0 arena)
mymalloc-told_example = mymalloc-told 9 500 null 0 arena

myfree-told_free_example : Standalone.myfree 9328 arena ≡ told_free (myfree 9328 arena)
myfree-told_free_example = myfree-told_free 9328 arena
