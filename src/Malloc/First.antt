-- ===== src/Malloc/First.antt =====
-- The first call of mymalloc in a page or chunk, and free_mem_count.
use asst.Base.{
  ℕ, zero, suc, ◌+◌, ◌-◌, ◌%◌, ◌<◌, ◌≤◌, ◌≡◌, ◌^◌, refl, inl, inr, Bool-cases, false, some, List,
  [], ◌∷◌, arith, Ptr, null, if◌then◌else◌, update, length,
}
use asst.Malloc.{
  sizeof_mementry, mycode, Mem, Arena, initialize, mymalloc, free_count_from, free_mem_count,
}
use asst.Malloc.Blocks.{Block, block, end, link, Seg}
use asst.Malloc.Spec.{Zipper, zipper}
use asst.Malloc.Refine.{Represents}
use asst.Malloc.Merge.{Holds}
use asst.Malloc.Serve.{Served, mymalloc-Served}

-- One free block that fills the region of `size` bytes.
abbrev pub fresh : ℕ → Zipper
fresh size = zipper [] (block (size - sizeof_mementry) false) []

-- The arena that `initialize` makes.
abbrev pub started : Ptr → ℕ → Arena → Arena
started memptr size a = record {
  head = memptr;
  middle = memptr;
  mem = update a.mem memptr (record {
    size = (size + 2 ^ 64 - sizeof_mementry) % 2 ^ 32;
    code = mycode;
    free = 1;
    next = null;
    prev = null;
  });
}

pub started-Represents :
    (memptr : Ptr) (size : ℕ) (a : Arena)
    → 0 < memptr
    → sizeof_mementry ≤ size
    → size ≤ 2 ^ 31
    → Represents memptr (fresh size) (started memptr size a)
started-Represents memptr size a pos low high = record {
  base_pos = pos;
  head = refl;
  middle = refl;
  bound = omega arith;
  seg = (ground arith, tt);
}

initialize-started :
    (memptr : Ptr) (size : ℕ) (a : Arena)
    → a.head ≡ null
    → 0 < memptr
    → initialize memptr size a ≡ some (started memptr size a)
unfolding initialize
initialize-started memptr size a unset pos = ground (arith, unset)

initialize_again :
    (memptr : Ptr) (size : ℕ) (a : Arena)
    → 0 < memptr
    → initialize memptr size (started memptr size a) ≡ some (started memptr size a)
unfolding initialize
initialize_again memptr size a pos = ground arith

pub same_run :
    (fuel x : ℕ) (memptr : Ptr) (size : ℕ) (a : Arena)
    → a.head ≡ null
    → 0 < memptr
    → mymalloc fuel x memptr size a ≡ mymalloc fuel x memptr size (started memptr size a)
unfolding mymalloc
same_run fuel x memptr size a unset pos =
    rw (initialize-started memptr size a unset pos, initialize_again memptr size a pos)

-- The first request in a region at `memptr`, not NULL, of `size` bytes, at least a header and at
-- most 2 ^ 31, sets up one free block that fills the region, and is served from it.
pub mymalloc-first :
    (fuel x : ℕ) (memptr : Ptr) (size : ℕ) (a : Arena)
    → a.head ≡ null
    → 0 < memptr
    → sizeof_mementry ≤ size
    → size ≤ 2 ^ 31
    → 1 < fuel
    → Served x memptr (fresh size) (started memptr size a) (mymalloc fuel x memptr size a)
mymalloc-first fuel x memptr size a unset pos low high enough =
    rw (same_run fuel x memptr size a unset pos) (
      mymalloc-Served fuel x memptr size memptr (started memptr size a) (fresh size)
        (started-Represents memptr size a pos low high) enough)

-- The free bytes of blocks.
unfoldable pub free_bytes : List Block → ℕ
free_bytes [] = 0
free_bytes (b ∷ bs) = (if b.used then 0 else b.size) + free_bytes bs

free_bytes-le : (p : ℕ) (bs : List Block) → p + free_bytes bs ≤ end p bs
unfolding free_bytes
free_bytes-le p [] = omega arith
free_bytes-le p (b ∷ bs) = ground (arith, free_bytes-le (p + sizeof_mementry + b.size) bs)

free_count_from-free_bytes :
    (f rtn : ℕ) (m : Mem) (prev p : Ptr) (bs : List Block)
    → 0 < p
    → rtn + free_bytes bs < 2 ^ 32
    → length bs < f
    → Seg m prev p bs null
    → free_count_from f rtn m (link p bs null) ≡ some (rtn + free_bytes bs)
unfolding free_count_from free_bytes
free_count_from-free_bytes zero rtn m prev p bs pos small l s = absurd (omega arith)
free_count_from-free_bytes (suc f) rtn m prev p [] pos small l s = ground arith
free_count_from-free_bytes (suc f) rtn m prev p (b ∷ bs) pos small l s = elim (Bool-cases b.used) [
  | inl u ↦ ground (
    arith,
    u,
    s.0,
    free_count_from-free_bytes f rtn m p (p + sizeof_mementry + b.size) bs (omega arith)
        (ground (arith, u)) (omega arith) s.1,
  )
  | inr n ↦ ground (
    arith,
    n,
    s.0,
    free_count_from-free_bytes f (rtn + b.size) m p (p + sizeof_mementry + b.size) bs (omega arith)
        (ground (arith, n)) (omega arith) s.1,
  )
]

link_self : (p : Ptr) (bs : List Block) (stop : Ptr) → 0 < length bs → link p bs stop ≡ p
link_self p [] stop h = absurd (omega arith)
link_self p (b ∷ bs) stop h = refl

-- On an arena with a block, and more fuel than blocks, free_mem_count returns the sum of the sizes
-- of the free blocks, with no overflow.
pub free_mem_count-free_bytes :
    (fuel : ℕ) (base : Ptr) (bs : List Block) (a : Arena)
    → Holds base bs a
    → length bs < fuel
    → 0 < length bs
    → free_mem_count fuel a ≡ some (free_bytes bs)
unfolding free_mem_count
free_mem_count-free_bytes fuel base bs a h enough ne = ground (
  arith,
  h.head,
  link_self base bs null ne,
  free_count_from-free_bytes fuel 0 a.mem null base bs h.base_pos
      (omega (arith, free_bytes-le base bs, h.bound)) enough h.seg,
)
