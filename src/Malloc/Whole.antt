-- ===== src/Malloc/Whole.antt =====
-- The first request of a region and its free, with the addresses that they give.
use asst.Base.{
  ℕ, ◌+◌, ◌*◌, length-append, ◌<◌, ◌≤◌, ◌≡◌, ◌^◌, ◌∙◌, ap, false, subst, Option, some, List, [],
  ◌∷◌, ◌++◌, arith, Ptr, null, length,
}
use asst.Malloc.{sizeof_mementry, Arena, mymalloc, myfree, free_mem_count, freed}
use asst.Malloc.Blocks.{Block, block, end}
use asst.Malloc.Spec.{Zipper, blocks}
use asst.Malloc.Payloads.{payloads}
use asst.Malloc.Refine.{Represents}
use asst.Malloc.Merge.{Holds, coalesce, join_left, join_right}
use asst.Malloc.Free.{myfree-freed}
use asst.Malloc.Serve.{Served, served, refused}
use asst.Malloc.RoundTrip.{payload-BlockOf, payloads-coalesce}
use asst.Malloc.First.{fresh, started, mymalloc-first, free_bytes, free_mem_count-free_bytes}

-- Each block takes its header at least.
pub length-le : (p : Ptr) (bs : List Block) → p + length bs * 32 ≤ end p bs
length-le p [] = omega arith
length-le p (b ∷ bs) = omega (arith, length-le (p + sizeof_mementry + b.size) bs)

-- The region holds one payload, at `q`, of `x` bytes at least.
abbrev pub Hands : ℕ → Ptr → ℕ → Option (Ptr × Arena) → Type 0
Hands x memptr size r =
    (q : Ptr) × (a' : Arena) × (z : Zipper) × (n : ℕ) × (r ≡ some (q, a'))
    × Represents memptr z a'
    × (payloads memptr (blocks z) ≡ (q, n) ∷ [])
    × (end memptr (blocks z) ≡ memptr + size)
    × (memptr + sizeof_mementry ≤ q)
    × (q + x ≤ memptr + size)

alone :
    (below above ps : List (ℕ × ℕ)) (p : ℕ × ℕ)
    → [] ≡ below ++ above
    → ps ≡ below ++ p ∷ above
    → ps ≡ p ∷ []
alone [] [] ps p e e' = e'
alone [] (c ∷ above) ps p e e' = absurd (cc e)
alone (c ∷ below) above ps p e e' = absurd (cc e)

Hands-of_Served :
    (x memptr size : ℕ) (a : Arena) (r : Option (Ptr × Arena))
    → sizeof_mementry + x ≤ size
    → Served x memptr (fresh size) a r
    → Hands x memptr size r
Hands-of_Served x memptr size a r fits (refused e no_fit) = absurd (ground (arith, fits, no_fit.0))
Hands-of_Served x memptr size a r fits (served q a' z e rep h apart) =
    let only =
      alone h.payload.below h.payload.above _ (q, h.payload.size) h.payload.before
        h.payload.after in
    let placed = rw only at apart in
    (
      q,
      a',
      z,
      h.payload.size,
      e,
      rep,
      only,
      omega (arith, h.extent, fits),
      placed.0,
      omega (arith, placed.1, h.payload.enough, h.extent, fits),
    )

-- The first request in a region that has the bytes is served in the region, as its only payload.
pub mymalloc-Hands :
    (fuel x memptr size : ℕ) (a : Arena)
    → a.head ≡ null
    → 0 < memptr
    → sizeof_mementry + x ≤ size
    → size ≤ 2 ^ 31
    → 1 < fuel
    → Hands x memptr size (mymalloc fuel x memptr size a)
mymalloc-Hands fuel x memptr size a unset pos fits high enough =
    Hands-of_Served x memptr size (started memptr size a) (mymalloc fuel x memptr size a) fits
      (mymalloc-first fuel x memptr size a unset pos (omega (arith, fits)) high enough)

-- free_mem_count with more fuel than bytes.
pub free_mem_count-Holds :
    (fuel base size : ℕ) (bs : List Block) (a : Arena)
    → Holds base bs a
    → 0 < size
    → end base bs ≡ base + size
    → size < fuel
    → free_mem_count fuel a ≡ some (free_bytes bs)
free_mem_count-Holds fuel base size bs a h pos e enough =
    free_mem_count-free_bytes fuel base bs a h (omega (arith, length-le base bs, e, enough))
      (some_block base size bs e pos)
  where
    some_block :
        (base size : ℕ) (bs : List Block) → end base bs ≡ base + size → 0 < size → 0 < length bs
    some_block base size [] e pos = omega (arith, e, pos)
    some_block base size (b ∷ bs) e pos = omega arith

-- A merge leaves as many headers at most, and one at least.
length-join_left : (pre : List Block) (n : ℕ) → length (join_left pre n).0 ≤ length pre
length-join_left [] n = omega arith
length-join_left (c ∷ []) n = ground arith
length-join_left (c ∷ d ∷ cs) n = omega (arith, length-join_left (d ∷ cs) n)

length-join_right : (n : ℕ) (post : List Block) → length (join_right n post).1 ≤ length post
length-join_right n [] = omega arith
length-join_right n (c ∷ cs) = ground arith

pub length-coalesce :
    (pre : List Block) (n : ℕ) (post : List Block)
    → (0 < length (coalesce pre n post))
      × (length (coalesce pre n post) ≤ length pre + (1 + length post))
length-coalesce pre n post =
    let l = length-append (join_left pre n).0 (
      block (join_right (join_left pre n).1 post).0 false
      ∷ (join_right (join_left pre n).1 post).1) in
    (
      omega (arith, l),
      omega (arith, l, length-join_left pre n, length-join_right (join_left pre n).1 post),
    )

-- A free of the only payload of a region.
pub myfree-only :
    (base : Ptr) (a : Arena) (bs : List Block) (q n : ℕ)
    → Holds base bs a
    → payloads base bs ≡ (q, n) ∷ []
    → q ≤ base + 4999
    → (a' : Arena) × (bs' : List Block) × (myfree q a ≡ (freed, a'))
      × Holds base bs' a'
      × (payloads base bs' ≡ [])
      × (0 < length bs')
      × (length bs' ≤ length bs)
myfree-only base a bs q n h e near =
    let (pre, b, post, split, u, at, l, r) = payload-BlockOf base bs q n [] [] e in
    let (a', run, h') =
      myfree-freed base a pre b post (subst (λ l. Holds base l a) split h) u (rw at near) in
    let (some_block, fewer) = length-coalesce pre b.size post in
    (
      a',
      coalesce pre b.size post,
      rw at at run,
      h',
      payloads-coalesce base b.size pre post ∙ rw (l, r),
      some_block,
      omega (arith, fewer, ap length split, length-append pre (b ∷ post)),
    )
