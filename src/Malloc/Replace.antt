-- ===== src/Malloc/Replace.antt =====
-- The writes of mymalloc and myfree as changes of a segment.
use asst.Base.{
  ℕ, ◌+◌, ◌-◌, ◌<◌, ◌^◌, ◌≡◌, ◌≢◌, refl, ◌⊎◌, inl, inr, Bool, true, false, List, [], ◌∷◌, ◌++◌,
  arith, Ptr, null,
}
use asst.Malloc.{sizeof_mementry, Mem, split_left, split_right}
use asst.Malloc.Blocks.{
  Block, block, header, end, last, link, Seg, Seg-append, Seg-split, Seg-frame, le-end,
}

pub link-cases : (p : Ptr) (bs : List Block) → (link p bs null ≡ null) ⊎ (link p bs null ≡ p)
link-cases p [] = inl refl
link-cases p (b ∷ bs) = inr refl

-- The head of a segment gets another `prev`, the rest stays.
pub Seg-set_prev :
    (m m' : Mem) (prev prev' p : Ptr) (bs : List Block)
    → 0 < p
    → (0 < link p bs null → m' p ≡ record (m p) { prev = prev' })
    → ((a : Ptr) → p < a → a < end p bs → m' a ≡ m a)
    → Seg m prev p bs null
    → Seg m' prev' p bs null
Seg-set_prev m m' prev prev' p [] pos head same s = tt
Seg-set_prev m m' prev prev' p (b ∷ bs) pos head same s =
    let q = p + sizeof_mementry + b.size in
    (
      ground (arith, s.0, head pos),
      Seg-frame m m' p q bs null (λ a l u. same a (omega arith) u) s.1,
    )

module _ (m : Mem) (prev p : Ptr) (pre : List Block) (b : Block) (post : List Block) where
  -- The address of the block `b`, and of what follows it.
  abbrev pub here : Ptr
  here = end p pre

  abbrev pub behind : Ptr
  behind = end p pre + sizeof_mementry + b.size

  pub Seg-here :
      Seg m prev p (pre ++ b ∷ post) null
      → m here ≡ header b (last prev p pre) (link behind post null)
  Seg-here s = (Seg-split m prev p pre (b ∷ post) null s).1.0

  -- The block `b` is marked anew in its place.
  pub Seg-mark :
      (m' : Mem) (u : Bool)
      → m' here ≡ header (block b.size u) (last prev p pre) (link behind post null)
      → ((a : Ptr) → a ≢ here → m' a ≡ m a)
      → Seg m prev p (pre ++ b ∷ post) null
      → Seg m' prev p (pre ++ block b.size u ∷ post) null
  Seg-mark m' u head same s =
      let (s1, s2) = Seg-split m prev p pre (b ∷ post) null s in
      Seg-append m' prev p pre (block b.size u ∷ post) null
        (Seg-frame m m' prev p pre here (λ a l u. same a (omega arith)) s1)
        (head, Seg-frame m m' here behind post null (λ a l u. same a (omega arith)) s2.1)

  -- The block `b` becomes two, `b1` and `b2`, and the block behind it points back to `b2`.
  pub Seg-divide :
      (m' : Mem) (b1 b2 : Block)
      → 0 < p
      → b1.size + sizeof_mementry + b2.size ≡ b.size
      → m' here ≡ header b1 (last prev p pre) (here + sizeof_mementry + b1.size)
      → m' (here + sizeof_mementry + b1.size) ≡ header b2 here (link behind post null)
      → (0 < link behind post null
          → m' behind ≡ record (m behind) { prev = here + sizeof_mementry + b1.size })
      → ((a : Ptr) → a ≢ here → a ≢ here + sizeof_mementry + b1.size → a ≢ behind → m' a ≡ m a)
      → Seg m prev p (pre ++ b ∷ post) null
      → Seg m' prev p (pre ++ b1 ∷ b2 ∷ post) null
  Seg-divide m' b1 b2 pos e at1 at2 at3 same s =
      let (s1, s2) = Seg-split m prev p pre (b ∷ post) null s in
      let t = here + sizeof_mementry + b1.size in
      let e' : t + sizeof_mementry + b2.size ≡ behind = omega arith in
      Seg-append m' prev p pre (b1 ∷ b2 ∷ post) null
        (Seg-frame m m' prev p pre here (λ a l u. same a (omega arith) (omega arith) (omega arith))
          s1)
        (
          at1,
          rw e' (
            at2,
            Seg-set_prev m m' here t behind post (omega (arith, le-end p pre)) at3
                (λ a l u. same a (omega arith) (omega arith) (omega arith)) s2.1,
          ),
        )

  module _ (x : ℕ) (pos : 0 < p) (small : b.size < 2 ^ 31) (room : x + sizeof_mementry < b.size)
      (s : Seg m prev p (pre ++ b ∷ post) null) where
    at_here : m here ≡ header b (last prev p pre) (link behind post null)
    at_here = Seg-here s

    pub Seg-split_left :
        Seg
          (split_left x here m)
          prev
          p
          (pre ++ block x true ∷ block (b.size - sizeof_mementry - x) false ∷ post)
          null
    Seg-split_left =
        Seg-divide (split_left x here m) (block x true) (block (b.size - sizeof_mementry - x) false)
          pos (omega arith) (ground (arith, at_here, le-end p pre, link-cases behind post))
          (ground (arith, at_here, le-end p pre, link-cases behind post))
          (ground (arith, at_here, le-end p pre, link-cases behind post))
          (ground (arith, at_here, le-end p pre, link-cases behind post)) s

    pub Seg-split_right :
        Seg
          (split_right x here m)
          prev
          p
          (pre ++ block (b.size - sizeof_mementry - x) false ∷ block x true ∷ post)
          null
    Seg-split_right =
        Seg-divide (split_right x here m) (block (b.size - sizeof_mementry - x) false)
          (block x true) pos (omega arith)
          (ground (arith, at_here, le-end p pre, link-cases behind post))
          (ground (arith, at_here, le-end p pre, link-cases behind post))
          (ground (arith, at_here, le-end p pre, link-cases behind post))
          (ground (arith, at_here, le-end p pre, link-cases behind post)) s
