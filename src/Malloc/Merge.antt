-- ===== src/Malloc/Merge.antt =====
-- myfree over blocks, and the merge of two free blocks in memory.
use asst.Base.{
  ℕ, ◌+◌, ◌<◌, ◌≤◌, ◌^◌, ◌≡◌, ◌≢◌, refl, subst, ◌⊎◌, inl, inr, Bool, false, List, [], ◌∷◌, ◌++◌,
  arith, Ptr, null, if◌then◌else◌,
}
use asst.Malloc.{sizeof_mementry, Arena, Mem}
use asst.Malloc.Blocks.{
  Block, block, header, end, last, link, Seg, Seg-append, Seg-split, Seg-frame,
}
use asst.Malloc.Replace.{Seg-set_prev}

-- A free block of `n` bytes behind `pre` and before `post` takes a free neighbour in.
abbrev pub join_left : List Block → ℕ → List Block × ℕ
join_left [] n = ([], n)
join_left (c ∷ []) n = if c.used then (c ∷ [], n) else ([], c.size + sizeof_mementry + n)
join_left (c ∷ d ∷ cs) n = let (l, k) = join_left (d ∷ cs) n in (c ∷ l, k)

abbrev pub join_right : ℕ → List Block → ℕ × List Block
join_right n [] = (n, [])
join_right n (c ∷ cs) = if c.used then (n, c ∷ cs) else (n + sizeof_mementry + c.size, cs)

abbrev pub coalesce : List Block → ℕ → List Block → List Block
coalesce pre n post =
    let (l, k) = join_left pre n in let (k', r) = join_right k post in l ++ block k' false ∷ r

pub join_left-snoc :
    (pre : List Block) (c : Block) (n : ℕ)
    → join_left (pre ++ c ∷ []) n
      ≡ (if c.used then (pre ++ c ∷ [], n) else (pre, c.size + sizeof_mementry + n))
join_left-snoc [] c n = refl
join_left-snoc (d ∷ []) c n = ground arith
join_left-snoc (d ∷ e ∷ pre) c n = ground (arith, join_left-snoc (e ∷ pre) c n)

-- `a` is the address of a header.
abbrev pub IsHeader : Ptr → List Block → Ptr → Type 0
IsHeader p [] a = ⊥
IsHeader p (b ∷ bs) a = (a ≡ p) ⊎ IsHeader (p + sizeof_mementry + b.size) bs a

-- The arena holds the blocks, and `middle` is the header of one of them.
pub record Holds (base : Ptr) (bs : List Block) (a : Arena) : Type 0 where
  pub base_pos : 0 < base
  pub head : a.head ≡ base
  pub middle : IsHeader base bs a.middle
  pub bound : end base bs ≤ base + 2 ^ 31
  pub seg : Seg a.mem null base bs null

pub IsHeader-here :
    (p : Ptr) (pre : List Block) (b : Block) (post : List Block)
    → IsHeader p (pre ++ b ∷ post) (end p pre)
IsHeader-here p [] b post = inl refl
IsHeader-here p (c ∷ pre) b post = inr (IsHeader-here (p + sizeof_mementry + c.size) pre b post)

-- A merge drops one header.
pub IsHeader-merge :
    (p : Ptr) (pre : List Block) (c b : Block) (post : List Block) (a : Ptr)
    → a ≢ end p pre + sizeof_mementry + c.size
    → IsHeader p (pre ++ c ∷ b ∷ post) a
    → IsHeader p (pre ++ block (c.size + sizeof_mementry + b.size) false ∷ post) a
IsHeader-merge p [] c b post a ne (inl e) = inl e
IsHeader-merge p [] c b post a ne (inr (inl e)) = absurd (ne e)
IsHeader-merge p [] c b post a ne (inr (inr h)) =
    inr (subst (λ q. IsHeader q post a) (omega arith) h)
IsHeader-merge p (d ∷ pre) c b post a ne (inl e) = inl e
IsHeader-merge p (d ∷ pre) c b post a ne (inr h) =
    inr (IsHeader-merge (p + sizeof_mementry + d.size) pre c b post a ne h)

pub IsHeader-mark :
    (p : Ptr) (pre : List Block) (b : Block) (u : Bool) (post : List Block) (a : Ptr)
    → IsHeader p (pre ++ b ∷ post) a
    → IsHeader p (pre ++ block b.size u ∷ post) a
IsHeader-mark p [] b u post a h = h
IsHeader-mark p (d ∷ pre) b u post a (inl e) = inl e
IsHeader-mark p (d ∷ pre) b u post a (inr h) =
    inr (IsHeader-mark (p + sizeof_mementry + d.size) pre b u post a h)

module _ (m : Mem) (prev p : Ptr) (pre : List Block) (c b : Block) (post : List Block) where
  -- The headers of the two blocks, and what follows them.
  abbrev pub w : Ptr
  w = end p pre

  abbrev pub t : Ptr
  t = end p pre + sizeof_mementry + c.size

  abbrev pub e : Ptr
  e = end p pre + sizeof_mementry + c.size + sizeof_mementry + b.size

  pub Seg-here_next : Seg m prev p (pre ++ c ∷ b ∷ post) null → m t ≡ header b w (link e post null)
  Seg-here_next s = (Seg-split m prev p pre (c ∷ b ∷ post) null s).1.1.0

  -- The two become one, and the block behind them points back to it.
  pub Seg-merge :
      (m' : Mem)
      → 0 < p
      → m' w
        ≡ header
            (block (c.size + sizeof_mementry + b.size) false)
            (last prev p pre)
            (link e post null)
      → (0 < link e post null → m' e ≡ record (m e) { prev = w })
      → ((a : Ptr) → a ≢ w → a ≢ e → m' a ≡ m a)
      → Seg m prev p (pre ++ c ∷ b ∷ post) null
      → Seg m' prev p (pre ++ block (c.size + sizeof_mementry + b.size) false ∷ post) null
  Seg-merge m' pos at1 at2 same s =
      let (s1, s2) = Seg-split m prev p pre (c ∷ b ∷ post) null s in
      let q : w + sizeof_mementry + (c.size + sizeof_mementry + b.size) ≡ e = omega arith in
      Seg-append m' prev p pre (block (c.size + sizeof_mementry + b.size) false ∷ post) null
        (Seg-frame m m' prev p pre w (λ a l u. same a (omega arith) (omega arith)) s1)
        (rw q (
          at1,
          Seg-set_prev m m' t w e post (omega arith) at2
              (λ a l u. same a (omega arith) (omega arith)) s2.1.1,
        ))
