-- ===== src/Malloc/Local.antt =====
-- What mymalloc writes: nothing outside the blocks.
use asst.Base.{
  ℕ, zero, suc, ◌+◌, ◌<◌, ◌≤◌, ◌≡◌, refl, sym, ap, subst, ◌⊎◌, inl, inr, Bool-cases, true, some,
  List, [], ◌∷◌, arith, Ptr, null, ◌==◌,
}
use asst.Malloc.{Mem, sizeof_mementry, fits, walk_next, walk_prev}
use asst.Malloc.Blocks.{Block, end, link, Seg, le-end}
use asst.Malloc.Merge.{IsHeader}

-- Nothing changes below `lo`, and nothing from `hi` on.
abbrev pub Local : Ptr → Ptr → Mem → Mem → Type 0
Local lo hi m m' = (p : Ptr) → (p < lo) ⊎ (hi ≤ p) → m' p ≡ m p

-- NULL, or the header of a block.
abbrev pub Linked : Ptr → List Block → Ptr → Type 0
Linked p bs w = (w ≡ null) ⊎ IsHeader p bs w

-- The block of the header `w`, and its links, which leave the blocks at `prev` and at `stop` only.
abbrev pub Inside : Mem → Ptr → Ptr → List Block → Ptr → Ptr → Type 0
Inside m prev p bs stop w =
    (p ≤ w)
    × (w + sizeof_mementry + (m w).size ≤ end p bs)
    × (((m w).next ≡ stop) ⊎ IsHeader p bs (m w).next)
    × (((m w).prev ≡ prev) ⊎ IsHeader p bs (m w).prev)

link-cases :
    (p : Ptr) (bs : List Block) (stop : Ptr)
    → (link p bs stop ≡ stop) ⊎ IsHeader p bs (link p bs stop)
link-cases p [] stop = inl refl
link-cases p (b ∷ bs) stop = inr (inl refl)

module _ (m : Mem) (prev p : Ptr) (b : Block) (bs : List Block) (stop : Ptr) where
  Inside-first : Seg m prev p (b ∷ bs) stop → Inside m prev p (b ∷ bs) stop p
  Inside-first s = elim (link-cases (p + sizeof_mementry + b.size) bs stop) [
    | inl e ↦ (
      omega arith,
      ground (arith, s.0, le-end (p + sizeof_mementry + b.size) bs),
      inl (ground (arith, s.0, e)),
      inl (ground (arith, s.0)),
    )
    | inr h ↦ (
      omega arith,
      ground (arith, s.0, le-end (p + sizeof_mementry + b.size) bs),
      inr (inr (subst (IsHeader (p + sizeof_mementry + b.size) bs) (sym (ap (λ h. h.next) s.0)) h)),
      inl (ground (arith, s.0)),
    )
  ]

  Inside-rest :
      (w : Ptr)
      → Inside m p (p + sizeof_mementry + b.size) bs stop w
      → Inside m prev p (b ∷ bs) stop w
  Inside-rest w (above, below, next, before) =
      (omega (arith, above), below, later next, earlier before)
    where
      later :
          ((m w).next ≡ stop) ⊎ IsHeader (p + sizeof_mementry + b.size) bs (m w).next
          → ((m w).next ≡ stop) ⊎ IsHeader p (b ∷ bs) (m w).next
      later (inl e) = inl e
      later (inr h) = inr (inr h)

      earlier :
          ((m w).prev ≡ p) ⊎ IsHeader (p + sizeof_mementry + b.size) bs (m w).prev
          → ((m w).prev ≡ prev) ⊎ IsHeader p (b ∷ bs) (m w).prev
      earlier (inl e) = inr (inl e)
      earlier (inr h) = inr (inr h)

pub Seg-Inside :
    (m : Mem) (prev p : Ptr) (bs : List Block) (stop w : Ptr)
    → Seg m prev p bs stop
    → IsHeader p bs w
    → Inside m prev p bs stop w
Seg-Inside m prev p [] stop w s h = absurd h
Seg-Inside m prev p (b ∷ bs) stop w s (inl e) =
    subst (Inside m prev p (b ∷ bs) stop) (sym e) (Inside-first m prev p b bs stop s)
Seg-Inside m prev p (b ∷ bs) stop w s (inr h) =
    Inside-rest m prev p b bs stop w (Seg-Inside m p (p + sizeof_mementry + b.size) bs stop w s.1 h)

pub IsHeader-below :
    (p : Ptr) (bs : List Block) (w : Ptr) → IsHeader p bs w → (p ≤ w) × (w < end p bs)
IsHeader-below p [] w h = absurd h
IsHeader-below p (b ∷ bs) w (inl e) =
    (omega (arith, e), omega (arith, e, le-end (p + sizeof_mementry + b.size) bs))
IsHeader-below p (b ∷ bs) w (inr h) =
    let (l, u) = IsHeader-below (p + sizeof_mementry + b.size) bs w h in (omega (arith, l), u)

-- The walks end at NULL or at a header that fits.
abbrev Found : ℕ → Mem → Ptr → List Block → Ptr → Type 0
Found x m p bs w = (w ≡ null) ⊎ (IsHeader p bs w × (fits x (m w) ≡ true))

module _ (x : ℕ) (m : Mem) (base : Ptr) (bs : List Block) (s : Seg m null base bs null) where
  pub next-Linked : (w : Ptr) → IsHeader base bs w → Linked base bs (m w).next
  next-Linked w h = (Seg-Inside m null base bs null w s h).2

  prev-Linked : (w : Ptr) → IsHeader base bs w → Linked base bs (m w).prev
  prev-Linked w h = (Seg-Inside m null base bs null w s h).3

  pub walk_next-Found :
      (fuel : ℕ) (w r : Ptr)
      → Linked base bs w
      → walk_next fuel x m w ≡ some r
      → Found x m base bs r
  unfolding walk_next
  walk_next-Found zero w r h run = absurd (cc run)
  walk_next-Found (suc f) w r (inl e) run = inl (ground (arith, e, run))
  walk_next-Found (suc f) w r (inr h) run = elim (Bool-cases (w == null)) [
    | inl e ↦ inl (ground (arith, e, run))
    | inr e ↦ elim (Bool-cases (fits x (m w))) [
      | inl fit ↦
          let same : w ≡ r = ground (arith, e, fit, run) in
          inr (subst (λ q. IsHeader base bs q × (fits x (m q) ≡ true)) same (h, fit))
      | inr no_fit ↦
          let rest : walk_next f x m (m w).next ≡ some r = rw (e, no_fit) at run in
          walk_next-Found f (m w).next r (next-Linked w h) rest
    ]
  ]

  pub walk_prev-Found :
      (fuel : ℕ) (w r : Ptr)
      → Linked base bs w
      → walk_prev fuel x m w ≡ some r
      → Found x m base bs r
  unfolding walk_prev
  walk_prev-Found zero w r h run = absurd (cc run)
  walk_prev-Found (suc f) w r (inl e) run = inl (ground (arith, e, run))
  walk_prev-Found (suc f) w r (inr h) run = elim (Bool-cases (w == null)) [
    | inl e ↦ inl (ground (arith, e, run))
    | inr e ↦ elim (Bool-cases (fits x (m w))) [
      | inl fit ↦
          let same : w ≡ r = ground (arith, e, fit, run) in
          inr (subst (λ q. IsHeader base bs q × (fits x (m q) ≡ true)) same (h, fit))
      | inr no_fit ↦
          let rest : walk_prev f x m (m w).prev ≡ some r = rw (e, no_fit) at run in
          walk_prev-Found f (m w).prev r (prev-Linked w h) rest
    ]
  ]
