-- ===== src/Malloc/Among.antt =====
-- The payloads of an arena one by one: where each is, and that they are apart.
use asst.Base.{
  ℕ, ◌+◌, ◌≤◌, ◌≡◌, ◌≢◌, refl, sym, ap, subst, ◌⊎◌, inl, inr, true, false, List, [], ◌∷◌, ◌++◌,
  arith, if◌then◌else◌, ◌∙◌, Bool,
}
use asst.Malloc.{sizeof_mementry}
use asst.Malloc.Blocks.{Block, end, le-end}
use asst.Malloc.Payloads.{payloads}
use asst.Malloc.RoundTrip.{payload-BlockOf}

-- There is a payload of `n` bytes at `q` in the list.
abbrev pub Among : ℕ → ℕ → List (ℕ × ℕ) → Type 0
Among q n [] = ⊥
Among q n (c ∷ l) = ((q ≡ c.0) × (n ≡ c.1)) ⊎ Among q n l

pub Among-insert :
    (q n : ℕ) (c : ℕ × ℕ) (below above : List (ℕ × ℕ))
    → Among q n (below ++ above)
    → Among q n (below ++ c ∷ above)
Among-insert q n c [] above a = inr a
Among-insert q n c (b ∷ below) above (inl e) = inl e
Among-insert q n c (b ∷ below) above (inr a) = inr (Among-insert q n c below above a)

pub Among-here : (q n : ℕ) (below above : List (ℕ × ℕ)) → Among q n (below ++ (q, n) ∷ above)
Among-here q n [] above = inl (refl, refl)
Among-here q n (b ∷ below) above = inr (Among-here q n below above)

pub Among-drop :
    (q n : ℕ) (c : ℕ × ℕ) (below above : List (ℕ × ℕ))
    → q ≢ c.0
    → Among q n (below ++ c ∷ above)
    → Among q n (below ++ above)
Among-drop q n c [] above ne (inl e) = absurd (ne e.0)
Among-drop q n c [] above ne (inr a) = a
Among-drop q n c (b ∷ below) above ne (inl e) = inl e
Among-drop q n c (b ∷ below) above ne (inr a) = inr (Among-drop q n c below above ne a)

pub Among-split :
    (q n : ℕ) (l : List (ℕ × ℕ))
    → Among q n l
    → (below : List (ℕ × ℕ)) × (above : List (ℕ × ℕ)) × (l ≡ below ++ (q, n) ∷ above)
Among-split q n [] a = absurd a
Among-split q n (c ∷ l) (inl e) = let (e1, e2) = e in ([], l, cc (e1, e2))
Among-split q n (c ∷ l) (inr a) =
    let (below, above, e) = Among-split q n l a in (c ∷ below, above, ap (λ k. c ∷ k) e)

-- A block that is used gives a payload.
Among-if :
    (u : Bool) (q n : ℕ) (c : ℕ × ℕ) (l : List (ℕ × ℕ))
    → Among q n (if u then c ∷ l else l)
    → ((q ≡ c.0) × (n ≡ c.1)) ⊎ Among q n l
Among-if true q n c l a = a
Among-if false q n c l a = inr a

-- A payload is behind a header, and ends within the blocks.
pub Among-inside :
    (q n p : ℕ) (bs : List Block)
    → Among q n (payloads p bs)
    → (p + sizeof_mementry ≤ q) × (q + n ≤ end p bs)
Among-inside q n p [] a = absurd a
Among-inside q n p (b ∷ bs) a =
    let after = p + sizeof_mementry + b.size in
    elim (Among-if b.used q n (p + sizeof_mementry, b.size) (payloads after bs) a) [
      | inl (e1, e2) ↦ (omega (arith, e1), omega (arith, e1, e2, le-end after bs))
      | inr rest ↦
          let (from, to) = Among-inside q n after bs rest in
          (omega (arith, from), omega (arith, to))
    ]

-- Two payloads at different addresses are apart.
pub Among-apart :
    (q n q' n' p : ℕ) (bs : List Block)
    → q ≢ q'
    → Among q n (payloads p bs)
    → Among q' n' (payloads p bs)
    → (q + n ≤ q') ⊎ (q' + n' ≤ q)
Among-apart q n q' n' p [] ne a a' = absurd a
Among-apart q n q' n' p (b ∷ bs) ne a a' =
    let after = p + sizeof_mementry + b.size in
    let c : ℕ × ℕ = (p + sizeof_mementry, b.size) in
    elim (Among-if b.used q n c (payloads after bs) a) [
      | inl (e1, e2) ↦ elim (Among-if b.used q' n' c (payloads after bs) a') [
        | inl (e1', e2') ↦ absurd (ne (e1 ∙ sym e1'))
        | inr rest' ↦
            let (from, to) = Among-inside q' n' after bs rest' in inl (omega (arith, from, e1, e2))
      ]
      | inr rest ↦ elim (Among-if b.used q' n' c (payloads after bs) a') [
        | inl (e1', e2') ↦
            let (from, to) = Among-inside q n after bs rest in inr (omega (arith, from, e1', e2'))
        | inr rest' ↦ Among-apart q n q' n' after bs ne rest rest'
      ]
    ]

Among-append : (q n : ℕ) (xs ys : List (ℕ × ℕ)) → Among q n (xs ++ ys) → Among q n xs ⊎ Among q n ys
Among-append q n [] ys a = inr a
Among-append q n (c ∷ xs) ys (inl e) = inl (inl e)
Among-append q n (c ∷ xs) ys (inr a) = elim (Among-append q n xs ys a) [
  | inl left ↦ inl (inr left)
  | inr right ↦ inr right
]

-- No payload is there twice.
pub Among-once :
    (q n n' p : ℕ) (bs : List Block) (below above : List (ℕ × ℕ))
    → payloads p bs ≡ below ++ (q, n) ∷ above
    → Among q n' (below ++ above)
    → ⊥
Among-once q n n' p bs below above e a =
    let (pre, b, post, split, u, at, l, r) = payload-BlockOf p bs q n below above e in
    let after = end p pre + sizeof_mementry + b.size in
    elim (Among-append q n' below above a) [
      | inl left ↦
          let (from, to) = Among-inside q n' p pre (subst (λ k. Among q n' k) (sym l) left) in
          omega (arith, at, to)
      | inr right ↦
          let (from, to) = Among-inside q n' after post (subst (λ k. Among q n' k) (sym r) right) in
          omega (arith, at, from)
    ]
