-- ===== src/Malloc/Serve.antt =====
-- mymalloc on an arena, in terms of the payloads handed out.
use asst.Base.{
  ℕ, ◌+◌, ◌<◌, ◌≡◌, refl, ◌⊎◌, inl, inr, Bool-cases, true, false, Option, none, some, List, [], ◌∷◌,
  ◌++◌, arith, ltb, All, All-append, Ptr, null, length, append_assoc,
}
use asst.Malloc.{sizeof_mementry, Arena, mymalloc}
use asst.Malloc.Blocks.{Block, end}
use asst.Malloc.Spec.{
  Zipper, zipper, blocks, block_fits, splits, cut_left, cut_right, offset_right, first_fit,
  last_fit, small, large, malloc, small_at_middle, large_at_middle, after_address,
}
use asst.Malloc.Place.{FirstHit, LastHit, first-FirstHit, last-LastHit}
use asst.Malloc.Payloads.{
  Handed, Handed-left, Handed-right, Handed-cut_left, Handed-cut_right, Apart, payloads,
  payloads-Apart,
}
use asst.Malloc.Refine.{Represents, Meets}
use asst.Malloc.Correct.{mymalloc-Meets}

abbrev pub NoFit : ℕ → List Block → Type 0
NoFit x = All (λ b. block_fits x b ≡ false)

NoFit-of_first : (x p : ℕ) (bs : List Block) → first_fit x p bs ≡ none → NoFit x bs
unfolding first_fit
NoFit-of_first x p [] e = tt
NoFit-of_first x p (b ∷ bs) e =
    (ground arith, NoFit-of_first x (p + sizeof_mementry + b.size) bs (ground arith))

NoFit-of_last : (x p : ℕ) (bs : List Block) → last_fit x p bs ≡ none → NoFit x bs
unfolding last_fit
NoFit-of_last x p [] e = tt
NoFit-of_last x p (b ∷ bs) e =
    (ground arith, NoFit-of_last x (p + sizeof_mementry + b.size) bs (ground arith))

-- The specification hands out a payload, or no block fits.
abbrev pub HandedIf : ℕ → ℕ → Zipper → Option (ℕ × Zipper) → Type 0
HandedIf x base z none = NoFit x (blocks z)
HandedIf x base z (some (q, z')) = Handed q x base (blocks z) (blocks z')

module _ (x base : ℕ) where
  hit_left :
      (p : ℕ) (bs pre : List Block) (b : Block) (post : List Block)
      → bs ≡ pre ++ b ∷ post
      → block_fits x b ≡ true
      → Handed (end p pre + sizeof_mementry) x p bs (pre ++ (cut_left x b ++ post))
  hit_left p bs pre b post e fit = rw e (
      Handed-left (end p pre + sizeof_mementry) x p pre (b ∷ post) (cut_left x b ++ post) (
        Handed-right (end p pre + sizeof_mementry) x (end p pre) (b ∷ []) (cut_left x b) post
          (Handed-cut_left x (end p pre) b fit)))

  hit_right :
      (p : ℕ) (bs pre : List Block) (b : Block) (post : List Block)
      → bs ≡ pre ++ b ∷ post
      → block_fits x b ≡ true
      → Handed (end p pre + offset_right x b) x p bs (pre ++ (cut_right x b ++ post))
  hit_right p bs pre b post e fit = rw e (
      Handed-left (end p pre + offset_right x b) x p pre (b ∷ post) (cut_right x b ++ post) (
        Handed-right (end p pre + offset_right x b) x (end p pre) (b ∷ []) (cut_right x b) post
          (Handed-cut_right x (end p pre) b fit)))

  small_at_middle-Handed :
      (before : List Block) (b : Block) (after : List Block)
      → block_fits x b ≡ true
      → HandedIf x base
          (zipper before b after)
          (some (small_at_middle x (end base before) (zipper before b after)))
  small_at_middle-Handed before b after fit =
      let h = hit_left base (before ++ b ∷ after) before b after refl fit in
      elim (Bool-cases (splits x b)) [
        | inl room ↦ rw room (simp append_assoc (rw room at h))
        | inr full ↦ rw full (rw full at h)
      ]

  large_at_middle-Handed :
      (before : List Block) (b : Block) (after : List Block)
      → block_fits x b ≡ true
      → HandedIf x base
          (zipper before b after)
          (some (large_at_middle x (end base before) (zipper before b after)))
  large_at_middle-Handed before b after fit =
      let h = hit_right base (before ++ b ∷ after) before b after refl fit in
      elim (Bool-cases (splits x b)) [
        | inl room ↦ rw room (rw room at h)
        | inr full ↦ rw full (rw full at h)
      ]

  small_cases :
      (before : List Block) (b : Block) (after : List Block)
      → FirstHit x base before
      → (block_fits x b ≡ true) ⊎ (block_fits x b ≡ false)
      → FirstHit x (end base before + sizeof_mementry + b.size) after
      → HandedIf x base (zipper before b after) (small x base (zipper before b after))
  unfolding small
  small_cases before b after (inr (pre, c, post, e, fit, w, f)) d h = rw f (
      Handed-right (end base pre + sizeof_mementry) x base before (pre ++ (cut_left x c ++ post))
        (b ∷ after) (hit_left base before pre c post e fit))
  small_cases before b after (inl (w, f)) (inl fit) h =
      rw (f, fit) (small_at_middle-Handed before b after fit)
  small_cases before b after (inl (w, f)) (inr no_fit) (inl (w', f')) =
      rw (f, no_fit, f')
        (All-append (λ c. block_fits x c ≡ false) before (b ∷ after)
          (NoFit-of_first x base before f) (no_fit, NoFit-of_first x _ after f'))
  small_cases before b after (inl (w, f)) (inr no_fit) (inr (pre, c, post, e, fit, w', f')) =
      rw (f, no_fit, f')
        (Handed-left _ x base before (b ∷ after) (b ∷ (pre ++ (cut_left x c ++ post))) (
          Handed-left _ x (end base before) (b ∷ []) after (pre ++ (cut_left x c ++ post))
            (hit_left (end base before + sizeof_mementry + b.size) after pre c post e fit)))

  large_cases :
      (before : List Block) (b : Block) (after : List Block)
      → FirstHit x (end base before + sizeof_mementry + b.size) after
      → (block_fits x b ≡ true) ⊎ (block_fits x b ≡ false)
      → LastHit x base before
      → HandedIf x base (zipper before b after) (large x base (zipper before b after))
  unfolding large
  large_cases before b after (inr (pre, c, post, e, fit, w, f)) d h = rw f (
      Handed-left _ x base before (b ∷ after) (b ∷ (pre ++ (cut_left x c ++ post))) (
        Handed-left _ x (end base before) (b ∷ []) after (pre ++ (cut_left x c ++ post))
          (hit_left (end base before + sizeof_mementry + b.size) after pre c post e fit)))
  large_cases before b after (inl (w, f)) (inl fit) h =
      rw (f, fit) (large_at_middle-Handed before b after fit)
  large_cases before b after (inl (w, f)) (inr no_fit) (inl (w', f')) =
      rw (f, no_fit, f')
        (All-append (λ c. block_fits x c ≡ false) before (b ∷ after)
          (NoFit-of_last x base before f') (no_fit, NoFit-of_first x _ after f))
  large_cases before b after (inl (w, f)) (inr no_fit) (inr (pre, c, post, e, fit, w', f')) =
      rw (f, no_fit, f')
        (Handed-right (end base pre + offset_right x c) x base before
          (pre ++ (cut_right x c ++ post)) (b ∷ after) (hit_right base before pre c post e fit))

  malloc-HandedIf : (z : Zipper) → 0 < base → HandedIf x base z (malloc x base z)
  unfolding malloc
  malloc-HandedIf z pos =
      let right = first-FirstHit x (after_address base z) z.after in
      let fits = Bool-cases (block_fits x z.at_middle) in
      elim (Bool-cases (ltb x 100)) [
        | inl lt ↦
            rw lt
              (small_cases z.before z.at_middle z.after (first-FirstHit x base z.before) fits right)
        | inr ge ↦
            rw ge (
              large_cases z.before z.at_middle z.after right fits
                (last-LastHit x base z.before pos))
      ]

-- The result of a request for `x` bytes: NULL, no change and no block that would do, or a payload
-- of enough bytes that no other overlaps.
pub data Served (x base : ℕ) (z : Zipper) (a : Arena) : Option (Ptr × Arena) → Type 0 where
  refused :
      {r : Option (Ptr × Arena)} → r ≡ some (null, a) → NoFit x (blocks z) → Served x base z a r
  served :
      {r : Option (Ptr × Arena)} (q : Ptr) (a' : Arena) (z' : Zipper)
      → r ≡ some (q, a')
      → Represents base z' a'
      → Handed q x base (blocks z) (blocks z')
      → Apart base (payloads base (blocks z')) (end base (blocks z'))
      → Served x base z a r

Served-of_Meets :
    (x base : ℕ) (z : Zipper) (a : Arena) (r : Option (Ptr × Arena)) (m : Option (ℕ × Zipper))
    → Meets base a m r
    → HandedIf x base z m
    → Served x base z a r
Served-of_Meets x base z a r none e no_fit = refused e no_fit
Served-of_Meets x base z a r (some (q, z')) (a', e, rep) h =
    served q a' z' e rep h (payloads-Apart base (blocks z'))

-- On an arena that stands for blocks, with more fuel than there are blocks, a request returns: it
-- is refused only if no free block has the bytes, and the arena stays; or it hands out one payload
-- of at least that many bytes that overlaps no other, and every other payload, the extent of the
-- arena and its well-formedness are kept.
pub mymalloc-Served :
    (fuel x : ℕ) (memptr : Ptr) (size : ℕ) (base : Ptr) (a : Arena) (z : Zipper)
    → Represents base z a
    → length (blocks z) < fuel
    → Served x base z a (mymalloc fuel x memptr size a)
mymalloc-Served fuel x memptr size base a z r enough =
    Served-of_Meets x base z a _ (malloc x base z)
      (mymalloc-Meets fuel x memptr size base a z r enough) (malloc-HandedIf x base z r.base_pos)
