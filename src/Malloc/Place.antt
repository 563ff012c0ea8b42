-- ===== src/Malloc/Place.antt =====
-- Handing out a block: take_small, take_right and take_left at the block that the walk found.
use asst.Base.{
  ℕ, ◌+◌, ◌<◌, ◌^◌, ◌≡◌, refl, ap, ◌⊎◌, inl, inr, Bool-cases, true, false, ◌&&◌, none, some, List,
  [], ◌∷◌, ◌++◌, arith, Ptr, null, ◌==◌, if◌then◌else◌,
}
use asst.Malloc.{Arena, sizeof_mementry, has_room, take_whole, take_small, take_right, take_left}
use asst.Malloc.Blocks.{Block, block, end, Seg, le-end}
use asst.Malloc.Spec.{block_fits, splits, cut_left, cut_right, offset_right, first_fit, last_fit}
use asst.Malloc.Walk.{first_header, last_header}
use asst.Malloc.Replace.{Seg-mark, Seg-split_left, Seg-split_right, Seg-here}

-- The walk and the specification agree: no block fits, or `b` behind `pre` is the one.
abbrev pub FirstHit : ℕ → Ptr → List Block → Type 0
FirstHit x p bs =
    (first_header x p bs ≡ null) × (first_fit x p bs ≡ none)
    ⊎ ((pre : List Block) × (b : Block) × (post : List Block) × (bs ≡ pre ++ b ∷ post)
        × (block_fits x b ≡ true)
        × (first_header x p bs ≡ end p pre)
        × (first_fit x p bs ≡ some (end p pre + sizeof_mementry, pre ++ (cut_left x b ++ post))))

abbrev pub LastHit : ℕ → Ptr → List Block → Type 0
LastHit x p bs =
    (last_header x p bs ≡ null) × (last_fit x p bs ≡ none)
    ⊎ ((pre : List Block) × (b : Block) × (post : List Block) × (bs ≡ pre ++ b ∷ post)
        × (block_fits x b ≡ true)
        × (last_header x p bs ≡ end p pre)
        × (last_fit x p bs ≡ some (end p pre + offset_right x b, pre ++ (cut_right x b ++ post))))

FirstHit-cons :
    (x p : ℕ) (b : Block) (bs : List Block)
    → block_fits x b ≡ false
    → FirstHit x (p + sizeof_mementry + b.size) bs
    → FirstHit x p (b ∷ bs)
unfolding first_fit
FirstHit-cons x p b bs no_fit (inl (e, f)) = inl (rw no_fit e, rw (no_fit, f))
FirstHit-cons x p b bs no_fit (inr (pre, c, post, e, fit, w, r)) =
    inr (b ∷ pre, c, post, ap (λ l. b ∷ l) e, fit, rw no_fit w, rw (no_fit, r))

pub first-FirstHit : (x p : ℕ) (bs : List Block) → FirstHit x p bs
unfolding first_fit
first-FirstHit x p [] = inl (refl, refl)
first-FirstHit x p (b ∷ bs) = elim (Bool-cases (block_fits x b)) [
  | inl fit ↦ inr ([], b, bs, refl, fit, rw fit, rw fit)
  | inr no_fit ↦ FirstHit-cons x p b bs no_fit (first-FirstHit x (p + sizeof_mementry + b.size) bs)
]

LastHit-cons :
    (x p : ℕ) (b : Block) (bs : List Block)
    → 0 < p
    → LastHit x (p + sizeof_mementry + b.size) bs
    → LastHit x p (b ∷ bs)
unfolding last_fit
LastHit-cons x p b bs pos (inl (e, f)) = elim (Bool-cases (block_fits x b)) [
  | inl fit ↦ inr ([], b, bs, refl, fit, rw (e, fit), rw (f, fit))
  | inr no_fit ↦ inl (rw (e, no_fit), rw (f, no_fit))
]
LastHit-cons x p b bs pos (inr (pre, c, post, e, fit, w, r)) = inr (
  b ∷ pre,
  c,
  post,
  ap (λ l. b ∷ l) e,
  fit,
  ground (arith, w, le-end (p + sizeof_mementry + b.size) pre),
  rw r,
)

pub last-LastHit : (x p : ℕ) (bs : List Block) → 0 < p → LastHit x p bs
unfolding last_fit
last-LastHit x p [] pos = inl (refl, refl)
last-LastHit x p (b ∷ bs) pos =
    LastHit-cons x p b bs pos (last-LastHit x (p + sizeof_mementry + b.size) bs (omega arith))

module _ (a : Arena) (base : Ptr) (pre : List Block) (b : Block) (post : List Block) (x : ℕ)
    (pos : 0 < base) (small : b.size < 2 ^ 31) (fit : block_fits x b ≡ true)
    (s : Seg a.mem null base (pre ++ b ∷ post) null) where
  has_room-splits : has_room x (a.mem (end base pre)) ≡ splits x b
  has_room-splits = ground (arith, Seg-here a.mem null base pre b post s)

  take_whole-Seg :
      Seg (take_whole (end base pre) a).1.mem null base (pre ++ block b.size true ∷ post) null
  take_whole-Seg =
      Seg-mark a.mem null base pre b post (take_whole (end base pre) a).1.mem true
        (ground (arith, Seg-here a.mem null base pre b post s)) (ground arith) s

  -- A small request gets the left part, and `middle` moves to what is left of its block.
  pub take_small-Seg :
      ((take_small x (end base pre) a).0 ≡ end base pre + sizeof_mementry)
      × ((take_small x (end base pre) a).1.head ≡ a.head)
      × ((take_small x (end base pre) a).1.middle ≡ (
          if splits x b && end base pre == a.middle
          then end base pre + sizeof_mementry + x
          else a.middle))
      × Seg (take_small x (end base pre) a).1.mem null base (pre ++ (cut_left x b ++ post)) null
  unfolding take_small
  take_small-Seg = elim (Bool-cases (splits x b)) [
    | inl room ↦
        rw (has_room-splits, room)
          (
            ground arith,
            refl,
            ground arith,
            Seg-split_left a.mem null base pre b post x pos small (ground arith) s,
          )
    | inr full ↦ rw (has_room-splits, full) (refl, refl, refl, take_whole-Seg)
  ]

  pub take_right-Seg :
      ((take_right x (end base pre) a).0 ≡ end base pre + sizeof_mementry)
      × ((take_right x (end base pre) a).1.head ≡ a.head)
      × ((take_right x (end base pre) a).1.middle ≡ a.middle)
      × Seg (take_right x (end base pre) a).1.mem null base (pre ++ (cut_left x b ++ post)) null
  unfolding take_right
  take_right-Seg = elim (Bool-cases (splits x b)) [
    | inl room ↦
        rw (has_room-splits, room)
          (refl, refl, refl, Seg-split_left a.mem null base pre b post x pos small (ground arith) s)
    | inr full ↦ rw (has_room-splits, full) (refl, refl, refl, take_whole-Seg)
  ]

  pub take_left-Seg :
      ((take_left x (end base pre) a).0 ≡ end base pre + offset_right x b)
      × ((take_left x (end base pre) a).1.head ≡ a.head)
      × ((take_left x (end base pre) a).1.middle ≡ a.middle)
      × Seg (take_left x (end base pre) a).1.mem null base (pre ++ (cut_right x b ++ post)) null
  unfolding take_left
  take_left-Seg = elim (Bool-cases (splits x b)) [
    | inl room ↦
        rw (has_room-splits, room)
          (
            ground (arith, Seg-here a.mem null base pre b post s),
            refl,
            refl,
            Seg-split_right a.mem null base pre b post x pos small (ground arith) s,
          )
    | inr full ↦ rw (has_room-splits, full) (refl, refl, refl, take_whole-Seg)
  ]
