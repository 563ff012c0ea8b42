-- ===== src/Malloc/Correct.antt =====
-- mymalloc refines the allocator over blocks.
use asst.Base.{
  ℕ, ◌+◌, ◌<◌, ◌≤◌, ◌^◌, ◌≡◌, ◌∙◌, refl, sym, ap, subst, ◌⊎◌, inl, inr, Bool-cases, true, false,
  none, some, List, [], ◌∷◌, ◌++◌, arith, Ptr, null, ltb, ◌==◌, if◌then◌else◌, length, append_assoc,
  length-append,
}
use asst.Malloc.{
  Arena, sizeof_mementry, initialize, take_small, take_right, take_left, mymalloc_small,
  mymalloc_leftwards, mymalloc_large, mymalloc, walk_next, walk_prev,
}
use asst.Malloc.Blocks.{Block, block, end, link, Seg, Seg-split, le-end, end-append}
use asst.Malloc.Spec.{
  Zipper, zipper, blocks, block_fits, splits, cut_left, cut_right, first_fit, small, large,
  small_at_middle, large_at_middle, malloc,
}
use asst.Malloc.Walk.{first_header, last_header, walk_next-first_header, walk_prev-snoc}
use asst.Malloc.Place.{
  FirstHit, LastHit, first-FirstHit, last-LastHit, take_small-Seg, take_left-Seg,
}
use asst.Malloc.Refine.{
  Represents, Meets, first_header-append, size-lt, end-replace, end-cut_left, end-cut_right,
  small_before, small_after, large_before, large_after,
}

module _ (base : Ptr) (a : Arena) (x : ℕ) (before : List Block) (b : Block) (after : List Block)
    (r : Represents base (zipper before b after) a) where
  module _ (fit : block_fits x b ≡ true) where
    size_middle : b.size < 2 ^ 31
    size_middle = size-lt base before b after r.bound

    left_bound : end base (before ++ (cut_left x b ++ after)) ≤ base + 2 ^ 31
    left_bound =
        rw (end-replace b (cut_left x b) (λ p. end-cut_left x p b) base before after) r.bound

    right_bound : end base (before ++ (cut_right x b ++ after)) ≤ base + 2 ^ 31
    right_bound =
        rw (end-replace b (cut_right x b) (λ p. end-cut_right x p b) base before after) r.bound

    small_middle :
        Meets base a
          (some (small_at_middle x (end base before) (zipper before b after)))
          (some (take_small x (end base before) a))
    small_middle =
        let (e0, e1, e2, s) =
          take_small-Seg a base before b after x r.base_pos size_middle fit r.seg in
        let a' : Arena = (take_small x (end base before) a).1 in
        elim (Bool-cases (splits x b)) [
          | inl room ↦ rw room (
            a',
            ap (λ q. some (q, a')) e0,
            record {
              base_pos = r.base_pos;
              head = e1 ∙ r.head;
              middle = ground (arith, r.middle, end-append base before (block x true ∷ []));
              bound = simp append_assoc (rw room at left_bound);
              seg = simp append_assoc (rw room at s);
            },
          )
          | inr full ↦ rw full (
            a',
            ap (λ q. some (q, a')) e0,
            record {
              base_pos = r.base_pos;
              head = e1 ∙ r.head;
              middle = ground (arith, r.middle);
              bound = rw full at left_bound;
              seg = rw full at s;
            },
          )
        ]

    large_middle :
        Meets base a
          (some (large_at_middle x (end base before) (zipper before b after)))
          (some (take_left x (end base before) a))
    large_middle =
        let (e0, e1, e2, s) =
          take_left-Seg a base before b after x r.base_pos size_middle fit r.seg in
        let a' : Arena = (take_left x (end base before) a).1 in
        elim (Bool-cases (splits x b)) [
          | inl room ↦ rw room (
            a',
            ap (λ q. some (q, a')) (rw room at e0),
            record {
              base_pos = r.base_pos;
              head = e1 ∙ r.head;
              middle = e2 ∙ r.middle;
              bound = rw room at right_bound;
              seg = rw room at s;
            },
          )
          | inr full ↦ rw full (
            a',
            ap (λ q. some (q, a')) (rw full at e0),
            record {
              base_pos = r.base_pos;
              head = e1 ∙ r.head;
              middle = e2 ∙ r.middle;
              bound = rw full at right_bound;
              seg = rw full at s;
            },
          )
        ]

  link-head : link base (blocks (zipper before b after)) null ≡ base
  link-head = elim before as (λ l. link base (l ++ b ∷ after) null ≡ base) [
    | [] ↦ refl
    | c ∷ l ↦ refl
  ]

  ne_null : (p : Ptr) (bs : List Block) → 0 < p → (end p bs == null) ≡ false
  ne_null p bs pos = ground (arith, le-end p bs)

  small_cases :
      FirstHit x base before
      → (block_fits x b ≡ true) ⊎ (block_fits x b ≡ false)
      → FirstHit x (end base before + sizeof_mementry + b.size) after
      → let w =
          if first_header x base before == null
          then first_header x (end base before) (b ∷ after)
          else first_header x base before in
        Meets base a
          (small x base (zipper before b after))
          (some (if w == null then (null, a) else take_small x w a))
  unfolding small
  small_cases (inr (pre, c, post, e, fit, w, f)) d h =
      rw (w, f, ne_null base pre r.base_pos, ne_null base pre r.base_pos)
        (small_before base a x pre c post b after fit
          (subst (λ l. Represents base (zipper l b after) a) e r))
  small_cases (inl (w, f)) (inl fit) h =
      rw (w, f, fit, ne_null base before r.base_pos) (small_middle fit)
  small_cases (inl (w, f)) (inr no_fit) (inl (w', f')) = rw (w, f, no_fit, w', f') refl
  small_cases (inl (w, f)) (inr no_fit) (inr (pre, c, post, e, fit, w', f')) =
      rw
        (
          w,
          f,
          no_fit,
          w',
          f',
          ne_null (end base before + sizeof_mementry + b.size) pre (omega arith),
        )
        (small_after base a x before b pre c post fit
          (subst (λ l. Represents base (zipper before b l) a) e r))

  small-Meets :
      (fuel : ℕ)
      → length (blocks (zipper before b after)) < fuel
      → Meets base a (small x base (zipper before b after)) (mymalloc_small fuel x a)
  unfolding small mymalloc_small
  small-Meets fuel enough =
      let walk =
        walk_next-first_header fuel x a.mem null base (before ++ b ∷ after) r.base_pos enough
          r.seg in
      let e : walk_next fuel x a.mem a.head ≡ some (first_header x base (before ++ b ∷ after)) =
        ap (λ p. walk_next fuel x a.mem p) (r.head ∙ sym link-head) ∙ walk in
      rw (e, first_header-append x base before (b ∷ after) r.base_pos)
        (small_cases (first-FirstHit x base before) (Bool-cases (block_fits x b))
          (first-FirstHit x _ after))

  next-middle : (a.mem a.middle).next ≡ link (end base before + sizeof_mementry + b.size) after null
  next-middle =
      ground (arith, r.middle, (Seg-split a.mem null base before (b ∷ after) null r.seg).1.0)

  walk_right :
      (fuel : ℕ)
      → length (blocks (zipper before b after)) < fuel
      → walk_next fuel x a.mem (a.mem a.middle).next
        ≡ some (first_header x (end base before + sizeof_mementry + b.size) after)
  walk_right fuel enough = rw next-middle (
      walk_next-first_header fuel x a.mem (end base before)
        (end base before + sizeof_mementry + b.size) after (omega arith)
        (omega (arith, length-append before (b ∷ after)))
        (Seg-split a.mem null base before (b ∷ after) null r.seg).1.1)

  walk_left :
      (fuel : ℕ)
      → length (blocks (zipper before b after)) < fuel
      → walk_prev fuel x a.mem a.middle
        ≡ some (if block_fits x b then end base before else last_header x base before)
  walk_left fuel enough =
      let s : Seg a.mem null base ((before ++ b ∷ []) ++ after) null = simp append_assoc (r.seg) in
      rw (r.middle) (
        walk_prev-snoc fuel x a.mem base before b _ r.base_pos
          (omega (arith, length-append before (b ∷ after), length-append before (b ∷ [])))
          (Seg-split a.mem null base (before ++ b ∷ []) after null s).0)

  leftwards_cases :
      (block_fits x b ≡ true) ⊎ (block_fits x b ≡ false)
      → LastHit x base before
      → first_fit x (end base before + sizeof_mementry + b.size) after ≡ none
      → let w = if block_fits x b then end base before else last_header x base before in
        Meets base a
          (large x base (zipper before b after))
          (some (if w == null then (null, a) else take_left x w a))
  unfolding large
  leftwards_cases (inl fit) h none_right =
      rw (none_right, fit, ne_null base before r.base_pos) (large_middle fit)
  leftwards_cases (inr no_fit) (inl (w, f)) none_right = rw (none_right, no_fit, w, f) refl
  leftwards_cases (inr no_fit) (inr (pre, c, post, e, fit, w, f)) none_right =
      rw (none_right, no_fit, w, f, ne_null base pre r.base_pos)
        (large_before base a x pre c post b after fit
          (subst (λ l. Represents base (zipper l b after) a) e r))

  leftwards-Meets :
      (fuel : ℕ)
      → length (blocks (zipper before b after)) < fuel
      → first_fit x (end base before + sizeof_mementry + b.size) after ≡ none
      → Meets base a (large x base (zipper before b after)) (mymalloc_leftwards fuel x a)
  unfolding mymalloc_leftwards
  leftwards-Meets fuel enough none_right = rw (walk_left fuel enough) (
      leftwards_cases (Bool-cases (block_fits x b)) (last-LastHit x base before r.base_pos)
        none_right)

  large_cases :
      (fuel : ℕ)
      → length (blocks (zipper before b after)) < fuel
      → FirstHit x (end base before + sizeof_mementry + b.size) after
      → let w = first_header x (end base before + sizeof_mementry + b.size) after in
        Meets base a
          (large x base (zipper before b after))
          (if w == null then mymalloc_leftwards fuel x a else some (take_right x w a))
  unfolding large
  large_cases fuel enough (inl (w, f)) = rw w (leftwards-Meets fuel enough f)
  large_cases fuel enough (inr (pre, c, post, e, fit, w, f)) =
      rw (w, f, ne_null (end base before + sizeof_mementry + b.size) pre (omega arith))
        (large_after base a x before b pre c post fit
          (subst (λ l. Represents base (zipper before b l) a) e r))

  large-Meets :
      (fuel : ℕ)
      → length (blocks (zipper before b after)) < fuel
      → Meets base a (large x base (zipper before b after)) (mymalloc_large fuel x a)
  unfolding mymalloc_large
  large-Meets fuel enough =
      let pos : (a.middle == null) ≡ false =
        ground (arith, r.middle, ne_null base before r.base_pos) in
      rw (pos, walk_right fuel enough) (large_cases fuel enough (first-FirstHit x _ after))

-- On an arena that stands for blocks, with more fuel than there are blocks, `mymalloc` returns,
-- and gives the address and the blocks that the allocator over blocks gives, or NULL and no change
-- where that gives none.
pub mymalloc-Meets :
    (fuel x : ℕ) (memptr : Ptr) (size : ℕ) (base : Ptr) (a : Arena) (z : Zipper)
    → Represents base z a
    → length (blocks z) < fuel
    → Meets base a (malloc x base z) (mymalloc fuel x memptr size a)
unfolding malloc mymalloc initialize
mymalloc-Meets fuel x memptr size base a z r enough =
    let set : (a.head == null) ≡ false = ground (arith, r.head, r.base_pos) in
    elim (Bool-cases (ltb x 100)) [
      | inl lt ↦ rw (set, lt) (small-Meets base a x z.before z.at_middle z.after r fuel enough)
      | inr ge ↦ rw (set, ge) (large-Meets base a x z.before z.at_middle z.after r fuel enough)
    ]
