-- ===== src/Malloc/Refine.antt =====
-- mymalloc on an arena behaves as the allocator over the blocks that the arena stands for.
use asst.Base.{
  ℕ, ◌+◌, ◌<◌, ◌≤◌, ◌^◌, ◌≡◌, ◌∙◌, refl, sym, ap, inl, inr, Bool-cases, true, Option, none, some,
  List, [], ◌∷◌, ◌++◌, arith, Ptr, null, ◌==◌, if◌then◌else◌, append_assoc,
}
use asst.Malloc.{Arena, sizeof_mementry, take_small, take_right, take_left}
use asst.Malloc.Blocks.{Block, end, Seg, le-end, end-append}
use asst.Malloc.Spec.{Zipper, zipper, blocks, block_fits, splits, cut_left, cut_right, offset_right}
use asst.Malloc.Walk.{first_header}
use asst.Malloc.Place.{take_small-Seg, take_right-Seg, take_left-Seg}

-- The arena stands for the blocks of `z` from `base` on, `middle` is the header of its block, and
-- an `int` holds every size.
pub record Represents (base : Ptr) (z : Zipper) (a : Arena) : Type 0 where
  pub base_pos : 0 < base
  pub head : a.head ≡ base
  pub middle : a.middle ≡ end base z.before
  pub bound : end base (blocks z) ≤ base + 2 ^ 31
  pub seg : Seg a.mem null base (blocks z) null

-- What a call is to give, if the allocator over blocks gives `r`.
abbrev pub Meets : Ptr → Arena → Option (ℕ × Zipper) → Option (Ptr × Arena) → Type 0
Meets base a none r = r ≡ some (null, a)
Meets base a (some (q, z')) r = (a' : Arena) × (r ≡ some (q, a')) × Represents base z' a'

pub first_header-append :
    (x p : ℕ) (xs ys : List Block)
    → 0 < p
    → first_header x p (xs ++ ys)
      ≡ (if first_header x p xs == null then first_header x (end p xs) ys else first_header x p xs)
first_header-append x p [] ys pos = refl
first_header-append x p (b ∷ xs) ys pos =
    ground (arith, first_header-append x (p + sizeof_mementry + b.size) xs ys (omega arith))

pub end-cut_left :
    (x p : ℕ) (b : Block) (post : List Block)
    → end p (cut_left x b ++ post) ≡ end (p + sizeof_mementry + b.size) post
end-cut_left x p b post = elim (Bool-cases (splits x b)) [
  | inl room ↦ rw room (ap (λ q. end q post) (ground arith))
  | inr full ↦ rw full
]

pub end-cut_right :
    (x p : ℕ) (b : Block) (post : List Block)
    → end p (cut_right x b ++ post) ≡ end (p + sizeof_mementry + b.size) post
end-cut_right x p b post = elim (Bool-cases (splits x b)) [
  | inl room ↦ rw room (ap (λ q. end q post) (ground arith))
  | inr full ↦ rw full
]

-- The block `b` of a bounded list has a size below 2 ^ 31.
pub size-lt :
    (base : Ptr) (pre : List Block) (b : Block) (post : List Block)
    → end base (pre ++ b ∷ post) ≤ base + 2 ^ 31
    → b.size < 2 ^ 31
size-lt base pre b post h = omega (
  arith,
  end-append base pre (b ∷ post),
  le-end base pre,
  le-end (end base pre + sizeof_mementry + b.size) post,
)

-- Blocks `cut` in the place of `b`, of the same extent.
module _ (b : Block) (cut : List Block)
    (same : (p : Ptr) (qs : List Block)
      → end p (cut ++ qs) ≡ end (p + sizeof_mementry + b.size) qs) where
  pub end-replace :
      (base : Ptr) (pre post : List Block)
      → end base (pre ++ (cut ++ post)) ≡ end base (pre ++ b ∷ post)
  end-replace base pre post =
      end-append base pre (cut ++ post)
      ∙ same (end base pre) post
      ∙ sym (end-append base pre (b ∷ post))

  -- The replaced block stands before `middle`.
  Represents-before :
      (base : Ptr) (a a' : Arena) (pre post : List Block) (c : Block) (after : List Block)
      → a'.head ≡ a.head
      → a'.middle ≡ a.middle
      → Seg a'.mem null base (pre ++ (cut ++ (post ++ c ∷ after))) null
      → Represents base (zipper (pre ++ b ∷ post) c after) a
      → Represents base (zipper (pre ++ (cut ++ post)) c after) a'
  Represents-before base a a' pre post c after eh em s r =
      let e = end-replace base pre post in
      record {
        base_pos = r.base_pos;
        head = eh ∙ r.head;
        middle = em ∙ r.middle ∙ sym e;
        bound =
            let same_end : end base ((pre ++ (cut ++ post)) ++ c ∷ after)
                ≡ end base ((pre ++ b ∷ post) ++ c ∷ after) =
              end-append base (pre ++ (cut ++ post)) (c ∷ after)
              ∙ ap (λ q. end q (c ∷ after)) e
              ∙ sym (end-append base (pre ++ b ∷ post) (c ∷ after)) in
            rw same_end r.bound;
        seg = simp append_assoc s;
      }

  -- It stands after `middle`.
  Represents-after :
      (base : Ptr) (a a' : Arena) (before : List Block) (c : Block) (pre post : List Block)
      → a'.head ≡ a.head
      → a'.middle ≡ a.middle
      → Seg a'.mem null base ((before ++ c ∷ pre) ++ (cut ++ post)) null
      → Represents base (zipper before c (pre ++ b ∷ post)) a
      → Represents base (zipper before c (pre ++ (cut ++ post))) a'
  Represents-after base a a' before c pre post eh em s r = record {
    base_pos = r.base_pos;
    head = eh ∙ r.head;
    middle = em ∙ r.middle;
    bound =
        let same_end : end base (before ++ c ∷ (pre ++ (cut ++ post)))
            ≡ end base (before ++ c ∷ (pre ++ b ∷ post)) =
          end-append base before (c ∷ (pre ++ (cut ++ post)))
          ∙ end-replace (end base before + sizeof_mementry + c.size) pre post
          ∙ sym (end-append base before (c ∷ (pre ++ b ∷ post))) in
        rw same_end r.bound;
    seg = simp append_assoc at s;
  }

module _ (base : Ptr) (a : Arena) (x : ℕ) where
  module _ (pre : List Block) (b : Block) (post : List Block) (c : Block) (after : List Block)
      (fit : block_fits x b ≡ true) (r : Represents base (zipper (pre ++ b ∷ post) c after) a) where
    Seg-before : Seg a.mem null base (pre ++ b ∷ (post ++ c ∷ after)) null
    Seg-before = simp append_assoc at (r.seg)

    size_before : b.size < 2 ^ 31
    size_before = size-lt base pre b (post ++ c ∷ after) (simp append_assoc at (r.bound))

    -- A hit before `middle`.
    pub small_before :
        Meets base a
          (some (end base pre + sizeof_mementry, zipper (pre ++ (cut_left x b ++ post)) c after))
          (some (take_small x (end base pre) a))
    small_before =
        let (e0, e1, e2, s) =
          take_small-Seg a base pre b (post ++ c ∷ after) x r.base_pos size_before fit Seg-before in
        let left : end base pre < end base (pre ++ b ∷ post) = omega (
          arith,
          end-append base pre (b ∷ post),
          le-end (end base pre + sizeof_mementry + b.size) post,
        ) in
        (
          (take_small x (end base pre) a).1,
          ap (λ q. some (q, (take_small x (end base pre) a).1)) e0,
          Represents-before b (cut_left x b) (λ p. end-cut_left x p b) base a _ pre post c after e1
              (ground (arith, r.middle)) s r,
        )

    pub large_before :
        Meets base a
          (some (end base pre + offset_right x b, zipper (pre ++ (cut_right x b ++ post)) c after))
          (some (take_left x (end base pre) a))
    large_before =
        let (e0, e1, e2, s) =
          take_left-Seg a base pre b (post ++ c ∷ after) x r.base_pos size_before fit Seg-before in
        (
          (take_left x (end base pre) a).1,
          ap (λ q. some (q, (take_left x (end base pre) a).1)) e0,
          Represents-before b (cut_right x b) (λ p. end-cut_right x p b) base a _ pre post c after
              e1 e2 s r,
        )

  module _ (before : List Block) (c : Block) (pre : List Block) (b : Block) (post : List Block)
      (fit : block_fits x b ≡ true)
      (r : Represents base (zipper before c (pre ++ b ∷ post)) a) where
    -- The address of the block.
    abbrev pub there : Ptr
    there = end (end base before + sizeof_mementry + c.size) pre

    end-there : end base (before ++ c ∷ pre) ≡ there
    end-there = end-append base before (c ∷ pre)

    Seg-after : Seg a.mem null base ((before ++ c ∷ pre) ++ b ∷ post) null
    Seg-after = simp append_assoc (r.seg)

    size_after : b.size < 2 ^ 31
    size_after = size-lt base (before ++ c ∷ pre) b post (simp append_assoc (r.bound))

    pub small_after :
        Meets base a
          (some (there + sizeof_mementry, zipper before c (pre ++ (cut_left x b ++ post))))
          (some (take_small x there a))
    small_after =
        let (e0, e1, e2, s) =
          take_small-Seg a base (before ++ c ∷ pre) b post x r.base_pos size_after fit Seg-after in
        rw (← end-there) (
          (take_small x (end base (before ++ c ∷ pre)) a).1,
          ap (λ q. some (q, (take_small x (end base (before ++ c ∷ pre)) a).1)) e0,
          Represents-after b (cut_left x b) (λ p. end-cut_left x p b) base a _ before c pre post e1
              (ground (
                arith,
                r.middle,
                end-there,
                le-end (end base before + sizeof_mementry + c.size) pre,
              ))
              s r,
        )

    pub large_after :
        Meets base a
          (some (there + sizeof_mementry, zipper before c (pre ++ (cut_left x b ++ post))))
          (some (take_right x there a))
    large_after =
        let (e0, e1, e2, s) =
          take_right-Seg a base (before ++ c ∷ pre) b post x r.base_pos size_after fit Seg-after in
        rw (← end-there) (
          (take_right x (end base (before ++ c ∷ pre)) a).1,
          ap (λ q. some (q, (take_right x (end base (before ++ c ∷ pre)) a).1)) e0,
          Represents-after b (cut_left x b) (λ p. end-cut_left x p b) base a _ before c pre post e1
              e2 s r,
        )
