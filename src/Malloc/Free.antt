-- ===== src/Malloc/Free.antt =====
-- myfree on an arena.
use asst.Base.{
  ℕ, ◌+◌, ◌≤◌, ◌≡◌, refl, sym, ap, subst, ◌⊎◌, inl, inr, Bool-cases, true, false, List, [], ◌∷◌,
  ◌++◌, arith, Ptr, null, update, append_assoc,
}
use asst.Malloc.{
  sizeof_mementry, Arena, merge_prev, merge_next, free_block, myfree, freed, double_free,
}
use asst.Malloc.Blocks.{Block, block, header, end, last, end-append, le-end}
use asst.Malloc.Replace.{Seg-here, Seg-mark}
use asst.Malloc.Adjacent.{merge_next-merged, merge_prev-merged, merge_next-kept, merge_prev-kept}
use asst.Malloc.Merge.{join_left, join_right, coalesce, join_left-snoc, Holds, IsHeader-mark, e}

-- The merge with the block on the right, if there is a free one.
merge_next-Holds :
    (base : Ptr) (a : Arena) (pre : List Block) (n : ℕ) (post : List Block)
    → Holds base (pre ++ block n false ∷ post) a
    → Holds base
        (pre ++ block (join_right n post).0 false ∷ (join_right n post).1)
        (merge_next (end base pre) a)
unfolding merge_next
merge_next-Holds base a pre n [] h =
    let at : a.mem (end base pre) ≡ header (block n false) (last null base pre) null =
      Seg-here a.mem null base pre (block n false) [] h.seg in
    subst (Holds base (pre ++ block n false ∷ [])) (ground (arith, at)) h
merge_next-Holds base a pre n (b ∷ post) h = elim (Bool-cases b.used) [
  | inl u ↦ simp u (
      subst (Holds base (pre ++ block n false ∷ b ∷ post))
        (sym (merge_next-kept base a pre (block n false) b post h u)) h)
  | inr f ↦ rw f (merge_next-merged base a pre (block n false) b post h refl f)
]

-- The merge with the block on the left, if there is a free one: where the block is then.
abbrev pub JoinedLeft : Ptr → List Block → ℕ → List Block → Ptr × Arena → Type 0
JoinedLeft base pre n post r =
    (r.0 ≡ end base (join_left pre n).0)
    × Holds base ((join_left pre n).0 ++ block (join_left pre n).1 false ∷ post) r.1

merge_prev-snoc :
    (base : Ptr) (a : Arena) (pre : List Block) (c : Block) (n : ℕ) (post : List Block)
    → Holds base (pre ++ c ∷ block n false ∷ post) a
    → JoinedLeft base
        (pre ++ c ∷ [])
        n
        post
        (merge_prev (end base pre + sizeof_mementry + c.size) a)
merge_prev-snoc base a pre c n post h = elim (Bool-cases c.used) [
  | inl u ↦
      rw (join_left-snoc pre c n, merge_prev-kept base a pre c (block n false) post h u)
        (simp u (sym (end-append base pre (c ∷ [])), simp append_assoc h))
  | inr f ↦
      rw (join_left-snoc pre c n)
        (simp f (merge_prev-merged base a pre c (block n false) post h f refl))
]

pub snoc-cases :
    (xs : List Block) → (xs ≡ []) ⊎ ((ys : List Block) × (y : Block) × (xs ≡ ys ++ y ∷ []))
snoc-cases [] = inl refl
snoc-cases (x ∷ xs) = elim (snoc-cases xs) [
  | inl e ↦ inr ([], x, ap (λ l. x ∷ l) e)
  | inr (ys, y, e) ↦ inr (x ∷ ys, y, ap (λ l. x ∷ l) e)
]

merge_prev-first : (p : Ptr) (a : Arena) → (a.mem p).prev ≡ null → merge_prev p a ≡ (p, a)
unfolding merge_prev
merge_prev-first p a first = ground arith

pub merge_prev-Holds :
    (base : Ptr) (a : Arena) (pre : List Block) (n : ℕ) (post : List Block)
    → (pre ≡ []) ⊎ ((ys : List Block) × (y : Block) × (pre ≡ ys ++ y ∷ []))
    → Holds base (pre ++ block n false ∷ post) a
    → JoinedLeft base pre n post (merge_prev (end base pre) a)
merge_prev-Holds base a pre n post (inl e) h =
    let h' : Holds base (block n false ∷ post) a =
      subst (λ l. Holds base (l ++ block n false ∷ post) a) e h in
    rw (e, merge_prev-first base a (ground (arith, h'.seg.0))) (refl, h')
merge_prev-Holds base a pre n post (inr (ys, y, e)) h =
    rw (e, end-append base ys (y ∷ []))
      (merge_prev-snoc base a ys y n post
        (simp append_assoc at (subst (λ l. Holds base (l ++ block n false ∷ post) a) e h)))

pub Holds-mark :
    (base : Ptr) (a : Arena) (pre : List Block) (b : Block) (post : List Block)
    → Holds base (pre ++ b ∷ post) a
    → b.used ≡ true
    → Holds base (pre ++ block b.size false ∷ post) (record a {
      mem = update a.mem (end base pre) (record (a.mem (end base pre)) { free = 1 });
    })
Holds-mark base a pre b post h used = record {
  base_pos = h.base_pos;
  head = h.head;
  middle = IsHeader-mark base pre b false post a.middle h.middle;
  bound =
      rw (end-append base pre (block b.size false ∷ post), ← end-append base pre (b ∷ post))
        h.bound;
  seg =
      Seg-mark a.mem null base pre b post _ false
        (ground (arith, Seg-here a.mem null base pre b post h.seg)) (ground arith) h.seg;
}

pub free_block-Holds :
    (base : Ptr) (a : Arena) (pre : List Block) (b : Block) (post : List Block)
    → Holds base (pre ++ b ∷ post) a
    → b.used ≡ true
    → Holds base (coalesce pre b.size post) (free_block (end base pre) a)
unfolding free_block
free_block-Holds base a pre b post h used =
    let a1 : Arena = record a {
      mem = update a.mem (end base pre) (record (a.mem (end base pre)) { free = 1 });
    } in
    let (e, h2) =
      merge_prev-Holds base a1 pre b.size post (snoc-cases pre)
        (Holds-mark base a pre b post h used) in
    rw e (
      merge_next-Holds base (merge_prev (end base pre) a1).1 (join_left pre b.size).0
        (join_left pre b.size).1 post h2)

pub myfree-free_block :
    (base : Ptr) (a : Arena) (pre : List Block) (b : Block) (post : List Block)
    → Holds base (pre ++ b ∷ post) a
    → b.used ≡ true
    → end base pre + sizeof_mementry ≤ base + 4999
    → myfree (end base pre + sizeof_mementry) a ≡ (freed, free_block (end base pre) a)
unfolding myfree
myfree-free_block base a pre b post h used near =
    ground (arith, Seg-here a.mem null base pre b post h.seg, h.head, le-end base pre)

-- A free of the payload of the used block `b`, if it begins within 4999 bytes of `head`, succeeds:
-- the arena then holds the blocks in which `b` has taken its free neighbours in.
pub myfree-freed :
    (base : Ptr) (a : Arena) (pre : List Block) (b : Block) (post : List Block)
    → Holds base (pre ++ b ∷ post) a
    → b.used ≡ true
    → end base pre + sizeof_mementry ≤ base + 4999
    → (a' : Arena) × (myfree (end base pre + sizeof_mementry) a ≡ (freed, a'))
      × Holds base (coalesce pre b.size post) a'
myfree-freed base a pre b post h used near = (
  free_block (end base pre) a,
  myfree-free_block base a pre b post h used near,
  free_block-Holds base a pre b post h used,
)

-- A free of a block that is free, whose payload begins within 4999 bytes of `head`, is reported as
-- a double free and changes nothing.
pub myfree-double_free :
    (base : Ptr) (a : Arena) (pre : List Block) (b : Block) (post : List Block)
    → Holds base (pre ++ b ∷ post) a
    → b.used ≡ false
    → end base pre + sizeof_mementry ≤ base + 4999
    → myfree (end base pre + sizeof_mementry) a ≡ (double_free, a)
unfolding myfree
myfree-double_free base a pre b post h free near =
    ground (arith, Seg-here a.mem null base pre b post h.seg, h.head, le-end base pre)
