-- ===== src/Malloc/RoundTrip.antt =====
-- A block that mymalloc hands out is given back by myfree: the payloads are then those of before.
use asst.Base.{
  ℕ, ◌+◌, ◌<◌, ◌≤◌, ◌≡◌, ◌≢◌, ◌∙◌, refl, sym, ap, subst, ◌⊎◌, inl, inr, Bool-cases, true, false,
  Option, some, List, [], ◌∷◌, ◌++◌, arith, Ptr, null, length,
}
use mathlib.Core.List.{append-nil}
use mathlib.Core.Path.{subst₂}
use asst.Malloc.{sizeof_mementry, Arena, mymalloc, myfree, freed}
use asst.Malloc.Blocks.{Block, block, end, end-append}
use asst.Malloc.Spec.{Zipper, blocks}
use asst.Malloc.Payloads.{payloads, payloads-append}
use asst.Malloc.Refine.{Represents}
use asst.Malloc.Serve.{Served, refused, served, mymalloc-Served}
use asst.Malloc.Merge.{
  join_left, join_right, coalesce, join_left-snoc, Holds, IsHeader, IsHeader-here,
}
use asst.Malloc.Free.{snoc-cases, myfree-freed}

pub Holds-of_Represents :
    (base : Ptr) (z : Zipper) (a : Arena) → Represents base z a → Holds base (blocks z) a
Holds-of_Represents base z a r = record {
  base_pos = r.base_pos;
  head = r.head;
  middle =
      subst (IsHeader base (blocks z)) (sym r.middle)
        (IsHeader-here base z.before z.at_middle z.after);
  bound = r.bound;
  seg = r.seg;
}

payloads-join_right :
    (p n : ℕ) (post : List Block)
    → payloads p (block (join_right n post).0 false ∷ (join_right n post).1)
      ≡ payloads (p + sizeof_mementry + n) post
payloads-join_right p n [] = refl
payloads-join_right p n (c ∷ cs) = elim (Bool-cases c.used) [
  | inl u ↦ simp u
  | inr f ↦ simp f (ap (λ q. payloads q cs) (omega arith))
]

pub payloads-join_left :
    (p n : ℕ) (pre : List Block)
    → (pre ≡ []) ⊎ ((ys : List Block) × (y : Block) × (pre ≡ ys ++ y ∷ []))
    → (payloads p (join_left pre n).0 ≡ payloads p pre)
      × (end p (join_left pre n).0 + sizeof_mementry + (join_left pre n).1
          ≡ end p pre + sizeof_mementry + n)
payloads-join_left p n pre (inl e) = rw e (refl, refl)
payloads-join_left p n pre (inr (ys, y, e)) = elim (Bool-cases y.used) [
  | inl u ↦ rw (e, join_left-snoc ys y n) (simp u (refl, refl))
  | inr f ↦
      rw (e, join_left-snoc ys y n, payloads-append p ys (y ∷ []), end-append p ys (y ∷ []))
        (simp f (sym (append-nil _), omega arith))
]

-- A free keeps where the blocks end.
pub end-coalesce :
    (p n : ℕ) (pre post : List Block)
    → end p (coalesce pre n post) ≡ end (end p pre + sizeof_mementry + n) post
end-coalesce p n pre post =
    let l = (join_left pre n).0 in
    let k = (join_left pre n).1 in
    let (e1, e2) = payloads-join_left p n pre (snoc-cases pre) in
    end-append p l (block (join_right k post).0 false ∷ (join_right k post).1)
    ∙ (end-join_right (end p l) k post ∙ ap (λ q. end q post) e2)
  where
    end-join_right :
        (p n : ℕ) (post : List Block)
        → end p (block (join_right n post).0 false ∷ (join_right n post).1)
          ≡ end (p + sizeof_mementry + n) post
    end-join_right p n [] = refl
    end-join_right p n (c ∷ cs) = elim (Bool-cases c.used) [
      | inl u ↦ simp u
      | inr f ↦ simp f (ap (λ q. end q cs) (omega arith))
    ]

-- A free drops the payload of its block, and no other.
pub payloads-coalesce :
    (p n : ℕ) (pre post : List Block)
    → payloads p (coalesce pre n post)
      ≡ payloads p pre ++ payloads (end p pre + sizeof_mementry + n) post
payloads-coalesce p n pre post =
    let l = (join_left pre n).0 in
    let k = (join_left pre n).1 in
    let (e1, e2) = payloads-join_left p n pre (snoc-cases pre) in
    payloads-append p l (block (join_right k post).0 false ∷ (join_right k post).1)
    ∙ rw (payloads-join_right (end p l) k post, e1, e2)

-- The block of a payload.
abbrev pub BlockOf : ℕ → List Block → ℕ → List (ℕ × ℕ) → List (ℕ × ℕ) → Type 0
BlockOf p bs q below above =
    (pre : List Block) × (b : Block) × (post : List Block) × (bs ≡ pre ++ b ∷ post)
    × (b.used ≡ true)
    × (end p pre + sizeof_mementry ≡ q)
    × (payloads p pre ≡ below)
    × (payloads (end p pre + sizeof_mementry + b.size) post ≡ above)

BlockOf-skip :
    (p : ℕ) (c : Block) (bs : List Block) (q : ℕ) (below above : List (ℕ × ℕ))
    → c.used ≡ false
    → BlockOf (p + sizeof_mementry + c.size) bs q below above
    → BlockOf p (c ∷ bs) q below above
BlockOf-skip p c bs q below above f (pre, b, post, e, u, at, l, r) =
    (c ∷ pre, b, post, ap (λ l. c ∷ l) e, u, at, simp f l, r)

pub payload-BlockOf :
    (p : ℕ) (bs : List Block) (q n : ℕ) (below above : List (ℕ × ℕ))
    → payloads p bs ≡ below ++ (q, n) ∷ above
    → BlockOf p bs q below above
payload-BlockOf p [] q n [] above e = absurd (cc e)
payload-BlockOf p [] q n (c ∷ below) above e = absurd (cc e)
payload-BlockOf p (b ∷ bs) q n [] above e = elim (Bool-cases b.used) [
  | inl u ↦ ([], b, bs, refl, u, ground (arith, u), refl, ground (arith, u))
  | inr f ↦
      BlockOf-skip p b bs q [] above f
        (payload-BlockOf (p + sizeof_mementry + b.size) bs q n [] above (simp f at e))
]
payload-BlockOf p (b ∷ bs) q n (c ∷ below) above e = elim (Bool-cases b.used) [
  | inl u ↦
      let (pre, c', post, e', u', at, l, r) =
        payload-BlockOf (p + sizeof_mementry + b.size) bs q n below above (ground (arith, u)) in
      (b ∷ pre, c', post, ap (λ l. b ∷ l) e', u', at, ground (arith, u, l), r)
  | inr f ↦
      BlockOf-skip p b bs q (c ∷ below) above f
        (payload-BlockOf (p + sizeof_mementry + b.size) bs q n (c ∷ below) above (simp f at e))
]

-- A free of a payload of an arena, within 4999 bytes of `head`, succeeds: the arena is again well
-- formed, that payload is dropped, and the others are where they were.
pub myfree-payload :
    (base : Ptr) (a : Arena) (bs : List Block) (q n : ℕ) (below above : List (ℕ × ℕ))
    → Holds base bs a
    → payloads base bs ≡ below ++ (q, n) ∷ above
    → q ≤ base + 4999
    → (a' : Arena) × (bs' : List Block) × (myfree q a ≡ (freed, a'))
      × Holds base bs' a'
      × (payloads base bs' ≡ below ++ above)
myfree-payload base a bs q n below above h e near =
    let (pre, b, post, split, u, at, l, r) = payload-BlockOf base bs q n below above e in
    let (a', run, h') =
      myfree-freed base a pre b post (subst (λ l. Holds base l a) split h) u (rw at near) in
    (
      a',
      coalesce pre b.size post,
      rw at at run,
      h',
      payloads-coalesce base b.size pre post ∙ rw (l, r),
    )

myfree-Served :
    (x base : ℕ) (z : Zipper) (a a' : Arena) (r : Option (Ptr × Arena)) (q : Ptr)
    → Served x base z a r
    → r ≡ some (q, a')
    → q ≢ null
    → q ≤ base + 4999
    → (a'' : Arena) × (bs : List Block) × (myfree q a' ≡ (freed, a''))
      × Holds base bs a''
      × (payloads base bs ≡ payloads base (blocks z))
myfree-Served x base z a a' r q (refused e no_fit) got some_q near =
    absurd (some_q (ground (arith)))
myfree-Served x base z a a' r q (served p b z' e rep h apart) got some_q near =
    let same_q : p ≡ q = ground arith in
    let same_a : b ≡ a' = ground arith in
    let i = h.payload in
    let (a'', bs, run, held, rest) =
      myfree-payload base b (blocks z') p i.size i.below i.above (Holds-of_Represents base z' b rep)
        i.after (rw same_q near) in
    (
      a'',
      bs,
      subst₂ (λ p b. myfree p b ≡ (freed, a'')) same_q same_a run,
      held,
      rest ∙ sym i.before,
    )

-- What `mymalloc` hands out within 4999 bytes of `head`, `myfree` takes back: the free succeeds, the
-- arena is again well formed, and its payloads are those of before the request.
pub mymalloc-myfree :
    (fuel x : ℕ) (memptr : Ptr) (size : ℕ) (base : Ptr) (a a' : Arena) (z : Zipper) (q : Ptr)
    → Represents base z a
    → length (blocks z) < fuel
    → mymalloc fuel x memptr size a ≡ some (q, a')
    → q ≢ null
    → q ≤ base + 4999
    → (a'' : Arena) × (bs : List Block) × (myfree q a' ≡ (freed, a''))
      × Holds base bs a''
      × (payloads base bs ≡ payloads base (blocks z))
mymalloc-myfree fuel x memptr size base a a' z q r enough got some_q near =
    myfree-Served x base z a a' _ q (mymalloc-Served fuel x memptr size base a z r enough) got
      some_q near
