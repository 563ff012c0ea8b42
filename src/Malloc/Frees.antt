-- ===== src/Malloc/Frees.antt =====
-- myfree writes nothing outside the blocks of the arena.
use asst.Base.{
  ℕ, ◌+◌, ◌<◌, ◌≤◌, ◌≡◌, ◌∙◌, sym, ap, subst, ◌⊎◌, inl, inr, true, false, List, ◌∷◌, ◌++◌, arith,
  Ptr, null, update,
}
use asst.Malloc.{Arena, Mem, merge_prev, merge_next, free_block, myfree, freed}
use asst.Malloc.Blocks.{Block, block, end, end-append}
use asst.Malloc.Merge.{IsHeader, Holds, join_left, coalesce, IsHeader-here}
use asst.Malloc.Free.{Holds-mark, merge_prev-Holds, myfree-free_block, free_block-Holds, snoc-cases}
use asst.Malloc.Payloads.{payloads}
use asst.Malloc.RoundTrip.{payload-BlockOf, payloads-coalesce, end-coalesce, payloads-join_left}
use asst.Malloc.Local.{Local, Linked, Seg-Inside, IsHeader-below}

-- NULL, or an address between `lo` and `hi`.
abbrev Within : Ptr → Ptr → Ptr → Type 0
Within lo hi p = (p ≡ null) ⊎ ((lo ≤ p) × (p < hi))

Linked-Within :
    (base : Ptr) (bs : List Block) (p : Ptr) → Linked base bs p → Within base (end base bs) p
Linked-Within base bs p (inl e) = inl e
Linked-Within base bs p (inr l) = inr (IsHeader-below base bs p l)

Local-trans :
    (lo hi : Ptr) (m m' m'' : Mem) → Local lo hi m m' → Local lo hi m' m'' → Local lo hi m m''
Local-trans lo hi m m' m'' l l' p away = l' p away ∙ l p away

module _ (base : Ptr) (bs : List Block) (a : Arena) (h : Holds base bs a) (w : Ptr)
    (at : IsHeader base bs w) where
  next-Within : Within base (end base bs) (a.mem w).next
  next-Within =
      Linked-Within base bs (a.mem w).next (Seg-Inside a.mem null base bs null w h.seg at).2

  prev-Within : Within base (end base bs) (a.mem w).prev
  prev-Within =
      Linked-Within base bs (a.mem w).prev (Seg-Inside a.mem null base bs null w h.seg at).3

  mark-Local : Local base (end base bs) a.mem (update a.mem w (record (a.mem w) { free = 1 }))
  mark-Local p away = ground (arith, IsHeader-below base bs w at, away)

  merge_prev-Local : Local base (end base bs) a.mem (merge_prev w a).1.mem
  unfolding merge_prev
  merge_prev-Local p away = ground (arith, away, next-Within, prev-Within)

merge_next-Local :
    (base : Ptr) (bs : List Block) (a : Arena) (w : Ptr)
    → Holds base bs a
    → IsHeader base bs w
    → Local base (end base bs) a.mem (merge_next w a).mem
unfolding merge_next
merge_next-Local base bs a w h at = elim (Seg-Inside a.mem null base bs null w h.seg at).2 [
  | inl e ↦ λ p away. ground (arith, e)
  | inr there ↦ λ p away. ground (
    arith,
    away,
    IsHeader-below base bs w at,
    IsHeader-below base bs (a.mem w).next there,
    next-Within base bs a h (a.mem w).next there,
    prev-Within base bs a h (a.mem w).next there,
  )
]

module _ (base : Ptr) (a : Arena) (pre : List Block) (b : Block) (post : List Block)
    (h : Holds base (pre ++ b ∷ post) a) (used : b.used ≡ true) where
  free_block-Local : Local base (end base (pre ++ b ∷ post)) a.mem (free_block (end base pre) a).mem
  unfolding free_block
  free_block-Local =
      let w = end base pre in
      let a1 : Arena = record a { mem = update a.mem w (record (a.mem w) { free = 1 }) } in
      let h1 = Holds-mark base a pre b post h used in
      let at1 = IsHeader-here base pre (block b.size false) post in
      let (e, h2) = merge_prev-Holds base a1 pre b.size post (snoc-cases pre) h1 in
      let (l, k) = join_left pre b.size in
      let same1 : end base (pre ++ block b.size false ∷ post) ≡ end base (pre ++ b ∷ post) =
        end-append base pre (block b.size false ∷ post) ∙ sym (end-append base pre (b ∷ post)) in
      let same2 : end base (l ++ block k false ∷ post) ≡ end base (pre ++ b ∷ post) =
        end-append base l (block k false ∷ post)
        ∙ (ap (λ p. end p post) (payloads-join_left base b.size pre (snoc-cases pre)).1
            ∙ sym (end-append base pre (b ∷ post))) in
      let at2 : IsHeader base (l ++ block k false ∷ post) (merge_prev w a1).0 =
        subst (IsHeader base (l ++ block k false ∷ post)) (sym e)
          (IsHeader-here base l (block k false) post) in
      Local-trans base (end base (pre ++ b ∷ post)) a.mem a1.mem _
        (mark-Local base (pre ++ b ∷ post) a h w (IsHeader-here base pre b post))
        (Local-trans base (end base (pre ++ b ∷ post)) a1.mem (merge_prev w a1).1.mem _
          (subst (λ hi. Local base hi a1.mem (merge_prev w a1).1.mem) same1
            (merge_prev-Local base (pre ++ block b.size false ∷ post) a1 h1 w at1))
          (subst
            (λ hi.
              Local base hi (merge_prev w a1).1.mem
                (merge_next (merge_prev w a1).0 (merge_prev w a1).1).mem)
            same2
            (merge_next-Local base (l ++ block k false ∷ post) (merge_prev w a1).1
              (merge_prev w a1).0 h2 at2)))

-- What a free of a payload at `q` gives.
pub record Freed (base : Ptr) (bs : List Block) (a : Arena) (q : Ptr) (rest : List (ℕ × ℕ))
    : Type 0 where
  pub after : Arena
  pub left : List Block
  pub run : myfree q a ≡ (freed, after)
  pub holds : Holds base left after
  pub payloads_left : payloads base left ≡ rest
  pub same_end : end base left ≡ end base bs
  pub local : Local base (end base bs) a.mem after.mem

-- A free of a payload of an arena, within 4999 bytes of `head`, drops that payload, keeps the others
-- and where the blocks end, and writes between `head` and that end only.
pub myfree-Freed :
    (base : Ptr) (a : Arena) (bs : List Block) (q n : ℕ) (below above : List (ℕ × ℕ))
    → Holds base bs a
    → payloads base bs ≡ below ++ (q, n) ∷ above
    → q ≤ base + 4999
    → Freed base bs a q (below ++ above)
myfree-Freed base a bs q n below above h e near =
    let (pre, b, post, split, u, at, l, r) = payload-BlockOf base bs q n below above e in
    let h' = subst (λ l. Holds base l a) split h in
    let w = end base pre in
    record {
      after = free_block w a;
      left = coalesce pre b.size post;
      run = rw at at (myfree-free_block base a pre b post h' u (rw at near));
      holds = free_block-Holds base a pre b post h' u;
      payloads_left = payloads-coalesce base b.size pre post ∙ rw (l, r);
      same_end =
          end-coalesce base b.size pre post
          ∙ (sym (end-append base pre (b ∷ post)) ∙ ap (end base) (sym split));
      local =
          subst (λ l. Local base (end base l) a.mem (free_block w a).mem) (sym split)
            (free_block-Local base a pre b post h' u);
    }
