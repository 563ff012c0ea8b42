-- ===== src/Malloc/Adjacent.antt =====
-- The two merges of myfree, on two adjacent blocks of an arena.
use asst.Base.{
  ◌+◌, ◌<◌, ◌≤◌, ◌^◌, ◌≡◌, ◌≢◌, ◌∙◌, sym, ap, ◌⊎◌, inl, inr, Bool-cases, true, false, List, ◌∷◌,
  ◌++◌, arith, Ptr, null, ◌==◌, if◌then◌else◌,
}
use asst.Malloc.{sizeof_mementry, Arena, merge_prev, merge_next}
use asst.Malloc.Blocks.{Block, block, header, end, last, link, end-append, le-end}
use asst.Malloc.Replace.{Seg-here, link-cases}
use asst.Malloc.Merge.{Holds, IsHeader-here, IsHeader-merge, Seg-merge, Seg-here_next, t, e}

-- Two blocks `c` and `b`, both free, of a list that an arena holds.
module _ (base : Ptr) (a : Arena) (pre : List Block) (c b : Block) (post : List Block)
    (h : Holds base (pre ++ c ∷ b ∷ post) a) where
  at_w : a.mem (end base pre) ≡ header c (last null base pre) (t a.mem null base pre c b post)
  at_w = Seg-here a.mem null base pre c (b ∷ post) h.seg

  at_t :
      a.mem (t a.mem null base pre c b post)
      ≡ header b (end base pre) (link (e a.mem null base pre c b post) post null)
  at_t = Seg-here_next a.mem null base pre c b post h.seg

  size_bound : end base pre + sizeof_mementry + c.size + sizeof_mementry + b.size ≤ base + 2 ^ 31
  size_bound = omega (
    arith,
    h.bound,
    end-append base pre (c ∷ b ∷ post),
    le-end (end base pre + sizeof_mementry + c.size + sizeof_mementry + b.size) post,
  )

  -- What a merge reads of the two headers and of the header behind them.
  facts :
      (a.mem (end base pre) ≡ header c (last null base pre) (t a.mem null base pre c b post))
      × (a.mem (t a.mem null base pre c b post)
          ≡ header b (end base pre) (link (e a.mem null base pre c b post) post null))
      × (end base pre + sizeof_mementry + c.size + sizeof_mementry + b.size ≤ base + 2 ^ 31)
      × (base ≤ end base pre)
      × (0 < base)
      × ((link (e a.mem null base pre c b post) post null ≡ null)
          ⊎ (link (e a.mem null base pre c b post) post null ≡ e a.mem null base pre c b post))
  facts = (
    at_w,
    at_t,
    size_bound,
    le-end base pre,
    h.base_pos,
    link-cases (e a.mem null base pre c b post) post,
  )

  Holds-merged :
      (a' : Arena)
      → a'.head ≡ a.head
      → a'.middle ≡ (if t a.mem null base pre c b post == a.middle then end base pre else a.middle)
      → a'.mem (end base pre)
        ≡ header
            (block (c.size + sizeof_mementry + b.size) false)
            (last null base pre)
            (link (e a.mem null base pre c b post) post null)
      → (0 < link (e a.mem null base pre c b post) post null
          → a'.mem (e a.mem null base pre c b post)
            ≡ record (a.mem (e a.mem null base pre c b post)) { prev = end base pre })
      → ((x : Ptr) → x ≢ end base pre → x ≢ e a.mem null base pre c b post → a'.mem x ≡ a.mem x)
      → Holds base (pre ++ block (c.size + sizeof_mementry + b.size) false ∷ post) a'
  Holds-merged a' eh em at1 at2 same = record {
    base_pos = h.base_pos;
    head = eh ∙ h.head;
    middle = elim (Bool-cases (t a.mem null base pre c b post == a.middle)) [
      | inl y ↦
          rw (em, y) (IsHeader-here base pre (block (c.size + sizeof_mementry + b.size) false) post)
      | inr n ↦ rw (em, n) (IsHeader-merge base pre c b post a.middle (ground arith) h.middle)
    ];
    bound =
        let same_end : end base (pre ++ block (c.size + sizeof_mementry + b.size) false ∷ post)
            ≡ end base (pre ++ c ∷ b ∷ post) =
          end-append base pre (block (c.size + sizeof_mementry + b.size) false ∷ post)
          ∙ ap (λ q. end q post) (omega arith)
          ∙ sym (end-append base pre (c ∷ b ∷ post)) in
        rw same_end h.bound;
    seg = Seg-merge a.mem null base pre c b post a'.mem h.base_pos at1 at2 same h.seg;
  }

  module _ (c_free : c.used ≡ false) (b_free : b.used ≡ false) where
    pub merge_next-merged :
        Holds base
          (pre ++ block (c.size + sizeof_mementry + b.size) false ∷ post)
          (merge_next (end base pre) a)
    unfolding merge_next
    merge_next-merged =
        Holds-merged (merge_next (end base pre) a) (ground (arith, facts)) (ground (arith, facts))
          (ground (arith, facts)) (ground (arith, facts)) (ground (arith, facts))

    pub merge_prev-merged :
        ((merge_prev (t a.mem null base pre c b post) a).0 ≡ end base pre)
        × Holds base
            (pre ++ block (c.size + sizeof_mementry + b.size) false ∷ post)
            (merge_prev (t a.mem null base pre c b post) a).1
    unfolding merge_prev
    merge_prev-merged = (
      ground (arith, facts),
      Holds-merged (merge_prev (t a.mem null base pre c b post) a).1 (ground (arith, facts))
          (ground (arith, facts)) (ground (arith, facts)) (ground (arith, facts))
          (ground (arith, facts)),
    )

  pub merge_prev-kept :
      c.used ≡ true
      → merge_prev (t a.mem null base pre c b post) a ≡ (t a.mem null base pre c b post, a)
  unfolding merge_prev
  merge_prev-kept used = ground (arith, facts)

  pub merge_next-kept : b.used ≡ true → merge_next (end base pre) a ≡ a
  unfolding merge_next
  merge_next-kept used = ground (arith, facts)
