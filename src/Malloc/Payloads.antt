-- ===== src/Malloc/Payloads.antt =====
-- What a request changes: the payloads handed out, by address and size.
use asst.Base.{
  ℕ, ◌+◌, ◌≤◌, ◌≡◌, ◌∙◌, refl, sym, ap, inl, inr, Bool-cases, true, List, [], ◌∷◌, ◌++◌, arith,
  if◌then◌else◌, append_assoc,
}
use asst.Malloc.{sizeof_mementry}
use asst.Malloc.Blocks.{Block, end, end-append}
use asst.Malloc.Spec.{block_fits, splits, cut_left, cut_right, offset_right}

-- The payloads of the used blocks from `p` on, in the order of their addresses.
abbrev pub payloads : ℕ → List Block → List (ℕ × ℕ)
payloads p [] = []
payloads p (b ∷ bs) =
    let rest = payloads (p + sizeof_mementry + b.size) bs in
    if b.used then (p + sizeof_mementry, b.size) ∷ rest else rest

-- `new` is `old` with one more payload, at `q`, of `x` bytes or more; the others are where they
-- were.
pub record Inserted (q x : ℕ) (old new : List (ℕ × ℕ)) : Type 0 where
  pub below : List (ℕ × ℕ)
  pub above : List (ℕ × ℕ)
  pub size : ℕ
  pub before : old ≡ below ++ above
  pub after : new ≡ below ++ (q, size) ∷ above
  pub enough : x ≤ size

-- Blocks that take the place of others: one more payload, and the same extent.
pub record Handed (q x p : ℕ) (bs bs' : List Block) : Type 0 where
  pub payload : Inserted q x (payloads p bs) (payloads p bs')
  pub extent : end p bs' ≡ end p bs

pub payloads-append :
    (p : ℕ) (xs ys : List Block) → payloads p (xs ++ ys) ≡ payloads p xs ++ payloads (end p xs) ys
payloads-append p [] ys = refl
payloads-append p (b ∷ xs) ys = elim (Bool-cases b.used) [
  | inl u ↦ rw (u, payloads-append (p + sizeof_mementry + b.size) xs ys)
  | inr f ↦ rw (f, payloads-append (p + sizeof_mementry + b.size) xs ys)
]

-- More blocks on the left or the right.
Inserted-left :
    (q x : ℕ) (ls old new : List (ℕ × ℕ))
    → Inserted q x old new
    → Inserted q x (ls ++ old) (ls ++ new)
Inserted-left q x ls old new i = record {
  below = ls ++ i.below;
  above = i.above;
  size = i.size;
  before = rw append_assoc (ap (λ l. ls ++ l) i.before);
  after = rw append_assoc (ap (λ l. ls ++ l) i.after);
  enough = i.enough;
}

Inserted-right :
    (q x : ℕ) (rs old new : List (ℕ × ℕ))
    → Inserted q x old new
    → Inserted q x (old ++ rs) (new ++ rs)
Inserted-right q x rs old new i = record {
  below = i.below;
  above = i.above ++ rs;
  size = i.size;
  before = rw i.before (append_assoc i.below i.above rs);
  after = rw i.after (append_assoc i.below ((q, i.size) ∷ i.above) rs);
  enough = i.enough;
}

pub Handed-left :
    (q x p : ℕ) (ls bs bs' : List Block)
    → Handed q x (end p ls) bs bs'
    → Handed q x p (ls ++ bs) (ls ++ bs')
Handed-left q x p ls bs bs' h = record {
  payload =
      rw (payloads-append p ls bs, payloads-append p ls bs')
        (Inserted-left q x (payloads p ls) (payloads (end p ls) bs) (payloads (end p ls) bs')
          h.payload);
  extent = end-append p ls bs' ∙ h.extent ∙ sym (end-append p ls bs);
}

pub Handed-right :
    (q x p : ℕ) (bs bs' rs : List Block) → Handed q x p bs bs' → Handed q x p (bs ++ rs) (bs' ++ rs)
Handed-right q x p bs bs' rs h = record {
  payload =
      rw (payloads-append p bs rs, payloads-append p bs' rs, h.extent)
        (Inserted-right q x (payloads (end p bs) rs) (payloads p bs) (payloads p bs') h.payload);
  extent = end-append p bs' rs ∙ ap (λ e. end e rs) h.extent ∙ sym (end-append p bs rs);
}

-- A block that fits, its left or its right part handed out.
pub Handed-cut_left :
    (x p : ℕ) (b : Block)
    → block_fits x b ≡ true
    → Handed (p + sizeof_mementry) x p (b ∷ []) (cut_left x b)
Handed-cut_left x p b fit = elim (Bool-cases (splits x b)) [
  | inl room ↦ rw room (record {
    payload = record {
      below = [];
      above = [];
      size = x;
      before = ground arith;
      after = refl;
      enough = omega arith;
    };
    extent = ground arith;
  })
  | inr full ↦ rw full (record {
    payload = record {
      below = [];
      above = [];
      size = b.size;
      before = ground arith;
      after = refl;
      enough = ground arith;
    };
    extent = refl;
  })
]

pub Handed-cut_right :
    (x p : ℕ) (b : Block)
    → block_fits x b ≡ true
    → Handed (p + offset_right x b) x p (b ∷ []) (cut_right x b)
Handed-cut_right x p b fit = elim (Bool-cases (splits x b)) [
  | inl room ↦ rw room (record {
    payload = record {
      below = [];
      above = [];
      size = x;
      before = ground arith;
      after = ap (λ r. (r, x) ∷ []) (ground arith);
      enough = omega arith;
    };
    extent = ground arith;
  })
  | inr full ↦ rw full (record {
    payload = record {
      below = [];
      above = [];
      size = b.size;
      before = ground arith;
      after = refl;
      enough = ground arith;
    };
    extent = refl;
  })
]

-- Every payload has its header before it, and ends before the next header begins.
abbrev pub Apart : ℕ → List (ℕ × ℕ) → ℕ → Type 0
Apart p [] e = p ≤ e
Apart p ((q, n) ∷ ps) e = (p + sizeof_mementry ≤ q) × Apart (q + n) ps e

Apart-mono : (p p' : ℕ) (ps : List (ℕ × ℕ)) (e : ℕ) → p ≤ p' → Apart p' ps e → Apart p ps e
Apart-mono p p' [] e h a = omega arith
Apart-mono p p' ((q, n) ∷ ps) e h a = (omega arith, a.1)

pub payloads-Apart : (p : ℕ) (bs : List Block) → Apart p (payloads p bs) (end p bs)
payloads-Apart p [] = omega arith
payloads-Apart p (b ∷ bs) =
    let q = p + sizeof_mementry + b.size in
    elim (Bool-cases b.used) [
      | inl u ↦ rw u (omega arith, payloads-Apart q bs)
      | inr f ↦ rw f (Apart-mono p q (payloads q bs) (end q bs) (omega arith) (payloads-Apart q bs))
    ]
