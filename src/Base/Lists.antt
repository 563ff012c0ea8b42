-- ===== src/Base/Lists.antt =====
-- Lists measured by native numbers.
use Prim.Native.Nat.{ℕ, suc, ◌+◌}
use mathlib.Core.Path.{◌≡◌, sym}
use mathlib.Core.Logic.{◌≢◌}
use mathlib.Core.List.{List, [], ◌∷◌, ◌++◌}
use native.Mathlib.Omega.{arith}

module _ {ℓ} {A : Type ℓ} where
  abbrev pub length : List A → ℕ
  length [] = 0
  length (_ ∷ xs) = suc (length xs)

  pub length-append : (xs ys : List A) → length (xs ++ ys) ≡ length xs + length ys
  length-append [] ys = omega arith
  length-append (x ∷ xs) ys = omega (arith, length-append xs ys)

module _ {ℓ κ} {A : Type ℓ} where
  -- `P` holds of every item.
  abbrev pub All : (A → Type κ) → List A → Type κ
  All P [] = Unit
  All P (x ∷ xs) = P x × All P xs

  pub All-append : (P : A → Type κ) (xs ys : List A) → All P xs → All P ys → All P (xs ++ ys)
  All-append P [] ys p q = q
  All-append P (x ∷ xs) ys p q = (p.0, All-append P xs ys p.1 q)

-- `n` is not in the list; no number is in it twice; two lists have none in common.
abbrev pub NotIn : ℕ → List ℕ → Type 0
NotIn n = All (λ m. m ≢ n)

abbrev pub Distinct : List ℕ → Type 0
Distinct [] = Unit
Distinct (n ∷ xs) = NotIn n xs × Distinct xs

abbrev pub Disjoint : List ℕ → List ℕ → Type 0
Disjoint xs ys = All (λ m. NotIn m ys) xs

pub Disjoint-singleton : (n : ℕ) (xs : List ℕ) → NotIn n xs → Disjoint xs (n ∷ [])
Disjoint-singleton n [] c = tt
Disjoint-singleton n (x ∷ xs) c = ((λ e. c.0 (sym e), tt), Disjoint-singleton n xs c.1)

pub Distinct-append :
    (xs ys : List ℕ) → Distinct xs → Distinct ys → Disjoint xs ys → Distinct (xs ++ ys)
Distinct-append [] ys p q d = q
Distinct-append (x ∷ xs) ys p q d =
    (All-append (λ m. m ≢ x) xs ys p.0 d.0, Distinct-append xs ys p.1 q d.1)
