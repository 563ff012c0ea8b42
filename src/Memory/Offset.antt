-- ===== src/Memory/Offset.antt =====
-- The casts of an address difference to an `int` in swap_handler and mydeallocate.
use asst.Base.{ℕ, ◌+◌, ◌-◌, ◌*◌, ◌/◌, ◌<◌, ◌≤◌, ◌≡◌, ◌^◌, true, false, some, ltb, Ptr, refl, arith}
use asst.Memory.Swap.{int_difference}
use asst.Memory.Release.{page_index}

-- The cast leaves a difference that is less than 2 ^ 32 as it is.
pub int_difference-near : (p q : Ptr) → q ≤ p → p - q < 2 ^ 32 → int_difference p q ≡ p - q
int_difference-near p q above near = omega (arith, above, near)

-- The index of an address of the `i`-th page is `i`.
pub page_index-inside :
    (p base i : ℕ)
    → base + i * 4096 ≤ p
    → p < base + i * 4096 + 4096
    → i < 1596
    → page_index p base ≡ some i
unfolding page_index
page_index-inside p base i low high small =
    let same = int_difference-near p base (omega (arith, low)) (omega (arith, low, high, small)) in
    let near : ltb (p - base) (2 ^ 31) ≡ true = ground (arith, low, high, small) in
    let at : (p - base) / 4096 ≡ i = omega (arith, low, high) in rw (same, near, at) refl

-- An address less than a page below the block has the index 0 too: the division rounds to zero.
pub page_index-below :
    (p base : ℕ) → p < base → base < p + 4096 → base ≤ 2 ^ 64 → page_index p base ≡ some 0
unfolding page_index
page_index-below p base low near bound =
    let far : ltb (int_difference p base) (2 ^ 31) ≡ false = ground (arith, low, near, bound) in
    let small : ltb (2 ^ 32 - int_difference p base) 4096 ≡ true =
      ground (arith, low, near, bound) in
    rw (far, small) refl
