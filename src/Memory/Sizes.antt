-- ===== src/Memory/Sizes.antt =====
-- The number of pages of a large request.
use asst.Base.{ℕ, ◌+◌, ◌*◌, ◌%◌, ◌^◌, ◌<◌, ◌≤◌, Bool-cases, inl, inr, ltb, arith}
use asst.Memory.Chunk.{num_of_pages}

-- The pages of a request hold its bytes and a header of 32, and one page less does not, where the
-- sum of the two does not reach 2^32.
pub num_of_pages-least :
    (x : ℕ)
    → x + 32 < 2 ^ 32
    → (x + 32 ≤ num_of_pages x * 4096) × (num_of_pages x * 4096 < x + 32 + 4096)
unfolding num_of_pages
num_of_pages-least x h = elim (Bool-cases (ltb 0 ((x + 32) % 2 ^ 32 % 4096))) [
  | inl part ↦ (ground (arith, part), ground (arith, part))
  | inr whole ↦ (ground (arith, whole), ground (arith, whole))
]

-- Near the end of `unsigned int` the sum wraps: a request of at least 2^32 - 32 bytes takes at
-- most one page.
pub num_of_pages-wraps : (x : ℕ) → x < 2 ^ 32 → 2 ^ 32 ≤ x + 32 → num_of_pages x ≤ 1
unfolding num_of_pages
num_of_pages-wraps x low high = ground arith
