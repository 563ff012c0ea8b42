-- ===== src/Malloc/Spec.antt =====
-- The allocator over blocks, with no memory and no pointers: what mymalloc promises. The block at
-- `middle` splits the blocks in those before and those after it.
use asst.Base.{
  ℕ, ◌+◌, ◌-◌, Bool, true, false, ◌&&◌, not, Option, none, some, List, [], ◌∷◌, ◌++◌, ltb, leb,
  if◌then◌else◌, ◌>>=◌,
}
use asst.Malloc.{sizeof_mementry}
use asst.Malloc.Blocks.{Block, block, end}

pub record Zipper : Type 0 where
  pub before : List Block
  pub at_middle : Block
  pub after : List Block

abbrev pub zipper : List Block → Block → List Block → Zipper
zipper xs b ys = record { before = xs; at_middle = b; after = ys }

abbrev pub blocks : Zipper → List Block
blocks z = z.before ++ z.at_middle ∷ z.after

abbrev pub block_fits : ℕ → Block → Bool
block_fits x b = not b.used && leb x b.size

-- Is there space for a second header?
abbrev pub splits : ℕ → Block → Bool
splits x b = ltb (x + sizeof_mementry) b.size

-- The blocks that a free block becomes when its left or its right part is handed out, and the
-- offset of that part in the block.
abbrev pub cut_left : ℕ → Block → List Block
cut_left x b =
    if splits x b
    then block x true ∷ block (b.size - sizeof_mementry - x) false ∷ []
    else block b.size true ∷ []

abbrev pub cut_right : ℕ → Block → List Block
cut_right x b =
    if splits x b
    then block (b.size - sizeof_mementry - x) false ∷ block x true ∷ []
    else block b.size true ∷ []

abbrev pub offset_right : ℕ → Block → ℕ
offset_right x b = if splits x b then b.size - x + sizeof_mementry else sizeof_mementry

-- The first block that fits, its left part handed out: the address, and the blocks.
unfoldable pub first_fit : ℕ → ℕ → List Block → Option (ℕ × List Block)
first_fit x p [] = none
first_fit x p (b ∷ bs) =
    let rest = (do (q, bs') ← first_fit x (p + sizeof_mementry + b.size) bs; some (q, b ∷ bs')) in
    if block_fits x b then some (p + sizeof_mementry, cut_left x b ++ bs) else rest

-- The last block that fits, its right part handed out.
unfoldable pub last_fit : ℕ → ℕ → List Block → Option (ℕ × List Block)
last_fit x p [] = none
last_fit x p (b ∷ bs) = elim (last_fit x (p + sizeof_mementry + b.size) bs) [
  | some (q, bs') ↦ some (q, b ∷ bs')
  | none ↦ if block_fits x b then some (p + offset_right x b, cut_right x b ++ bs) else none
]

-- At the block of `middle` a small request moves `middle` to what is left, a large one keeps it.
abbrev pub small_at_middle : ℕ → ℕ → Zipper → ℕ × Zipper
small_at_middle x p z =
    let b = z.at_middle in
    if splits x b
    then (
      p + sizeof_mementry,
      zipper (z.before ++ block x true ∷ []) (block (b.size - sizeof_mementry - x) false) z.after,
    )
    else (p + sizeof_mementry, record z { at_middle = block b.size true })

abbrev pub large_at_middle : ℕ → ℕ → Zipper → ℕ × Zipper
large_at_middle x p z =
    let b = z.at_middle in
    if splits x b
    then (
      p + offset_right x b,
      zipper z.before (block (b.size - sizeof_mementry - x) false) (block x true ∷ z.after),
    )
    else (p + sizeof_mementry, record z { at_middle = block b.size true })

abbrev pub after_address : ℕ → Zipper → ℕ
after_address base z = end base z.before + sizeof_mementry + z.at_middle.size

-- `base` is the address of the first header.
unfoldable pub small : ℕ → ℕ → Zipper → Option (ℕ × Zipper)
unfolding first_fit
small x base z = elim (first_fit x base z.before) [
  | some (q, bs) ↦ some (q, record z { before = bs })
  | none ↦ if block_fits x z.at_middle then some (small_at_middle x (end base z.before) z) else (do
    (q, bs) ← first_fit x (after_address base z) z.after
    some (q, record z { after = bs }))
]

unfoldable pub large : ℕ → ℕ → Zipper → Option (ℕ × Zipper)
unfolding first_fit last_fit
large x base z = elim (first_fit x (after_address base z) z.after) [
  | some (q, bs) ↦ some (q, record z { after = bs })
  | none ↦
      if block_fits x z.at_middle
      then some (large_at_middle x (end base z.before) z)
      else (do (q, bs) ← last_fit x base z.before; some (q, record z { before = bs }))
]

unfoldable pub malloc : ℕ → ℕ → Zipper → Option (ℕ × Zipper)
unfolding small large
malloc x base z = if ltb x 100 then small x base z else large x base z
