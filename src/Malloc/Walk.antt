-- ===== src/Malloc/Walk.antt =====
-- The loops of mymalloc over the headers of a segment.
use asst.Base.{
  ℕ, zero, suc, ◌+◌, ◌-◌, ◌<◌, ◌≡◌, refl, ap, ◌++◌, some, List, [], ◌∷◌, length, arith, Ptr, null,
  ◌==◌, if◌then◌else◌,
}
use asst.Malloc.{sizeof_mementry, Mem, walk_next, walk_prev}
use asst.Malloc.Blocks.{Block, end, last, link, Seg, le-end}
use asst.Malloc.Spec.{block_fits}

-- The header where the walk to the right stops, NULL if no block fits.
abbrev pub first_header : ℕ → Ptr → List Block → Ptr
first_header x p [] = null
first_header x p (b ∷ bs) =
    let rest = first_header x (p + sizeof_mementry + b.size) bs in
    if block_fits x b then p else rest

-- The header where the walk to the left stops.
abbrev pub last_header : ℕ → Ptr → List Block → Ptr
last_header x p [] = null
last_header x p (b ∷ bs) =
    let rest = last_header x (p + sizeof_mementry + b.size) bs in
    if rest == null then (if block_fits x b then p else null) else rest

pub walk_next-first_header :
    (fuel x : ℕ) (m : Mem) (prev p : Ptr) (bs : List Block)
    → 0 < p
    → length bs < fuel
    → Seg m prev p bs null
    → walk_next fuel x m (link p bs null) ≡ some (first_header x p bs)
unfolding walk_next
walk_next-first_header zero x m prev p bs pos h s = absurd (omega arith)
walk_next-first_header (suc f) x m prev p [] pos h s = refl
walk_next-first_header (suc f) x m prev p (b ∷ bs) pos h s = ground (
  arith,
  s.0,
  walk_next-first_header f x m p (p + sizeof_mementry + b.size) bs (omega arith) (omega arith) s.1,
)

-- With `length bs` rounds spent on the blocks, the walk goes on at `prev` if none of them fits.
pub walk_prev-last_header :
    (n fuel x : ℕ) (m : Mem) (prev p : Ptr) (bs : List Block) (stop : Ptr)
    → 0 < p
    → n ≡ length bs + fuel
    → Seg m prev p bs stop
    → walk_prev n x m (last prev p bs)
      ≡ (if last_header x p bs == null then walk_prev fuel x m prev else some (last_header x p bs))
unfolding walk_prev
walk_prev-last_header n fuel x m prev p [] stop pos e s =
    ap (λ k. walk_prev k x m prev) (omega arith)
walk_prev-last_header n fuel x m prev p (b ∷ bs) stop pos e s = ground (
  arith,
  s.0,
  walk_prev-last_header n (suc fuel) x m p (p + sizeof_mementry + b.size) bs stop (omega arith)
      (omega arith) s.1,
)

pub last_header-snoc :
    (x p : ℕ) (bs : List Block) (b : Block)
    → 0 < p
    → last_header x p (bs ++ b ∷ []) ≡ (if block_fits x b then end p bs else last_header x p bs)
last_header-snoc x p [] b pos = ground arith
last_header-snoc x p (c ∷ bs) b pos = ground (
  arith,
  last_header-snoc x (p + sizeof_mementry + c.size) bs b (omega arith),
  le-end (p + sizeof_mementry + c.size) bs,
)

last-snoc : (prev p : Ptr) (bs : List Block) (b : Block) → last prev p (bs ++ b ∷ []) ≡ end p bs
last-snoc prev p [] b = refl
last-snoc prev p (c ∷ bs) b = last-snoc p (p + sizeof_mementry + c.size) bs b

walk_prev-null : (f x : ℕ) (m : Mem) → 0 < f → walk_prev f x m null ≡ some null
unfolding walk_prev
walk_prev-null zero x m h = absurd (omega arith)
walk_prev-null (suc f) x m h = refl

-- The walk to the left from the block `b`.
pub walk_prev-snoc :
    (fuel x : ℕ) (m : Mem) (p : Ptr) (bs : List Block) (b : Block) (stop : Ptr)
    → 0 < p
    → length (bs ++ b ∷ []) < fuel
    → Seg m null p (bs ++ b ∷ []) stop
    → walk_prev fuel x m (end p bs) ≡ some (if block_fits x b then end p bs else last_header x p bs)
walk_prev-snoc fuel x m p bs b stop pos enough s =
    let n = length (bs ++ b ∷ []) in
    let walk =
      walk_prev-last_header fuel (fuel - n) x m null p (bs ++ b ∷ []) stop pos (omega arith) s in
    ground (
      arith,
      walk,
      walk_prev-null (fuel - n) x m (omega arith),
      last-snoc null p bs b,
      last_header-snoc x p bs b pos,
      le-end p bs,
    )
