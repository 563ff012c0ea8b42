-- ===== src/Malloc/Writes.antt =====
-- mymalloc writes nothing outside the blocks of the arena.
use asst.Base.{
  ℕ, ◌+◌, ◌<◌, ◌≤◌, ◌^◌, ◌≡◌, ◌∙◌, refl, sym, ap, subst, ◌⊎◌, inl, inr, Bool-cases, true, false,
  some, List, [], ◌∷◌, arith, Ptr, null, ltb, ◌==◌, if◌then◌else◌, >>=-eq_some,
}
use asst.Malloc.{
  Arena, Mem, sizeof_mementry, fits, walk_next, walk_prev, has_room, split_left, split_right,
  take_small, take_right, take_left, take_whole, mymalloc_small, mymalloc_leftwards, mymalloc_large,
  mymalloc, initialize,
}
use asst.Malloc.Blocks.{Block, end}
use asst.Malloc.Merge.{IsHeader, Holds}
use asst.Malloc.Local.{
  Local, Linked, Seg-Inside, IsHeader-below, walk_next-Found, walk_prev-Found, next-Linked,
}

-- The header at `w` and the bytes behind it stand between `lo` and `hi`, as does what it links.
abbrev Held : Ptr → Ptr → Mem → Ptr → Type 0
Held lo hi m w =
    (lo ≤ w)
    × (w + sizeof_mementry + (m w).size ≤ hi)
    × (hi ≤ lo + 2 ^ 31)
    × (((m w).next ≡ null) ⊎ ((lo ≤ (m w).next) × ((m w).next < hi)))

Holds-Held :
    (base : Ptr) (bs : List Block) (a : Arena) (w : Ptr)
    → Holds base bs a
    → IsHeader base bs w
    → Held base (end base bs) a.mem w
Holds-Held base bs a w h at =
    let (above, below, next, before) = Seg-Inside a.mem null base bs null w h.seg at in
    (above, below, h.bound, inside next)
  where
    inside : {p : Ptr} → Linked base bs p → (p ≡ null) ⊎ ((base ≤ p) × (p < end base bs))
    inside (inl e) = inl e
    inside {p} (inr l) = inr (IsHeader-below base bs p l)

module _ (x lo hi w : ℕ) (a : Arena) (bytes : x < 2 ^ 32) (held : Held lo hi a.mem w) where
  take_whole-Local : Local lo hi a.mem (take_whole w a).1.mem
  take_whole-Local p away = ground (arith, held, away)

  split_left-Local : has_room x (a.mem w) ≡ true → Local lo hi a.mem (split_left x w a.mem)
  split_left-Local room p away = ground (arith, held, away, bytes, room)

  split_right-Local :
      fits x (a.mem w) ≡ true
      → has_room x (a.mem w) ≡ true
      → Local lo hi a.mem (split_right x w a.mem)
  split_right-Local fit room p away = ground (arith, held, away, bytes, room, fit)

  take_small-Local : Local lo hi a.mem (take_small x w a).1.mem
  unfolding take_small
  take_small-Local = elim (Bool-cases (has_room x (a.mem w))) [
    | inl room ↦ rw room (split_left-Local room)
    | inr full ↦ rw full take_whole-Local
  ]

  take_right-Local : Local lo hi a.mem (take_right x w a).1.mem
  unfolding take_right
  take_right-Local = elim (Bool-cases (has_room x (a.mem w))) [
    | inl room ↦ rw room (split_left-Local room)
    | inr full ↦ rw full take_whole-Local
  ]

  take_left-Local : fits x (a.mem w) ≡ true → Local lo hi a.mem (take_left x w a).1.mem
  unfolding take_left
  take_left-Local fit = elim (Bool-cases (has_room x (a.mem w))) [
    | inl room ↦ rw room (split_right-Local fit room)
    | inr full ↦ rw full take_whole-Local
  ]

-- What a walk found is taken by `take`, or nothing is.
module _ (x base : ℕ) (bs : List Block) (a : Arena) (take : Ptr → Ptr × Arena) (h : Holds base bs a)
    (keeps : (w : Ptr)
      → IsHeader base bs w
      → fits x (a.mem w) ≡ true
      → Local base (end base bs) a.mem (take w).1.mem) where
  taken-Local :
      (w q : Ptr) (a' : Arena)
      → (w ≡ null) ⊎ (IsHeader base bs w × (fits x (a.mem w) ≡ true))
      → (if w == null then (null, a) else take w) ≡ (q, a')
      → Local base (end base bs) a.mem a'.mem
  taken-Local w q a' (inl e) run p away = ground (arith, e, run)
  taken-Local w q a' (inr (at, fit)) run p away =
      let some_w : (w == null) ≡ false = ground (arith, IsHeader-below base bs w at, h.base_pos) in
      let same : take w ≡ (q, a') = rw some_w at run in
      ap (λ r. r.1.mem p) (sym same) ∙ keeps w at fit p away

module _ (x base : ℕ) (bs : List Block) (a : Arena) (bytes : x < 2 ^ 32) (h : Holds base bs a)
    (fuel : ℕ) (q : Ptr) (a' : Arena) where
  mymalloc_small-Local :
      Linked base bs a.head
      → mymalloc_small fuel x a ≡ some (q, a')
      → Local base (end base bs) a.mem a'.mem
  unfolding mymalloc_small
  mymalloc_small-Local start run =
      let (w, walk, rest) =
        >>=-eq_some (walk_next fuel x a.mem a.head)
          (λ w. some (if w == null then (null, a) else take_small x w a)) run in
      taken-Local x base bs a (λ w. take_small x w a) h
        (λ w at fit. take_small-Local x base (end base bs) w a bytes (Holds-Held base bs a w h at))
        w q a' (walk_next-Found x a.mem base bs h.seg fuel a.head w start walk)
        (ground (arith, rest))

  mymalloc_leftwards-Local :
      mymalloc_leftwards fuel x a ≡ some (q, a') → Local base (end base bs) a.mem a'.mem
  unfolding mymalloc_leftwards
  mymalloc_leftwards-Local run =
      let (w, walk, rest) =
        >>=-eq_some (walk_prev fuel x a.mem a.middle)
          (λ w. some (if w == null then (null, a) else take_left x w a)) run in
      taken-Local x base bs a (λ w. take_left x w a) h
        (λ w at fit.
          take_left-Local x base (end base bs) w a bytes (Holds-Held base bs a w h at) fit)
        w q a' (walk_prev-Found x a.mem base bs h.seg fuel a.middle w (inr (h.middle)) walk)
        (ground (arith, rest))

  mymalloc_large-Local :
      mymalloc_large fuel x a ≡ some (q, a') → Local base (end base bs) a.mem a'.mem
  unfolding mymalloc_large
  mymalloc_large-Local run =
      let some_middle : (a.middle == null) ≡ false =
        ground (arith, IsHeader-below base bs a.middle h.middle, h.base_pos) in
      let (w, walk, rest) =
        >>=-eq_some (walk_next fuel x a.mem (a.mem a.middle).next)
          (λ w. if w == null then mymalloc_leftwards fuel x a else some (take_right x w a))
          (rw some_middle at run) in
      elim (Bool-cases (w == null)) [
        | inl e ↦ mymalloc_leftwards-Local (rw e at rest)
        | inr e ↦
            taken-Local x base bs a (λ w. take_right x w a) h
              (λ w at fit.
                take_right-Local x base (end base bs) w a bytes (Holds-Held base bs a w h at))
              w q a'
              (walk_next-Found x a.mem base bs h.seg fuel (a.mem a.middle).next w
                (next-Linked x a.mem base bs h.seg a.middle h.middle) walk)
              (ground (arith, e, rest))
      ]

IsHeader-first :
    (base : Ptr) (bs : List Block) (w : Ptr) → IsHeader base bs w → IsHeader base bs base
IsHeader-first base [] w h = h
IsHeader-first base (b ∷ bs) w h = inl refl

-- A request of an arena that holds blocks, of less than 2 ^ 32 bytes, writes between `head` and the
-- end of the blocks only.
pub mymalloc-Local :
    (fuel x : ℕ) (memptr : Ptr) (size : ℕ) (base : Ptr) (bs : List Block) (a : Arena) (q : Ptr)
    (a' : Arena)
    → x < 2 ^ 32
    → Holds base bs a
    → mymalloc fuel x memptr size a ≡ some (q, a')
    → Local base (end base bs) a.mem a'.mem
unfolding mymalloc initialize
mymalloc-Local fuel x memptr size base bs a q a' bytes h run =
    let set : (a.head == null) ≡ false = ground (arith, h.head, h.base_pos) in
    let start : Linked base bs a.head =
      inr (subst (IsHeader base bs) (sym h.head) (IsHeader-first base bs a.middle h.middle)) in
    elim (Bool-cases (ltb x 100)) [
      | inl lt ↦ mymalloc_small-Local x base bs a bytes h fuel q a' start (rw (set, lt) at run)
      | inr ge ↦ mymalloc_large-Local x base bs a bytes h fuel q a' (rw (set, ge) at run)
    ]
