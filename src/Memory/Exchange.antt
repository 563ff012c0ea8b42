-- ===== src/Memory/Exchange.antt =====
-- The exchange of two frames in memory by swap_pages.
use asst.Base.{
  ℕ, ◌+◌, ◌*◌, ◌<◌, ◌≤◌, ◌≡◌, ◌≢◌, ◌∙◌, sym, ap, some, Ptr, null, Bool-cases, inl, inr, ◌⊎◌, ltb,
  ◌==◌, update, arith,
}
use asst.Types.{PageMeta}
use asst.Malloc.{Mem}
use asst.Memory.{Mm, frame_address, copy_page}
use asst.Memory.Swap.{swap_in_memory}

-- A copy between two pages that share no address.
pub copy_page-inside :
    (dst src j : ℕ) (mem : Mem) → j < 4096 → copy_page dst src mem (dst + j) ≡ mem (src + j)
copy_page-inside dst src j mem h = ground (arith, h)

pub copy_page-outside :
    (dst src a : ℕ) (mem : Mem) → (a < dst) ⊎ (dst + 4096 ≤ a) → copy_page dst src mem a ≡ mem a
copy_page-outside dst src a mem (inl h) = ground (arith, h)
copy_page-outside dst src a mem (inr h) = ground (arith, h)

-- Two pages share no address.
abbrev pub Apart : Ptr → Ptr → Type 0
Apart a b = (a + 4096 ≤ b) ⊎ (b + 4096 ≤ a)

-- The three copies of an exchange.
abbrev pub exchanged : Ptr → Ptr → Ptr → Mem → Mem
exchanged temp src dest mem = copy_page dest temp (copy_page src dest (copy_page temp src mem))

pub beyond : (a b j : ℕ) → j < 4096 → Apart a b → (a + j < b) ⊎ (b + 4096 ≤ a + j)
beyond a b j h (inl l) = inl (omega (arith, h, l))
beyond a b j h (inr l) = inr (omega (arith, h, l))

swap_sides : (a b : ℕ) → Apart a b → Apart b a
swap_sides a b (inl l) = inr l
swap_sides a b (inr l) = inl l

module _ (temp src dest : Ptr) (mem : Mem) (frames : Apart src dest) (temp_src : Apart temp src)
    (temp_dest : Apart temp dest) (j : ℕ) (h : j < 4096) where
  pub exchanged-src : exchanged temp src dest mem (src + j) ≡ mem (dest + j)
  exchanged-src =
      copy_page-outside dest temp (src + j) (copy_page src dest (copy_page temp src mem))
        (beyond src dest j h frames)
      ∙ copy_page-inside src dest j (copy_page temp src mem) h
      ∙ copy_page-outside temp src (dest + j) mem
          (beyond dest temp j h (swap_sides temp dest temp_dest))

  pub exchanged-dest : exchanged temp src dest mem (dest + j) ≡ mem (src + j)
  exchanged-dest =
      copy_page-inside dest temp j (copy_page src dest (copy_page temp src mem)) h
      ∙ copy_page-outside src dest (temp + j) (copy_page temp src mem)
          (beyond temp src j h temp_src)
      ∙ copy_page-inside temp src j mem h

-- The frame table and the page metas agree on where a page is.
abbrev pub Consistent : (ℕ → Ptr) → (Ptr → PageMeta) → Type 0
Consistent table metas = (k : ℕ) → k < 1596 → table k ≢ null → (metas (table k)).page_frame ≡ k

module _ (table : ℕ → Ptr) (metas : Ptr → PageMeta) (src dest : ℕ) (low_src : src < 1596)
    (low_dest : dest < 1596) (ne : src ≢ dest) (used_src : table src ≢ null)
    (used_dest : table dest ≢ null) (agree : Consistent table metas) where
  abbrev table' : ℕ → Ptr
  table' = update (update table src (table dest)) dest (table src)

  abbrev metas1 : Ptr → PageMeta
  metas1 = update metas (table dest) (record (metas (table dest)) { page_frame = src })

  abbrev metas' : Ptr → PageMeta
  metas' = update metas1 (table src) (record (metas1 (table src)) { page_frame = dest })

  apart : (i k : ℕ) → i < 1596 → k < 1596 → table i ≢ null → i ≢ k → table i ≢ table k
  apart i k hi hk used other e =
      other
        (sym (agree i hi used) ∙ ap (λ p. (metas p).page_frame) e ∙ agree k hk (λ n. used (e ∙ n)))

  pub Consistent-exchanged : Consistent table' metas'
  Consistent-exchanged k h used = elim (Bool-cases (k == dest)) [
    | inl at_dest ↦ ground (arith, at_dest)
    | inr not_dest ↦ elim (Bool-cases (k == src)) [
      | inl at_src ↦
          ground (
            arith,
            at_src,
            not_dest,
            ne,
            apart dest src low_dest low_src used_dest (λ e. ne (sym e)),
          )
      | inr not_src ↦
          let used_k : table k ≢ null = ground (arith, not_src, not_dest, used) in
          ground (
            arith,
            not_src,
            not_dest,
            agree k h used_k,
            apart k src h low_src used_k (ground (arith, not_src)),
            apart k dest h low_dest used_k (ground (arith, not_dest)),
          )
    ]
  ]

-- What an exchange of the frames `src` and `dest` leaves.
abbrev pub Exchanged : ℕ → ℕ → Mm → Mm → Type 0
Exchanged src dest m m' =
    Consistent m'.frame_table m'.metas
    × (m'.frame_table src ≡ m.frame_table dest)
    × (m'.frame_table dest ≡ m.frame_table src)
    × ((k : ℕ) → k ≢ src → k ≢ dest → m'.frame_table k ≡ m.frame_table k)
    × ((p : Ptr) → (m'.metas p).tid ≡ (m.metas p).tid)
    × ((j : ℕ)
        → j < 4096
        → (m'.arena.mem (frame_address src m + j) ≡ m.arena.mem (frame_address dest m + j))
          × (m'.arena.mem (frame_address dest m + j) ≡ m.arena.mem (frame_address src m + j)))

pub frames-Apart : (b src dest : ℕ) → src ≢ dest → Apart (b + src * 4096) (b + dest * 4096)
frames-Apart b src dest ne = elim (Bool-cases (ltb src dest)) [
  | inl less ↦ inl (ground (arith, less))
  | inr more ↦ inr (ground (arith, more, ne))
]

-- An exchange of two frames of memory, both in use, by way of a page that overlaps neither: it does
-- not fault, the two pages and their entries in the frame table change places, the other entries
-- stay, every page keeps its thread, and the frame table and the page metas agree on where each page
-- is, as they did before.
pub swap_in_memory-Exchanged :
    (src dest : ℕ) (m : Mm)
    → src < 1596
    → dest < 1596
    → src ≢ dest
    → m.frame_table src ≢ null
    → m.frame_table dest ≢ null
    → Consistent m.frame_table m.metas
    → Apart m.swap_temp (frame_address src m)
    → Apart m.swap_temp (frame_address dest m)
    → (m' : Mm) × (swap_in_memory src dest m ≡ some m') × Exchanged src dest m m'
unfolding swap_in_memory
swap_in_memory-Exchanged src dest m low_src low_dest ne used_src used_dest agree temp_src
      temp_dest =
    (
      record m {
        frame_table =
            table' m.frame_table m.metas src dest low_src low_dest ne used_src used_dest agree;
        metas = metas' m.frame_table m.metas src dest low_src low_dest ne used_src used_dest agree;
        arena = record (m.arena) {
          mem = exchanged m.swap_temp (frame_address src m) (frame_address dest m) m.arena.mem;
        };
      },
      ground (arith, low_src, low_dest, ne, used_src, used_dest),
      (
        Consistent-exchanged m.frame_table m.metas src dest low_src low_dest ne used_src used_dest
            agree,
        ground (arith, ne),
        ground arith,
        (λ k n1 n2. ground (arith, n1, n2)),
        (λ p. ground arith),
        (λ j h. (
          exchanged-src m.swap_temp (frame_address src m) (frame_address dest m) m.arena.mem
              (frames-Apart m.myblock_ptr src dest ne) temp_src temp_dest j h,
          exchanged-dest m.swap_temp (frame_address src m) (frame_address dest m) m.arena.mem
              (frames-Apart m.myblock_ptr src dest ne) temp_src temp_dest j h,
        )),
      ),
    )
