-- ===== src/Memory/Pages.antt =====
-- swap_pages on frames of memory: an exchange with another frame, and an eviction to an unused one.
use asst.Base.{
  ℕ, ◌+◌, ◌%◌, ◌^◌, ◌<◌, ◌≡◌, ◌≢◌, ◌∙◌, refl, sym, ap, false, none, some, Ptr, null, minus_one,
  Bool-cases, inl, inr, ◌==◌, update, arith,
}
use asst.Types.{Tcb, PageMeta}
use asst.Memory.{Mm, enter, frame_address, copy_page}
use asst.Memory.Swap.{evict_to_memory, swap_pages}
use asst.Memory.Exchange.{Apart, Consistent, Exchanged, swap_in_memory-Exchanged, copy_page-inside}

-- A call of swap_pages on two frames of memory, both in use, with the page of swap_temp apart from
-- both: it does not fault, the two pages and their entries in the frame table change places, the
-- other entries stay, every page keeps its thread, the frame table and the page metas agree as they
-- did before, and mem_flag is cleared.
pub swap_pages-Exchanged :
    (src dest : ℕ) (t : Tcb) (m : Mm)
    → src < 1596
    → dest < 1596
    → src ≢ dest
    → m.frame_table src ≢ null
    → m.frame_table dest ≢ null
    → Consistent m.frame_table m.metas
    → Apart m.swap_temp (frame_address src m)
    → Apart m.swap_temp (frame_address dest m)
    → (m' : Mm) × (swap_pages src dest t m ≡ some m')
      × (m'.mem_flag ≡ false)
      × Exchanged src dest m m'
unfolding swap_pages
swap_pages-Exchanged src dest t m low_src low_dest ne used_src used_dest agree temp_src temp_dest =
    let m0 = enter (record m { count = (m.count + 1) % 2 ^ 32 }) in
    let (m', run, exchanged) =
      swap_in_memory-Exchanged src dest m0 low_src low_dest ne used_src used_dest agree temp_src
        temp_dest in
    (record m' { mem_flag = false }, ground (arith, low_dest, run), refl, exchanged)

module _ (table : ℕ → Ptr) (metas : Ptr → PageMeta) (src dest : ℕ) (low_src : src < 1596)
    (ne : src ≢ dest) (used : table src ≢ null) (agree : Consistent table metas) where
  pub Consistent-moved :
      Consistent
        (update (update table dest (table src)) src null)
        (update metas (table src) (record (metas (table src)) { page_frame = dest }))
  Consistent-moved k h used_k = elim (Bool-cases (k == src)) [
    | inl at_src ↦ ground (arith, at_src, used_k)
    | inr not_src ↦ elim (Bool-cases (k == dest)) [
      | inl at_dest ↦ ground (arith, at_dest, not_src)
      | inr not_dest ↦
          let there : table k ≢ null = ground (arith, not_src, not_dest, used_k) in
          let apart : table k ≢ table src = λ e. ground (
            arith,
            not_src,
            sym (agree k h there) ∙ ap (λ p. (metas p).page_frame) e ∙ agree src low_src used,
          ) in
          ground (arith, not_src, not_dest, agree k h there, apart)
    ]
  ]

-- What an eviction of the frame `src` to the unused frame `dest` leaves.
abbrev pub Evicted : ℕ → ℕ → Mm → Mm → Type 0
Evicted src dest m m' =
    Consistent m'.frame_table m'.metas
    × (m'.frame_table src ≡ null)
    × (m'.frame_table dest ≡ m.frame_table src)
    × ((k : ℕ) → k ≢ src → k ≢ dest → m'.frame_table k ≡ m.frame_table k)
    × (m'.page_counter ≡ dest + 1)
    × ((j : ℕ)
        → j < 4096
        → m'.arena.mem (frame_address dest m + j) ≡ m.arena.mem (frame_address src m + j))

-- A call of swap_pages that evicts a frame in use, while fewer than 1596 pages were given out and
-- the frame is not the next of them: it does not fault, the page moves to the frame at
-- page_counter, its own frame is free, the other entries stay, the frame table and the page metas
-- agree as they did before, and mem_flag is cleared.
pub swap_pages-Evicted :
    (src : ℕ) (t : Tcb) (m : Mm)
    → src < 1596
    → m.page_counter < 1596
    → src ≢ m.page_counter
    → m.frame_table src ≢ null
    → Consistent m.frame_table m.metas
    → (m' : Mm) × (swap_pages src minus_one t m ≡ some m')
      × (m'.mem_flag ≡ false)
      × Evicted src m.page_counter m m'
unfolding swap_pages evict_to_memory
swap_pages-Evicted src t m low_src low ne used agree =
    let m0 = enter (record m { count = (m.count + 1) % 2 ^ 32 }) in
    (
      record m0 {
        frame_table = update (update m.frame_table m.page_counter (m.frame_table src)) src null;
        metas =
            update m.metas (m.frame_table src)
              (record (m.metas (m.frame_table src)) { page_frame = m.page_counter });
        arena = record (m.arena) {
          mem = copy_page (frame_address m.page_counter m) (frame_address src m) m.arena.mem;
        };
        page_counter = m.page_counter + 1;
        mem_flag = false;
      },
      ground (arith, low_src, low, ne, used),
      refl,
      (
        Consistent-moved m.frame_table m.metas src m.page_counter low_src ne used agree,
        ground arith,
        ground (arith, ne),
        (λ k n1 n2. ground (arith, n1, n2)),
        refl,
        (λ j h.
            copy_page-inside (frame_address m.page_counter m) (frame_address src m) j m.arena.mem
              h),
      ),
    )

-- The test `page_counter < 1597` of swap_pages admits 1596, for which there is no entry in the frame
-- table: an eviction of a frame in use is then a fault.
pub swap_pages-overflow :
    (src : ℕ) (t : Tcb) (m : Mm)
    → src < 1596
    → m.frame_table src ≢ null
    → m.page_counter ≡ 1596
    → swap_pages src minus_one t m ≡ none
unfolding swap_pages evict_to_memory
swap_pages-overflow src t m low used at = ground (arith, at, low, used)
