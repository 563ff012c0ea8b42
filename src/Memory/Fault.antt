-- ===== src/Memory/Fault.antt =====
-- swap_handler at an address of a page of the current thread.
use asst.Base.{
  ℕ, ◌+◌, ◌-◌, ◌*◌, ◌/◌, ◌<◌, ◌≤◌, ◌≡◌, ◌≢◌, ◌∙◌, refl, sym, ap, true, false, some, Ptr, null,
  Bool-cases, inl, inr, ◌⊎◌, ◌==◌, update, ltb, arith,
}
use asst.Types.{Tcb}
use asst.Memory.{Mm, frame_address, nth_page, protect_all}
use asst.Memory.Swap.{swap_pages, swap_handler, handled, int_difference}
use asst.Memory.Offset.{int_difference-near}
use asst.Memory.Exchange.{Apart, Consistent}
use asst.Memory.Pages.{swap_pages-Exchanged}

-- The page `q` of the thread now stands in the frame `i`, which alone is open.
abbrev pub Brought : ℕ → ℕ → Ptr → Tcb → Mm → Mm → Type 0
Brought i k q t m m' =
    (m'.frame_table i ≡ q)
    × ((m'.metas q).tid ≡ t.tid)
    × Consistent m'.frame_table m'.metas
    × ((j : ℕ) → j < 1596 → m'.access j ≡ (j == i))
    × ((j : ℕ)
        → j < 4096
        → m'.arena.mem (frame_address i m + j) ≡ m.arena.mem (frame_address k m + j))
    × (m'.mem_flag ≡ false)

module _ (a i k : ℕ) (q : Ptr) (t : Tcb) (m : Mm) (above : m.myblock_ptr ≤ a) (low : i < 1596)
    (at_frame : (a - m.myblock_ptr) / 4096 ≡ i) (own : i ≤ t.malloc_frame)
    (used : m.frame_table i ≢ null) where
  same_offset : int_difference a m.myblock_ptr ≡ a - m.myblock_ptr
  same_offset = int_difference-near a m.myblock_ptr above (omega (arith, low, at_frame))

  inside : ltb (1596 * 4096) (a - m.myblock_ptr) ≡ false
  inside = ground (arith, above, low, at_frame)

  swap_handler-here :
      (m.metas (m.frame_table i)).tid ≡ t.tid
      → swap_handler a t m ≡ some (handled (record m { access = update m.access i true }))
  unfolding swap_handler
  swap_handler-here same = rw (same_offset, inside, at_frame) (ground (arith, low, own, used, same))

  swap_handler-swapped :
      (m' : Mm)
      → (m.metas (m.frame_table i)).tid ≢ t.tid
      → nth_page i t.first_page m ≡ some q
      → q ≢ null
      → (m.metas q).page_frame ≡ k
      → swap_pages i k t m ≡ some m'
      → swap_handler a t m
        ≡ some (
            handled (record (protect_all false m') {
              access = update (protect_all false m').access i true;
            }))
  unfolding swap_handler
  swap_handler-swapped m' other found page at run =
      let e1 : ltb t.malloc_frame i ≡ false = ground (arith, own) in
      let e2 : ltb i 1596 ≡ true = ground (arith, low) in
      let e3 : (m.frame_table i == null) ≡ false = ground (arith, used) in
      let e4 : ((m.metas (m.frame_table i)).tid == t.tid) ≡ false = ground (arith, other) in
      let e5 : (q == null) ≡ false = ground (arith, page) in
      rw (same_offset, inside, at_frame, e1, e2, e3, e4, found, e5, at, run) refl

-- A fault of the thread `t` at an address of its `i`-th page `q`, which stands in some frame `k` of
-- memory, while another page stands in the frame `i`, and the temporary page is apart from both
-- frames: swap_handler does not exit. Either the page in the frame is one of the thread, and the frame
-- is opened; or it is not, and then `q` is brought to the frame with what it holds, the frame table
-- and the page metas agree as they did before, and that frame alone is open.
pub swap_handler-Brought :
    (a i k : ℕ) (q : Ptr) (t : Tcb) (m : Mm)
    → m.myblock_ptr ≤ a
    → i < 1596
    → k < 1596
    → (a - m.myblock_ptr) / 4096 ≡ i
    → i ≤ t.malloc_frame
    → m.frame_table i ≢ null
    → nth_page i t.first_page m ≡ some q
    → q ≢ null
    → (m.metas q).tid ≡ t.tid
    → m.frame_table k ≡ q
    → Consistent m.frame_table m.metas
    → Apart m.swap_temp (frame_address i m)
    → Apart m.swap_temp (frame_address k m)
    → ((m.metas (m.frame_table i)).tid ≡ t.tid)
        × (swap_handler a t m ≡ some (handled (record m { access = update m.access i true })))
      ⊎ ((m' : Mm) × ((m.metas (m.frame_table i)).tid ≢ t.tid)
          × (swap_handler a t m ≡ some (handled m'))
          × Brought i k q t m m')
swap_handler-Brought a i k q t m above low low_k at_frame own used found page mine stands agree
      temp_i temp_k =
    elim (Bool-cases ((m.metas (m.frame_table i)).tid == t.tid)) [
      | inl same ↦
          let e : (m.metas (m.frame_table i)).tid ≡ t.tid = ground (arith, same) in
          inl (e, swap_handler-here a i k q t m above low at_frame own used e)
      | inr other ↦
          let ne : (m.metas (m.frame_table i)).tid ≢ t.tid = ground (arith, other) in
          let apart : i ≢ k =
            λ e. ne (ap (λ p. (m.metas p).tid) (ap m.frame_table e ∙ stands) ∙ mine) in
          let used_k : m.frame_table k ≢ null = λ e. page (sym stands ∙ e) in
          let at : (m.metas q).page_frame ≡ k =
            ap (λ p. (m.metas p).page_frame) (sym stands) ∙ agree k low_k used_k in
          let (m', run, idle, (agree', at_i, at_k, others, threads, held)) =
            swap_pages-Exchanged i k t m low low_k apart used used_k agree temp_i temp_k in
          inr (
            record (protect_all false m') { access = update (protect_all false m').access i true },
            ne,
            swap_handler-swapped a i k q t m above low at_frame own used m' ne found page at run,
            (
              at_i ∙ stands,
              threads q ∙ mine,
              agree',
              (λ j h. ground (arith, h)),
              (λ j h. (held j h).0),
              idle,
            ),
          )
    ]
