-- ===== src/Memory/Find.antt =====
-- mydeallocate: the page of an address is found, loaded and brought to its frame.
use asst.Base.{
  ℕ, zero, suc, ◌+◌, ◌-◌, ◌≤◌, ◌≡◌, ◌≢◌, ◌∙◌, refl, sym, ap, true, false, some, inl, inr, Ptr, null,
  ltb, ◌==◌, List, Bool-cases, arith,
}
use asst.Types.{Tcb}
use asst.Malloc.Blocks.{Block}
use asst.Memory.{Mm, nth_page}
use asst.Memory.Page.{load_arena, swap_open}
use asst.Memory.World.{World, Thread}
use asst.Memory.Own.{
  Steady, turned, World-turned, Thread-turned, page_used, low, at_home, swap_open-Steady,
}
use asst.Memory.Load.{AtPage, load_arena-turned}
use asst.Memory.Search.{Steady-trans}
use asst.Memory.Release.{find_page}

-- The walk to the page at `d` from that at `i`.
nth_page-page :
    (d i : ℕ) (home : Ptr → ℕ) (t : Tcb) (page : ℕ → Ptr) (m : Mm)
    → ((k : ℕ) → k ≤ t.malloc_frame → page k ≢ null)
    → Thread home t page m
    → i + d ≤ t.malloc_frame
    → nth_page d (page i) m ≡ some (page (i + d))
unfolding nth_page
nth_page-page zero i home t page m used th h = ap (λ k. some (page k)) (omega arith)
nth_page-page (suc d) i home t page m used th h =
    let rest = nth_page-page d (i + 1) home t page m used th (omega (arith, h)) in
    let e : (page i == null) ≡ false = ground (arith, used i (omega (arith, h))) in
    let same : i + 1 + d ≡ i + suc d = omega arith in
    rw (e, th.links i (omega (arith, h))) (rest ∙ ap (λ k. some (page k)) same)

module _ {home : Ptr → ℕ} {held : Ptr → List Block} {top : ℕ} {m : Mm} (w : World home held top m)
    {t : Tcb} {page : ℕ → Ptr} (th : Thread home t page m) (i : ℕ) (l : i ≤ t.malloc_frame) where
  walked : nth_page i t.first_page m ≡ some (page i)
  walked =
      ap (λ p. nth_page i p m) th.first
      ∙ (nth_page-page i 0 home t page m (page_used w th) th (omega (arith, l))
          ∙ ap (λ k. some (page k)) (omega arith))

  -- Whichever way it is looked for, the page at `i` is found.
  pub find_page-page : find_page i t m ≡ some (page i)
  unfolding find_page
  find_page-page = elim (Bool-cases (i == 0)) [
    | inl e ↦ rw e walked
    | inr e ↦
        let ne : i ≢ 0 = ground (arith, e) in
        let k = i - 1 in
        let below : k ≤ t.malloc_frame = omega (arith, l) in
        let low_k = low w th k below in
        let e1 : ltb k 1596 ≡ true = ground (arith, low_k, w.high, w.counter) in
        let e2 : (m.frame_table k == null) ≡ false =
          ground (arith, w.filled k (omega (arith, low_k, w.high))) in
        elim (Bool-cases ((m.metas (m.frame_table k)).tid == t.tid)) [
          | inl own ↦
              let at = at_home w th k below (ground (arith, own)) in
              let next : (m.metas (m.frame_table k)).next ≡ page i =
                ap (λ p. (m.metas p).next) at
                ∙ (th.links k (omega (arith, ne, l)) ∙ ap page (omega (arith, ne))) in
              rw (e, e1, e2, own, next) refl
          | inr other ↦ rw (e, e1, e2, other) walked
        ]
  ]

-- The globals `head` and `middle` of the page at `i`.
loading :
    {home : Ptr → ℕ} {held : Ptr → List Block} {top : ℕ} {m : Mm} {t : Tcb} {page : ℕ → Ptr} (i : ℕ)
    → World home held top m
    → Thread home t page m
    → i ≤ t.malloc_frame
    → (m1 : Mm) × (load_arena (record m { current_page_meta = page i }) ≡ some m1)
      × Steady t.tid home held top m m1
      × (m1.metas ≡ m.metas)
      × (m1.frame_table ≡ m.frame_table)
      × (m1.current_page_meta ≡ page i)
      × (m1.arena.head ≡ (m.metas (page i)).head)
      × (m1.arena.middle ≡ (m.metas (page i)).middle)
loading {m = m} {page = page} i w th l =
    let v = m.metas (page i) in
    (
      turned (page i) v.head v.middle m.mem_flag m.access m,
      load_arena-turned (record m { current_page_meta = page i }) (page_used w th i l),
      record {
        world = World-turned (page i) v.head v.middle m.mem_flag m.access w;
        threads =
            λ u pages tu. Thread-turned (page i) v.head v.middle m.mem_flag m.access u pages tu;
        block = refl;
        given = refl;
        region = refl;
        stays = λ k b own. refl;
        tids = λ p. refl;
        absent = λ u none_of. none_of;
      },
      refl,
      refl,
      refl,
      refl,
      refl,
    )

module _ {home : Ptr → ℕ} {held : Ptr → List Block} {top : ℕ} {m : Mm} (w : World home held top m)
    {t : Tcb} {page : ℕ → Ptr} (th : Thread home t page m) (i : ℕ) (l : i ≤ t.malloc_frame) where
  -- The page is in its frame.
  pub AtPage-own :
      m.frame_table i ≡ page i
      → (m1 : Mm) × (load_arena (record m { current_page_meta = page i }) ≡ some m1)
        × AtPage t.tid home held top page i m m1
  AtPage-own here =
      let (m1, run, s, metas, table, current, head, middle) = loading i w th l in
      (
        m1,
        run,
        record {
          steady = s;
          here = ap (λ f. f i) table ∙ here;
          current = current;
          head = head ∙ ap (λ f. (f (page i)).head) (sym metas);
          middle = middle ∙ ap (λ f. (f (page i)).middle) (sym metas);
        },
      )

  -- The page is in another frame: it is loaded, and brought to its own.
  pub AtPage-brought :
      (m.metas (page i)).page_frame ≢ i
      → (m1 : Mm) × (m2 : Mm) × (load_arena (record m { current_page_meta = page i }) ≡ some m1)
        × (swap_open i (m1.metas (page i)).page_frame t m1 ≡ some m2)
        × AtPage t.tid home held top page i m m2
  AtPage-brought away =
      let (m1, run, s, metas, table, current, head, middle) = loading i w th l in
      let away1 : (m1.metas (page i)).page_frame ≢ i =
        λ e. away (ap (λ f. (f (page i)).page_frame) (sym metas) ∙ e) in
      let (m2, swap, s2, here, same, same_head, same_middle, meta_head, meta_middle) =
        swap_open-Steady s.world (s.threads t page th) i l away1 in
      (
        m1,
        m2,
        run,
        swap,
        record {
          steady = Steady-trans s s2;
          here = here;
          current = same ∙ current;
          head = same_head ∙ (head ∙ (ap (λ f. (f (page i)).head) (sym metas) ∙ sym meta_head));
          middle =
              same_middle
              ∙ (middle ∙ (ap (λ f. (f (page i)).middle) (sym metas) ∙ sym meta_middle));
        },
      )
