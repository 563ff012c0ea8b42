-- ===== src/Memory/Brought.antt =====
-- The exchange that brings a page to its frame keeps the pages of every thread in order.
use asst.Base.{
  ℕ, ◌<◌, ◌≤◌, ◌≡◌, ◌∙◌, refl, sym, subst, inl, inr, Bool-cases, Ptr, ◌==◌, List, arith,
}
use asst.Types.{Tcb}
use asst.Malloc.Blocks.{Block}
use asst.Memory.{Mm}
use asst.Memory.Exchange.{Consistent-exchanged}
use asst.Memory.World.{Stands, World, Thread, Located, Stands-Kept}
use asst.Memory.Bring.{swapped, Kept-swapped, frame_src, frame_dest}

module _ {home : Ptr → ℕ} {held : Ptr → List Block} {top : ℕ} {m : Mm} (w : World home held top m)
    (src dest : ℕ) (low : src < top) (high : top ≤ dest) (given : dest < m.page_counter)
    (own : home (m.frame_table dest) ≡ src) where
  abbrev m' : Mm
  m' = swapped src dest m

  -- The page in a frame stood in one before.
  origin :
      (k : ℕ)
      → k < m.page_counter
      → (f : ℕ) × (f < m.page_counter) × (m'.frame_table k ≡ m.frame_table f)
  origin k h = elim (Bool-cases (k == dest)) [
    | inl e ↦ (src, omega (arith, low, high, given), ground (arith, e))
    | inr ne ↦ elim (Bool-cases (k == src)) [
      | inl e ↦ (dest, given, ground (arith, e, ne))
      | inr ne' ↦ (k, h, ground (arith, ne, ne'))
    ]
  ]

  pub at_frame : (f : ℕ) → f < m.page_counter → (m.metas (m.frame_table f)).page_frame ≡ f
  at_frame f h = w.known.0 f (omega (arith, h, w.counter)) (w.filled f h)

  Located-frame : (f : ℕ) → f < m.page_counter → Located m (m.frame_table f)
  Located-frame f h = rw (at_frame f h) (h, refl)

  Stands-swapped :
      (k : ℕ)
      → k < m.page_counter
      → Stands (home (m'.frame_table k)) (held (m'.frame_table k)) m' (m'.frame_table k)
  Stands-swapped k h =
      let (f, below, e) = origin k h in
      let p = m.frame_table f in
      subst (λ q. Stands (home q) (held q) m' q) (sym e)
        (Stands-Kept (home p) (held p) m m' p refl
          (Kept-swapped w src dest low high given own p (Located-frame f below)) (w.stands f below))

  pub World-swapped : World home held top m'
  World-swapped = record {
    known = (
      Consistent-exchanged m.frame_table m.metas src dest
          (omega (arith, low, high, given, w.counter)) (omega (arith, given, w.counter))
          (omega (arith, low, high)) (w.filled src (omega (arith, low, high, given)))
          (w.filled dest given) w.known.0,
      (λ k. ground (arith, w.known.1 k, w.known.1 src, w.known.1 dest)),
      w.known.2,
    );
    counter = w.counter;
    filled = λ k h.
        ground (
          arith,
          w.filled k h,
          w.filled src (omega (arith, low, high, given)),
          w.filled dest given,
        );
    vacant = λ k l u. ground (arith, w.vacant k l u, l, low, high, given);
    high = w.high;
    slots = λ k h. ground (arith, w.slots k h, h, high, own);
    lower = λ k h.
        let (f, below, e) = origin k h in subst (λ p. home p < top) (sym e) (w.lower f below);
    temp = w.temp;
    pos = w.pos;
    clear = λ p h. ground (arith, w.clear p h);
    stands = Stands-swapped;
    later = w.later;
  }

  pub Located-swapped : (p : Ptr) → Located m p → Located m' p
  Located-swapped p (below, at) = elim (Bool-cases ((m.metas p).page_frame == src)) [
    | inl e ↦ ground (
      arith,
      e,
      at,
      low,
      high,
      given,
      frame_src w src dest low high given own,
      frame_dest w src dest low high given own,
    )
    | inr ne ↦ elim (Bool-cases ((m.metas p).page_frame == dest)) [
      | inl e ↦ ground (
        arith,
        e,
        ne,
        at,
        below,
        low,
        high,
        given,
        frame_src w src dest low high given own,
        frame_dest w src dest low high given own,
      )
      | inr ne' ↦ ground (
        arith,
        ne',
        ne,
        at,
        below,
        frame_src w src dest low high given own,
        frame_dest w src dest low high given own,
      )
    ]
  ]

  pub Thread-swapped : (t : Tcb) (page : ℕ → Ptr) → Thread home t page m → Thread home t page m'
  Thread-swapped t page th = record {
    first = th.first;
    links = λ i h. ground (arith, th.links i h);
    last = ground (arith, th.last);
    homes = th.homes;
    mine = λ i h. ground (arith, th.mine i h);
    located = λ i h. Located-swapped (page i) (th.located i h);
    only = λ k h own_tid.
        let (f, below, e) = origin k h in
        let same : (m.metas (m.frame_table f)).tid ≡ t.tid = ground (arith, own_tid, e) in
        let (i, l, e') = th.only f below same in (i, l, ◌∙◌ {c = page i} e e');
  }
