-- ===== src/Memory/Store.antt =====
-- A page in its frame gets other blocks: its meta is stored, and the pages in other frames stay.
use asst.Base.{
  ℕ, ◌+◌, ◌<◌, ◌≡◌, ◌≢◌, ◌∙◌, refl, sym, ap, inl, inr, Bool-cases, Ptr, ◌==◌, update, List, arith,
}
use asst.Types.{Tcb}
use asst.Malloc.{Arena}
use asst.Malloc.Blocks.{Block, end}
use asst.Malloc.Merge.{Holds}
use asst.Malloc.Local.{Local}
use asst.Memory.{Mm, frame_address}
use asst.Memory.Exchange.{beyond, frames-Apart}
use asst.Memory.FirstRequest.{stored}
use asst.Memory.World.{Stands, World, Thread, Kept, Stands-Kept, Holds-frame, page_view}

module _ {home : Ptr → ℕ} {held : Ptr → List Block} {top : ℕ} {m : Mm} (w : World home held top m)
    (i : ℕ) (p : Ptr) (below : i < m.page_counter) (here : m.frame_table i ≡ p) (own : home p ≡ i)
    (a : Arena) (n : ℕ) (bs : List Block) where
  abbrev m' : Mm
  m' = stored a n p m

  frame_p : (m.metas p).page_frame ≡ i
  frame_p =
      ap (λ q. (m.metas q).page_frame) (sym here)
      ∙ w.known.0 i (omega (arith, below, w.counter)) (w.filled i below)

  -- The page itself.
  Stands-here :
      Holds (frame_address i m) bs a
      → end (frame_address i m) bs ≡ frame_address i m + 4096
      → Stands i bs m' p
  Stands-here h whole = (
    Holds-frame (frame_address i m) bs a (page_view i p m') (ground arith) (ground arith)
        (λ q l u. ap (λ b. a.mem b) (ground (arith, frame_p, l))) h,
    whole,
    ground (arith, ap (λ q. (m.metas q).front_meta) here, (w.stands i below).2),
  )

  -- A page in another frame.
  Kept-stored :
      (k : ℕ)
      → k < m.page_counter
      → k ≢ i
      → Local (frame_address i m) (frame_address i m + 4096) m.arena.mem a.mem
      → Kept m m' (m.frame_table k)
  Kept-stored k h ne local =
      let at : (m.metas (m.frame_table k)).page_frame ≡ k =
        w.known.0 k (omega (arith, h, w.counter)) (w.filled k h) in
      let other : m.frame_table k ≢ p =
        λ e. ne (sym at ∙ (ap (λ q. (m.metas q).page_frame) e ∙ frame_p)) in
      let meta : m'.metas (m.frame_table k) ≡ m.metas (m.frame_table k) = ground (arith, other) in
      (
        meta
            ∙ ap (λ v. record (m.metas (m.frame_table k)) { page_frame = v.page_frame }) (sym meta),
        λ j l.
            ap (λ v. a.mem (frame_address v.page_frame m + j)) meta
            ∙ local (frame_address (m.metas (m.frame_table k)).page_frame m + j) (
                rw at (
                  beyond (frame_address k m) (frame_address i m) j l
                    (frames-Apart m.myblock_ptr k i ne))),
      )

  pub World-stored :
      Holds (frame_address i m) bs a
      → end (frame_address i m) bs ≡ frame_address i m + 4096
      → Local (frame_address i m) (frame_address i m + 4096) m.arena.mem a.mem
      → World home (update held p bs) top m'
  World-stored h whole local = record {
    known = ((λ k l used. ground (arith, w.known.0 k l used)), w.known.1, w.known.2);
    counter = w.counter;
    filled = w.filled;
    vacant = w.vacant;
    high = w.high;
    slots = w.slots;
    lower = w.lower;
    temp = w.temp;
    pos = w.pos;
    clear = λ q l. ground (arith, w.clear q l);
    stands = λ k l. elim (Bool-cases (k == i)) [
      | inl e ↦
          let e' : m.frame_table k ≡ p = ap m.frame_table (ground (arith, e)) ∙ here in
          let held_p : update held p bs p ≡ bs = ground arith in
          rw e' (rw (own, held_p) (Stands-here h whole))
      | inr e ↦
          let ne : k ≢ i = ground (arith, e) in
          let q = m.frame_table k in
          let at : (m.metas q).page_frame ≡ k =
            w.known.0 k (omega (arith, l, w.counter)) (w.filled k l) in
          let other : q ≢ p = λ e. ne (sym at ∙ (ap (λ q. (m.metas q).page_frame) e ∙ frame_p)) in
          let held_q : update held p bs q ≡ held q = ground (arith, other) in
          rw held_q
            (Stands-Kept (home q) (held q) m m' q refl (Kept-stored k l ne local) (w.stands k l))
    ];
    later = w.later;
  }

  pub Thread-stored : (t : Tcb) (page : ℕ → Ptr) → Thread home t page m → Thread home t page m'
  Thread-stored t page th = record {
    first = th.first;
    links = λ k h. ground (arith, th.links k h);
    last = ground (arith, th.last);
    homes = th.homes;
    mine = λ k h. ground (arith, th.mine k h);
    located = λ k h. ground (arith, th.located k h);
    only = λ k h own_tid. th.only k h (ground (arith, own_tid));
  }
