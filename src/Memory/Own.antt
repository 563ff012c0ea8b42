-- ===== src/Memory/Own.antt =====
-- A thread finds its pages: the one at `i` is brought to the frame `i`.
use asst.Base.{
  ℕ, ◌<◌, ◌≤◌, ◌≡◌, ◌≢◌, ◌∙◌, refl, sym, ap, subst, Bool, some, inl, inr, Bool-cases, Ptr, null,
  ltb, ◌==◌, List, arith,
}
use asst.Types.{Tcb}
use asst.Malloc.Blocks.{Block}
use asst.Memory.{Mm}
use asst.Memory.World.{NoPage, World, Thread}
use asst.Memory.Bring.{swapped, swap_open-swapped}
use asst.Memory.Brought.{World-swapped, Thread-swapped}
use asst.Memory.Page.{swap_open}

-- The globals that the pages do not depend on.
abbrev pub turned : Ptr → Ptr → Ptr → Bool → (ℕ → Bool) → Mm → Mm
turned current head middle flag access m = record m {
  current_page_meta = current;
  arena = record (m.arena) { head = head; middle = middle };
  mem_flag = flag;
  access = access;
}

module _ (current head middle : Ptr) (flag : Bool) (access : ℕ → Bool) {home : Ptr → ℕ}
    {m : Mm} where
  pub World-turned :
      {held : Ptr → List Block} {top : ℕ}
      → World home held top m
      → World home held top (turned current head middle flag access m)
  World-turned w = record {
    known = w.known;
    counter = w.counter;
    filled = w.filled;
    vacant = w.vacant;
    high = w.high;
    slots = w.slots;
    lower = w.lower;
    temp = w.temp;
    pos = w.pos;
    clear = w.clear;
    stands = w.stands;
    later = w.later;
  }

  pub Thread-turned :
      (t : Tcb) (page : ℕ → Ptr)
      → Thread home t page m
      → Thread home t page (turned current head middle flag access m)
  Thread-turned t page th = record {
    first = th.first;
    links = th.links;
    last = th.last;
    homes = th.homes;
    mine = th.mine;
    located = th.located;
    only = th.only;
  }

-- Every thread keeps its pages.
abbrev pub AllKeep : (Ptr → ℕ) → Mm → Mm → Type 0
AllKeep home m m' = (u : Tcb) (page : ℕ → Ptr) → Thread home u page m → Thread home u page m'

-- The pages keep what they hold, every thread keeps its pages, no page is given out, and a page of the
-- thread `n` that is in the frame of its index stays there.
pub record Steady (n : ℕ) (home : Ptr → ℕ) (held : Ptr → List Block) (top : ℕ) (m m' : Mm)
    : Type 0 where
  pub world : World home held top m'
  pub threads : AllKeep home m m'
  pub block : m'.myblock_ptr ≡ m.myblock_ptr
  pub given : m'.page_counter ≡ m.page_counter
  pub region : m'.os_mem_ptr ≡ m.os_mem_ptr
  pub stays :
      (k : ℕ) → k < top → (m.metas (m.frame_table k)).tid ≡ n → m'.frame_table k ≡ m.frame_table k
  pub tids : (p : Ptr) → (m'.metas p).tid ≡ (m.metas p).tid
  pub absent : (u : ℕ) → NoPage u m → NoPage u m'

module _ {home : Ptr → ℕ} {held : Ptr → List Block} {top : ℕ} {m : Mm} (w : World home held top m)
    {t : Tcb} {page : ℕ → Ptr} (th : Thread home t page m) where
  pub page_used : (i : ℕ) → i ≤ t.malloc_frame → page i ≢ null
  page_used i h e =
      let (below, at) = th.located i h in w.filled (m.metas (page i)).page_frame below (at ∙ e)

  pub low : (i : ℕ) → i ≤ t.malloc_frame → i < top
  low i h =
      let (below, at) = th.located i h in
      omega (arith, w.lower (m.metas (page i)).page_frame below, ap home at, th.homes i h)

  -- A page that is not in its frame stands behind the frames of all indices.
  pub away :
      (i : ℕ)
      → i ≤ t.malloc_frame
      → (m.metas (page i)).page_frame ≢ i
      → top ≤ (m.metas (page i)).page_frame
  away i h ne =
      let (below, at) = th.located i h in
      let f = (m.metas (page i)).page_frame in
      elim (Bool-cases (ltb f top)) [
        | inl less ↦
            absurd (ne (sym (w.slots f (ground (arith, less))) ∙ ap home at ∙ th.homes i h))
        | inr more ↦ ground (arith, more)
      ]

  -- The page of the thread in a frame of an index is the one at that index.
  pub at_home :
      (i : ℕ)
      → i ≤ t.malloc_frame
      → (m.metas (m.frame_table i)).tid ≡ t.tid
      → m.frame_table i ≡ page i
  at_home i h own =
      let (j, l, e) = th.only i (omega (arith, low i h, w.high)) own in
      let same : j ≡ i = sym (th.homes j l) ∙ (sym (ap home e) ∙ w.slots i (low i h)) in
      e ∙ ap page same

  -- The page in its frame.
  pub frame_of :
      (i : ℕ) → i ≤ t.malloc_frame → (m.metas (page i)).page_frame ≡ i → m.frame_table i ≡ page i
  frame_of i h e = subst (λ f. m.frame_table f ≡ page i) e (th.located i h).1

  pub swap_open-Steady :
      (i : ℕ)
      → i ≤ t.malloc_frame
      → (m.metas (page i)).page_frame ≢ i
      → (m' : Mm) × (swap_open i (m.metas (page i)).page_frame t m ≡ some m')
        × Steady t.tid home held top m m'
        × (m'.frame_table i ≡ page i)
        × (m'.current_page_meta ≡ m.current_page_meta)
        × (m'.arena.head ≡ m.arena.head)
        × (m'.arena.middle ≡ m.arena.middle)
        × ((m'.metas (page i)).head ≡ (m.metas (page i)).head)
        × ((m'.metas (page i)).middle ≡ (m.metas (page i)).middle)
  swap_open-Steady i h ne =
      let f = (m.metas (page i)).page_frame in
      let (below, at) = th.located i h in
      let l = low i h in
      let u = away i h ne in
      let own : home (m.frame_table f) ≡ i = ap home at ∙ th.homes i h in
      (
        swapped i f m,
        swap_open-swapped i f t m (omega (arith, l, u, below, w.counter))
            (omega (arith, below, w.counter)) (λ e. ne (sym e))
            (w.filled i (omega (arith, l, w.high))) (w.filled f below),
        record {
          world = World-swapped w i f l u below own;
          threads = λ v pages. Thread-swapped w i f l u below own v pages;
          block = refl;
          given = refl;
          region = refl;
          stays = λ k b own_k. stays_at k b own_k;
          tids = λ p. ground arith;
          absent = λ u none_of. absent_at u none_of;
        },
        ground (arith, at, l, u),
        refl,
        refl,
        refl,
        ground arith,
        ground arith,
      )
    where
      same_tid :
          (p : Ptr) → ((swapped i (m.metas (page i)).page_frame m).metas p).tid ≡ (m.metas p).tid
      same_tid p = ground arith

      absent_at : (u : ℕ) → NoPage u m → NoPage u (swapped i (m.metas (page i)).page_frame m)
      absent_at u none_of k b own_k =
          let f = (m.metas (page i)).page_frame in
          let own_k' = sym (same_tid ((swapped i f m).frame_table k)) ∙ own_k in
          elim (Bool-cases (k == f)) [
            | inl e ↦
                none_of i (omega (arith, low i h, w.high))
                  (ap (λ p. (m.metas p).tid) (ground (arith, e)) ∙ own_k')
            | inr e ↦ elim (Bool-cases (k == i)) [
              | inl e' ↦
                  none_of f (th.located i h).0
                    (ap (λ p. (m.metas p).tid) (ground (arith, e, e')) ∙ own_k')
              | inr e' ↦ none_of k b (ap (λ p. (m.metas p).tid) (ground (arith, e, e')) ∙ own_k')
            ]
          ]

      stays_at :
          (k : ℕ)
          → k < top
          → (m.metas (m.frame_table k)).tid ≡ t.tid
          → (swapped i (m.metas (page i)).page_frame m).frame_table k ≡ m.frame_table k
      stays_at k b own_k = elim (Bool-cases (k == i)) [
        | inl e ↦
            let e' : k ≡ i = ground (arith, e) in
            let there : m.frame_table i ≡ page i =
              at_home i h (ap (λ j. (m.metas (m.frame_table j)).tid) (sym e') ∙ own_k) in
            absurd (
              ne (
                ap (λ q. (m.metas q).page_frame) (sym there)
                ∙ w.known.0 i (omega (arith, low i h, w.high, w.counter))
                    (w.filled i (omega (arith, low i h, w.high)))))
        | inr e ↦ ground (arith, e, b, away i h ne)
      ]
