-- ===== src/Memory/NewLinks.antt =====
-- The threads behind a new page: that of the page has one more, the others have theirs.
use asst.Base.{
  ℕ, ◌+◌, ◌<◌, ◌≤◌, ◌≡◌, ◌≢◌, ◌∙◌, refl, sym, ap, subst, Bool, inl, inr, Bool-cases, Ptr, ltb, ◌==◌,
  update, List, arith,
}
use asst.Types.{Tcb, PageMeta}
use asst.Malloc.{Arena}
use asst.Malloc.Blocks.{Block}
use asst.Memory.{Mm}
use asst.Memory.World.{World, Thread, Located, NoPage}
use asst.Memory.Clear.{Cleared}
use asst.Memory.NewPage.{
  Added, m3, p, home', older, meta_other, home_other, table_new, table_other, by_frame,
}

module _ {home : Ptr → ℕ} {held : Ptr → List Block} {top : ℕ} {m m1 : Mm}
    (w : World home held top m) (i n : ℕ) (c : Cleared i m m1) (in_reach : i ≤ top)
    (low : m.page_counter < 1596) (metas : Ptr → PageMeta) (new : Added i n m1 metas) (flag : Bool)
    (access : ℕ → Bool) (a : Arena) (size : ℕ) (bs : List Block) where
  abbrev new_p : Ptr
  new_p = p w i n c in_reach low metas new flag access a size bs

  abbrev pub mm : Mm
  mm = m3 w i n c in_reach low metas new flag access a size bs

  abbrev pub new_home : Ptr → ℕ
  new_home = home' w i n c in_reach low metas new flag access a size bs

  meta_q : (q : Ptr) → q ≢ new_p → mm.metas q ≡ record (m1.metas q) { next = (metas q).next }
  meta_q = meta_other w i n c in_reach low metas new flag access a size bs

  tid_q : (q : Ptr) → q ≢ new_p → (mm.metas q).tid ≡ (m.metas q).tid
  tid_q q ne = ap (λ v. v.tid) (meta_q q ne) ∙ ap (λ v. v.tid) (c.metas q)

  next_q :
      (q : Ptr)
      → q ≢ new_p
      → (metas q).next ≡ (m1.metas q).next
      → (mm.metas q).next ≡ (m.metas q).next
  next_q q ne same = ap (λ v. v.next) (meta_q q ne) ∙ (same ∙ ap (λ v. v.next) (c.metas q))

  placed_before : (q : Ptr) → Located m q → q ≢ new_p
  placed_before q (under, at) e =
      older w i n c in_reach low metas new flag access a size bs (m.metas q).page_frame (at ∙ e)

  Located-added : (q : Ptr) → Located m q → Located mm q
  Located-added q located =
      let (away, under, at) = c.place q located in
      let e : (mm.metas q).page_frame ≡ (m1.metas q).page_frame =
        ap (λ v. v.page_frame) (meta_q q (placed_before q located)) in
      rw e (
        omega (arith, under, c.given),
        table_other w i n c in_reach low metas new flag access a size bs (m1.metas q).page_frame
              away
            ∙ at,
      )

  Located-new : Located mm new_p
  Located-new =
      let e : (mm.metas new_p).page_frame ≡ i = ground (arith, new.frame) in
      rw e (
        omega (arith, in_reach, w.high, c.given),
        table_new w i n c in_reach low metas new flag access a size bs,
      )

  pub NoPage-added : (u : ℕ) → u ≢ n → NoPage u m → NoPage u mm
  NoPage-added u other none_of =
      by_frame w i n c in_reach low metas new flag access a size bs (λ k q. (mm.metas q).tid ≢ u)
        (λ own. other (ground (arith, own, new.tid)))
        (λ k f l ne below same own. none_of f below (
          sym
            (tid_q (m.frame_table f) (older w i n c in_reach low metas new flag access a size bs f))
          ∙ own))

  -- Another thread.
  pub Thread-foreign :
      (u : Tcb) (page : ℕ → Ptr) → u.tid ≢ n → Thread home u page m → Thread new_home u page mm
  Thread-foreign u page other th = record {
    first = th.first;
    links = λ k h.
        let located = th.located k (omega (arith, h)) in
        kept_next k (omega (arith, h)) ∙ th.links k h;
    last = kept_next u.malloc_frame (omega arith) ∙ th.last;
    homes = λ k h.
        home_other w i n c in_reach low metas new flag access a size bs (page k)
          (placed_before (page k) (th.located k h))
        ∙ th.homes k h;
    mine = λ k h. tid_q (page k) (placed_before (page k) (th.located k h)) ∙ th.mine k h;
    located = λ k h. Located-added (page k) (th.located k h);
    only =
        by_frame w i n c in_reach low metas new flag access a size bs
          (λ k q. (mm.metas q).tid ≡ u.tid → (j : ℕ) × (j ≤ u.malloc_frame) × (q ≡ page j))
          (λ own. absurd (other (ground (arith, own, new.tid))))
          (λ k f l ne below same own.
            let q = m.frame_table f in
            th.only f below
              (sym (tid_q q (older w i n c in_reach low metas new flag access a size bs f)) ∙ own));
  }
    where
      kept_next : (k : ℕ) → k ≤ u.malloc_frame → (mm.metas (page k)).next ≡ (m.metas (page k)).next
      kept_next k h =
          let q = page k in
          let ne = placed_before q (th.located k h) in
          let own : (m1.metas q).tid ≢ n =
            λ e. other (sym (th.mine k h) ∙ (sym (ap (λ v. v.tid) (c.metas q)) ∙ e)) in
          next_q q ne (new.foreign q ne own)

  -- The thread of the page, which had none.
  pub Thread-first :
      (t : Tcb)
      → t.tid ≡ n
      → i ≡ 0
      → t.malloc_frame ≡ 0
      → ((k : ℕ) → k < m.page_counter → (m.metas (m.frame_table k)).tid ≢ n)
      → Thread new_home (record t { first_page = new_p }) (λ k. new_p) mm
  Thread-first t own at first alone = record {
    first = refl;
    links = λ k h. absurd (omega (arith, h, first));
    last = ground (arith, new.next);
    homes = λ k h. ground (arith, h, first, at);
    mine = λ k h. ground (arith, new.tid, own);
    located = λ k h. Located-new;
    only =
        by_frame w i n c in_reach low metas new flag access a size bs
          (λ k q. (mm.metas q).tid ≡ t.tid → (j : ℕ) × (j ≤ t.malloc_frame) × (q ≡ new_p))
          (λ own. (0, omega arith, refl))
          (λ k f l ne below same mine.
            let q = m.frame_table f in
            absurd (
              alone f below (
                sym (tid_q q (older w i n c in_reach low metas new flag access a size bs f))
                ∙ (mine ∙ own))));
  }

  -- The thread of the page, which had others.
  module _ (t : Tcb) (page : ℕ → Ptr) (th : Thread home t page m) (own : t.tid ≡ n)
      (at : i ≡ t.malloc_frame + 1) (linked : (metas (page t.malloc_frame)).next ≡ new_p)
      (others : (q : Ptr)
        → q ≢ new_p
        → q ≢ page t.malloc_frame
        → (metas q).next ≡ (m1.metas q).next) where
    abbrev pages : ℕ → Ptr
    pages = update page i new_p

    old_page : (k : ℕ) → k ≤ t.malloc_frame → pages k ≡ page k
    old_page k h = ground (arith, h, at)

    old_ne : (k : ℕ) → k ≤ t.malloc_frame → page k ≢ new_p
    old_ne k h = placed_before (page k) (th.located k h)

    last_link : (mm.metas (page t.malloc_frame)).next ≡ new_p
    last_link =
        ap (λ v. v.next) (meta_q (page t.malloc_frame) (old_ne t.malloc_frame (omega arith)))
        ∙ linked

    new_page : pages i ≡ new_p
    new_page = ground arith

    old_link : (k : ℕ) → k < t.malloc_frame → (mm.metas (page k)).next ≡ page (k + 1)
    old_link k h =
        let ne = old_ne k (omega (arith, h)) in
        let apart : page k ≢ page t.malloc_frame = λ e. omega (
          arith,
          h,
          sym (th.homes k (omega (arith, h))) ∙ (ap home e ∙ th.homes t.malloc_frame (omega arith)),
        ) in
        next_q (page k) ne (others (page k) ne apart) ∙ th.links k h

    link_at : (k : ℕ) → k < t.malloc_frame + 1 → (mm.metas (pages k)).next ≡ pages (k + 1)
    link_at k h = elim (Bool-cases (k == t.malloc_frame)) [
      | inl e ↦
          let e' : k ≡ t.malloc_frame = ground (arith, e) in
          let next : pages (k + 1) ≡ new_p = ground (arith, e', at) in
          rw (old_page k (omega (arith, h)), next) (rw e' last_link)
      | inr e ↦
          let less : k < t.malloc_frame = ground (arith, e, h) in
          rw (old_page k (omega (arith, h)), old_page (k + 1) (omega (arith, less)))
            (old_link k less)
    ]

    -- A page of the thread is an old one or the new one.
    by_index {ℓ} :
        (P : ℕ → Ptr → Type ℓ)
        → ((k : ℕ) → k ≤ t.malloc_frame → P k (page k))
        → P i new_p
        → (k : ℕ) → k ≤ t.malloc_frame + 1
        → P k (pages k)
    by_index P old new k h = elim (Bool-cases (ltb t.malloc_frame k)) [
      | inl more ↦
          let e : k ≡ i = ground (arith, more, h, at) in
          subst (λ j. P j (pages j)) (sym e) (subst (P i) (sym new_page) new)
      | inr less ↦
          let l : k ≤ t.malloc_frame = ground (arith, less) in
          subst (P k) (sym (old_page k l)) (old k l)
    ]

    pub Thread-later : Thread new_home (record t { malloc_frame = t.malloc_frame + 1 }) pages mm
    Thread-later = record {
      first = th.first ∙ sym (old_page 0 (omega arith));
      links = link_at;
      last =
          ap (λ k. (mm.metas (pages k)).next) (sym at)
          ∙ (ap (λ q. (mm.metas q).next) new_page ∙ ground (arith, new.next));
      homes =
          by_index (λ k q. new_home q ≡ k)
            (λ k h.
              home_other w i n c in_reach low metas new flag access a size bs (page k) (old_ne k h)
              ∙ th.homes k h)
            (ground arith);
      mine =
          by_index (λ k q. (mm.metas q).tid ≡ t.tid)
            (λ k h. tid_q (page k) (old_ne k h) ∙ th.mine k h) (ground (arith, new.tid, own));
      located =
          by_index (λ k q. Located mm q) (λ k h. Located-added (page k) (th.located k h))
            Located-new;
      only =
          by_frame w i n c in_reach low metas new flag access a size bs
            (λ k q. (mm.metas q).tid ≡ t.tid → (j : ℕ) × (j ≤ t.malloc_frame + 1) × (q ≡ pages j))
            (λ mine. (i, omega (arith, at), sym new_page))
            (λ k f l ne below same mine.
              let q = m.frame_table f in
              let (j, h, e) = th.only f below (
                sym (tid_q q (older w i n c in_reach low metas new flag access a size bs f))
                ∙ mine) in
              (j, omega (arith, h), e ∙ sym (old_page j h)));
    }
