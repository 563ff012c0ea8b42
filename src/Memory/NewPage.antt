-- ===== src/Memory/NewPage.antt =====
-- A new page of a thread, with blocks of its own, in a frame that was given up for it.
use asst.Base.{
  ℕ, ◌+◌, ◌<◌, ◌≤◌, ◌≡◌, ◌≢◌, ◌∙◌, refl, sym, ap, subst, Bool, inl, inr, Bool-cases, Ptr, null, ltb,
  ◌==◌, if◌then◌else◌, update, List, arith,
}
use asst.Types.{PageMeta, sizeof_page_meta}
use asst.Malloc.{Arena}
use asst.Malloc.Blocks.{Block, end}
use asst.Malloc.Merge.{Holds}
use asst.Malloc.Local.{Local}
use asst.Memory.{Mm, frame_address}
use asst.Memory.Exchange.{beyond, frames-Apart}
use asst.Memory.FirstRequest.{stored}
use asst.Memory.World.{Stands, World, Located, Stands-same, Holds-frame, page_view}
use asst.Memory.Clear.{Cleared}

-- The page metas `metas`, in which the new one at `m.os_mem_ptr` is that of a page in the frame `i`, and
-- the others are as before but for the links of the thread `n`.
pub record Added (i n : ℕ) (m : Mm) (metas : Ptr → PageMeta) : Type 0 where
  pub frame : (metas m.os_mem_ptr).page_frame ≡ i
  pub tid : (metas m.os_mem_ptr).tid ≡ n
  pub next : (metas m.os_mem_ptr).next ≡ null
  pub front : (metas m.os_mem_ptr).front_meta ≡ null
  pub others : (p : Ptr) → p ≢ m.os_mem_ptr → metas p ≡ record (m.metas p) { next = (metas p).next }
  pub foreign :
      (p : Ptr) → p ≢ m.os_mem_ptr → (m.metas p).tid ≢ n → (metas p).next ≡ (m.metas p).next

-- The new page is in its frame, and the current one.
abbrev pub added : ℕ → (Ptr → PageMeta) → Bool → (ℕ → Bool) → Mm → Mm
added i metas flag access m = record m {
  os_mem_ptr = m.os_mem_ptr + sizeof_page_meta;
  metas = metas;
  frame_table = update m.frame_table i m.os_mem_ptr;
  current_page_meta = m.os_mem_ptr;
  arena = record (m.arena) { head = null; middle = null };
  mem_flag = flag;
  access = access;
}

abbrev pub raised : ℕ → ℕ → ℕ
raised i top = if ltb i top then top else i + 1

module _ {home : Ptr → ℕ} {held : Ptr → List Block} {top : ℕ} {m m1 : Mm}
    (w : World home held top m) (i n : ℕ) (c : Cleared i m m1) (in_reach : i ≤ top)
    (low : m.page_counter < 1596) (metas : Ptr → PageMeta) (new : Added i n m1 metas) (flag : Bool)
    (access : ℕ → Bool) (a : Arena) (size : ℕ) (bs : List Block) where
  abbrev pub p : Ptr
  p = m1.os_mem_ptr

  abbrev pub m3 : Mm
  m3 = stored a size p (added i metas flag access m1)

  pub older : (k : ℕ) → m.frame_table k ≢ p
  older k e = omega (arith, w.known.1 k, e, c.region)

  -- A page in another frame stood in one before.
  pub origin :
      (k : ℕ)
      → k < m.page_counter + 1
      → k ≢ i
      → (f : ℕ) × (f < m.page_counter)
        × (m1.frame_table k ≡ m.frame_table f)
        × ((k < m.page_counter) → k ≡ f)
  origin k h ne = elim (Bool-cases (ltb k m.page_counter)) [
    | inl less ↦
        let less' : k < m.page_counter = ground (arith, less) in
        (k, less', c.frames k less' ne, λ l. refl)
    | inr more ↦
        let e : k ≡ m.page_counter = ground (arith, more, h) in
        let below : i < m.page_counter = omega (arith, e, ne, in_reach, w.high) in
        (i, below, ap m1.frame_table e ∙ c.behind below, λ l. absurd (omega (arith, e, l)))
  ]

  pub Located-frame : (f : ℕ) → f < m.page_counter → Located m (m.frame_table f)
  Located-frame f h = rw (w.known.0 f (omega (arith, h, w.counter)) (w.filled f h)) (h, refl)

  pub meta_other : (q : Ptr) → q ≢ p → m3.metas q ≡ record (m1.metas q) { next = (metas q).next }
  meta_other q ne = ground (arith, new.others q ne, ne)

  -- An older page keeps what it holds.
  Stands-other :
      (q : Ptr)
      → q ≢ p
      → Located m q
      → Local (frame_address i m1) (frame_address i m1 + 4096) m1.arena.mem a.mem
      → (k : ℕ) (l : List Block) → Stands k l m q
      → Stands k l m3 q
  Stands-other q ne located local k l =
      let (meta, content) = c.kept q located in
      let (away, under, at) = c.place q located in
      let m3q = meta_other q ne in
      let f = (m1.metas q).page_frame in
      Stands-same k l m m3 q c.block (ap (λ v. v.head) m3q ∙ ap (λ v. v.head) meta)
        (ap (λ v. v.middle) m3q ∙ ap (λ v. v.middle) meta)
        (ap (λ v. v.front_meta) m3q ∙ ap (λ v. v.front_meta) meta)
        (λ j h.
          ap (λ v. a.mem (frame_address v.page_frame m1 + j)) m3q
          ∙ (local (frame_address f m1 + j) (
                beyond (frame_address f m1) (frame_address i m1) j h
                  (frames-Apart m1.myblock_ptr f i away))
              ∙ content j h))

  Stands-new :
      Holds (frame_address i m1) bs a
      → end (frame_address i m1) bs ≡ frame_address i m1 + 4096
      → Stands i bs m3 p
  Stands-new h whole = (
    Holds-frame (frame_address i m1) bs a (page_view i p m3) (ground arith) (ground arith)
        (λ q l u. ap (λ b. a.mem b) (ground (arith, new.frame, l))) h,
    whole,
    ground (arith, new.front),
  )

  abbrev pub home' : Ptr → ℕ
  home' = update home p i

  pub home_other : (q : Ptr) → q ≢ p → home' q ≡ home q
  home_other q ne = ground (arith, ne)

  pub table_new : m3.frame_table i ≡ p
  table_new = ground arith

  pub table_other : (k : ℕ) → k ≢ i → m3.frame_table k ≡ m1.frame_table k
  table_other k ne = ground (arith, ne)

  pub before_new : (k : ℕ) → m1.frame_table k ≢ p
  before_new k e = omega (arith, c.known.1 k, e)

  agree_added :
      (k : ℕ) → k < 1596 → m3.frame_table k ≢ null → (m3.metas (m3.frame_table k)).page_frame ≡ k
  agree_added k l used = elim (Bool-cases (k == i)) [
    | inl e ↦ let e' : k ≡ i = ground (arith, e) in rw (e', table_new) (ground (arith, new.frame))
    | inr e ↦
        let ne : k ≢ i = ground (arith, e) in
        let used1 : m1.frame_table k ≢ null = λ z. used (table_other k ne ∙ z) in
        rw (table_other k ne) (
          ap (λ v. v.page_frame) (meta_other (m1.frame_table k) (before_new k))
          ∙ c.known.0 k l used1)
  ]

  -- What holds of the new page in its frame and of the older ones holds of the page in every frame.
  pub by_frame {ℓ} :
      (P : ℕ → Ptr → Type ℓ)
      → P i p
      → ((k f : ℕ)
          → k < m.page_counter + 1
          → k ≢ i
          → f < m.page_counter
          → (k < m.page_counter → k ≡ f)
          → P k (m.frame_table f))
      → (k : ℕ) → k < m3.page_counter
      → P k (m3.frame_table k)
  by_frame P here there k l = elim (Bool-cases (k == i)) [
    | inl e ↦
        let e' : k ≡ i = ground (arith, e) in
        subst (λ j. P j (m3.frame_table j)) (sym e') (subst (P i) (sym table_new) here)
    | inr e ↦
        let ne : k ≢ i = ground (arith, e) in
        let l' : k < m.page_counter + 1 = omega (arith, l, c.given) in
        let (f, below, at, same) = origin k l' ne in
        subst (P k) (sym (table_other k ne ∙ at)) (there k f l' ne below same)
  ]

  slot :
      (k f : ℕ)
      → k < raised i top
      → k < m.page_counter + 1
      → k ≢ i
      → f < m.page_counter
      → (k < m.page_counter → k ≡ f)
      → home' (m.frame_table f) ≡ k
  slot k f h l ne below same =
      let under : k < top = ground (arith, h, ne, in_reach) in
      let e : k ≡ f = same (omega (arith, under, w.high)) in
      home_other (m.frame_table f) (older f)
      ∙ (ap (λ j. home (m.frame_table j)) (sym e) ∙ w.slots k under)

  pub World-added :
      Holds (frame_address i m1) bs a
      → end (frame_address i m1) bs ≡ frame_address i m1 + 4096
      → Local (frame_address i m1) (frame_address i m1 + 4096) m1.arena.mem a.mem
      → World home' (update held p bs) (raised i top) m3
  World-added h whole local = record {
    known = (agree_added, (λ k. ground (arith, c.known.1 k)), omega arith);
    counter = omega (arith, c.given, low);
    filled =
        by_frame (λ k q. q ≢ null) (omega (arith, c.known.2))
          (λ k f l ne below same. w.filled f below);
    vacant = λ k l u.
        ground (arith, c.given, l, c.vacant k (omega (arith, l, c.given)) u, in_reach, w.high);
    high = ground (arith, c.given, in_reach, w.high);
    slots = λ k h.
        by_frame (λ k q. k < raised i top → home' q ≡ k) (λ h. ground arith)
          (λ k f l ne below same h. slot k f h l ne below same) k
          (ground (arith, h, c.given, in_reach, w.high)) h;
    lower =
        by_frame (λ k q. home' q < raised i top) (ground (arith, in_reach))
          (λ k f l ne below same.
            ground (arith, home_other (m.frame_table f) (older f), w.lower f below, in_reach));
    temp = rw (c.block, c.temp) (w.temp);
    pos = rw (c.block) (w.pos);
    clear = λ q l.
        ap (λ v. v.front_meta) (meta_other q (omega (arith, l)))
        ∙ (ap (λ v. v.front_meta) (c.metas q) ∙ w.clear q (omega (arith, l, c.region)));
    stands =
        by_frame (λ k q. Stands (home' q) (update held p bs q) m3 q)
          (let own : home' p ≡ i = ground arith in
            let held_p : update held p bs p ≡ bs = ground arith in
            rw (own, held_p) (Stands-new h whole))
          (λ k f l ne below same.
            let q = m.frame_table f in
            let held_q : update held p bs q ≡ held q = ground (arith, older f) in
            rw (home_other q (older f), held_q)
              (Stands-other q (older f) (Located-frame f below) local (home q) (held q)
                (w.stands f below)));
    later = c.later ∙ w.later;
  }
