-- ===== src/Memory/Clear.antt =====
-- A frame is given up for a new page: what swap_pages with no page to swap in leaves.
use asst.Base.{
  ℕ, ◌+◌, ◌%◌, ◌^◌, ◌<◌, ◌≤◌, ◌≡◌, ◌≢◌, ◌∙◌, refl, sym, ap, subst, true, false, some, inl, inr,
  Bool-cases, Ptr, null, minus_one, ltb, ◌==◌, update, List, arith,
}
use asst.Types.{Tcb}
use asst.Malloc.Blocks.{Block}
use asst.Memory.{Mm, enter, frame_address, protect_all, copy_page}
use asst.Memory.Exchange.{copy_page-inside, copy_page-outside, frames-Apart, beyond}
use asst.Memory.Pages.{Consistent-moved}
use asst.Memory.FirstPage.{Known}
use asst.Memory.Swap.{evict_to_memory, swap_pages}
use asst.Memory.Page.{swap_open}
use asst.Memory.World.{World, Located, Kept}

-- Every page that stood in a frame stands in one still, none of them in the frame `i`.
pub record Cleared (i : ℕ) (m m' : Mm) : Type 0 where
  pub known : Known m'
  pub block : m'.myblock_ptr ≡ m.myblock_ptr
  pub region : m'.os_mem_ptr ≡ m.os_mem_ptr
  pub temp : m'.swap_temp ≡ m.swap_temp
  pub later : m'.first_call ≡ m.first_call
  pub given : m'.page_counter ≡ m.page_counter + 1
  pub frames : (k : ℕ) → k < m.page_counter → k ≢ i → m'.frame_table k ≡ m.frame_table k
  pub behind : i < m.page_counter → m'.frame_table m.page_counter ≡ m.frame_table i
  pub vacant : (k : ℕ) → m.page_counter < k → k < 1596 → m'.frame_table k ≡ null
  pub metas : (p : Ptr) → m'.metas p ≡ record (m.metas p) { page_frame = (m'.metas p).page_frame }
  pub kept : (p : Ptr) → Located m p → Kept m m' p
  pub place :
      (p : Ptr)
      → Located m p
      → ((m'.metas p).page_frame ≢ i)
        × ((m'.metas p).page_frame < m.page_counter + 1)
        × (m'.frame_table (m'.metas p).page_frame ≡ p)

-- What is left of an eviction of a frame in use, the mprotect behind it included.
abbrev evicted : ℕ → Mm → Mm
evicted i m =
    let m0 = enter (record m { count = (m.count + 1) % 2 ^ 32 }) in
    protect_all true (record m0 {
      frame_table = update (update m.frame_table m.page_counter (m.frame_table i)) i null;
      metas =
          update m.metas (m.frame_table i)
            (record (m.metas (m.frame_table i)) { page_frame = m.page_counter });
      arena = record (m.arena) {
        mem = copy_page (frame_address m.page_counter m) (frame_address i m) m.arena.mem;
      };
      page_counter = m.page_counter + 1;
      mem_flag = false;
    })

-- And of one of the next frame, which no page is in.
abbrev counted : Mm → Mm
counted m =
    let m0 = enter (record m { count = (m.count + 1) % 2 ^ 32 }) in
    protect_all true (record m0 {
      arena = record (m.arena) {
        mem =
            copy_page (frame_address m.page_counter m) (frame_address m.page_counter m) m.arena.mem;
      };
      page_counter = m.page_counter + 1;
      mem_flag = false;
    })

swap_open-evicted :
    (i : ℕ) (t : Tcb) (m : Mm)
    → i < m.page_counter
    → m.page_counter < 1596
    → m.frame_table i ≢ null
    → swap_open i minus_one t m ≡ some (evicted i m)
unfolding swap_open swap_pages evict_to_memory
swap_open-evicted i t m below low used = ground (arith, below, low, used)

swap_open-counted :
    (t : Tcb) (m : Mm)
    → m.page_counter < 1596
    → m.frame_table m.page_counter ≡ null
    → swap_open m.page_counter minus_one t m ≡ some (counted m)
unfolding swap_open swap_pages evict_to_memory
swap_open-counted t m low free = ground (arith, low, free)

module _ {home : Ptr → ℕ} {held : Ptr → List Block} {top : ℕ} {m : Mm} (w : World home held top m)
    (i : ℕ) (below : i < m.page_counter) (low : m.page_counter < 1596) where
  frame_i : (m.metas (m.frame_table i)).page_frame ≡ i
  frame_i = w.known.0 i (omega (arith, below, low)) (w.filled i below)

  meta_moved :
      (p : Ptr)
      → (m.metas p).page_frame ≡ i
      → m.frame_table i ≡ p
      → (evicted i m).metas p ≡ record (m.metas p) { page_frame = m.page_counter }
  meta_moved p e at = ground (arith, e, at)

  meta_kept : (p : Ptr) → (m.metas p).page_frame ≢ i → (evicted i m).metas p ≡ m.metas p
  meta_kept p ne = ground (arith, ne, frame_i)

  Kept-evicted : (p : Ptr) → Located m p → Kept m (evicted i m) p
  Kept-evicted p (under, at) = elim (Bool-cases ((m.metas p).page_frame == i)) [
    | inl e ↦
        let e' : (m.metas p).page_frame ≡ i = ground (arith, e) in
        let meta = meta_moved p e' (subst (λ f. m.frame_table f ≡ p) e' at) in
        (
          meta
              ∙ ap (λ g. record (m.metas p) { page_frame = g }) (sym (ap (λ v. v.page_frame) meta)),
          λ j h.
              ap (λ v. (evicted i m).arena.mem (frame_address v.page_frame m + j)) meta
              ∙ (copy_page-inside (frame_address m.page_counter m) (frame_address i m) j m.arena.mem
                    h
                  ∙ ap (λ f. m.arena.mem (frame_address f m + j)) (sym e')),
        )
    | inr e ↦
        let meta = meta_kept p (ground (arith, e)) in
        let f = (m.metas p).page_frame in
        (
          meta ∙ ap (λ v. record (m.metas p) { page_frame = v.page_frame }) (sym meta),
          λ j h.
              ap (λ v. (evicted i m).arena.mem (frame_address v.page_frame m + j)) meta
              ∙ copy_page-outside (frame_address m.page_counter m) (frame_address i m)
                  (frame_address f m + j) m.arena.mem
                  (beyond (frame_address f m) (frame_address m.page_counter m) j h
                    (frames-Apart m.myblock_ptr f m.page_counter (omega (arith, under)))),
        )
  ]

  Cleared-evicted : Cleared i m (evicted i m)
  Cleared-evicted = record {
    known = (
      Consistent-moved m.frame_table m.metas i m.page_counter (omega (arith, below, low))
          (omega (arith, below)) (w.filled i below) w.known.0,
      (λ k. ground (arith, w.known.1 k, w.known.1 i, w.known.2)),
      w.known.2,
    );
    block = refl;
    region = refl;
    temp = refl;
    later = refl;
    given = refl;
    frames = λ k h ne. ground (arith, h, ne);
    behind = λ h. ground (arith, h);
    vacant = λ k l u. ground (arith, l, below, w.vacant k (omega (arith, l)) u);
    metas = λ p. ground arith;
    kept = Kept-evicted;
    place = λ p (under, at). elim (Bool-cases ((m.metas p).page_frame == i)) [
      | inl e ↦
          let e' : (m.metas p).page_frame ≡ i = ground (arith, e) in
          let at' : m.frame_table i ≡ p = subst (λ f. m.frame_table f ≡ p) e' at in
          ground (arith, meta_moved p e' at', at', below)
      | inr e ↦ ground (arith, meta_kept p (ground (arith, e)), e, at, under)
    ];
  }

module _ {home : Ptr → ℕ} {held : Ptr → List Block} {top : ℕ} {m : Mm} (w : World home held top m)
    (low : m.page_counter < 1596) where
  copied_same : (a : ℕ) → (counted m).arena.mem a ≡ m.arena.mem a
  copied_same a = ground arith

  Cleared-counted : Cleared m.page_counter m (counted m)
  Cleared-counted = record {
    known = w.known;
    block = refl;
    region = refl;
    temp = refl;
    later = refl;
    given = refl;
    frames = λ k h ne. refl;
    behind = λ h. absurd (omega (arith, h));
    vacant = λ k l u. w.vacant k (omega (arith, l)) u;
    metas = λ p. refl;
    kept = λ p located. (refl, λ j h. copied_same (frame_address (m.metas p).page_frame m + j));
    place = λ p (under, at). (omega (arith, under), omega (arith, under), at);
  }

-- A frame below the next one, or the next, is given up while there is a frame left.
pub swap_open-Cleared :
    {home : Ptr → ℕ} {held : Ptr → List Block} {top : ℕ} {m : Mm} (i : ℕ) (t : Tcb)
    → World home held top m
    → i ≤ m.page_counter
    → m.page_counter < 1596
    → (m' : Mm) × (swap_open i minus_one t m ≡ some m') × Cleared i m m'
swap_open-Cleared {m = m} i t w below low = elim (Bool-cases (ltb i m.page_counter)) [
  | inl less ↦
      let less' : i < m.page_counter = ground (arith, less) in
      (
        evicted i m,
        swap_open-evicted i t m less' low (w.filled i less'),
        Cleared-evicted w i less' low,
      )
  | inr more ↦
      let e : m.page_counter ≡ i = ground (arith, more, below) in
      subst (λ k. (m' : Mm) × (swap_open k minus_one t m ≡ some m') × Cleared k m m') e
        (
          counted m,
          swap_open-counted t m low (w.vacant m.page_counter (omega arith) low),
          Cleared-counted w low,
        )
]
