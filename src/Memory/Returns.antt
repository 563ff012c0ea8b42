-- ===== src/Memory/Returns.antt =====
-- mydeallocate, in a world of threads with pages.
use asst.Base.{
  ℕ, ◌+◌, ◌*◌, ◌<◌, ◌≤◌, ◌≡◌, ◌≢◌, ◌∙◌, refl, sym, ap, subst, true, false, some, inl, inr, Ptr,
  null, ltb, ◌==◌, update, List, ◌∷◌, ◌++◌, Bool-cases, arith,
}
use asst.Types.{Tcb}
use asst.Malloc.{freed}
use asst.Malloc.Blocks.{Block}
use asst.Malloc.Payloads.{payloads}
use asst.Malloc.Local.{Local}
use asst.Malloc.Given.{payload-inside}
use asst.Malloc.Frees.{myfree-Freed}
use asst.Memory.{Mm, enter, frame_address}
use asst.Memory.Page.{load_arena, swap_open}
use asst.Memory.World.{World, Thread}
use asst.Memory.Own.{Steady, page_used, low, at_home, frame_of}
use asst.Memory.Load.{AtPage}
use asst.Memory.InPage.{AtPage-Holds, AtPage-stored}
use asst.Memory.Answer.{closing, closing-Ended, Ended, Steady-closing}
use asst.Memory.Requests.{World-enter, Thread-enter}
use asst.Memory.Release.{free_in_page, find_page, page_index, mydeallocate}
use asst.Memory.Offset.{page_index-inside}
use asst.Memory.Find.{find_page-page, AtPage-own, AtPage-brought}

-- What a return of the payload at `q`, in the page at `i`, gives.
pub record Returned (home : Ptr → ℕ) (held : Ptr → List Block) (top : ℕ) (t : Tcb) (page : ℕ → Ptr)
    (i : ℕ) (rest : List (ℕ × ℕ)) (m m' : Mm) : Type 0 where
  pub blocks_left : List Block
  pub payloads_left : payloads (frame_address i m) blocks_left ≡ rest
  pub steady : Steady t.tid home (update held (page i) blocks_left) top m m'
  pub ended : Ended m'

module _ {home : Ptr → ℕ} {held : Ptr → List Block} {top : ℕ} {m m2 : Mm} {t : Tcb} {page : ℕ → Ptr}
    (th : Thread home t page m) (i : ℕ) (l : i ≤ t.malloc_frame)
    (at : AtPage t.tid home held top page i m m2) (q n : ℕ) (below above : List (ℕ × ℕ))
    (given : payloads (frame_address i m) (held (page i)) ≡ below ++ (q, n) ∷ above) where
  free_in_page-Returned :
      (m3 : Mm) × (free_in_page q m2 ≡ some (freed, m3))
      × Returned home held top t page i (below ++ above) m (closing m3)
  unfolding free_in_page
  free_in_page-Returned =
      let base = frame_address i m2 in
      let same : base ≡ frame_address i m = ap (λ b. b + i * 4096) at.steady.block in
      let (h, whole) = AtPage-Holds th l at in
      let given2 : payloads base (held (page i)) ≡ below ++ (q, n) ∷ above =
        ap (λ b. payloads b (held (page i))) same ∙ given in
      let inside = payload-inside base (held (page i)) q n below above given2 in
      let f =
        myfree-Freed base m2.arena (held (page i)) q n below above h given2
          (omega (arith, inside, whole)) in
      let (m3, store, s) =
        AtPage-stored th l at f.after f.left f.holds (f.same_end ∙ whole)
          (subst (λ hi. Local base hi m2.arena.mem f.after.mem) whole f.local) in
      (
        m3,
        rw (f.run, store) refl,
        record {
          blocks_left = f.left;
          payloads_left = ap (λ b. payloads b f.left) (sym same) ∙ f.payloads_left;
          steady = Steady-closing s;
          ended = closing-Ended m3;
        },
      )

module _ (q i : ℕ) (t : Tcb) (m : Mm) (from : frame_address i (enter m) ≤ q)
    (to : q < frame_address i (enter m) + 4096) (used : i < 1596) where
  index : page_index q m.myblock_ptr ≡ some i
  index = page_index-inside q m.myblock_ptr i from to used

  mydeallocate-own :
      (m1 m3 : Mm)
      → m.frame_table i ≢ null
      → (m.metas (m.frame_table i)).tid ≡ t.tid
      → load_arena (record (enter m) { current_page_meta = m.frame_table i }) ≡ some m1
      → free_in_page q m1 ≡ some (freed, m3)
      → mydeallocate q t m ≡ some (freed, closing m3)
  unfolding mydeallocate
  mydeallocate-own m1 m3 filled own load free =
      let e1 : ltb i 1596 ≡ true = ground (arith, used) in
      let e2 : (m.frame_table i == null) ≡ false = ground (arith, filled) in
      let e3 : ((m.metas (m.frame_table i)).tid == t.tid) ≡ true = ground (arith, own) in
      rw (index, e1, e2, e3, load, free) refl

  mydeallocate-brought :
      (p : Ptr) (m1 m2 m3 : Mm)
      → m.frame_table i ≢ null
      → (m.metas (m.frame_table i)).tid ≢ t.tid
      → p ≢ null
      → find_page i t (enter m) ≡ some p
      → load_arena (record (enter m) { current_page_meta = p }) ≡ some m1
      → swap_open i (m1.metas p).page_frame t m1 ≡ some m2
      → free_in_page q m2 ≡ some (freed, m3)
      → mydeallocate q t m ≡ some (freed, closing m3)
  unfolding mydeallocate
  mydeallocate-brought p m1 m2 m3 filled other some_p find load swap free =
      let e1 : ltb i 1596 ≡ true = ground (arith, used) in
      let e2 : (m.frame_table i == null) ≡ false = ground (arith, filled) in
      let e3 : ((m.metas (m.frame_table i)).tid == t.tid) ≡ false = ground (arith, other) in
      let e4 : (p == null) ≡ false = ground (arith, some_p) in
      rw (index, e1, e2, e3, find, load, e4, swap, free) refl

-- The return of a payload, at an address in its page, by the thread that has the page, among the pages
-- of any number of threads, each in some frame of memory: it does not fault, wherever the page stands,
-- and myfree reports that the block is freed. The payload, and no other, is gone from the page, every
-- other page holds what it held, every thread has the pages it had, every frame is closed, and mem_flag
-- is cleared.
pub mydeallocate-Returned :
    {home : Ptr → ℕ} {held : Ptr → List Block} {top : ℕ} {m : Mm}
    → World home held top m
    → {t : Tcb} {page : ℕ → Ptr} → Thread home t page m
    → (i q n : ℕ) (below above : List (ℕ × ℕ)) → i ≤ t.malloc_frame
    → payloads (frame_address i m) (held (page i)) ≡ below ++ (q, n) ∷ above
    → q < frame_address i m + 4096
    → (m' : Mm) × (mydeallocate q t m ≡ some (freed, m'))
      × Returned home held top t page i (below ++ above) (enter m) m'
mydeallocate-Returned {home} {held} {top} {m} w {t} {page} th i q n below above l given to =
    let w' = World-enter w in
    let th' = Thread-enter th in
    let from = (payload-inside (frame_address i m) (held (page i)) q n below above given).0 in
    let used = low w' th' i l in
    let filled = w.filled i (omega (arith, used, w.high)) in
    let e : i < 1596 = omega (arith, used, w.high, w.counter) in
    let from' : frame_address i (enter m) ≤ q = omega (arith, from) in
    elim (Bool-cases ((m.metas (m.frame_table i)).tid == t.tid)) [
      | inl mine ↦
          let own : (m.metas (m.frame_table i)).tid ≡ t.tid = ground (arith, mine) in
          let here = at_home w' th' i l own in
          let (m1, load, at) = AtPage-own w' th' i l here in
          let (m3, free, r) = free_in_page-Returned th' i l at q n below above given in
          (
            closing m3,
            mydeallocate-own q i t m from' to e m1 m3 filled own
                (subst (λ p. load_arena (record (enter m) { current_page_meta = p }) ≡ some m1)
                  (sym here) load)
                free,
            r,
          )
      | inr apart ↦
          let other : (m.metas (m.frame_table i)).tid ≢ t.tid = ground (arith, apart) in
          let away : (m.metas (page i)).page_frame ≢ i =
            λ f. other (ap (λ p. (m.metas p).tid) (frame_of w' th' i l f) ∙ th.mine i l) in
          let (m1, m2, load, swap, at) = AtPage-brought w' th' i l away in
          let (m3, free, r) = free_in_page-Returned th' i l at q n below above given in
          (
            closing m3,
            mydeallocate-brought q i t m from' to e (page i) m1 m2 m3 filled other
                (page_used w' th' i l) (find_page-page w' th' i l) load swap free,
            r,
          )
    ]
