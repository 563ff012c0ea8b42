-- ===== src/Memory/Load.antt =====
-- use_last_page of myallocate: the last page of a thread is brought to its frame and loaded.
use asst.Base.{
  ℕ, zero, suc, ◌+◌, ◌<◌, ◌≤◌, ◌≡◌, ◌≢◌, ◌∙◌, refl, sym, ap, subst, true, false, some, inl, inr,
  Bool-cases, Ptr, null, ltb, ◌==◌, List, arith, Option, ◌>>=◌,
}
use asst.Types.{Tcb}
use asst.Malloc.Blocks.{Block}
use asst.Memory.{Mm}
use asst.Memory.World.{Stands, World, Thread}
use asst.Memory.Own.{
  frame_of, turned, World-turned, Thread-turned, Steady, page_used, low, at_home, swap_open-Steady,
}
use asst.Memory.Page.{swap_open, last_page, page_fuel, gather_front, load_arena, use_last_page}

-- The walk along the links ends at the last page.
last_page-last :
    (f d i : ℕ) (home : Ptr → ℕ) (t : Tcb) (page : ℕ → Ptr) (m : Mm)
    → ((k : ℕ) → k ≤ t.malloc_frame → page k ≢ null)
    → Thread home t page m
    → i + d ≡ t.malloc_frame
    → d < f
    → last_page f (page i) m ≡ some (page t.malloc_frame)
unfolding last_page
last_page-last zero d i home t page m used th e h = absurd (omega (arith, h))
last_page-last (suc f) zero i home t page m used th e h =
    let e' : t.malloc_frame ≡ i = omega (arith, e) in
    let end : (m.metas (page i)).next ≡ null =
      subst (λ k. (m.metas (page k)).next ≡ null) e' th.last in
    rw e' (ground (arith, end, used i (omega (arith, e))))
last_page-last (suc f) (suc d) i home t page m used th e h =
    let next = th.links i (omega (arith, e)) in
    let some_next = used (i + 1) (omega (arith, e)) in
    let rest =
      last_page-last f d (i + 1) home t page m used th (omega (arith, e)) (omega (arith, h)) in
    ground (arith, next, some_next, used i (omega (arith, e)), rest)

pub load_arena-turned :
    (m : Mm)
    → m.current_page_meta ≢ null
    → load_arena m
      ≡ some (
          turned m.current_page_meta
            (m.metas m.current_page_meta).head
            (m.metas m.current_page_meta).middle
            m.mem_flag
            m.access
            m)
unfolding load_arena
load_arena-turned m used = ground (arith, used)

gather_front-alone :
    (t : Tcb) (m : Mm)
    → m.current_page_meta ≢ null
    → (m.metas m.current_page_meta).front_meta ≡ null
    → gather_front t m ≡ some m
unfolding gather_front
gather_front-alone t m used alone = ground (arith, used, alone)

-- The page of the thread at `i` is the current one, in its frame, and loaded.
pub record AtPage (n : ℕ) (home : Ptr → ℕ) (held : Ptr → List Block) (top : ℕ) (page : ℕ → Ptr)
    (i : ℕ) (m m' : Mm) : Type 0 where
  pub steady : Steady n home held top m m'
  pub here : m'.frame_table i ≡ page i
  pub current : m'.current_page_meta ≡ page i
  pub head : m'.arena.head ≡ (m'.metas (page i)).head
  pub middle : m'.arena.middle ≡ (m'.metas (page i)).middle

module _ {home : Ptr → ℕ} {held : Ptr → List Block} {top : ℕ} {m : Mm} (w : World home held top m)
    {t : Tcb} {page : ℕ → Ptr} (th : Thread home t page m) where
  pub page-Stands : (i : ℕ) → i ≤ t.malloc_frame → Stands i (held (page i)) m (page i)
  page-Stands i h =
      let (below, at) = th.located i h in
      let s = w.stands (m.metas (page i)).page_frame below in
      let s' = subst (λ p. Stands (home p) (held p) m p) at s in
      subst (λ k. Stands k (held (page i)) m (page i)) (th.homes i h) s'

-- The current page is gathered, if it is part of a chunk, and loaded.
abbrev pub gathered : Tcb → Mm → Option Mm
gathered t m = do m' ← gather_front t m; load_arena m'

pub gathered-AtPage :
    {home : Ptr → ℕ} {held : Ptr → List Block} {top : ℕ} {m m1 : Mm} {t : Tcb} {page : ℕ → Ptr}
    (i : ℕ)
    → Thread home t page m
    → i ≤ t.malloc_frame
    → Steady t.tid home held top m m1
    → m1.frame_table i ≡ page i
    → m1.current_page_meta ≡ page i
    → (m' : Mm) × (gathered t m1 ≡ some m') × AtPage t.tid home held top page i m m'
gathered-AtPage {home} {held} {top} {m} {m1} {t} {page} i th h s here current =
    let th1 = s.threads t page th in
    let used : m1.current_page_meta ≢ null = λ e. page_used s.world th1 i h (sym current ∙ e) in
    let alone : (m1.metas m1.current_page_meta).front_meta ≡ null =
      ap (λ p. (m1.metas p).front_meta) current ∙ (page-Stands s.world th1 i h).2 in
    let v = m1.metas m1.current_page_meta in
    (
      turned m1.current_page_meta v.head v.middle m1.mem_flag m1.access m1,
      rw (gather_front-alone t m1 used alone) (load_arena-turned m1 used),
      record {
        steady = record {
          world = World-turned m1.current_page_meta v.head v.middle m1.mem_flag m1.access s.world;
          threads = λ u pages tu.
              Thread-turned m1.current_page_meta v.head v.middle m1.mem_flag m1.access u pages
                (s.threads u pages tu);
          block = s.block;
          given = s.given;
          region = s.region;
          stays = s.stays;
          tids = s.tids;
          absent = s.absent;
        };
        here = here;
        current = current;
        head = ap (λ p. (m1.metas p).head) current;
        middle = ap (λ p. (m1.metas p).middle) current;
      },
    )

-- Another page is the current one.
pub Steady-current :
    {n : ℕ} {home : Ptr → ℕ} {held : Ptr → List Block} {top : ℕ} {m m' : Mm} (p : Ptr)
    → Steady n home held top m m'
    → Steady n home held top m (record m' { current_page_meta = p })
Steady-current {m' = m'} p s = record {
  world = World-turned p m'.arena.head m'.arena.middle m'.mem_flag m'.access s.world;
  threads = λ u pages tu.
      Thread-turned p m'.arena.head m'.arena.middle m'.mem_flag m'.access u pages
        (s.threads u pages tu);
  block = s.block;
  given = s.given;
  region = s.region;
  stays = s.stays;
  tids = s.tids;
  absent = s.absent;
}

pub Steady-refl :
    {n : ℕ} {home : Ptr → ℕ} {held : Ptr → List Block} {top : ℕ} {m : Mm}
    → World home held top m
    → Steady n home held top m m
Steady-refl w = record {
  world = w;
  threads = λ u pages th. th;
  block = refl;
  given = refl;
  region = refl;
  stays = λ k b own. refl;
  tids = λ p. refl;
  absent = λ u none_of. none_of;
}

pub page_fuel-enough : 1596 < page_fuel
unfolding page_fuel
page_fuel-enough = omega arith

module _ {home : Ptr → ℕ} {held : Ptr → List Block} {top : ℕ} {m : Mm} (w : World home held top m)
    {t : Tcb} {page : ℕ → Ptr} (th : Thread home t page m) where
  frame_low : t.malloc_frame < 1596
  frame_low = omega (arith, low w th t.malloc_frame (omega arith), w.high, w.counter)

  last_page-found : last_page page_fuel t.first_page m ≡ some (page t.malloc_frame)
  last_page-found =
      ap (λ p. last_page page_fuel p m) th.first
      ∙ last_page-last page_fuel t.malloc_frame 0 home t page m (page_used w th) th (omega arith)
          (omega (arith, page_fuel-enough, frame_low))

  frame_used : m.frame_table t.malloc_frame ≢ null
  frame_used =
      w.filled t.malloc_frame (omega (arith, low w th t.malloc_frame (omega arith), w.high))

  use_last_page-there :
      (m' : Mm)
      → (m.metas (m.frame_table t.malloc_frame)).tid ≡ t.tid
      → gathered t (record m { current_page_meta = m.frame_table t.malloc_frame }) ≡ some m'
      → use_last_page t m ≡ some m'
  unfolding use_last_page
  use_last_page-there m' own run =
      let e1 : ltb t.malloc_frame 1596 ≡ true = ground (arith, frame_low) in
      let e2 : (m.frame_table t.malloc_frame == null) ≡ false = ground (arith, frame_used) in
      let e3 : ((m.metas (m.frame_table t.malloc_frame)).tid == t.tid) ≡ true =
        ground (arith, own) in
      rw (e1, e2, e3) run

  use_last_page-swapped :
      (m1 m' : Mm)
      → (m.metas (m.frame_table t.malloc_frame)).tid ≢ t.tid
      → swap_open t.malloc_frame (m.metas (page t.malloc_frame)).page_frame t m ≡ some m1
      → gathered t (record m1 { current_page_meta = page t.malloc_frame }) ≡ some m'
      → use_last_page t m ≡ some m'
  unfolding use_last_page
  use_last_page-swapped m1 m' other swap run =
      let e1 : ltb t.malloc_frame 1596 ≡ true = ground (arith, frame_low) in
      let e2 : (m.frame_table t.malloc_frame == null) ≡ false = ground (arith, frame_used) in
      let e3 : ((m.metas (m.frame_table t.malloc_frame)).tid == t.tid) ≡ false =
        ground (arith, other) in
      let e4 : (page t.malloc_frame == null) ≡ false =
        ground (arith, page_used w th t.malloc_frame (omega arith)) in
      rw (e1, e2, e3, last_page-found, e4, swap) run

  pub use_last_page-AtPage :
      (m' : Mm) × (use_last_page t m ≡ some m')
      × AtPage t.tid home held top page t.malloc_frame m m'
  use_last_page-AtPage =
      let n = t.malloc_frame in
      let last : n ≤ n = omega arith in
      elim (Bool-cases ((m.metas (m.frame_table n)).tid == t.tid)) [
        | inl e ↦
            let own : (m.metas (m.frame_table n)).tid ≡ t.tid = ground (arith, e) in
            let here = at_home w th n last own in
            let (m', run, at) =
              gathered-AtPage n th last (Steady-current (m.frame_table n) (Steady-refl w)) here
                here in
            (m', use_last_page-there m' own run, at)
        | inr e ↦
            let other : (m.metas (m.frame_table n)).tid ≢ t.tid = ground (arith, e) in
            let away : (m.metas (page n)).page_frame ≢ n =
              λ f. other (ap (λ p. (m.metas p).tid) (frame_of w th n last f) ∙ th.mine n last) in
            let (m1, swap, s, here, _e1, _e2, _e3, _e4, _e5) = swap_open-Steady w th n last away in
            let (m', run, at) = gathered-AtPage n th last (Steady-current (page n) s) here refl in
            (m', use_last_page-swapped m1 m' other swap run, at)
      ]
