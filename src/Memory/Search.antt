-- ===== src/Memory/Search.antt =====
-- The search of myallocate through the pages of a thread.
use asst.Base.{
  ℕ, ◌+◌, ◌*◌, ◌<◌, ◌≤◌, ◌^◌, ◌≡◌, ◌≢◌, ◌∙◌, refl, sym, ap, subst, true, false, Option, some, inl,
  inr, Bool-cases, Ptr, null, ◌==◌, if◌then◌else◌, update, List, arith, ◌>>=◌, >>=-eq_some,
}
use asst.Types.{Tcb}
use asst.Malloc.Blocks.{Block}
use asst.Malloc.Local.{Local}
use asst.Malloc.Payloads.{Handed}
use asst.Memory.{Mm, frame_address}
use asst.Memory.World.{World, Thread}
use asst.Memory.Own.{Steady, page_used, swap_open-Steady, frame_of}
use asst.Memory.Load.{AtPage, gathered, gathered-AtPage, Steady-current, Steady-refl}
use asst.Memory.InPage.{full, gave, run_mymalloc-Tried, AtPage-Holds, AtPage-stored}
use asst.Memory.Page.{
  run_mymalloc, store_arena, swap_open, gather_front, load_arena, may_fit, try_page,
}

pub Steady-trans :
    {n : ℕ} {home : Ptr → ℕ} {held held' : Ptr → List Block} {top : ℕ} {m m' m'' : Mm}
    → Steady n home held top m m'
    → Steady n home held' top m' m''
    → Steady n home held' top m m''
Steady-trans {m = m} s s' = record {
  world = s'.world;
  threads = λ u page th. s'.threads u page (s.threads u page th);
  block = s'.block ∙ s.block;
  given = s'.given ∙ s.given;
  region = s'.region ∙ s.region;
  stays = λ k b own.
      let there = s.stays k b own in
      s'.stays k b (s.tids _ ∙ (ap (λ p. (m.metas p).tid) there ∙ own)) ∙ there;
  tids = λ p. s'.tids p ∙ s.tids p;
  absent = λ u none_of. s'.absent u (s.absent u none_of);
}

-- A payload of `x` bytes at `q`, in the page of the thread at `i`.
pub record Hit (home : Ptr → ℕ) (held : Ptr → List Block) (top : ℕ) (t : Tcb) (page : ℕ → Ptr)
    (x : ℕ) (m : Mm) (q : Ptr) (m' : Mm) : Type 0 where
  pub index : ℕ
  pub own : index ≤ t.malloc_frame
  pub blocks_left : List Block
  pub steady : Steady t.tid home (update held (page index) blocks_left) top m m'
  pub handed : Handed q x (frame_address index m) (held (page index)) blocks_left
  pub some_address : q ≢ null

-- A page, or several, tried: nothing is handed out and every page keeps what it holds, or a payload is.
pub data Looked (home : Ptr → ℕ) (held : Ptr → List Block) (top : ℕ) (t : Tcb) (page : ℕ → Ptr)
    (x : ℕ) (m : Mm) : Option (Ptr × Mm) → Type 0 where
  missed :
      {r : Option (Ptr × Mm)} (m' : Mm)
      → r ≡ some (null, m')
      → Steady t.tid home held top m m'
      → Looked home held top t page x m r
  hit :
      {r : Option (Ptr × Mm)} (q : Ptr) (m' : Mm)
      → r ≡ some (q, m')
      → Hit home held top t page x m q m'
      → Looked home held top t page x m r

-- The request in a page that is loaded, and the store if it is served.
abbrev pub served_in : ℕ → Mm → Option (Ptr × Mm)
served_in x m4 = do
  (p, m5) ← run_mymalloc x null 0 m4
  if p == null then some (null, m5) else (do m6 ← store_arena m5; some (p, m6))

module _ {home : Ptr → ℕ} {held : Ptr → List Block} {top : ℕ} {m : Mm} (w : World home held top m)
    {t : Tcb} {page : ℕ → Ptr} (th : Thread home t page m) (x : ℕ) (bytes : x < 2 ^ 32) where
  served_in-Looked :
      (i : ℕ) (m4 : Mm)
      → i ≤ t.malloc_frame
      → AtPage t.tid home held top page i m m4
      → Looked home held top t page x m (served_in x m4)
  served_in-Looked i m4 l at =
      let (h, whole) = AtPage-Holds th l at in
      elim (run_mymalloc-Tried x (frame_address i m4) null 0 (held (page i)) m4 bytes h whole) [
        | full e no_fit ↦ missed m4 (rw e refl) at.steady
        | gave q a bs e some_q h' handed local ↦
            let (m6, run, s) =
              AtPage-stored th l at a bs h' (handed.extent ∙ whole)
                (subst (λ hi. Local (frame_address i m4) hi m4.arena.mem a.mem) whole local) in
            let some_q' : (q == null) ≡ false = ground (arith, some_q) in
            hit q m6 (rw (e, some_q', run) refl) (record {
              index = i;
              own = l;
              blocks_left = bs;
              steady = s;
              handed =
                  subst (λ b. Handed q x (b + i * 4096) (held (page i)) bs) (at.steady.block)
                    handed;
              some_address = some_q;
            })
      ]

  -- The page is current, and brought to its frame.
  try_page-run :
      (i : ℕ) (m2 m4 : Mm)
      → page i ≢ null
      → may_fit x (m.metas (page i)) ≡ true
      → (if (m.metas (page i)).page_frame == i
          then some (record m { current_page_meta = page i })
          else swap_open i
              (m.metas (page i)).page_frame
              t
              (record m { current_page_meta = page i }))
        ≡ some m2
      → gathered t m2 ≡ some m4
      → try_page x (page i) i t m ≡ served_in x m4
  unfolding try_page
  try_page-run i m2 m4 used fit bring run =
      let e : (page i == null) ≡ false = ground (arith, used) in
      let (m3, gather, load) = >>=-eq_some (gather_front t m2) load_arena run in
      rw (e, fit, bring, gather, load) refl

  try_page-small :
      (i : ℕ)
      → page i ≢ null
      → may_fit x (m.metas (page i)) ≡ false
      → try_page x (page i) i t m ≡ some (null, m)
  unfolding try_page
  try_page-small i used no_fit =
      let e : (page i == null) ≡ false = ground (arith, used) in rw (e, no_fit) refl

  pub try_page-Looked :
      (i : ℕ) → i ≤ t.malloc_frame → Looked home held top t page x m (try_page x (page i) i t m)
  try_page-Looked i l =
      let used = page_used w th i l in
      let s1 : Steady t.tid home held top m (record m { current_page_meta = page i }) =
        Steady-current (page i) (Steady-refl w) in
      let th1 : Thread home t page (record m { current_page_meta = page i }) =
        s1.threads t page th in
      elim (Bool-cases (may_fit x (m.metas (page i)))) [
        | inr small ↦ missed m (try_page-small i used small) (Steady-refl w)
        | inl fit ↦ elim (Bool-cases ((m.metas (page i)).page_frame == i)) [
          | inl e ↦
              let e' : (m.metas (page i)).page_frame ≡ i = ground (arith, e) in
              let (m4, run, at) = gathered-AtPage i th l s1 (frame_of w th i l e') refl in
              subst (Looked home held top t page x m)
                (sym (
                  try_page-run i (record m { current_page_meta = page i }) m4 used fit (rw e refl)
                    run))
                (served_in-Looked i m4 l at)
          | inr e ↦
              let e' : (m.metas (page i)).page_frame ≢ i = ground (arith, e) in
              let (m2, swap, s2, here, current, _e2, _e3, _e4, _e5) =
                swap_open-Steady s1.world th1 i l e' in
              let (m4, run, at) = gathered-AtPage i th l (Steady-trans s1 s2) here current in
              subst (Looked home held top t page x m)
                (sym (try_page-run i m2 m4 used fit (rw e swap) run)) (served_in-Looked i m4 l at)
        ]
      ]
