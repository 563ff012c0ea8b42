-- ===== src/Memory/Answer.antt =====
-- A request of a thread that has pages: myallocate.
use asst.Base.{
  ℕ, ◌+◌, ◌*◌, ◌<◌, ◌≤◌, ◌≡◌, ◌≢◌, ◌∙◌, refl, sym, ap, subst, false, Bool, some, Ptr, null, ltb,
  ◌==◌, if◌then◌else◌, update, List, Option, arith, fun_ext,
}
use asst.Types.{Tcb}
use asst.Malloc.Blocks.{Block}
use asst.Malloc.Payloads.{Handed}
use asst.Malloc.Serve.{NoFit}
use asst.Malloc.Local.{Local}
use asst.Malloc.Fresh.{blank}
use asst.Memory.{Mm, frame_address, protect_all}
use asst.Memory.Page.{page_fuel, run_mymalloc, store_arena, search_pages}
use asst.Memory.World.{Thread}
use asst.Memory.Own.{Steady, World-turned, Thread-turned, low}
use asst.Memory.Load.{AtPage, Steady-refl, page_fuel-enough}
use asst.Memory.InPage.{full, gave, run_mymalloc-Tried, AtPage-Holds, AtPage-stored}
use asst.Memory.Search.{Steady-trans, Hit, missed, hit}
use asst.Memory.SearchAll.{Looked-after, Hit-after, search_pages-Looked}
use asst.Memory.Extend.{Grown, allocate_new_page-Grown}
use asst.Memory.Allocate.{finish, allocate_new_page, allocate_in_pages}

-- The call has ended: every frame is closed, and mem_flag is cleared.
abbrev pub Ended : Mm → Type 0
Ended m = (m.mem_flag ≡ false) × ((k : ℕ) → k < 1596 → m.access k ≡ false)

-- A payload in a page that the thread has, or, where no block of the last one has the bytes, in a new page.
pub data Answered (home : Ptr → ℕ) (held : Ptr → List Block) (top : ℕ) (t : Tcb) (page : ℕ → Ptr)
    (x : ℕ) (m : Mm) : Option (Ptr × Tcb × Mm) → Type 0 where
  in_page :
      {r : Option (Ptr × Tcb × Mm)} (q : Ptr) (m' : Mm)
      → r ≡ some (q, t, m')
      → Hit home held top t page x m q m'
      → Ended m'
      → Answered home held top t page x m r
  in_new :
      {r : Option (Ptr × Tcb × Mm)} (q : Ptr) (m' : Mm)
      → r ≡ some (q, record t { malloc_frame = t.malloc_frame + 1 }, m')
      → NoFit x (held (page t.malloc_frame))
      → Grown home held top t page x m q m'
      → Ended m'
      → Answered home held top t page x m r

update-same : (held : Ptr → List Block) (p : Ptr) → update held p (held p) ≡ held
update-same held p = fun_ext λ q. ground arith

abbrev pub closing : Mm → Mm
closing m = record (protect_all false m) { mem_flag = false }

pub Steady-closing :
    {n : ℕ} {home : Ptr → ℕ} {held : Ptr → List Block} {top : ℕ} {m m' : Mm}
    → Steady n home held top m m'
    → Steady n home held top m (closing m')
Steady-closing {m' = m'} s =
    let closed : ℕ → Bool = λ k. if ltb k 1596 then false else m'.access k in
    record {
      world = World-turned m'.current_page_meta m'.arena.head m'.arena.middle false closed s.world;
      threads = λ u page th.
          Thread-turned m'.current_page_meta m'.arena.head m'.arena.middle false closed u page
            (s.threads u page th);
      block = s.block;
      given = s.given;
      region = s.region;
      stays = s.stays;
      tids = s.tids;
      absent = s.absent;
    }

pub closing-Ended : (m : Mm) → Ended (closing m)
closing-Ended m = (refl, λ k h. ground (arith, h))

Hit-closing :
    {home : Ptr → ℕ} {held : Ptr → List Block} {top : ℕ} {t : Tcb} {page : ℕ → Ptr} {x : ℕ} {m : Mm}
    {q : Ptr} {m' : Mm}
    → Hit home held top t page x m q m'
    → Hit home held top t page x m q (closing m')
Hit-closing h = record {
  index = h.index;
  own = h.own;
  blocks_left = h.blocks_left;
  steady = Steady-closing h.steady;
  handed = h.handed;
  some_address = h.some_address;
}

Grown-after :
    {home : Ptr → ℕ} {held : Ptr → List Block} {top : ℕ} {t : Tcb} {page : ℕ → Ptr} {x : ℕ}
    {m m1 : Mm} {q : Ptr} {m' : Mm}
    → Steady t.tid home held top m m1
    → Grown home held top t page x m1 q m'
    → Grown home held top t page x m q m'
Grown-after {t = t} {x = x} {q = q} s g = record {
  fresh_page = g.fresh_page;
  made = g.made;
  world = g.world;
  thread = g.thread;
  others = λ u pages other tu. g.others u pages other (s.threads u pages tu);
  absent = λ u other none_of. g.absent u other (s.absent u none_of);
  handed = subst (λ b. Handed q x (b + (t.malloc_frame + 1) * 4096) blank g.made) s.block g.handed;
  some_address = g.some_address;
  counted = omega (arith, g.counted, s.given);
  block = g.block ∙ s.block;
}

module _ (x : ℕ) (t : Tcb) (m1 m2 : Mm) where
  in_pages-served :
      (q : Ptr) (m' : Mm)
      → run_mymalloc x (frame_address t.malloc_frame m1) 4096 m1 ≡ some (q, m')
      → store_arena m' ≡ some m2
      → q ≢ null
      → allocate_in_pages x t m1 ≡ some (finish q t m2)
  unfolding allocate_in_pages
  in_pages-served q m' run store some_q =
      let e : (q == null) ≡ false = ground (arith, some_q) in rw (run, store, e) refl

  module _ (run : run_mymalloc x (frame_address t.malloc_frame m1) 4096 m1 ≡ some (null, m1))
      (store : store_arena m1 ≡ some m2) where
    in_pages-found :
        (q : Ptr) (m3 : Mm)
        → search_pages page_fuel x t.first_page 0 t m2 ≡ some (q, m3)
        → q ≢ null
        → allocate_in_pages x t m1 ≡ some (finish q t m3)
    unfolding allocate_in_pages
    in_pages-found q m3 found some_q =
        let e : (q == null) ≡ false = ground (arith, some_q) in rw (run, store, found, e) refl

    in_pages-grown :
        (m3 : Mm)
        → search_pages page_fuel x t.first_page 0 t m2 ≡ some (null, m3)
        → allocate_in_pages x t m1 ≡ allocate_new_page x t m3
    unfolding allocate_in_pages
    in_pages-grown m3 found = rw (run, store, found) refl

module _ {home : Ptr → ℕ} {held : Ptr → List Block} {top : ℕ} {m m1 : Mm} {t : Tcb} {page : ℕ → Ptr}
    (th : Thread home t page m) (x : ℕ) (small : x ≤ 4064)
    (at : AtPage t.tid home held top page t.malloc_frame m m1) (space : m.page_counter < 1596) where
  last : t.malloc_frame ≤ t.malloc_frame
  last = omega arith

  th1 : Thread home t page m1
  th1 = at.steady.threads t page th

  -- The last page is the current one, and is seen as it is.
  at1 : AtPage t.tid home held top page t.malloc_frame m1 m1
  at1 = record {
    steady = Steady-refl at.steady.world;
    here = at.here;
    current = at.current;
    head = at.head;
    middle = at.middle;
  }

  -- Nothing in the last page: the search, and a new page.
  search-Answered :
      NoFit x (held (page t.malloc_frame))
      → (m2 : Mm) → Steady t.tid home held top m1 m2
      → run_mymalloc x (frame_address t.malloc_frame m1) 4096 m1 ≡ some (null, m1)
      → store_arena m1 ≡ some m2
      → Answered home held top t page x m (allocate_in_pages x t m1)
  search-Answered no_fit m2 s run store =
      let th2 = s.threads t page th1 in
      let first : search_pages page_fuel x (page 0) 0 t m2
          ≡ search_pages page_fuel x t.first_page 0 t m2 =
        ap (λ p. search_pages page_fuel x p 0 t m2) (sym th.first) in
      let looked =
        search_pages-Looked page_fuel t.malloc_frame 0 s.world th2 x (omega (arith, small))
          (omega arith)
          (omega (
            arith,
            page_fuel-enough,
            low s.world th2 t.malloc_frame last,
            s.world.high,
            s.world.counter,
          )) in
      elim (Looked-after s looked) [
        | hit q m3 found h ↦
            in_page q (closing m3)
              (in_pages-found x t m1 m2 run store q m3 (sym first ∙ found) h.some_address)
              (Hit-closing (Hit-after at.steady h)) (closing-Ended m3)
        | missed m3 found s3 ↦
            let own : (m1.metas (m1.frame_table t.malloc_frame)).tid ≡ t.tid =
              ap (λ p. (m1.metas p).tid) at.here ∙ th1.mine t.malloc_frame last in
            let here =
              s3.stays t.malloc_frame (low at.steady.world th1 t.malloc_frame last) own ∙ at.here in
            let (q, m', run', g, flag, closed) =
              allocate_new_page-Grown s3.world (s3.threads t page th1) x small here
                (omega (arith, s3.given, at.steady.given, space)) in
            in_new q m' (in_pages-grown x t m1 m2 run store m3 (sym first ∙ found) ∙ run') no_fit
              (Grown-after (Steady-trans at.steady s3) g) (flag, closed)
      ]

  pub in_pages-Answered : Answered home held top t page x m (allocate_in_pages x t m1)
  in_pages-Answered =
      let base = frame_address t.malloc_frame m1 in
      let bs = held (page t.malloc_frame) in
      let (h, whole) = AtPage-Holds th last at in
      elim (run_mymalloc-Tried x base base 4096 bs m1 (omega (arith, small)) h whole) [
        | full run no_fit ↦
            let (m2, store, s) = AtPage-stored th1 last at1 m1.arena bs h whole (λ p away. refl) in
            let s' =
              subst (λ f. Steady t.tid home f top m1 m2) (update-same held (page t.malloc_frame))
                s in
            search-Answered no_fit m2 s' run store
        | gave q a bs' run some_q h' handed local ↦
            let (m2, store, s) =
              AtPage-stored th last at a bs' h' (handed.extent ∙ whole)
                (subst (λ hi. Local base hi m1.arena.mem a.mem) whole local) in
            in_page q (closing m2)
              (in_pages-served x t m1 m2 q (record m1 { arena = a }) run store some_q)
              (Hit-closing (record {
                index = t.malloc_frame;
                own = last;
                blocks_left = bs';
                steady = s;
                handed =
                    subst (λ b. Handed q x (b + t.malloc_frame * 4096) bs bs') at.steady.block
                      handed;
                some_address = some_q;
              }))
              (closing-Ended m2)
      ]
