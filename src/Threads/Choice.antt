-- ===== src/Threads/Choice.antt =====
-- The choice of scheduler: the front of the first level that is not empty, or the next thread where
-- that is the current one.
use asst.Base.{
  ℕ, zero, suc, ◌+◌, ◌-◌, ◌<◌, ◌≤◌, ◌≡◌, ◌∙◌, refl, sym, ap, ◌⊎◌, inl, inr, true, Bool-cases, none,
  some, List, [], ◌∷◌, ◌++◌, Ptr, null, ◌==◌, update, arith,
}
use asst.Threads.{Machine, set_rq}
use asst.Threads.Scheduler.{first_queue, first_level, next_context, choose, rotate}
use asst.Threads.Invariant.{Named, AtLevel, Ready, Running}
use asst.Threads.Dispatch.{rotate-rotated, rotated-Ready}

-- The `k` levels from `i` on are empty.
abbrev pub EmptyFrom : (ℕ → List Ptr) → ℕ → ℕ → Type 0
EmptyFrom rqs i zero = Unit
EmptyFrom rqs i (suc k) = (rqs i ≡ []) × EmptyFrom rqs (i + 1) k

-- The search through `k` levels from `i` on.
abbrev pub Found : Machine → ℕ → ℕ → Type 0
Found s i k =
    EmptyFrom s.rqs i k × (first_queue k i s ≡ some [])
    ⊎ ((d : ℕ) × (n : Ptr) × (rest : List Ptr) × (d < k)
        × EmptyFrom s.rqs i d
        × (s.rqs (i + d) ≡ n ∷ rest)
        × (first_queue k i s ≡ some (n ∷ rest))
        × (first_level k i s ≡ i + d))

Found-here :
    (s : Machine) (i k : ℕ) (n : Ptr) (rest : List Ptr)
    → s.ready ≡ true
    → i < 10
    → s.rqs i ≡ n ∷ rest
    → Found s i (suc k)
unfolding first_queue first_level
Found-here s i k n rest ready low e = inr (
  0,
  n,
  rest,
  omega arith,
  tt,
  rw (← e) (ap s.rqs (omega arith)),
  ground (arith, e),
  ground (arith, e),
)

Found-later :
    (s : Machine) (i k : ℕ)
    → s.ready ≡ true
    → i < 10
    → s.rqs i ≡ []
    → Found s (i + 1) k
    → Found s i (suc k)
unfolding first_queue first_level
Found-later s i k ready low e (inl (empty, f)) = inl ((e, empty), ground (arith, e, f))
Found-later s i k ready low e (inr (d, n, rest, l, empty, at, f, g)) = inr (
  suc d,
  n,
  rest,
  omega arith,
  (e, empty),
  ap s.rqs (omega arith) ∙ at,
  ground (arith, e, f),
  ground (arith, e, g),
)

pub search-Found : (s : Machine) (i k : ℕ) → s.ready ≡ true → i + k ≤ 10 → Found s i k
unfolding first_queue
search-Found s i zero ready h = inl (tt, refl)
search-Found s i (suc k) ready h =
    by_level (s.rqs i) refl (search-Found s (i + 1) k ready (omega arith))
  where
    by_level : (q : List Ptr) → s.rqs i ≡ q → Found s (i + 1) k → Found s i (suc k)
    by_level [] e later = Found-later s i k ready (omega arith) e later
    by_level (n ∷ rest) e later = Found-here s i k n rest ready (omega arith) e

-- A choice: a thread at the front of its level, in a machine whose levels are kept.
pub record Choice (owner : ℕ → Ptr) (s : Machine) (n : Ptr) (s' : Machine) : Type 0 where
  pub queues : Ready owner s'
  pub named : Named owner s'.tcbs n
  pub rest : List Ptr
  pub front : s'.rqs (s'.tcbs n).thread_priority ≡ n ∷ rest
  pub low : (s'.tcbs n).thread_priority < 10
  pub same_tcbs : s'.tcbs ≡ s.tcbs
  pub same_current : s'.current ≡ s.current
  pub same_flag : s'.fc ≡ s.fc

module _ (owner : ℕ → Ptr) (s : Machine) (queues : Ready owner s) where
  -- The front of a level.
  at_front : (i : ℕ) (n : Ptr) (rest : List Ptr) → s.rqs i ≡ n ∷ rest → AtLevel owner s.tcbs i n
  at_front i n rest e = (rw e at (queues.levels i).0).0

  Choice-front :
      (i : ℕ) (n : Ptr) (rest : List Ptr) → i < 10 → s.rqs i ≡ n ∷ rest → Choice owner s n s
  Choice-front i n rest low e =
      let (at, ne, own) = at_front i n rest e in
      record {
        queues = queues;
        named = (ne, own);
        rest = rest;
        front = ap s.rqs at ∙ e;
        low = rw at low;
        same_tcbs = refl;
        same_current = refl;
        same_flag = refl;
      }

  Running-front : (i : ℕ) (rest : List Ptr) → i < 10 → s.rqs i ≡ s.current ∷ rest → Running owner s
  Running-front i rest low e =
      let (at, ne, own) = at_front i s.current rest e in
      record { queues = queues; rest = rest; front = ap s.rqs at ∙ e; low = rw at low }

  module _ (d : ℕ) (rest : List Ptr) (low : d < 10) (e : s.rqs d ≡ s.current ∷ rest) where
    r : Running owner s
    unfolding Running-front
    r = Running-front d rest low e

    abbrev turned : Machine
    turned =
        set_rq (s.tcbs s.current).thread_priority
          (update s.rqs (s.tcbs s.current).thread_priority rest (s.tcbs s.current).thread_priority
            ++ s.current ∷ [])
          (set_rq (s.tcbs s.current).thread_priority rest s)

    rotate-turned : rotate s ≡ some turned
    unfolding r
    rotate-turned = rotate-rotated owner s r

    turned-Ready : Ready owner turned
    unfolding r
    turned-Ready = rotated-Ready owner s r

    turned-Choice :
        (m : Ptr) (q : List Ptr)
        → Named owner s.tcbs m
        → turned.rqs (s.tcbs m).thread_priority ≡ m ∷ q
        → (s.tcbs m).thread_priority < 10
        → Choice owner s m turned
    turned-Choice m q named front low_m = record {
      queues = turned-Ready;
      named = named;
      rest = q;
      front = front;
      low = low_m;
      same_tcbs = refl;
      same_current = refl;
      same_flag = refl;
    }

  abbrev NextChoice : ℕ → List Ptr → Type 0
  NextChoice d rest =
      (n : Ptr) × (s' : Machine) × (next_context d rest s ≡ some (n, s')) × Choice owner s n s'

  next_in_level :
      (d : ℕ) (m : Ptr) (q : List Ptr) → d < 10 → s.rqs d ≡ s.current ∷ m ∷ q → NextChoice d (m ∷ q)
  unfolding next_context
  next_in_level d m q low e =
      let all = (rw e at (queues.levels d).0) in
      let (at, ne, own) = all.1.0 in
      let at_current = all.0.0 in
      (
        m,
        turned d (m ∷ q) low e,
        ground (arith, rotate-turned d (m ∷ q) low e, ne),
        turned-Choice d (m ∷ q) low e m (q ++ s.current ∷ []) (ne, own)
            (ground (arith, at, at_current)) (rw at low),
      )

  next_below :
      (d : ℕ) → d < 10 → s.rqs d ≡ s.current ∷ [] → Found s (d + 1) (10 - (d + 1)) → NextChoice d []
  unfolding next_context
  next_below d low e (inl (empty, f)) =
      let (at, ne, own) = at_front d s.current [] e in
      (
        s.current,
        turned d [] low e,
        ground (arith, rotate-turned d [] low e, f),
        turned-Choice d [] low e s.current [] (ne, own) (ground arith) (rw at low),
      )
  next_below d low e (inr (k, n, rest, l, empty, at_n, f, g)) =
      let (at, ne, own) = at_front d s.current [] e in
      let (at', ne', own') = at_front (d + 1 + k) n rest at_n in
      (
        n,
        turned d [] low e,
        ground (arith, rotate-turned d [] low e, f, ne'),
        turned-Choice d [] low e n rest (ne', own') (ground (arith, at, at', at_n))
            (omega (arith, at', l)),
      )

  -- The current thread alone at the front, or with others behind it.
  next-Choice : (d : ℕ) (rest : List Ptr) → d < 10 → s.rqs d ≡ s.current ∷ rest → NextChoice d rest
  next-Choice d (m ∷ q) low e = next_in_level d m q low e
  next-Choice d [] low e =
      next_below d low e (search-Found s (d + 1) (10 - (d + 1)) queues.ready (omega arith))

  -- Every queue is empty, or a thread is chosen.
  abbrev pub Chosen : Type 0
  Chosen =
      EmptyFrom s.rqs 0 10 × (choose s ≡ some none)
      ⊎ ((n : Ptr) × (s' : Machine) × (choose s ≡ some (some (n, s'))) × Choice owner s n s')

  choose_found :
      (d : ℕ) (n : Ptr) (rest : List Ptr)
      → (s.current ≡ null) ⊎ Named owner s.tcbs s.current
      → d < 10
      → s.rqs d ≡ n ∷ rest
      → first_queue 10 0 s ≡ some (n ∷ rest)
      → first_level 10 0 s ≡ d
      → Chosen
  unfolding choose
  choose_found d n rest (inl gone) low e f g =
      inr (n, s, ground (arith, gone, f), Choice-front d n rest low e)
  choose_found d n rest (inr named) low e f g =
      elim (Bool-cases ((s.tcbs n).tid == (s.tcbs s.current).tid)) [
        | inl same ↦
            let (at, ne, own) = at_front d n rest e in
            let is_current : n ≡ s.current = sym own ∙ ap owner (ground (arith, same)) ∙ named.1 in
            let (m, s', step, chosen) =
              next-Choice d rest low (e ∙ ap (λ x. x ∷ rest) is_current) in
            inr (m, s', ground (arith, f, g, same, step, named), chosen)
        | inr other ↦ inr (n, s, ground (arith, f, other, named), Choice-front d n rest low e)
      ]

  pub choose-Chosen : (s.current ≡ null) ⊎ Named owner s.tcbs s.current → Chosen
  unfolding choose
  choose-Chosen someone = elim (search-Found s 0 10 queues.ready (omega arith)) [
    | inl (empty, f) ↦ inl (empty, ground (arith, f))
    | inr (d, n, rest, l, empty, e, f, g) ↦
        choose_found d n rest someone l (ap s.rqs (omega arith) ∙ e) f (g ∙ omega arith)
  ]
