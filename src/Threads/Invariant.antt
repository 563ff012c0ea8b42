-- ===== src/Threads/Invariant.antt =====
-- What holds of the queues of a running machine, and the changes that keep it.
use asst.Base.{
  ℕ, ◌<◌, ◌≡◌, ◌≢◌, ◌∙◌, sym, ap, subst, inl, inr, true, Bool-cases, List, [], ◌∷◌, ◌++◌, Ptr, null,
  ◌==◌, update, All, All-append, NotIn, Distinct, Disjoint, Distinct-append, Disjoint-singleton,
  arith,
}
use asst.Types.{Tcb}
use asst.Threads.{Machine}

-- `owner` names the thread of each id: no two threads share one.
abbrev pub Named : (ℕ → Ptr) → (Ptr → Tcb) → Ptr → Type 0
Named owner tcbs n = (n ≢ null) × (owner (tcbs n).tid ≡ n)

-- A thread in the run queue of level `i` has that priority.
abbrev pub AtLevel : (ℕ → Ptr) → (Ptr → Tcb) → ℕ → Ptr → Type 0
AtLevel owner tcbs i n = ((tcbs n).thread_priority ≡ i) × (n ≢ null) × (owner (tcbs n).tid ≡ n)

-- Each level holds threads of its priority, none of them twice.
abbrev pub LevelsOf : (ℕ → Ptr) → (Ptr → Tcb) → (ℕ → List Ptr) → Type 0
LevelsOf owner tcbs rqs = (i : ℕ) → All (AtLevel owner tcbs i) (rqs i) × Distinct (rqs i)

-- A named thread that stands in no level.
abbrev pub Away : (ℕ → Ptr) → (Ptr → Tcb) → (ℕ → List Ptr) → Ptr → Type 0
Away owner tcbs rqs n = Named owner tcbs n × ((i : ℕ) → NotIn n (rqs i))

-- The threads of the waiting and of the join queue are in no level, and in one of the two once.
abbrev pub Parked : (ℕ → Ptr) → (Ptr → Tcb) → (ℕ → List Ptr) → List Ptr → List Ptr → Type 0
Parked owner tcbs rqs waiting joining =
    All (Away owner tcbs rqs) waiting
    × Distinct waiting
    × All (Away owner tcbs rqs) joining
    × Distinct joining
    × Disjoint waiting joining

pub record Ready (owner : ℕ → Ptr) (s : Machine) : Type 0 where
  pub ready : s.ready ≡ true
  pub levels : LevelsOf owner s.tcbs s.rqs
  pub parked : Parked owner s.tcbs s.rqs s.waiting_queue s.join_queue

-- The current thread is at the front of the queue of its level.
pub record Running (owner : ℕ → Ptr) (s : Machine) : Type 0 where
  pub queues : Ready owner s
  pub rest : List Ptr
  pub front : s.rqs (s.tcbs s.current).thread_priority ≡ s.current ∷ rest
  pub low : (s.tcbs s.current).thread_priority < 10

module _ (owner : ℕ → Ptr) (tcbs : Ptr → Tcb) where
  -- A thread of another priority is not in a level.
  pub NotIn-of_level :
      (i : ℕ) (c : Ptr) (xs : List Ptr)
      → (tcbs c).thread_priority ≢ i
      → All (AtLevel owner tcbs i) xs
      → NotIn c xs
  NotIn-of_level i c [] ne a = tt
  NotIn-of_level i c (x ∷ xs) ne a =
      ((λ e. ne (ap (λ n. (tcbs n).thread_priority) (sym e) ∙ a.0.0)), NotIn-of_level i c xs ne a.1)

  pub Disjoint-of_levels :
      (i j : ℕ) (xs ys : List Ptr)
      → i ≢ j
      → All (AtLevel owner tcbs i) xs
      → All (AtLevel owner tcbs j) ys
      → Disjoint xs ys
  Disjoint-of_levels i j [] ys ne a b = tt
  Disjoint-of_levels i j (x ∷ xs) ys ne a b =
      (NotIn-of_level j x ys (λ e. ne (sym a.0.0 ∙ e)) b, Disjoint-of_levels i j xs ys ne a.1 b)

  -- A change of one block leaves the other threads at their levels.
  pub All-same :
      (tcbs' : Ptr → Tcb) (i : ℕ) (c : Ptr) (xs : List Ptr)
      → ((n : Ptr) → n ≢ c → tcbs' n ≡ tcbs n)
      → NotIn c xs
      → All (AtLevel owner tcbs i) xs
      → All (AtLevel owner tcbs' i) xs
  All-same tcbs' i c [] same d a = tt
  All-same tcbs' i c (x ∷ xs) same d a = (rw (same x d.0) (a.0), All-same tcbs' i c xs same d.1 a.1)

-- A new queue for one level.
pub LevelsOf-set :
    (owner : ℕ → Ptr) (tcbs : Ptr → Tcb) (rqs : ℕ → List Ptr) (j : ℕ) (q : List Ptr)
    → All (AtLevel owner tcbs j) q
    → Distinct q
    → LevelsOf owner tcbs rqs
    → LevelsOf owner tcbs (update rqs j q)
LevelsOf-set owner tcbs rqs j q a d l i = elim (Bool-cases (i == j)) [
  | inl same ↦
      let e : i ≡ j = ground arith in
      rw same (subst (λ k. All (AtLevel owner tcbs k) q) (sym e) a, d)
  | inr other ↦ rw other (l i)
]

module _ (owner : ℕ → Ptr) (tcbs : Ptr → Tcb) (rqs : ℕ → List Ptr) (c : Ptr) (rest : List Ptr)
    (levels : LevelsOf owner tcbs rqs) (front : rqs (tcbs c).thread_priority ≡ c ∷ rest) where
  front_level : All (AtLevel owner tcbs (tcbs c).thread_priority) (c ∷ rest) × Distinct (c ∷ rest)
  front_level = rw front at (levels (tcbs c).thread_priority)

  pub Named-front : Named owner tcbs c
  Named-front = (front_level.0.0.1, front_level.0.0.2)

  -- Taken out, `c` is in no level.
  pub NotIn-taken : (i : ℕ) → NotIn c (update rqs (tcbs c).thread_priority rest i)
  NotIn-taken i = elim (Bool-cases (i == (tcbs c).thread_priority)) [
    | inl same ↦ rw same front_level.1.0
    | inr other ↦
        rw other (NotIn-of_level owner tcbs i c (rqs i) (ground (arith, other)) (levels i).0)
  ]

  -- The levels without `c`, whatever its block becomes.
  pub LevelsOf-take :
      (tcbs' : Ptr → Tcb)
      → ((n : Ptr) → n ≢ c → tcbs' n ≡ tcbs n)
      → LevelsOf owner tcbs' (update rqs (tcbs c).thread_priority rest)
  LevelsOf-take tcbs' same i = (
    All-same owner tcbs tcbs' i c _ same (NotIn-taken i)
        (LevelsOf-set owner tcbs rqs (tcbs c).thread_priority rest front_level.0.1 front_level.1.1
          levels i).0,
    (LevelsOf-set owner tcbs rqs (tcbs c).thread_priority rest front_level.0.1 front_level.1.1
        levels i).1,
  )

  -- `c` moves to the end of a level.
  pub LevelsOf-move :
      (tcbs' : Ptr → Tcb) (j : ℕ)
      → ((n : Ptr) → n ≢ c → tcbs' n ≡ tcbs n)
      → AtLevel owner tcbs' j c
      → LevelsOf owner tcbs' (
          update
            (update rqs (tcbs c).thread_priority rest)
            j
            (update rqs (tcbs c).thread_priority rest j ++ c ∷ []))
  LevelsOf-move tcbs' j same at =
      let base = LevelsOf-take tcbs' same in
      LevelsOf-set owner tcbs' (update rqs (tcbs c).thread_priority rest) j _
        (All-append (AtLevel owner tcbs' j) _ (c ∷ []) (base j).0 (at, tt))
        (Distinct-append _ (c ∷ []) (base j).1 (tt, tt) (Disjoint-singleton c _ (NotIn-taken j)))
        base
