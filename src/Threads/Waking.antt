-- ===== src/Threads/Waking.antt =====
-- A thread that waits goes to the end of the highest level.
use asst.Base.{
  ℕ, ◌≡◌, ◌≢◌, ◌∙◌, sym, ap, inl, inr, Bool-cases, List, [], ◌∷◌, ◌++◌, Ptr, ◌==◌, update, All,
  All-append, NotIn, Disjoint, Distinct-append, Disjoint-singleton, arith,
}
use asst.Types.{Tcb}
use asst.Threads.{Machine}
use asst.Threads.Invariant.{Named, Away, Parked, AtLevel, LevelsOf, Running, All-same, LevelsOf-set}
use asst.Threads.Parked.{All-map, Named-same, tid-update, NotIn-set}

-- An item at the end of level 0 leaves the front of every level that has one.
pub front-joined :
    (rqs : ℕ → List Ptr) (x c : Ptr) (i : ℕ) (rest : List Ptr)
    → rqs i ≡ c ∷ rest
    → (rest' : List Ptr) × (update rqs 0 (rqs 0 ++ x ∷ []) i ≡ c ∷ rest')
front-joined rqs x c i rest e = elim (Bool-cases (i == 0)) [
  | inl lowest ↦ (rest ++ x ∷ [], ground (arith, lowest, e))
  | inr higher ↦ (rest, ground (arith, higher, e))
]

pub Disjoint-tail : (w : List Ptr) (x : Ptr) (q : List Ptr) → Disjoint w (x ∷ q) → Disjoint w q
Disjoint-tail w x q d = All-map w (λ m out. out.1) d

pub NotIn-Disjoint : (w : List Ptr) (x : Ptr) (q : List Ptr) → Disjoint w (x ∷ q) → NotIn x w
NotIn-Disjoint w x q d = All-map w (λ m out e. out.0 (sym e)) d

-- The front of the join queue goes to its end.
pub Parked-rotate :
    (owner : ℕ → Ptr) (tcbs : Ptr → Tcb) (rqs : ℕ → List Ptr) (w : List Ptr) (x : Ptr)
    (q : List Ptr)
    → Parked owner tcbs rqs w (x ∷ q)
    → Parked owner tcbs rqs w (q ++ x ∷ [])
Parked-rotate owner tcbs rqs w x q p = (
  p.0,
  p.1,
  All-append (Away owner tcbs rqs) q (x ∷ []) p.2.1 (p.2.0, tt),
  Distinct-append q (x ∷ []) p.3.1 (tt, tt) (Disjoint-singleton x q p.3.0),
  All-map w (λ m out. All-append (λ k. k ≢ m) q (x ∷ []) out.1 (out.0, tt)) p.4,
)

module _ (owner : ℕ → Ptr) (tcbs : Ptr → Tcb) (rqs : ℕ → List Ptr) (x : Ptr) (t : Tcb)
    (away : Away owner tcbs rqs x) (same_tid : t.tid ≡ (tcbs x).tid)
    (highest : t.thread_priority ≡ 0) where
  abbrev tcbs' : Ptr → Tcb
  tcbs' = update tcbs x t

  abbrev rqs' : ℕ → List Ptr
  rqs' = update rqs 0 (rqs 0 ++ x ∷ [])

  Named-woken : Named owner tcbs' x
  Named-woken = Named-same owner tcbs tcbs' x (tid-update tcbs x t same_tid x) away.0

  LevelsOf-woken : LevelsOf owner tcbs rqs → LevelsOf owner tcbs' rqs'
  LevelsOf-woken levels =
      let base : LevelsOf owner tcbs' rqs = λ i. (
        All-same owner tcbs tcbs' i x (rqs i) (λ n other. ground (arith, other)) (away.1 i)
            (levels i).0,
        (levels i).1,
      ) in
      LevelsOf-set owner tcbs' rqs 0 (rqs 0 ++ x ∷ [])
        (All-append (AtLevel owner tcbs' 0) (rqs 0) (x ∷ []) (base 0).0
          ((ground (arith, highest), Named-woken.0, Named-woken.1), tt))
        (Distinct-append (rqs 0) (x ∷ []) (base 0).1 (tt, tt)
          (Disjoint-singleton x (rqs 0) (away.1 0)))
        base

  Away-woken : (n : Ptr) → n ≢ x → Away owner tcbs rqs n → Away owner tcbs' rqs' n
  Away-woken n other out = (
    Named-same owner tcbs tcbs' n (tid-update tcbs x t same_tid n) out.0,
    NotIn-set rqs 0 (rqs 0 ++ x ∷ []) n
        (All-append (λ m. m ≢ n) (rqs 0) (x ∷ []) (out.1 0) ((λ e. other (sym e)), tt)) out.1,
  )

  All-woken :
      (q : List Ptr) → NotIn x q → All (Away owner tcbs rqs) q → All (Away owner tcbs' rqs') q
  All-woken [] out a = tt
  All-woken (n ∷ q) out a = (Away-woken n out.0 a.0, All-woken q out.1 a.1)

  pub Parked-woken_join :
      (w q : List Ptr) → Parked owner tcbs rqs w (x ∷ q) → Parked owner tcbs' rqs' w q
  Parked-woken_join w q p = (
    All-woken w (NotIn-Disjoint w x q p.4) p.0,
    p.1,
    All-woken q p.3.0 p.2.1,
    p.3.1,
    Disjoint-tail w x q p.4,
  )

  pub Parked-woken_wait :
      (q j : List Ptr) → Parked owner tcbs rqs (x ∷ q) j → Parked owner tcbs' rqs' q j
  Parked-woken_wait q j p = (All-woken q p.1.0 p.0.1, p.1.1, All-woken j p.4.0 p.2, p.3, p.4.1)

-- A running machine with the thread `x` woken, whatever becomes of the mutexes.
pub Running-woken :
    (owner : ℕ → Ptr) (s s' : Machine) (x : Ptr) (t : Tcb)
    → Running owner s
    → Away owner s.tcbs s.rqs x
    → t.tid ≡ (s.tcbs x).tid
    → t.thread_priority ≡ 0
    → s'.current ≡ s.current
    → s'.ready ≡ s.ready
    → s'.tcbs ≡ update s.tcbs x t
    → s'.rqs ≡ update s.rqs 0 (s.rqs 0 ++ x ∷ [])
    → Parked owner
        (update s.tcbs x t)
        (update s.rqs 0 (s.rqs 0 ++ x ∷ []))
        s'.waiting_queue
        s'.join_queue
    → Running owner s'
Running-woken owner s s' x t r away same_tid highest same_current same_ready same_tcbs same_rqs
      parked =
    let other : s.current ≢ x = (rw r.front at (away.1 (s.tcbs s.current).thread_priority)).0 in
    let same : (s'.tcbs s'.current).thread_priority ≡ (s.tcbs s.current).thread_priority =
      rw (same_tcbs, same_current) (ground (arith, other)) in
    let (rest, front) =
      front-joined s.rqs x s.current (s.tcbs s.current).thread_priority r.rest r.front in
    record {
      queues = record {
        ready = same_ready ∙ r.queues.ready;
        levels =
            rw (same_tcbs, same_rqs)
              (LevelsOf-woken owner s.tcbs s.rqs x t away same_tid highest r.queues.levels);
        parked = rw (same_tcbs, same_rqs) parked;
      };
      rest = rest;
      front = ap s'.rqs same ∙ rw (same_rqs, same_current) front;
      low = rw same r.low;
    }

-- What a running machine is made of is not touched.
pub Running-same :
    (owner : ℕ → Ptr) (s s' : Machine)
    → s'.current ≡ s.current
    → s'.ready ≡ s.ready
    → s'.tcbs ≡ s.tcbs
    → s'.rqs ≡ s.rqs
    → s'.waiting_queue ≡ s.waiting_queue
    → s'.join_queue ≡ s.join_queue
    → Running owner s
    → Running owner s'
Running-same owner s s' c re t q w j r = record {
  queues = record {
    ready = re ∙ r.queues.ready;
    levels = rw (t, q) r.queues.levels;
    parked = rw (t, q, w, j) r.queues.parked;
  };
  rest = r.rest;
  front = rw (q, t, c) r.front;
  low = rw (t, c) r.low;
}
