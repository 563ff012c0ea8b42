-- ===== src/Threads/Joiners.antt =====
-- The loop of my_pthread_exit over the join queue.
use asst.Base.{
  ℕ, zero, suc, ◌+◌, ◌<◌, ◌≤◌, ◌≡◌, ◌≢◌, ◌∙◌, refl, sym, ap, subst, true, Bool-cases, inl, inr,
  Option, some, List, [], ◌∷◌, ◌++◌, Ptr, null, ltb, ◌==◌, update, All, All-append, length,
  length-append, append_assoc, arith,
}
use mathlib.Core.List.{append-nil, Perm, perm_append_singleton}
use mathlib.Core.List.Perm
use asst.Types.{Tcb}
use asst.Threads.{Machine, set_tcb, set_rq, dequeuee, enqueuee}
use asst.Threads.Join.{wake_front, wake_joiners}

abbrev pub IsNode : Ptr → Type 0
IsNode n = n ≢ null

-- The front is woken.
abbrev pub woken : Ptr → Ptr → List Ptr → Machine → Machine
woken v x q s = set_rq 0 (s.rqs 0 ++ x ∷ []) (
    set_tcb x (record (s.tcbs x) { value_ptr = v; thread_priority = 0 })
      (record s { join_queue = q }))

pub wake_front_match :
    (tid : ℕ) (v x : Ptr) (q : List Ptr) (s : Machine)
    → s.ready ≡ true
    → s.join_queue ≡ x ∷ q
    → x ≢ null
    → (s.tcbs x).join_id ≡ tid
    → wake_front tid v s ≡ some (woken v x q s)
unfolding wake_front dequeuee enqueuee
wake_front_match tid v x q s ready e ne waits = ground (arith, ready, e, ne, waits)

pub wake_front_other :
    (tid : ℕ) (v x : Ptr) (q : List Ptr) (s : Machine)
    → s.join_queue ≡ x ∷ q
    → x ≢ null
    → (s.tcbs x).join_id ≢ tid
    → wake_front tid v s ≡ some (record s { join_queue = q ++ x ∷ [] })
unfolding wake_front dequeuee enqueuee
wake_front_other tid v x q s e ne waits = ground (arith, e, ne, waits)

pub wake_joiners_end :
    (f i tid : ℕ) (v : Ptr) (s : Machine)
    → length s.join_queue ≤ i
    → wake_joiners f i tid v s ≡ some s
unfolding wake_joiners
wake_joiners_end zero i tid v s h = ground (arith, h)
wake_joiners_end (suc f) i tid v s h = ground (arith, h)

pub wake_joiners_round :
    (f i tid : ℕ) (v : Ptr) (s s' : Machine)
    → i < length s.join_queue
    → wake_front tid v s ≡ some s'
    → wake_joiners (suc f) i tid v s ≡ wake_joiners f (i + 1) tid v s'
unfolding wake_joiners
wake_joiners_round f i tid v s s' h e = ground (arith, h, e)

-- The threads of level 0 and the join queue are the same, in some order, and the other levels and the
-- waiting queue are as they were.
abbrev pub Moved : Machine → Machine → Type 0
Moved s s' =
    Perm (s'.rqs 0 ++ s'.join_queue) (s.rqs 0 ++ s.join_queue)
    × ((i : ℕ) → i ≢ 0 → s'.rqs i ≡ s.rqs i)
    × (s'.waiting_queue ≡ s.waiting_queue)

Moved-trans : (s t u : Machine) → Moved s t → Moved t u → Moved s u
Moved-trans s t u (p, levels, waiting) (p', levels', waiting') =
    (Perm.trans p' p, (λ i ne. levels' i ne ∙ levels i ne), waiting' ∙ waiting)

Moved-refl : (s : Machine) → Moved s s
Moved-refl s = (Perm.refl _, (λ i ne. refl), refl)

-- A run of the loop that ends, and loses no thread.
abbrev pub Kept : Machine → Option Machine → Type 0
Kept s o = (s' : Machine) × (o ≡ some s') × All IsNode s'.join_queue × Moved s s'

-- One round, from a queue with the front `x`.
Kept_front :
    (tid : ℕ) (v x : Ptr) (q : List Ptr) (s : Machine)
    → s.ready ≡ true
    → s.join_queue ≡ x ∷ q
    → x ≢ null
    → All IsNode q
    → (s' : Machine) × (wake_front tid v s ≡ some s')
      × All IsNode s'.join_queue
      × (s'.ready ≡ true)
      × (length s'.join_queue ≤ length s.join_queue)
      × Moved s s'
Kept_front tid v x q s ready e ne nodes = elim (Bool-cases ((s.tcbs x).join_id == tid)) [
  | inl same ↦ (
    woken v x q s,
    wake_front_match tid v x q s ready e ne (ground (arith, same)),
    nodes,
    ready,
    ground (arith, e),
    (
      subst (λ l. Perm l (s.rqs 0 ++ s.join_queue))
          (ap (λ l. s.rqs 0 ++ l) e ∙ sym (append_assoc (s.rqs 0) (x ∷ []) q)) (Perm.refl _),
      (λ i ne'. ground (arith, ne')),
      refl,
    ),
  )
  | inr other ↦ (
    record s { join_queue = q ++ x ∷ [] },
    wake_front_other tid v x q s e ne (ground (arith, other)),
    All-append IsNode q (x ∷ []) nodes (ne, tt),
    ready,
    ground (arith, e, length-append q (x ∷ [])),
    (
      subst (λ l. Perm (s.rqs 0 ++ (q ++ x ∷ [])) (s.rqs 0 ++ l)) (sym e)
          (Perm.append_left (s.rqs 0) (perm_append_singleton x q)),
      (λ i ne'. refl),
      refl,
    ),
  )
]

wake_joiners-Kept :
    (f i tid : ℕ) (v : Ptr) (xs : List Ptr) (s : Machine)
    → s.ready ≡ true
    → s.join_queue ≡ xs
    → All IsNode xs
    → length xs ≤ i + f
    → Kept s (wake_joiners f i tid v s)
wake_joiners-Kept f i tid v [] s ready e a h =
    (s, wake_joiners_end f i tid v s (ground (arith, e)), rw e tt, Moved-refl s)
wake_joiners-Kept zero i tid v (x ∷ q) s ready e a h =
    (s, wake_joiners_end 0 i tid v s (ground (arith, e, h)), rw e a, Moved-refl s)
wake_joiners-Kept (suc f) i tid v (x ∷ q) s ready e a h =
    elim (Bool-cases (ltb i (length s.join_queue))) [
      | inr over ↦
          (s, wake_joiners_end (suc f) i tid v s (ground (arith, over)), rw e a, Moved-refl s)
      | inl under ↦
          let (s', step, nodes, ready', shorter, same) = Kept_front tid v x q s ready e a.0 a.1 in
          let (s'', run, nodes', total) =
            wake_joiners-Kept f (i + 1) tid v s'.join_queue s' ready' refl nodes
              (ground (arith, h, e, shorter)) in
          (
            s'',
            wake_joiners_round f i tid v s s' (ground (arith, under)) step ∙ run,
            nodes',
            Moved-trans s s' s'' same total,
          )
    ]

-- The loop of my_pthread_exit ends within as many rounds as the join queue is long, without a
-- fault, for every join queue of nodes once the queues are there. The threads in level 0 and the join
-- queue together are those of before, each as often, and the other queues stay.
pub wake_joiners-total :
    (tid : ℕ) (v : Ptr) (s : Machine)
    → s.ready ≡ true
    → All IsNode s.join_queue
    → Kept s (wake_joiners (length s.join_queue) 0 tid v s)
wake_joiners-total tid v s ready nodes =
    wake_joiners-Kept (length s.join_queue) 0 tid v s.join_queue s ready refl nodes (omega arith)

-- A part `ys` of the waiting threads is woken, in their order, and the part `zs` stays.
abbrev pub HalfWoken : ℕ → List Ptr → Machine → Option Machine → Type 0
HalfWoken i xs s o =
    (ys : List Ptr) × (zs : List Ptr) × (s' : Machine) × (xs ≡ ys ++ zs)
    × (o ≡ some s')
    × (s'.join_queue ≡ zs)
    × (s'.rqs 0 ≡ s.rqs 0 ++ ys)
    × (length zs ≤ i + length ys)
    × (i + length ys ≤ length zs + 1)

-- `n` waits for the thread `tid`.
abbrev pub WaitsFor : ℕ → (Ptr → Tcb) → Ptr → Type 0
WaitsFor tid tcbs n = (n ≢ null) × ((tcbs n).join_id ≡ tid)

WaitsFor-woken :
    (tid : ℕ) (v x : Ptr) (tcbs : Ptr → Tcb) (q : List Ptr)
    → All (WaitsFor tid tcbs) q
    → All (WaitsFor tid (update tcbs x (record (tcbs x) { value_ptr = v; thread_priority = 0 }))) q
WaitsFor-woken tid v x tcbs [] a = tt
WaitsFor-woken tid v x tcbs (n ∷ q) a =
    ((a.0.0, ground (arith, a.0.1)), WaitsFor-woken tid v x tcbs q a.1)

wake_joiners-HalfWoken :
    (f i tid : ℕ) (v : Ptr) (xs : List Ptr) (s : Machine)
    → s.ready ≡ true
    → s.join_queue ≡ xs
    → All (WaitsFor tid s.tcbs) xs
    → i ≤ length xs + 1
    → length xs ≤ i + f
    → HalfWoken i xs s (wake_joiners f i tid v s)
wake_joiners-HalfWoken f i tid v [] s ready e a low high = (
  [],
  [],
  s,
  refl,
  wake_joiners_end f i tid v s (ground (arith, e)),
  e,
  sym (append-nil (s.rqs 0)),
  omega arith,
  omega (arith, low),
)
wake_joiners-HalfWoken zero i tid v (x ∷ q) s ready e a low high = (
  [],
  x ∷ q,
  s,
  refl,
  wake_joiners_end 0 i tid v s (ground (arith, e, high)),
  e,
  sym (append-nil (s.rqs 0)),
  omega (arith, high),
  omega (arith, low),
)
wake_joiners-HalfWoken (suc f) i tid v (x ∷ q) s ready e a low high =
    elim (Bool-cases (ltb i (length s.join_queue))) [
      | inr over ↦ (
        [],
        x ∷ q,
        s,
        refl,
        wake_joiners_end (suc f) i tid v s (ground (arith, over)),
        e,
        sym (append-nil (s.rqs 0)),
        ground (arith, over, e),
        omega (arith, low),
      )
      | inl under ↦
          let (ys, zs, s', split, run, joining, level, l, u) =
            wake_joiners-HalfWoken f (i + 1) tid v q (woken v x q s) ready refl
              (WaitsFor-woken tid v x s.tcbs q a.1) (ground (arith, under, e))
              (omega (arith, high)) in
          (
            x ∷ ys,
            zs,
            s',
            ap (λ k. x ∷ k) split,
            wake_joiners_round f i tid v s (woken v x q s) (ground (arith, under))
                  (wake_front_match tid v x q s ready e a.0.0 a.0.1)
                ∙ run,
            joining,
            level ∙ append_assoc (s.rqs 0) (x ∷ []) ys,
            omega (arith, l),
            omega (arith, u),
          )
    ]

-- Where every thread in the join queue waits for the thread that exits, the loop of
-- my_pthread_exit wakes only the first half of them, rounded up, once the queues are there: the
-- others stay in the join queue.
pub wake_joiners-half :
    (tid : ℕ) (v : Ptr) (s : Machine)
    → s.ready ≡ true
    → All (WaitsFor tid s.tcbs) s.join_queue
    → HalfWoken 0 s.join_queue s (wake_joiners (length s.join_queue) 0 tid v s)
wake_joiners-half tid v s ready a =
    wake_joiners-HalfWoken (length s.join_queue) 0 tid v s.join_queue s ready refl a (omega arith)
      (omega arith)
