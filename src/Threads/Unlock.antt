-- ===== src/Threads/Unlock.antt =====
-- my_pthread_mutex_unlock and my_pthread_mutex_init on a running machine.
use asst.Base.{
  ℕ, ◌≡◌, ◌≢◌, ◌∙◌, refl, sym, ap, true, false, Bool-cases, inl, inr, Option, none, some, List, [],
  ◌∷◌, ◌++◌, Ptr, null, minus_one, ◌==◌, update, All, arith,
}
use asst.Types.{Tcb}
use asst.Threads.{Machine, dequeuee, enqueuee}
use asst.Threads.Scheduler.{front}
use asst.Threads.Invariant.{AtLevel, Running}
use asst.Threads.Dispatch.{c_Named}
use asst.Threads.Waking.{Parked-woken_wait, Running-woken, Running-same}
use asst.Threads.Mutexes.{
  Status, success, failure, set_mutex, find_waiter, wake_waiter, mutex_unlock,
}

-- A thread that is found is in the queue.
find_waiter-front :
    (mid : ℕ) (tcbs : Ptr → Tcb) (q : List Ptr) (n : Ptr)
    → find_waiter mid tcbs q ≡ some n
    → front q ≡ n
    → (rest : List Ptr) × (q ≡ n ∷ rest)
unfolding find_waiter
find_waiter-front mid tcbs [] n h e = ground (arith, h)
find_waiter-front mid tcbs (x ∷ q) n h e = (q, ap (λ k. k ∷ q) e)

-- The mutex is free.
abbrev freed : Ptr → Machine → Machine
freed m s = set_mutex m (record (s.mutexes m) { locked = false; tid = minus_one }) s

-- And the front `n` of the waiting queue is woken.
abbrev handed : Ptr → Ptr → List Ptr → Machine → Machine
handed m n rest s = record s {
  tcbs = update s.tcbs n (record (s.tcbs n) { mid = minus_one; thread_priority = 0 });
  mutexes = update (freed m s).mutexes m (record ((freed m s).mutexes m) { ready_waiting = true });
  waiting_queue = rest;
  rqs = update s.rqs 0 (s.rqs 0 ++ n ∷ []);
}

-- What a mutex operation leaves alone.
abbrev pub Quiet : Machine → Machine → Type 0
Quiet s s' =
    (s'.mm ≡ s.mm)
    × (s'.current ≡ s.current)
    × (s'.first_thread ≡ s.first_thread)
    × (s'.thread_count ≡ s.thread_count)
    × (s'.exit_list ≡ s.exit_list)

module _ (m : Ptr) (s : Machine) (node : m ≢ null) (someone : s.current ≢ null)
    (locked : (s.mutexes m).locked ≡ true) (owns : (s.mutexes m).tid ≡ (s.tcbs s.current).tid)
    (ready : s.ready ≡ true) where
  mutex_unlock-freed :
      find_waiter (s.mutexes m).mid s.tcbs s.waiting_queue ≡ none
      → mutex_unlock m s ≡ some (success, freed m s)
  unfolding mutex_unlock
  mutex_unlock-freed found = ground (arith, node, someone, locked, owns, ready, found)

  mutex_unlock-handed :
      (n : Ptr) (rest : List Ptr)
      → find_waiter (s.mutexes m).mid s.tcbs s.waiting_queue ≡ some n
      → s.waiting_queue ≡ n ∷ rest
      → n ≢ null
      → mutex_unlock m s ≡ some (success, handed m n rest s)
  unfolding mutex_unlock wake_waiter dequeuee enqueuee
  mutex_unlock-handed n rest found e ne =
      ground (arith, node, someone, locked, owns, ready, found, e, ne)

-- A call of mutex_unlock that ends in a running machine.
abbrev Unlocked : (ℕ → Ptr) → Ptr → Machine → Type 0
Unlocked owner m s =
    (r : Status) × (s' : Machine) × (mutex_unlock m s ≡ some (r, s'))
    × Running owner s'
    × Quiet s s'

-- A call that is refused.
Unlocked-refused :
    (owner : ℕ → Ptr) (m : Ptr) (s : Machine)
    → Running owner s
    → mutex_unlock m s ≡ some (failure, s)
    → Unlocked owner m s
Unlocked-refused owner m s r e = (failure, s, e, r, (refl, refl, refl, refl, refl))

Unlocked-owned :
    (owner : ℕ → Ptr) (m : Ptr) (s : Machine) (found : Option Ptr)
    → Running owner s
    → m ≢ null
    → (s.mutexes m).locked ≡ true
    → (s.mutexes m).tid ≡ (s.tcbs s.current).tid
    → find_waiter (s.mutexes m).mid s.tcbs s.waiting_queue ≡ found
    → ((n : Ptr) → found ≡ some n → front s.waiting_queue ≡ n)
    → Unlocked owner m s
Unlocked-owned owner m s none r node locked owns e first = (
  success,
  freed m s,
  mutex_unlock-freed m s node (c_Named owner s r).0 locked owns r.queues.ready e,
  Running-same owner s (freed m s) refl refl refl refl refl refl r,
  (refl, refl, refl, refl, refl),
)
Unlocked-owned owner m s (some n) r node locked owns e first =
    let (rest, q) = find_waiter-front (s.mutexes m).mid s.tcbs s.waiting_queue n e (first n refl) in
    let parked = rw q at r.queues.parked in
    let t = record (s.tcbs n) { mid = minus_one; thread_priority = 0 } in
    (
      success,
      handed m n rest s,
      mutex_unlock-handed m s node (c_Named owner s r).0 locked owns r.queues.ready n rest e q
          parked.0.0.0.0,
      Running-woken owner s (handed m n rest s) n t r parked.0.0 refl refl refl refl refl refl
          (Parked-woken_wait owner s.tcbs s.rqs n t parked.0.0 refl refl rest s.join_queue parked),
      (refl, refl, refl, refl, refl),
    )

-- my_pthread_mutex_unlock on a running machine does not fault and leaves it running with the current
-- thread and the memory manager as they are, where the first thread that waits for the mutex, if
-- there is one, is the front of the waiting queue.
pub mutex_unlock-Running :
    (owner : ℕ → Ptr) (m : Ptr) (s : Machine)
    → Running owner s
    → ((n : Ptr)
        → find_waiter (s.mutexes m).mid s.tcbs s.waiting_queue ≡ some n
        → front s.waiting_queue ≡ n)
    → (r : Status) × (s' : Machine) × (mutex_unlock m s ≡ some (r, s'))
      × Running owner s'
      × Quiet s s'
unfolding mutex_unlock
mutex_unlock-Running owner m s r first = elim (Bool-cases (m == null)) [
  | inl no_mutex ↦ Unlocked-refused owner m s r (ground (arith, no_mutex))
  | inr node ↦ elim (Bool-cases (s.mutexes m).locked) [
    | inr free ↦ Unlocked-refused owner m s r (ground (arith, node, free))
    | inl locked ↦ elim (Bool-cases ((s.mutexes m).tid == (s.tcbs s.current).tid)) [
      | inr other ↦
          Unlocked-refused owner m s r (ground (arith, node, locked, other, (c_Named owner s r).0))
      | inl same ↦
          Unlocked-owned owner m s _ r (ground (arith, node)) locked (ground (arith, same)) refl
            first
    ]
  ]
]

All-last : (P : Ptr → Type 0) (xs : List Ptr) (y : Ptr) → All P (xs ++ y ∷ []) → P y
All-last P [] y a = a.0
All-last P (x ∷ xs) y a = All-last P xs y a.1

-- An unlock by the owner of a mutex, where the front of the waiting queue is not the first thread
-- that waits for the mutex and has left the highest level, succeeds and leaves a machine that is not
-- running, under whatever names: the front stands in level 0 with another priority.
pub mutex_unlock-misplaced :
    (owner : ℕ → Ptr) (m head n : Ptr) (rest : List Ptr) (s : Machine)
    → m ≢ null
    → s.current ≢ null
    → s.ready ≡ true
    → (s.mutexes m).locked ≡ true
    → (s.mutexes m).tid ≡ (s.tcbs s.current).tid
    → s.waiting_queue ≡ head ∷ rest
    → head ≢ null
    → find_waiter (s.mutexes m).mid s.tcbs s.waiting_queue ≡ some n
    → head ≢ n
    → (s.tcbs head).thread_priority ≢ 0
    → (s' : Machine) × (mutex_unlock m s ≡ some (success, s')) × (¬ Running owner s')
unfolding mutex_unlock wake_waiter dequeuee enqueuee
mutex_unlock-misplaced owner m head n rest s node someone ready locked owns e ne found other low =
    let s' = record (handed m n rest s) { rqs = update s.rqs 0 (s.rqs 0 ++ head ∷ []) } in
    (
      s',
      ground (arith, node, someone, ready, locked, owns, e, ne, found),
      λ r. low (
          ap (λ t. t.thread_priority) (sym (kept other))
          ∙ (All-last (AtLevel owner s'.tcbs 0) (s.rqs 0) head (r.queues.levels 0).0).0),
    )
  where
    kept :
        head ≢ n
        → update s.tcbs n (record (s.tcbs n) { mid = minus_one; thread_priority = 0 }) head
          ≡ s.tcbs head
    kept other = ground (arith, other)
