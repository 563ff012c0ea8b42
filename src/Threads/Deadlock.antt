-- ===== src/Threads/Deadlock.antt =====
-- A lock by the only thread that can run, on a mutex that is taken.
use asst.Base.{
  ℕ, zero, suc, ◌+◌, ◌%◌, ◌^◌, ◌≤◌, ◌≡◌, ◌≢◌, ◌∙◌, refl, sym, ap, true, false, Bool-cases, inl, inr,
  none, some, [], ◌∷◌, ◌++◌, Ptr, null, ltb, ◌==◌, update, arith,
}
use asst.Types.{Platform, Tcb, FlagCalled, blocked, none_flag}
use asst.Threads.{Machine, set_tcb, enqueuee, dequeuee}
use asst.Threads.Scheduler.{
  Outcome, returned, scheduler, update_queue, dispatch, take_current, maintain, choose, first_queue,
}
use asst.Threads.Invariant.{Running}
use asst.Threads.Dispatch.{c_Named, taken, take_current-taken}
use asst.Threads.Blocking.{Running-noted}
use asst.Threads.Mutexes.{waits, mutex_lock}

-- No level has a thread.
abbrev pub Idle : Machine → Type 0
Idle s = (i : ℕ) → s.rqs i ≡ []

first_queue-none :
    (k i : ℕ) (s : Machine) → s.ready ≡ true → Idle s → i + k ≤ 10 → first_queue k i s ≡ some []
unfolding first_queue
first_queue-none zero i s ready idle h = refl
first_queue-none (suc k) i s ready idle h =
    ground (arith, ready, idle i, h, first_queue-none k (i + 1) s ready idle (omega (arith, h)))

choose-none : (s : Machine) → s.ready ≡ true → Idle s → choose s ≡ some none
unfolding choose
choose-none s ready idle = rw (first_queue-none 10 0 s ready idle (omega arith)) refl

-- With the lowest level empty the maintenance moves no thread.
maintain-none :
    (s : Machine)
    → s.ready ≡ true
    → s.rqs 9 ≡ []
    → (c : ℕ) × (maintain s ≡ some (record s { maintenance_count = c }))
unfolding maintain
maintain-none s ready empty = elim (Bool-cases (ltb 100 s.maintenance_count)) [
  | inl due ↦ (0, ground (arith, due, ready, empty))
  | inr early ↦ (s.maintenance_count, ground (arith, early))
]

module _ (os : Platform) (owner : ℕ → Ptr) (s : Machine) (r : Running owner s)
    (idle : s.mm.mem_flag ≡ false) (flag : s.fc ≡ blocked) (alone : Idle (taken owner s r)) where
  -- The thread waits, and no other is there.
  abbrev waiting : Machine
  waiting = record (taken owner s r) {
    waiting_queue = s.waiting_queue ++ s.current ∷ [];
    fc = none_flag;
  }

  dispatch-waiting : dispatch blocked s ≡ some (none, waiting)
  unfolding dispatch enqueuee
  dispatch-waiting = rw (take_current-taken owner s r) (ground (arith, c_Named owner s r))

  update_queue-waiting :
      (c : ℕ) × (update_queue s ≡ some (false, record waiting { maintenance_count = c }))
  unfolding update_queue
  update_queue-waiting =
      let (c, m) = maintain-none waiting r.queues.ready (alone 9) in
      (c, ground (arith, flag, dispatch-waiting, m))

  scheduler-waiting :
      (c : ℕ) × (scheduler os s ≡ some (returned, record waiting { maintenance_count = c }))
  unfolding scheduler
  scheduler-waiting =
      let (c, u) = update_queue-waiting in
      let none_left =
        choose-none (record waiting { maintenance_count = (c + 1) % 2 ^ 32 }) r.queues.ready
          alone in
      ((c + 1) % 2 ^ 32, ground (arith, idle, u, none_left))

-- A thread that is in no level and blocks again is a fault.
blocked_fault :
    (os : Platform) (s : Machine)
    → s.mm.mem_flag ≡ false
    → s.fc ≡ blocked
    → Idle s
    → scheduler os s ≡ none
unfolding scheduler update_queue dispatch take_current dequeuee enqueuee
blocked_fault os s idle flag alone =
    ground (arith, idle, flag, alone (s.tcbs s.current).thread_priority)

-- The levels without the first thread are the same after a note in its control block.
Idle-noted :
    (owner : ℕ → Ptr) (s : Machine) (r : Running owner s) (t : Tcb) (f : FlagCalled)
    (same_level : t.thread_priority ≡ (s.tcbs s.current).thread_priority)
    (r1 : Running owner (record (set_tcb s.current t s) { fc = f }))
    → Idle (taken owner s r)
    → Idle (taken owner (record (set_tcb s.current t s) { fc = f }) r1)
Idle-noted owner s r t f same_level r1 alone i =
    let kept : (update s.tcbs s.current t s.current).thread_priority
        ≡ (s.tcbs s.current).thread_priority =
      ground (arith, same_level) in
    let front : s.rqs (s.tcbs s.current).thread_priority ≡ s.current ∷ r1.rest =
      ap s.rqs (sym kept) ∙ r1.front in
    let same : r1.rest ≡ r.rest = ground (arith, front, r.front) in rw (kept, same) (alone i)

module _ (os : Platform) (m : Ptr) (s : Machine) (node : m ≢ null)
    (locked : (s.mutexes m).locked ≡ true) where
  -- The thread notes the mutex it waits for, before the scheduler is called.
  abbrev noting : Machine
  noting = record (set_tcb s.current (record (s.tcbs s.current) { mid = (s.mutexes m).mid }) s) {
    fc = blocked;
  }

  mutex_lock-round :
      (outcome : Outcome) (s' : Machine)
      → s.current ≢ null
      → scheduler os noting ≡ some (outcome, s')
      → mutex_lock os m s ≡ some (waits outcome, s')
  unfolding mutex_lock
  mutex_lock-round outcome s' named run = ground (arith, node, locked, named, run)

  mutex_lock-fault : scheduler os noting ≡ none → mutex_lock os m s ≡ none
  unfolding mutex_lock
  mutex_lock-fault fault = elim (Bool-cases (s.current == null)) [
    | inl e ↦ ground (arith, node, locked, e)
    | inr named ↦ ground (arith, node, locked, named, fault)
  ]

-- my_pthread_mutex_lock on a taken mutex by a thread that is alone in the levels, with the memory
-- manager idle: the scheduler returns with every level empty and the thread at the end of the waiting
-- queue, the mutex is taken still, and so the loop goes on; its next round is a fault.
pub mutex_lock-stuck :
    (os : Platform) (owner : ℕ → Ptr) (m : Ptr) (s : Machine) (r : Running owner s)
    → s.mm.mem_flag ≡ false
    → m ≢ null
    → (s.mutexes m).locked ≡ true
    → Idle (taken owner s r)
    → (s' : Machine) × (mutex_lock os m s ≡ some (waits returned, s'))
      × Idle s'
      × (s'.waiting_queue ≡ s.waiting_queue ++ s.current ∷ [])
      × ((s'.mutexes m).locked ≡ true)
      × (mutex_lock os m s' ≡ none)
mutex_lock-stuck os owner m s r idle node locked alone =
    let t = record (s.tcbs s.current) { mid = (s.mutexes m).mid } in
    let s1 = noting os m s node locked in
    let r1 = Running-noted owner s t blocked refl refl r in
    let alone1 = Idle-noted owner s r t blocked refl r1 alone in
    let (c, step) = scheduler-waiting os owner s1 r1 idle refl alone1 in
    let s2 = record (waiting os owner s1 r1 idle refl alone1) { maintenance_count = c } in
    (
      s2,
      mutex_lock-round os m s node locked returned s2 (c_Named owner s r).0 step,
      alone1,
      refl,
      locked,
      mutex_lock-fault os m s2 node locked
          (blocked_fault os (noting os m s2 node locked) idle refl alone1),
    )
