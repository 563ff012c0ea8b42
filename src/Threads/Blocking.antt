-- ===== src/Threads/Blocking.antt =====
-- The calls that give the processor away: they end in a running machine, or with every queue empty.
use asst.Base.{
  ℕ, ◌≡◌, ◌≢◌, ◌∙◌, ◌⊎◌, inl, inr, refl, sym, ap, true, false, Bool-cases, some, List, [], ◌∷◌,
  ◌++◌, Ptr, null, ◌==◌, update, All, arith,
}
use asst.Types.{Tcb, Platform, FlagCalled, none_flag, yield, blocked}
use asst.Threads.{Machine, set_tcb}
use asst.Threads.Scheduler.{Outcome, returned, scheduler, my_pthread_yield}
use asst.Threads.Mutexes.{success, done, waits, mutex_lock}
use asst.Threads.Parked.{Named-same, tid-update, Parked-map}
use asst.Threads.Invariant.{AtLevel, Running}
use asst.Threads.Dispatch.{c_Named}
use asst.Threads.Progress.{Settled, Scheduled, scheduler-Scheduled}
use asst.Threads.Rests.{scheduler_blocked}

All-noted :
    (owner : ℕ → Ptr) (tcbs : Ptr → Tcb) (c : Ptr) (t : Tcb) (i : ℕ) (xs : List Ptr)
    → t.tid ≡ (tcbs c).tid
    → t.thread_priority ≡ (tcbs c).thread_priority
    → All (AtLevel owner tcbs i) xs
    → All (AtLevel owner (update tcbs c t) i) xs
All-noted owner tcbs c t i [] same_tid same_level a = tt
All-noted owner tcbs c t i (x ∷ xs) same_tid same_level a =
    (at_level (Bool-cases (x == c)), All-noted owner tcbs c t i xs same_tid same_level a.1)
  where
    at_level : ((x == c) ≡ true) ⊎ ((x == c) ≡ false) → AtLevel owner (update tcbs c t) i x
    at_level (inl same) =
        let e : x ≡ c = ground (arith, same) in
        rw same (
          same_level ∙ ap (λ n. (tcbs n).thread_priority) (sym e) ∙ a.0.0,
          a.0.1,
          ap owner (same_tid ∙ ap (λ n. (tcbs n).tid) (sym e)) ∙ a.0.2,
        )
    at_level (inr other) = rw other a.0

-- A note in the block of the current thread, and a flag.
pub Running-noted :
    (owner : ℕ → Ptr) (s : Machine) (t : Tcb) (f : FlagCalled)
    → t.tid ≡ (s.tcbs s.current).tid
    → t.thread_priority ≡ (s.tcbs s.current).thread_priority
    → Running owner s
    → Running owner (record (set_tcb s.current t s) { fc = f })
Running-noted owner s t f same_tid same_level r =
    let kept : (update s.tcbs s.current t s.current).thread_priority
        ≡ (s.tcbs s.current).thread_priority =
      ground (arith, same_level) in
    record {
      queues = record {
        ready = r.queues.ready;
        levels = λ i. (
          All-noted owner s.tcbs s.current t i (s.rqs i) same_tid same_level (r.queues.levels i).0,
          (r.queues.levels i).1,
        );
        parked =
            Parked-map owner owner s.tcbs (update s.tcbs s.current t) s.rqs s.rqs s.waiting_queue
              s.join_queue
              (λ n away. (
                Named-same owner s.tcbs (update s.tcbs s.current t) n
                    (tid-update s.tcbs s.current t same_tid n) away.0,
                away.1,
              ))
              r.queues.parked;
      };
      rest = r.rest;
      front = ap s.rqs kept ∙ r.front;
      low = rw kept r.low;
    }

-- A call of the scheduler with a flag other than NONE.
pub scheduler-flagged :
    (os : Platform) (owner : ℕ → Ptr) (s : Machine)
    → Running owner s
    → s.mm.mem_flag ≡ false
    → ((usec : ℕ) → os.setitimer usec ≡ true)
    → s.fc ≢ none_flag
    → Scheduled owner (scheduler os s)
scheduler-flagged os owner s r idle accepts ne =
    (scheduler-Scheduled os owner s r idle accepts).1 ne

-- my_pthread_yield on a running machine, with the memory manager idle and a timer that is accepted,
-- does not fault. Where the current thread is alone in its level it returns at once and changes
-- nothing. Where another thread follows it there, the call is one of the scheduler with the flag
-- YIELD, which either returns with every queue empty or switches to the thread at the front of a level.
pub my_pthread_yield-Scheduled :
    (os : Platform) (owner : ℕ → Ptr) (s : Machine)
    → Running owner s
    → s.mm.mem_flag ≡ false
    → ((usec : ℕ) → os.setitimer usec ≡ true)
    → (s.rqs (s.tcbs s.current).thread_priority ≡ s.current ∷ [])
        × (my_pthread_yield os s ≡ some (returned, s))
      ⊎ ((m : Ptr) × (q : List Ptr) × (s.rqs (s.tcbs s.current).thread_priority ≡ s.current ∷ m ∷ q)
          × (my_pthread_yield os s ≡ scheduler os (record s { fc = yield }))
          × Scheduled owner (my_pthread_yield os s))
unfolding my_pthread_yield
my_pthread_yield-Scheduled os owner s r idle accepts = by_rest r.rest r.front
  where
    by_rest :
        (q : List Ptr)
        → s.rqs (s.tcbs s.current).thread_priority ≡ s.current ∷ q
        → (s.rqs (s.tcbs s.current).thread_priority ≡ s.current ∷ [])
            × (my_pthread_yield os s ≡ some (returned, s))
          ⊎ ((m : Ptr) × (k : List Ptr) × (s.rqs (s.tcbs s.current).thread_priority
                ≡ s.current ∷ m ∷ k)
              × (my_pthread_yield os s ≡ scheduler os (record s { fc = yield }))
              × Scheduled owner (my_pthread_yield os s))
    by_rest [] e = inl (e, ground (arith, (c_Named owner s r).0, r.queues.ready, r.low, e))
    by_rest (m ∷ q) e =
        let t = record s { fc = yield } in
        let (o, s', step, ends) =
          scheduler-flagged os owner t
            (record {
              queues = record {
                ready = r.queues.ready;
                levels = r.queues.levels;
                parked = r.queues.parked;
              };
              rest = r.rest;
              front = r.front;
              low = r.low;
            })
            idle accepts (ground arith) in
        let same : my_pthread_yield os s ≡ scheduler os t =
          ground (arith, (c_Named owner s r).0, r.queues.ready, r.low, e) in
        inr (m, q, e, same, (o, s', same ∙ step, ends))

-- A round of the loop of my_pthread_mutex_lock on a running machine, with the memory manager idle, a
-- timer that is accepted and a mutex that is not NULL, does not fault. A free mutex is locked for the
-- current thread. For a locked one the thread notes the id of the mutex and goes to the end of the
-- waiting queue, the join queue stays, and the scheduler either returns with every run queue empty or
-- switches to the thread at the front of a level.
pub mutex_lock-Scheduled :
    (os : Platform) (owner : ℕ → Ptr) (m : Ptr) (s : Machine)
    → Running owner s
    → s.mm.mem_flag ≡ false
    → ((usec : ℕ) → os.setitimer usec ≡ true)
    → m ≢ null
    → ((s' : Machine) × ((s.mutexes m).locked ≡ false)
        × (mutex_lock os m s ≡ some (done success, s'))
        × ((s'.mutexes m).locked ≡ true)
        × ((s'.mutexes m).tid ≡ (s.tcbs s.current).tid)
        × (s'.rqs ≡ s.rqs))
      ⊎ ((o : Outcome) × (s' : Machine) × ((s.mutexes m).locked ≡ true)
          × (mutex_lock os m s ≡ some (waits o, s'))
          × (s'.waiting_queue ≡ s.waiting_queue ++ s.current ∷ [])
          × (s'.join_queue ≡ s.join_queue)
          × ((s'.tcbs s.current).mid ≡ (s.mutexes m).mid)
          × Settled owner o s')
unfolding mutex_lock
mutex_lock-Scheduled os owner m s r idle accepts ne = elim (Bool-cases (s.mutexes m).locked) [
  | inr free ↦ inl (
    record s {
      mutexes = update s.mutexes m (record (s.mutexes m) {
        locked = true;
        tid = (s.tcbs s.current).tid;
        ready_waiting = false;
      });
    },
    free,
    ground (arith, ne, free, (c_Named owner s r).0),
    ground arith,
    ground arith,
    refl,
  )
  | inl taken ↦
      let t = record (s.tcbs s.current) { mid = (s.mutexes m).mid } in
      let s1 = record (set_tcb s.current t s) { fc = blocked } in
      let r1 = Running-noted owner s t blocked refl refl r in
      let (o, s', step, settled) = scheduler-flagged os owner s1 r1 idle accepts (ground arith) in
      let (waiting, joining, mids) = scheduler_blocked os owner s1 s' o r1 idle step refl in
      inr (
        o,
        s',
        taken,
        ground (arith, ne, taken, (c_Named owner s r).0, step),
        waiting,
        joining,
        mids s.current ∙ ground arith,
        settled,
      )
]
