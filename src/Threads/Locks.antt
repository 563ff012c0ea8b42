-- ===== src/Threads/Locks.antt =====
-- The mutex operations together: what a thread that holds a mutex keeps the others from.
use asst.Base.{
  ◌≡◌, ◌≢◌, ◌+◌, ◌%◌, ◌^◌, refl, true, false, none, some, List, [], ◌∷◌, ◌++◌, Ptr, null, minus_one,
  update, arith,
}
use asst.Types.{Platform}
use asst.Threads.{Machine, dequeuee, enqueuee}
use asst.Threads.Mutexes.{
  success, failure, done, set_mutex, mutex_init, mutex_lock, mutex_unlock, mutex_destroy,
  find_waiter, wake_waiter,
}

-- The machine once the current thread has taken the mutex `m`.
abbrev held : Ptr → Machine → Machine
held m s =
    set_mutex m
      (record (s.mutexes m) { locked = true; tid = (s.tcbs s.current).tid; ready_waiting = false })
      s

mutex_lock-held :
    (os : Platform) (m : Ptr) (s : Machine)
    → m ≢ null
    → s.current ≢ null
    → (s.mutexes m).locked ≡ false
    → mutex_lock os m s ≡ some (done success, held m s)
unfolding mutex_lock
mutex_lock-held os m s ne someone free = ground (arith, ne, someone, free)

-- A free mutex that the current thread locks keeps every other thread off: while another thread
-- `n`, of another id, is the current one, unlock and destroy give -1 and change nothing.
pub mutex_lock-excludes :
    (os : Platform) (m n : Ptr) (s : Machine)
    → m ≢ null
    → s.current ≢ null
    → (s.mutexes m).locked ≡ false
    → n ≢ null
    → (s.tcbs n).tid ≢ (s.tcbs s.current).tid
    → (s' : Machine) × (mutex_lock os m s ≡ some (done success, s'))
      × (mutex_unlock m (record s' { current = n }) ≡ some (failure, record s' { current = n }))
      × (mutex_destroy m (record s' { current = n }) ≡ some (failure, record s' { current = n }))
unfolding mutex_unlock mutex_destroy
mutex_lock-excludes os m n s ne someone free other_node other = (
  held m s,
  mutex_lock-held os m s ne someone free,
  ground (arith, ne, someone, other_node, other),
  ground (arith, ne),
)

-- A mutex that was made, locked and unlocked by one thread is free, and can be destroyed: from a
-- machine with its queues, where no thread waits for the new mutex.
pub mutex_init-lock-unlock :
    (os : Platform) (m : Ptr) (s : Machine)
    → m ≢ null
    → s.current ≢ null
    → s.ready ≡ true
    → find_waiter s.mutex_count s.tcbs s.waiting_queue ≡ none
    → (s1 : Machine) × (s2 : Machine) × (s3 : Machine) × (mutex_init m s ≡ some (success, s1))
      × (mutex_lock os m s1 ≡ some (done success, s2))
      × (mutex_unlock m s2 ≡ some (success, s3))
      × ((s3.mutexes m).locked ≡ false)
      × (mutex_destroy m s3 ≡ some (success, s3))
unfolding mutex_init mutex_unlock mutex_destroy
mutex_init-lock-unlock os m s ne someone ready no_waiter =
    let s1 =
      set_mutex m
        (record { mid = s.mutex_count; locked = false; tid = minus_one; ready_waiting = false })
        (record s { mutex_count = (s.mutex_count + 1) % 2 ^ 32 }) in
    let s2 = held m s1 in
    let s3 = set_mutex m (record (s2.mutexes m) { locked = false; tid = minus_one }) s2 in
    (
      s1,
      s2,
      s3,
      ground (arith, ne),
      mutex_lock-held os m s1 ne someone (ground (arith)),
      ground (arith, ne, someone, ready, no_waiter),
      ground arith,
      ground (arith, ne, ready, no_waiter),
    )

-- An unlock by the owner of a mutex, where `n` is the first thread that waits for it, frees the
-- mutex, sets the mid of `n` to -1, and moves the front of the waiting queue to the end of level 0,
-- whether or not that is `n`: the rest of the waiting queue stays.
pub mutex_unlock-front :
    (m front n : Ptr) (rest : List Ptr) (s : Machine)
    → m ≢ null
    → s.current ≢ null
    → s.ready ≡ true
    → (s.mutexes m).locked ≡ true
    → (s.mutexes m).tid ≡ (s.tcbs s.current).tid
    → s.waiting_queue ≡ front ∷ rest
    → front ≢ null
    → find_waiter (s.mutexes m).mid s.tcbs s.waiting_queue ≡ some n
    → (s' : Machine) × (mutex_unlock m s ≡ some (success, s'))
      × ((s'.mutexes m).locked ≡ false)
      × (s'.rqs 0 ≡ s.rqs 0 ++ front ∷ [])
      × (s'.waiting_queue ≡ rest)
      × ((s'.tcbs n).mid ≡ minus_one)
unfolding mutex_unlock wake_waiter dequeuee enqueuee
mutex_unlock-front m front n rest s ne someone ready is_locked owns e node found =
    let free = set_mutex m (record (s.mutexes m) { locked = false; tid = minus_one }) s in
    (
      record free {
        tcbs = update s.tcbs n (record (s.tcbs n) { mid = minus_one; thread_priority = 0 });
        mutexes = update free.mutexes m (record (free.mutexes m) { ready_waiting = true });
        waiting_queue = rest;
        rqs = update s.rqs 0 (s.rqs 0 ++ front ∷ []);
      },
      ground (arith, ne, someone, ready, is_locked, owns, e, node, found),
      ground arith,
      ground arith,
      refl,
      ground arith,
    )
