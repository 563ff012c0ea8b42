-- ===== src/Threads/Mutexes.antt =====
-- The mutex operations of my_pthread.c, on the mutex at an address.
use asst.Base.{
  ℕ, ◌+◌, ◌%◌, ◌^◌, true, false, not, Option, none, some, List, [], ◌∷◌, Ptr, null, minus_one, ◌==◌,
  if◌then◌else◌, update, ◌>>=◌,
}
use asst.Types.{Tcb, Mutex, blocked, Platform}
use asst.Threads.{Machine, current_tcb, set_tcb, rq_at, set_rq, dequeuee, enqueuee}
use asst.Threads.Scheduler.{Outcome, scheduler}

abbrev pub set_mutex : Ptr → Mutex → Machine → Machine
set_mutex m v s = record s { mutexes = update s.mutexes m v }

-- The result of a call: 0, or -1.
pub data Status : Type 0 where
  success : Status
  failure : Status

unfoldable pub mutex_init : Ptr → Machine → Option (Status × Machine)
mutex_init m s =
    if m == null
    then none
    else some (
      success,
      set_mutex m
          (record { mid = s.mutex_count; locked = false; tid = minus_one; ready_waiting = false })
          (record s { mutex_count = (s.mutex_count + 1) % 2 ^ 32 }),
    )

-- The end of a lock, or a round of its loop: the thread waits, and the loop tests again when the
-- scheduler has come back to it.
pub data LockResult : Type 0 where
  done : Status → LockResult
  waits : Outcome → LockResult

unfoldable pub mutex_lock : Platform → Ptr → Machine → Option (LockResult × Machine)
unfolding scheduler
mutex_lock os m s = if m == null then some (done failure, s) else (do
  t ← current_tcb s
  let v = s.mutexes m
  if v.locked
      then (do
        (outcome, s') ←
            scheduler os (record (set_tcb s.current (record t { mid = v.mid }) s) { fc = blocked })
        some (waits outcome, s'))
      else some (
        done success,
        set_mutex m (record v { locked = true; tid = t.tid; ready_waiting = false }) s,
      ))

-- The first thread of a queue that waits for the mutex `mid`.
unfoldable pub find_waiter : ℕ → (Ptr → Tcb) → List Ptr → Option Ptr
find_waiter mid tcbs [] = none
find_waiter mid tcbs (n ∷ q) = if mid == (tcbs n).mid then some n else find_waiter mid tcbs q

-- The thread `temp` that was found is marked, and the front of the waiting queue is moved.
unfoldable pub wake_waiter : Ptr → Ptr → Machine → Option Machine
unfolding dequeuee enqueuee
wake_waiter m temp s0 = do
  let s1 = set_tcb temp (record (s0.tcbs temp) { mid = minus_one; thread_priority = 0 }) s0
  let s2 = set_mutex m (record (s1.mutexes m) { ready_waiting = true }) s1
  let (n, rest) = dequeuee s2.waiting_queue
  let s3 = record s2 { waiting_queue = rest }
  q ← rq_at 0 s3
  q' ← enqueuee n q
  some (set_rq 0 q' s3)

unfoldable pub mutex_unlock : Ptr → Machine → Option (Status × Machine)
unfolding find_waiter wake_waiter
mutex_unlock m s =
    if m == null
    then some (failure, s)
    else (let v = s.mutexes m in
        if not v.locked then some (failure, s) else (do
          t ← current_tcb s
          if not (v.tid == t.tid)
              then some (failure, s)
              else (let s1 = set_mutex m (record v { locked = false; tid = minus_one }) s in
                  if not s1.ready then none else elim (find_waiter v.mid s1.tcbs s1.waiting_queue) [
                    | none ↦ some (success, s1)
                    | some temp ↦ (do s2 ← wake_waiter m temp s1; some (success, s2))
                  ])))

unfoldable pub mutex_destroy : Ptr → Machine → Option (Status × Machine)
unfolding find_waiter
mutex_destroy m s =
    if m == null
    then some (failure, s)
    else (let v = s.mutexes m in
        if v.locked
        then some (failure, s)
        else (if v.ready_waiting
            then some (failure, s)
            else if not s.ready
            then none
            else elim (find_waiter v.mid s.tcbs s.waiting_queue) [
              | none ↦ some (success, s)
              | some n ↦ some (failure, s)
            ]))
