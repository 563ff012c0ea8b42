-- ===== src/Threads/Join.antt =====
-- my_pthread_exit and my_pthread_join of my_pthread.c.
use asst.Base.{
  ℕ, zero, suc, ◌+◌, ◌-◌, ◌%◌, ◌^◌, Option, none, some, List, [], ◌∷◌, Ptr, null, ltb, ◌==◌,
  if◌then◌else◌, length, ◌>>=◌,
}
use asst.Types.{ExitNode, pexit, join, Platform, sizeof_exit_node}
use asst.Threads.{Machine, current_tcb, set_tcb, rq_at, set_rq, dequeuee, enqueuee, allocate}
use asst.Threads.Scheduler.{Outcome, scheduler}

-- One round of the loop over the join queue: its front is woken if it waits for the thread `tid`,
-- and goes to the back of the join queue otherwise.
unfoldable pub wake_front : ℕ → Ptr → Machine → Option Machine
unfolding dequeuee enqueuee
wake_front tid value_ptr s0 = do
  let (temp, rest) = dequeuee s0.join_queue
  let s = record s0 { join_queue = rest }
  if temp == null
      then none
      else (if (s.tcbs temp).join_id == tid
          then (do
            let s' =
                set_tcb temp (record (s.tcbs temp) { value_ptr = value_ptr; thread_priority = 0 }) s
            q ← rq_at 0 s'
            q' ← enqueuee temp q
            some (set_rq 0 q' s'))
          else (do q ← enqueuee temp s.join_queue; some (record s { join_queue = q })))

-- The loop counts the join queue anew in each round. `fuel` bounds the rounds.
unfoldable pub wake_joiners : ℕ → ℕ → ℕ → Ptr → Machine → Option Machine
unfolding wake_front
wake_joiners zero i tid value_ptr s = if ltb i (length s.join_queue) then none else some s
wake_joiners (suc f) i tid value_ptr s =
    let rest = (do s' ← wake_front tid value_ptr s; wake_joiners f (i + 1) tid value_ptr s') in
    if ltb i (length s.join_queue) then rest else some s

unfoldable pub my_pthread_exit : Platform → Ptr → Machine → Option (Outcome × Machine)
unfolding wake_joiners allocate scheduler
my_pthread_exit os value_ptr s0 = do
  (e, s1) ← allocate os sizeof_exit_node s0
  t ← current_tcb s1
  s2 ← wake_joiners (length s1.join_queue) 0 t.tid value_ptr (record s1 { fc = pexit })
  scheduler os
      (record s2 { exit_list = record { tid = t.tid; value_ptr = value_ptr } ∷ s2.exit_list })

-- The value with which a thread exited.
unfoldable pub find_exit : ℕ → List ExitNode → Option Ptr
find_exit thread [] = none
find_exit thread (e ∷ es) = if e.tid == thread then some e.value_ptr else find_exit thread es

-- -1; 0 with the value for `*value_ptr`; or a call of the scheduler, behind which `join_value`
-- gives the value.
pub data JoinResult : Type 0 where
  no_thread : JoinResult
  exited : Ptr → JoinResult
  waits : Outcome → JoinResult

unfoldable pub my_pthread_join : Platform → ℕ → Machine → Option (JoinResult × Machine)
unfolding find_exit scheduler
my_pthread_join os thread s =
    if ltb ((s.thread_count + 2 ^ 32 - 1) % 2 ^ 32) thread
    then some (no_thread, s)
    else elim (find_exit thread s.exit_list) [
      | some v ↦ some (exited v, s)
      | none ↦ (do
        t ← current_tcb s
        (outcome, s') ←
            scheduler os
              (record (set_tcb s.current (record t { join_id = thread }) s) { fc = join })
        some (waits outcome, s'))
    ]

-- `*value_ptr = current->thread_block->value_ptr`, when the thread runs again.
unfoldable pub join_value : Machine → Option Ptr
join_value s = do t ← current_tcb s; some t.value_ptr
