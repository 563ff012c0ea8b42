-- ===== src/Threads/Scheduler.antt =====
-- updateQueue, scheduler, timer_triggered and my_pthread_yield of my_pthread.c.
use asst.Base.{
  ℕ, zero, suc, ◌+◌, ◌-◌, ◌*◌, ◌%◌, ◌^◌, Bool, true, false, Option, none, some, List, [], ◌∷◌, ◌++◌,
  Ptr, null, ltb, ◌==◌, if◌then◌else◌, ◌>>=◌,
}
use asst.Types.{
  FlagCalled, none_flag, timer, yield, pexit, join, first, blocked, Platform, num_priorities,
  maint_cycle,
}
use asst.Memory.Swap.{lock_mem}
use asst.Threads.{Machine, current_tcb, set_tcb, rq_at, set_rq, dequeuee, enqueuee, requeue}

-- `thread_priority = 0` for each node of a queue.
unfoldable pub reset_priorities : List Ptr → Machine → Machine
reset_priorities [] s = s
reset_priorities (n ∷ q) s =
    reset_priorities q (set_tcb n (record (s.tcbs n) { thread_priority = 0 }) s)

-- The threads of the lowest level go behind those of the highest.
unfoldable pub maintain : Machine → Option Machine
unfolding reset_priorities
maintain s0 =
    if ltb maint_cycle s0.maintenance_count
    then (do
      let s = record s0 { maintenance_count = 0 }
      highest ← rq_at 0 s
      lowest ← rq_at (num_priorities - 1) s
      elim lowest [
        | [] ↦ some s
        | n ∷ q ↦
            (let merged = highest ++ n ∷ q in
              some (reset_priorities merged (set_rq (num_priorities - 1) [] (set_rq 0 merged s))))
      ])
    else some s0

-- The thread that used up its time goes down a level, to the end of its queue.
unfoldable pub demote : Machine → Option Machine
unfolding requeue
demote s = do
  t ← current_tcb s
  s' ←
      (if ltb t.thread_priority (num_priorities - 1)
        then (let p = t.thread_priority + 1 in
            requeue (p - 1) p (set_tcb s.current (record t { thread_priority = p }) s))
        else requeue t.thread_priority t.thread_priority s)
  some (record s' { fc = none_flag })

-- The current thread moves to the end of its queue.
unfoldable pub rotate : Machine → Option Machine
unfolding requeue
rotate s = do t ← current_tcb s; requeue t.thread_priority t.thread_priority s

-- The front of the current queue, taken out.
unfoldable pub take_current : Machine → Option (Ptr × Machine)
unfolding dequeuee
take_current s = do
  t ← current_tcb s
  q ← rq_at t.thread_priority s
  let (n, rest) = dequeuee q
  some (n, set_rq t.thread_priority rest s)

-- The switch of updateQueue: what it returns at once, `none` where it goes on behind the switch.
unfoldable pub dispatch : FlagCalled → Machine → Option (Option Bool × Machine)
unfolding demote rotate take_current enqueuee
dispatch none_flag s = some (some true, s)
dispatch first s = some (some false, s)
dispatch timer s = do s' ← demote s; some (none, s')
dispatch yield s = do s' ← rotate s; some (none, record s' { fc = none_flag })
dispatch pexit s = do (n, s') ← take_current s; some (none, record s' { current = null })
dispatch join s = do
  (n, s') ← take_current s
  q ← enqueuee n s'.join_queue
  some (none, record s' { join_queue = q; fc = none_flag })
dispatch blocked s = do
  (n, s') ← take_current s
  q ← enqueuee n s'.waiting_queue
  some (none, record s' { waiting_queue = q; fc = none_flag })

-- `updateQueue`: `true` stands for 1, the current thread resumes.
unfoldable pub update_queue : Machine → Option (Bool × Machine)
unfolding dispatch maintain
update_queue s = do
  (result, s') ← dispatch s.fc s
  elim result [ some resume ↦ some (resume, s') | none ↦ (do s'' ← maintain s'; some (false, s'')) ]

-- The first queue that is not empty, among `k` levels from `i` on.
unfoldable pub first_queue : ℕ → ℕ → Machine → Option (List Ptr)
first_queue zero i s = some []
first_queue (suc k) i s = do
  q ← rq_at i s
  elim q [ [] ↦ first_queue k (i + 1) s | n ∷ rest ↦ some (n ∷ rest) ]

-- Its level, `num_priorities` if all are empty.
unfoldable pub first_level : ℕ → ℕ → Machine → ℕ
first_level zero i s = i
first_level (suc k) i s =
    let rest = first_level k (i + 1) s in elim (s.rqs i) [ [] ↦ rest | n ∷ q ↦ i ]

-- The front of a queue, NULL if it is empty.
abbrev pub front : List Ptr → Ptr
front [] = null
front (n ∷ q) = n

-- The thread to run where the front `n` of the first queue, with `rest` behind it, is the current
-- one: the next in the queue, or the first of the levels below, or the current one after all.
unfoldable pub next_context : ℕ → List Ptr → Machine → Option (Ptr × Machine)
unfolding first_queue rotate
next_context level rest s = do
  q ← elim rest [
    | [] ↦ first_queue (num_priorities - (level + 1)) (level + 1) s
    | m ∷ r ↦ some (m ∷ r)
  ]
  s' ← rotate s
  some (if front q == null then s'.current else front q, s')

-- The choice of scheduler: `none` if every queue is empty.
unfoldable pub choose : Machine → Option (Option (Ptr × Machine))
unfolding first_queue first_level next_context
choose s = do
  q ← first_queue num_priorities 0 s
  elim q [
    | [] ↦ some none
    | n ∷ rest ↦
        if s.current == null
        then some (some (n, s))
        else (if (s.tcbs n).tid == (s.tcbs s.current).tid
            then (do
              chosen ← next_context (first_level num_priorities 0 s) rest s
              some (some chosen))
            else some (some (n, s)))
  ]

-- How a call of the scheduler ends: it returns to its caller, or setcontext or swapcontext runs.
pub data Outcome : Type 0 where
  returned : Outcome
  set_context : Ptr → Outcome
  swap_context : Ptr → Ptr → Outcome

-- The microseconds of a level.
abbrev pub quantum : ℕ → ℕ
quantum t = (25 + 25 * t) * 1000

-- The switch to `n`, after the timer. If setitimer fails the old timer stays.
unfoldable pub switch_to : Platform → Ptr → Machine → Option (Outcome × Machine)
unfolding lock_mem
switch_to os n s0 =
    let usec = quantum (s0.tcbs n).thread_priority in
    if os.setitimer usec
    then (let s = record s0 { timer = some usec } in
        let saved =
          (if s.current == null
            then none
            else some (swap_context s.current n, record s { current = n; mm = lock_mem s.mm })) in
        elim s.fc [
          | pexit ↦ some (set_context n, record s { current = n; fc = none_flag })
          | _ ↦ saved
        ])
    else some (returned, s0)

-- The return while the memory manager is at work: only the timer is set anew.
unfoldable pub postpone : Platform → Machine → Option (Outcome × Machine)
postpone os s = do
  t ← current_tcb s
  let usec = quantum t.thread_priority
  some (returned, record s { timer = if os.setitimer usec then some usec else s.timer })

unfoldable pub scheduler : Platform → Machine → Option (Outcome × Machine)
unfolding update_queue choose switch_to postpone
scheduler os s0 = if s0.mm.mem_flag then postpone os s0 else (do
  (resume, s1) ← update_queue s0
  if resume then some (returned, s1) else (do
    let s2 = record s1 { maintenance_count = (s1.maintenance_count + 1) % 2 ^ 32 }
    chosen ← choose s2
    elim chosen [ none ↦ some (returned, s2) | some (n, s3) ↦ switch_to os n s3 ]))

unfoldable pub timer_triggered : Platform → Machine → Option (Outcome × Machine)
unfolding scheduler
timer_triggered os s = scheduler os (record s { fc = timer })

-- `front->next == NULL`: the queue of the current thread has no second node. A fault if it has none.
unfoldable pub my_pthread_yield : Platform → Machine → Option (Outcome × Machine)
unfolding scheduler
my_pthread_yield os s = do
  t ← current_tcb s
  q ← rq_at t.thread_priority s
  elim q [
    | [] ↦ none
    | n ∷ rest ↦ elim rest [
      | [] ↦ some (returned, s)
      | m ∷ r ↦ scheduler os (record s { fc = yield })
    ]
  ]
