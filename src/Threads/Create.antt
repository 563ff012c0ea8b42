-- ===== src/Threads/Create.antt =====
-- createScheduler and my_pthread_create of my_pthread.c. A context is opaque: it goes by the
-- address of its `ucontext_t`.
use asst.Base.{
  ℕ, zero, suc, ◌+◌, ◌%◌, ◌^◌, true, false, Option, some, [], Ptr, null, minus_one, if◌then◌else◌,
  ◌>>=◌,
}
use asst.Types.{
  Tcb, Platform, num_priorities, stack_size, sizeof_tcb, sizeof_context_node, sizeof_queue,
  sizeof_levels,
}
use asst.Threads.{Machine, set_tcb, rq_at, set_rq, enqueuee, clear_mem_flag, allocate}
use asst.Threads.Scheduler.{Outcome, scheduler}

-- `k` more queues, from level `i` on, each empty.
unfoldable pub create_queues : Platform → ℕ → ℕ → Machine → Option Machine
unfolding allocate
create_queues os zero i s = some s
create_queues os (suc k) i s = do
  (q, s') ← allocate os sizeof_queue s
  create_queues os k (i + 1) (set_rq i [] s')

unfoldable pub create_scheduler : Platform → Machine → Option Machine
unfolding create_queues allocate
create_scheduler os s = do
  (levels, s1) ← allocate os sizeof_levels s
  s2 ← create_queues os num_priorities 0 (record s1 { ready = true })
  (waiting, s3) ← allocate os sizeof_queue s2
  (joining, s4) ← allocate os sizeof_queue (record s3 { waiting_queue = [] })
  some (record s4 { join_queue = [] })

-- A fresh thread block.
abbrev pub new_tcb : ℕ → Ptr → Tcb
new_tcb tid context = record {
  tid = tid;
  thread_context = context;
  thread_priority = 0;
  join_id = minus_one;
  value_ptr = null;
  mid = minus_one;
  malloc_frame = 0;
  first_page = null;
}

-- `enqueuee(n, rqs[0])` of a node with the block `t`.
unfoldable pub start : Ptr → Tcb → Machine → Option Machine
unfolding enqueuee
start n t s = do q ← rq_at 0 s; q' ← enqueuee n q; some (set_rq 0 q' (set_tcb n t s))

-- The first call makes the queues, the new thread 1, and the thread 0 of the caller, in that order.
unfoldable pub create_first : Platform → Ptr → Ptr → Machine → Option Machine
unfolding create_scheduler start allocate
create_first os new_context new_node s0 = do
  s1 ← create_scheduler os (record s0 { first_thread = false })
  (old_context, s2) ← allocate os os.sizeof_ucontext s1
  (old_node, s3) ← allocate os sizeof_context_node s2
  (old_block, s4) ← allocate os sizeof_tcb s3
  (stack, s5) ← allocate os stack_size s4
  s6 ← start new_node (new_tcb 1 new_context) s5
  start old_node (new_tcb 0 old_context) (record s6 { current = old_node })

unfoldable pub create_next : Platform → Ptr → Ptr → Machine → Option Machine
unfolding start allocate
create_next os new_context new_node s = do
  (stack, s1) ← allocate os stack_size s
  start new_node (new_tcb s1.thread_count new_context) s1

-- `my_pthread_create`: the id that `*thread` gets, and what the scheduler does next. The exit
-- context and its stack of 2080 bytes are made first.
unfoldable pub my_pthread_create : Platform → Machine → Option (ℕ × Outcome × Machine)
unfolding create_first create_next allocate scheduler
my_pthread_create os s0 = do
  let s = if s0.first_thread then clear_mem_flag s0 else s0
  (exit_context, s1) ← allocate os os.sizeof_ucontext s
  (exit_stack, s2) ← allocate os 2080 s1
  (new_context, s3) ← allocate os os.sizeof_ucontext s2
  (new_block, s4) ← allocate os sizeof_tcb s3
  (new_node, s5) ← allocate os sizeof_context_node s4
  s6 ←
      (if s5.first_thread
        then create_first os new_context new_node s5
        else create_next os new_context new_node s5)
  let thread = s6.thread_count
  (outcome, s7) ← scheduler os (record s6 { thread_count = (thread + 1) % 2 ^ 32 })
  some (thread, outcome, s7)
