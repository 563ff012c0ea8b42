-- ===== src/Threads/System.antt =====
-- The calls of the thread library and the timer, one after the other.
use asst.Base.{ℕ, ◌+◌, ◌^◌, ◌<◌, ◌≤◌, ◌≡◌, ◌≢◌, false, ◌⊎◌, Option, some, Ptr, null, ◌>>=◌}
use asst.Types.{Platform, sizeof_exit_node}
use asst.Threads.{Machine}
use asst.Threads.Scheduler.{timer_triggered, my_pthread_yield, front}
use asst.Threads.Invariant.{Running}
use asst.Threads.Choice.{EmptyFrom}
use asst.Threads.Create.{my_pthread_create}
use asst.Threads.Join as Joins
use asst.Threads.Mutexes.{mutex_init, mutex_lock, mutex_unlock, mutex_destroy, find_waiter}
use asst.Threads.Later.{Bounded}
use asst.Threads.Region.{create_bytes, block_end, Inside}

-- What may happen while a thread runs: the timer fires, or the thread calls the library.
-- `lock_round` is one round of the loop of my_pthread_mutex_lock, up to where it ends or the scheduler
-- is left: the thread that comes back begins the next round.
pub data Call : Type 0 where
  tick : Call
  yield : Call
  create : Call
  exit : Ptr → Call
  join : ℕ → Call
  init : Ptr → Call
  lock_round : Ptr → Call
  unlock : Ptr → Call
  destroy : Ptr → Call

-- The machine behind a call, and behind the switch of contexts that ends it.
unfoldable pub call : Platform → Call → Machine → Option Machine
unfolding timer_triggered my_pthread_yield my_pthread_create Joins.my_pthread_exit
    Joins.my_pthread_join mutex_init mutex_lock mutex_unlock mutex_destroy
call os tick s = do (o, t) ← timer_triggered os s; some t
call os yield s = do (o, t) ← my_pthread_yield os s; some t
call os create s = do (thread, o, t) ← my_pthread_create os s; some t
call os (exit v) s = do (o, t) ← Joins.my_pthread_exit os v s; some t
call os (join thread) s = do (r, t) ← Joins.my_pthread_join os thread s; some t
call os (init m) s = do (r, t) ← mutex_init m s; some t
call os (lock_round m) s = do (r, t) ← mutex_lock os m s; some t
call os (unlock m) s = do (r, t) ← mutex_unlock m s; some t
call os (destroy m) s = do (r, t) ← mutex_destroy m s; some t

-- What a program keeps to: mutexes are not NULL, ids do not run out, the block of the memory manager
-- has room for what a creation or an exit takes, and a mutex is handed over in the order of the
-- waiting queue.
abbrev pub Allowed : Platform → Call → Machine → Type 0
Allowed os create s =
    (s.thread_count + 1 < 2 ^ 32) × (s.mm.os_mem_ptr + create_bytes os ≤ block_end s)
Allowed os (exit v) s = s.mm.os_mem_ptr + sizeof_exit_node ≤ block_end s
Allowed os (init m) s = m ≢ null
Allowed os (lock_round m) s = m ≢ null
Allowed os (unlock m) s =
    (n : Ptr)
    → find_waiter (s.mutexes m).mid s.tcbs s.waiting_queue ≡ some n
    → front s.waiting_queue ≡ n
Allowed os _ s = Unit

-- A machine between two calls.
pub record Live (owner : ℕ → Ptr) (s : Machine) : Type 0 where
  pub running : Running owner s
  pub idle : s.mm.mem_flag ≡ false
  pub set_up : s.mm.first_call ≡ false
  pub later : s.first_thread ≡ false
  pub bounded : Bounded owner s.mm.os_mem_ptr s.thread_count
  pub some_thread : 0 < s.thread_count
  pub ids : s.thread_count < 2 ^ 32
  pub inside : Inside s

abbrev pub Stopped : Machine → Type 0
Stopped s = EmptyFrom s.rqs 0 10

-- The end of a call.
abbrev pub After : Machine → Type 0
After t = ((owner : ℕ → Ptr) × Live owner t) ⊎ Stopped t

-- The machines that a run from `s` comes to. It goes on only from a machine with a thread in a run
-- queue.
pub data Run (os : Platform) (s : Machine) : Machine → Type 0 where
  start : Run os s s
  next :
      {t t' : Machine} (c : Call)
      → Run os s t
      → ¬ Stopped t
      → Allowed os c t
      → call os c t ≡ some t'
      → Run os s t'
