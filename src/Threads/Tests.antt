-- ===== src/Threads/Tests.antt =====
-- The theorems of the thread library at a machine with three threads.
use asst.Base.{
  inr, ℕ, zero, suc, ◌<◌, ◌≡◌, true, false, refl, Option, none, some, List, [], ◌∷◌, Ptr, null,
  update, ◌==◌, if◌then◌else◌, arith, minus_one,
}
use asst.Types.{Tcb, Platform, timer, first, threadreq}
use asst.Memory.{Mm}
use asst.Memory.Tests.{block_mm}
use asst.Memory.Allocate.{myallocate}
use asst.Memory.Chunk.{num_of_pages}
use asst.Threads.{Machine}
use asst.Threads.Scheduler.{Outcome, returned, swap_context, scheduler, timer_triggered}
use asst.Threads.Create.{new_tcb, my_pthread_create}
use asst.Threads.Begin.{Started, my_pthread_create-Started}
use asst.Threads.Join.{wake_joiners}
use asst.Threads.Mutexes.{
  success, failure, done, mutex_init, mutex_lock, mutex_unlock, mutex_destroy, find_waiter,
}
use asst.Threads.Invariant.{LevelsOf, Running}
use asst.Threads.Joiners.{Kept, HalfWoken, wake_joiners-total, wake_joiners-half}
use asst.Threads.Locks.{mutex_lock-excludes, mutex_init-lock-unlock, mutex_unlock-front}
use asst.Threads.Stuck.{myallocate-refused-timer}

abbrev pub os : Platform
os = record { memalign = 4096; sigaction = true; setitimer = λ usec. true; sizeof_ucontext = 936 }

-- Thread 1 at 100, thread 2 at 200, and every other address thread 0.
abbrev blocks : Ptr → Tcb
blocks n = if n == 100 then new_tcb 1 0 else if n == 200 then new_tcb 2 0 else new_tcb 0 0

abbrev pub owner : ℕ → Ptr
owner tid = if tid == 0 then 300 else if tid == 1 then 100 else if tid == 2 then 200 else null

-- Threads 1 and 2 in level 0, the first of them running until its time is up.
abbrev pub machine : Machine
machine = record {
  mm = block_mm;
  tcbs = blocks;
  mutexes = λ m. record { mid = 0; locked = false; tid = minus_one; ready_waiting = false };
  ready = true;
  rqs = update (λ i. []) 0 (100 ∷ 200 ∷ []);
  waiting_queue = [];
  join_queue = [];
  current = 100;
  exit_list = [];
  fc = timer;
  first_thread = false;
  maintenance_count = 7;
  thread_count = 3;
  mutex_count = 1;
  timer = none;
}

machine-LevelsOf : LevelsOf owner blocks machine.rqs
machine-LevelsOf zero =
    (((refl, omega arith, refl), ((refl, omega arith, refl), tt)), (((omega arith), tt), (tt, tt)))
machine-LevelsOf (suc i) = ground arith

pub machine-Running : Running owner machine
machine-Running = record {
  queues = record { ready = refl; levels = machine-LevelsOf; parked = (tt, tt, tt, tt, tt) };
  rest = 200 ∷ [];
  front = refl;
  low = omega arith;
}

-- The outcome of a call, and the queues of levels 0 and 1 behind it.
abbrev seen : Option (Outcome × Machine) → Option (Outcome × List Ptr × List Ptr)
seen none = none
seen (some (o, s)) = some (o, s.rqs 0, s.rqs 1)

scheduler_timer : seen (scheduler os machine) ≡ some (swap_context 100 200, 200 ∷ [], 100 ∷ [])
unfolding scheduler
scheduler_timer = refl

-- Threads 1 and 2 wait for thread 0.
abbrev joining : Machine
joining = record machine {
  tcbs = λ n. record (blocks n) { join_id = 0 };
  rqs = λ i. [];
  join_queue = 100 ∷ 200 ∷ [];
  current = 300;
}

wake_joiners-total_example : Kept joining (wake_joiners 2 0 0 77 joining)
wake_joiners-total_example = wake_joiners-total 0 77 joining refl (omega arith, (omega arith, tt))

wake_joiners-half_example : HalfWoken 0 (100 ∷ 200 ∷ []) joining (wake_joiners 2 0 0 77 joining)
wake_joiners-half_example =
    wake_joiners-half 0 77 joining refl ((omega arith, refl), ((omega arith, refl), tt))

mutex_lock-excludes_example :
    (s' : Machine) × (mutex_lock os 50 machine ≡ some (done success, s'))
    × (mutex_unlock 50 (record s' { current = 200 }) ≡ some (failure, record s' { current = 200 }))
    × (mutex_destroy 50 (record s' { current = 200 }) ≡ some (failure, record s' { current = 200 }))
mutex_lock-excludes_example =
    mutex_lock-excludes os 50 200 machine (omega arith) (omega arith) refl (omega arith)
      (omega arith)

no_waiter : find_waiter 1 blocks [] ≡ none
unfolding find_waiter
no_waiter = refl

mutex_init-lock-unlock_example :
    (s1 : Machine) × (s2 : Machine) × (s3 : Machine) × (mutex_init 50 machine ≡ some (success, s1))
    × (mutex_lock os 50 s1 ≡ some (done success, s2))
    × (mutex_unlock 50 s2 ≡ some (success, s3))
    × ((s3.mutexes 50).locked ≡ false)
    × (mutex_destroy 50 s3 ≡ some (success, s3))
mutex_init-lock-unlock_example =
    mutex_init-lock-unlock os 50 machine (omega arith) (omega arith) refl no_waiter

-- Thread 1 waits for another mutex, and thread 2 behind it for the mutex 7 that thread 0 holds.
abbrev locking : Machine
locking = record machine {
  tcbs = λ n. record (blocks n) { mid = if n == 200 then 7 else 3 };
  mutexes = λ m. record { mid = 7; locked = true; tid = 0; ready_waiting = false };
  rqs = update (λ i. []) 0 (300 ∷ []);
  waiting_queue = 100 ∷ 200 ∷ [];
  current = 300;
}

found : find_waiter 7 locking.tcbs (100 ∷ 200 ∷ []) ≡ some 200
unfolding find_waiter
found = refl

mutex_unlock-front_example :
    (s' : Machine) × (mutex_unlock 50 locking ≡ some (success, s'))
    × ((s'.mutexes 50).locked ≡ false)
    × (s'.rqs 0 ≡ 300 ∷ 100 ∷ [])
    × (s'.waiting_queue ≡ 200 ∷ [])
    × ((s'.tcbs 200).mid ≡ minus_one)
mutex_unlock-front_example =
    mutex_unlock-front 50 100 200 (200 ∷ []) locking (omega arith) (omega arith) refl refl refl refl
      (omega arith) found

many : 1596 < num_of_pages 6553600
unfolding num_of_pages
many = omega arith

myallocate-refused-timer_example :
    (mm' : Mm) × (s' : Machine) × (myallocate os 6553600 threadreq (blocks 100) block_mm
      ≡ some (null, blocks 100, mm'))
    × (timer_triggered os (record machine { mm = mm' }) ≡ some (returned, s'))
    × (s'.current ≡ 100)
    × (s'.rqs ≡ machine.rqs)
myallocate-refused-timer_example =
    myallocate-refused-timer os 6553600 machine refl (omega arith) refl (omega arith) many

-- The program before its first thread.
abbrev pub before : Machine
before = record machine {
  ready = false;
  rqs = λ i. [];
  current = null;
  fc = first;
  first_thread = true;
  thread_count = 1;
}

my_pthread_create-Started_example :
    (new : Ptr) × (old : Ptr) × (o : Outcome) × (t : Machine) × (my_pthread_create os before
      ≡ some (1, o, t))
    × (t.thread_count ≡ 2)
    × Started new old o t
    × (t.first_thread ≡ false)
    × (t.mm.first_call ≡ false)
    × (t.mm.mem_flag ≡ false)
    × (new < t.mm.os_mem_ptr)
    × (old < t.mm.os_mem_ptr)
my_pthread_create-Started_example =
    my_pthread_create-Started os before refl refl refl (λ j. refl) (inr refl) (λ usec. refl)
