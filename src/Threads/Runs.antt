-- ===== src/Threads/Runs.antt =====
-- The theorems on runs, exits and unlocks at the machines of the tests.
use asst.Base.{
  ℕ, zero, suc, ◌≡◌, ◌≢◌, ◌⊎◌, refl, true, false, Option, none, some, [], ◌∷◌, update, ◌==◌,
  if◌then◌else◌, inr, arith,
}
use asst.Base.Lists.{NotIn}
use asst.Memory.Library.{library_allocate}
use asst.Threads.{Machine}
use asst.Threads.Scheduler.{Outcome, returned}
use asst.Threads.Join.{exited, my_pthread_exit, my_pthread_join}
use asst.Threads.Invariant.{LevelsOf, Running}
use asst.Threads.Dispatch.{taken}
use asst.Threads.Choice.{EmptyFrom}
use asst.Threads.Mutexes.{success, waits, mutex_lock, mutex_unlock, find_waiter}
use asst.Threads.Unlock.{mutex_unlock-misplaced}
use asst.Threads.Gone.{Absent, my_pthread_exit-Absent, my_pthread_exit-join}
use asst.Threads.Deadlock.{Idle, mutex_lock-stuck}
use asst.Threads.System.{call, create, Live, After, start}
use asst.Threads.Steps.{call-After}
use asst.Threads.Program.{create-Run-After}
use asst.Threads.Create.{new_tcb}
use asst.Threads.Region.{Inside}
use asst.Threads.Tests.{os, owner, machine, machine-Running, before}

machine-Live : Live owner machine
machine-Live = record {
  running = machine-Running;
  idle = refl;
  set_up = refl;
  later = refl;
  bounded = ((λ k. ground arith), (λ k h. ground arith));
  some_thread = omega arith;
  ids = omega arith;
  inside = omega arith;
}

call-After_example : (t : Machine) × (call os create machine ≡ some t) × After t
call-After_example =
    call-After os (λ usec. refl) owner machine machine-Live create (omega arith, omega arith)

my_pthread_exit-Absent_example :
    (o : Outcome) × (t : Machine) × (my_pthread_exit os 77 machine ≡ some (o, t))
    × Absent 100 t
    × (EmptyFrom t.rqs 0 10 ⊎ (t.current ≢ 100))
my_pthread_exit-Absent_example =
    my_pthread_exit-Absent os owner 77 machine machine-Running refl (λ usec. refl)

my_pthread_exit-join_example :
    (o : Outcome) × (t : Machine) × (my_pthread_exit os 77 machine ≡ some (o, t))
    × (my_pthread_join os 1 t ≡ some (exited 77, t))
my_pthread_exit-join_example =
    my_pthread_exit-join os owner 77 machine machine-Running refl (λ usec. refl) (omega arith)
      (omega arith)

-- Thread 1, of level 1, waits for another mutex, and thread 2 behind it for that of thread 0.
abbrev crossed : Machine
crossed = record machine {
  tcbs = λ n.
      if n == 100
      then record (new_tcb 1 0) { thread_priority = 1; mid = 3 }
      else if n == 200
      then record (new_tcb 2 0) { mid = 7 }
      else new_tcb 0 0;
  mutexes = λ m. record { mid = 7; locked = true; tid = 0; ready_waiting = false };
  rqs = update (λ i. []) 0 (300 ∷ []);
  waiting_queue = 100 ∷ 200 ∷ [];
  current = 300;
}

second_waits : find_waiter 7 crossed.tcbs (100 ∷ 200 ∷ []) ≡ some 200
unfolding find_waiter
second_waits = refl

mutex_unlock-misplaced_example :
    (s' : Machine) × (mutex_unlock 50 crossed ≡ some (success, s')) × (¬ Running owner s')
mutex_unlock-misplaced_example =
    mutex_unlock-misplaced owner 50 100 200 (200 ∷ []) crossed (omega arith) (omega arith) refl refl
      refl refl (omega arith) second_waits (omega arith) (omega arith)

-- The machine behind the first my_pthread_create.
abbrev begun : Option Machine → Machine
begun none = before
begun (some t) = t

first_create : call os create before ≡ some (begun (call os create before))
unfolding call library_allocate
first_create = refl

first-Inside : Inside (begun (call os create before))
unfolding call library_allocate
first-Inside = omega arith

create-Run-After_example : After (begun (call os create before))
create-Run-After_example =
    create-Run-After os before (begun (call os create before)) (begun (call os create before)) refl
      refl refl (λ j. refl) (inr refl) (λ usec. refl) first_create first-Inside start

-- Thread 2 waits, and thread 1 locks a mutex that thread 2 holds.
abbrev lonely : Machine
lonely = record machine {
  mutexes = λ m. record { mid = 7; locked = true; tid = 2; ready_waiting = false };
  rqs = update (λ i. []) 0 (100 ∷ []);
  waiting_queue = 200 ∷ [];
}

lonely-LevelsOf : LevelsOf owner lonely.tcbs lonely.rqs
lonely-LevelsOf zero = (((refl, omega arith, refl), tt), (tt, tt))
lonely-LevelsOf (suc i) = ground arith

second_away : (i : ℕ) → NotIn 200 (lonely.rqs i)
second_away zero = (omega arith, tt)
second_away (suc i) = ground arith

abbrev lonely_running : Running owner lonely
lonely_running = record {
  queues = record {
    ready = refl;
    levels = lonely-LevelsOf;
    parked = ((((omega arith, refl), second_away), tt), (tt, tt), tt, tt, (tt, tt));
  };
  rest = [];
  front = refl;
  low = omega arith;
}

lonely-Idle : Idle (taken owner lonely lonely_running)
lonely-Idle zero = refl
lonely-Idle (suc i) = ground arith

mutex_lock-stuck_example :
    (s' : Machine) × (mutex_lock os 50 lonely ≡ some (waits returned, s'))
    × Idle s'
    × (s'.waiting_queue ≡ 200 ∷ 100 ∷ [])
    × ((s'.mutexes 50).locked ≡ true)
    × (mutex_lock os 50 s' ≡ none)
mutex_lock-stuck_example =
    mutex_lock-stuck os owner 50 lonely lonely_running refl (omega arith) refl lonely-Idle
