-- ===== src/Threads/Examples.antt =====
-- The theorems of the calls that may block, at the machine of the tests.
use asst.Base.{◌≡◌, ◌<◌, ◌≤◌, ◌≢◌, ◌⊎◌, refl, true, false, some, List, [], ◌∷◌, Ptr, All, arith}
use asst.Types.{ExitNode, yield}
use asst.Threads.{Machine}
use asst.Threads.Scheduler.{Outcome, returned, scheduler, my_pthread_yield}
use asst.Threads.Mutexes.{success, done, waits, mutex_lock}
use asst.Threads.Progress.{Settled, Scheduled}
use asst.Threads.Blocking.{my_pthread_yield-Scheduled, mutex_lock-Scheduled}
use asst.Threads.Join as Joins
use asst.Threads.Joining.{ExitedWith, my_pthread_join-Scheduled}
use asst.Threads.Tests.{os, owner, machine, machine-Running}

my_pthread_yield-Scheduled_example :
    (machine.rqs 0 ≡ 100 ∷ []) × (my_pthread_yield os machine ≡ some (returned, machine))
    ⊎ ((m : Ptr) × (q : List Ptr) × (machine.rqs 0 ≡ 100 ∷ m ∷ q)
        × (my_pthread_yield os machine ≡ scheduler os (record machine { fc = yield }))
        × Scheduled owner (my_pthread_yield os machine))
my_pthread_yield-Scheduled_example =
    my_pthread_yield-Scheduled os owner machine machine-Running refl (λ usec. refl)

mutex_lock-Scheduled_example :
    ((s' : Machine) × (false ≡ false)
      × (mutex_lock os 50 machine ≡ some (done success, s'))
      × ((s'.mutexes 50).locked ≡ true)
      × ((s'.mutexes 50).tid ≡ 1)
      × (s'.rqs ≡ machine.rqs))
    ⊎ ((o : Outcome) × (s' : Machine) × (false ≡ true)
        × (mutex_lock os 50 machine ≡ some (waits o, s'))
        × (s'.waiting_queue ≡ 100 ∷ [])
        × (s'.join_queue ≡ [])
        × ((s'.tcbs 100).mid ≡ (machine.mutexes 50).mid)
        × Settled owner o s')
mutex_lock-Scheduled_example =
    mutex_lock-Scheduled os owner 50 machine machine-Running refl (λ usec. refl) (omega arith)

my_pthread_join-Scheduled_example :
    (3 ≤ 2) × (Joins.my_pthread_join os 2 machine ≡ some (Joins.no_thread, machine))
    ⊎ (2 < 3)
      × (((v : Ptr) × ExitedWith 2 v []
            × (Joins.my_pthread_join os 2 machine ≡ some (Joins.exited v, machine)))
          ⊎ ((o : Outcome) × (s' : Machine) × All (λ (e : ExitNode). e.tid ≢ 2) []
              × (Joins.my_pthread_join os 2 machine ≡ some (Joins.waits o, s'))
              × (s'.join_queue ≡ 100 ∷ [])
              × (s'.waiting_queue ≡ [])
              × ((s'.tcbs 100).join_id ≡ 2)
              × Settled owner o s'))
my_pthread_join-Scheduled_example =
    my_pthread_join-Scheduled os owner 2 machine machine-Running refl (λ usec. refl) (omega arith)
      (omega arith)
