-- ===== src/Threads.antt =====
-- The state of my_pthread.c. A context node and its thread block are made together and never part,
-- so a thread goes by the address of its node. A queue is the list of its nodes: `Queue.Refine`
-- relates the lists to the linked queues.
pub mod Scheduler
pub mod Invariant
pub mod Parked
pub mod Dispatch
pub mod Maintain
pub mod Choice
pub mod Progress
pub mod Frame
pub mod Rests
pub mod Region
pub mod Waking
pub mod Create
pub mod Join
pub mod Joiners
pub mod Served
pub mod First
pub mod Prepare
pub mod Begin
pub mod Later
pub mod Blocking
pub mod Joining
pub mod Exit
pub mod Gone
pub mod Unlock
pub mod Deadlock
pub mod System
pub mod Goes
pub mod Steps
pub mod Program
pub mod Locks
pub mod Stuck
pub mod Tests
mod Examples
mod Runs
pub mod Mutexes
use asst.Base.{
  ℕ, ◌+◌, Bool, true, false, Option, none, some, List, [], ◌∷◌, ◌++◌, Ptr, null, ltb, ◌==◌,
  if◌then◌else◌, update, ◌>>=◌,
}
use asst.Types.{Tcb, ExitNode, Mutex, FlagCalled, Platform, num_priorities}
use asst.Memory.{Mm}
use asst.Memory.Library.{library_allocate}

-- `ready`: running_qs and the other queues are there. `timer`: the microseconds last set.
pub record Machine : Type 0 where
  pub mm : Mm
  pub tcbs : Ptr → Tcb
  pub mutexes : Ptr → Mutex
  pub ready : Bool
  pub rqs : ℕ → List Ptr
  pub waiting_queue : List Ptr
  pub join_queue : List Ptr
  pub current : Ptr
  pub exit_list : List ExitNode
  pub fc : FlagCalled
  pub first_thread : Bool
  pub maintenance_count : ℕ
  pub thread_count : ℕ
  pub mutex_count : ℕ
  pub timer : Option ℕ

-- `current->thread_block`, a fault at NULL.
abbrev pub current_tcb : Machine → Option Tcb
current_tcb s = if s.current == null then none else some (s.tcbs s.current)

abbrev pub set_tcb : Ptr → Tcb → Machine → Machine
set_tcb n t s = record s { tcbs = update s.tcbs n t }

-- `running_qs->rqs[i]`: a fault before createScheduler and out of the array.
abbrev pub rq_at : ℕ → Machine → Option (List Ptr)
rq_at i s = if s.ready then (if ltb i num_priorities then some (s.rqs i) else none) else none

abbrev pub set_rq : ℕ → List Ptr → Machine → Machine
set_rq i q s = record s { rqs = update s.rqs i q }

-- `dequeuee`, and `enqueuee` with a fault at NULL.
unfoldable pub dequeuee : List Ptr → Ptr × List Ptr
dequeuee [] = (null, [])
dequeuee (n ∷ q) = (n, q)

unfoldable pub enqueuee : Ptr → List Ptr → Option (List Ptr)
enqueuee n q = if n == null then none else some (q ++ n ∷ [])

-- `enqueuee(dequeuee(rqs[i]), rqs[j])`.
unfoldable pub requeue : ℕ → ℕ → Machine → Option Machine
unfolding dequeuee enqueuee
requeue i j s = do
  from ← rq_at i s
  let (n, rest) = dequeuee from
  let s' = set_rq i rest s
  to ← rq_at j s'
  q ← enqueuee n to
  some (set_rq j q s')

-- `mem_flag = 0`.
abbrev pub clear_mem_flag : Machine → Machine
clear_mem_flag s = record s { mm = record (s.mm) { mem_flag = false } }

-- A library request, and the `mem_flag = 0` behind it. That the block lies in the 8 MB is not tested.
unfoldable pub allocate : Platform → ℕ → Machine → Option (Ptr × Machine)
allocate os x s = do
  (p, mm') ← library_allocate os x s.mm
  some (p, clear_mem_flag (record s { mm = mm' }))
