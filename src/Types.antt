-- ===== src/Types.antt =====
-- The structs of my_pthread_t.h and mymemorymanager.h that the thread library and the memory
-- manager share, and what the program takes from its platform.
use asst.Base.{ℕ, ◌*◌, Bool, Ptr}

abbrev pub num_priorities : ℕ
num_priorities = 10

abbrev pub maint_cycle : ℕ
maint_cycle = 100

abbrev pub stack_size : ℕ
stack_size = 4096 * 10

abbrev pub sizeof_tcb : ℕ
sizeof_tcb = 72

abbrev pub sizeof_context_node : ℕ
sizeof_context_node = 16

abbrev pub sizeof_exit_node : ℕ
sizeof_exit_node = 24

abbrev pub sizeof_queue : ℕ
sizeof_queue = 16

abbrev pub sizeof_levels : ℕ
sizeof_levels = 80

abbrev pub sizeof_page_meta : ℕ
sizeof_page_meta = 48

-- `threadControlBlock`. Its `head` and `middle` are never read or written.
pub record Tcb : Type 0 where
  pub tid : ℕ
  pub thread_context : Ptr
  pub thread_priority : ℕ
  pub join_id : ℕ
  pub value_ptr : Ptr
  pub mid : ℕ
  pub malloc_frame : ℕ
  pub first_page : Ptr

-- `page_meta`. An `int` field holds its 32-bit pattern.
pub record PageMeta : Type 0 where
  pub page_frame : ℕ
  pub tid : ℕ
  pub num_pages : ℕ
  pub free_page_mem : ℕ
  pub next : Ptr
  pub front_meta : Ptr
  pub head : Ptr
  pub middle : Ptr

-- `exit_node`, less its link: the exit list is a list.
pub record ExitNode : Type 0 where
  pub tid : ℕ
  pub value_ptr : Ptr

-- `my_pthread_mutex_t`.
pub record Mutex : Type 0 where
  pub mid : ℕ
  pub locked : Bool
  pub tid : ℕ
  pub ready_waiting : Bool

-- Why the scheduler was called.
pub data FlagCalled : Type 0 where
  none_flag timer yield pexit join first blocked : FlagCalled

pub data ReqType : Type 0 where
  threadreq libraryreq : ReqType

-- What the program relies on and does not implement: the address that memalign returns, whether
-- sigaction succeeds, whether setitimer accepts a number of microseconds, and a size.
pub record Platform : Type 0 where
  pub memalign : Ptr
  pub sigaction : Bool
  pub setitimer : ℕ → Bool
  pub sizeof_ucontext : ℕ
