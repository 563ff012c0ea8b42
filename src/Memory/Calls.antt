-- ===== src/Memory/Calls.antt =====
-- Runs of myallocate and mydeallocate by any number of threads.
use asst.Base.{ℕ, ◌<◌, ◌≤◌, ◌≡◌, ◌≢◌, Option, some, Ptr, null, update, false, ◌+◌, ◌*◌, ◌>>=◌}
use asst.Types.{Tcb, Platform, threadreq}
use asst.Memory.{Mm}
use asst.Memory.Allocate.{myallocate}
use asst.Memory.Release.{mydeallocate}

-- The threads by their ids, and the bytes that each asked for at an address and has not given back: 0
-- where it has none.
pub record Machine : Type 0 where
  pub threads : ℕ → Tcb
  pub live : ℕ → Ptr → ℕ
  pub memory : Mm

-- A thread asks for bytes, or gives back an address.
pub data Call : Type 0 where
  request : ℕ → ℕ → Call
  release : ℕ → Ptr → Call

-- The thread `n` has made its call, and has `x` bytes at `q`.
abbrev pub called : ℕ → Tcb → Ptr → ℕ → Mm → Machine → Machine
called n t q x m s = record {
  threads = update s.threads n t;
  live = update s.live n (update (s.live n) q x);
  memory = m;
}

-- malloc and free by a thread, which the macros of mymemorymanager.h turn into calls of the manager.
unfoldable pub step : Platform → Machine → Call → Option Machine
step os s (request n x) = do
  (q, t, m) ← myallocate os x threadreq (s.threads n) s.memory
  some (called n t q x m s)
step os s (release n q) = do
  (report, m) ← mydeallocate q (s.threads n) s.memory
  some (called n (s.threads n) q 0 m s)

-- A request of 1 to 4064 bytes with a frame left; a return of what the thread has.
abbrev pub Allowed : Machine → Call → Type 0
Allowed s (request n x) = (0 < x) × (x ≤ 4064) × (s.memory.page_counter < 1596)
Allowed s (release n q) = s.live n q ≢ 0

-- The block is set up, no page is given out, and no thread has any.
pub record Start (s : Machine) : Type 0 where
  pub set_up : s.memory.first_call ≡ false
  pub none_given : s.memory.page_counter ≡ 0
  pub vacant : (k : ℕ) → s.memory.frame_table k ≡ null
  pub region : 0 < s.memory.os_mem_ptr
  pub temp : s.memory.myblock_ptr + 1596 * 4096 ≤ s.memory.swap_temp
  pub pos : 0 < s.memory.myblock_ptr
  pub clear : (p : Ptr) → s.memory.os_mem_ptr ≤ p → (s.memory.metas p).front_meta ≡ null
  pub names : (n : ℕ) → (s.threads n).tid ≡ n
  pub no_page : (n : ℕ) → (s.threads n).first_page ≡ null
  pub first : (n : ℕ) → (s.threads n).malloc_frame ≡ 0
  pub nothing : (n : ℕ) (q : Ptr) → s.live n q ≡ 0

-- The states that calls lead to.
pub data Reached (os : Platform) (s : Machine) : Machine → Type 0 where
  start : Reached os s s
  next :
      {s1 s2 : Machine} (c : Call)
      → Reached os s s1
      → Allowed s1 c
      → step os s1 c ≡ some s2
      → Reached os s s2
