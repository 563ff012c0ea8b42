-- ===== src/Threads/Served.antt =====
-- The library requests that the thread library makes for its nodes and queues.
use asst.Base.{ℕ, ◌+◌, ◌*◌, ◌≡◌, ◌⊎◌, inl, inr, refl, Bool-cases, true, false, some, Ptr, arith}
use asst.Types.{Platform}
use asst.Memory.{Mm, enter}
use asst.Memory.Library.{library_allocate, begin_call, first_setup, bump}
use asst.Threads.{Machine, allocate}

-- The memory manager can serve the library: it was called before, or it can be set up.
abbrev pub Servable : Platform → Mm → Type 0
Servable os mm = (mm.first_call ≡ false) ⊎ (os.sigaction ≡ true)

-- A library request of `x` bytes gives `p` and changes the memory manager only.
abbrev pub Allocated : Platform → ℕ → Machine → Type 0
Allocated os x s =
    (p : Ptr) × (mm' : Mm) × (allocate os x s ≡ some (p, record s { mm = mm' }))
    × (mm'.first_call ≡ false)
    × (mm'.mem_flag ≡ false)
    × (mm'.os_mem_ptr ≡ p + x)
    × ((s.mm.first_call ≡ false) → p ≡ s.mm.os_mem_ptr)

allocate_again : (os : Platform) (x : ℕ) (s : Machine) → s.mm.first_call ≡ false → Allocated os x s
unfolding allocate library_allocate begin_call
allocate_again os x s later = (
  s.mm.os_mem_ptr,
  record ((bump x (enter s.mm)).1) { mem_flag = false },
  ground (arith, later),
  later,
  refl,
  refl,
  (λ e. refl),
)

-- The memory manager behind its first call.
abbrev set_up : Platform → Mm → Mm
set_up os mm =
    enter
      (bump (8 * 1596) (
        enter (record (enter mm) {
          first_call = false;
          myblock_ptr = os.memalign;
          swap_temp = os.memalign + 1600 * 4096;
          os_mem_ptr = os.memalign + 1601 * 4096;
          shalloc_mem_ptr = os.memalign + 1596 * 4096;
        }))).1

begin_call-set_up :
    (os : Platform) (mm : Mm)
    → mm.first_call ≡ true
    → os.sigaction ≡ true
    → begin_call os mm ≡ some (set_up os mm)
unfolding begin_call first_setup
begin_call-set_up os mm unset works = ground (arith, unset, works)

allocate_setup :
    (os : Platform) (x : ℕ) (s : Machine)
    → s.mm.first_call ≡ true
    → os.sigaction ≡ true
    → Allocated os x s
unfolding allocate library_allocate
allocate_setup os x s unset works = (
  (set_up os s.mm).os_mem_ptr,
  record ((bump x (set_up os s.mm)).1) { mem_flag = false },
  ground (arith, begin_call-set_up os s.mm unset works),
  refl,
  refl,
  refl,
  (λ later. ground (arith, unset, later)),
)

pub allocate-Allocated : (os : Platform) (x : ℕ) (s : Machine) → Servable os s.mm → Allocated os x s
allocate-Allocated os x s (inl later) = allocate_again os x s later
allocate-Allocated os x s (inr works) = elim (Bool-cases s.mm.first_call) [
  | inl unset ↦ allocate_setup os x s unset works
  | inr later ↦ allocate_again os x s later
]
