-- ===== src/Threads/Region.antt =====
-- What the calls of the thread library take of the OS region, and that the block stays where it is.
use asst.Base.{
  ℕ, zero, suc, ◌+◌, ◌≤◌, ◌≡◌, ◌∙◌, ap, ◌∷◌, false, inl, inr, Bool-cases, some, Ptr, ltb, length,
  >>=-eq_some, arith,
}
use asst.Types.{Platform, stack_size, sizeof_tcb, sizeof_context_node, sizeof_exit_node, pexit}
use asst.Memory.Library.{block_size, library_allocate, begin_call}
use asst.Threads.{Machine, allocate, current_tcb}
use asst.Threads.Scheduler.{Outcome}
use asst.Threads.Join.{wake_front, wake_joiners, my_pthread_exit}
use asst.Threads.Frame.{scheduler-Same}

-- The end of the block.
abbrev pub block_end : Machine → Ptr
block_end s = s.mm.myblock_ptr + block_size

-- Every block that the library was given lies in the block of the memory manager.
abbrev pub Inside : Machine → Type 0
Inside s = s.mm.os_mem_ptr ≤ block_end s

-- The bytes that a later my_pthread_create takes.
abbrev pub create_bytes : Platform → ℕ
create_bytes os =
    os.sizeof_ucontext + 2080 + os.sizeof_ucontext + sizeof_tcb + sizeof_context_node + stack_size

-- `x` bytes of the region are taken.
abbrev pub Took : ℕ → Machine → Machine → Type 0
Took x s s' =
    (s'.mm.os_mem_ptr ≡ s.mm.os_mem_ptr + x)
    × (s'.mm.myblock_ptr ≡ s.mm.myblock_ptr)
    × (s'.mm.first_call ≡ s.mm.first_call)
    × (s'.first_thread ≡ s.first_thread)

pub allocate-Took :
    (os : Platform) (x : ℕ) (s s' : Machine) (p : Ptr)
    → s.mm.first_call ≡ false
    → allocate os x s ≡ some (p, s')
    → Took x s s'
unfolding allocate library_allocate begin_call
allocate-Took os x s s' p set_up h = ground (arith, set_up, h)

wake_front-mm : (tid : ℕ) (v : Ptr) (s s' : Machine) → wake_front tid v s ≡ some s' → s'.mm ≡ s.mm
unfolding wake_front
wake_front-mm tid v s s' h = ground (arith, h)

wake_joiners-mm :
    (f i tid : ℕ) (v : Ptr) (s s' : Machine) → wake_joiners f i tid v s ≡ some s' → s'.mm ≡ s.mm
unfolding wake_joiners
wake_joiners-mm zero i tid v s s' h = ground (arith, h)
wake_joiners-mm (suc f) i tid v s s' h = elim (Bool-cases (ltb i (length s.join_queue))) [
  | inr over ↦ ground (arith, over, h)
  | inl under ↦
      let (s1, e, h1) = >>=-eq_some (wake_front tid v s) _ (rw under at h) in
      wake_joiners-mm f (i + 1) tid v s1 s' h1 ∙ wake_front-mm tid v s s1 e
]

-- An exit that returns leaves the block where it is.
pub my_pthread_exit-block :
    (os : Platform) (v : Ptr) (s t : Machine) (o : Outcome)
    → s.mm.first_call ≡ false
    → my_pthread_exit os v s ≡ some (o, t)
    → t.mm.myblock_ptr ≡ s.mm.myblock_ptr
unfolding my_pthread_exit
my_pthread_exit-block os v s t o set_up h =
    let ((p, s1), e1, h1) = >>=-eq_some (allocate os sizeof_exit_node s) _ h in
    let (c, e2, h2) = >>=-eq_some (current_tcb s1) _ h1 in
    let (s2, e3, h3) =
      >>=-eq_some (wake_joiners (length s1.join_queue) 0 c.tid v (record s1 { fc = pexit })) _ h2 in
    let s3 = record s2 { exit_list = record { tid = c.tid; value_ptr = v } ∷ s2.exit_list } in
    (scheduler-Same os s3 t o h3).8
    ∙ (ap (λ mm. mm.myblock_ptr)
          (wake_joiners-mm (length s1.join_queue) 0 c.tid v (record s1 { fc = pexit }) s2 e3)
        ∙ (allocate-Took os sizeof_exit_node s s1 p set_up e1).1)
