-- ===== src/Threads/Program.antt =====
-- The program from its first my_pthread_create on.
use asst.Base.{ℕ, ◌<◌, ◌≤◌, ◌≡◌, ◌∙◌, sym, subst, refl, true, some, [], Ptr, null, arith}
use asst.Types.{Platform, first}
use asst.Threads.{Machine}
use asst.Threads.Served.{Servable}
use asst.Threads.Region.{Inside}
use asst.Threads.Begin.{two_owners, my_pthread_create-Started}
use asst.Threads.System.{call, create, Live, After, Run}
use asst.Threads.Steps.{some_inj, Run-After}

two_owners-below : (new old top : ℕ) → new < top → old < top → (k : ℕ) → two_owners new old k < top
two_owners-below new old top a b k = ground (arith, a, b)

two_owners-unknown : (new old k : ℕ) → 2 ≤ k → two_owners new old k ≡ null
two_owners-unknown new old k h = ground (arith, h)

-- The first call makes a machine between two calls.
my_pthread_create-Live :
    (os : Platform) (s : Machine)
    → s.first_thread ≡ true
    → s.fc ≡ first
    → s.thread_count ≡ 1
    → ((j : ℕ) → s.rqs j ≡ [])
    → Servable os s.mm
    → ((usec : ℕ) → os.setitimer usec ≡ true)
    → (t : Machine) → call os create s ≡ some t
    → Inside t
    → (owner : ℕ → Ptr) × Live owner t
unfolding call
my_pthread_create-Live os s is_first flag one none_yet servable accepts t made inside =
    let (new, old, o, t', step, count, started, later, set_up, idle, new_in, old_in) =
      my_pthread_create-Started os s is_first flag one none_yet servable accepts in
    let same : t' ≡ t = some_inj (sym (rw step refl) ∙ made) in
    let live : Live (two_owners new old) t' = record {
      running = started.2.0;
      idle = idle;
      set_up = set_up;
      later = later;
      bounded = (
        two_owners-below new old t'.mm.os_mem_ptr new_in old_in,
        (λ k h. two_owners-unknown new old k (omega (arith, h, count))),
      );
      some_thread = omega (arith, count);
      ids = omega (arith, count);
      inside = subst Inside (sym same) inside;
    } in
    (two_owners new old, subst (Live (two_owners new old)) same live)

-- Take a program that has made no thread, whose memory manager can serve the library, whose timer is
-- accepted, and whose first my_pthread_create leaves the library's blocks inside the 8 MB of the memory
-- manager, and behind it a run of allowed calls, in which every call is made from a machine with a
-- thread in a run queue: what a program does where every run queue is empty, as behind a join of the
-- last thread in them, is not covered. A creation or an exit is allowed while the 8 MB have room for
-- what it takes, a call to lock a mutex counts round by round, and an unlock hands over in the order of
-- the waiting queue. Every machine of the run is between two calls, under some names of the threads and
-- with the library's blocks inside the 8 MB, or has every run queue empty.
pub create-Run-After :
    (os : Platform) (s t u : Machine)
    → s.first_thread ≡ true
    → s.fc ≡ first
    → s.thread_count ≡ 1
    → ((j : ℕ) → s.rqs j ≡ [])
    → Servable os s.mm
    → ((usec : ℕ) → os.setitimer usec ≡ true)
    → call os create s ≡ some t
    → Inside t
    → Run os t u
    → After u
create-Run-After os s t u is_first flag one none_yet servable accepts begun inside run =
    let (owner, live) =
      my_pthread_create-Live os s is_first flag one none_yet servable accepts t begun inside in
    Run-After os owner t u accepts live run
