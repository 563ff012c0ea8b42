-- ===== src/Threads/Exit.antt =====
-- my_pthread_exit on a running machine.
use asst.Base.{
  ℕ, zero, suc, ◌+◌, ◌≤◌, ◌≡◌, ◌≢◌, ◌∙◌, refl, ap, true, false, Bool-cases, inl, inr, some, List,
  [], ◌∷◌, ◌++◌, Ptr, null, ltb, ◌==◌, length, length-append, arith,
}
use asst.Types.{Platform, pexit, sizeof_exit_node}
use asst.Memory.{Mm}
use asst.Threads.{Machine, allocate}
use asst.Threads.Scheduler.{Outcome, scheduler}
use asst.Threads.Invariant.{Running}
use asst.Threads.Dispatch.{c_Named}
use asst.Threads.Frame.{Same, Same-trans, scheduler-Same}
use asst.Threads.Waking.{Parked-rotate, Parked-woken_join, Running-woken, Running-same}
use asst.Threads.Join.{wake_front, wake_joiners, my_pthread_exit}
use asst.Threads.Joiners.{
  woken, wake_front_match, wake_front_other, wake_joiners_end, wake_joiners_round,
}
use asst.Threads.Served.{allocate-Allocated}
use asst.Threads.Later.{Ends, scheduler-Ends}

-- What the loop over the join queue leaves alone.
abbrev Undisturbed : Machine → Machine → Type 0
Undisturbed s s' = (s'.mm ≡ s.mm) × (s'.current ≡ s.current) × (s'.fc ≡ s.fc) × Same s s'

Undisturbed-trans : (s t u : Machine) → Undisturbed s t → Undisturbed t u → Undisturbed s u
Undisturbed-trans s t u (a, b, c, d) (a', b', c', d') =
    (a' ∙ a, b' ∙ b, c' ∙ c, Same-trans s t u d d')

-- A round keeps the machine running.
wake_front-Running :
    (owner : ℕ → Ptr) (tid : ℕ) (v x : Ptr) (q : List Ptr) (s : Machine)
    → Running owner s
    → s.join_queue ≡ x ∷ q
    → (s' : Machine) × (wake_front tid v s ≡ some s')
      × Running owner s'
      × Undisturbed s s'
      × (length s'.join_queue ≤ length s.join_queue)
wake_front-Running owner tid v x q s r e =
    let parked = rw e at r.queues.parked in
    elim (Bool-cases ((s.tcbs x).join_id == tid)) [
      | inl same ↦ (
        woken v x q s,
        wake_front_match tid v x q s r.queues.ready e parked.2.0.0.0 (ground (arith, same)),
        Running-woken owner s (woken v x q s) x
            (record (s.tcbs x) { value_ptr = v; thread_priority = 0 }) r parked.2.0 refl refl refl
            refl refl refl
            (Parked-woken_join owner s.tcbs s.rqs x
              (record (s.tcbs x) { value_ptr = v; thread_priority = 0 }) parked.2.0 refl refl
              s.waiting_queue q parked),
        (refl, refl, refl, (refl, refl, refl, refl, refl, refl, refl, refl, refl)),
        ground (arith, e),
      )
      | inr other ↦ (
        record s { join_queue = q ++ x ∷ [] },
        wake_front_other tid v x q s e parked.2.0.0.0 (ground (arith, other)),
        record {
          queues = record {
            ready = r.queues.ready;
            levels = r.queues.levels;
            parked = Parked-rotate owner s.tcbs s.rqs s.waiting_queue x q parked;
          };
          rest = r.rest;
          front = r.front;
          low = r.low;
        },
        (refl, refl, refl, (refl, refl, refl, refl, refl, refl, refl, refl, refl)),
        ground (arith, e, length-append q (x ∷ [])),
      )
    ]

wake_joiners-Running :
    (owner : ℕ → Ptr) (f i tid : ℕ) (v : Ptr) (xs : List Ptr) (s : Machine)
    → Running owner s
    → s.join_queue ≡ xs
    → length xs ≤ i + f
    → (s' : Machine) × (wake_joiners f i tid v s ≡ some s') × Running owner s' × Undisturbed s s'
wake_joiners-Running owner f i tid v [] s r e h = (
  s,
  wake_joiners_end f i tid v s (ground (arith, e)),
  r,
  (refl, refl, refl, (refl, refl, refl, refl, refl, refl, refl, refl, refl)),
)
wake_joiners-Running owner zero i tid v (x ∷ q) s r e h = (
  s,
  wake_joiners_end 0 i tid v s (ground (arith, e, h)),
  r,
  (refl, refl, refl, (refl, refl, refl, refl, refl, refl, refl, refl, refl)),
)
wake_joiners-Running owner (suc f) i tid v (x ∷ q) s r e h =
    elim (Bool-cases (ltb i (length s.join_queue))) [
      | inr over ↦ (
        s,
        wake_joiners_end (suc f) i tid v s (ground (arith, over)),
        r,
        (refl, refl, refl, (refl, refl, refl, refl, refl, refl, refl, refl, refl)),
      )
      | inl under ↦
          let (s', step, r', calm, shorter) = wake_front-Running owner tid v x q s r e in
          let (s'', run, r'', calm') =
            wake_joiners-Running owner f (i + 1) tid v s'.join_queue s' r' refl
              (ground (arith, h, e, shorter)) in
          (
            s'',
            wake_joiners_round f i tid v s s' (ground (arith, under)) step ∙ run,
            r'',
            Undisturbed-trans s s' s'' calm calm',
          )
    ]

-- The calls behind the loop.
my_pthread_exit_lem :
    (os : Platform) (v e : Ptr) (mm' : Mm) (s s2 : Machine)
    → s.current ≢ null
    → allocate os sizeof_exit_node s ≡ some (e, record s { mm = mm' })
    → wake_joiners
        (length s.join_queue)
        0
        (s.tcbs s.current).tid
        v
        (record s { mm = mm'; fc = pexit })
      ≡ some s2
    → my_pthread_exit os v s
      ≡ scheduler os (record s2 {
        exit_list = record { tid = (s.tcbs s.current).tid; value_ptr = v } ∷ s2.exit_list;
      })
unfolding my_pthread_exit
my_pthread_exit_lem os v e mm' s s2 someone a w = ground (arith, someone, a, w)

-- The thread has left its value and calls the scheduler a last time, in the machine `s'`.
abbrev pub Leaves : (ℕ → Ptr) → Platform → Ptr → Machine → Machine → Type 0
Leaves owner os v s s' =
    (my_pthread_exit os v s ≡ scheduler os s')
    × Running owner s'
    × (s'.fc ≡ pexit)
    × (s'.current ≡ s.current)
    × (s'.exit_list ≡ record { tid = (s.tcbs s.current).tid; value_ptr = v } ∷ s.exit_list)
    × (s'.mm.mem_flag ≡ false)
    × (s'.mm.first_call ≡ false)
    × (s'.mm.os_mem_ptr ≡ s.mm.os_mem_ptr + sizeof_exit_node)
    × (s'.thread_count ≡ s.thread_count)
    × (s'.first_thread ≡ s.first_thread)

pub my_pthread_exit-Leaves :
    (os : Platform) (owner : ℕ → Ptr) (v : Ptr) (s : Machine)
    → Running owner s
    → s.mm.first_call ≡ false
    → (s' : Machine) × Leaves owner os v s s'
my_pthread_exit-Leaves os owner v s r set_up =
    let (e, mm', a, set_up', idle', top, at_top) =
      allocate-Allocated os sizeof_exit_node s (inl set_up) in
    let s1 = record s { mm = mm'; fc = pexit } in
    let r1 : Running owner s1 = Running-same owner s s1 refl refl refl refl refl refl r in
    let (s2, w, r2, (same_mm, same_current, same_fc, same)) =
      wake_joiners-Running owner (length s.join_queue) 0 (s.tcbs s.current).tid v s.join_queue s1 r1
        refl (omega arith) in
    let s3 = record s2 {
      exit_list = record { tid = (s.tcbs s.current).tid; value_ptr = v } ∷ s2.exit_list;
    } in
    (
      s3,
      (
        my_pthread_exit_lem os v e mm' s s2 (c_Named owner s r).0 a w,
        Running-same owner s2 s3 refl refl refl refl refl refl r2,
        same_fc,
        same_current,
        ap (λ es. record { tid = (s.tcbs s.current).tid; value_ptr = v } ∷ es) same.7,
        same.0 ∙ idle',
        same.1 ∙ set_up',
        same.2 ∙ top ∙ ap (λ k. k + sizeof_exit_node) (at_top set_up),
        same.4,
        same.3,
      ),
    )

-- my_pthread_exit on a running machine, with the memory manager set up and a timer that is accepted,
-- does not fault: the value is put in front of the exit list under the id of the thread, and the call
-- ends in a machine that runs another thread, or with every queue empty. The memory manager is idle
-- behind it, 24 more bytes of the OS region are given out, and the number of threads stays.
pub my_pthread_exit-Ends :
    (os : Platform) (owner : ℕ → Ptr) (v : Ptr) (s : Machine)
    → Running owner s
    → s.mm.first_call ≡ false
    → ((usec : ℕ) → os.setitimer usec ≡ true)
    → (o : Outcome) × (t : Machine) × (my_pthread_exit os v s ≡ some (o, t))
      × Ends owner o t
      × (t.exit_list ≡ record { tid = (s.tcbs s.current).tid; value_ptr = v } ∷ s.exit_list)
      × (t.mm.mem_flag ≡ false)
      × (t.mm.first_call ≡ false)
      × (t.mm.os_mem_ptr ≡ s.mm.os_mem_ptr + sizeof_exit_node)
      × (t.thread_count ≡ s.thread_count)
      × (t.first_thread ≡ s.first_thread)
my_pthread_exit-Ends os owner v s r set_up accepts =
    let (s', (e, r', flag, cur, list, idle, set_up', top, count, later)) =
      my_pthread_exit-Leaves os owner v s r set_up in
    let (o, t, step, ends) = scheduler-Ends os owner s' r' idle accepts in
    let after = scheduler-Same os s' t o step in
    (
      o,
      t,
      e ∙ step,
      ends,
      after.7 ∙ list,
      after.0 ∙ idle,
      after.1 ∙ set_up',
      after.2 ∙ top,
      after.4 ∙ count,
      after.3 ∙ later,
    )
