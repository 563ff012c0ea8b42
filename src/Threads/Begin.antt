-- ===== src/Threads/Begin.antt =====
-- The first my_pthread_create ends in a running machine.
use asst.Base.{
  ℕ, ◌+◌, ◌%◌, ◌^◌, ◌≡◌, inl, inr, ◌∙◌, refl, sym, ap, Bool-cases, true, false, some, [], ◌∷◌, Ptr,
  null, ◌<◌, subst, ◌==◌, if◌then◌else◌, All, Distinct, arith,
}
use asst.Types.{Platform, first}
use asst.Memory.Swap.{lock_mem}
use asst.Threads.{Machine}
use asst.Threads.Scheduler.{
  Outcome, swap_context, quantum, scheduler, update_queue, choose, first_queue,
}
use asst.Threads.Create.{create_first, my_pthread_create}
use asst.Threads.Invariant.{AtLevel, LevelsOf}
use asst.Threads.Choice.{Choice}
use asst.Threads.Progress.{Switched, resumed, resumed-Running, switch_to-saved}
use asst.Threads.Frame.{scheduler-Same}
use asst.Threads.Prepare.{proceed, my_pthread_create-Prepared}
use asst.Threads.Served.{Servable}
use asst.Threads.First.{Begun, create_first-Begun}

abbrev pub two_owners : Ptr → Ptr → ℕ → Ptr
two_owners new old tid = if tid == 1 then new else if tid == 0 then old else null

module _ (new old : Ptr) (s : Machine) (b : Begun new old s) where
  AtLevel-new : AtLevel (two_owners new old) s.tcbs 0 new
  AtLevel-new =
      let (
        ne_new, ne_old, ne, ready, idle, at0, others, cur, tid1, p1, tid0, p0, none_waits,
        none_joins,
      ) =
        b in
      (p1, ne_new, ground (arith, tid1))

  AtLevel-old : AtLevel (two_owners new old) s.tcbs 0 old
  AtLevel-old =
      let (
        ne_new, ne_old, ne, ready, idle, at0, others, cur, tid1, p1, tid0, p0, none_waits,
        none_joins,
      ) =
        b in
      (p0, ne_old, ground (arith, tid0))

  LevelsOf-Begun : LevelsOf (two_owners new old) s.tcbs s.rqs
  LevelsOf-Begun i =
      let (
        ne_new, ne_old, ne, ready, idle, at0, others, cur, tid1, p1, tid0, p0, none_waits,
        none_joins,
      ) =
        b in
      elim (Bool-cases (i == 0)) [
        | inl lowest ↦
            let e : i ≡ 0 = ground (arith, lowest) in
            subst (λ j. All (AtLevel (two_owners new old) s.tcbs j) (s.rqs j) × Distinct (s.rqs j))
              (sym e)
              (rw at0 ((AtLevel-new, (AtLevel-old, tt)), (((λ o. ne (sym o)), tt), (tt, tt))))
        | inr later ↦ rw (others i (ground (arith, later))) (tt, tt)
      ]

  Choice-Begun : Choice (two_owners new old) s new s
  Choice-Begun =
      let (
        ne_new, ne_old, ne, ready, idle, at0, others, cur, tid1, p1, tid0, p0, none_waits,
        none_joins,
      ) =
        b in
      record {
        queues = record {
          ready = ready;
          levels = LevelsOf-Begun;
          parked = rw (none_waits, none_joins) (tt, tt, tt, tt, tt);
        };
        named = (AtLevel-new.1, AtLevel-new.2);
        rest = old ∷ [];
        front = ap s.rqs p1 ∙ at0;
        low = omega (arith, p1);
        same_tcbs = refl;
        same_current = refl;
        same_flag = refl;
      }

  choose-Begun : choose s ≡ some (some (new, s))
  unfolding choose first_queue
  choose-Begun = ground (arith, b)

-- The new thread runs, in a machine whose levels are kept.
abbrev pub Started : Ptr → Ptr → Outcome → Machine → Type 0
Started new old o s =
    (o ≡ swap_context old new) × (s.current ≡ new) × Switched (two_owners new old) o s

scheduler-Started :
    (os : Platform) (new old : Ptr) (s : Machine)
    → Begun new old s
    → s.fc ≡ first
    → ((usec : ℕ) → os.setitimer usec ≡ true)
    → (o : Outcome) × (t : Machine) × (scheduler os s ≡ some (o, t))
      × (t.thread_count ≡ s.thread_count)
      × Started new old o t
unfolding scheduler update_queue
scheduler-Started os new old s b call accepts =
    let s2 = record s { maintenance_count = (s.maintenance_count + 1) % 2 ^ 32 } in
    let (
      ne_new, ne_old, ne, ready, idle, at0, others, cur, tid1, p1, tid0, p0, none_waits, none_joins,
    ) =
      b in
    let c = Choice-Begun new old s2 b in
    let owner = two_owners new old in
    let yes = accepts (quantum (s.tcbs new).thread_priority) in
    let switched =
      switch_to-saved os owner s2 new s2 c yes first call (λ e. ground (arith, e))
        (λ e. ne_old (sym cur ∙ e)) in
    (
      swap_context s.current new,
      resumed os owner s2 new s2 c yes (lock_mem s.mm) s.fc,
      ground (arith, idle, call, choose-Begun new old s2 b, switched),
      refl,
      (
        ap (λ k. swap_context k new) cur,
        refl,
        (
          resumed-Running os owner s2 new s2 c yes (lock_mem s.mm) s.fc,
          (λ e. ground (arith, e)),
          refl,
        ),
      ),
    )

proceed_first :
    (os : Platform) (context new : Ptr) (s s6 t : Machine) (o : Outcome)
    → s.first_thread ≡ true
    → create_first os context new s ≡ some s6
    → scheduler os (record s6 { thread_count = (s6.thread_count + 1) % 2 ^ 32 }) ≡ some (o, t)
    → s6.thread_count ≡ 1
    → proceed os context new s ≡ some (1, o, t)
proceed_first os context new s s6 t o is_first e e' one = ground (arith, is_first, e, e', one)

-- The first call of my_pthread_create, with no thread in a queue, the flag FIRST, the counter at 1,
-- a memory manager that can serve the library and a timer that is accepted, does not fault: it gives
-- the id 1, and switches from the thread of the caller to the new thread, in a machine whose levels
-- are kept and whose timer has the time of the new thread's level. The memory manager is set up and
-- idle behind it, and both threads stand in the OS region given out.
pub my_pthread_create-Started :
    (os : Platform) (s : Machine)
    → s.first_thread ≡ true
    → s.fc ≡ first
    → s.thread_count ≡ 1
    → ((j : ℕ) → s.rqs j ≡ [])
    → Servable os s.mm
    → ((usec : ℕ) → os.setitimer usec ≡ true)
    → (new : Ptr) × (old : Ptr) × (o : Outcome) × (t : Machine) × (my_pthread_create os s
        ≡ some (1, o, t))
      × (t.thread_count ≡ 2)
      × Started new old o t
      × (t.first_thread ≡ false)
      × (t.mm.first_call ≡ false)
      × (t.mm.mem_flag ≡ false)
      × (new < t.mm.os_mem_ptr)
      × (old < t.mm.os_mem_ptr)
my_pthread_create-Started os s is_first call one none_yet servable accepts =
    let (context, new, mm', run, set_up, idle, top, pos, above) =
      my_pthread_create-Prepared os s servable in
    let (old, s6, e, count, flag, b, later, kept_up, new_in, old_in) =
      create_first-Begun os context new (record s { mm = mm' }) pos (omega (arith, top)) set_up idle
        none_yet in
    let (o, t, e', kept, started) =
      scheduler-Started os new old (record s6 { thread_count = (s6.thread_count + 1) % 2 ^ 32 }) b
        (flag ∙ call) accepts in
    let after =
      scheduler-Same os (record s6 { thread_count = (s6.thread_count + 1) % 2 ^ 32 }) t o e' in
    (
      new,
      old,
      o,
      t,
      run ∙ proceed_first os context new (record s { mm = mm' }) s6 t o is_first e e' (count ∙ one),
      kept ∙ ap (λ k. (k + 1) % 2 ^ 32) (count ∙ one),
      started,
      after.3 ∙ later,
      after.1 ∙ kept_up,
      after.0 ∙ b.4,
      omega (arith, after.2, new_in),
      omega (arith, after.2, old_in),
    )
