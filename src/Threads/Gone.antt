-- ===== src/Threads/Gone.antt =====
-- The thread that exits stands in no queue, and a join finds its value.
use asst.Base.{
  ℕ, ◌+◌, ◌-◌, ◌%◌, ◌^◌, ◌<◌, ◌≡◌, ◌≢◌, ◌∙◌, refl, sym, subst, true, false, Bool-cases, inl, inr,
  ◌⊎◌, Option, none, some, List, [], ◌∷◌, ◌++◌, Ptr, null, ltb, update, All-append, NotIn, arith,
}
use asst.Types.{none_flag, Platform, pexit}
use asst.Threads.{Machine, set_rq}
use asst.Threads.Scheduler.{
  Outcome, maintain, update_queue, dispatch, first_queue, choose, switch_to, scheduler,
}
use asst.Threads.Invariant.{Running, NotIn-taken}
use asst.Threads.Parked.{NotIn-set, NotIn-parked}
use asst.Threads.Dispatch.{taken, take_current-taken}
use asst.Threads.Maintain.{reset_all, reset_priorities-reset_all, update_queue-Placed}
use asst.Threads.Join.{exited, find_exit, my_pthread_exit, my_pthread_join}
use asst.Threads.Exit.{my_pthread_exit-Ends, my_pthread_exit-Leaves}
use asst.Threads.Choice.{EmptyFrom}
use asst.Threads.Later.{scheduler-Ends}

abbrev pub Absent : Ptr → Machine → Type 0
Absent n s = ((i : ℕ) → NotIn n (s.rqs i)) × NotIn n s.waiting_queue × NotIn n s.join_queue

maintain-Absent :
    (n : Ptr) (s s' : Machine)
    → maintain s ≡ some s'
    → Absent n s
    → Absent n s' × (s'.current ≡ s.current) × (s'.fc ≡ s.fc)
unfolding maintain
maintain-Absent n s s' h out = by_lowest (s.rqs 9) refl
  where
    by_lowest :
        (q : List Ptr) → s.rqs 9 ≡ q → Absent n s' × (s'.current ≡ s.current) × (s'.fc ≡ s.fc)
    by_lowest [] e =
        let same : (s'.rqs ≡ s.rqs)
            × (s'.waiting_queue ≡ s.waiting_queue)
            × (s'.join_queue ≡ s.join_queue)
            × (s'.current ≡ s.current)
            × (s'.fc ≡ s.fc) =
          ground (arith, e, h) in
        (rw (same.0, same.1, same.2) out, same.3, same.4)
    by_lowest (m ∷ q) e = elim (Bool-cases (ltb 100 s.maintenance_count)) [
      | inr early ↦
          let same : s ≡ s' = ground (arith, early, h) in
          subst (λ t. Absent n t × (t.current ≡ s.current) × (t.fc ≡ s.fc)) same (out, refl, refl)
      | inl due ↦
          let t = record s {
            maintenance_count = 0;
            rqs = update (update s.rqs 0 (s.rqs 0 ++ m ∷ q)) 9 [];
            tcbs = reset_all (s.rqs 0 ++ m ∷ q) s.tcbs;
          } in
          let same : t ≡ s' = ground (
            arith,
            due,
            e,
            h,
            reset_priorities-reset_all (s.rqs 0 ++ m ∷ q)
                (set_rq 9 [] (set_rq 0 (s.rqs 0 ++ m ∷ q) (record s { maintenance_count = 0 }))),
          ) in
          subst (λ u. Absent n u × (u.current ≡ s.current) × (u.fc ≡ s.fc)) same
            (
              (
                (NotIn-set (update s.rqs 0 (s.rqs 0 ++ m ∷ q)) 9 [] n tt (
                    NotIn-set s.rqs 0 (s.rqs 0 ++ m ∷ q) n
                      (All-append (λ k. k ≢ n) (s.rqs 0) (m ∷ q) (out.0 0) (rw e at (out.0 9)))
                      out.0)),
                out.1,
                out.2,
              ),
              refl,
              refl,
            )
    ]

-- Without a current thread the choice changes nothing.
choose_nobody :
    (s s' : Machine) (n : Ptr) → s.current ≡ null → choose s ≡ some (some (n, s')) → s ≡ s'
unfolding choose
choose_nobody s s' n nobody h = by_queue (first_queue 10 0 s) refl
  where
    by_queue : (q : Option (List Ptr)) → first_queue 10 0 s ≡ q → s ≡ s'
    by_queue none e = ground (arith, e, h)
    by_queue (some []) e = ground (arith, e, h)
    by_queue (some (m ∷ rest)) e = ground (arith, e, h, nobody)

switch_to-Absent :
    (os : Platform) (out n : Ptr) (s s' : Machine) (o : Outcome)
    → switch_to os n s ≡ some (o, s')
    → Absent out s
    → Absent out s'
unfolding switch_to
switch_to-Absent os out n s s' o h absent =
    let same : (s'.rqs ≡ s.rqs)
        × (s'.waiting_queue ≡ s.waiting_queue)
        × (s'.join_queue ≡ s.join_queue) =
      ground (arith, h) in
    rw (same.0, same.1, same.2) absent

-- The machine behind the dispatch of an exit.
exit-Absent :
    (owner : ℕ → Ptr) (s : Machine) (r : Running owner s)
    → Absent s.current (record (taken owner s r) { current = null })
exit-Absent owner s r = (
  NotIn-taken owner s.tcbs s.rqs s.current r.rest r.queues.levels r.front,
  NotIn-parked owner s.tcbs s.rqs s.current r.rest s.waiting_queue s.join_queue r.queues.levels
      r.front r.queues.parked s.waiting_queue r.queues.parked.0,
  NotIn-parked owner s.tcbs s.rqs s.current r.rest s.waiting_queue s.join_queue r.queues.levels
      r.front r.queues.parked s.join_queue r.queues.parked.2,
)

update_queue-Absent :
    (owner : ℕ → Ptr) (s s' : Machine)
    → Running owner s
    → s.fc ≡ pexit
    → update_queue s ≡ some (false, s')
    → Absent s.current s' × (s'.current ≡ null)
unfolding update_queue dispatch
update_queue-Absent owner s s' r flag h =
    by_rest (maintain (record (taken owner s r) { current = null })) refl
  where
    by_rest :
        (m : Option Machine)
        → maintain (record (taken owner s r) { current = null }) ≡ m
        → Absent s.current s' × (s'.current ≡ null)
    by_rest none e = ground (arith, flag, take_current-taken owner s r, e, h)
    by_rest (some t) e =
        let same : t ≡ s' = ground (arith, flag, take_current-taken owner s r, e, h) in
        let (absent, nobody, f) = maintain-Absent s.current _ t e (exit-Absent owner s r) in
        subst (λ u. Absent s.current u × (u.current ≡ null)) same (absent, nobody)

scheduler-Absent :
    (os : Platform) (owner : ℕ → Ptr) (s t : Machine) (o : Outcome)
    → Running owner s
    → s.fc ≡ pexit
    → s.mm.mem_flag ≡ false
    → scheduler os s ≡ some (o, t)
    → Absent s.current t
unfolding scheduler
scheduler-Absent os owner s t o r flag idle h = elim (update_queue-Placed owner s r) [
  | inl (e, stays) ↦ elim (no_flag (sym e ∙ flag)) [ ]
  | inr (s1, e, placed) ↦
      let (absent, nobody) = update_queue-Absent owner s s1 r flag e in
      by_choice s1 e absent nobody
        (choose (record s1 { maintenance_count = (s1.maintenance_count + 1) % 2 ^ 32 })) refl
]
  where
    no_flag : none_flag ≢ pexit
    no_flag = ground arith

    by_choice :
        (s1 : Machine)
        → update_queue s ≡ some (false, s1)
        → Absent s.current s1
        → s1.current ≡ null
        → (c : Option (Option (Ptr × Machine)))
        → choose (record s1 { maintenance_count = (s1.maintenance_count + 1) % 2 ^ 32 }) ≡ c
        → Absent s.current t
    by_choice s1 e absent nobody none f = ground (arith, idle, e, f, h)
    by_choice s1 e absent nobody (some none) f =
        let same : record s1 { maintenance_count = (s1.maintenance_count + 1) % 2 ^ 32 } ≡ t =
          ground (arith, idle, e, f, h) in
        subst (Absent s.current) same absent
    by_choice s1 e absent nobody (some (some (n, s3))) f =
        let s2 = record s1 { maintenance_count = (s1.maintenance_count + 1) % 2 ^ 32 } in
        let same : s2 ≡ s3 = choose_nobody s2 s3 n nobody f in
        switch_to-Absent os s.current n s3 t o (ground (arith, idle, e, f, h))
          (subst (Absent s.current) same absent)

-- A thread that exits from a running machine, with the memory manager set up and a timer that is
-- accepted, stands in no queue behind the call, and the thread that runs then, if one runs, is
-- another.
pub my_pthread_exit-Absent :
    (os : Platform) (owner : ℕ → Ptr) (v : Ptr) (s : Machine)
    → Running owner s
    → s.mm.first_call ≡ false
    → ((usec : ℕ) → os.setitimer usec ≡ true)
    → (o : Outcome) × (t : Machine) × (my_pthread_exit os v s ≡ some (o, t))
      × Absent s.current t
      × (EmptyFrom t.rqs 0 10 ⊎ (t.current ≢ s.current))
my_pthread_exit-Absent os owner v s r set_up accepts =
    let (s', (e, r', flag, cur, list, idle, set_up', top, count, later)) =
      my_pthread_exit-Leaves os owner v s r set_up in
    let (o, t, step, ends) = scheduler-Ends os owner s' r' idle accepts in
    let absent : Absent s.current t =
      subst (λ n. Absent n t) cur (scheduler-Absent os owner s' t o r' flag idle step) in
    (
      o,
      t,
      e ∙ step,
      absent,
      elim ends [
        | inl (empty, back) ↦ inl empty
        | inr running ↦ inr (rw running.front at (absent.0 (t.tcbs t.current).thread_priority)).0
      ],
    )

-- The value with which a thread exits is the one that a join of its id gives at once behind the
-- exit: from a running machine, with the memory manager set up, a timer that is accepted, and the
-- id of the thread among those given out.
pub my_pthread_exit-join :
    (os : Platform) (owner : ℕ → Ptr) (v : Ptr) (s : Machine)
    → Running owner s
    → s.mm.first_call ≡ false
    → ((usec : ℕ) → os.setitimer usec ≡ true)
    → (s.tcbs s.current).tid < s.thread_count
    → s.thread_count < 2 ^ 32
    → (o : Outcome) × (t : Machine) × (my_pthread_exit os v s ≡ some (o, t))
      × (my_pthread_join os (s.tcbs s.current).tid t ≡ some (exited v, t))
unfolding my_pthread_join find_exit
my_pthread_exit-join os owner v s r set_up accepts known ids =
    let (o, t, step, ends, list, idle, set_up', top, count, later) =
      my_pthread_exit-Ends os owner v s r set_up accepts in
    let given : ltb ((t.thread_count + 2 ^ 32 - 1) % 2 ^ 32) (s.tcbs s.current).tid ≡ false =
      ground (arith, count, known, ids) in
    (o, t, step, ground (arith, given, list))
