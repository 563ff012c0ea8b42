-- ===== src/Threads/Rests.antt =====
-- The scheduler and the queues of the threads that wait: a thread that calls it with BLOCKED or JOIN
-- goes to the end of one of them.
use asst.Base.{
  ℕ, ◌+◌, ◌-◌, ◌%◌, ◌^◌, ◌≡◌, ◌∙◌, refl, subst, inl, inr, Bool-cases, true, false, Option, none,
  some, List, [], ◌∷◌, ◌++◌, Ptr, null, ◌==◌, >>=-eq_some, arith,
}
use asst.Types.{Platform, none_flag, join, blocked}
use asst.Threads.{Machine, requeue, set_tcb, set_rq, enqueuee}
use asst.Threads.Scheduler.{
  Outcome, scheduler, update_queue, dispatch, rotate, maintain, reset_priorities, choose,
  first_queue, first_level, next_context, switch_to,
}
use asst.Threads.Invariant.{Running}
use asst.Threads.Dispatch.{taken, take_current-taken, c_Named}

-- The threads that wait, and what they wait for.
abbrev pub Rests : Machine → Machine → Type 0
Rests s s' =
    (s'.waiting_queue ≡ s.waiting_queue)
    × (s'.join_queue ≡ s.join_queue)
    × ((p : Ptr) → (s'.tcbs p).mid ≡ (s.tcbs p).mid)
    × ((p : Ptr) → (s'.tcbs p).join_id ≡ (s.tcbs p).join_id)

Rests-trans : (s t u : Machine) → Rests s t → Rests t u → Rests s u
Rests-trans s t u (a, b, c, d) (a', b', c', d') =
    (a' ∙ a, b' ∙ b, (λ p. c' p ∙ c p), (λ p. d' p ∙ d p))

rotate-Rests : (s s' : Machine) → rotate s ≡ some s' → Rests s s'
unfolding rotate requeue
rotate-Rests s s' h = (ground arith, ground arith, (λ p. ground arith), (λ p. ground arith))

reset_priorities-Rests : (q : List Ptr) (s : Machine) → Rests s (reset_priorities q s)
unfolding reset_priorities
reset_priorities-Rests [] s = (refl, refl, (λ p. refl), (λ p. refl))
reset_priorities-Rests (n ∷ q) s =
    let s1 = set_tcb n (record (s.tcbs n) { thread_priority = 0 }) s in
    Rests-trans s s1 (reset_priorities q s1) (refl, refl, (λ p. ground arith), (λ p. ground arith))
      (reset_priorities-Rests q s1)

maintain-Rests : (s s' : Machine) → maintain s ≡ some s' → Rests s s'
unfolding maintain
maintain-Rests s s' h = by_lowest (s.rqs 9) refl
  where
    by_lowest : (q : List Ptr) → s.rqs 9 ≡ q → Rests s s'
    by_lowest [] e = (
      ground (arith, e, h),
      ground (arith, e, h),
      (λ p. ground (arith, e, h)),
      (λ p. ground (arith, e, h)),
    )
    by_lowest (n ∷ q) e =
        let merged =
          set_rq 9 [] (set_rq 0 (s.rqs 0 ++ n ∷ q) (record s { maintenance_count = 0 })) in
        let (a, b, c, d) = reset_priorities-Rests (s.rqs 0 ++ n ∷ q) merged in
        (
          ground (arith, e, h, a),
          ground (arith, e, h, b),
          (λ p. ground (arith, e, h, c p)),
          (λ p. ground (arith, e, h, d p)),
        )

next_context-Rests :
    (level : ℕ) (rest : List Ptr) (s s' : Machine) (n : Ptr)
    → next_context level rest s ≡ some (n, s')
    → Rests s s'
unfolding next_context
next_context-Rests level [] s s' n h =
    let (q, e, e') = >>=-eq_some (first_queue (10 - (level + 1)) (level + 1) s) _ h in
    let (s1, r, e2) = >>=-eq_some (rotate s) _ e' in
    let same : s1 ≡ s' = ground (arith, e2) in subst (Rests s) same (rotate-Rests s s1 r)
next_context-Rests level (m ∷ r) s s' n h =
    let (s1, r, e2) = >>=-eq_some (rotate s) _ h in
    let same : s1 ≡ s' = ground (arith, e2) in subst (Rests s) same (rotate-Rests s s1 r)

choose-Rests : (s s' : Machine) (n : Ptr) → choose s ≡ some (some (n, s')) → Rests s s'
unfolding choose
choose-Rests s s' n h = by_queue (first_queue 10 0 s) refl
  where
    stays : s ≡ s' → Rests s s'
    stays same = subst (Rests s) same (refl, refl, (λ p. refl), (λ p. refl))

    by_next :
        (m : Ptr) (rest : List Ptr) (c : Option (Ptr × Machine))
        → first_queue 10 0 s ≡ some (m ∷ rest)
        → next_context (first_level 10 0 s) rest s ≡ c
        → Rests s s'
    by_next m rest c e f = elim (Bool-cases (s.current == null)) [
      | inl nobody ↦ stays (ground (arith, e, f, h, nobody))
      | inr someone ↦ elim (Bool-cases ((s.tcbs m).tid == (s.tcbs s.current).tid)) [
        | inr other ↦ stays (ground (arith, e, f, h, someone, other))
        | inl own ↦ by_chosen m rest c e f someone own
      ]
    ]
      where
        by_chosen :
            (m : Ptr) (rest : List Ptr) (c : Option (Ptr × Machine))
            → first_queue 10 0 s ≡ some (m ∷ rest)
            → next_context (first_level 10 0 s) rest s ≡ c
            → (s.current == null) ≡ false
            → ((s.tcbs m).tid == (s.tcbs s.current).tid) ≡ true
            → Rests s s'
        by_chosen m rest none e f someone own = ground (arith, e, f, h, someone, own)
        by_chosen m rest (some (k, s1)) e f someone own =
            let same : s1 ≡ s' = ground (arith, e, f, h, someone, own) in
            subst (Rests s) same (next_context-Rests (first_level 10 0 s) rest s s1 k f)

    by_queue : (q : Option (List Ptr)) → first_queue 10 0 s ≡ q → Rests s s'
    by_queue none e = ground (arith, e, h)
    by_queue (some []) e = ground (arith, e, h)
    by_queue (some (m ∷ rest)) e = by_next m rest _ e refl

switch_to-Rests :
    (os : Platform) (n : Ptr) (s s' : Machine) (o : Outcome)
    → switch_to os n s ≡ some (o, s')
    → Rests s s'
unfolding switch_to
switch_to-Rests os n s s' o h =
    (ground (arith, h), ground (arith, h), (λ p. ground (arith, h)), (λ p. ground (arith, h)))

-- Behind the dispatch of its flag, the scheduler keeps the threads that wait.
scheduler-Rests :
    (os : Platform) (s s1 t : Machine) (o : Outcome)
    → s.mm.mem_flag ≡ false
    → dispatch s.fc s ≡ some (none, s1)
    → scheduler os s ≡ some (o, t)
    → Rests s1 t
unfolding scheduler update_queue
scheduler-Rests os s s1 t o idle dispatched h = by_maintain (maintain s1) refl
  where
    by_choice :
        (s2 : Machine) (c : Option (Option (Ptr × Machine)))
        → maintain s1 ≡ some s2
        → choose (record s2 { maintenance_count = (s2.maintenance_count + 1) % 2 ^ 32 }) ≡ c
        → Rests s1 t
    by_choice s2 none e f = ground (arith, idle, dispatched, e, f, h)
    by_choice s2 (some none) e f =
        let same : record s2 { maintenance_count = (s2.maintenance_count + 1) % 2 ^ 32 } ≡ t =
          ground (arith, idle, dispatched, e, f, h) in
        subst (Rests s1) same (maintain-Rests s1 s2 e)
    by_choice s2 (some (some (n, s3))) e f =
        let s2' = record s2 { maintenance_count = (s2.maintenance_count + 1) % 2 ^ 32 } in
        let run : switch_to os n s3 ≡ some (o, t) = ground (arith, idle, dispatched, e, f, h) in
        Rests-trans s1 s2 t (maintain-Rests s1 s2 e)
          (Rests-trans s2' s3 t (choose-Rests s2' s3 n f) (switch_to-Rests os n s3 t o run))

    by_maintain : (m : Option Machine) → maintain s1 ≡ m → Rests s1 t
    by_maintain none e = ground (arith, idle, dispatched, e, h)
    by_maintain (some s2) e = by_choice s2 _ e refl

module _ (os : Platform) (owner : ℕ → Ptr) (s t : Machine) (o : Outcome) (r : Running owner s)
    (idle : s.mm.mem_flag ≡ false) (run : scheduler os s ≡ some (o, t)) where
  -- With BLOCKED the current thread goes to the end of the waiting queue.
  pub scheduler_blocked :
      s.fc ≡ blocked
      → (t.waiting_queue ≡ s.waiting_queue ++ s.current ∷ [])
        × (t.join_queue ≡ s.join_queue)
        × ((p : Ptr) → (t.tcbs p).mid ≡ (s.tcbs p).mid)
  unfolding dispatch enqueuee
  scheduler_blocked flag =
      let s1 = record (taken owner s r) {
        waiting_queue = s.waiting_queue ++ s.current ∷ [];
        fc = none_flag;
      } in
      let step : dispatch s.fc s ≡ some (none, s1) =
        ground (arith, flag, take_current-taken owner s r, (c_Named owner s r).0) in
      let (waiting, joining, mids, ids) = scheduler-Rests os s s1 t o idle step run in
      (waiting, joining, mids)

  -- With JOIN it goes to the end of the join queue.
  pub scheduler_joining :
      s.fc ≡ join
      → (t.join_queue ≡ s.join_queue ++ s.current ∷ [])
        × (t.waiting_queue ≡ s.waiting_queue)
        × ((p : Ptr) → (t.tcbs p).join_id ≡ (s.tcbs p).join_id)
  unfolding dispatch enqueuee
  scheduler_joining flag =
      let s1 = record (taken owner s r) {
        join_queue = s.join_queue ++ s.current ∷ [];
        fc = none_flag;
      } in
      let step : dispatch s.fc s ≡ some (none, s1) =
        ground (arith, flag, take_current-taken owner s r, (c_Named owner s r).0) in
      let (waiting, joining, mids, ids) = scheduler-Rests os s s1 t o idle step run in
      (joining, waiting, ids)
