-- ===== src/Threads/Frame.antt =====
-- What the scheduler leaves alone.
use asst.Base.{
  ℕ, ◌+◌, ◌-◌, ◌%◌, ◌^◌, ◌≡◌, ◌∙◌, refl, subst, inl, inr, Bool-cases, true, false, Bool, Option,
  none, some, List, [], ◌∷◌, ◌++◌, Ptr, >>=-eq_some, arith,
}
use asst.Types.{Platform, FlagCalled, none_flag, timer, yield, pexit, join, first, blocked}
use asst.Threads.{Machine, requeue, set_tcb, set_rq}
use asst.Threads.Scheduler.{
  Outcome, scheduler, update_queue, dispatch, demote, rotate, take_current, maintain,
  reset_priorities, choose, first_queue, first_level, next_context, switch_to, postpone,
}

-- The memory manager but for the protection of its frames, the mutexes, the exit list, the counters.
abbrev pub Same : Machine → Machine → Type 0
Same s s' =
    (s'.mm.mem_flag ≡ s.mm.mem_flag)
    × (s'.mm.first_call ≡ s.mm.first_call)
    × (s'.mm.os_mem_ptr ≡ s.mm.os_mem_ptr)
    × (s'.first_thread ≡ s.first_thread)
    × (s'.thread_count ≡ s.thread_count)
    × (s'.mutexes ≡ s.mutexes)
    × (s'.mutex_count ≡ s.mutex_count)
    × (s'.exit_list ≡ s.exit_list)
    × (s'.mm.myblock_ptr ≡ s.mm.myblock_ptr)

pub Same-trans : (s t u : Machine) → Same s t → Same t u → Same s u
Same-trans s t u (a, b, c, d, e, f, g, h, i) (a', b', c', d', e', f', g', h', i') =
    (a' ∙ a, b' ∙ b, c' ∙ c, d' ∙ d, e' ∙ e, f' ∙ f, g' ∙ g, h' ∙ h, i' ∙ i)

requeue-Same : (i j : ℕ) (s s' : Machine) → requeue i j s ≡ some s' → Same s s'
unfolding requeue
requeue-Same i j s s' h = ground arith

demote-Same : (s s' : Machine) → demote s ≡ some s' → Same s s'
unfolding demote
demote-Same s s' h = ground arith

take_current-Same : (s s' : Machine) (n : Ptr) → take_current s ≡ some (n, s') → Same s s'
unfolding take_current
take_current-Same s s' n h = ground arith

rotate-Same : (s s' : Machine) → rotate s ≡ some s' → Same s s'
unfolding rotate
rotate-Same s s' h = ground arith

dispatch-Same :
    (f : FlagCalled) (s s' : Machine) (r : Option Bool) → dispatch f s ≡ some (r, s') → Same s s'
unfolding dispatch
dispatch-Same none_flag s s' r h = ground arith
dispatch-Same first s s' r h = ground arith
dispatch-Same timer s s' r h = ground arith
dispatch-Same yield s s' r h = ground arith
dispatch-Same pexit s s' r h = ground arith
dispatch-Same join s s' r h = ground arith
dispatch-Same blocked s s' r h = ground arith

reset_priorities-Same : (q : List Ptr) (s : Machine) → Same s (reset_priorities q s)
unfolding reset_priorities
reset_priorities-Same [] s = (refl, refl, refl, refl, refl, refl, refl, refl, refl)
reset_priorities-Same (n ∷ q) s =
    reset_priorities-Same q (set_tcb n (record (s.tcbs n) { thread_priority = 0 }) s)

maintain-Same : (s s' : Machine) → maintain s ≡ some s' → Same s s'
unfolding maintain
maintain-Same s s' h = by_lowest (s.rqs 9) refl
  where
    by_lowest : (q : List Ptr) → s.rqs 9 ≡ q → Same s s'
    by_lowest [] e = ground (arith, e, h)
    by_lowest (n ∷ q) e = ground (
      arith,
      e,
      h,
      reset_priorities-Same (s.rqs 0 ++ n ∷ q)
          (set_rq 9 [] (set_rq 0 (s.rqs 0 ++ n ∷ q) (record s { maintenance_count = 0 }))),
    )

update_queue-Same : (s s' : Machine) (b : Bool) → update_queue s ≡ some (b, s') → Same s s'
unfolding update_queue
update_queue-Same s s' b h = by_result (dispatch s.fc s) refl
  where
    by_rest :
        (s1 : Machine) (m : Option Machine)
        → dispatch s.fc s ≡ some (none, s1)
        → maintain s1 ≡ m
        → Same s s'
    by_rest s1 none e f = ground (arith, e, f, h)
    by_rest s1 (some s2) e f =
        let same : s2 ≡ s' = ground (arith, e, f, h) in
        subst (Same s) same
          (Same-trans s s1 s2 (dispatch-Same s.fc s s1 none e) (maintain-Same s1 s2 f))

    by_result : (r : Option (Option Bool × Machine)) → dispatch s.fc s ≡ r → Same s s'
    by_result none e = ground (arith, e, h)
    by_result (some (some resume, s1)) e =
        ground (arith, e, h, dispatch-Same s.fc s s1 (some resume) e)
    by_result (some (none, s1)) e = by_rest s1 (maintain s1) e refl

next_context-Same :
    (level : ℕ) (rest : List Ptr) (s s' : Machine) (n : Ptr)
    → next_context level rest s ≡ some (n, s')
    → Same s s'
unfolding next_context
next_context-Same level [] s s' n h =
    let (q, e, e') = >>=-eq_some (first_queue (10 - (level + 1)) (level + 1) s) _ h in
    let (s1, r, e2) = >>=-eq_some (rotate s) _ e' in ground (arith, e2, rotate-Same s s1 r)
next_context-Same level (m ∷ r) s s' n h =
    let (s1, r, e2) = >>=-eq_some (rotate s) _ h in ground (arith, e2, rotate-Same s s1 r)

choose-Same : (s s' : Machine) (n : Ptr) → choose s ≡ some (some (n, s')) → Same s s'
unfolding choose
choose-Same s s' n h = by_queue (first_queue 10 0 s) refl
  where
    by_next :
        (m : Ptr) (rest : List Ptr) (c : Option (Ptr × Machine))
        → first_queue 10 0 s ≡ some (m ∷ rest)
        → next_context (first_level 10 0 s) rest s ≡ c
        → Same s s'
    by_next m rest none e f = ground (arith, e, f, h)
    by_next m rest (some (k, s1)) e f =
        ground (arith, e, f, h, next_context-Same (first_level 10 0 s) rest s s1 k f)

    by_queue : (q : Option (List Ptr)) → first_queue 10 0 s ≡ q → Same s s'
    by_queue none e = ground (arith, e, h)
    by_queue (some []) e = ground (arith, e, h)
    by_queue (some (m ∷ rest)) e = by_next m rest _ e refl

switch_to-Same :
    (os : Platform) (n : Ptr) (s s' : Machine) (o : Outcome)
    → switch_to os n s ≡ some (o, s')
    → Same s s'
unfolding switch_to
switch_to-Same os n s s' o h = ground (arith, h)

pub scheduler-Same :
    (os : Platform) (s s' : Machine) (o : Outcome) → scheduler os s ≡ some (o, s') → Same s s'
unfolding scheduler postpone
scheduler-Same os s s' o h = elim (Bool-cases s.mm.mem_flag) [
  | inl busy ↦ ground (arith, busy, h)
  | inr free ↦ by_update free (update_queue s) refl
]
  where
    by_choice :
        (s1 : Machine) (c : Option (Option (Ptr × Machine)))
        → update_queue s ≡ some (false, s1)
        → choose (record s1 { maintenance_count = (s1.maintenance_count + 1) % 2 ^ 32 }) ≡ c
        → s.mm.mem_flag ≡ false
        → Same s s'
    by_choice s1 none e f free = ground (arith, free, e, f, h)
    by_choice s1 (some none) e f free =
        ground (arith, free, e, f, h, update_queue-Same s s1 false e)
    by_choice s1 (some (some (n, s3))) e f free =
        let run : switch_to os n s3 ≡ some (o, s') = ground (arith, free, e, f, h) in
        Same-trans s s1 s' (update_queue-Same s s1 false e) (
          Same-trans s1 s3 s'
            (choose-Same (record s1 { maintenance_count = (s1.maintenance_count + 1) % 2 ^ 32 }) s3
              n f)
            (switch_to-Same os n s3 s' o run))

    by_update :
        s.mm.mem_flag ≡ false → (r : Option (Bool × Machine)) → update_queue s ≡ r → Same s s'
    by_update free none e = ground (arith, free, e, h)
    by_update free (some (true, s1)) e = ground (arith, free, e, h, update_queue-Same s s1 true e)
    by_update free (some (false, s1)) e =
        by_choice s1
          (choose (record s1 { maintenance_count = (s1.maintenance_count + 1) % 2 ^ 32 })) e refl
          free
