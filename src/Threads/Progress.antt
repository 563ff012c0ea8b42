-- ===== src/Threads/Progress.antt =====
-- A call of scheduler on a running machine.
use asst.Base.{
  ℕ, ◌+◌, ◌%◌, ◌^◌, ◌≡◌, ◌≢◌, ◌∙◌, refl, sym, ◌⊎◌, inl, inr, true, false, Option, some, Ptr, null,
  arith,
}
use asst.Types.{Platform, FlagCalled, none_flag, timer, yield, pexit, join, first, blocked}
use asst.Memory.{Mm}
use asst.Memory.Swap.{lock_mem}
use asst.Threads.{Machine}
use asst.Threads.Scheduler.{
  Outcome, returned, set_context, swap_context, quantum, switch_to, update_queue, dispatch,
  scheduler,
}
use asst.Threads.Invariant.{Named, Running}
use asst.Threads.Dispatch.{Placed}
use asst.Threads.Maintain.{update_queue-Placed}
use asst.Threads.Choice.{EmptyFrom, Choice, choose-Chosen}

-- The thread that runs is at the front of its level, with the time of that level.
abbrev pub Switched : (ℕ → Ptr) → Outcome → Machine → Type 0
Switched owner o s =
    Running owner s × (o ≢ returned) × (s.timer ≡ some (quantum (s.tcbs s.current).thread_priority))

-- Either every queue is empty and the call returns, or a thread runs.
abbrev pub Settled : (ℕ → Ptr) → Outcome → Machine → Type 0
Settled owner o s = EmptyFrom s.rqs 0 10 × (o ≡ returned) ⊎ Switched owner o s

abbrev pub Scheduled : (ℕ → Ptr) → Option (Outcome × Machine) → Type 0
Scheduled owner r = (o : Outcome) × (s : Machine) × (r ≡ some (o, s)) × Settled owner o s

module _ (os : Platform) (owner : ℕ → Ptr) (s : Machine) (n : Ptr) (s' : Machine)
    (c : Choice owner s n s')
    (accepted : os.setitimer (quantum (s'.tcbs n).thread_priority) ≡ true) where
  -- The machine after the switch, up to what the switch leaves to mm and fc.
  abbrev pub resumed : Mm → FlagCalled → Machine
  resumed mm f = record s' {
    timer = some (quantum (s'.tcbs n).thread_priority);
    current = n;
    mm = mm;
    fc = f;
  }

  pub resumed-Running : (mm : Mm) (f : FlagCalled) → Running owner (resumed mm f)
  resumed-Running mm f = record {
    queues = record { ready = c.queues.ready; levels = c.queues.levels; parked = c.queues.parked };
    rest = c.rest;
    front = c.front;
    low = c.low;
  }

  switch_to-pexit :
      s'.fc ≡ pexit → switch_to os n s' ≡ some (set_context n, resumed s'.mm none_flag)
  unfolding switch_to
  switch_to-pexit e = ground (arith, e, accepted)

  pub switch_to-saved :
      (f : FlagCalled)
      → s'.fc ≡ f
      → f ≢ pexit
      → s'.current ≢ null
      → switch_to os n s' ≡ some (swap_context s'.current n, resumed (lock_mem s'.mm) s'.fc)
  unfolding switch_to
  switch_to-saved none_flag e ne some_one = ground (arith, e, accepted, some_one)
  switch_to-saved timer e ne some_one = ground (arith, e, accepted, some_one)
  switch_to-saved yield e ne some_one = ground (arith, e, accepted, some_one)
  switch_to-saved pexit e ne some_one = elim (ne refl) [ ]
  switch_to-saved join e ne some_one = ground (arith, e, accepted, some_one)
  switch_to-saved first e ne some_one = ground (arith, e, accepted, some_one)
  switch_to-saved blocked e ne some_one = ground (arith, e, accepted, some_one)

  switch_to-Switched :
      (s'.fc ≡ pexit) ⊎ (s'.fc ≢ pexit) × (s'.current ≢ null)
      → (o : Outcome) × (t : Machine) × (switch_to os n s' ≡ some (o, t)) × Switched owner o t
  switch_to-Switched (inl e) = (
    set_context n,
    resumed s'.mm none_flag,
    switch_to-pexit e,
    (resumed-Running s'.mm none_flag, ground arith, refl),
  )
  switch_to-Switched (inr (ne, some_one)) = (
    swap_context s'.current n,
    resumed (lock_mem s'.mm) s'.fc,
    switch_to-saved s'.fc refl ne some_one,
    (resumed-Running (lock_mem s'.mm) s'.fc, ground arith, refl),
  )

exits : (f : FlagCalled) → (f ≡ pexit) ⊎ (f ≢ pexit)
exits none_flag = inr (ground arith)
exits timer = inr (ground arith)
exits yield = inr (ground arith)
exits pexit = inl refl
exits join = inr (ground arith)
exits first = inr (ground arith)
exits blocked = inr (ground arith)

scheduler_chosen :
    (os : Platform) (owner : ℕ → Ptr) (s s1 : Machine)
    → s.mm.mem_flag ≡ false
    → ((usec : ℕ) → os.setitimer usec ≡ true)
    → update_queue s ≡ some (false, s1)
    → Placed owner s1
    → Scheduled owner (scheduler os s)
unfolding scheduler
scheduler_chosen os owner s s1 idle accepts updated placed =
    let s2 = record s1 { maintenance_count = (s1.maintenance_count + 1) % 2 ^ 32 } in
    elim (choose-Chosen owner s2
      (record {
        ready = placed.queues.ready;
        levels = placed.queues.levels;
        parked = placed.queues.parked;
      })
      (someone_named placed.someone)) [
        | inl (empty, e) ↦ (returned, s2, ground (arith, idle, updated, e), inl (empty, refl))
        | inr (n, s3, e, c) ↦
            let (o, t, switched, running) =
              switch_to-Switched os owner s2 n s3 c (accepts _) (leaving c (exits s3.fc)) in
            (o, t, ground (arith, idle, updated, e, switched), inr running)
      ]
  where
    someone_named :
        (s1.current ≡ null) × (s1.fc ≡ pexit) ⊎ Named owner s1.tcbs s1.current
        → (s1.current ≡ null) ⊎ Named owner s1.tcbs s1.current
    someone_named (inl gone) = inl gone.0
    someone_named (inr named) = inr named

    leaving :
        {n : Ptr} {s3 : Machine}
        → Choice owner (record s1 { maintenance_count = (s1.maintenance_count + 1) % 2 ^ 32 }) n s3
        → (s3.fc ≡ pexit) ⊎ (s3.fc ≢ pexit)
        → (s3.fc ≡ pexit) ⊎ (s3.fc ≢ pexit) × (s3.current ≢ null)
    leaving c (inl e) = inl e
    leaving c (inr ne) = elim placed.someone [
      | inl gone ↦ inl (c.same_flag ∙ gone.1)
      | inr named ↦ inr (ne, λ e. named.0 (sym c.same_current ∙ e))
    ]

-- With the flag NONE the current thread resumes.
scheduler_resumed :
    (os : Platform) (s : Machine)
    → s.mm.mem_flag ≡ false
    → s.fc ≡ none_flag
    → scheduler os s ≡ some (returned, s)
unfolding scheduler update_queue dispatch
scheduler_resumed os s idle unset = ground (arith, idle, unset)

pub scheduler-Scheduled :
    (os : Platform) (owner : ℕ → Ptr) (s : Machine)
    → Running owner s
    → s.mm.mem_flag ≡ false
    → ((usec : ℕ) → os.setitimer usec ≡ true)
    → ((s.fc ≡ none_flag) → scheduler os s ≡ some (returned, s))
      × ((s.fc ≢ none_flag) → Scheduled owner (scheduler os s))
scheduler-Scheduled os owner s r idle accepts = (
  scheduler_resumed os s idle,
  (λ flagged. elim (update_queue-Placed owner s r) [
    | inl (none_set, e) ↦ absurd (flagged none_set)
    | inr (s1, e, placed) ↦ scheduler_chosen os owner s s1 idle accepts e placed
  ]),
)
