-- ===== src/Threads/Dispatch.antt =====
-- updateQueue keeps the levels, for every flag with which the scheduler is called.
use asst.Base.{
  ℕ, ◌+◌, ◌<◌, ◌≡◌, ◌≢◌, refl, ◌⊎◌, inl, inr, Bool, true, Bool-cases, Option, some, none, List, [],
  ◌∷◌, ◌++◌, Ptr, null, ltb, update, arith,
}
use asst.Types.{Tcb, FlagCalled, none_flag, timer, yield, pexit, join, first, blocked}
use asst.Threads.{Machine, current_tcb, set_tcb, set_rq, dequeuee, enqueuee, requeue}
use asst.Threads.Scheduler.{demote, rotate, take_current, dispatch}
use asst.Threads.Parked.{tid-update, Parked-take, Parked-move, Parked-wait, Parked-join}
use asst.Threads.Invariant.{Named, Ready, Running, Named-front, LevelsOf-take, LevelsOf-move}

requeue_lem :
    (i j : ℕ) (s : Machine) (c : Ptr) (rest : List Ptr)
    → s.ready ≡ true
    → i < 10
    → j < 10
    → c ≢ null
    → s.rqs i ≡ c ∷ rest
    → requeue i j s ≡ some (set_rq j (update s.rqs i rest j ++ c ∷ []) (set_rq i rest s))
unfolding requeue dequeuee enqueuee
requeue_lem i j s c rest ready hi hj ne e = ground (arith, e)

-- What updateQueue leaves: the levels are kept, and there is a current thread unless it exits.
pub record Placed (owner : ℕ → Ptr) (s : Machine) : Type 0 where
  pub queues : Ready owner s
  pub someone : (s.current ≡ null) × (s.fc ≡ pexit) ⊎ Named owner s.tcbs s.current

module _ (owner : ℕ → Ptr) (s : Machine) (r : Running owner s) where
  pub c_Named : Named owner s.tcbs s.current
  c_Named = Named-front owner s.tcbs s.rqs s.current r.rest r.queues.levels r.front

  current_lem : current_tcb s ≡ some (s.tcbs s.current)
  current_lem = ground (arith, c_Named)

  -- The current thread moves to the end of its own level.
  abbrev pub rotated : Machine
  rotated =
      let q = (s.tcbs s.current).thread_priority in
      set_rq q (update s.rqs q r.rest q ++ s.current ∷ []) (set_rq q r.rest s)

  pub rotate-rotated : rotate s ≡ some rotated
  unfolding rotate
  rotate-rotated =
      rw current_lem
        (requeue_lem _ _ s s.current r.rest r.queues.ready r.low r.low c_Named.0 r.front)

  pub rotated-Ready : Ready owner rotated
  rotated-Ready = record {
    ready = r.queues.ready;
    levels =
        LevelsOf-move owner s.tcbs s.rqs s.current r.rest r.queues.levels r.front s.tcbs
          (s.tcbs s.current).thread_priority (λ n e. refl) (refl, c_Named.0, c_Named.1);
    parked =
        Parked-move owner s.tcbs s.rqs s.current r.rest s.waiting_queue s.join_queue r.queues.levels
          r.front r.queues.parked s.tcbs (s.tcbs s.current).thread_priority (λ n. refl);
  }

  -- A thread that used its time up goes down one level, and stays on the last.
  abbrev pub demoted_block : Tcb
  demoted_block = let t = s.tcbs s.current in record t { thread_priority = t.thread_priority + 1 }

  abbrev pub demoted : Machine
  demoted =
      let q = (s.tcbs s.current).thread_priority in
      record (set_rq (q + 1) (update s.rqs q r.rest (q + 1) ++ s.current ∷ [])
        (set_rq q r.rest (set_tcb s.current demoted_block s))) { fc = none_flag }

  demote-demoted : (s.tcbs s.current).thread_priority < 9 → demote s ≡ some demoted
  unfolding demote
  demote-demoted low = ground (
    arith,
    c_Named,
    requeue_lem (s.tcbs s.current).thread_priority ((s.tcbs s.current).thread_priority + 1)
        (set_tcb s.current demoted_block s) s.current r.rest r.queues.ready r.low (omega arith)
        c_Named.0 r.front,
  )

  demoted-Placed : Placed owner demoted
  demoted-Placed = record {
    queues = record {
      ready = r.queues.ready;
      levels =
          LevelsOf-move owner s.tcbs s.rqs s.current r.rest r.queues.levels r.front
            (update s.tcbs s.current demoted_block) ((s.tcbs s.current).thread_priority + 1)
            (λ n e. ground arith) (ground (arith, c_Named));
      parked =
          Parked-move owner s.tcbs s.rqs s.current r.rest s.waiting_queue s.join_queue
            r.queues.levels r.front r.queues.parked (update s.tcbs s.current demoted_block)
            ((s.tcbs s.current).thread_priority + 1)
            (tid-update s.tcbs s.current demoted_block refl);
    };
    someone = inr (ground (arith, c_Named));
  }

  demote_last :
      (s.tcbs s.current).thread_priority ≡ 9 → demote s ≡ some (record rotated { fc = none_flag })
  unfolding demote
  demote_last last = ground (
    arith,
    c_Named,
    requeue_lem (s.tcbs s.current).thread_priority (s.tcbs s.current).thread_priority s s.current
        r.rest r.queues.ready r.low r.low c_Named.0 r.front,
  )

  rotated-Placed : Placed owner (record rotated { fc = none_flag })
  rotated-Placed = record {
    queues = record {
      ready = rotated-Ready.ready;
      levels = rotated-Ready.levels;
      parked = rotated-Ready.parked;
    };
    someone = inr c_Named;
  }

  -- The machine without the current thread in its level.
  abbrev pub taken : Machine
  taken = set_rq (s.tcbs s.current).thread_priority r.rest s

  pub take_current-taken : take_current s ≡ some (s.current, taken)
  unfolding take_current dequeuee
  take_current-taken = ground (arith, c_Named, r.queues.ready, r.front, r.low)

  taken-Ready : Ready owner taken
  taken-Ready = record {
    ready = r.queues.ready;
    levels =
        LevelsOf-take owner s.tcbs s.rqs s.current r.rest r.queues.levels r.front s.tcbs
          (λ n e. refl);
    parked =
        Parked-take owner s.tcbs s.rqs s.current r.rest s.waiting_queue s.join_queue r.queues.levels
          r.front r.queues.parked s.tcbs (λ n. refl);
  }

  -- The result of the switch, for each flag but NONE and FIRST.
  abbrev pub Dispatched : Option (Option Bool × Machine) → Type 0
  Dispatched o = (s' : Machine) × (o ≡ some (none, s')) × Placed owner s'

  dispatch_timer : Dispatched (dispatch timer s)
  unfolding dispatch
  dispatch_timer = elim (Bool-cases (ltb (s.tcbs s.current).thread_priority 9)) [
    | inl low ↦ (demoted, rw (demote-demoted (ground arith)), demoted-Placed)
    | inr high ↦ (
      record rotated { fc = none_flag },
      rw (demote_last (ground (arith, r.low))),
      rotated-Placed,
    )
  ]

  dispatch_yield : Dispatched (dispatch yield s)
  unfolding dispatch
  dispatch_yield = (record rotated { fc = none_flag }, rw rotate-rotated, rotated-Placed)

  dispatch_exit : s.fc ≡ pexit → Dispatched (dispatch pexit s)
  unfolding dispatch
  dispatch_exit e = (
    record taken { current = null },
    rw take_current-taken,
    record {
      queues = record {
        ready = taken-Ready.ready;
        levels = taken-Ready.levels;
        parked = taken-Ready.parked;
      };
      someone = inl (refl, e);
    },
  )

  dispatch_join : Dispatched (dispatch join s)
  unfolding dispatch enqueuee
  dispatch_join = (
    record taken { join_queue = taken.join_queue ++ s.current ∷ []; fc = none_flag },
    rw take_current-taken (ground (arith, c_Named)),
    record {
      queues = record {
        ready = taken-Ready.ready;
        levels = taken-Ready.levels;
        parked =
            Parked-join owner s.tcbs s.rqs s.current r.rest s.waiting_queue s.join_queue
              r.queues.levels r.front r.queues.parked;
      };
      someone = inr c_Named;
    },
  )

  dispatch_blocked : Dispatched (dispatch blocked s)
  unfolding dispatch enqueuee
  dispatch_blocked = (
    record taken { waiting_queue = taken.waiting_queue ++ s.current ∷ []; fc = none_flag },
    rw take_current-taken (ground (arith, c_Named)),
    record {
      queues = record {
        ready = taken-Ready.ready;
        levels = taken-Ready.levels;
        parked =
            Parked-wait owner s.tcbs s.rqs s.current r.rest s.waiting_queue s.join_queue
              r.queues.levels r.front r.queues.parked;
      };
      someone = inr c_Named;
    },
  )

  pub dispatch-Dispatched :
      (f : FlagCalled) → s.fc ≡ f → (f ≡ none_flag) ⊎ (f ≡ first) ⊎ Dispatched (dispatch f s)
  dispatch-Dispatched none_flag e = inl refl
  dispatch-Dispatched timer e = inr (inr dispatch_timer)
  dispatch-Dispatched yield e = inr (inr dispatch_yield)
  dispatch-Dispatched pexit e = inr (inr (dispatch_exit e))
  dispatch-Dispatched join e = inr (inr dispatch_join)
  dispatch-Dispatched first e = inr (inl refl)
  dispatch-Dispatched blocked e = inr (inr dispatch_blocked)
