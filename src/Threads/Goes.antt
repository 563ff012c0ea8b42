-- ===== src/Threads/Goes.antt =====
-- The timer, yield, create and exit on a machine between two calls.
use asst.Base.{ℕ, ◌+◌, ◌≡◌, ◌∙◌, refl, true, inl, inr, some, List, [], ◌∷◌, Ptr, update, arith}
use asst.Types.{Tcb, Platform, FlagCalled, timer}
use asst.Threads.{Machine, set_tcb}
use asst.Threads.Scheduler.{Outcome, scheduler, timer_triggered, my_pthread_yield}
use asst.Threads.Invariant.{Running}
use asst.Threads.Dispatch.{c_Named}
use asst.Threads.Frame.{Same, Same-trans, scheduler-Same}
use asst.Threads.Waking.{Running-same}
use asst.Threads.Later.{Bounded-started, Ends, scheduler-Ends, my_pthread_create-Ends}
use asst.Threads.Blocking.{Running-noted}
use asst.Threads.Region.{my_pthread_exit-block}
use asst.Threads.Exit.{my_pthread_exit-Ends}
use asst.Threads.System.{Call, tick, yield, create, exit, call, Allowed, Live, After}

-- Where the ids and the state of the memory manager stay, a machine that runs is between two calls.
pub Live-kept :
    (owner : ℕ → Ptr) (s t : Machine)
    → t.mm.mem_flag ≡ s.mm.mem_flag
    → t.mm.first_call ≡ s.mm.first_call
    → t.mm.os_mem_ptr ≡ s.mm.os_mem_ptr
    → t.first_thread ≡ s.first_thread
    → t.thread_count ≡ s.thread_count
    → t.mm.myblock_ptr ≡ s.mm.myblock_ptr
    → Running owner t
    → Live owner s
    → Live owner t
Live-kept owner s t idle set_up os_mem later count block r l = record {
  running = r;
  idle = idle ∙ l.idle;
  set_up = set_up ∙ l.set_up;
  later = later ∙ l.later;
  bounded = rw (os_mem, count) l.bounded;
  some_thread = rw count l.some_thread;
  ids = rw count l.ids;
  inside = rw (os_mem, block) l.inside;
}

After-Ends :
    (owner : ℕ → Ptr) (s t : Machine) (o : Outcome)
    → Same s t
    → Ends owner o t
    → Live owner s
    → After t
After-Ends owner s t o same (inl (empty, e)) l = inr empty
After-Ends owner s t o same (inr r) l =
    inl (owner, Live-kept owner s t same.0 same.1 same.2 same.3 same.4 same.8 r l)

module _ (os : Platform) (accepts : (usec : ℕ) → os.setitimer usec ≡ true) (owner : ℕ → Ptr)
    (s : Machine) (l : Live owner s) where
  -- The machine behind a call of the scheduler on a machine that is noted and flagged.
  scheduler-After :
      (s1 : Machine)
      → Running owner s1
      → Same s s1
      → (o : Outcome) × (t : Machine) × (scheduler os s1 ≡ some (o, t)) × After t
  scheduler-After s1 r same =
      let (o, t, step, ends) = scheduler-Ends os owner s1 r (same.0 ∙ l.idle) accepts in
      (
        o,
        t,
        step,
        After-Ends owner s t o (Same-trans s s1 t same (scheduler-Same os s1 t o step)) ends l,
      )

  pub noted_After :
      (u : Tcb) (f : FlagCalled)
      → u.tid ≡ (s.tcbs s.current).tid
      → u.thread_priority ≡ (s.tcbs s.current).thread_priority
      → (o : Outcome) × (t : Machine) × (scheduler os (record (set_tcb s.current u s) { fc = f })
          ≡ some (o, t))
        × After t
  noted_After u f same_tid same_level =
      scheduler-After (record (set_tcb s.current u s) { fc = f })
        (Running-noted owner s u f same_tid same_level l.running)
        (refl, refl, refl, refl, refl, refl, refl, refl, refl)

  flagged_After :
      (f : FlagCalled)
      → (o : Outcome) × (t : Machine) × (scheduler os (record s { fc = f }) ≡ some (o, t)) × After t
  flagged_After f =
      scheduler-After (record s { fc = f })
        (Running-same owner s (record s { fc = f }) refl refl refl refl refl refl l.running)
        (refl, refl, refl, refl, refl, refl, refl, refl, refl)

  abbrev pub Goes : Call → Type 0
  Goes c = (t : Machine) × (call os c s ≡ some t) × After t

  pub tick-Goes : Goes tick
  unfolding call timer_triggered
  tick-Goes = let (o, t, step, after) = flagged_After timer in (t, rw step refl, after)

  pub yield-Goes : Goes yield
  unfolding call my_pthread_yield
  yield-Goes = by_rest l.running.rest l.running.front
    where
      by_rest :
          (q : List Ptr) → s.rqs (s.tcbs s.current).thread_priority ≡ s.current ∷ q → Goes yield
      by_rest [] e = (
        s,
        ground (arith, (c_Named owner s l.running).0, l.running.queues.ready, l.running.low, e),
        inl (owner, l),
      )
      by_rest (m ∷ q) e =
          let (o, t, step, after) = flagged_After FlagCalled.yield in
          (
            t,
            ground (
              arith,
              (c_Named owner s l.running).0,
              l.running.queues.ready,
              l.running.low,
              e,
              step,
            ),
            after,
          )

  pub create-Goes : Allowed os create s → Goes create
  unfolding call
  create-Goes fits =
      let (new, o, t, step, ends, idle, set_up, below, total, inside, later, count) =
        my_pthread_create-Ends os owner s l.running l.later l.set_up l.bounded accepts fits.1 in
      (
        t,
        rw step refl,
        elim ends [
          | inl (empty, e) ↦ inr empty
          | inr r ↦
              let next : t.thread_count ≡ s.thread_count + 1 = ground (arith, count, fits.0) in
              inl (
                update owner s.thread_count new,
                record {
                  running = r;
                  idle = idle;
                  set_up = set_up;
                  later = later;
                  bounded = rw next (
                      Bounded-started owner s.mm.os_mem_ptr t.mm.os_mem_ptr s.thread_count new below
                        (omega (arith, total)) l.bounded);
                  some_thread = omega (arith, next);
                  ids = omega (arith, next, fits.0);
                  inside = inside;
                },
              )
        ],
      )

  pub exit-Goes : (v : Ptr) → Allowed os (exit v) s → Goes (exit v)
  unfolding call
  exit-Goes v fits =
      let (o, t, step, ends, exits, idle, set_up, top, count, later) =
        my_pthread_exit-Ends os owner v s l.running l.set_up accepts in
      (
        t,
        rw step refl,
        elim ends [
          | inl (empty, e) ↦ inr empty
          | inr r ↦ inl (
            owner,
            record {
              running = r;
              idle = idle;
              set_up = set_up;
              later = later ∙ l.later;
              bounded = (
                (λ k. ground (arith, top, l.bounded.0 k)),
                (λ k h. l.bounded.1 k (ground (arith, count, h))),
              );
              some_thread = rw count l.some_thread;
              ids = rw count l.ids;
              inside = rw (top, my_pthread_exit-block os v s t o l.set_up step) fits;
            },
          )
        ],
      )
