-- ===== src/Threads/Steps.antt =====
-- Every allowed call on a machine between two calls, and every run of them.
use asst.Base.{
  ℕ, ◌+◌, ◌%◌, ◌^◌, ◌≡◌, ◌∙◌, refl, sym, subst, ap, true, false, Bool-cases, inl, inr, Option, none,
  some, Ptr, minus_one, ltb, ◌-◌, arith,
}
use asst.Types.{Platform, FlagCalled, blocked}
use asst.Threads.{Machine}
use asst.Threads.Dispatch.{c_Named}
use asst.Threads.Waking.{Running-same}
use asst.Threads.Join as Joins
use asst.Threads.Mutexes.{mutex_init, mutex_lock, mutex_destroy, find_waiter, set_mutex}
use asst.Threads.Unlock.{mutex_unlock-Running}
use asst.Threads.System.{
  Call, tick, yield, create, exit, join, init, lock_round, unlock, destroy, call, Allowed, Live,
  After, Run, start, next,
}
use asst.Threads.Goes.{Goes, Live-kept, noted_After, tick-Goes, yield-Goes, create-Goes, exit-Goes}

module _ (os : Platform) (accepts : (usec : ℕ) → os.setitimer usec ≡ true) (owner : ℕ → Ptr)
    (s : Machine) (l : Live owner s) where
  join-Goes : (thread : ℕ) → Goes os accepts owner s l (join thread)
  unfolding call Joins.my_pthread_join
  join-Goes thread = by_find (Joins.find_exit thread s.exit_list) refl
    where
      by_find :
          (r : Option Ptr)
          → Joins.find_exit thread s.exit_list ≡ r
          → Goes os accepts owner s l (join thread)
      by_find r f = elim (Bool-cases (ltb ((s.thread_count + 2 ^ 32 - 1) % 2 ^ 32) thread)) [
        | inl over ↦ (s, rw over refl, inl (owner, l))
        | inr under ↦ by_range under r f
      ]
        where
          by_range :
              ltb ((s.thread_count + 2 ^ 32 - 1) % 2 ^ 32) thread ≡ false
              → (q : Option Ptr) → Joins.find_exit thread s.exit_list ≡ q
              → Goes os accepts owner s l (join thread)
          by_range under (some v) e = (s, rw (under, e) refl, inl (owner, l))
          by_range under none e =
              let (o, t, step, after) =
                noted_After os accepts owner s l (record (s.tcbs s.current) { join_id = thread })
                  FlagCalled.join refl refl in
              (t, ground (arith, under, e, (c_Named owner s l.running).0, step), after)

  init-Goes : (m : Ptr) → Allowed os (init m) s → Goes os accepts owner s l (init m)
  unfolding call mutex_init
  init-Goes m ne =
      let t =
        set_mutex m
          (record { mid = s.mutex_count; locked = false; tid = minus_one; ready_waiting = false })
          (record s { mutex_count = (s.mutex_count + 1) % 2 ^ 32 }) in
      (
        t,
        ground (arith, ne),
        inl (
          owner,
          Live-kept owner s t refl refl refl refl refl refl
              (Running-same owner s t refl refl refl refl refl refl l.running) l,
        ),
      )

  lock-Goes : (m : Ptr) → Allowed os (lock_round m) s → Goes os accepts owner s l (lock_round m)
  unfolding call mutex_lock
  lock-Goes m ne = elim (Bool-cases (s.mutexes m).locked) [
    | inr free ↦
        let t =
          set_mutex m
            (record (s.mutexes m) {
              locked = true;
              tid = (s.tcbs s.current).tid;
              ready_waiting = false;
            })
            s in
        (
          t,
          ground (arith, ne, free, (c_Named owner s l.running).0),
          inl (
            owner,
            Live-kept owner s t refl refl refl refl refl refl
                (Running-same owner s t refl refl refl refl refl refl l.running) l,
          ),
        )
    | inl taken ↦
        let (o, t, step, after) =
          noted_After os accepts owner s l (record (s.tcbs s.current) { mid = (s.mutexes m).mid })
            blocked refl refl in
        (t, ground (arith, ne, taken, (c_Named owner s l.running).0, step), after)
  ]

  unlock-Goes : (m : Ptr) → Allowed os (unlock m) s → Goes os accepts owner s l (unlock m)
  unfolding call
  unlock-Goes m first =
      let (r, t, step, running, quiet) = mutex_unlock-Running owner m s l.running first in
      (
        t,
        rw step refl,
        inl (
          owner,
          Live-kept owner s t (ap (λ mm. mm.mem_flag) quiet.0) (ap (λ mm. mm.first_call) quiet.0)
              (ap (λ mm. mm.os_mem_ptr) quiet.0) quiet.2 quiet.3 (ap (λ mm. mm.myblock_ptr) quiet.0)
              running l,
        ),
      )

  destroy-Goes : (m : Ptr) → Goes os accepts owner s l (destroy m)
  unfolding call mutex_destroy
  destroy-Goes m = by_waiter (find_waiter (s.mutexes m).mid s.tcbs s.waiting_queue) refl
    where
      by_waiter :
          (w : Option Ptr)
          → find_waiter (s.mutexes m).mid s.tcbs s.waiting_queue ≡ w
          → Goes os accepts owner s l (destroy m)
      by_waiter none e = (s, ground (arith, e, l.running.queues.ready), inl (owner, l))
      by_waiter (some n) e = (s, ground (arith, e, l.running.queues.ready), inl (owner, l))

-- On a machine between two calls, with a timer that is accepted, no allowed call faults, where a call
-- to lock a mutex counts round by round: it ends in a machine between two calls, under some names of the
-- threads, with every block of the library inside the 8 MB of the memory manager, or with every run
-- queue empty. A creation or an exit is allowed while that block has room for what it takes, a creation
-- while ids are left, a lock round of a mutex that is not NULL, as is the making of one, and an unlock
-- where no thread waits for the mutex or the front of the waiting queue is the first that does.
pub call-After :
    (os : Platform) (accepts : (usec : ℕ) → os.setitimer usec ≡ true) (owner : ℕ → Ptr)
    (s : Machine)
    → Live owner s
    → (c : Call) → Allowed os c s
    → (t : Machine) × (call os c s ≡ some t) × After t
call-After os accepts owner s l tick a = tick-Goes os accepts owner s l
call-After os accepts owner s l yield a = yield-Goes os accepts owner s l
call-After os accepts owner s l create a = create-Goes os accepts owner s l a
call-After os accepts owner s l (exit v) a = exit-Goes os accepts owner s l v a
call-After os accepts owner s l (join thread) a = join-Goes os accepts owner s l thread
call-After os accepts owner s l (init m) a = init-Goes os accepts owner s l m a
call-After os accepts owner s l (lock_round m) a = lock-Goes os accepts owner s l m a
call-After os accepts owner s l (unlock m) a = unlock-Goes os accepts owner s l m a
call-After os accepts owner s l (destroy m) a = destroy-Goes os accepts owner s l m

pub some_inj : {a b : Machine} → some a ≡ some b → a ≡ b
some_inj h = cc

-- Every machine that a run of allowed calls comes to, from a machine between two calls and with a
-- timer that is accepted, is between two calls itself, under some names of the threads, or has every
-- run queue empty, where the run ends.
pub Run-After :
    (os : Platform) (owner : ℕ → Ptr) (s t : Machine)
    → ((usec : ℕ) → os.setitimer usec ≡ true)
    → Live owner s
    → Run os s t
    → After t
Run-After os owner s t accepts l start = inl (owner, l)
Run-After os owner s t accepts l (next {t = u} c run some_one allowed step) =
    elim (Run-After os owner s u accepts l run) [
      | inr empty ↦ elim (some_one empty) [ ]
      | inl (owner', l') ↦
          let (t', step', after) = call-After os accepts owner' u l' c allowed in
          subst After (some_inj (sym step' ∙ step)) after
    ]
