-- ===== src/Threads/Joining.antt =====
-- my_pthread_join on a running machine.
use asst.Base.{
  ℕ, ◌+◌, ◌-◌, ◌%◌, ◌^◌, ◌<◌, ◌≤◌, ◌≡◌, ◌≢◌, ◌⊎◌, inl, inr, refl, ap, ◌∙◌, true, false, Bool-cases,
  none, some, List, [], ◌∷◌, ◌++◌, Ptr, ltb, ◌==◌, All, arith,
}
use asst.Types.{ExitNode, Platform, join}
use asst.Threads.{Machine, set_tcb}
use asst.Threads.Scheduler.{Outcome}
use asst.Threads.Join.{no_thread, exited, waits, my_pthread_join, find_exit}
use asst.Threads.Invariant.{Running}
use asst.Threads.Dispatch.{c_Named}
use asst.Threads.Progress.{Settled}
use asst.Threads.Rests.{scheduler_joining}
use asst.Threads.Blocking.{Running-noted, scheduler-flagged}

-- `v` is the value with which `thread` exited last: the first entry of its id.
abbrev pub ExitedWith : ℕ → Ptr → List ExitNode → Type 0
ExitedWith thread v es =
    (before : List ExitNode) × (after : List ExitNode) × (es
      ≡ before ++ record { tid = thread; value_ptr = v } ∷ after)
    × All (λ e. e.tid ≢ thread) before

-- The exit list is searched to its end, or to the entry of the thread.
find_exit-cases :
    (thread : ℕ) (es : List ExitNode)
    → All (λ e. e.tid ≢ thread) es × (find_exit thread es ≡ none)
      ⊎ ((v : Ptr) × ExitedWith thread v es × (find_exit thread es ≡ some v))
unfolding find_exit
find_exit-cases thread [] = inl (tt, refl)
find_exit-cases thread (e ∷ es) = elim (Bool-cases (e.tid == thread)) [
  | inl same ↦ inr (
    e.value_ptr,
    ([], es, ap (λ k. record { tid = k; value_ptr = e.value_ptr } ∷ es) (ground (arith, same)), tt),
    rw same refl,
  )
  | inr other ↦ elim (find_exit-cases thread es) [
    | inl (out, f) ↦ inl (((ground (arith, other)), out), rw other f)
    | inr (v, (before, after, split, out), f) ↦
        inr (
          v,
          (e ∷ before, after, ap (λ k. e ∷ k) split, ((ground (arith, other)), out)),
          rw other f,
        )
  ]
]

-- my_pthread_join on a running machine with at least one thread made, with the memory manager idle
-- and a timer that is accepted, does not fault: an id that was not given out yet is refused; for a
-- thread in the exit list it gives the value of its last exit at once; and for any other the
-- current thread notes the id and goes to the end of the join queue, the waiting queue stays, and the
-- scheduler either returns with every run queue empty or switches to the thread at the front of a level.
pub my_pthread_join-Scheduled :
    (os : Platform) (owner : ℕ → Ptr) (thread : ℕ) (s : Machine)
    → Running owner s
    → s.mm.mem_flag ≡ false
    → ((usec : ℕ) → os.setitimer usec ≡ true)
    → 0 < s.thread_count
    → s.thread_count < 2 ^ 32
    → (s.thread_count ≤ thread) × (my_pthread_join os thread s ≡ some (no_thread, s))
      ⊎ (thread < s.thread_count)
        × (((v : Ptr) × ExitedWith thread v s.exit_list
              × (my_pthread_join os thread s ≡ some (exited v, s)))
            ⊎ ((o : Outcome) × (s' : Machine) × All (λ e. e.tid ≢ thread) s.exit_list
                × (my_pthread_join os thread s ≡ some (waits o, s'))
                × (s'.join_queue ≡ s.join_queue ++ s.current ∷ [])
                × (s'.waiting_queue ≡ s.waiting_queue)
                × ((s'.tcbs s.current).join_id ≡ thread)
                × Settled owner o s'))
unfolding my_pthread_join
my_pthread_join-Scheduled os owner thread s r idle accepts some_thread low =
    elim (Bool-cases (ltb ((s.thread_count + 2 ^ 32 - 1) % 2 ^ 32) thread)) [
      | inl over ↦ inl (ground (arith, over, some_thread, low), rw over refl)
      | inr under ↦ inr (
        ground (arith, under, some_thread, low),
        elim (find_exit-cases thread s.exit_list) [
          | inr (v, at, f) ↦ inl (v, at, rw (under, f) refl)
          | inl (out, f) ↦
              let t = record (s.tcbs s.current) { join_id = thread } in
              let s1 = record (set_tcb s.current t s) { fc = join } in
              let r1 = Running-noted owner s t join refl refl r in
              let (o, s', step, settled) =
                scheduler-flagged os owner s1 r1 idle accepts (ground arith) in
              let (joining, waiting, ids) = scheduler_joining os owner s1 s' o r1 idle step refl in
              inr (
                o,
                s',
                out,
                ground (arith, under, f, (c_Named owner s r).0, step),
                joining,
                waiting,
                ids s.current ∙ ground arith,
                settled,
              )
        ],
      )
    ]
