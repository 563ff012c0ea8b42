-- ===== src/Threads/Stuck.antt =====
-- A request that is refused leaves mem_flag set, and the scheduler waits for it.
use asst.Base.{ℕ, ◌<◌, ◌≡◌, ◌≢◌, true, false, refl, some, null, ltb, if◌then◌else◌, arith}
use asst.Types.{Tcb, Platform, threadreq, timer}
use asst.Memory.{Mm, enter}
use asst.Memory.Library.{begin_call}
use asst.Memory.Chunk.{num_of_pages, allocate_chunk}
use asst.Memory.Allocate.{myallocate}
use asst.Threads.{Machine}
use asst.Threads.Scheduler.{returned, quantum, scheduler, timer_triggered, postpone}

allocate_chunk-refused :
    (x : ℕ) (t : Tcb) (m : Mm)
    → t.first_page ≡ null
    → 1596 < num_of_pages x
    → allocate_chunk x t m ≡ some (null, t, m)
unfolding allocate_chunk
allocate_chunk-refused x t m no_page many =
    let over : ltb 1596 (num_of_pages x) ≡ true = ground (arith, many) in simp (no_page, over)

scheduler-postponed :
    (os : Platform) (s : Machine)
    → s.mm.mem_flag ≡ true
    → s.current ≢ null
    → (s' : Machine) × (scheduler os s ≡ some (returned, s'))
      × (s'.current ≡ s.current)
      × (s'.rqs ≡ s.rqs)
unfolding scheduler postpone
scheduler-postponed os s busy someone = (
  record s {
    timer =
        if os.setitimer (quantum (s.tcbs s.current).thread_priority)
        then some (quantum (s.tcbs s.current).thread_priority)
        else s.timer;
  },
  ground (arith, busy, someone),
  refl,
  refl,
)

-- A request of more than 4064 bytes and more than 1596 pages, by a thread that has no page yet and
-- not the first call of all, returns NULL; with the state that it leaves, the next timer interrupt
-- returns to it and changes neither the current thread nor the run queues.
pub myallocate-refused-timer :
    (os : Platform) (x : ℕ) (s : Machine)
    → s.mm.first_call ≡ false
    → s.current ≢ null
    → (s.tcbs s.current).first_page ≡ null
    → 4064 < x
    → 1596 < num_of_pages x
    → (mm' : Mm) × (s' : Machine) × (myallocate os x threadreq (s.tcbs s.current) s.mm
        ≡ some (null, s.tcbs s.current, mm'))
      × (timer_triggered os (record s { mm = mm' }) ≡ some (returned, s'))
      × (s'.current ≡ s.current)
      × (s'.rqs ≡ s.rqs)
unfolding myallocate begin_call timer_triggered
myallocate-refused-timer os x s later someone no_page large many =
    let (s', step, same_current, same_rqs) =
      scheduler-postponed os (record s { mm = enter s.mm; fc = timer }) refl someone in
    (
      enter s.mm,
      s',
      (let over : ltb 4064 x ≡ true = ground (arith, large) in
          ground (
            arith,
            later,
            over,
            allocate_chunk-refused x (s.tcbs s.current) (enter s.mm) no_page many,
          )),
      step,
      same_current,
      same_rqs,
    )
