-- ===== src/Threads/First.antt =====
-- The first my_pthread_create: it sets the library up and runs the new thread.
use asst.Base.{
  ℕ, zero, suc, ◌+◌, ◌<◌, ◌≤◌, ◌≡◌, ◌≢◌, inl, ◌∙◌, refl, sym, true, false, Option, some, List, [],
  ◌∷◌, ◌++◌, Ptr, null, arith,
}
use asst.Types.{
  Tcb, Platform, stack_size, sizeof_tcb, sizeof_context_node, sizeof_queue, sizeof_levels,
}
use asst.Memory.{Mm}
use asst.Threads.{Machine, enqueuee, set_rq, set_tcb}
use asst.Threads.Create.{create_queues, create_scheduler, create_first, start, new_tcb}
use asst.Threads.Served.{allocate-Allocated}

-- The queues are made, each empty.
abbrev Emptied : Machine → Option Machine → Type 0
Emptied s o =
    (mm' : Mm) × (rqs' : ℕ → List Ptr) × (o ≡ some (record s { mm = mm'; rqs = rqs' }))
    × (mm'.first_call ≡ false)
    × (mm'.mem_flag ≡ s.mm.mem_flag)
    × (s.mm.os_mem_ptr ≤ mm'.os_mem_ptr)
    × ((j : ℕ) → rqs' j ≡ [])

create_queues-Emptied :
    (os : Platform) (k i : ℕ) (s : Machine)
    → s.mm.first_call ≡ false
    → s.mm.mem_flag ≡ false
    → ((j : ℕ) → s.rqs j ≡ [])
    → Emptied s (create_queues os k i s)
unfolding create_queues
create_queues-Emptied os zero i s later idle none_yet =
    (s.mm, s.rqs, refl, later, refl, omega arith, none_yet)
create_queues-Emptied os (suc k) i s later idle none_yet =
    let (p, mm1, e1, later1, idle1, m1, same) = allocate-Allocated os sizeof_queue s (inl later) in
    let (mm2, rqs2, e2, later2, idle2, m2, empty) =
      create_queues-Emptied os k (i + 1) (set_rq i [] (record s { mm = mm1 })) later1 idle1
        (λ j. ground (arith, none_yet j)) in
    (
      mm2,
      rqs2,
      rw e1 e2,
      later2,
      idle2 ∙ idle1 ∙ sym idle,
      omega (arith, same later, m1, m2),
      empty,
    )

create_scheduler-Emptied :
    (os : Platform) (s : Machine)
    → s.mm.first_call ≡ false
    → s.mm.mem_flag ≡ false
    → ((j : ℕ) → s.rqs j ≡ [])
    → Emptied
        (record s { ready = true; waiting_queue = []; join_queue = [] })
        (create_scheduler os s)
unfolding create_scheduler
create_scheduler-Emptied os s later idle none_yet =
    let (p1, mm1, e1, later1, idle1, m1, same1) =
      allocate-Allocated os sizeof_levels s (inl later) in
    let (mm2, rqs2, e2, later2, idle2, m2, empty) =
      create_queues-Emptied os 10 0 (record s { mm = mm1; ready = true }) later1 idle1 none_yet in
    let (p3, mm3, e3, later3, idle3, m3, same3) =
      allocate-Allocated os sizeof_queue (record s { mm = mm2; ready = true; rqs = rqs2 })
        (inl later2) in
    let (p4, mm4, e4, later4, idle4, m4, same4) =
      allocate-Allocated os sizeof_queue
        (record s { mm = mm3; ready = true; rqs = rqs2; waiting_queue = [] }) (inl later3) in
    (
      mm4,
      rqs2,
      ground (arith, e1, e2, e3, e4),
      later4,
      idle4 ∙ sym idle,
      omega (arith, m1, m2, m3, m4, same1 later, same3 later2, same4 later3),
      empty,
    )

pub start_lem :
    (n : Ptr) (t : Tcb) (q : List Ptr) (s : Machine)
    → n ≢ null
    → s.ready ≡ true
    → s.rqs 0 ≡ q
    → start n t s ≡ some (set_rq 0 (q ++ n ∷ []) (set_tcb n t s))
unfolding start enqueuee
start_lem n t q s ne ready e = ground (arith, ne, ready, e)

-- The machine with the two threads: the new one 1 in front of the old one 0, which is current.
abbrev pub Begun : Ptr → Ptr → Machine → Type 0
Begun new old s =
    (new ≢ null)
    × (old ≢ null)
    × (new ≢ old)
    × (s.ready ≡ true)
    × (s.mm.mem_flag ≡ false)
    × (s.rqs 0 ≡ new ∷ old ∷ [])
    × ((j : ℕ) → j ≢ 0 → s.rqs j ≡ [])
    × (s.current ≡ old)
    × ((s.tcbs new).tid ≡ 1)
    × ((s.tcbs new).thread_priority ≡ 0)
    × ((s.tcbs old).tid ≡ 0)
    × ((s.tcbs old).thread_priority ≡ 0)
    × (s.waiting_queue ≡ [])
    × (s.join_queue ≡ [])

-- Both threads are started on empty queues.
abbrev begun : Ptr → Ptr → Ptr → Ptr → Machine → Machine
begun new context old old_context s = set_rq 0 (new ∷ old ∷ []) (
    set_tcb old (new_tcb 0 old_context)
      (record (set_rq 0 (new ∷ []) (set_tcb new (new_tcb 1 context) s)) { current = old }))

begun-Begun :
    (new context old old_context : Ptr) (s : Machine)
    → new ≢ null
    → new < old
    → s.ready ≡ true
    → s.mm.mem_flag ≡ false
    → ((j : ℕ) → s.rqs j ≡ [])
    → s.waiting_queue ≡ []
    → s.join_queue ≡ []
    → Begun new old (begun new context old old_context s)
begun-Begun new context old old_context s ne apart ready idle empty none_waits none_joins = (
  ne,
  omega (arith, apart),
  omega (arith, apart),
  ready,
  idle,
  refl,
  (λ j n. ground (arith, n, empty j)),
  refl,
  ground (arith, apart),
  ground (arith, apart),
  ground (arith, apart),
  ground (arith, apart),
  none_waits,
  none_joins,
)

pub create_first-Begun :
    (os : Platform) (context new : Ptr) (s : Machine)
    → new ≢ null
    → new < s.mm.os_mem_ptr
    → s.mm.first_call ≡ false
    → s.mm.mem_flag ≡ false
    → ((j : ℕ) → s.rqs j ≡ [])
    → (old : Ptr) × (s' : Machine) × (create_first os context new s ≡ some s')
      × (s'.thread_count ≡ s.thread_count)
      × (s'.fc ≡ s.fc)
      × Begun new old s'
      × (s'.first_thread ≡ false)
      × (s'.mm.first_call ≡ false)
      × (new < s'.mm.os_mem_ptr)
      × (old < s'.mm.os_mem_ptr)
unfolding create_first
create_first-Begun os context new s ne below later idle none_yet =
    let s0 = record s { first_thread = false } in
    let (mm1, rqs1, e1, later1, idle1, m1, empty) =
      create_scheduler-Emptied os s0 later idle none_yet in
    let s1 = record s0 {
      mm = mm1;
      rqs = rqs1;
      ready = true;
      waiting_queue = [];
      join_queue = [];
    } in
    let (p2, mm2, e2, later2, idle2, m2, same2) =
      allocate-Allocated os os.sizeof_ucontext s1 (inl later1) in
    let (old, mm3, e3, later3, idle3, m3, same3) =
      allocate-Allocated os sizeof_context_node (record s1 { mm = mm2 }) (inl later2) in
    let (p4, mm4, e4, later4, idle4, m4, same4) =
      allocate-Allocated os sizeof_tcb (record s1 { mm = mm3 }) (inl later3) in
    let (p5, mm5, e5, later5, idle5, m5, same5) =
      allocate-Allocated os stack_size (record s1 { mm = mm4 }) (inl later4) in
    let s5 = record s1 { mm = mm5 } in
    let s6 = set_rq 0 (new ∷ []) (set_tcb new (new_tcb 1 context) s5) in
    let e6 = start_lem new (new_tcb 1 context) [] s5 ne refl (empty 0) in
    let apart : new < old = omega (arith, below, m1, m2, same2 later1, same3 later2) in
    let e7 =
      start_lem old (new_tcb 0 p2) (new ∷ []) (record s6 { current = old }) (omega (arith, apart))
        refl refl in
    (
      old,
      begun new context old p2 s5,
      rw (e1, e2, e3, e4, e5, e6) e7,
      refl,
      refl,
      begun-Begun new context old p2 s5 ne apart refl idle5 empty refl refl,
      refl,
      later5,
      omega (arith, apart, m3, same4 later3, m4, same5 later4, m5),
      omega (arith, m3, same4 later3, m4, same5 later4, m5),
    )
