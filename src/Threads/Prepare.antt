-- ===== src/Threads/Prepare.antt =====
-- The five blocks with which every my_pthread_create begins.
use asst.Base.{
  ℕ, ◌+◌, ◌%◌, ◌^◌, ◌≡◌, ◌≢◌, inl, inr, refl, ◌∙◌, Bool-cases, false, Option, some, Ptr, null,
  if◌then◌else◌, ◌>>=◌, arith,
}
use asst.Types.{Platform, sizeof_tcb, sizeof_context_node}
use asst.Memory.{Mm}
use asst.Threads.{Machine, clear_mem_flag}
use asst.Threads.Scheduler.{Outcome, scheduler}
use asst.Threads.Create.{create_first, create_next, my_pthread_create}
use asst.Threads.Served.{Servable, allocate-Allocated}
use asst.Threads.Region.{allocate-Took}

-- What my_pthread_create does behind the five blocks.
abbrev pub proceed : Platform → Ptr → Ptr → Machine → Option (ℕ × Outcome × Machine)
proceed os context new s = do
  s6 ← (if s.first_thread then create_first os context new s else create_next os context new s)
  (outcome, s7) ← scheduler os (record s6 { thread_count = (s6.thread_count + 1) % 2 ^ 32 })
  some (s6.thread_count, outcome, s7)

-- The node of the new thread is the last block given out, above those of before.
abbrev pub Prepared : Platform → Machine → Type 0
Prepared os s =
    (context : Ptr) × (new : Ptr) × (mm' : Mm) × (my_pthread_create os s
      ≡ proceed os context new (record s { mm = mm' }))
    × (mm'.first_call ≡ false)
    × (mm'.mem_flag ≡ false)
    × (mm'.os_mem_ptr ≡ new + sizeof_context_node)
    × (new ≢ null)
    × ((s.mm.first_call ≡ false)
        → (new ≡ s.mm.os_mem_ptr + os.sizeof_ucontext + 2080 + os.sizeof_ucontext + sizeof_tcb)
          × (mm'.myblock_ptr ≡ s.mm.myblock_ptr))

prepare_from :
    (os : Platform) (s : Machine) (m : Mm)
    → Servable os m
    → m.first_call ≡ s.mm.first_call
    → m.os_mem_ptr ≡ s.mm.os_mem_ptr
    → m.myblock_ptr ≡ s.mm.myblock_ptr
    → (if s.first_thread then clear_mem_flag s else s) ≡ record s { mm = m }
    → Prepared os s
unfolding my_pthread_create
prepare_from os s m servable same_first same_top same_block start =
    let (p1, mm1, e1, later1, idle1, m1, same1) =
      allocate-Allocated os os.sizeof_ucontext (record s { mm = m }) servable in
    let (p2, mm2, e2, later2, idle2, m2, same2) =
      allocate-Allocated os 2080 (record s { mm = mm1 }) (inl later1) in
    let (p3, mm3, e3, later3, idle3, m3, same3) =
      allocate-Allocated os os.sizeof_ucontext (record s { mm = mm2 }) (inl later2) in
    let (p4, mm4, e4, later4, idle4, m4, same4) =
      allocate-Allocated os sizeof_tcb (record s { mm = mm3 }) (inl later3) in
    let (new, mm5, e5, later5, idle5, m5, same5) =
      allocate-Allocated os sizeof_context_node (record s { mm = mm4 }) (inl later4) in
    (
      p3,
      new,
      mm5,
      rw (start, e1, e2, e3, e4, e5) refl,
      later5,
      idle5,
      m5,
      omega (arith, m4, same5 later4),
      (λ set_up. (
        omega (
          arith,
          same_top,
          same1 (same_first ∙ set_up),
          m1,
          same2 later1,
          m2,
          same3 later2,
          m3,
          same4 later3,
          m4,
          same5 later4,
        ),
        (allocate-Took os sizeof_context_node (record s { mm = mm4 }) (record s { mm = mm5 }) new
              later4 e5).1
            ∙ ((allocate-Took os sizeof_tcb (record s { mm = mm3 }) (record s { mm = mm4 }) p4
                  later3 e4).1
                ∙ ((allocate-Took os os.sizeof_ucontext (record s { mm = mm2 })
                      (record s { mm = mm3 }) p3 later2 e3).1
                    ∙ ((allocate-Took os 2080 (record s { mm = mm1 }) (record s { mm = mm2 }) p2
                          later1 e2).1
                        ∙ ((allocate-Took os os.sizeof_ucontext (record s { mm = m })
                              (record s { mm = mm1 }) p1 (same_first ∙ set_up) e1).1
                            ∙ same_block)))),
      )),
    )

pub my_pthread_create-Prepared : (os : Platform) (s : Machine) → Servable os s.mm → Prepared os s
my_pthread_create-Prepared os s servable = elim (Bool-cases s.first_thread) [
  | inl is_first ↦
      prepare_from os s (record (s.mm) { mem_flag = false }) servable refl refl refl
        (ground (arith, is_first))
  | inr later ↦ prepare_from os s s.mm servable refl refl refl (ground (arith, later))
]
