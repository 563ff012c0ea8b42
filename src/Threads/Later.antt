-- ===== src/Threads/Later.antt =====
-- A later my_pthread_create.
use asst.Base.{
  ℕ, ◌≤◌, sym, ap, ◌+◌, ◌%◌, ◌^◌, ◌<◌, ◌≡◌, ◌≢◌, ◌⊎◌, inl, inr, refl, ◌∙◌, Bool-cases, true, false,
  some, List, [], ◌∷◌, ◌++◌, Ptr, null, ◌==◌, update, All, All-append, NotIn, Distinct-append,
  Disjoint-singleton, arith,
}
use asst.Types.{
  Tcb, Platform, stack_size, FlagCalled, none_flag, timer, yield, pexit, join, first, blocked,
}
use asst.Memory.{Mm}
use asst.Threads.{Machine, allocate, set_rq, set_tcb}
use asst.Threads.Scheduler.{Outcome, returned, scheduler}
use asst.Threads.Create.{create_next, new_tcb, my_pthread_create}
use asst.Threads.Parked.{All-map, NotIn-set, Parked-map}
use asst.Threads.Dispatch.{c_Named}
use asst.Threads.Invariant.{Named, Parked, AtLevel, LevelsOf, Running, LevelsOf-set}
use asst.Threads.Choice.{EmptyFrom}
use asst.Threads.Progress.{scheduler-Scheduled}
use asst.Threads.Frame.{scheduler-Same}
use asst.Threads.Waking.{front-joined}
use asst.Threads.Prepare.{proceed, my_pthread_create-Prepared}
use asst.Threads.Served.{allocate-Allocated}
use asst.Threads.First.{start_lem}
use asst.Threads.Region.{create_bytes, block_end, Inside, allocate-Took}

-- The threads stand below `top`, and the ids from `count` on name none.
abbrev pub Bounded : (ℕ → Ptr) → ℕ → ℕ → Type 0
Bounded owner top count = ((k : ℕ) → owner k < top) × ((k : ℕ) → count ≤ k → owner k ≡ null)

-- A new thread, and a region that has grown.
pub Bounded-started :
    (owner : ℕ → Ptr) (top top' count new : ℕ)
    → new < top'
    → top ≤ top'
    → Bounded owner top count
    → Bounded (update owner count new) top' (count + 1)
Bounded-started owner top top' count new inside grown bounded = (
  (λ k. elim (Bool-cases (k == count)) [
    | inl same ↦ rw same inside
    | inr other ↦ rw other (omega (arith, grown, bounded.0 k))
  ]),
  (λ k h. ground (arith, h, bounded.1 k)),
)

module _ (owner : ℕ → Ptr) (tcbs : Ptr → Tcb) (new context top count : ℕ) (pos : new ≢ null)
    (above : top ≤ new) (bounded : Bounded owner top count) where
  abbrev owner' : ℕ → Ptr
  owner' = update owner count new

  abbrev tcbs' : Ptr → Tcb
  tcbs' = update tcbs new (new_tcb count context)

  pub ne_new : (n : Ptr) → Named owner tcbs n → n ≢ new
  ne_new n named = omega (arith, above, bounded.0 (tcbs n).tid, named.1)

  tid_below : (n : Ptr) → Named owner tcbs n → (tcbs n).tid ≢ count
  tid_below n named e = named.0 (sym named.1 ∙ bounded.1 (tcbs n).tid (omega (arith, e)))

  Named-started : (n : Ptr) → Named owner tcbs n → Named owner' tcbs' n
  Named-started n named = (named.0, ground (arith, ne_new n named, tid_below n named, named.1))

  AtLevel-started : (i : ℕ) (n : Ptr) → AtLevel owner tcbs i n → AtLevel owner' tcbs' i n
  AtLevel-started i n at =
      let named = Named-started n (at.1, at.2) in
      (ground (arith, ne_new n (at.1, at.2), at.0), named.0, named.1)

  NotIn-new : (i : ℕ) (xs : List Ptr) → All (AtLevel owner tcbs i) xs → NotIn new xs
  NotIn-new i xs a = All-map xs (λ n at. ne_new n (at.1, at.2)) a

  LevelsOf-started :
      (rqs : ℕ → List Ptr)
      → LevelsOf owner tcbs rqs
      → LevelsOf owner' tcbs' (update rqs 0 (rqs 0 ++ new ∷ []))
  LevelsOf-started rqs levels =
      let base : LevelsOf owner' tcbs' rqs =
        λ i. (All-map (rqs i) (AtLevel-started i) (levels i).0, (levels i).1) in
      LevelsOf-set owner' tcbs' rqs 0 (rqs 0 ++ new ∷ [])
        (All-append (AtLevel owner' tcbs' 0) (rqs 0) (new ∷ []) (base 0).0
          ((ground arith, pos, ground arith), tt))
        (Distinct-append (rqs 0) (new ∷ []) (base 0).1 (tt, tt)
          (Disjoint-singleton new (rqs 0) (NotIn-new 0 (rqs 0) (levels 0).0)))
        base

  Parked-started :
      (rqs : ℕ → List Ptr) (w j : List Ptr)
      → Parked owner tcbs rqs w j
      → Parked owner' tcbs' (update rqs 0 (rqs 0 ++ new ∷ [])) w j
  Parked-started rqs w j =
      Parked-map owner owner' tcbs tcbs' rqs (update rqs 0 (rqs 0 ++ new ∷ [])) w j (λ n away. (
        Named-started n away.0,
        NotIn-set rqs 0 (rqs 0 ++ new ∷ []) n
            (All-append (λ m. m ≢ n) (rqs 0) (new ∷ []) (away.1 0)
              ((λ e. ne_new n away.0 (sym e)), tt))
            away.1,
      ))

-- The machine with the new thread at the end of level 0.
abbrev started : Ptr → Ptr → Machine → Machine
started new context s =
    set_rq 0 (s.rqs 0 ++ new ∷ []) (set_tcb new (new_tcb s.thread_count context) s)

Running-started :
    (owner : ℕ → Ptr) (new context top : ℕ) (s : Machine)
    → new ≢ null
    → top ≤ new
    → Bounded owner top s.thread_count
    → Running owner s
    → Running (update owner s.thread_count new) (started new context s)
Running-started owner new context top s pos above bounded r =
    let other : s.current ≢ new =
      ne_new owner s.tcbs new context top s.thread_count pos above bounded s.current
        (c_Named owner s r) in
    let same : (update s.tcbs new (new_tcb s.thread_count context) s.current).thread_priority
        ≡ (s.tcbs s.current).thread_priority =
      ground (arith, other) in
    let (rest, front) =
      front-joined s.rqs new s.current (s.tcbs s.current).thread_priority r.rest r.front in
    record {
      queues = record {
        ready = r.queues.ready;
        levels =
            LevelsOf-started owner s.tcbs new context top s.thread_count pos above bounded s.rqs
              r.queues.levels;
        parked =
            Parked-started owner s.tcbs new context top s.thread_count pos above bounded s.rqs
              s.waiting_queue s.join_queue r.queues.parked;
      };
      rest = rest;
      front = ap (update s.rqs 0 (s.rqs 0 ++ new ∷ [])) same ∙ front;
      low = rw same r.low;
    }

create_next_lem :
    (os : Platform) (context new stack : Ptr) (s : Machine) (mm' : Mm)
    → new ≢ null
    → s.ready ≡ true
    → allocate os stack_size s ≡ some (stack, record s { mm = mm' })
    → create_next os context new s ≡ some (started new context (record s { mm = mm' }))
unfolding create_next
create_next_lem os context new stack s mm' pos ready e = rw e (
    start_lem new (new_tcb s.thread_count context) (s.rqs 0) (record s { mm = mm' }) pos ready refl)

proceed_later :
    (os : Platform) (context new : Ptr) (s s6 t : Machine) (o : Outcome)
    → s.first_thread ≡ false
    → create_next os context new s ≡ some s6
    → scheduler os (record s6 { thread_count = (s6.thread_count + 1) % 2 ^ 32 }) ≡ some (o, t)
    → proceed os context new s ≡ some (s6.thread_count, o, t)
proceed_later os context new s s6 t o later e e' = ground (arith, later, e, e')

-- A running machine stays one whatever becomes of the memory manager and the counter.
Running-kept :
    (owner : ℕ → Ptr) (s : Machine) (mm : Mm) (count : ℕ)
    → Running owner s
    → Running owner (record s { mm = mm; thread_count = count })
Running-kept owner s mm count r = record {
  queues = record { ready = r.queues.ready; levels = r.queues.levels; parked = r.queues.parked };
  rest = r.rest;
  front = r.front;
  low = r.low;
}

-- How a call that ends in the scheduler leaves the machine.
abbrev pub Ends : (ℕ → Ptr) → Outcome → Machine → Type 0
Ends owner o t = EmptyFrom t.rqs 0 10 × (o ≡ returned) ⊎ Running owner t

pub scheduler-Ends :
    (os : Platform) (owner : ℕ → Ptr) (s : Machine)
    → Running owner s
    → s.mm.mem_flag ≡ false
    → ((usec : ℕ) → os.setitimer usec ≡ true)
    → (o : Outcome) × (t : Machine) × (scheduler os s ≡ some (o, t)) × Ends owner o t
scheduler-Ends os owner s r idle accepts =
    let (resumes, switches) = scheduler-Scheduled os owner s r idle accepts in
    elim (flagged s.fc) [
      | inl e ↦ (returned, s, resumes e, inr r)
      | inr ne ↦
          let (o, t, step, ends) = switches ne in
          (o, t, step, elim ends [ inl empty ↦ inl empty | inr switched ↦ inr switched.0 ])
    ]
  where
    flagged : (f : FlagCalled) → (f ≡ none_flag) ⊎ (f ≢ none_flag)
    flagged none_flag = inl refl
    flagged timer = inr (ground arith)
    flagged yield = inr (ground arith)
    flagged pexit = inr (ground arith)
    flagged join = inr (ground arith)
    flagged first = inr (ground arith)
    flagged blocked = inr (ground arith)

pub my_pthread_create-Ends :
    (os : Platform) (owner : ℕ → Ptr) (s : Machine)
    → Running owner s
    → s.first_thread ≡ false
    → s.mm.first_call ≡ false
    → Bounded owner s.mm.os_mem_ptr s.thread_count
    → ((usec : ℕ) → os.setitimer usec ≡ true)
    → s.mm.os_mem_ptr + create_bytes os ≤ block_end s
    → (new : Ptr) × (o : Outcome) × (t : Machine) × (my_pthread_create os s
        ≡ some (s.thread_count, o, t))
      × Ends (update owner s.thread_count new) o t
      × (t.mm.mem_flag ≡ false)
      × (t.mm.first_call ≡ false)
      × (new < t.mm.os_mem_ptr)
      × (t.mm.os_mem_ptr ≡ s.mm.os_mem_ptr + create_bytes os)
      × Inside t
      × (t.first_thread ≡ false)
      × (t.thread_count ≡ (s.thread_count + 1) % 2 ^ 32)
my_pthread_create-Ends os owner s r later set_up bounded accepts fits =
    let (context, new, mm5, run, later5, idle5, top, pos, above) =
      my_pthread_create-Prepared os s (inl set_up) in
    let (p6, mm6, e6, later6, idle6, m6, same6) =
      allocate-Allocated os stack_size (record s { mm = mm5 }) (inl later5) in
    let s5 = record s { mm = mm6 } in
    let s6 = started new context s5 in
    let owner' = update owner s.thread_count new in
    let r6 : Running owner' s6 =
      Running-started owner new context s.mm.os_mem_ptr s5 pos (omega (arith, (above set_up).0))
        bounded (Running-kept owner s mm6 s.thread_count r) in
    let (o, t, step, ends) =
      scheduler-Ends os owner' (record s6 { thread_count = (s.thread_count + 1) % 2 ^ 32 })
        (Running-kept owner' s6 mm6 ((s.thread_count + 1) % 2 ^ 32) r6) idle6 accepts in
    let after =
      scheduler-Same os (record s6 { thread_count = (s.thread_count + 1) % 2 ^ 32 }) t o step in
    let block6 = (allocate-Took os stack_size (record s { mm = mm5 }) s5 p6 later5 e6).1 in
    let total : t.mm.os_mem_ptr ≡ s.mm.os_mem_ptr + create_bytes os =
      omega (arith, after.2, m6, same6 later5, top, (above set_up).0) in
    (
      new,
      o,
      t,
      run
          ∙ proceed_later os context new (record s { mm = mm5 }) s6 t o later
              (create_next_lem os context new p6 (record s { mm = mm5 }) mm6 pos r.queues.ready e6)
              step,
      ends,
      after.0 ∙ idle6,
      after.1 ∙ later6,
      omega (arith, after.2, m6, same6 later5, top),
      total,
      rw (total, after.8, block6, (above set_up).1) fits,
      after.3 ∙ later,
      after.4,
    )
