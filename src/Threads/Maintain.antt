-- ===== src/Threads/Maintain.antt =====
-- The maintenance of updateQueue keeps the levels.
use asst.Base.{
  ℕ, ◌≡◌, ◌≢◌, ◌∙◌, refl, sym, ap, subst, ◌⊎◌, inl, inr, true, false, Bool-cases, Option, some,
  List, [], ◌∷◌, ◌++◌, Ptr, ltb, ◌==◌, update, All, All-append, NotIn, Distinct-append, arith,
}
use asst.Types.{none_flag, Tcb}
use asst.Threads.{Machine, set_tcb, set_rq}
use asst.Threads.Scheduler.{maintain, reset_priorities, update_queue}
use asst.Threads.Parked.{Named-same, NotIn-set, Parked-map}
use asst.Threads.Invariant.{
  Parked, Named, AtLevel, LevelsOf, Running, NotIn-of_level, Disjoint-of_levels,
}
use asst.Threads.Dispatch.{Placed, c_Named, dispatch-Dispatched}

-- The blocks after the loop over a queue.
abbrev pub reset_all : List Ptr → (Ptr → Tcb) → Ptr → Tcb
reset_all [] t = t
reset_all (n ∷ q) t = reset_all q (update t n (record (t n) { thread_priority = 0 }))

pub reset_priorities-reset_all :
    (q : List Ptr) (s : Machine) → reset_priorities q s ≡ record s { tcbs = reset_all q s.tcbs }
unfolding reset_priorities
reset_priorities-reset_all [] s = refl
reset_priorities-reset_all (n ∷ q) s =
    reset_priorities-reset_all q (set_tcb n (record (s.tcbs n) { thread_priority = 0 }) s)

tid-reset_all : (q : List Ptr) (t : Ptr → Tcb) (m : Ptr) → (reset_all q t m).tid ≡ (t m).tid
tid-reset_all [] t m = refl
tid-reset_all (n ∷ q) t m =
    tid-reset_all q (update t n (record (t n) { thread_priority = 0 })) m ∙ ground arith

reset_all_other : (q : List Ptr) (t : Ptr → Tcb) (m : Ptr) → NotIn m q → reset_all q t m ≡ t m
reset_all_other [] t m d = refl
reset_all_other (n ∷ q) t m d =
    reset_all_other q (update t n (record (t n) { thread_priority = 0 })) m d.1
    ∙ ground (arith, d.0)

priority-reset_all :
    (q : List Ptr) (t : Ptr → Tcb) (m : Ptr)
    → (t m).thread_priority ≡ 0
    → (reset_all q t m).thread_priority ≡ 0
priority-reset_all [] t m e = e
priority-reset_all (n ∷ q) t m e =
    priority-reset_all q (update t n (record (t n) { thread_priority = 0 })) m (ground (arith, e))

All-reset_all :
    (owner : ℕ → Ptr) (q : List Ptr) (t : Ptr → Tcb)
    → All (Named owner t) q
    → All (AtLevel owner (reset_all q t) 0) q
All-reset_all owner [] t a = tt
All-reset_all owner (n ∷ q) t a =
    let t' : Ptr → Tcb = update t n (record (t n) { thread_priority = 0 }) in
    (
      (
        priority-reset_all q t' n (ground arith),
        a.0.0,
        ap owner (tid-reset_all q t' n ∙ ground arith) ∙ a.0.1,
      ),
      All-reset_all owner q t' (Named-update owner t n q a.1),
    )
  where
    Named-update :
        (owner : ℕ → Ptr) (t : Ptr → Tcb) (n : Ptr) (q : List Ptr)
        → All (Named owner t) q
        → All (Named owner (update t n (record (t n) { thread_priority = 0 }))) q
    Named-update owner t n [] a = tt
    Named-update owner t n (m ∷ q) a = (ground (arith, a.0), Named-update owner t n q a.1)

Named-of_level :
    (owner : ℕ → Ptr) (t : Ptr → Tcb) (i : ℕ) (q : List Ptr)
    → All (AtLevel owner t i) q
    → All (Named owner t) q
Named-of_level owner t i [] a = tt
Named-of_level owner t i (n ∷ q) a = ((a.0.1, a.0.2), Named-of_level owner t i q a.1)

module _ (owner : ℕ → Ptr) (tcbs : Ptr → Tcb) (rqs : ℕ → List Ptr)
    (levels : LevelsOf owner tcbs rqs) where
  abbrev merged : List Ptr
  merged = rqs 0 ++ rqs 9

  other_level :
      (i : ℕ) (xs : List Ptr)
      → i ≢ 0
      → i ≢ 9
      → All (AtLevel owner tcbs i) xs
      → All (AtLevel owner (reset_all (rqs 0 ++ rqs 9) tcbs) i) xs
  other_level i [] n0 n9 a = tt
  other_level i (x ∷ xs) n0 n9 a =
      let out : NotIn x (rqs 0 ++ rqs 9) =
        All-append (λ m. m ≢ x) (rqs 0) (rqs 9)
          (NotIn-of_level owner tcbs 0 x (rqs 0) (λ e. n0 (sym a.0.0 ∙ e)) (levels 0).0)
          (NotIn-of_level owner tcbs 9 x (rqs 9) (λ e. n9 (sym a.0.0 ∙ e)) (levels 9).0) in
      (rw (reset_all_other (rqs 0 ++ rqs 9) tcbs x out) (a.0), other_level i xs n0 n9 a.1)

  pub LevelsOf-merged :
      LevelsOf owner (reset_all (rqs 0 ++ rqs 9) tcbs) (update (update rqs 0 (rqs 0 ++ rqs 9)) 9 [])
  LevelsOf-merged i = elim (Bool-cases (i == 9)) [
    | inl nine ↦ rw nine (tt, tt)
    | inr not_nine ↦ elim (Bool-cases (i == 0)) [
      | inl zeroth ↦
          let e : i ≡ 0 = ground (arith, zeroth) in
          rw (not_nine, zeroth)
            (
              subst (λ k. All (AtLevel owner (reset_all (rqs 0 ++ rqs 9) tcbs) k) (rqs 0 ++ rqs 9))
                  (sym e)
                  (All-reset_all owner (rqs 0 ++ rqs 9) tcbs (
                    All-append (Named owner tcbs) (rqs 0) (rqs 9)
                      (Named-of_level owner tcbs 0 (rqs 0) (levels 0).0)
                      (Named-of_level owner tcbs 9 (rqs 9) (levels 9).0))),
              Distinct-append (rqs 0) (rqs 9) (levels 0).1 (levels 9).1 (
                  Disjoint-of_levels owner tcbs 0 9 (rqs 0) (rqs 9) (omega arith) (levels 0).0
                    (levels 9).0),
            )
      | inr not_zero ↦
          rw (not_nine, not_zero)
            (
              other_level i (rqs i) (ground (arith, not_zero)) (ground (arith, not_nine))
                  (levels i).0,
              (levels i).1,
            )
    ]
  ]

Parked-merged :
    (owner : ℕ → Ptr) (tcbs : Ptr → Tcb) (rqs : ℕ → List Ptr) (w j : List Ptr)
    → Parked owner tcbs rqs w j
    → Parked owner
        (reset_all (rqs 0 ++ rqs 9) tcbs)
        (update (update rqs 0 (rqs 0 ++ rqs 9)) 9 [])
        w
        j
Parked-merged owner tcbs rqs w j =
    Parked-map owner owner tcbs (reset_all (rqs 0 ++ rqs 9) tcbs) rqs
      (update (update rqs 0 (rqs 0 ++ rqs 9)) 9 []) w j
      (λ n away. (
        Named-same owner tcbs (reset_all (rqs 0 ++ rqs 9) tcbs) n
            (tid-reset_all (rqs 0 ++ rqs 9) tcbs n) away.0,
        NotIn-set (update rqs 0 (rqs 0 ++ rqs 9)) 9 [] n tt (
            NotIn-set rqs 0 (rqs 0 ++ rqs 9) n
              (All-append (λ m. m ≢ n) (rqs 0) (rqs 9) (away.1 0) (away.1 9)) away.1),
      ))

abbrev Maintained : (ℕ → Ptr) → Option Machine → Type 0
Maintained owner o = (s' : Machine) × (o ≡ some s') × Placed owner s'

module _ (owner : ℕ → Ptr) (s : Machine) (p : Placed owner s)
    (due : ltb 100 s.maintenance_count ≡ true) where
  maintain_due : (low : List Ptr) → s.rqs 9 ≡ low → Maintained owner (maintain s)
  unfolding maintain
  maintain_due [] e = (
    record s { maintenance_count = 0 },
    ground (arith, p.queues.ready, due, e),
    record {
      queues = record {
        ready = p.queues.ready;
        levels = p.queues.levels;
        parked = p.queues.parked;
      };
      someone = p.someone;
    },
  )
  maintain_due (n ∷ q) e = (
    record s {
      maintenance_count = 0;
      rqs = update (update s.rqs 0 (s.rqs 0 ++ s.rqs 9)) 9 [];
      tcbs = reset_all (s.rqs 0 ++ s.rqs 9) s.tcbs;
    },
    ground (
      arith,
      due,
      p.queues.ready,
      e,
      reset_priorities-reset_all (s.rqs 0 ++ n ∷ q)
          (set_rq 9 [] (set_rq 0 (s.rqs 0 ++ n ∷ q) (record s { maintenance_count = 0 }))),
    ),
    record {
      queues = record {
        ready = p.queues.ready;
        levels = LevelsOf-merged owner s.tcbs s.rqs p.queues.levels;
        parked = Parked-merged owner s.tcbs s.rqs s.waiting_queue s.join_queue p.queues.parked;
      };
      someone = elim (p.someone) [
        | inl gone ↦ inl gone
        | inr named ↦
            inr (named.0, ap owner (tid-reset_all (s.rqs 0 ++ s.rqs 9) s.tcbs s.current) ∙ named.1)
      ];
    },
  )

maintain_early : (s : Machine) → ltb 100 s.maintenance_count ≡ false → maintain s ≡ some s
unfolding maintain
maintain_early s early = ground (arith, early)

maintain-Maintained :
    (owner : ℕ → Ptr) (s : Machine) → Placed owner s → Maintained owner (maintain s)
maintain-Maintained owner s p = elim (Bool-cases (ltb 100 s.maintenance_count)) [
  | inl due ↦ maintain_due owner s p due (s.rqs 9) refl
  | inr early ↦ (s, maintain_early s early, p)
]

-- updateQueue on a running machine does not fault: with the flag NONE the current thread resumes and
-- nothing changes; with any other the levels are kept, and there is a current thread unless it
-- exits.
pub update_queue-Placed :
    (owner : ℕ → Ptr) (s : Machine)
    → Running owner s
    → (s.fc ≡ none_flag) × (update_queue s ≡ some (true, s))
      ⊎ ((s' : Machine) × (update_queue s ≡ some (false, s')) × Placed owner s')
unfolding update_queue
update_queue-Placed owner s r = elim (dispatch-Dispatched owner s r s.fc refl) [
  | inl e ↦ inl (e, ground (arith, e))
  | inr (inl e) ↦
      inr (s, ground (arith, e), record { queues = r.queues; someone = inr (c_Named owner s r) })
  | inr (inr (s', e, placed)) ↦
      let (s'', e', placed') = maintain-Maintained owner s' placed in inr (s'', rw (e, e'), placed')
]
