-- ===== src/Threads/Parked.antt =====
-- The threads that wait for a mutex or another thread, under the changes of the queues.
use asst.Base.{
  ℕ, ◌≡◌, ◌≢◌, ◌∙◌, refl, sym, ap, Bool-cases, inl, inr, List, [], ◌∷◌, ◌++◌, Ptr, ◌==◌, update,
  All, All-append, NotIn, Disjoint, Distinct-append, Disjoint-singleton, arith,
}
use asst.Types.{Tcb}
use asst.Threads.Invariant.{Named, Away, Parked, LevelsOf, Named-front, NotIn-taken}

pub All-map : {P Q : Ptr → Type 0} (xs : List Ptr) → ((n : Ptr) → P n → Q n) → All P xs → All Q xs
All-map [] f a = tt
All-map (x ∷ xs) f a = (f x a.0, All-map xs f a.1)

-- Whatever keeps a thread away keeps the two queues.
pub Parked-map :
    (owner owner' : ℕ → Ptr) (tcbs tcbs' : Ptr → Tcb) (rqs rqs' : ℕ → List Ptr) (w j : List Ptr)
    → ((n : Ptr) → Away owner tcbs rqs n → Away owner' tcbs' rqs' n)
    → Parked owner tcbs rqs w j
    → Parked owner' tcbs' rqs' w j
Parked-map owner owner' tcbs tcbs' rqs rqs' w j keep p =
    (All-map w keep p.0, p.1, All-map j keep p.2, p.3, p.4)

-- A thread keeps its name where its id stays.
pub Named-same :
    (owner : ℕ → Ptr) (tcbs tcbs' : Ptr → Tcb) (n : Ptr)
    → (tcbs' n).tid ≡ (tcbs n).tid
    → Named owner tcbs n
    → Named owner tcbs' n
Named-same owner tcbs tcbs' n same named = (named.0, ap owner same ∙ named.1)

pub tid-update :
    (tcbs : Ptr → Tcb) (c : Ptr) (t : Tcb)
    → t.tid ≡ (tcbs c).tid
    → (n : Ptr) → (update tcbs c t n).tid ≡ (tcbs n).tid
tid-update tcbs c t same n = ground (arith, same)

-- Another queue for one level.
pub NotIn-set :
    (rqs : ℕ → List Ptr) (p : ℕ) (q : List Ptr) (n : Ptr)
    → NotIn n q
    → ((i : ℕ) → NotIn n (rqs i))
    → (i : ℕ) → NotIn n (update rqs p q i)
NotIn-set rqs p q n out avoid i = elim (Bool-cases (i == p)) [
  | inl same ↦ rw same out
  | inr other ↦ rw other (avoid i)
]

module _ (owner : ℕ → Ptr) (tcbs : Ptr → Tcb) (rqs : ℕ → List Ptr) (c : Ptr) (rest w j : List Ptr)
    (levels : LevelsOf owner tcbs rqs) (front : rqs (tcbs c).thread_priority ≡ c ∷ rest)
    (parked : Parked owner tcbs rqs w j) where
  ne_front : (n : Ptr) → Away owner tcbs rqs n → c ≢ n
  ne_front n away = (rw front at (away.1 (tcbs c).thread_priority)).0

  NotIn-rest : (n : Ptr) → Away owner tcbs rqs n → NotIn n rest
  NotIn-rest n away = (rw front at (away.1 (tcbs c).thread_priority)).1

  -- The front of a level is taken out.
  Away-take :
      (tcbs' : Ptr → Tcb)
      → ((n : Ptr) → (tcbs' n).tid ≡ (tcbs n).tid)
      → (n : Ptr) → Away owner tcbs rqs n
      → Away owner tcbs' (update rqs (tcbs c).thread_priority rest) n
  Away-take tcbs' same n away = (
    Named-same owner tcbs tcbs' n (same n) away.0,
    NotIn-set rqs (tcbs c).thread_priority rest n (NotIn-rest n away) away.1,
  )

  pub Parked-take :
      (tcbs' : Ptr → Tcb)
      → ((n : Ptr) → (tcbs' n).tid ≡ (tcbs n).tid)
      → Parked owner tcbs' (update rqs (tcbs c).thread_priority rest) w j
  Parked-take tcbs' same =
      Parked-map owner owner tcbs tcbs' rqs (update rqs (tcbs c).thread_priority rest) w j
        (Away-take tcbs' same) parked

  -- It moves to the end of a level.
  pub Parked-move :
      (tcbs' : Ptr → Tcb) (k : ℕ)
      → ((n : Ptr) → (tcbs' n).tid ≡ (tcbs n).tid)
      → Parked owner tcbs'
          (update
            (update rqs (tcbs c).thread_priority rest)
            k
            (update rqs (tcbs c).thread_priority rest k ++ c ∷ []))
          w
          j
  Parked-move tcbs' k same =
      Parked-map owner owner tcbs tcbs' rqs
        (update (update rqs (tcbs c).thread_priority rest) k
          (update rqs (tcbs c).thread_priority rest k ++ c ∷ []))
        w j
        (λ n away.
          let away' = Away-take tcbs' same n away in
          (
            away'.0,
            NotIn-set (update rqs (tcbs c).thread_priority rest) k _ n
                (All-append (λ m. m ≢ n) _ (c ∷ []) (away'.1 k) (ne_front n away, tt)) away'.1,
          ))
        parked

  pub NotIn-parked : (q : List Ptr) → All (Away owner tcbs rqs) q → NotIn c q
  NotIn-parked q all = All-map q (λ n away e. ne_front n away (sym e)) all

  front_Away : Away owner tcbs (update rqs (tcbs c).thread_priority rest) c
  front_Away = (
    Named-front owner tcbs rqs c rest levels front,
    NotIn-taken owner tcbs rqs c rest levels front,
  )

  -- It waits for a mutex.
  pub Parked-wait : Parked owner tcbs (update rqs (tcbs c).thread_priority rest) (w ++ c ∷ []) j
  Parked-wait =
      let p = Parked-take tcbs (λ n. refl) in
      (
        All-append (Away owner tcbs (update rqs (tcbs c).thread_priority rest)) w (c ∷ []) p.0
            (front_Away, tt),
        Distinct-append w (c ∷ []) p.1 (tt, tt) (Disjoint-singleton c w (NotIn-parked w parked.0)),
        p.2,
        p.3,
        All-append (λ m. NotIn m j) w (c ∷ []) p.4 (NotIn-parked j parked.2, tt),
      )

  -- It waits for a thread.
  pub Parked-join : Parked owner tcbs (update rqs (tcbs c).thread_priority rest) w (j ++ c ∷ [])
  Parked-join =
      let p = Parked-take tcbs (λ n. refl) in
      (
        p.0,
        p.1,
        All-append (Away owner tcbs (update rqs (tcbs c).thread_priority rest)) j (c ∷ []) p.2
            (front_Away, tt),
        Distinct-append j (c ∷ []) p.3 (tt, tt) (Disjoint-singleton c j (NotIn-parked j parked.2)),
        disjoint w parked.0 p.4,
      )
    where
      disjoint :
          (q : List Ptr) → All (Away owner tcbs rqs) q → Disjoint q j → Disjoint q (j ++ c ∷ [])
      disjoint [] all d = tt
      disjoint (x ∷ q) all d =
          (All-append (λ m. m ≢ x) j (c ∷ []) d.0 (ne_front x all.0, tt), disjoint q all.1 d.1)
