-- ===== src/Queue/Tests.antt =====
-- The queue theorems at a queue of two nodes and one of one.
use asst.Base.{◌≡◌, refl, some, [], ◌∷◌, arith, null, ◌==◌, if◌then◌else◌}
use asst.Queue.{Nodes, Queue, enqueuee, dequeuee, get_specific_count, splice}
use asst.Queue.Refine.{
  IsQueue, enqueuee-append, dequeuee-cons, get_specific_count-length, splice-append,
}

-- 10 leads to 20, and 30 stands alone.
abbrev nodes : Nodes
nodes p =
    if p == 10
    then record { thread_block = 1; next = 20 }
    else record { thread_block = 2; next = null }

abbrev two : Queue
two = record { front = 10; back = 20 }

abbrev one : Queue
one = record { front = 30; back = 30 }

two-IsQueue : IsQueue nodes two (10 ∷ 20 ∷ [])
two-IsQueue = record {
  chain = (refl, omega arith, (omega arith, tt), (refl, omega arith, tt, refl));
  back = refl;
}

one-IsQueue : IsQueue nodes one (30 ∷ [])
one-IsQueue = record { chain = (refl, omega arith, tt, refl); back = refl }

enqueuee-append_example :
    (q' : Queue) × (h' : Nodes) × (enqueuee 40 two nodes ≡ some (q', h'))
    × IsQueue h' q' (10 ∷ 20 ∷ 40 ∷ [])
    × (h' 30 ≡ nodes 30)
enqueuee-append_example =
    enqueuee-append nodes two (10 ∷ 20 ∷ []) 40 30 (omega arith) (omega arith) two-IsQueue
      (omega arith)

dequeuee-cons_example : (q' : Queue) × (dequeuee two nodes ≡ (10, q')) × IsQueue nodes q' (20 ∷ [])
dequeuee-cons_example = dequeuee-cons nodes two 10 (20 ∷ []) two-IsQueue

count_two : get_specific_count 3 two nodes ≡ some 2
count_two = get_specific_count-length 3 nodes two (10 ∷ 20 ∷ []) two-IsQueue (omega arith)

two_joined :
    (q : Queue) × (r : Queue) × (h' : Nodes) × (splice two one nodes ≡ some (q, r, h'))
    × IsQueue h' q (10 ∷ 20 ∷ 30 ∷ [])
    × IsQueue h' r []
    × (h' 50 ≡ nodes 50)
two_joined =
    splice-append nodes two one (10 ∷ 20 ∷ []) (30 ∷ []) 50 (omega arith) two-IsQueue one-IsQueue
      (omega arith)
