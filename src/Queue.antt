-- ===== src/Queue.antt =====
-- The thread queues of my_pthread.c, with their links: enqueuee, dequeuee, get_specific_count and
-- the splice of the lowest run queue onto the highest in updateQueue.
pub mod Refine
mod Tests
use asst.Base.{ℕ, zero, suc, ◌+◌, Option, none, some, Ptr, null, ◌==◌, if◌then◌else◌, update, ◌>>=◌}

-- `context_node`.
pub record ContextNode : Type 0 where
  pub thread_block : Ptr
  pub next : Ptr

-- The context nodes in memory, by address.
abbrev pub Nodes : Type 0
Nodes = Ptr → ContextNode

-- `queue`.
pub record Queue : Type 0 where
  pub front : Ptr
  pub back : Ptr

-- `n->next = p`, a fault at NULL.
unfoldable pub set_next : Ptr → Ptr → Nodes → Option Nodes
set_next n p h = if n == null then none else some (update h n (record (h n) { next = p }))

unfoldable pub enqueuee : Ptr → Queue → Nodes → Option (Queue × Nodes)
unfolding set_next
enqueuee enter_thread q h =
    if q.front == null
    then (do
      h' ← set_next enter_thread null h
      some (record { front = enter_thread; back = enter_thread }, h'))
    else (do
      h' ← set_next q.back enter_thread h
      h'' ← set_next enter_thread null h'
      some (record q { back = enter_thread }, h''))

-- The node that leaves keeps its `next`, and `back` is not reset.
unfoldable pub dequeuee : Queue → Nodes → Ptr × Queue
dequeuee q h =
    if q.front == null then (null, q) else (q.front, record q { front = (h q.front).next })

-- `none`: more nodes than fuel.
count_from : ℕ → ℕ → Ptr → Nodes → Option ℕ
count_from zero count temp h = none
count_from (suc f) count temp h =
    let rest = count_from f (count + 1) (h temp).next h in if temp == null then some count else rest

unfoldable pub get_specific_count : ℕ → Queue → Nodes → Option ℕ
unfolding count_from
get_specific_count fuel q h = count_from fuel 0 q.front h

abbrev pub emptied : Queue
emptied = record { front = null; back = null }

-- The maintenance of updateQueue: `lowest` is linked behind `highest` and emptied.
unfoldable pub splice : Queue → Queue → Nodes → Option (Queue × Queue × Nodes)
unfolding set_next
splice highest lowest h =
    if lowest.front == null
    then some (highest, lowest, h)
    else (if highest.front == null then some (lowest, emptied, h) else (do
      h' ← set_next highest.back lowest.front h
      some (record highest { back = lowest.back }, emptied, h')))
