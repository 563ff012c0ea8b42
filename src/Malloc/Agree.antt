-- ===== src/Malloc/Agree.antt =====
-- The allocator of mymalloc.c does what that of my_pthread.c does.
use asst.Base.{
  ℕ, zero, suc, ◌-◌, ◌≡◌, ◌≢◌, refl, inl, inr, Bool, Bool-cases, true, false, Option, none, some,
  Ptr, null, ltb, ◌==◌, if◌then◌else◌, update, ◌>>=◌, arith,
}
use asst.Malloc.{
  Mementry, mycode, sizeof_mementry, Mem, Arena, to_size, walk_next, walk_prev, take_small,
  take_right, take_left, rest_size, has_room, set_prev, FreeReport, freed, initialize,
  mymalloc_small, mymalloc_large, mymalloc_leftwards, merge_prev, merge_next, free_block,
}
use asst.Malloc as Malloc
use asst.Malloc.Standalone as Standalone
use asst.Malloc.Standalone.{
  make_list, search_large, answer, not_by_mymalloc, Message, silent, not_allocated_space, give_left,
  give_right, loop_right, loop_left, combine_prev, combine_next,
}

give_left-small : (x : ℕ) (w : Ptr) (a : Arena) → give_left true x w a ≡ take_small x w a
unfolding give_left take_small
give_left-small x w a = ground arith

give_left-right : (x : ℕ) (w : Ptr) (a : Arena) → give_left false x w a ≡ take_right x w a
unfolding give_left take_right
give_left-right x w a = ground arith

give_right-left : (x : ℕ) (w : Ptr) (a : Arena) → give_right x w a ≡ take_left x w a
unfolding give_right take_left
give_right-left x w a = ground arith

-- Where a walk ends, as the loops give it.
abbrev ended : (Ptr → Ptr × Arena) → Option Ptr → Option (Option (Ptr × Arena))
ended give none = none
ended give (some w) = some (if w == null then none else some (give w))

loop_right-walk_next :
    (moves : Bool) (f x : ℕ) (a : Arena) (w : Ptr)
    → loop_right moves f x a w ≡ ended (λ p. give_left moves x p a) (walk_next f x a.mem w)
unfolding loop_right walk_next
loop_right-walk_next moves zero x a w = refl
loop_right-walk_next moves (suc f) x a w =
    ground (arith, loop_right-walk_next moves f x a (a.mem w).next)

loop_left-walk_prev :
    (f x : ℕ) (a : Arena) (w : Ptr)
    → loop_left f x a w ≡ ended (λ p. give_right x p a) (walk_prev f x a.mem w)
unfolding loop_left walk_prev
loop_left-walk_prev zero x a w = refl
loop_left-walk_prev (suc f) x a w = ground (arith, loop_left-walk_prev f x a (a.mem w).prev)

combine_prev-merge_prev : (freeer : Ptr) (a : Arena) → combine_prev freeer a ≡ merge_prev freeer a
unfolding combine_prev merge_prev
combine_prev-merge_prev freeer a = ground arith

combine_next-merge_next : (freeer : Ptr) (a : Arena) → combine_next freeer a ≡ merge_next freeer a
unfolding combine_next merge_next
combine_next-merge_next freeer a = ground arith

-- The result with the message that goes with it.
abbrev pub told : Option (Ptr × Arena) → Option (Ptr × Message × Arena)
told none = none
told (some (p, a)) = some (p, (if p == null then not_allocated_space else silent), a)

-- The report of a free, as the message that goes with it.
abbrev pub told_free : FreeReport × Arena → Message × Arena
told_free (freed, a) = (silent, a)
told_free (Malloc.out_of_bounds, a) = (Standalone.out_of_bounds, a)
told_free (Malloc.double_free, a) = (Standalone.double_free, a)
told_free (Malloc.not_allocated, a) = (not_by_mymalloc, a)

-- What a block is handed out at is not NULL.
take_small-address : (x : ℕ) (w : Ptr) (a : Arena) → (take_small x w a).0 ≢ null
unfolding take_small
take_small-address x w a = ground arith

take_right-address : (x : ℕ) (w : Ptr) (a : Arena) → (take_right x w a).0 ≢ null
unfolding take_right
take_right-address x w a = ground arith

take_left-address : (x : ℕ) (w : Ptr) (a : Arena) → (take_left x w a).0 ≢ null
unfolding take_left
take_left-address x w a = ground arith

small-told :
    (fuel x : ℕ) (a : Arena)
    → (do r ← loop_right true fuel x a a.head; some (answer a r)) ≡ told (mymalloc_small fuel x a)
unfolding mymalloc_small
small-told fuel x a = by_walk (walk_next fuel x a.mem a.head) refl
  where
    by_walk :
        (w : Option Ptr)
        → walk_next fuel x a.mem a.head ≡ w
        → (do r ← loop_right true fuel x a a.head; some (answer a r))
          ≡ told (mymalloc_small fuel x a)
    by_walk none e = ground (arith, e, loop_right-walk_next true fuel x a a.head)
    by_walk (some w) e = ground (
      arith,
      e,
      loop_right-walk_next true fuel x a a.head,
      give_left-small x w a,
      take_small-address x w a,
    )

large-told :
    (fuel x : ℕ) (a : Arena)
    → (do r ← search_large fuel x a; some (answer a r)) ≡ told (mymalloc_large fuel x a)
unfolding search_large mymalloc_large mymalloc_leftwards
large-told fuel x a = elim (Bool-cases (a.middle == null)) [
  | inl no_middle ↦ ground (arith, no_middle)
  | inr node ↦ by_right node (walk_next fuel x a.mem (a.mem a.middle).next) refl
]
  where
    by_left :
        (a.middle == null) ≡ false
        → (v w : Option Ptr) → v ≡ some null
        → walk_next fuel x a.mem (a.mem a.middle).next ≡ v
        → walk_prev fuel x a.mem a.middle ≡ w
        → (do r ← search_large fuel x a; some (answer a r)) ≡ told (mymalloc_large fuel x a)
    by_left node v none nothing e f = ground (
      arith,
      node,
      nothing,
      e,
      f,
      loop_right-walk_next false fuel x a (a.mem a.middle).next,
      loop_left-walk_prev fuel x a a.middle,
    )
    by_left node v (some w) nothing e f = ground (
      arith,
      node,
      nothing,
      e,
      f,
      loop_right-walk_next false fuel x a (a.mem a.middle).next,
      loop_left-walk_prev fuel x a a.middle,
      give_right-left x w a,
      take_left-address x w a,
    )

    by_right :
        (a.middle == null) ≡ false
        → (w : Option Ptr) → walk_next fuel x a.mem (a.mem a.middle).next ≡ w
        → (do r ← search_large fuel x a; some (answer a r)) ≡ told (mymalloc_large fuel x a)
    by_right node none e =
        ground (arith, node, e, loop_right-walk_next false fuel x a (a.mem a.middle).next)
    by_right node (some w) e = elim (Bool-cases (w == null)) [
      | inl nothing ↦
          by_left node (some w) (walk_prev fuel x a.mem a.middle) (ground (arith, nothing)) e refl
      | inr found ↦ ground (
        arith,
        node,
        e,
        found,
        loop_right-walk_next false fuel x a (a.mem a.middle).next,
        give_left-right x w a,
        take_right-address x w a,
      )
    ]

-- A request behind the first lines of mymalloc.
request-told :
    (fuel x : ℕ) (a : Arena)
    → (if ltb x 100
        then (do r ← loop_right true fuel x a a.head; some (answer a r))
        else (do r ← search_large fuel x a; some (answer a r)))
      ≡ told (if ltb x 100 then mymalloc_small fuel x a else mymalloc_large fuel x a)
request-told fuel x a = elim (Bool-cases (ltb x 100)) [
  | inl few ↦ rw few (small-told fuel x a)
  | inr many ↦ rw many (large-told fuel x a)
]

make_list-initialize :
    (memptr size : ℕ) (a : Arena) → make_list memptr size a ≡ initialize memptr size a
unfolding make_list initialize
make_list-initialize memptr size a = refl

-- mymalloc of mymalloc.c gives what that of my_pthread.c gives on every arena, with the same fuel, and
-- prints its message exactly where that is NULL.
pub mymalloc-told :
    (fuel x memptr size : ℕ) (a : Arena)
    → Standalone.mymalloc fuel x memptr size a ≡ told (Malloc.mymalloc fuel x memptr size a)
unfolding Standalone.mymalloc Malloc.mymalloc
mymalloc-told fuel x memptr size a = by_start (initialize memptr size a) refl
  where
    by_start :
        (r : Option Arena)
        → initialize memptr size a ≡ r
        → Standalone.mymalloc fuel x memptr size a ≡ told (Malloc.mymalloc fuel x memptr size a)
    by_start none e = rw (make_list-initialize memptr size a, e) refl
    by_start (some a') e = rw (make_list-initialize memptr size a, e) (request-told fuel x a')

-- myfree of mymalloc.c does what that of my_pthread.c does, and reports the same.
pub myfree-told_free : (x : Ptr) (a : Arena) → Standalone.myfree x a ≡ told_free (Malloc.myfree x a)
unfolding Standalone.myfree Malloc.myfree free_block
myfree-told_free x a = ground (
  arith,
  combine_prev-merge_prev (x - sizeof_mementry) (marked a),
  combine_next-merge_next (merge_prev (x - sizeof_mementry) (marked a)).0
      (merge_prev (x - sizeof_mementry) (marked a)).1,
)
  where
    marked : Arena → Arena
    marked a = record a {
      mem = update a.mem (x - sizeof_mementry) (record (a.mem (x - sizeof_mementry)) { free = 1 });
    }
