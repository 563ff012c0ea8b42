-- ===== src/Malloc/Standalone.antt =====
-- mymalloc.c: the allocator once more, with its loops and splits written out as they stand, and a
-- message where a request or a free is refused.

use asst.Base.{
  ℕ, zero, suc, ◌+◌, ◌-◌, ◌%◌, ◌^◌, Bool, true, false, not, ◌&&◌, ◌||◌, Option, none, some, Ptr,
  null, ltb, leb, ◌==◌, if◌then◌else◌, update, ◌>>=◌,
}
use asst.Malloc.{Mementry, mycode, sizeof_mementry, Mem, Arena, gap, to_size}

-- What is printed, if anything.
pub data Message : Type 0 where
  silent : Message
  not_allocated_space : Message
  out_of_bounds : Message
  double_free : Message
  not_by_mymalloc : Message

-- `if (p != NULL) { p->prev = q; }` and `if (p != NULL) { p->next = q; }`.
abbrev pub link_prev : Ptr → Ptr → Mem → Mem
link_prev p q m = if not (p == null) then update m p (record (m p) { prev = q }) else m

abbrev pub link_next : Ptr → Ptr → Mem → Mem
link_next p q m = if not (p == null) then update m p (record (m p) { next = q }) else m

-- The body of a round at a block that is free and large enough, in the loops that go right: the
-- address returned, and the memory. `moves` tells whether `middle` follows a split.
unfoldable pub give_left : Bool → ℕ → Ptr → Arena → Ptr × Arena
give_left moves x walker a =
    let m = a.mem in
    if ltb ((x + sizeof_mementry) % 2 ^ 64) (to_size (m walker).size)
    then (let temp = walker + sizeof_mementry + x in
        let m1 = update m temp (record {
          size = (to_size (m walker).size + 2 ^ 64 - sizeof_mementry + 2 ^ 64 - x) % 2 ^ 32;
          code = mycode;
          free = 1;
          next = (m walker).next;
          prev = walker;
        }) in
        let m2 = link_prev (m1 walker).next temp m1 in
        let m3 = update m2 walker (record (m2 walker) { size = x; free = 0; next = temp }) in
        (
          walker + sizeof_mementry,
          record {
            head = a.head;
            middle = if moves then (if walker == a.middle then temp else a.middle) else a.middle;
            mem = m3;
          },
        ))
    else (
      walker + sizeof_mementry,
      record a { mem = update m walker (record (m walker) { free = 0 }) },
    )

-- The same in the loop that goes left.
unfoldable pub give_right : ℕ → Ptr → Arena → Ptr × Arena
give_right x walker a =
    let m = a.mem in
    if ltb ((x + sizeof_mementry) % 2 ^ 64) (to_size (m walker).size)
    then (let temp = walker + sizeof_mementry + gap (m walker).size x in
        let m1 =
          update m temp
            (record { size = x; code = mycode; free = 0; next = (m walker).next; prev = walker }) in
        let m2 = link_prev (m1 walker).next temp m1 in
        let m3 =
          update m2 walker (record (m2 walker) {
            size = gap (m2 walker).size x % 2 ^ 32;
            free = 1;
            next = temp;
          }) in
        (temp + sizeof_mementry, record a { mem = m3 }))
    else (
      walker + sizeof_mementry,
      record a { mem = update m walker (record (m walker) { free = 0 }) },
    )

-- A loop that goes right, and one that goes left: `some none` where it ends at NULL.
unfoldable pub loop_right : Bool → ℕ → ℕ → Arena → Ptr → Option (Option (Ptr × Arena))
unfolding give_left
loop_right moves zero x a walker = none
loop_right moves (suc f) x a walker =
    let rest = loop_right moves f x a (a.mem walker).next in
    if not (walker == null)
    then (if (a.mem walker).free == 1
        then (if leb x (a.mem walker).size then some (some (give_left moves x walker a)) else rest)
        else rest)
    else some none

unfoldable pub loop_left : ℕ → ℕ → Arena → Ptr → Option (Option (Ptr × Arena))
unfolding give_right
loop_left zero x a walker = none
loop_left (suc f) x a walker =
    let rest = loop_left f x a (a.mem walker).prev in
    if not (walker == null)
    then (if (a.mem walker).free == 1
        then (if leb x (a.mem walker).size then some (some (give_right x walker a)) else rest)
        else rest)
    else some none

-- The two loops of a request of at least 100 bytes: to the right of `middle`, then from it to the left.
unfoldable pub search_large : ℕ → ℕ → Arena → Option (Option (Ptr × Arena))
unfolding loop_right loop_left
search_large fuel x a = if a.middle == null then none else (do
  r ← loop_right false fuel x a (a.mem a.middle).next
  elim r [ some found ↦ some (some found) | none ↦ loop_left fuel x a a.middle ])

-- `return` of a block, or the message and NULL.
abbrev pub answer : Arena → Option (Ptr × Arena) → Ptr × Message × Arena
answer a none = (null, not_allocated_space, a)
answer a (some (p, a')) = (p, silent, a')

-- The first lines: the list is made where there is none.
unfoldable pub make_list : Ptr → ℕ → Arena → Option Arena
make_list memptr size a =
    if a.head == null
    then (if memptr == null
        then none
        else (let head : Mementry = record {
          size = (size + 2 ^ 64 - sizeof_mementry) % 2 ^ 32;
          code = mycode;
          free = 1;
          next = null;
          prev = null;
        } in
            some (record { head = memptr; middle = memptr; mem = update a.mem memptr head })))
    else some a

unfoldable pub mymalloc : ℕ → ℕ → Ptr → ℕ → Arena → Option (Ptr × Message × Arena)
mymalloc fuel x memptr size a0 = do
  a ← make_list memptr size a0
  if ltb x 100
      then (do r ← loop_right true fuel x a a.head; some (answer a r))
      else (do r ← search_large fuel x a; some (answer a r))

-- `if(freeer->prev != NULL && freeer->prev->free == 1)`: the header that is left, and the arena.
unfoldable pub combine_prev : Ptr → Arena → Ptr × Arena
combine_prev freeer a =
    let prev = (a.mem freeer).prev in
    if not (prev == null) && (a.mem prev).free == 1
    then (let m1 = link_prev (a.mem freeer).next prev a.mem in
        let m2 = link_next (m1 freeer).prev (m1 freeer).next m1 in
        let m3 = update m2 (m2 freeer).prev (record (m2 (m2 freeer).prev) {
          size =
              ((m2 (m2 freeer).prev).size + (sizeof_mementry + to_size (m2 freeer).size)) % 2 ^ 32;
        }) in
        (
          (m3 freeer).prev,
          record {
            head = a.head;
            middle = if freeer == a.middle then (m3 freeer).prev else a.middle;
            mem = m3;
          },
        ))
    else (freeer, a)

unfoldable pub combine_next : Ptr → Arena → Arena
combine_next freeer a =
    let temp = (a.mem freeer).next in
    if not (temp == null) && (a.mem temp).free == 1
    then (let m1 = link_prev (a.mem temp).next (a.mem temp).prev a.mem in
        let m2 = link_next (m1 temp).prev (m1 temp).next m1 in
        let m3 = update m2 freeer (record (m2 freeer) {
          size = ((m2 freeer).size + (sizeof_mementry + to_size (m2 temp).size)) % 2 ^ 32;
        }) in
        record { head = a.head; middle = if temp == a.middle then freeer else a.middle; mem = m3 })
    else a

unfoldable pub myfree : Ptr → Arena → Message × Arena
myfree x a =
    if ltb x (a.head + sizeof_mementry) || ltb (a.head + 4999) x
    then (out_of_bounds, a)
    else (let freeer = x - sizeof_mementry in
        if (a.mem freeer).code == mycode
        then (if (a.mem freeer).free == 1
            then (double_free, a)
            else (let a1 = record a {
              mem = update a.mem freeer (record (a.mem freeer) { free = 1 });
            } in
                let (freeer', a2) = combine_prev freeer a1 in (silent, combine_next freeer' a2)))
        else (not_by_mymalloc, a))
