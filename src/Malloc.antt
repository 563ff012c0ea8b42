-- ===== src/Malloc.antt =====
-- mymalloc, myfree and free_mem_count of my_pthread.c (Standalone models the copy of the first
-- two in mymalloc.c): a first-fit allocator over a doubly linked list of headers that stand in the memory which
-- they describe.
pub mod Blocks
pub mod Spec
mod Walk
mod Replace
pub mod Local
pub mod Writes
mod Place
pub mod Refine
mod Correct
pub mod Payloads
pub mod Serve
pub mod Merge
mod Adjacent
mod Free
pub mod RoundTrip
pub mod Frees
pub mod Given
pub mod Among
pub mod Fresh
pub mod Standalone
mod Agree
pub mod First
pub mod Whole
mod Tests
use asst.Base.{
  ℕ, zero, suc, ◌+◌, ◌-◌, ◌%◌, ◌^◌, Bool, not, ◌&&◌, ◌||◌, Option, none, some, Ptr, null, ltb, leb,
  ◌==◌, if◌then◌else◌, update, ◌>>=◌,
}

-- `struct mementry`. An `int` field holds its 32-bit pattern.
pub record Mementry : Type 0 where
  pub size : ℕ
  pub code : ℕ
  pub free : ℕ
  pub next : Ptr
  pub prev : Ptr

abbrev pub mycode : ℕ
mycode = 1234567890

-- `sizeof(struct mementry)`.
abbrev pub sizeof_mementry : ℕ
sizeof_mementry = 32

-- The memory as it is read: the header that stands at an address. The bytes of the users are not
-- modelled, nor is a read that straddles a header.
abbrev pub Mem : Type 0
Mem = Ptr → Mementry

-- The globals `head` and `middle`, and the memory.
pub record Arena : Type 0 where
  pub head : Ptr
  pub middle : Ptr
  pub mem : Mem

-- An `int` pattern widened to `size_t`.
abbrev pub to_size : ℕ → ℕ
to_size p = if ltb p (2 ^ 31) then p else p + (2 ^ 64 - 2 ^ 32)

-- `p->prev = q` and `p->next = q`, where the code has tested `p` against NULL.
abbrev pub set_prev : Ptr → Ptr → Mem → Mem
set_prev p q m = if p == null then m else update m p (record (m p) { prev = q })

abbrev pub set_next : Ptr → Ptr → Mem → Mem
set_next p q m = if p == null then m else update m p (record (m p) { next = q })

-- The first header of a page or chunk. At `memptr` NULL the write through `head` is a fault.
unfoldable pub initialize : Ptr → ℕ → Arena → Option Arena
initialize memptr size a =
    if a.head == null
    then (if memptr == null
        then none
        else some (record {
          head = memptr;
          middle = memptr;
          mem = update a.mem memptr (record {
            size = (size + 2 ^ 64 - sizeof_mementry) % 2 ^ 32;
            code = mycode;
            free = 1;
            next = null;
            prev = null;
          });
        }))
    else some a

-- `walker->free == 1` and `walker->size >= x`: the comparison is one of unsigned numbers.
abbrev pub fits : ℕ → Mementry → Bool
fits x w = w.free == 1 && leb x w.size

-- The loops `while(walker != NULL)`: they stop at a header that fits, or at NULL.
unfoldable pub walk_next : ℕ → ℕ → Mem → Ptr → Option Ptr
walk_next zero x m walker = none
walk_next (suc f) x m walker =
    let rest = walk_next f x m (m walker).next in
    if walker == null then some null else if fits x (m walker) then some walker else rest

unfoldable pub walk_prev : ℕ → ℕ → Mem → Ptr → Option Ptr
walk_prev zero x m walker = none
walk_prev (suc f) x m walker =
    let rest = walk_prev f x m (m walker).prev in
    if walker == null then some null else if fits x (m walker) then some walker else rest

-- `walker->size > x + sizeof(struct mementry)`, in `size_t`.
abbrev pub has_room : ℕ → Mementry → Bool
has_room x w = ltb ((x + sizeof_mementry) % 2 ^ 64) (to_size w.size)

-- `walker->size - sizeof(struct mementry) - x`, in `size_t`, stored in an `int`.
abbrev pub rest_size : ℕ → ℕ → ℕ
rest_size size x = (to_size size + 2 ^ 64 - sizeof_mementry + 2 ^ 64 - x) % 2 ^ 32

-- `walker->free = 0` and `return walker+1`.
abbrev pub take_whole : Ptr → Arena → Ptr × Arena
take_whole w a =
    (w + sizeof_mementry, record a { mem = update a.mem w (record (a.mem w) { free = 0 }) })

-- The split that gives the caller the left part: `temp` is written behind the `x` bytes, its right
-- neighbour is relinked, then `walker` shrinks.
abbrev pub split_left : ℕ → Ptr → Mem → Mem
split_left x w m =
    let temp = w + sizeof_mementry + x in
    let m1 = update m temp (record {
      size = rest_size (m w).size x;
      code = mycode;
      free = 1;
      next = (m w).next;
      prev = w;
    }) in
    let m2 = set_prev (m1 w).next temp m1 in
    update m2 w (record (m2 w) { size = x; free = 0; next = temp })

-- A request below 100 bytes, at the header that the walk from `head` found.
unfoldable pub take_small : ℕ → Ptr → Arena → Ptr × Arena
take_small x w a =
    if has_room x (a.mem w)
    then (
      w + sizeof_mementry,
      record a {
        mem = split_left x w a.mem;
        middle = if w == a.middle then w + sizeof_mementry + x else a.middle;
      },
    )
    else take_whole w a

-- A larger request, at a header to the right of `middle`.
unfoldable pub take_right : ℕ → Ptr → Arena → Ptr × Arena
take_right x w a =
    if has_room x (a.mem w)
    then (w + sizeof_mementry, record a { mem = split_left x w a.mem })
    else take_whole w a

-- `walker->size - x - sizeof(struct mementry)`: the first difference is one of `unsigned int`, the
-- second one of `size_t`.
abbrev pub gap : ℕ → ℕ → ℕ
gap size x = ((size + 2 ^ 32 - x) % 2 ^ 32 + 2 ^ 64 - sizeof_mementry) % 2 ^ 64

-- The split that gives the caller the right part.
abbrev pub split_right : ℕ → Ptr → Mem → Mem
split_right x w m =
    let temp = w + sizeof_mementry + gap (m w).size x in
    let m1 =
      update m temp (record { size = x; code = mycode; free = 0; next = (m w).next; prev = w }) in
    let m2 = set_prev (m1 w).next temp m1 in
    update m2 w (record (m2 w) { size = gap (m2 w).size x % 2 ^ 32; free = 1; next = temp })

-- A larger request, at `middle` or to its left.
unfoldable pub take_left : ℕ → Ptr → Arena → Ptr × Arena
take_left x w a =
    if has_room x (a.mem w)
    then (
      w + sizeof_mementry + gap (a.mem w).size x + sizeof_mementry,
      record a { mem = split_right x w a.mem },
    )
    else take_whole w a

unfoldable pub mymalloc_small : ℕ → ℕ → Arena → Option (Ptr × Arena)
mymalloc_small fuel x a = do
  walker ← walk_next fuel x a.mem a.head
  some (if walker == null then (null, a) else take_small x walker a)

-- The second walk of a larger request, from `middle` to the left.
unfoldable pub mymalloc_leftwards : ℕ → ℕ → Arena → Option (Ptr × Arena)
mymalloc_leftwards fuel x a = do
  walker ← walk_prev fuel x a.mem a.middle
  some (if walker == null then (null, a) else take_left x walker a)

unfoldable pub mymalloc_large : ℕ → ℕ → Arena → Option (Ptr × Arena)
unfolding mymalloc_leftwards
mymalloc_large fuel x a = if a.middle == null then none else (do
  walker ← walk_next fuel x a.mem (a.mem a.middle).next
  if walker == null then mymalloc_leftwards fuel x a else some (take_right x walker a))

-- `mymalloc`: the address, NULL if no space was found. `fuel` bounds the rounds of a loop.
unfoldable pub mymalloc : ℕ → ℕ → Ptr → ℕ → Arena → Option (Ptr × Arena)
mymalloc fuel x memptr size a = do
  a' ← initialize memptr size a
  if ltb x 100 then mymalloc_small fuel x a' else mymalloc_large fuel x a'

-- What `myfree` prints.
pub data FreeReport : Type 0 where
  freed : FreeReport
  out_of_bounds : FreeReport
  double_free : FreeReport
  not_allocated : FreeReport

-- The merge with a free neighbour on the left: the header that is left, and the new state.
unfoldable pub merge_prev : Ptr → Arena → Ptr × Arena
merge_prev freeer a =
    let h = a.mem freeer in
    if not (h.prev == null) && (a.mem h.prev).free == 1
    then (let m1 = set_prev h.next h.prev a.mem in
        let m2 = set_next h.prev h.next m1 in
        let p = m2 h.prev in
        (
          h.prev,
          record a {
            mem = update m2 h.prev (record p {
              size = (p.size + (sizeof_mementry + to_size (m2 freeer).size)) % 2 ^ 32;
            });
            middle = if freeer == a.middle then h.prev else a.middle;
          },
        ))
    else (freeer, a)

-- The merge with a free neighbour on the right.
unfoldable pub merge_next : Ptr → Arena → Arena
merge_next freeer a =
    let temp = (a.mem freeer).next in
    if not (temp == null) && (a.mem temp).free == 1
    then (let m1 = set_prev (a.mem temp).next (a.mem temp).prev a.mem in
        let m2 = set_next (m1 temp).prev (m1 temp).next m1 in
        let p = m2 freeer in
        record a {
          mem =
              update m2 freeer (record p {
                size = (p.size + (sizeof_mementry + to_size (m2 temp).size)) % 2 ^ 32;
              });
          middle = if temp == a.middle then freeer else a.middle;
        })
    else a

-- A block of `mycode` that is not free is freed and merged with its neighbours.
unfoldable pub free_block : Ptr → Arena → Arena
free_block freeer a =
    let (f, a') =
      merge_prev freeer
        (record a { mem = update a.mem freeer (record (a.mem freeer) { free = 1 }) }) in
    merge_next f a'

unfoldable pub myfree : Ptr → Arena → FreeReport × Arena
myfree x a =
    if ltb x (a.head + sizeof_mementry) || ltb (a.head + 4999) x
    then (out_of_bounds, a)
    else (let freeer = x - sizeof_mementry in
        let h = a.mem freeer in
        if h.code == mycode
        then (if h.free == 1 then (double_free, a) else (freed, free_block freeer a))
        else (not_allocated, a))

-- `rtn += walker->size`, in an `int`.
free_count_from : ℕ → ℕ → Mem → Ptr → Option ℕ
free_count_from zero rtn m walker = none
free_count_from (suc f) rtn m walker =
    let h = m walker in
    let rest = free_count_from f (if h.free == 0 then rtn else (rtn + h.size) % 2 ^ 32) m h.next in
    if walker == null then some rtn else rest

unfoldable pub free_mem_count : ℕ → Arena → Option ℕ
unfolding free_count_from
free_mem_count fuel a = free_count_from fuel 0 a.mem a.head
