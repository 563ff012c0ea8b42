-- ===== src/Memory/RunCases.antt =====
-- Concrete runs of myallocate and mydeallocate.
use asst.Base.{
  ℕ, List, ◌∷◌, ◌++◌, ◌<◌, ◌≤◌, sym, subst, ◌+◌, ◌*◌, ◌≡◌, ◌≢◌, refl, true, none, some, Option, Ptr,
  null, update, arith, ◌⊎◌,
}
use asst.Types.{Tcb, Platform, threadreq, libraryreq}
use asst.Malloc.{
  freed, mymalloc, initialize, free_mem_count, take_left, mymalloc_large, walk_next, walk_prev,
}
use asst.Malloc.Blocks.{Block}
use asst.Malloc.Payloads.{payloads}
use asst.Malloc.Among.{Among, Among-here}
use asst.Memory.{Mm, enter, frame_address}
use asst.Memory.NewPage.{raised}
use asst.Memory.Answer.{Ended, Answered}
use asst.Memory.Requests.{myallocate-Answered}
use asst.Memory.Returns.{Returned, mydeallocate-Returned}
use asst.Memory.NewThread.{Begun, myallocate-Begun}
use asst.Memory.Accounts.{Inv, Inv-Start}
use asst.Memory.Owned.{Owned-inside, Owned}
use asst.Memory.Runs.{live-apart, request-answered, release-freed}
use asst.Memory.Setup.{myallocate-Start}
use asst.Memory.Page.{
  block_fuel, page_fuel, swap_open, load_arena, store_arena, run_mymalloc, last_page, gather_front,
  use_last_page, use_first_page, use_new_page, try_page, search_pages,
}
use asst.Memory.Library.{begin_call}
use asst.Memory.Tests.{block_mm, thread, page_of}
use asst.Memory.Calls.{Machine, request, step, Start, Reached, start, next}
use asst.Memory.Allocate.{myallocate, allocate_small, allocate_in_pages, allocate_new_page}
use asst.Memory.Release.{mydeallocate}

abbrev platform : Platform
platform = record {
  memalign = 4096;
  sigaction = true;
  setitimer = λ usec. true;
  sizeof_ucontext = 936;
}

abbrev nothing : Mm
nothing = record block_mm { frame_table = λ k. null; page_counter = 0; metas = λ p. page_of 0 0 }

abbrev idle : Machine
idle = record { threads = λ n. record thread { tid = n }; live = λ n q. 0; memory = nothing }

idle-Start : Start idle
idle-Start = record {
  set_up = refl;
  none_given = refl;
  vacant = λ k. refl;
  region = omega arith;
  temp = omega arith;
  pos = omega arith;
  clear = λ p h. refl;
  names = λ n. refl;
  no_page = λ n. refl;
  first = λ n. refl;
  nothing = λ n q. refl;
}

abbrev told : Option Machine → Machine
told none = idle
told (some s) = s

abbrev one : Machine
one = told (step platform idle (request 1 600))

to_one : step platform idle (request 1 600) ≡ some one
unfolding step mymalloc initialize block_fuel free_mem_count take_left mymalloc_large walk_next
    walk_prev myallocate begin_call allocate_small use_first_page use_last_page last_page page_fuel
    gather_front load_arena swap_open allocate_in_pages run_mymalloc store_arena search_pages
    try_page use_new_page allocate_new_page
to_one = refl

-- Another thread puts its page in frame 0, and the first one takes the frame back.
abbrev two : Machine
two = told (step platform one (request 2 700))

to_two : step platform one (request 2 700) ≡ some two
unfolding step mymalloc initialize block_fuel free_mem_count take_left mymalloc_large walk_next
    walk_prev myallocate begin_call allocate_small use_first_page use_last_page last_page page_fuel
    gather_front load_arena swap_open allocate_in_pages run_mymalloc store_arena search_pages
    try_page use_new_page allocate_new_page
to_two = refl

abbrev three : Machine
three = told (step platform two (request 1 800))

to_three : step platform two (request 1 800) ≡ some three
unfolding step mymalloc initialize block_fuel free_mem_count take_left mymalloc_large walk_next
    walk_prev myallocate begin_call allocate_small use_first_page use_last_page last_page page_fuel
    gather_front load_arena swap_open allocate_in_pages run_mymalloc store_arena search_pages
    try_page use_new_page allocate_new_page
to_three = refl

live_first : three.live 1 7592 ≡ 600
unfolding step mymalloc initialize block_fuel free_mem_count take_left mymalloc_large walk_next
    walk_prev myallocate begin_call allocate_small use_first_page use_last_page last_page page_fuel
    gather_front load_arena swap_open allocate_in_pages run_mymalloc store_arena search_pages
    try_page use_new_page allocate_new_page
live_first = refl

live_second : three.live 1 6760 ≡ 800
unfolding step mymalloc initialize block_fuel free_mem_count take_left mymalloc_large walk_next
    walk_prev myallocate begin_call allocate_small use_first_page use_last_page last_page page_fuel
    gather_front load_arena swap_open allocate_in_pages run_mymalloc store_arena search_pages
    try_page use_new_page allocate_new_page
live_second = refl

live_other : three.live 2 7492 ≡ 700
unfolding step mymalloc initialize block_fuel free_mem_count take_left mymalloc_large walk_next
    walk_prev myallocate begin_call allocate_small use_first_page use_last_page last_page page_fuel
    gather_front load_arena swap_open allocate_in_pages run_mymalloc store_arena search_pages
    try_page use_new_page allocate_new_page
live_other = refl

frames_left : three.memory.page_counter ≡ 2
unfolding step mymalloc initialize block_fuel free_mem_count take_left mymalloc_large walk_next
    walk_prev myallocate begin_call allocate_small use_first_page use_last_page last_page page_fuel
    gather_front load_arena swap_open allocate_in_pages run_mymalloc store_arena search_pages
    try_page use_new_page allocate_new_page
frames_left = refl

room_one : one.memory.page_counter ≡ 1
unfolding step mymalloc initialize block_fuel free_mem_count take_left mymalloc_large walk_next
    walk_prev myallocate begin_call allocate_small use_first_page use_last_page last_page page_fuel
    gather_front load_arena swap_open allocate_in_pages run_mymalloc store_arena search_pages
    try_page use_new_page allocate_new_page
room_one = refl

room_two : two.memory.page_counter ≡ 2
unfolding step mymalloc initialize block_fuel free_mem_count take_left mymalloc_large walk_next
    walk_prev myallocate begin_call allocate_small use_first_page use_last_page last_page page_fuel
    gather_front load_arena swap_open allocate_in_pages run_mymalloc store_arena search_pages
    try_page use_new_page allocate_new_page
room_two = refl

to_three_Reached : Reached platform idle three
to_three_Reached =
    next (request 1 800)
      (next (request 2 700)
        (next (request 1 600) start (omega arith, omega arith, omega arith) to_one)
        (omega arith, omega arith, omega (arith, room_one)) to_two)
      (omega arith, omega arith, omega (arith, room_two)) to_three

live-apart_example :
    ((7592 + three.live 1 7592 ≤ 6760) ⊎ (6760 + three.live 1 6760 ≤ 7592))
    × (three.memory.myblock_ptr + 32 ≤ 7592)
    × (7592 + three.live 1 7592 ≤ three.memory.myblock_ptr + 1596 * 4096)
live-apart_example =
    live-apart platform idle three idle-Start to_three_Reached 1 7592 6760
      (omega (arith, live_first)) (omega (arith, live_second)) (omega arith)

request-answered_example :
    (q : Ptr) × (t : Tcb) × (m : Mm) × (myallocate platform 3000 threadreq
        (three.threads 2)
        three.memory
      ≡ some (q, t, m))
    × (q ≢ null)
    × ((q' : Ptr) → three.live 2 q' ≢ 0 → (q + 3000 ≤ q') ⊎ (q' + three.live 2 q' ≤ q))
    × Ended m
request-answered_example =
    request-answered platform idle three idle-Start to_three_Reached 2 3000 (omega arith)
      (omega arith) (omega (arith, frames_left))

release-freed_example :
    (m : Mm) × (mydeallocate 7492 (three.threads 2) three.memory ≡ some (freed, m)) × Ended m
release-freed_example =
    release-freed platform idle three idle-Start to_three_Reached 2 7492 (omega (arith, live_other))

myallocate-Start_example :
    (q : Ptr) × (m' : Mm) × (myallocate platform 48 libraryreq thread
        (record nothing { first_call = true })
      ≡ some (q, thread, m'))
    × Start (record { threads = λ n. record thread { tid = n }; live = λ n p. 0; memory = m' })
myallocate-Start_example =
    myallocate-Start platform 48 thread (λ n. record thread { tid = n })
      (record nothing { first_call = true }) refl (omega arith) refl refl (λ k. refl) (λ p. refl)
      (λ n. (refl, refl, refl))

idle-Inv : Inv idle
idle-Inv = Inv-Start idle idle-Start

myallocate-Begun_example :
    (p : Ptr) × (q : Ptr) × (m' : Mm) × (myallocate platform 600 threadreq thread nothing
      ≡ some (q, record thread { first_page = p }, m'))
    × Begun idle-Inv.home idle-Inv.held idle-Inv.top thread 600 nothing p q m'
myallocate-Begun_example =
    myallocate-Begun platform 600 idle-Inv.world thread
      (refl, refl, λ k l. absurd (omega (arith, l))) (omega arith) (omega arith)

-- The first page of thread 1, with one block.
begun :
    (p : Ptr) × (q : Ptr) × (m' : Mm) × (myallocate platform 600 threadreq thread nothing
      ≡ some (q, record thread { first_page = p }, m'))
    × Begun idle-Inv.home idle-Inv.held idle-Inv.top thread 600 nothing p q m'
begun =
    myallocate-Begun platform 600 idle-Inv.world thread
      (refl, refl, λ k l. absurd (omega (arith, l))) (omega arith) (omega arith)

abbrev with_page : Tcb
with_page = record thread { first_page = begun.0 }

abbrev begun_home : Ptr → ℕ
begun_home = update idle-Inv.home begun.0 0

abbrev begun_held : Ptr → List Block
begun_held = update idle-Inv.held begun.0 (begun.4).made

myallocate-Answered_example :
    Answered begun_home begun_held
      (raised 0 idle-Inv.top)
      with_page
      (λ k. begun.0)
      700
      (enter begun.2)
      (myallocate platform 700 threadreq with_page begun.2)
myallocate-Answered_example =
    myallocate-Answered platform 700 (begun.4).world (begun.4).thread (omega arith)
      (omega (arith, (begun.4).counted))

begun_payloads :
    payloads (frame_address 0 begun.2) (begun_held begun.0)
    ≡ (begun.4).handed.payload.below
      ++ (begun.1, (begun.4).handed.payload.size) ∷ (begun.4).handed.payload.above
begun_payloads =
    let now : begun_held begun.0 ≡ (begun.4).made = ground arith in
    rw ((begun.4).block, now) ((begun.4).handed.payload.after)

begun_inside : begun.1 < frame_address 0 begun.2 + 4096
begun_inside =
    let ins = (begun.4).handed.payload in
    let o : Owned begun_held with_page (λ k. begun.0) begun.2 begun.1 600 = record {
      index = 0;
      own = omega arith;
      size = ins.size;
      enough = ins.enough;
      payload =
          subst (λ l. Among begun.1 ins.size l) (sym begun_payloads)
            (Among-here begun.1 ins.size ins.below ins.above);
    } in
    let (from, to) = Owned-inside (begun.4).world (begun.4).thread o in omega (arith, to)

mydeallocate-Returned_example :
    (m' : Mm) × (mydeallocate begun.1 with_page begun.2 ≡ some (freed, m'))
    × Returned begun_home begun_held
        (raised 0 idle-Inv.top)
        with_page
        (λ k. begun.0)
        0
        ((begun.4).handed.payload.below ++ (begun.4).handed.payload.above)
        (enter begun.2)
        m'
mydeallocate-Returned_example =
    mydeallocate-Returned (begun.4).world (begun.4).thread 0 begun.1 (begun.4).handed.payload.size
      (begun.4).handed.payload.below (begun.4).handed.payload.above (omega arith) begun_payloads
      begun_inside
