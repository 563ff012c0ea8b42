-- ===== src/Memory/Setup.antt =====
-- The first call of myallocate, by the thread library: the block is set up.
use asst.Base.{ℕ, ◌+◌, ◌*◌, ◌<◌, ◌≡◌, refl, true, false, some, Ptr, null, arith}
use asst.Types.{Tcb, Platform, libraryreq}
use asst.Memory.{Mm, enter}
use asst.Memory.Library.{bump, first_setup, begin_call}
use asst.Memory.Allocate.{myallocate}
use asst.Memory.Calls.{Start}

-- The block with its regions, and the frame table given out.
abbrev prepared : Platform → Mm → Mm
prepared os m =
    let block = os.memalign in
    let m1 = record (enter m) {
      first_call = false;
      myblock_ptr = block;
      swap_temp = block + 1600 * 4096;
      os_mem_ptr = block + 1601 * 4096;
      shalloc_mem_ptr = block + 1596 * 4096;
    } in
    enter (bump (8 * 1596) (enter m1)).1

-- The first call of myallocate, a request of the library, where sigaction succeeds, memalign gives an
-- address, no page is given out, the frame table and the front_meta of the page metas are clear, and
-- the threads have their own ids and no pages: it does not fault, and leaves a state from which the
-- runs of the threads start.
pub myallocate-Start :
    (os : Platform) (x : ℕ) (t : Tcb) (threads : ℕ → Tcb) (m : Mm)
    → os.sigaction ≡ true
    → 0 < os.memalign
    → m.first_call ≡ true
    → m.page_counter ≡ 0
    → ((k : ℕ) → m.frame_table k ≡ null)
    → ((p : Ptr) → (m.metas p).front_meta ≡ null)
    → ((n : ℕ)
        → ((threads n).tid ≡ n) × ((threads n).first_page ≡ null) × ((threads n).malloc_frame ≡ 0))
    → (q : Ptr) × (m' : Mm) × (myallocate os x libraryreq t m ≡ some (q, t, m'))
      × Start (record { threads = threads; live = λ n p. 0; memory = m' })
unfolding myallocate begin_call first_setup
myallocate-Start os x t threads m action address first none_given vacant clear idle = (
  (bump x (prepared os m)).0,
  (bump x (prepared os m)).1,
  rw (first, action) refl,
  record {
    set_up = refl;
    none_given = none_given;
    vacant = vacant;
    region = omega (arith, address);
    temp = omega arith;
    pos = address;
    clear = λ p h. clear p;
    names = λ n. (idle n).0;
    no_page = λ n. (idle n).1;
    first = λ n. (idle n).2;
    nothing = λ n p. refl;
  },
)
