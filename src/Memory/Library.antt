-- ===== src/Memory/Library.antt =====
-- The library requests of myallocate: the first call of all, and the handle into the OS region.
use asst.Base.{ℕ, ◌+◌, ◌*◌, false, Option, none, some, Ptr, if◌then◌else◌}
use asst.Types.{Platform, sizeof_page_meta}
use asst.Memory.{Mm, page_size, num_frames, protect_all, enter}

-- `sizeof(page_meta_ptr)`.
abbrev pub sizeof_pointer : ℕ
sizeof_pointer = 8

-- The bytes of the block that memalign gives.
abbrev pub block_size : ℕ
block_size = 8388608

-- `os_mem_ptr += (int)x`, with no test against the end of the block: a handle beyond `block_size` is
-- given out all the same, and what is written there is not a fault of the model. A request is of the
-- size of a struct or of a stack, below 2 ^ 31, where the conversion to `int` changes nothing. The
-- caller resets `mem_flag`.
abbrev pub bump : ℕ → Mm → Ptr × Mm
bump x m = (m.os_mem_ptr, protect_all false (record m { os_mem_ptr = m.os_mem_ptr + x }))

-- The first call: the block, its regions, and the frame table in the OS region. Its entries are
-- what the memory there holds. `none`: sigaction failed and the program exits.
unfoldable pub first_setup : Platform → Mm → Option Mm
first_setup os m =
    if os.sigaction
    then (let block = os.memalign in
        let m1 = record m {
          first_call = false;
          myblock_ptr = block;
          swap_temp = block + 1600 * page_size;
          os_mem_ptr = block + 1601 * page_size;
          shalloc_mem_ptr = block + 1596 * page_size;
        } in
        some (enter (bump (sizeof_pointer * num_frames) (enter m1)).1))
    else none

-- What every call of myallocate does first.
unfoldable pub begin_call : Platform → Mm → Option Mm
unfolding first_setup
begin_call os m = if m.first_call then first_setup os (enter m) else some (enter m)

unfoldable pub library_allocate : Platform → ℕ → Mm → Option (Ptr × Mm)
unfolding begin_call
library_allocate os x m = elim (begin_call os m) [ none ↦ none | some m' ↦ some (bump x m') ]

-- A page meta from the OS region, after which the manager opens the memory again. Only a first
-- call can fail, and the manager's own calls are never that.
unfoldable pub new_meta : Mm → Ptr × Mm
new_meta m = let (p, m') = bump sizeof_page_meta (enter m) in (p, enter m')
