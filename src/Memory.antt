-- ===== src/Memory.antt =====
-- The state of mymemorymanager.c, and the accesses that its functions share.
pub mod Swap
pub mod Exchange
pub mod Pages
pub mod Fault
pub mod Sizes
pub mod Tests
pub mod Library
pub mod Chunk
pub mod Page
pub mod Allocate
pub mod Release
pub mod Offset
pub mod FirstPage
pub mod FirstRequest
pub mod FirstFree
pub mod File
pub mod World
pub mod Bring
pub mod Brought
pub mod Own
pub mod Load
pub mod Store
pub mod InPage
pub mod Search
pub mod SearchAll
pub mod Clear
pub mod NewPage
pub mod NewLinks
pub mod Grow
pub mod Extend
pub mod Answer
pub mod Requests
pub mod Find
pub mod Returns
pub mod NewThread
pub mod Owned
pub mod Calls
pub mod Accounts
pub mod Serving
pub mod Releasing
pub mod Runs
pub mod Setup
mod RunCases
pub mod Linked
pub mod Lost
mod Cases
use asst.Base.{
  ℕ, zero, suc, ◌+◌, ◌-◌, ◌*◌, ◌<◌, Bool, true, ◌&&◌, Option, none, some, Ptr, null, ltb, leb, ◌==◌,
  if◌then◌else◌, update, ◌>>=◌,
}
use asst.Types.{PageMeta}
use asst.Malloc.{Mementry, Mem, Arena}

-- The frames that threads share, the length of `frame_table`.
abbrev pub num_frames : ℕ
num_frames = 1596

abbrev pub page_size : ℕ
page_size = 4096

-- The globals. `arena` holds `head`, `middle` and the memory; `metas` the page metas by address;
-- `access` the frames that mprotect leaves open; `swap_file` the headers in the file, by offset.
pub record Mm : Type 0 where
  pub myblock_ptr : Ptr
  pub frame_table : ℕ → Ptr
  pub first_call : Bool
  pub arena : Arena
  pub os_mem_ptr : Ptr
  pub swap_temp : Ptr
  pub swap_file : ℕ → Mementry
  pub page_counter : ℕ
  pub current_page_meta : Ptr
  pub mem_flag : Bool
  pub shalloc_mem_ptr : Ptr
  pub shalloc_head : Ptr
  pub shalloc_middle : Ptr
  pub count : ℕ
  pub metas : Ptr → PageMeta
  pub access : ℕ → Bool

-- `mprotect(myblock_ptr, 6537216, …)`: every frame is opened or closed.
abbrev pub protect_all : Bool → Mm → Mm
protect_all open_all m = record m {
  access = λ i. if ltb i num_frames then open_all else m.access i;
}

-- `mem_flag = 1` and the opening mprotect.
abbrev pub enter : Mm → Mm
enter m = record (protect_all true m) { mem_flag = true }

-- `frame_table[i]`, a fault out of the array.
abbrev pub frame_at : ℕ → Mm → Option Ptr
frame_at i m = if ltb i num_frames then some (m.frame_table i) else none

abbrev pub set_frame : ℕ → Ptr → Mm → Option Mm
set_frame i p m =
    if ltb i num_frames then some (record m { frame_table = update m.frame_table i p }) else none

-- `*p` and a write through `p`, a fault at NULL.
abbrev pub meta_at : Ptr → Mm → Option PageMeta
meta_at p m = if p == null then none else some (m.metas p)

abbrev pub set_meta : Ptr → PageMeta → Mm → Option Mm
set_meta p v m = if p == null then none else some (record m { metas = update m.metas p v })

abbrev pub set_page_frame : Ptr → ℕ → Mm → Option Mm
set_page_frame p i m = do v ← meta_at p m; set_meta p (record v { page_frame = i }) m

-- `p->next = q`.
abbrev pub set_next_page : Ptr → Ptr → Mm → Option Mm
set_next_page p q m = do v ← meta_at p m; set_meta p (record v { next = q }) m

abbrev pub frame_address : ℕ → Mm → Ptr
frame_address i m = m.myblock_ptr + i * page_size

-- `memcpy` of a page.
abbrev pub copy_page : Ptr → Ptr → Mem → Mem
copy_page dst src mem a =
    if leb dst a && ltb a (dst + page_size) then mem (src + (a - dst)) else mem a

abbrev pub with_mem : Mem → Mm → Mm
with_mem mem m = record m { arena = record (m.arena) { mem = mem } }

-- `read` and `write` of a page at an offset of the swap file.
abbrev pub read_page : ℕ → Ptr → Mm → Mm
read_page offset dst m =
    with_mem
      (λ a.
        if leb dst a && ltb a (dst + page_size)
        then m.swap_file (offset + (a - dst))
        else m.arena.mem a)
      m

abbrev pub write_page : ℕ → Ptr → Mm → Mm
write_page offset src m = record m {
  swap_file = λ o.
      if leb offset o && ltb o (offset + page_size)
      then m.arena.mem (src + (o - offset))
      else m.swap_file o;
}

-- `n` steps along the `next` links, a fault at NULL.
unfoldable pub nth_page : ℕ → Ptr → Mm → Option Ptr
nth_page zero p m = some p
nth_page (suc n) p m = if p == null then none else nth_page n (m.metas p).next m
