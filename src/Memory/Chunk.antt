-- ===== src/Memory/Chunk.antt =====
-- Requests of more than a page: myallocate gives them pages of their own.
use asst.Base.{
  ℕ, zero, suc, ◌+◌, ◌-◌, ◌*◌, ◌/◌, ◌%◌, ◌^◌, false, Option, none, some, Ptr, null, minus_one, ltb,
  ◌==◌, if◌then◌else◌, ◌>>=◌,
}
use asst.Types.{Tcb, PageMeta}
use asst.Memory.{
  Mm, num_frames, page_size, protect_all, frame_at, set_frame, meta_at, set_meta, set_next_page,
  frame_address,
}
use asst.Memory.Library.{new_meta}
use asst.Memory.Page.{swap_open, clear_arena, run_mymalloc, store_arena}

-- How many pages `x` bytes and a header take, in `unsigned int`.
unfoldable pub num_of_pages : ℕ → ℕ
num_of_pages x =
    let n = (x + 32) % 2 ^ 32 in if ltb 0 (n % page_size) then n / page_size + 1 else n / page_size

-- `n` frames from `i` on are evicted.
unfoldable pub evict_frames : ℕ → ℕ → Tcb → Mm → Option Mm
unfolding swap_open
evict_frames zero i t m = some m
evict_frames (suc n) i t m = do m' ← swap_open i minus_one t m; evict_frames n (i + 1) t m'

-- What the meta of a page of a chunk is set to, after `v`.
abbrev pub chunk_meta : ℕ → ℕ → Tcb → Ptr → PageMeta → PageMeta
chunk_meta i n t front v = record v {
  page_frame = i;
  tid = t.tid;
  next = null;
  head = null;
  middle = null;
  front_meta = front;
  num_pages = n;
  free_page_mem = minus_one;
}

-- The metas of the pages behind the first, `k` of them from frame `i` on, and the last of them.
-- With none of them the variable stays unset, which NULL stands for.
unfoldable pub chunk_rest : ℕ → ℕ → ℕ → Ptr → Ptr → Tcb → Mm → Option (Ptr × Mm)
unfolding new_meta
chunk_rest zero i n front new_page_meta t m = some (new_page_meta, m)
chunk_rest (suc k) i n front new_page_meta t m = do
  let (p, m1) = new_meta m
  v ← meta_at p m1
  m2 ← set_meta p (chunk_meta i n t front v) m1
  before ← frame_at (i - 1) m2
  m3 ← set_next_page before p m2
  m4 ← set_frame i p m3
  chunk_rest k (i + 1) n front p t m4

-- The first pages of a thread. `some none`: the request is refused.
unfoldable pub chunk_first : ℕ → Tcb → Mm → Option (Option (Tcb × Mm))
unfolding evict_frames chunk_rest new_meta
chunk_first n t0 m = if ltb num_frames n then some none else (do
  m1 ← evict_frames n 0 t0 m
  let (front, m2) = new_meta m1
  v ← meta_at front m2
  m3 ← set_meta front (chunk_meta 0 n t0 front v) m2
  m4 ← set_frame 0 front m3
  (last, m5) ← chunk_rest (n - 1) 1 n front null t0 m4
  some (
      some (
        record t0 { first_page = front; malloc_frame = (n + 2 ^ 32 - 1) % 2 ^ 32 },
        record m5 { current_page_meta = last },
      )))

-- Pages behind those that the thread has. `first_page` is set to the new chunk.
unfoldable pub chunk_next : ℕ → Tcb → Mm → Option (Option (Tcb × Mm))
unfolding evict_frames chunk_rest new_meta
chunk_next n t0 m = if ltb 1595 (t0.malloc_frame + n) then some none else (do
  let f = t0.malloc_frame + 1
  let t = record t0 { malloc_frame = f }
  m1 ← evict_frames n f t m
  let (front, m2) = new_meta m1
  v ← meta_at front m2
  m3 ← set_meta front (chunk_meta f n t front v) m2
  before ← frame_at (f - 1) m3
  m4 ← set_next_page before front m3
  m5 ← set_frame f front m4
  (last, m6) ← chunk_rest (n - 1) (f + 1) n front null t m5
  some (
      some (
        record t { first_page = front; malloc_frame = f + (n - 1) },
        record m6 { current_page_meta = last },
      )))

-- The block of the chunk.
unfoldable pub chunk_finish : ℕ → ℕ → Mm → Option (Ptr × Mm)
unfolding run_mymalloc store_arena clear_arena
chunk_finish x n m = do
  c ← meta_at m.current_page_meta m
  front ← meta_at c.front_meta m
  (p, m1) ← run_mymalloc x (frame_address front.page_frame m) (page_size * n) (clear_arena m)
  m2 ← store_arena m1
  some (p, record (protect_all false m2) { mem_flag = false })

-- A request of more than 4064 bytes. A refusal returns NULL and leaves the state as it is.
unfoldable pub allocate_chunk : ℕ → Tcb → Mm → Option (Ptr × Tcb × Mm)
unfolding num_of_pages chunk_first chunk_next chunk_finish
allocate_chunk x t m = do
  let n = num_of_pages x
  placed ← (if t.first_page == null then chunk_first n t m else chunk_next n t m)
  elim placed [
    | none ↦ some (null, t, m)
    | some (t', m1) ↦ (do (p, m2) ← chunk_finish x n m1; some (p, t', m2))
  ]
