-- ===== src/Memory/Grow.antt =====
-- use_new_page of myallocate: a page behind those that the thread has.
use asst.Base.{
  ℕ, ◌+◌, ◌-◌, ◌<◌, ◌≡◌, ◌≢◌, refl, true, false, Bool, ◌&&◌, some, Ptr, null, minus_one, ltb, ◌==◌,
  update, arith,
}
use asst.Types.{Tcb, PageMeta}
use asst.Memory.{Mm, enter, protect_all}
use asst.Memory.Library.{new_meta}
use asst.Memory.Page.{swap_open, use_new_page, clear_arena}
use asst.Memory.Own.{low}
use asst.Memory.NewPage.{added}

-- The frames that the mprotect calls leave open.
abbrev pub opened : Mm → ℕ → Bool
opened m = (enter (protect_all false (enter m))).access

-- The meta of the new page at `i`, after what stood there.
abbrev pub new_page_meta : ℕ → ℕ → PageMeta → PageMeta
new_page_meta i n v = record v {
  page_frame = i;
  tid = n;
  next = null;
  head = null;
  middle = null;
  num_pages = 1;
}

-- The metas with the new one linked behind `before`.
abbrev pub linked_metas : ℕ → ℕ → Ptr → Mm → Ptr → PageMeta
linked_metas i n before m =
    let metas = update m.metas m.os_mem_ptr (new_page_meta i n (m.metas m.os_mem_ptr)) in
    update metas before (record (metas before) { next = m.os_mem_ptr })

pub use_new_page-added :
    (t : Tcb) (m m1 : Mm) (before : Ptr)
    → m.page_counter < 1596
    → t.malloc_frame + 1 < 1596
    → swap_open (t.malloc_frame + 1) minus_one (record t { malloc_frame = t.malloc_frame + 1 }) m
      ≡ some m1
    → m1.os_mem_ptr ≢ null
    → m1.frame_table t.malloc_frame ≡ before
    → before ≢ null
    → use_new_page t m
      ≡ some (
          some (
            record t { malloc_frame = t.malloc_frame + 1 },
            added
                (t.malloc_frame + 1)
                (linked_metas (t.malloc_frame + 1) t.tid before m1)
                true
                (opened m1)
                m1,
          ))
unfolding use_new_page new_meta clear_arena
use_new_page-added t m m1 before low low' run some_p at used =
    let e : (ltb m.page_counter 5692 && ltb t.malloc_frame 1596) ≡ true =
      ground (arith, low, low') in
    let e1 : (m1.os_mem_ptr == null) ≡ false = ground (arith, some_p) in
    let e2 : ltb (t.malloc_frame + 1) 1596 ≡ true = ground (arith, low') in
    let e3 : ltb (t.malloc_frame + 1 - 1) 1596 ≡ true = ground (arith, low') in
    let e4 : update m1.frame_table (t.malloc_frame + 1) m1.os_mem_ptr (t.malloc_frame + 1 - 1)
        ≡ before =
      ground (arith, at) in
    let e5 : (before == null) ≡ false = ground (arith, used) in rw (e, run, e1, e2, e3, e4, e5) refl
