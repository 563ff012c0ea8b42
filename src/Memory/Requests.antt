-- ===== src/Memory/Requests.antt =====
-- myallocate for a thread with pages, in a world of threads with pages.
use asst.Base.{
  ℕ, ◌<◌, ◌≤◌, ◌≡◌, ◌≢◌, ◌∙◌, refl, sym, subst, true, false, Bool, some, Ptr, null, ltb, ◌==◌,
  if◌then◌else◌, List, arith,
}
use asst.Types.{Tcb, Platform, threadreq}
use asst.Malloc.Blocks.{Block}
use asst.Memory.{Mm, enter}
use asst.Memory.FirstRequest.{begin_call-later, not_large}
use asst.Memory.Page.{use_last_page}
use asst.Memory.World.{World, Thread}
use asst.Memory.Own.{World-turned, Thread-turned, page_used}
use asst.Memory.Load.{use_last_page-AtPage}
use asst.Memory.Answer.{Answered, in_pages-Answered}
use asst.Memory.Allocate.{allocate_in_pages, allocate_small, myallocate}

-- A small request of a thread with pages is one in its last page.
myallocate-later :
    (os : Platform) (x : ℕ) (t : Tcb) (m m1 : Mm)
    → m.first_call ≡ false
    → x ≤ 4064
    → t.first_page ≢ null
    → use_last_page t (enter m) ≡ some m1
    → myallocate os x threadreq t m ≡ allocate_in_pages x t m1
unfolding myallocate allocate_small
myallocate-later os x t m m1 set_up small used run =
    let e : (t.first_page == null) ≡ false = ground (arith, used) in
    rw (begin_call-later os m set_up, not_large x small, e, run) refl

abbrev every : Mm → ℕ → Bool
every m = λ k. if ltb k 1596 then true else m.access k

pub World-enter :
    {home : Ptr → ℕ} {held : Ptr → List Block} {top : ℕ} {m : Mm}
    → World home held top m
    → World home held top (enter m)
World-enter {m = m} w =
    World-turned m.current_page_meta m.arena.head m.arena.middle true (every m) w

pub Thread-enter :
    {home : Ptr → ℕ} {t : Tcb} {page : ℕ → Ptr} {m : Mm}
    → Thread home t page m
    → Thread home t page (enter m)
Thread-enter {t = t} {page = page} {m = m} th =
    Thread-turned m.current_page_meta m.arena.head m.arena.middle true (every m) t page th

-- A request of at most 4064 bytes, by a thread that has pages, among the pages of any number of threads,
-- each in some frame of memory, with a frame left: it does not fault and is not refused. The payload is
-- in a page of the thread, or in a new one if no block of its last page has the bytes; it overlaps no
-- other, every other page holds what it held, every thread has the pages it had, every frame is closed,
-- and mem_flag is cleared.
pub myallocate-Answered :
    (os : Platform) (x : ℕ) {home : Ptr → ℕ} {held : Ptr → List Block} {top : ℕ} {m : Mm}
    → World home held top m
    → {t : Tcb} {page : ℕ → Ptr} → Thread home t page m
    → x ≤ 4064
    → m.page_counter < 1596
    → Answered home held top t page x (enter m) (myallocate os x threadreq t m)
myallocate-Answered os x {home} {held} {top} {m} w {t} {page} th small space =
    let th' = Thread-enter th in
    let (m1, run, at) = use_last_page-AtPage (World-enter w) th' in
    subst (Answered home held top t page x (enter m))
      (sym (
        myallocate-later os x t m m1 w.later small
          (λ e. page_used w th 0 (omega arith) (sym th.first ∙ e)) run))
      (in_pages-Answered th' x small at space)
