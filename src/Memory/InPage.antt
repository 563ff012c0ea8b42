-- ===== src/Memory/InPage.antt =====
-- A request in the current page of a thread, and the store behind it.
use asst.Base.{
  ℕ, ◌+◌, ◌<◌, ◌≤◌, ◌^◌, ◌≡◌, ◌≢◌, ◌∙◌, refl, sym, ap, subst, false, Option, some, Ptr, null, ◌==◌,
  update, List, length, arith,
}
use asst.Types.{Tcb}
use asst.Malloc.{Arena, mymalloc}
use asst.Malloc.Blocks.{Block, end}
use asst.Malloc.Merge.{Holds}
use asst.Malloc.Payloads.{Handed}
use asst.Malloc.Serve.{NoFit}
use asst.Malloc.Local.{Local}
use asst.Malloc.Given.{Given, no_room, given, mymalloc-Given, payload-inside}
use asst.Malloc.Whole.{length-le, free_mem_count-Holds}
use asst.Malloc.First.{free_bytes}
use asst.Memory.{Mm, frame_address}
use asst.Memory.FirstRequest.{stored, enough_fuel}
use asst.Memory.World.{Thread, Holds-frame, page_view}
use asst.Memory.Own.{Steady, low, page_used}
use asst.Memory.Load.{AtPage, page-Stands}
use asst.Memory.Store.{World-stored, Thread-stored}
use asst.Memory.Page.{block_fuel, run_mymalloc, store_arena}

-- NULL, no change and no block that would do; or a payload in the arena `a`, which then holds `bs'`.
pub data Tried (x base : ℕ) (bs : List Block) (m : Mm) : Option (Ptr × Mm) → Type 0 where
  full : {r : Option (Ptr × Mm)} → r ≡ some (null, m) → NoFit x bs → Tried x base bs m r
  gave :
      {r : Option (Ptr × Mm)} (q : Ptr) (a : Arena) (bs' : List Block)
      → r ≡ some (q, record m { arena = a })
      → q ≢ null
      → Holds base bs' a
      → Handed q x base bs bs'
      → Local base (end base bs) m.arena.mem a.mem
      → Tried x base bs m r

Tried-of_Given :
    (x base : ℕ) (memptr size : ℕ) (bs : List Block) (m : Mm)
    → Given x base bs m.arena (mymalloc block_fuel x memptr size m.arena)
    → Tried x base bs m (run_mymalloc x memptr size m)
unfolding run_mymalloc
Tried-of_Given x base memptr size bs m (no_room e no_fit) = full (rw e refl) no_fit
Tried-of_Given x base memptr size bs m (given q a' bs' e h handed local) =
    let i = handed.payload in
    let inside = payload-inside base bs' q i.size i.below i.above i.after in
    gave q a' bs' (rw e refl) (omega (arith, inside)) h handed local

blocks_few : (base : Ptr) (bs : List Block) → end base bs ≡ base + 4096 → length bs < block_fuel
blocks_few base bs whole = omega (arith, length-le base bs, whole, enough_fuel)

pub run_mymalloc-Tried :
    (x base memptr size : ℕ) (bs : List Block) (m : Mm)
    → x < 2 ^ 32
    → Holds base bs m.arena
    → end base bs ≡ base + 4096
    → Tried x base bs m (run_mymalloc x memptr size m)
run_mymalloc-Tried x base memptr size bs m bytes h whole =
    Tried-of_Given x base memptr size bs m
      (mymalloc-Given block_fuel x memptr size base bs m.arena bytes h (blocks_few base bs whole))

pub store_arena-stored :
    (base : Ptr) (bs : List Block) (m : Mm)
    → m.current_page_meta ≢ null
    → Holds base bs m.arena
    → end base bs ≡ base + 4096
    → store_arena m ≡ some (stored m.arena (free_bytes bs) m.current_page_meta m)
unfolding store_arena
store_arena-stored base bs m used h whole =
    let e : (m.current_page_meta == null) ≡ false = ground (arith, used) in
    let count =
      free_mem_count-Holds block_fuel base 4096 bs m.arena h (omega arith) whole enough_fuel in
    rw (e, count) refl

module _ {home : Ptr → ℕ} {held : Ptr → List Block} {top : ℕ} {m m' : Mm} {t : Tcb} {page : ℕ → Ptr}
    {i : ℕ} (th : Thread home t page m) (l : i ≤ t.malloc_frame)
    (at : AtPage t.tid home held top page i m m') where
  abbrev pub th' : Thread home t page m'
  th' = at.steady.threads t page th

  pub below' : i < m'.page_counter
  below' = omega (arith, low at.steady.world th' i l, at.steady.world.high)

  frame_here : (m'.metas (page i)).page_frame ≡ i
  frame_here =
      ap (λ q. (m'.metas q).page_frame) (sym at.here)
      ∙ at.steady.world.known.0 i (omega (arith, below', at.steady.world.counter))
          (at.steady.world.filled i below')

  -- The arena that is loaded holds the blocks of the page.
  pub AtPage-Holds :
      Holds (frame_address i m') (held (page i)) m'.arena
      × (end (frame_address i m') (held (page i)) ≡ frame_address i m' + 4096)
  AtPage-Holds =
      let (h, whole, alone) = page-Stands at.steady.world th' i l in
      (
        Holds-frame (frame_address i m') (held (page i)) (page_view i (page i) m') m'.arena at.head
            at.middle (λ a low high. ap m'.arena.mem (ground (arith, low, frame_here))) h,
        whole,
      )

  same_tid :
      (a : Arena) (n : ℕ) (p : Ptr) → ((stored a n (page i) m').metas p).tid ≡ (m'.metas p).tid
  same_tid a n p = ground arith

  -- Other blocks in the page.
  pub AtPage-stored :
      (a : Arena) (bs : List Block)
      → Holds (frame_address i m') bs a
      → end (frame_address i m') bs ≡ frame_address i m' + 4096
      → Local (frame_address i m') (frame_address i m' + 4096) m'.arena.mem a.mem
      → (m'' : Mm) × (store_arena (record m' { arena = a }) ≡ some m'')
        × Steady t.tid home (update held (page i) bs) top m m''
  AtPage-stored a bs h whole local =
      let w = at.steady.world in
      let used : m'.current_page_meta ≢ null = λ e. page_used w th' i l (sym at.current ∙ e) in
      let own = th'.homes i l in
      (
        stored a (free_bytes bs) (page i) m',
        subst (λ p. store_arena (record m' { arena = a }) ≡ some (stored a (free_bytes bs) p m'))
            (at.current)
            (store_arena-stored (frame_address i m') bs (record m' { arena = a }) used h whole),
        record {
          world = World-stored w i (page i) below' at.here own a (free_bytes bs) bs h whole local;
          threads = λ u pages tu.
              Thread-stored w i (page i) below' at.here own a (free_bytes bs) bs u pages
                (at.steady.threads u pages tu);
          block = at.steady.block;
          given = at.steady.given;
          region = at.steady.region;
          stays = at.steady.stays;
          tids = λ p. same_tid a (free_bytes bs) p ∙ at.steady.tids p;
          absent = λ u none_of k b own.
              at.steady.absent u none_of k b
                (sym (same_tid a (free_bytes bs) (m'.frame_table k)) ∙ own);
        },
      )
