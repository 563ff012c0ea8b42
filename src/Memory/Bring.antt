-- ===== src/Memory/Bring.antt =====
-- A page of a thread is brought to its frame: swap_pages on two frames keeps every page.
use asst.Base.{
  ℕ, ◌+◌, ◌%◌, ◌^◌, ◌<◌, ◌≤◌, ◌≡◌, ◌≢◌, ◌∙◌, sym, ap, true, false, some, ◌⊎◌, inl, inr, Bool-cases,
  Ptr, null, ◌==◌, update, List, arith,
}
use asst.Types.{Tcb, PageMeta}
use asst.Malloc.Blocks.{Block}
use asst.Malloc.{Mem}
use asst.Memory.{Mm, enter, frame_address, protect_all}
use asst.Memory.Exchange.{Apart, exchanged, exchanged-src, exchanged-dest, frames-Apart, beyond}
use asst.Memory.Swap.{swap_in_memory, swap_pages}
use asst.Memory.Page.{swap_open}
use asst.Memory.World.{World, Located, Kept}

-- The metas behind the exchange of the pages `p`, at `src`, and `q`, at `dest`.
abbrev pub swapped_metas : ℕ → ℕ → Ptr → Ptr → (Ptr → PageMeta) → Ptr → PageMeta
swapped_metas src dest p q metas =
    let metas1 = update metas q (record (metas q) { page_frame = src }) in
    update metas1 p (record (metas1 p) { page_frame = dest })

-- What swap_pages leaves, and the mprotect behind it.
abbrev pub swapped : ℕ → ℕ → Mm → Mm
swapped src dest m =
    let m0 = enter (record m { count = (m.count + 1) % 2 ^ 32 }) in
    protect_all true (record m0 {
      frame_table = update (update m.frame_table src (m.frame_table dest)) dest (m.frame_table src);
      metas = swapped_metas src dest (m.frame_table src) (m.frame_table dest) m.metas;
      arena = record (m.arena) {
        mem = exchanged m.swap_temp (frame_address src m) (frame_address dest m) m.arena.mem;
      };
      mem_flag = false;
    })

pub swap_open-swapped :
    (src dest : ℕ) (t : Tcb) (m : Mm)
    → src < 1596
    → dest < 1596
    → src ≢ dest
    → m.frame_table src ≢ null
    → m.frame_table dest ≢ null
    → swap_open src dest t m ≡ some (swapped src dest m)
unfolding swap_open swap_pages swap_in_memory
swap_open-swapped src dest t m low_src low_dest ne used_src used_dest =
    ground (arith, low_src, low_dest, ne, used_src, used_dest)

exchanged-other :
    (temp src dest a : ℕ) (mem : Mem)
    → (a < src) ⊎ (src + 4096 ≤ a)
    → (a < dest) ⊎ (dest + 4096 ≤ a)
    → (a < temp) ⊎ (temp + 4096 ≤ a)
    → exchanged temp src dest mem a ≡ mem a
exchanged-other temp src dest a mem away_src away_dest away_temp =
    ground (arith, away_src, away_dest, away_temp)

module _ {home : Ptr → ℕ} {held : Ptr → List Block} {top : ℕ} {m : Mm} (w : World home held top m)
    (src dest : ℕ) (low : src < top) (high : top ≤ dest) (given : dest < m.page_counter)
    (own : home (m.frame_table dest) ≡ src) where
  pub frame_src : (m.metas (m.frame_table src)).page_frame ≡ src
  frame_src =
      w.known.0 src (omega (arith, low, high, given, w.counter))
        (w.filled src (omega (arith, low, high, given)))

  pub frame_dest : (m.metas (m.frame_table dest)).page_frame ≡ dest
  frame_dest = w.known.0 dest (omega (arith, given, w.counter)) (w.filled dest given)

  temp_Apart : (k : ℕ) → k < 1596 → Apart m.swap_temp (frame_address k m)
  temp_Apart k h = inr (omega (arith, h, w.temp))

  meta_src :
      (p : Ptr)
      → (m.metas p).page_frame ≡ src
      → m.frame_table src ≡ p
      → (swapped src dest m).metas p ≡ record (m.metas p) { page_frame = dest }
  meta_src p e at = ground (arith, e, at, frame_dest, low, high)

  meta_dest :
      (p : Ptr)
      → (m.metas p).page_frame ≡ dest
      → m.frame_table dest ≡ p
      → (swapped src dest m).metas p ≡ record (m.metas p) { page_frame = src }
  meta_dest p e at = ground (arith, e, at, frame_src, low, high)

  meta_other :
      (p : Ptr)
      → (m.metas p).page_frame ≢ src
      → (m.metas p).page_frame ≢ dest
      → (swapped src dest m).metas p ≡ m.metas p
  meta_other p away_src away_dest = ground (arith, away_src, away_dest, frame_src, frame_dest)

  abbrev mem' : Mem
  mem' = (swapped src dest m).arena.mem

  -- The frame of the page `p` behind the exchange has what its frame had before.
  Kept-at :
      (p : Ptr) (f : ℕ)
      → (swapped src dest m).metas p ≡ record (m.metas p) { page_frame = f }
      → ((j : ℕ)
          → j < 4096
          → mem' (frame_address f m + j) ≡ m.arena.mem (frame_address (m.metas p).page_frame m + j))
      → Kept m (swapped src dest m) p
  Kept-at p f meta content = (
    meta ∙ ap (λ g. record (m.metas p) { page_frame = g }) (sym (ap (λ v. v.page_frame) meta)),
    λ j h. ap (λ v. mem' (frame_address v.page_frame m + j)) meta ∙ content j h,
  )

  pub Kept-swapped : (p : Ptr) → Located m p → Kept m (swapped src dest m) p
  Kept-swapped p (below, at) =
      let sides = frames-Apart m.myblock_ptr src dest (omega (arith, low, high)) in
      let temp_src = temp_Apart src (omega (arith, low, high, given, w.counter)) in
      let temp_dest = temp_Apart dest (omega (arith, given, w.counter)) in
      elim (Bool-cases ((m.metas p).page_frame == src)) [
        | inl e ↦
            let e' : (m.metas p).page_frame ≡ src = ground (arith, e) in
            Kept-at p dest (meta_src p e' (rw e' at at)) (λ j h.
              exchanged-dest m.swap_temp (frame_address src m) (frame_address dest m) m.arena.mem
                sides temp_src temp_dest j h
              ∙ ap (λ f. m.arena.mem (frame_address f m + j)) (sym e'))
        | inr ne_src ↦ elim (Bool-cases ((m.metas p).page_frame == dest)) [
          | inl e ↦
              let e' : (m.metas p).page_frame ≡ dest = ground (arith, e) in
              Kept-at p src (meta_dest p e' (rw e' at at)) (λ j h.
                exchanged-src m.swap_temp (frame_address src m) (frame_address dest m) m.arena.mem
                  sides temp_src temp_dest j h
                ∙ ap (λ f. m.arena.mem (frame_address f m + j)) (sym e'))
          | inr ne_dest ↦
              let f = (m.metas p).page_frame in
              let meta = meta_other p (ground (arith, ne_src)) (ground (arith, ne_dest)) in
              Kept-at p f meta (λ j h.
                exchanged-other m.swap_temp (frame_address src m) (frame_address dest m)
                  (frame_address f m + j) m.arena.mem
                  (beyond (frame_address f m) (frame_address src m) j h
                    (frames-Apart m.myblock_ptr f src (ground (arith, ne_src))))
                  (beyond (frame_address f m) (frame_address dest m) j h
                    (frames-Apart m.myblock_ptr f dest (ground (arith, ne_dest))))
                  (inl (omega (arith, below, w.counter, w.temp, h))))
        ]
      ]
