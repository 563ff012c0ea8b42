-- ===== src/Memory/File.antt =====
-- swap_pages with the swap file: an eviction to it and the way back.
use asst.Base.{
  ℕ, zero, suc, ◌+◌, ◌-◌, ◌*◌, ◌%◌, ◌^◌, ◌<◌, ◌≤◌, ◌≡◌, ◌≢◌, ◌∙◌, refl, ap, true, false, some, Ptr,
  null, minus_one, ◌==◌, update, ltb, arith,
}
use asst.Types.{Tcb}
use asst.Memory.{Mm, enter, frame_address, nth_page, write_page, read_page, copy_page, with_mem}
use asst.Memory.Swap.{evict_to_file, swap_with_file, swap_pages}

-- A walk along the links does not read where a page is.
abbrev move_page : Ptr → ℕ → Mm → Mm
move_page p i m = record m { metas = update m.metas p (record (m.metas p) { page_frame = i }) }

pub nth_page-kept :
    (n : ℕ) (p : Ptr) (m m' : Mm)
    → ((x : Ptr) → (m'.metas x).next ≡ (m.metas x).next)
    → nth_page n p m' ≡ nth_page n p m
unfolding nth_page
nth_page-kept zero p m m' same = refl
nth_page-kept (suc n) p m m' same =
    ground (arith, same p, nth_page-kept n (m'.metas p).next m m' same)

-- The page in the frame is written to the file.
abbrev filed : ℕ → Mm → Mm
filed src m =
    let m1 = move_page (m.frame_table src) m.page_counter m in
    write_page ((m1.page_counter - 1597) * 4096) (frame_address src m1) m1

evict_to_file-filed :
    (src : ℕ) (m : Mm)
    → src < 1596
    → m.frame_table src ≢ null
    → evict_to_file src m ≡ some (filed src m)
unfolding evict_to_file
evict_to_file-filed src m low used = ground (arith, low, used)

-- The page `q` of the file comes to the frame.
abbrev fetched : ℕ → ℕ → Ptr → Mm → Mm
fetched src dest q m =
    let m1 = move_page (m.frame_table src) dest m in
    let m2 = move_page q src m1 in
    let m3 = record m2 { frame_table = update m2.frame_table src q } in
    let m4 = with_mem (copy_page m3.swap_temp (frame_address src m3) m3.arena.mem) m3 in
    let m5 = read_page ((dest - 1597) * 4906) (frame_address src m3) m4 in
    write_page ((dest - 1597) * 4906) m5.swap_temp m5

swap_with_file-fetched :
    (src dest : ℕ) (q : Ptr) (t : Tcb) (m : Mm)
    → src < 1596
    → m.frame_table src ≢ null
    → nth_page src t.first_page m ≡ some q
    → q ≢ null
    → swap_with_file src dest t m ≡ some (fetched src dest q m)
unfolding swap_with_file
swap_with_file-fetched src dest q t m low used found page =
    let e : ltb src 1596 ≡ true = ground (arith, low) in
    let e1 : (m.frame_table src == null) ≡ false = ground (arith, used) in
    let e2 : (q == null) ≡ false = ground (arith, page) in
    let walk =
      nth_page-kept src t.first_page m (move_page (m.frame_table src) dest m) (λ x. ground arith) in
    rw (e, e1, walk, found, e2) refl

-- What stands in the file behind an eviction, and in the frame behind the way back.
filed-held :
    (src o : ℕ) (m : Mm)
    → (m.page_counter - 1597) * 4096 ≤ o
    → o < (m.page_counter - 1597) * 4096 + 4096
    → (filed src m).swap_file o
      ≡ m.arena.mem (frame_address src m + (o - (m.page_counter - 1597) * 4096))
filed-held src o m low high = ground (arith, low, high)

fetched-held :
    (src dest j : ℕ) (q : Ptr) (m : Mm)
    → j < 4096
    → (fetched src dest q m).arena.mem (frame_address src m + j)
      ≡ m.swap_file ((dest - 1597) * 4906 + j)
fetched-held src dest j q m h = ground (arith, h)

swap_pages-filed :
    (src : ℕ) (t : Tcb) (m : Mm)
    → src < 1596
    → m.frame_table src ≢ null
    → 1597 ≤ m.page_counter
    → swap_pages src minus_one t m
      ≡ some (record (filed src (enter (record m { count = (m.count + 1) % 2 ^ 32 }))) {
        page_counter = (m.page_counter + 1) % 2 ^ 32;
        mem_flag = false;
      })
unfolding swap_pages
swap_pages-filed src t m low used far =
    let e : ltb m.page_counter 1597 ≡ false = ground (arith, far) in
    rw (e, evict_to_file-filed src (enter (record m { count = (m.count + 1) % 2 ^ 32 })) low used)
      refl

swap_pages-fetched :
    (src dest : ℕ) (q : Ptr) (t : Tcb) (m : Mm)
    → src < 1596
    → m.frame_table src ≢ null
    → nth_page src t.first_page m ≡ some q
    → q ≢ null
    → 1597 ≤ dest
    → dest < 2 ^ 31
    → swap_pages src dest t m
      ≡ some (record (fetched src dest q (enter (record m { count = (m.count + 1) % 2 ^ 32 }))) {
        mem_flag = false;
      })
unfolding swap_pages
swap_pages-fetched src dest q t m low used found page far small =
    let e : (dest == minus_one) ≡ false = ground (arith, small) in
    let e' : ltb dest 1597 ≡ false = ground (arith, far) in
    let m0 = enter (record m { count = (m.count + 1) % 2 ^ 32 }) in
    let found' = nth_page-kept src t.first_page m m0 (λ x. refl) ∙ found in
    rw (e, e', swap_with_file-fetched src dest q t m0 low used found' page) refl

filed-elsewhere :
    (src o : ℕ) (m : Mm)
    → (m.page_counter - 1597) * 4096 + 4096 ≤ o
    → (filed src m).swap_file o ≡ m.swap_file o
filed-elsewhere src o m beyond = ground (arith, beyond)

-- A page that is evicted to the file as the page `1597 + k` of all is written at `k * 4096`, and read
-- back from `k * 4906` when it is swapped in again. So its frame then holds, at `j`, the header that
-- stood at `k * 810 + j` before, where that is still in the page, and otherwise what the file held at
-- `k * 4906 + j`: the page comes back whole for `k = 0`, shifted for `k` from 1 to 5, and not at all
-- from 6 on. Neither call faults, where the frame is in use and the thread has a page for it.
pub swap_pages-shifted :
    (src k : ℕ) (q : Ptr) (t t' : Tcb) (m : Mm)
    → src < 1596
    → m.frame_table src ≢ null
    → m.page_counter ≡ 1597 + k
    → nth_page src t'.first_page m ≡ some q
    → q ≢ null
    → k < 5692
    → (m1 : Mm) × (m2 : Mm) × (swap_pages src minus_one t m ≡ some m1)
      × (swap_pages src (1597 + k) t' m1 ≡ some m2)
      × ((j : ℕ)
          → k * 810 + j < 4096
          → m2.arena.mem (frame_address src m + j)
            ≡ m.arena.mem (frame_address src m + (k * 810 + j)))
      × ((j : ℕ)
          → j < 4096
          → 4096 ≤ k * 810 + j
          → m2.arena.mem (frame_address src m + j) ≡ m.swap_file (k * 4906 + j))
swap_pages-shifted src k q t t' m low used counter found page few =
    let m0 = enter (record m { count = (m.count + 1) % 2 ^ 32 }) in
    let m1 = record (filed src m0) {
      page_counter = (m.page_counter + 1) % 2 ^ 32;
      mem_flag = false;
    } in
    let m1' = enter (record m1 { count = (m1.count + 1) % 2 ^ 32 }) in
    let walk = nth_page-kept src t'.first_page m m1 (λ x. ground arith) ∙ found in
    (
      m1,
      record (fetched src (1597 + k) q m1') { mem_flag = false },
      swap_pages-filed src t m low used (omega (arith, counter)),
      swap_pages-fetched src (1597 + k) q t' m1 low used walk page (omega arith)
          (omega (arith, few)),
      (λ j inside.
          fetched-held src (1597 + k) j q m1' (omega (arith, inside))
          ∙ filed-held src ((1597 + k - 1597) * 4906 + j) m0 (omega (arith, counter))
              (omega (arith, counter, inside))
          ∙ ap (λ i. m.arena.mem (frame_address src m + i)) (omega (arith, counter))),
      (λ j inside beyond.
          fetched-held src (1597 + k) j q m1' inside
          ∙ filed-elsewhere src ((1597 + k - 1597) * 4906 + j) m0 (omega (arith, counter, beyond))
          ∙ ap m.swap_file (omega arith)),
    )
