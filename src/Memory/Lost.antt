-- ===== src/Memory/Lost.antt =====
-- The pages that a thread has when a later chunk is placed.
use asst.Base.{
  ℕ, ◌+◌, ◌-◌, ◌*◌, ◌<◌, ◌≤◌, ◌≡◌, ◌≢◌, ◌∙◌, sym, ap, false, inl, inr, Option, ◌>>=◌, none, some,
  Ptr, null, ◌==◌, if◌then◌else◌, arith, >>=-eq_some,
}
use asst.Types.{Tcb}
use asst.Memory.{Mm, protect_all, meta_at, nth_page}
use asst.Malloc.{mymalloc}
use asst.Memory.Page.{block_fuel, run_mymalloc, store_arena, clear_arena}
use asst.Memory.File.{nth_page-kept}
use asst.Memory.Chunk.{chunk_next, chunk_finish, allocate_chunk, num_of_pages}
use asst.Memory.Linked.{Since, if_false, chunk_next-Since}

store_arena-next :
    (m m' : Mm) → store_arena m ≡ some m' → (p : Ptr) → (m'.metas p).next ≡ (m.metas p).next
unfolding store_arena
store_arena-next m m' h p = ground (arith, h)

-- The end of chunk_finish.
abbrev stored : Ptr × Mm → Option (Ptr × Mm)
stored (p, m) = do m2 ← store_arena m; some (p, record (protect_all false m2) { mem_flag = false })

next_of : Ptr → Option (Ptr × Mm) → Ptr
next_of y none = null
next_of y (some (p, m)) = (m.metas y).next

run-stored :
    (x base size : ℕ) (p : Ptr) (m m' : Mm)
    → run_mymalloc x base size (clear_arena m) >>= stored ≡ some (p, m')
    → (y : Ptr) → (m'.metas y).next ≡ (m.metas y).next
unfolding run_mymalloc clear_arena next_of
run-stored x base size p m m' h y =
    let ((p1, m1), run, h1) = >>=-eq_some (run_mymalloc x base size (clear_arena m)) stored h in
    let ((p2, a), run2, h2) =
      >>=-eq_some (mymalloc block_fuel x base size (clear_arena m).arena)
        (λ (p, a). some (p, record (clear_arena m) { arena = a })) run in
    let (m2, store, h3) =
      >>=-eq_some (store_arena m1)
        (λ m2. some (p1, record (protect_all false m2) { mem_flag = false })) h1 in
    let kept = store_arena-next m1 m2 store y in
    sym (ap (next_of y) h3) ∙ kept ∙ sym (ap (next_of y) h2)

chunk_finish-next :
    (x n : ℕ) (p : Ptr) (m m' : Mm)
    → chunk_finish x n m ≡ some (p, m')
    → (y : Ptr) → (m'.metas y).next ≡ (m.metas y).next
unfolding chunk_finish
chunk_finish-next x n p m m' h y =
    let (c, e, h1) = >>=-eq_some (meta_at m.current_page_meta m) _ h in
    let (front, e2, h2) = >>=-eq_some (meta_at c.front_meta m) _ h1 in
    run-stored x (m.myblock_ptr + front.page_frame * 4096) (4096 * n) p m m' h2 y

abbrev told : Tcb → Ptr × Mm → Option (Ptr × Tcb × Mm)
told t (p, m) = some (p, t, m)

told-eq_some :
    (t t' : Tcb) (r : Ptr × Mm) (p : Ptr) (m' : Mm)
    → told t r ≡ some (p, t', m')
    → (t.first_page ≡ t'.first_page) × (m' ≡ r.1)
told-eq_some t t' (p1, m) p m' h =
    let first : t.first_page ≡ t'.first_page = ground (arith, h) in (first, ground (arith, h))

chunk_finish-told :
    (x n : ℕ) (t t' : Tcb) (m m' : Mm) (p : Ptr)
    → chunk_finish x n m >>= told t ≡ some (p, t', m')
    → (t.first_page ≡ t'.first_page) × ((y : Ptr) → (m'.metas y).next ≡ (m.metas y).next)
chunk_finish-told x n t t' m m' p h =
    let (r, fin, end) = >>=-eq_some (chunk_finish x n m) (told t) h in
    let (first, state) = told-eq_some t t' r p m' end in
    (first, λ y. ap (λ s. (s.metas y).next) state ∙ chunk_finish-next x n r.0 m r.1 fin y)

Since-fresh : (b : Ptr) (c : ℕ) (old q : Ptr) → old ≢ null → old < b → Since b c q → q ≢ old
Since-fresh b c old q node before (inl e) = ground (arith, e, node)
Since-fresh b c old q node before (inr (k, at, low)) = ground (arith, at, before)

-- A request of a thread with pages for a chunk behind them, not refused: none of the pages that the
-- walk from the new `first_page` comes to was there before the call, and so the thread lost its pages.
pub allocate_chunk-Lost :
    (x k : ℕ) (t t' : Tcb) (m m' : Mm) (p q old : Ptr)
    → t.first_page ≢ null
    → t.malloc_frame + num_of_pages x ≤ 1595
    → old ≢ null
    → old < m.os_mem_ptr
    → allocate_chunk x t m ≡ some (p, t', m')
    → nth_page k t'.first_page m' ≡ some q
    → q ≢ old
unfolding allocate_chunk chunk_next
allocate_chunk-Lost x k t t' m m' p q old has fits node before h walk =
    let n = num_of_pages x in
    let e : (t.first_page == null) ≡ false = ground (arith, has) in
    let (o, place, h1) = >>=-eq_some (if t.first_page == null then _ else chunk_next n t m) _ h in
    let (t1, m1, is, since) = chunk_next-Since n k t m o fits (if_false _ _ _ e place) in
    let h2 : chunk_finish x n m1 >>= told t1 ≡ some (p, t', m') = ground (arith, is, h1) in
    let (first, links) = chunk_finish-told x n t1 t' m1 m' p h2 in
    let walk1 : nth_page k t1.first_page m1 ≡ some q =
      ap (λ f. nth_page k f m1) first ∙ (sym (nth_page-kept k t'.first_page m1 m' links) ∙ walk) in
    Since-fresh m.os_mem_ptr (1 + (n - 1)) old q node before (since q walk1)
