-- ===== src/Memory/Linked.antt =====
-- The page metas that a later chunk of a thread links.
use asst.Base.{
  ℕ, zero, suc, ◌+◌, ◌-◌, ◌*◌, ◌<◌, ◌≤◌, ◌≡◌, ◌∙◌, refl, sym, ap, false, inl, inr, ◌⊎◌, Option,
  Bool, ◌>>=◌, none, some, Ptr, null, minus_one, ltb, ◌==◌, if◌then◌else◌, update, Bool-cases,
  arith, subst, >>=-eq_some,
}
use asst.Types.{Tcb, sizeof_page_meta}
use asst.Memory.{Mm, nth_page}
use asst.Memory.Library.{new_meta}
use asst.Memory.Swap.{swap_pages, evict_to_memory, evict_to_file}
use asst.Memory.Page.{swap_open}
use asst.Memory.Chunk.{chunk_meta, chunk_rest, chunk_next, evict_frames}

-- NULL, or one of the `c` page metas from `b` on.
abbrev pub Since : Ptr → ℕ → Ptr → Type 0
Since b c p = (p ≡ null) ⊎ ((k : ℕ) × (p ≡ b + k * sizeof_page_meta) × (k < c))

-- The OS region has `c` page metas from `b` on, and their links stay among them.
abbrev Closed : Ptr → ℕ → Mm → Type 0
Closed b c m =
    (m.os_mem_ptr ≡ b + c * sizeof_page_meta)
    × ((k : ℕ) → k < c → Since b c (m.metas (b + k * sizeof_page_meta)).next)

nth_page-Since :
    (n : ℕ) (b : Ptr) (c : ℕ) (p q : Ptr) (m : Mm)
    → Closed b c m
    → Since b c p
    → nth_page n p m ≡ some q
    → Since b c q
unfolding nth_page
nth_page-Since zero b c p q m closed since h = ground (arith, since, h)
nth_page-Since (suc n) b c p q m closed (inl e) h = ground (arith, e, h)
nth_page-Since (suc n) b c p q m closed (inr (k, at, low)) h =
    let step : nth_page n (m.metas p).next m ≡ some q = elim (Bool-cases (p == null)) [
      | inl e ↦ ground (arith, e, h)
      | inr e ↦ ground (arith, e, h)
    ] in
    let next : Since b c (m.metas p).next = rw (ap m.metas at) (closed.1 k low) in
    nth_page-Since n b c (m.metas p).next q m closed next step

swap_open-os_mem_ptr :
    (i : ℕ) (t : Tcb) (m m' : Mm)
    → swap_open i minus_one t m ≡ some m'
    → m'.os_mem_ptr ≡ m.os_mem_ptr
unfolding swap_open swap_pages evict_to_memory evict_to_file
swap_open-os_mem_ptr i t m m' h = ground (arith, h)

evict_frames-os_mem_ptr :
    (n i : ℕ) (t : Tcb) (m m' : Mm) → evict_frames n i t m ≡ some m' → m'.os_mem_ptr ≡ m.os_mem_ptr
unfolding evict_frames
evict_frames-os_mem_ptr zero i t m m' h = ground (arith, h)
evict_frames-os_mem_ptr (suc n) i t m m' h =
    let (m1, one, rest) = >>=-eq_some (swap_open i minus_one t m) (evict_frames n (i + 1) t) h in
    evict_frames-os_mem_ptr n (i + 1) t m1 m' rest ∙ swap_open-os_mem_ptr i t m m1 one

-- One meta more: it is linked behind `before`, which may be an older one.
abbrev linked : Tcb → ℕ → ℕ → Ptr → Ptr → Mm → Mm
linked t i n front before m =
    let (p, m1) = new_meta m in
    let metas = update m1.metas p (chunk_meta i n t front (m1.metas p)) in
    record m1 {
      metas = update metas before (record (metas before) { next = p });
      frame_table = update m1.frame_table i p;
    }

module _ (b : Ptr) (c : ℕ) (t : Tcb) (i n : ℕ) (front before : Ptr) (m : Mm)
    (end : m.os_mem_ptr ≡ b + c * sizeof_page_meta) where
  Since-suc : (p : Ptr) → Since b c p → Since b (c + 1) p
  Since-suc p (inl e) = inl e
  Since-suc p (inr (k, at, low)) = inr (k, at, omega (arith, low))

  linked-next :
      (k : ℕ)
      → k < c + 1
      → (k < c → Since b c (m.metas (b + k * sizeof_page_meta)).next)
      → Since b (c + 1) ((linked t i n front before m).metas (b + k * sizeof_page_meta)).next
  unfolding new_meta
  linked-next k low old = elim (Bool-cases (b + k * sizeof_page_meta == before)) [
    | inl e ↦ inr (c, rw e end, omega arith)
    | inr e ↦ elim (Bool-cases (b + k * sizeof_page_meta == m.os_mem_ptr)) [
      | inl last ↦ inl (rw (e, last) refl)
      | inr older ↦
          (let earlier : k < c = ground (arith, end, low, older) in
            rw (e, older) (Since-suc (m.metas (b + k * sizeof_page_meta)).next (old earlier)))
    ]
  ]

linked-Closed :
    (b : Ptr) (c : ℕ) (t : Tcb) (i n : ℕ) (front before : Ptr) (m : Mm)
    → Closed b c m
    → Closed b (c + 1) (linked t i n front before m)
unfolding new_meta
linked-Closed b c t i n front before m (end, closed) =
    (omega (arith, end), λ k low. linked-next b c t i n front before m end k low (closed k))

chunk_rest-suc :
    (k i n : ℕ) (front new : Ptr) (t : Tcb) (m : Mm) (r : Ptr × Mm)
    → chunk_rest (suc k) i n front new t m ≡ some r
    → (before : Ptr) × (chunk_rest k (i + 1) n front m.os_mem_ptr t (linked t i n front before m)
        ≡ some r)
unfolding chunk_rest new_meta
chunk_rest-suc k i n front new t m r h = elim (Bool-cases (m.os_mem_ptr == null)) [
  | inl e ↦ ground (arith, e, h)
  | inr e ↦ (m.frame_table (i - 1), ground (arith, e, h))
]

chunk_rest-Closed :
    (b : Ptr) (c k i n : ℕ) (front new : Ptr) (t : Tcb) (m : Mm) (r : Ptr × Mm)
    → Closed b c m
    → chunk_rest k i n front new t m ≡ some r
    → Closed b (c + k) r.1
unfolding chunk_rest
chunk_rest-Closed b c zero i n front new t m r closed h =
    let kept : m ≡ r.1 = ground (arith, h) in
    subst (λ d. Closed b d r.1) (omega arith) (subst (Closed b c) kept closed)
chunk_rest-Closed b c (suc k) i n front new t m r closed h =
    let (before, rest) = chunk_rest-suc k i n front new t m r h in
    let more =
      chunk_rest-Closed b (c + 1) k (i + 1) n front m.os_mem_ptr t (linked t i n front before m) r
        (linked-Closed b c t i n front before m closed) rest in
    subst (λ d. Closed b d r.1) (omega arith) more

-- The state behind the evictions of a chunk_next that places pages, and the rest of the run.
abbrev further : Tcb → Tcb
further t = record t { malloc_frame = t.malloc_frame + 1 }

abbrev placing : ℕ → Tcb → Ptr → Ptr × Mm → Option (Option (Tcb × Mm))
placing n t front (last, m) = some (
    some (
      record t { first_page = front; malloc_frame = t.malloc_frame + 1 + (n - 1) },
      record m { current_page_meta = last },
    ))

placing-eq_some :
    (n : ℕ) (t t' : Tcb) (front : Ptr) (r : Ptr × Mm) (m' : Mm)
    → placing n t front r ≡ some (some (t', m'))
    → (t'.first_page ≡ front) × (m' ≡ record (r.1) { current_page_meta = r.0 })
placing-eq_some n t t' front (last, m) m' h =
    let first : t'.first_page ≡ front = ground (arith, h) in (first, ground (arith, h))

pub if_false :
    {A : Type 0} (c : Bool) (x y : A) {z : A} → c ≡ false → (if c then x else y) ≡ z → y ≡ z
if_false c x y e h = ground (arith, e, h)

chunk_next-placed :
    (n : ℕ) (t : Tcb) (m : Mm) (r : Option (Tcb × Mm))
    → t.malloc_frame + n ≤ 1595
    → chunk_next n t m ≡ some r
    → (m1 : Mm) × (before : Ptr) × (evict_frames n (t.malloc_frame + 1) (further t) m ≡ some m1)
      × (chunk_rest
              (n - 1)
              (t.malloc_frame + 1 + 1)
              n
              m1.os_mem_ptr
              null
              (further t)
              (linked (further t) (t.malloc_frame + 1) n m1.os_mem_ptr before m1)
            >>= placing n t m1.os_mem_ptr
          ≡ some r)
unfolding chunk_next new_meta
chunk_next-placed n t m r fits h =
    let e : ltb 1595 (t.malloc_frame + n) ≡ false = ground (arith, fits) in
    let (m1, out, h1) =
      >>=-eq_some (evict_frames n (t.malloc_frame + 1) (further t) m) _ (if_false _ _ _ e h) in
    elim (Bool-cases (m1.os_mem_ptr == null)) [
      | inl e1 ↦ ground (arith, e1, h1)
      | inr e1 ↦ (m1, m1.frame_table (t.malloc_frame + 1 - 1), out, ground (arith, e1, h1))
    ]

pub chunk_next-Since :
    (n k : ℕ) (t : Tcb) (m : Mm) (o : Option (Tcb × Mm))
    → t.malloc_frame + n ≤ 1595
    → chunk_next n t m ≡ some o
    → (t' : Tcb) × (m' : Mm) × (o ≡ some (t', m'))
      × ((q : Ptr) → nth_page k t'.first_page m' ≡ some q → Since m.os_mem_ptr (1 + (n - 1)) q)
chunk_next-Since n k t m none fits h =
    let (m1, before, out, run) = chunk_next-placed n t m none fits h in
    let (r, placed, end) =
      >>=-eq_some
        (chunk_rest (n - 1) (t.malloc_frame + 1 + 1) n m1.os_mem_ptr null (further t)
          (linked (further t) (t.malloc_frame + 1) n m1.os_mem_ptr before m1))
        (placing n t m1.os_mem_ptr) run in
    ground (arith, end)
chunk_next-Since n k t m (some (t', m')) fits h =
    let b = m.os_mem_ptr in
    let (m1, before, out, run) = chunk_next-placed n t m (some (t', m')) fits h in
    let (r, placed, end) =
      >>=-eq_some
        (chunk_rest (n - 1) (t.malloc_frame + 1 + 1) n m1.os_mem_ptr null (further t)
          (linked (further t) (t.malloc_frame + 1) n m1.os_mem_ptr before m1))
        (placing n t m1.os_mem_ptr) run in
    let same = evict_frames-os_mem_ptr n (t.malloc_frame + 1) (further t) m m1 out in
    let none_yet : Closed b 0 m1 = (omega (arith, same), λ j low. ground (arith, low)) in
    let one =
      linked-Closed b 0 (further t) (t.malloc_frame + 1) n m1.os_mem_ptr before m1 none_yet in
    let closed =
      chunk_rest-Closed b 1 (n - 1) (t.malloc_frame + 1 + 1) n m1.os_mem_ptr null (further t)
        (linked (further t) (t.malloc_frame + 1) n m1.os_mem_ptr before m1) r one placed in
    let (first, state) = placing-eq_some n t t' m1.os_mem_ptr r m' end in
    (
      t',
      m',
      refl,
      λ q.
          nth_page-Since k b (1 + (n - 1)) t'.first_page q m'
            (subst (Closed b (1 + (n - 1))) (sym state) closed)
            (inr (0, (first ∙ same) ∙ omega arith, omega arith)),
    )
