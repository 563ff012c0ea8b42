-- ===== src/Memory/Owned.antt =====
-- The blocks that a thread has from myallocate: each is a payload in one of its pages.
use asst.Base.{
  ℕ, ◌+◌, ◌≤◌, ◌≡◌, ◌≢◌, ◌∙◌, sym, ap, subst, inl, inr, Bool-cases, List, Ptr, ◌==◌, update, arith,
}
use asst.Types.{Tcb}
use asst.Malloc.Blocks.{Block}
use asst.Malloc.Payloads.{payloads}
use asst.Malloc.Among.{Among, Among-inside}
use asst.Memory.{Mm, frame_address}
use asst.Memory.World.{World, Thread}
use asst.Memory.Load.{page-Stands}

-- The thread has `x` bytes at `q`, in a payload of one of its pages.
pub record Owned (held : Ptr → List Block) (t : Tcb) (page : ℕ → Ptr) (m : Mm) (q x : ℕ)
    : Type 0 where
  pub index : ℕ
  pub own : index ≤ t.malloc_frame
  pub size : ℕ
  pub enough : x ≤ size
  pub payload : Among q size (payloads (frame_address index m) (held (page index)))

-- The pages of the thread hold what they held.
pub Owned-same :
    {held held' : Ptr → List Block} {t t' : Tcb} {page page' : ℕ → Ptr} {m m' : Mm} {q x : ℕ}
    → m'.myblock_ptr ≡ m.myblock_ptr
    → t.malloc_frame ≤ t'.malloc_frame
    → ((j : ℕ) → j ≤ t.malloc_frame → held' (page' j) ≡ held (page j))
    → Owned held t page m q x
    → Owned held' t' page' m' q x
Owned-same {m = m} {m' = m'} {q = q} block more same o = record {
  index = o.index;
  own = omega (arith, o.own, more);
  size = o.size;
  enough = o.enough;
  payload = rw (block, same o.index o.own) (o.payload);
}

module _ {home : Ptr → ℕ} {t : Tcb} {page : ℕ → Ptr} {m : Mm} (th : Thread home t page m) where
  -- Two pages of a thread are apart.
  pub page-apart : (i j : ℕ) → i ≤ t.malloc_frame → j ≤ t.malloc_frame → i ≢ j → page i ≢ page j
  page-apart i j l l' ne e = ne (sym (th.homes i l) ∙ (ap home e ∙ th.homes j l'))

  -- And those of two threads.
  pub pages-apart :
      {u : Tcb} {pages : ℕ → Ptr} (i j : ℕ)
      → Thread home u pages m
      → u.tid ≢ t.tid
      → i ≤ t.malloc_frame
      → j ≤ u.malloc_frame
      → pages j ≢ page i
  pages-apart i j tu other l l' e =
      other (sym (tu.mine j l') ∙ (ap (λ p. (m.metas p).tid) e ∙ th.mine i l))

  module _ (held : Ptr → List Block) (i : ℕ) (l : i ≤ t.malloc_frame) (bs : List Block) (m' : Mm)
      (block : m'.myblock_ptr ≡ m.myblock_ptr) where
    -- Other blocks in the page at `i`, with all the payloads it had but for the one at `p`.
    pub Owned-change :
        (q x : ℕ)
        → ((n : ℕ)
            → Among q n (payloads (frame_address i m) (held (page i)))
            → Among q n (payloads (frame_address i m) bs))
        → Owned held t page m q x
        → Owned (update held (page i) bs) t page m' q x
    Owned-change q x keeps o = elim (Bool-cases (o.index == i)) [
      | inl e ↦
          let e' : o.index ≡ i = ground (arith, e) in
          let there : Among q o.size (payloads (frame_address i m) (held (page i))) =
            subst (λ k. Among q o.size (payloads (frame_address k m) (held (page k)))) e'
              o.payload in
          record {
            index = i;
            own = l;
            size = o.size;
            enough = o.enough;
            payload =
                let now : update held (page i) bs (page i) ≡ bs = ground arith in
                rw (block, now) (keeps o.size there);
          }
      | inr e ↦
          let ne : o.index ≢ i = ground (arith, e) in
          let apart : page o.index ≢ page i = page-apart o.index i o.own l ne in
          record {
            index = o.index;
            own = o.own;
            size = o.size;
            enough = o.enough;
            payload =
                let now : update held (page i) bs (page o.index) ≡ held (page o.index) =
                  ground (arith, apart) in
                rw (block, now) (o.payload);
          }
    ]

-- What a thread has lies in its page, behind the first header.
pub Owned-inside :
    {home : Ptr → ℕ} {held : Ptr → List Block} {top : ℕ} {t : Tcb} {page : ℕ → Ptr} {m : Mm}
    {q x : ℕ}
    → World home held top m
    → Thread home t page m
    → (o : Owned held t page m q x)
    → (frame_address o.index m + 32 ≤ q) × (q + x ≤ frame_address o.index m + 4096)
Owned-inside {held = held} {page = page} {m = m} {q = q} w th o =
    let (h, whole, alone) = page-Stands w th o.index o.own in
    let (from, to) =
      Among-inside q o.size (frame_address o.index m) (held (page o.index)) o.payload in
    (omega (arith, from), omega (arith, to, whole, o.enough))

-- The thread has `x` bytes at `q`, and at other addresses what it had.
pub Owned-updated :
    {held : Ptr → List Block} {t : Tcb} {page : ℕ → Ptr} {m : Mm} (live : Ptr → ℕ) (q x : ℕ)
    → (x ≢ 0 → Owned held t page m q x)
    → ((k : Ptr) → k ≢ q → live k ≢ 0 → Owned held t page m k (live k))
    → (k : Ptr) → update live q x k ≢ 0
    → Owned held t page m k (update live q x k)
Owned-updated {held} {t} {page} {m} live q x here there k used = elim (Bool-cases (k == q)) [
  | inl e ↦
      let e' : k ≡ q = ground (arith, e) in
      rw e (subst (λ j. Owned held t page m j x) (sym e') (here (ground (arith, e, used))))
  | inr e ↦ rw e (there k (ground (arith, e)) (ground (arith, e, used)))
]
