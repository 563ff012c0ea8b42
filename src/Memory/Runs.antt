-- ===== src/Memory/Runs.antt =====
-- Any run of calls of myallocate and mydeallocate by any number of threads.
use asst.Base.{
  ℕ, ◌+◌, ◌*◌, ◌<◌, ◌≤◌, ◌≡◌, ◌≢◌, ◌∙◌, refl, sym, ap, subst, ◌⊎◌, inl, inr, Bool-cases, Ptr, List,
  ◌==◌, ltb, arith, null, some, some-injective,
}
use asst.Types.{Tcb, Platform, threadreq}
use asst.Malloc.{freed}
use asst.Malloc.Payloads.{payloads}
use asst.Malloc.Blocks.{Block}
use asst.Malloc.Among.{Among, Among-apart}
use asst.Memory.{Mm, frame_address}
use asst.Memory.World.{World, Thread}
use asst.Memory.Own.{low}
use asst.Memory.Answer.{Ended}
use asst.Memory.Owned.{Owned-inside, Owned}
use asst.Memory.Calls.{
  Machine, Call, request, release, called, step, Allowed, Start, Reached, start, next,
}
use asst.Memory.Accounts.{has, lacks, Inv, Inv-Start}
use asst.Memory.Serving.{request-Served}
use asst.Memory.Releasing.{release-Freed}
use asst.Memory.Allocate.{myallocate}
use asst.Memory.Release.{mydeallocate}

module _ (os : Platform) where
  -- An allowed call returns, and keeps the account of every thread.
  step-Inv :
      (s : Machine)
      → Inv s
      → (c : Call) → Allowed s c
      → (s' : Machine) × (step os s c ≡ some s') × Inv s'
  unfolding step
  step-Inv s v (request n x) (bytes, small, space) =
      let r = request-Served os s v n x bytes small space in
      (called n r.thread r.address x r.memory s, rw (r.run) refl, r.after)
  step-Inv s v (release n q) given =
      let r = release-Freed s v n q given in
      (called n (s.threads n) q 0 r.memory s, rw (r.run) refl, r.after)

  Reached-Inv : (s0 s : Machine) → Start s0 → Reached os s0 s → Inv s
  Reached-Inv s0 s h start = Inv-Start s0 h
  Reached-Inv s0 s h (next {s1 = s1} c before allowed run) =
      let (s', run', v) = step-Inv s1 (Reached-Inv s0 s1 h before) c allowed in
      subst Inv (some-injective _ _ (sym run' ∙ run)) v

-- What a thread has at two addresses, in one page or in two, is apart.
Owned-apart :
    {home : Ptr → ℕ} {held : Ptr → List Block} {top : ℕ} {t : Tcb} {page : ℕ → Ptr} {m : Mm}
    {q x q' x' : ℕ}
    → World home held top m
    → Thread home t page m
    → q ≢ q'
    → Owned held t page m q x
    → Owned held t page m q' x'
    → (q + x ≤ q') ⊎ (q' + x' ≤ q)
Owned-apart {held = held} {page = page} {m = m} {q = q} {q' = q'} w th ne o o' =
    elim (Bool-cases (o.index == o'.index)) [
      | inl e ↦
          let i = o.index in
          let e' : o'.index ≡ i = ground (arith, e) in
          let there : Among q' o'.size (payloads (frame_address i m) (held (page i))) =
            subst (λ k. Among q' o'.size (payloads (frame_address k m) (held (page k)))) e'
              o'.payload in
          elim (Among-apart q o.size q' o'.size (frame_address i m) (held (page i)) ne o.payload
            there) [
              | inl before ↦ inl (omega (arith, before, o.enough))
              | inr behind ↦ inr (omega (arith, behind, o'.enough))
            ]
      | inr e ↦
          let (from, to) = Owned-inside w th o in
          let (from', to') = Owned-inside w th o' in
          elim (Bool-cases (ltb o.index o'.index)) [
            | inl less ↦
                let l : o.index < o'.index = ground (arith, less) in
                inl (omega (arith, l, to, from'))
            | inr more ↦
                let l : o'.index < o.index = ground (arith, more, e) in
                inr (omega (arith, l, to', from))
          ]
    ]

Inv-apart :
    (s : Machine)
    → Inv s
    → (n q q' : ℕ) → s.live n q ≢ 0
    → s.live n q' ≢ 0
    → q ≢ q'
    → (q + s.live n q ≤ q') ⊎ (q' + s.live n q' ≤ q)
Inv-apart s v n q q' used used' ne = elim (v.each n) [
  | has th owned ↦ Owned-apart v.world th ne (owned q used) (owned q' used')
  | lacks without nothing ↦ absurd (used (nothing q))
]

Inv-inside :
    (s : Machine)
    → Inv s
    → (n q : ℕ) → s.live n q ≢ 0
    → (s.memory.myblock_ptr + 32 ≤ q) × (q + s.live n q ≤ s.memory.myblock_ptr + 1596 * 4096)
Inv-inside s v n q used = elim (v.each n) [
  | has th owned ↦
      let o = owned q used in
      let (from, to) = Owned-inside v.world th o in
      (
        omega (arith, from),
        omega (arith, to, low v.world th o.index o.own, v.world.high, v.world.counter),
      )
  | lacks without nothing ↦ absurd (used (nothing q))
]

module _ (os : Platform) (s0 s : Machine) (h : Start s0) (run : Reached os s0 s) where
  -- Start with a block that is set up, no page given out, a cleared frame table, front_meta
  -- cleared in the page metas to come, and threads with their own ids and no pages. Take any run
  -- of requests of 1 to 4064 bytes, each made while fewer than 1596 pages are given out, and of
  -- returns of blocks that the caller has, by any threads in any order. Then the blocks that a
  -- thread has at two addresses do not overlap, and the first lies in the frames of memory,
  -- behind a header.
  pub live-apart :
      (n q q' : ℕ)
      → s.live n q ≢ 0
      → s.live n q' ≢ 0
      → q ≢ q'
      → ((q + s.live n q ≤ q') ⊎ (q' + s.live n q' ≤ q))
        × (s.memory.myblock_ptr + 32 ≤ q)
        × (q + s.live n q ≤ s.memory.myblock_ptr + 1596 * 4096)
  live-apart n q q' used used' ne =
      let v = Reached-Inv os s0 s h run in
      let (from, to) = Inv-inside s v n q used in (Inv-apart s v n q q' used used' ne, from, to)

  -- Start with a block that is set up, no page given out, a cleared frame table, front_meta
  -- cleared in the page metas to come, and threads with their own ids and no pages. Take any run
  -- of requests of 1 to 4064 bytes, each made while fewer than 1596 pages are given out, and of
  -- returns of blocks that the caller has, by any threads in any order. Then a request of 1 to
  -- 4064 bytes by any thread, with fewer than 1596 pages given out, does not fault and is not
  -- refused; its block overlaps none that the thread has, every frame is closed, and mem_flag is
  -- cleared.
  pub request-answered :
      (n x : ℕ)
      → 0 < x
      → x ≤ 4064
      → s.memory.page_counter < 1596
      → (q : Ptr) × (t : Tcb) × (m : Mm) × (myallocate os x threadreq (s.threads n) s.memory
          ≡ some (q, t, m))
        × (q ≢ null)
        × ((q' : Ptr) → s.live n q' ≢ 0 → (q + x ≤ q') ⊎ (q' + s.live n q' ≤ q))
        × Ended m
  request-answered n x bytes small space =
      let r = request-Served os s (Reached-Inv os s0 s h run) n x bytes small space in
      let q = r.address in
      let after = called n r.thread q x r.memory s in
      let here : after.live n q ≡ x = ground arith in
      (
        q,
        r.thread,
        r.memory,
        r.run,
        r.some_address,
        (λ q' used.
            let ne : q ≢ q' = λ e. used (ap (λ k. s.live n k) (sym e) ∙ r.unused) in
            let there : after.live n q' ≡ s.live n q' = ground (arith, ne) in
            subst (λ y. (q + y ≤ q') ⊎ (q' + s.live n q' ≤ q)) here
              (subst (λ y. (q + after.live n q ≤ q') ⊎ (q' + y ≤ q)) there
                (Inv-apart after r.after n q q' (omega (arith, here, bytes))
                  (λ z. used (sym there ∙ z)) ne))),
        r.ended,
      )

  -- Start with a block that is set up, no page given out, a cleared frame table, front_meta
  -- cleared in the page metas to come, and threads with their own ids and no pages. Take any run
  -- of requests of 1 to 4064 bytes, each made while fewer than 1596 pages are given out, and of
  -- returns of blocks that the caller has, by any threads in any order. Then a return by a thread
  -- of a block that it has does not fault, and myfree reports that the block is freed; every
  -- frame is closed, and mem_flag is cleared.
  pub release-freed :
      (n q : ℕ)
      → s.live n q ≢ 0
      → (m : Mm) × (mydeallocate q (s.threads n) s.memory ≡ some (freed, m)) × Ended m
  release-freed n q given =
      let r = release-Freed s (Reached-Inv os s0 s h run) n q given in (r.memory, r.run, r.ended)
