-- ===== src/Memory/Serving.antt =====
-- One call in a run: what myallocate or mydeallocate does to what the threads have.
use asst.Base.{
  ℕ, ◌+◌, ◌<◌, ◌≤◌, ◌≡◌, ◌≢◌, ◌∙◌, sym, subst, inl, inr, Bool-cases, Ptr, ◌==◌, update, arith, null,
  some,
}
use asst.Types.{Tcb, Platform, threadreq}
use asst.Malloc.Payloads.{payloads}
use asst.Malloc.Among.{Among, Among-insert, Among-here, Among-once}
use asst.Memory.{Mm, enter, frame_address}
use asst.Memory.World.{Thread}
use asst.Memory.Search.{Hit}
use asst.Memory.Extend.{Grown}
use asst.Memory.Answer.{Ended, in_page, in_new}
use asst.Memory.Requests.{Thread-enter, myallocate-Answered}
use asst.Memory.NewThread.{Without, Begun, myallocate-Begun}
use asst.Memory.Owned.{
  Owned, Owned-inside, Owned-updated, Owned-same, Owned-change, pages-apart, page-apart,
}
use asst.Memory.Calls.{Machine, called}
use asst.Memory.Accounts.{has, lacks, Account-kept, Inv, Inv-called}
use asst.Memory.Allocate.{myallocate}

-- A request that is served: a block that the thread did not have, and the account of every thread.
pub record Served (os : Platform) (s : Machine) (n x : ℕ) : Type 0 where
  pub address : Ptr
  pub thread : Tcb
  pub memory : Mm
  pub run : myallocate os x threadreq (s.threads n) s.memory ≡ some (address, thread, memory)
  pub some_address : address ≢ null
  pub unused : s.live n address ≡ 0
  pub ended : Ended memory
  pub after : Inv (called n thread address x memory s)

module _ (os : Platform) (s : Machine) (v : Inv s) (n x : ℕ) (bytes : 0 < x) where
  abbrev t : Tcb
  t = s.threads n

  abbrev m : Mm
  m = s.memory

  abbrev pages : ℕ → Ptr
  pages = v.page n

  other_tid : (u : ℕ) → u ≢ n → (s.threads u).tid ≢ t.tid
  other_tid u ne e = ne (sym (v.names u) ∙ (e ∙ v.names n))

  module _ (th : Thread v.home t pages m)
      (owned : (q : Ptr) → s.live n q ≢ 0 → Owned v.held t pages m q (s.live n q)) where
    -- An address at which the thread has no payload is new to it.
    unused-of_Owned :
        (q : Ptr)
        → ((o : Owned v.held t pages m q (s.live n q)) → s.live n q ≢ 0 → ⊥)
        → s.live n q ≡ 0
    unused-of_Owned q no_payload = elim (Bool-cases (s.live n q == 0)) [
      | inl e ↦ ground (arith, e)
      | inr e ↦
          let used : s.live n q ≢ 0 = ground (arith, e) in absurd (no_payload (owned q used) used)
    ]

    in_page-Served :
        (q : Ptr) (m' : Mm)
        → myallocate os x threadreq t m ≡ some (q, t, m')
        → Hit v.home v.held v.top t pages x (enter m) q m'
        → Ended m'
        → Served os s n x
    in_page-Served q m' run h ended =
        let i = h.index in
        let bs = h.blocks_left in
        let held' = update v.held (pages i) bs in
        let th' = h.steady.threads t pages (Thread-enter th) in
        let ins = h.handed.payload in
        let now : held' (pages i) ≡ bs = ground arith in
        let o : Owned held' t pages m' q x = record {
          index = i;
          own = h.own;
          size = ins.size;
          enough = ins.enough;
          payload =
              rw (h.steady.block, now)
                (subst (λ l. Among q ins.size l) (sym ins.after)
                  (Among-here q ins.size ins.below ins.above));
        } in
        let keeps : (k y : ℕ)
            → Among k y (payloads (frame_address i m) (v.held (pages i)))
            → Among k y (payloads (frame_address i m) bs) =
          λ k y a.
            subst (λ l. Among k y l) (sym ins.after)
              (Among-insert k y (q, ins.size) ins.below ins.above
                (subst (λ l. Among k y l) ins.before a)) in
        let (from, to) = Owned-inside h.steady.world th' o in
        record {
          address = q;
          thread = t;
          memory = m';
          run = run;
          some_address = h.some_address;
          unused = unused-of_Owned q λ old used. elim (Bool-cases (old.index == i)) [
            | inl e ↦
                let e' : old.index ≡ i = ground (arith, e) in
                let there : Among q old.size (payloads (frame_address i m) (v.held (pages i))) =
                  subst (λ k. Among q old.size (payloads (frame_address k m) (v.held (pages k)))) e'
                    old.payload in
                Among-once q ins.size old.size (frame_address i m) bs ins.below ins.above ins.after
                  (subst (λ l. Among q old.size l) ins.before there)
            | inr e ↦
                let ne : old.index ≢ i = ground (arith, e) in
                let (from', to') = Owned-inside v.world th old in
                omega (arith, ne, from, to, from', to', used, h.steady.block, bytes)
          ];
          ended = ended;
          after =
              Inv-called s v n t q x m' pages h.steady.world (v.names n)
                (has th' (
                  Owned-updated (s.live n) q x (λ nonzero. o)
                    λ k ne used.
                      Owned-change th v.held i h.own bs m' h.steady.block k (s.live n k) (keeps k)
                        (owned k used)))
                λ u ne.
                  Account-kept h.steady.block (λ tu. h.steady.threads _ _ (Thread-enter tu))
                    (λ tu j l.
                      let apart = pages-apart th i j tu (other_tid u ne) h.own l in
                      ground (arith, apart))
                    (h.steady.absent _) (v.each u);
        }

    in_new-Served :
        (q : Ptr) (m' : Mm)
        → myallocate os x threadreq t m
          ≡ some (q, record t { malloc_frame = t.malloc_frame + 1 }, m')
        → Grown v.home v.held v.top t pages x (enter m) q m'
        → Ended m'
        → Served os s n x
    in_new-Served q m' run g ended =
        let i = t.malloc_frame + 1 in
        let t' = record t { malloc_frame = i } in
        let held' = update v.held g.fresh_page g.made in
        let pages' = update pages i g.fresh_page in
        let new : pages' i ≡ g.fresh_page = ground arith in
        let old : (j : ℕ) → j ≤ t.malloc_frame → pages' j ≡ pages j = λ j l. ground (arith, l) in
        let older : (j : ℕ) → j ≤ t.malloc_frame → pages j ≢ g.fresh_page = λ j l e.
          page-apart g.thread j i (omega (arith, l)) (omega arith) (omega (arith, l))
            (old j l ∙ (e ∙ sym new)) in
        let ins = g.handed.payload in
        let now : held' (pages' i) ≡ g.made = ground (arith, new) in
        let o : Owned held' t' pages' m' q x = record {
          index = i;
          own = omega arith;
          size = ins.size;
          enough = ins.enough;
          payload =
              rw (g.block, now)
                (subst (λ l. Among q ins.size l) (sym ins.after)
                  (Among-here q ins.size ins.below ins.above));
        } in
        let (from, to) = Owned-inside g.world g.thread o in
        record {
          address = q;
          thread = t';
          memory = m';
          run = run;
          some_address = g.some_address;
          unused = unused-of_Owned q λ old used.
              let (from', to') = Owned-inside v.world th old in
              omega (arith, old.own, from, to, from', to', used, g.block, bytes);
          ended = ended;
          after =
              Inv-called s v n t' q x m' pages' g.world (v.names n)
                (has g.thread (
                  Owned-updated (s.live n) q x (λ nonzero. o)
                    λ k ne used.
                      Owned-same g.block (omega arith) (λ j l. ground (arith, old j l, older j l))
                        (owned k used)))
                λ u ne.
                  Account-kept g.block (λ tu. g.others _ _ (other_tid u ne) (Thread-enter tu))
                    (λ tu j l.
                      let tu' = g.others _ _ (other_tid u ne) (Thread-enter tu) in
                      let apart = pages-apart g.thread i j tu' (other_tid u ne) (omega arith) l in
                      ground (arith, apart, new))
                    (g.absent _ (other_tid u ne)) (v.each u);
        }

  first-Served :
      Without t m
      → ((q : Ptr) → s.live n q ≡ 0)
      → (p q : Ptr) (m' : Mm)
      → myallocate os x threadreq t m ≡ some (q, record t { first_page = p }, m')
      → Begun v.home v.held v.top t x m p q m'
      → Served os s n x
  first-Served (no_page, first, none_of) nothing p q m' run b =
      let t' = record t { first_page = p } in
      let held' = update v.held p b.made in
      let ins = b.handed.payload in
      let now : held' p ≡ b.made = ground arith in
      let o : Owned held' t' (λ k. p) m' q x = record {
        index = 0;
        own = omega arith;
        size = ins.size;
        enough = ins.enough;
        payload =
            rw (b.block, now)
              (subst (λ l. Among q ins.size l) (sym ins.after)
                (Among-here q ins.size ins.below ins.above));
      } in
      record {
        address = q;
        thread = t';
        memory = m';
        run = run;
        some_address = b.some_address;
        unused = nothing q;
        ended = b.ended;
        after =
            Inv-called s v n t' q x m' (λ k. p) b.world (v.names n)
              (has b.thread (
                Owned-updated (s.live n) q x (λ nonzero. o) λ k ne used. absurd (used (nothing k))))
              λ u ne.
                Account-kept b.block (λ tu. b.others _ _ (other_tid u ne) tu)
                  (λ tu j l.
                    let tu' = b.others _ _ (other_tid u ne) tu in
                    let apart = pages-apart b.thread 0 j tu' (other_tid u ne) (omega arith) l in
                    ground (arith, apart))
                  (b.absent _ (other_tid u ne)) (v.each u);
      }

  pub request-Served : x ≤ 4064 → m.page_counter < 1596 → Served os s n x
  request-Served small space = elim (v.each n) [
    | has th owned ↦ elim (myallocate-Answered os x v.world th small space) [
      | in_page q m' run h ended ↦ in_page-Served th owned q m' run h ended
      | in_new q m' run no_fit g ended ↦ in_new-Served th owned q m' run g ended
    ]
    | lacks without nothing ↦
        let (p, q, m', run, b) = myallocate-Begun os x v.world t without small space in
        first-Served without nothing p q m' run b
  ]
