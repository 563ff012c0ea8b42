-- ===== src/Memory/Releasing.antt =====
-- One return in a run: what mydeallocate does to what the threads have.
use asst.Base.{ℕ, ◌≡◌, ◌≢◌, ◌∙◌, refl, sym, subst, Ptr, arith, some}
use asst.Types.{Tcb}
use asst.Malloc.{freed}
use asst.Malloc.Payloads.{payloads}
use asst.Malloc.Among.{Among, Among-drop, Among-split}
use asst.Memory.{Mm, frame_address}
use asst.Memory.World.{Thread}
use asst.Memory.Answer.{Ended}
use asst.Memory.Requests.{Thread-enter}
use asst.Memory.Returns.{mydeallocate-Returned}
use asst.Memory.Owned.{Owned-inside, Owned-updated, Owned, Owned-change, pages-apart}
use asst.Memory.Calls.{Machine, called}
use asst.Memory.Accounts.{has, lacks, Account-kept, Inv, Inv-called}
use asst.Memory.Release.{mydeallocate}

-- A return that frees the block, and the account of every thread.
pub record Freed (s : Machine) (n : ℕ) (q : Ptr) : Type 0 where
  pub memory : Mm
  pub run : mydeallocate q (s.threads n) s.memory ≡ some (freed, memory)
  pub ended : Ended memory
  pub after : Inv (called n (s.threads n) q 0 memory s)

module _ (s : Machine) (v : Inv s) (n : ℕ) (q : Ptr) (given : s.live n q ≢ 0) where
  abbrev t : Tcb
  t = s.threads n

  abbrev m : Mm
  m = s.memory

  abbrev pages : ℕ → Ptr
  pages = v.page n

  other_tid : (u : ℕ) → u ≢ n → (s.threads u).tid ≢ t.tid
  other_tid u ne e = ne (sym (v.names u) ∙ (e ∙ v.names n))

  has-Freed :
      (th : Thread v.home t pages m)
      → ((k : Ptr) → s.live n k ≢ 0 → Owned v.held t pages m k (s.live n k))
      → Freed s n q
  has-Freed th owned =
      let o = owned q given in
      let i = o.index in
      let (below, above, split) =
        Among-split q o.size (payloads (frame_address i m) (v.held (pages i))) o.payload in
      let (from, to) = Owned-inside v.world th o in
      let (m', run, r) =
        mydeallocate-Returned v.world th i q o.size below above o.own split
          (omega (arith, to, given)) in
      let bs = r.blocks_left in
      let th' = r.steady.threads t pages (Thread-enter th) in
      record {
        memory = m';
        run = run;
        ended = r.ended;
        after =
            Inv-called s v n t q 0 m' pages r.steady.world (v.names n)
              (has th' (
                Owned-updated (s.live n) q 0 (λ nonzero. absurd (nonzero refl))
                  λ k ne used.
                    Owned-change th v.held i o.own bs m' r.steady.block k (s.live n k)
                      (λ y a.
                        subst (λ l. Among k y l) (sym r.payloads_left)
                          (Among-drop k y (q, o.size) below above ne
                            (subst (λ l. Among k y l) split a)))
                      (owned k used)))
              λ u ne.
                Account-kept r.steady.block (λ tu. r.steady.threads _ _ (Thread-enter tu))
                  (λ tu j l.
                    let apart = pages-apart th i j tu (other_tid u ne) o.own l in
                    ground (arith, apart))
                  (r.steady.absent _) (v.each u);
      }

  pub release-Freed : Freed s n q
  release-Freed = elim (v.each n) [
    | has th owned ↦ has-Freed th owned
    | lacks without nothing ↦ absurd (given (nothing q))
  ]
