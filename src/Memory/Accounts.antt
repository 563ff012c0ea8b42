-- ===== src/Memory/Accounts.antt =====
-- What each thread has, in a world of pages, and that a call of another thread does not change it.
use asst.Base.{
  ℕ, ◌≤◌, ◌≡◌, ◌≢◌, ◌∙◌, inl, inr, Bool-cases, List, [], Ptr, ◌==◌, update, arith, null,
}
use asst.Types.{Tcb}
use asst.Malloc.Blocks.{Block}
use asst.Memory.{Mm}
use asst.Memory.World.{World, Thread, NoPage}
use asst.Memory.NewThread.{Without}
use asst.Memory.Owned.{Owned, Owned-same}
use asst.Memory.Calls.{Machine, called, Start}

-- A thread has pages, and what it is to have at the addresses in them; or neither.
pub data Account (home : Ptr → ℕ) (held : Ptr → List Block) (page : ℕ → Ptr) (t : Tcb)
    (live : Ptr → ℕ) (m : Mm) : Type 0 where
  has :
      Thread home t page m
      → ((q : Ptr) → live q ≢ 0 → Owned held t page m q (live q))
      → Account home held page t live m
  lacks : Without t m → ((q : Ptr) → live q ≡ 0) → Account home held page t live m

-- The pages of all threads, and what each has.
pub record Inv (s : Machine) : Type 0 where
  pub home : Ptr → ℕ
  pub held : Ptr → List Block
  pub top : ℕ
  pub page : ℕ → ℕ → Ptr
  pub world : World home held top s.memory
  pub names : (n : ℕ) → (s.threads n).tid ≡ n
  pub each : (n : ℕ) → Account home held (page n) (s.threads n) (s.live n) s.memory

-- A thread that keeps its pages, and they what they hold, keeps what it has.
pub Account-kept :
    {home home' : Ptr → ℕ} {held held' : Ptr → List Block} {page : ℕ → Ptr} {t : Tcb}
    {live : Ptr → ℕ} {m m' : Mm}
    → m'.myblock_ptr ≡ m.myblock_ptr
    → (Thread home t page m → Thread home' t page m')
    → (Thread home t page m → (j : ℕ) → j ≤ t.malloc_frame → held' (page j) ≡ held (page j))
    → (NoPage t.tid m → NoPage t.tid m')
    → Account home held page t live m
    → Account home' held' page t live m'
Account-kept block keeps same absent (has th owned) =
    has (keeps th) (λ q used. Owned-same block (omega arith) (same th) (owned q used))
Account-kept block keeps same absent (lacks (no_page, first, none_of) nothing) =
    lacks (no_page, first, absent none_of) nothing

-- A call of the thread `n`, which changes what is in one page.
pub Inv-called :
    (s : Machine) (v : Inv s) (n : ℕ) (t : Tcb) (q : Ptr) (x : ℕ) (m : Mm) {home : Ptr → ℕ}
    {held : Ptr → List Block} {top : ℕ} (page : ℕ → Ptr)
    → World home held top m
    → t.tid ≡ n
    → Account home held page t (update (s.live n) q x) m
    → ((u : ℕ) → u ≢ n → Account home held (v.page u) (s.threads u) (s.live u) m)
    → Inv (called n t q x m s)
Inv-called s v n t q x m {home} {held} {top} page w name own others = record {
  home = home;
  held = held;
  top = top;
  page = update v.page n page;
  world = w;
  names = λ u. name_of u;
  each = λ u. elim (Bool-cases (u == n)) [
    | inl e ↦ let e' : u ≡ n = ground (arith, e) in rw e own
    | inr e ↦ let ne : u ≢ n = ground (arith, e) in rw e (others u ne)
  ];
}
  where
    name_of : (u : ℕ) → (update s.threads n t u).tid ≡ u
    name_of u = elim (Bool-cases (u == n)) [
      | inl e ↦ rw e (name ∙ ground (arith, e))
      | inr e ↦ rw e (v.names u)
    ]

-- Before the first call.
pub Inv-Start : (s : Machine) → Start s → Inv s
Inv-Start s h = record {
  home = λ p. 0;
  held = λ p. [];
  top = 0;
  page = λ n i. null;
  world = record {
    known = (
      (λ k l used. absurd (used (h.vacant k))),
      (λ k. omega (arith, h.vacant k, h.region)),
      h.region,
    );
    counter = omega (arith, h.none_given);
    filled = λ k l. absurd (omega (arith, l, h.none_given));
    vacant = λ k l u. h.vacant k;
    high = omega arith;
    slots = λ k l. absurd (omega (arith, l));
    lower = λ k l. absurd (omega (arith, l, h.none_given));
    temp = h.temp;
    pos = h.pos;
    clear = h.clear;
    stands = λ k l. absurd (omega (arith, l, h.none_given));
    later = h.set_up;
  };
  names = h.names;
  each = λ n.
      lacks (h.no_page n, h.first n, λ k l. absurd (omega (arith, l, h.none_given))) (h.nothing n);
}
