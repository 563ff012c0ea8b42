-- ===== src/Malloc/Fresh.antt =====
-- The first request of a page: what it gives, and what it writes.
use asst.Base.{ℕ, ◌+◌, ◌<◌, ◌≤◌, ◌≡◌, ◌∙◌, inl, inr, ◌⊎◌, Option, some, List, Ptr, null, arith}
use asst.Malloc.{Arena, mymalloc}
use asst.Malloc.Blocks.{Block, end}
use asst.Malloc.Spec.{blocks}
use asst.Malloc.Payloads.{Handed}
use asst.Malloc.Merge.{Holds}
use asst.Malloc.Local.{Local}
use asst.Malloc.First.{fresh, started, same_run, started-Represents}
use asst.Malloc.Given.{Given, no_room, given, mymalloc-Given}
use asst.Malloc.RoundTrip.{Holds-of_Represents}

-- The one free block of a page.
abbrev pub blank : List Block
blank = blocks (fresh 4096)

-- A payload in a page that held nothing, which is then full of blocks.
pub record Opened (x base : ℕ) (a : Arena) (r : Option (Ptr × Arena)) : Type 0 where
  pub address : Ptr
  pub after : Arena
  pub made : List Block
  pub run : r ≡ some (address, after)
  pub holds : Holds base made after
  pub handed : Handed address x base blank made
  pub whole : end base made ≡ base + 4096
  pub local : Local base (base + 4096) a.mem after.mem

Opened-of_Given :
    (x base : ℕ) (a : Arena) (r : Option (Ptr × Arena))
    → x ≤ 4064
    → Given x base blank (started base 4096 a) r
    → Opened x base a r
Opened-of_Given x base a r small (no_room e no_fit) = absurd (ground (arith, small, no_fit.0))
Opened-of_Given x base a r small (given q a' bs e h handed local) = record {
  address = q;
  after = a';
  made = bs;
  run = e;
  holds = h;
  handed = handed;
  whole = omega (arith, handed.extent);
  local = λ p away. local p (outside p away) ∙ before p away;
}
  where
    outside : (p : Ptr) → (p < base) ⊎ (base + 4096 ≤ p) → (p < base) ⊎ (end base blank ≤ p)
    outside p (inl l) = inl l
    outside p (inr h) = inr (omega (arith, h))

    before : (p : Ptr) → (p < base) ⊎ (base + 4096 ≤ p) → (started base 4096 a).mem p ≡ a.mem p
    before p away = ground (arith, away)

-- The first request in a page, of at most 4064 bytes, is served in it, and writes in it only.
pub mymalloc-Opened :
    (fuel x base : ℕ) (a : Arena)
    → a.head ≡ null
    → 0 < base
    → x ≤ 4064
    → 1 < fuel
    → Opened x base a (mymalloc fuel x base 4096 a)
mymalloc-Opened fuel x base a unset pos small enough = rw (same_run fuel x base 4096 a unset pos) (
    Opened-of_Given x base a (mymalloc fuel x base 4096 (started base 4096 a)) small (
      mymalloc-Given fuel x base 4096 base blank (started base 4096 a) (omega (arith, small))
        (Holds-of_Represents base (fresh 4096) (started base 4096 a)
          (started-Represents base 4096 a pos (omega arith) (omega arith)))
        enough))
