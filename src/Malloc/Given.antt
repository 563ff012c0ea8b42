-- ===== src/Malloc/Given.antt =====
-- A request of an arena that holds blocks: what it gives, and what it writes.
use asst.Base.{
  ℕ, ◌+◌, ◌<◌, ◌≤◌, ◌^◌, ◌≡◌, refl, sym, ap, subst, inl, inr, Option, some, List, [], ◌∷◌, ◌++◌,
  length, Ptr, null, arith,
}
use asst.Malloc.{Arena, sizeof_mementry, mymalloc}
use asst.Malloc.Blocks.{Block, end, le-end, Seg, end-append}
use asst.Malloc.Spec.{Zipper, zipper, blocks}
use asst.Malloc.Payloads.{payloads, Handed}
use asst.Malloc.Refine.{Represents}
use asst.Malloc.Merge.{IsHeader, Holds}
use asst.Malloc.Serve.{NoFit, Served, refused, served, mymalloc-Served}
use asst.Malloc.RoundTrip.{Holds-of_Represents, payload-BlockOf}
use asst.Malloc.Local.{Local}
use asst.Malloc.Writes.{mymalloc-Local}

-- The block of a header.
IsHeader-split :
    (p : Ptr) (bs : List Block) (w : Ptr)
    → IsHeader p bs w
    → (pre : List Block) × (b : Block) × (post : List Block) × (bs ≡ pre ++ b ∷ post)
      × (w ≡ end p pre)
IsHeader-split p [] w h = absurd h
IsHeader-split p (b ∷ bs) w (inl e) = ([], b, bs, refl, e)
IsHeader-split p (b ∷ bs) w (inr h) =
    let (pre, c, post, e, at) = IsHeader-split (p + sizeof_mementry + b.size) bs w h in
    (b ∷ pre, c, post, ap (λ l. b ∷ l) e, at)

pub Represents-of_Holds :
    (base : Ptr) (bs : List Block) (a : Arena)
    → Holds base bs a
    → (z : Zipper) × (bs ≡ blocks z) × Represents base z a
Represents-of_Holds base bs a h =
    let (pre, b, post, e, at) = IsHeader-split base bs a.middle h.middle in
    (
      zipper pre b post,
      e,
      record {
        base_pos = h.base_pos;
        head = h.head;
        middle = at;
        bound = subst (λ l. end base l ≤ base + 2 ^ 31) e h.bound;
        seg = subst (λ l. Seg a.mem null base l null) e h.seg;
      },
    )

-- A payload stands behind the first header, and before the end.
pub payload-inside :
    (base : Ptr) (bs : List Block) (q n : ℕ) (below above : List (ℕ × ℕ))
    → payloads base bs ≡ below ++ (q, n) ∷ above
    → (base + sizeof_mementry ≤ q) × (q ≤ end base bs)
payload-inside base bs q n below above e =
    let (pre, b, post, split, u, at, l, r) = payload-BlockOf base bs q n below above e in
    (
      omega (arith, at, le-end base pre),
      subst (λ l. q ≤ end base l) (sym split)
          (omega (
            arith,
            at,
            end-append base pre (b ∷ post),
            le-end (end base pre + sizeof_mementry + b.size) post,
          )),
    )

-- NULL, no change and no block that would do; or a payload in a changed arena.
pub data Given (x base : ℕ) (bs : List Block) (a : Arena) : Option (Ptr × Arena) → Type 0 where
  no_room : {r : Option (Ptr × Arena)} → r ≡ some (null, a) → NoFit x bs → Given x base bs a r
  given :
      {r : Option (Ptr × Arena)} (q : Ptr) (a' : Arena) (bs' : List Block)
      → r ≡ some (q, a')
      → Holds base bs' a'
      → Handed q x base bs bs'
      → Local base (end base bs) a.mem a'.mem
      → Given x base bs a r

Given-of_Served :
    (x base : ℕ) (z : Zipper) (a : Arena) (r : Option (Ptr × Arena))
    → ((q : Ptr) (a' : Arena) → r ≡ some (q, a') → Local base (end base (blocks z)) a.mem a'.mem)
    → Served x base z a r
    → Given x base (blocks z) a r
Given-of_Served x base z a r local (refused e no_fit) = no_room e no_fit
Given-of_Served x base z a r local (served q a' z' e rep handed apart) =
    given q a' (blocks z') e (Holds-of_Represents base z' a' rep) handed (local q a' e)

-- A request of an arena that holds blocks, of less than 2 ^ 32 bytes and with more fuel than there are
-- blocks, is refused only if no free block has the bytes, and then nothing changes; or it hands out one
-- more payload, and writes between the first header and the end of the blocks only.
pub mymalloc-Given :
    (fuel x : ℕ) (memptr : Ptr) (size : ℕ) (base : Ptr) (bs : List Block) (a : Arena)
    → x < 2 ^ 32
    → Holds base bs a
    → length bs < fuel
    → Given x base bs a (mymalloc fuel x memptr size a)
mymalloc-Given fuel x memptr size base bs a bytes h enough =
    let (z, e, rep) = Represents-of_Holds base bs a h in
    subst (λ l. Given x base l a (mymalloc fuel x memptr size a)) (sym e)
      (Given-of_Served x base z a (mymalloc fuel x memptr size a)
        (λ q a' run.
          mymalloc-Local fuel x memptr size base (blocks z) a q a' bytes
            (Holds-of_Represents base z a rep) run)
        (mymalloc-Served fuel x memptr size base a z rep (subst (λ l. length l < fuel) e enough)))
