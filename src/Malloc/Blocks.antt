-- ===== src/Malloc/Blocks.antt =====
-- What an arena stands for: the blocks of memory from `head` on, each a header and its payload,
-- back to back.
use asst.Base.{ℕ, ◌∙◌, ◌+◌, ◌<◌, ◌≤◌, ◌≡◌, Bool, List, [], ◌∷◌, ◌++◌, arith, Ptr, if◌then◌else◌}
use asst.Malloc.{Mementry, mycode, sizeof_mementry, Mem}

pub record Block : Type 0 where
  pub size : ℕ
  pub used : Bool

abbrev pub block : ℕ → Bool → Block
block n u = record { size = n; used = u }

-- The address behind the blocks that begin at `p`.
abbrev pub end : Ptr → List Block → Ptr
end p [] = p
end p (b ∷ bs) = end (p + sizeof_mementry + b.size) bs

-- The address of the last header before `end p bs`, `prev` if there is none.
abbrev pub last : Ptr → Ptr → List Block → Ptr
last prev p [] = prev
last prev p (b ∷ bs) = last p (p + sizeof_mementry + b.size) bs

-- What a `next` field holds that leads to the blocks at `p`, and to `stop` if there are none.
abbrev pub link : Ptr → List Block → Ptr → Ptr
link p [] stop = stop
link p (b ∷ bs) stop = p

abbrev pub header : Block → Ptr → Ptr → Mementry
header b prev next = record {
  size = b.size;
  code = mycode;
  free = if b.used then 0 else 1;
  next = next;
  prev = prev;
}

-- The memory from `p` on holds the headers of `bs`, doubly linked. The first has `prev` before it,
-- the last `stop` behind it.
abbrev pub Seg : Mem → Ptr → Ptr → List Block → Ptr → Type 0
Seg m prev p [] stop = Unit
Seg m prev p (b ∷ bs) stop =
    (m p ≡ header b prev (link (p + sizeof_mementry + b.size) bs stop))
    × Seg m p (p + sizeof_mementry + b.size) bs stop

pub end-append : (p : Ptr) (xs ys : List Block) → end p (xs ++ ys) ≡ end (end p xs) ys
end-append p [] ys = omega arith
end-append p (x ∷ xs) ys = end-append (p + sizeof_mementry + x.size) xs ys

pub le-end : (p : Ptr) (bs : List Block) → p ≤ end p bs
le-end p [] = omega arith
le-end p (b ∷ bs) = omega (arith, le-end (p + sizeof_mementry + b.size) bs)

pub Seg-append :
    (m : Mem) (prev p : Ptr) (xs ys : List Block) (stop : Ptr)
    → Seg m prev p xs (link (end p xs) ys stop)
    → Seg m (last prev p xs) (end p xs) ys stop
    → Seg m prev p (xs ++ ys) stop
Seg-append m prev p [] ys stop s t = t
Seg-append m prev p (x ∷ []) ys stop s t = (s.0, t)
Seg-append m prev p (x ∷ y ∷ xs) ys stop s t =
    (s.0, Seg-append m p (p + sizeof_mementry + x.size) (y ∷ xs) ys stop s.1 t)

pub Seg-split :
    (m : Mem) (prev p : Ptr) (xs ys : List Block) (stop : Ptr)
    → Seg m prev p (xs ++ ys) stop
    → Seg m prev p xs (link (end p xs) ys stop) × Seg m (last prev p xs) (end p xs) ys stop
Seg-split m prev p [] ys stop s = (tt, s)
Seg-split m prev p (x ∷ []) ys stop s = ((s.0, tt), s.1)
Seg-split m prev p (x ∷ y ∷ xs) ys stop s =
    let (a, b) = Seg-split m p (p + sizeof_mementry + x.size) (y ∷ xs) ys stop s.1 in ((s.0, a), b)

-- A segment survives a change of memory elsewhere.
pub Seg-frame :
    (m m' : Mem) (prev p : Ptr) (bs : List Block) (stop : Ptr)
    → ((a : Ptr) → p ≤ a → a < end p bs → m' a ≡ m a)
    → Seg m prev p bs stop
    → Seg m' prev p bs stop
Seg-frame m m' prev p [] stop same s = tt
Seg-frame m m' prev p (b ∷ bs) stop same s =
    let q = p + sizeof_mementry + b.size in
    (
      same p (omega arith) (omega (arith, le-end q bs)) ∙ s.0,
      Seg-frame m m' p q bs stop (λ a l u. same a (omega arith) u) s.1,
    )
