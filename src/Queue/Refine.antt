-- ===== src/Queue/Refine.antt =====
-- The linked queues of my_pthread.c hold lists of nodes, and behave as the lists do.
use asst.Base.{
  ℕ, zero, suc, ◌+◌, ◌<◌, ◌≡◌, ◌≢◌, ◌∙◌, refl, sym, subst, some, List, [], ◌∷◌, ◌++◌, All,
  All-append, NotIn, Disjoint, Disjoint-singleton, arith, Ptr, null, ◌==◌, update, length,
}
use mathlib.Core.Bool.{false}
use mathlib.Core.List.{append-nil}
use asst.Queue.{
  ContextNode, Nodes, Queue, set_next, enqueuee, dequeuee, count_from, get_specific_count, splice,
  emptied,
}

-- From `p` the links lead through the nodes of the list, all different, to NULL.
abbrev pub Chain : Nodes → Ptr → List Ptr → Type 0
Chain h p [] = p ≡ null
Chain h p (n ∷ xs) = (p ≡ n) × (n ≢ null) × NotIn n xs × Chain h (h n).next xs

abbrev pub last : Ptr → List Ptr → Ptr
last d [] = d
last d (n ∷ xs) = last n xs

-- `b` is the last node, or there is none.
abbrev pub IsLast : Ptr → List Ptr → Type 0
IsLast b [] = Unit
IsLast b (n ∷ xs) = b ≡ last n xs

-- The queue holds the list. The `back` of an empty queue is left over, and is not read.
pub record IsQueue (h : Nodes) (q : Queue) (xs : List Ptr) : Type 0 where
  pub chain : Chain h q.front xs
  pub back : IsLast q.back xs

Chain-frame :
    (h h' : Nodes) (p : Ptr) (xs : List Ptr)
    → All (λ m. h' m ≡ h m) xs
    → Chain h p xs
    → Chain h' p xs
Chain-frame h h' p [] same c = c
Chain-frame h h' p (n ∷ xs) same c =
    (c.0, c.1, c.2, rw (same.0) (Chain-frame h h' (h n).next xs same.1 c.3))

last-ne : (n m : Ptr) (xs : List Ptr) → m ≢ n → NotIn n xs → last m xs ≢ n
last-ne n m [] e c = e
last-ne n m (k ∷ xs) e c = last-ne n k xs c.0 c.1

-- A write of the last link joins two chains.
Chain-join :
    (h h' : Nodes) (p r : Ptr) (x : Ptr) (xs ys : List Ptr)
    → Disjoint (x ∷ xs) ys
    → (h' (last x xs)).next ≡ r
    → ((m : Ptr) → m ≢ last x xs → NotIn m ys → h' m ≡ h m)
    → Chain h p (x ∷ xs)
    → Chain h' r ys
    → Chain h' p (x ∷ (xs ++ ys))
Chain-join h h' p r x [] ys d e same c c' = (c.0, c.1, d.0, rw e c')
Chain-join h h' p r x (y ∷ xs) ys d e same c c' =
    let ne : x ≢ last y xs = λ q. last-ne x y xs c.2.0 c.2.1 (sym q) in
    (
      c.0,
      c.1,
      All-append (λ m. m ≢ x) (y ∷ xs) ys c.2 d.0,
      rw (same x ne d.0) (Chain-join h h' (h x).next r y xs ys d.1 e same c.3 c'),
    )

last-append : (d x : Ptr) (xs ys : List Ptr) → last d (xs ++ x ∷ ys) ≡ last x ys
last-append d x [] ys = refl
last-append d x (y ∷ xs) ys = last-append y x xs ys

NotIn-last : (m x : Ptr) (xs : List Ptr) → NotIn m (x ∷ xs) → m ≢ last x xs
NotIn-last m x xs c q = last-ne m x xs c.0 c.1 (sym q)

last-ne_null :
    (h : Nodes) (x : Ptr) (xs : List Ptr) → x ≢ null → Chain h (h x).next xs → last x xs ≢ null
last-ne_null h x [] e c = e
last-ne_null h x (y ∷ xs) e c = last-ne_null h y xs c.1 c.3

-- enqueuee of a node that is not NULL and not in the queue succeeds and puts it behind the others.
-- A node `m` that is neither the new one nor in the queue stays as it was.
pub enqueuee-append :
    (h : Nodes) (q : Queue) (xs : List Ptr) (n m : Ptr)
    → n ≢ null
    → NotIn n xs
    → IsQueue h q xs
    → NotIn m (n ∷ xs)
    → (q' : Queue) × (h' : Nodes) × (enqueuee n q h ≡ some (q', h'))
      × IsQueue h' q' (xs ++ n ∷ [])
      × (h' m ≡ h m)
unfolding enqueuee set_next
enqueuee-append h q [] n m pos new is out =
    let e : (n == null) ≡ false = ground arith in
    (
      record { front = n; back = n },
      update h n (record (h n) { next = null }),
      rw (is.chain, e),
      record { chain = (refl, pos, tt, ground arith); back = refl },
      ground (arith, out.0),
    )
enqueuee-append h q (x ∷ xs) n m pos new is out =
    let b : q.back ≡ last x xs = is.back in
    let ne : last x xs ≢ n = last-ne n x xs new.0 new.1 in
    let e : (n == null) ≡ false = ground arith in
    let f : (q.front == null) ≡ false = ground (arith, is.chain.0, is.chain.1) in
    let g : (q.back == null) ≡ false =
      ground (arith, b, last-ne_null h x xs is.chain.1 is.chain.3) in
    let h1 : Nodes = update h q.back (record (h q.back) { next = n }) in
    let h2 : Nodes = update h1 n (record (h1 n) { next = null }) in
    (
      record q { back = n },
      h2,
      rw (f, g, e),
      record {
        chain =
            Chain-join h h2 q.front n x xs (n ∷ []) (Disjoint-singleton n (x ∷ xs) new)
              (ground (arith, b, ne)) (λ m o c. ground (arith, b, c.0)) is.chain
              (refl, pos, tt, ground arith);
        back = sym (last-append x n xs []);
      },
      ground (arith, out.0, b, NotIn-last m x xs out.1),
    )

-- dequeuee of a queue that is not empty gives its first node, and the queue holds the rest.
pub dequeuee-cons :
    (h : Nodes) (q : Queue) (n : Ptr) (xs : List Ptr)
    → IsQueue h q (n ∷ xs)
    → (q' : Queue) × (dequeuee q h ≡ (n, q')) × IsQueue h q' xs
unfolding dequeuee
dequeuee-cons h q n xs is =
    let f : (q.front == null) ≡ false = ground (arith, is.chain.0, is.chain.1) in
    (
      record q { front = (h q.front).next },
      ground (arith, f, is.chain.0),
      record { chain = rw (is.chain.0) (is.chain.3); back = back_rest n xs is.back },
    )
  where
    back_rest : (x : Ptr) (ys : List Ptr) → q.back ≡ last x ys → IsLast q.back ys
    back_rest x [] e = tt
    back_rest x (y ∷ ys) e = e

pub dequeuee-nil : (h : Nodes) (q : Queue) → IsQueue h q [] → dequeuee q h ≡ (null, q)
unfolding dequeuee
dequeuee-nil h q is = rw (is.chain)

count_from-length :
    (f count : ℕ) (h : Nodes) (p : Ptr) (xs : List Ptr)
    → Chain h p xs
    → length xs < f
    → count_from f count p h ≡ some (count + length xs)
unfolding count_from
count_from-length zero count h p xs c l = absurd (omega arith)
count_from-length (suc f) count h p [] c l = ground (arith, c)
count_from-length (suc f) count h p (n ∷ xs) c l =
    ground (arith, c.0, c.1, count_from-length f (count + 1) h (h n).next xs c.3 (omega arith))

-- With more fuel than nodes, get_specific_count returns the number of nodes in the queue.
pub get_specific_count-length :
    (fuel : ℕ) (h : Nodes) (q : Queue) (xs : List Ptr)
    → IsQueue h q xs
    → length xs < fuel
    → get_specific_count fuel q h ≡ some (length xs)
unfolding get_specific_count
get_specific_count-length fuel h q xs is l =
    ground (arith, count_from-length fuel 0 h q.front xs is.chain l)

Disjoint-last : (x : Ptr) (xs ys : List Ptr) → Disjoint (x ∷ xs) ys → NotIn (last x xs) ys
Disjoint-last x [] ys d = d.0
Disjoint-last x (y ∷ xs) ys d = Disjoint-last y xs ys d.1

same_but_last :
    (h : Nodes) (b : Ptr) (v : ContextNode) (ys : List Ptr)
    → NotIn b ys
    → All (λ m. update h b v m ≡ h m) ys
same_but_last h b v [] c = tt
same_but_last h b v (y ∷ ys) c = (ground (arith, c.0), same_but_last h b v ys c.1)

emptied-IsQueue : (h : Nodes) → IsQueue h emptied []
emptied-IsQueue h = record { chain = refl; back = tt }

-- The splice of two queues with no node in common succeeds: the highest holds its nodes and then
-- those of the lowest, which is empty. A node `m` that is not in the highest stays as it was.
pub splice-append :
    (h : Nodes) (highest lowest : Queue) (xs ys : List Ptr) (m : Ptr)
    → Disjoint xs ys
    → IsQueue h highest xs
    → IsQueue h lowest ys
    → NotIn m xs
    → (q : Queue) × (r : Queue) × (h' : Nodes) × (splice highest lowest h ≡ some (q, r, h'))
      × IsQueue h' q (xs ++ ys)
      × IsQueue h' r []
      × (h' m ≡ h m)
unfolding splice set_next
splice-append h highest lowest xs [] m d is is' out =
    (highest, lowest, h, rw (is'.chain), rw append-nil is, is', refl)
splice-append h highest lowest [] (y ∷ ys) m d is is' out =
    let f : (lowest.front == null) ≡ false = ground (arith, is'.chain.0, is'.chain.1) in
    (lowest, emptied, h, rw (f, is.chain), is', emptied-IsQueue h, refl)
splice-append h highest lowest (x ∷ xs) (y ∷ ys) m d is is' out =
    let b : highest.back ≡ last x xs = is.back in
    let f : (lowest.front == null) ≡ false = ground (arith, is'.chain.0, is'.chain.1) in
    let f' : (highest.front == null) ≡ false = ground (arith, is.chain.0, is.chain.1) in
    let g : (highest.back == null) ≡ false =
      ground (arith, b, last-ne_null h x xs is.chain.1 is.chain.3) in
    let h1 : Nodes = update h highest.back (record (h highest.back) { next = lowest.front }) in
    (
      record highest { back = lowest.back },
      emptied,
      h1,
      rw (f, f', g),
      record {
        chain =
            Chain-join h h1 highest.front lowest.front x xs (y ∷ ys) d (ground (arith, b))
              (λ m o c. ground (arith, b)) is.chain
              (Chain-frame h h1 lowest.front (y ∷ ys)
                (same_but_last h highest.back (record (h highest.back) { next = lowest.front })
                  (y ∷ ys) (subst (λ c. NotIn c (y ∷ ys)) (sym b) (Disjoint-last x xs (y ∷ ys) d)))
                is'.chain);
        back = is'.back ∙ sym (last-append x y xs ys);
      },
      emptied-IsQueue h1,
      ground (arith, b, NotIn-last m x xs out),
    )
