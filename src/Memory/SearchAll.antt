-- ===== src/Memory/SearchAll.antt =====
-- The whole search through the pages of a thread.
use asst.Base.{
  ℕ, zero, suc, ◌+◌, ◌*◌, ◌<◌, ◌≤◌, ◌^◌, ◌≡◌, ◌≢◌, refl, sym, subst, false, Option, some, Ptr, null,
  ◌==◌, List, arith,
}
use asst.Types.{Tcb}
use asst.Malloc.Blocks.{Block}
use asst.Malloc.Payloads.{Handed}
use asst.Memory.{Mm}
use asst.Memory.World.{World, Thread}
use asst.Memory.Own.{Steady, page_used}
use asst.Memory.Load.{Steady-refl}
use asst.Memory.Search.{Looked, missed, hit, Hit, try_page-Looked, Steady-trans}
use asst.Memory.Page.{try_page, search_pages}

pub Hit-after :
    {home : Ptr → ℕ} {held : Ptr → List Block} {top : ℕ} {t : Tcb} {page : ℕ → Ptr} {x : ℕ}
    {m m1 : Mm} {q : Ptr} {m' : Mm}
    → Steady t.tid home held top m m1
    → Hit home held top t page x m1 q m'
    → Hit home held top t page x m q m'
Hit-after {held = held} {page = page} {x = x} {q = q} s h = record {
  index = h.index;
  own = h.own;
  blocks_left = h.blocks_left;
  steady = Steady-trans s h.steady;
  handed =
      subst (λ b. Handed q x (b + h.index * 4096) (held (page h.index)) h.blocks_left) s.block
        h.handed;
  some_address = h.some_address;
}

pub Looked-after :
    {home : Ptr → ℕ} {held : Ptr → List Block} {top : ℕ} {t : Tcb} {page : ℕ → Ptr} {x : ℕ}
    {m m1 : Mm} {r : Option (Ptr × Mm)}
    → Steady t.tid home held top m m1
    → Looked home held top t page x m1 r
    → Looked home held top t page x m r
Looked-after s (missed m' e s') = missed m' e (Steady-trans s s')
Looked-after s (hit q m' e h) = hit q m' e (Hit-after s h)

search_end : (f x c : ℕ) (t : Tcb) (m : Mm) → 0 < f → search_pages f x null c t m ≡ some (null, m)
unfolding search_pages
search_end zero x c t m h = absurd (omega (arith, h))
search_end (suc f) x c t m h = refl

search_on :
    (f x c : ℕ) (p : Ptr) (t : Tcb) (m m' : Mm)
    → p ≢ null
    → try_page x p c t m ≡ some (null, m')
    → search_pages (suc f) x p c t m ≡ search_pages f x (m'.metas p).next (c + 1) t m'
unfolding search_pages
search_on f x c p t m m' used run =
    let e : (p == null) ≡ false = ground (arith, used) in rw (e, run) refl

search_hit :
    (f x c : ℕ) (p q : Ptr) (t : Tcb) (m m' : Mm)
    → p ≢ null
    → q ≢ null
    → try_page x p c t m ≡ some (q, m')
    → search_pages (suc f) x p c t m ≡ some (q, m')
unfolding search_pages
search_hit f x c p q t m m' used some_q run =
    let e : (p == null) ≡ false = ground (arith, used) in
    let e' : (q == null) ≡ false = ground (arith, some_q) in rw (e, run, e') refl

module _ {home : Ptr → ℕ} {held : Ptr → List Block} {top : ℕ} {m : Mm} (w : World home held top m)
    {t : Tcb} {page : ℕ → Ptr} (th : Thread home t page m) (x : ℕ) (bytes : x < 2 ^ 32) (f c : ℕ)
    (l : c ≤ t.malloc_frame) where
  -- The page at `c`, and then the others.
  search_step :
      ((m' : Mm)
        → Steady t.tid home held top m m'
        → Looked home held top t page x m' (search_pages f x (m'.metas (page c)).next (c + 1) t m'))
      → Looked home held top t page x m (search_pages (suc f) x (page c) c t m)
  search_step rest =
      let used = page_used w th c l in
      elim (try_page-Looked w th x bytes c l) [
        | hit q m' run h ↦ hit q m' (search_hit f x c (page c) q t m m' used h.some_address run) h
        | missed m' run s ↦ Looked-after s (
            subst (Looked home held top t page x m')
              (sym (search_on f x c (page c) t m m' used run)) (rest m' s))
      ]

-- From the page at `c` on, with more fuel than pages: the search ends, with a payload in one of the
-- pages or with none, and every page keeps what it holds but for that payload.
pub search_pages-Looked :
    (f d c : ℕ) {home : Ptr → ℕ} {held : Ptr → List Block} {top : ℕ} {m : Mm}
    → World home held top m
    → {t : Tcb} {page : ℕ → Ptr} → Thread home t page m
    → (x : ℕ) → x < 2 ^ 32
    → c + d ≡ t.malloc_frame
    → d + 1 < f
    → Looked home held top t page x m (search_pages f x (page c) c t m)
search_pages-Looked zero d c w th x bytes e enough = absurd (omega (arith, enough))
search_pages-Looked (suc f) zero c w {t} {page} th x bytes e enough =
    search_step w th x bytes f c (omega (arith, e)) (λ m' s.
      let last : t.malloc_frame ≡ c = omega (arith, e) in
      let end : (m'.metas (page c)).next ≡ null =
        subst (λ k. (m'.metas (page k)).next ≡ null) last (s.threads t page th).last in
      missed m' (rw end (search_end f x (c + 1) t m' (omega (arith, enough))))
        (Steady-refl s.world))
search_pages-Looked (suc f) (suc d) c w {t} {page} th x bytes e enough =
    search_step w th x bytes f c (omega (arith, e)) (λ m' s.
      rw ((s.threads t page th).links c (omega (arith, e))) (
        search_pages-Looked f d (c + 1) s.world (s.threads t page th) x bytes (omega (arith, e))
          (omega (arith, enough))))
