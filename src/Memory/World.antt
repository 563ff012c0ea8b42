-- ===== src/Memory/World.antt =====
-- The pages of all threads: each page has an index of its own among the pages of its thread, holds
-- blocks as it would at the frame of that index, and stands in some frame of memory.
use asst.Base.{
  ℕ, ◌+◌, ◌-◌, ◌*◌, ◌<◌, ◌≤◌, ◌≡◌, ◌≢◌, ◌∙◌, sym, ap, subst, false, List, Ptr, null, arith,
}
use asst.Types.{Tcb}
use asst.Malloc.{Arena}
use asst.Malloc.Blocks.{Block, end, Seg-frame}
use asst.Malloc.Merge.{Holds}
use asst.Memory.{Mm, frame_address}
use asst.Memory.FirstPage.{Known}

-- The address that the page at `i` among the pages of a thread has for the thread.
abbrev pub page_address : ℕ → Mm → Ptr
page_address = frame_address

-- The arena of the page `p`, seen at the address of the frame `i`, wherever it stands.
abbrev pub page_view : ℕ → Ptr → Mm → Arena
page_view i p m = record {
  head = (m.metas p).head;
  middle = (m.metas p).middle;
  mem = λ a. m.arena.mem (frame_address (m.metas p).page_frame m + (a - frame_address i m));
}

-- The page holds the blocks `bs`, which fill it, and is not part of a chunk.
abbrev pub Stands : ℕ → List Block → Mm → Ptr → Type 0
Stands i bs m p =
    Holds (frame_address i m) bs (page_view i p m)
    × (end (frame_address i m) bs ≡ frame_address i m + 4096)
    × ((m.metas p).front_meta ≡ null)

-- `home` gives the index of a page among those of its thread, `held` its blocks. The frames below
-- `top` are those of some index, and hold pages of that index only.
pub record World (home : Ptr → ℕ) (held : Ptr → List Block) (top : ℕ) (m : Mm) : Type 0 where
  pub known : Known m
  pub counter : m.page_counter ≤ 1596
  pub filled : (k : ℕ) → k < m.page_counter → m.frame_table k ≢ null
  pub vacant : (k : ℕ) → m.page_counter ≤ k → k < 1596 → m.frame_table k ≡ null
  pub high : top ≤ m.page_counter
  pub slots : (k : ℕ) → k < top → home (m.frame_table k) ≡ k
  pub lower : (k : ℕ) → k < m.page_counter → home (m.frame_table k) < top
  pub temp : m.myblock_ptr + 1596 * 4096 ≤ m.swap_temp
  pub pos : 0 < m.myblock_ptr
  pub clear : (p : Ptr) → m.os_mem_ptr ≤ p → (m.metas p).front_meta ≡ null
  pub stands :
      (k : ℕ)
      → k < m.page_counter
      → Stands (home (m.frame_table k)) (held (m.frame_table k)) m (m.frame_table k)
  pub later : m.first_call ≡ false

-- The page `p` stands in the frame that its meta names.
abbrev pub Located : Mm → Ptr → Type 0
Located m p = ((m.metas p).page_frame < m.page_counter) × (m.frame_table (m.metas p).page_frame ≡ p)

-- The pages of the thread `t`: `page i` is the one at `i`, and no other page is of the thread.
pub record Thread (home : Ptr → ℕ) (t : Tcb) (page : ℕ → Ptr) (m : Mm) : Type 0 where
  pub first : t.first_page ≡ page 0
  pub links : (i : ℕ) → i < t.malloc_frame → (m.metas (page i)).next ≡ page (i + 1)
  pub last : (m.metas (page t.malloc_frame)).next ≡ null
  pub homes : (i : ℕ) → i ≤ t.malloc_frame → home (page i) ≡ i
  pub mine : (i : ℕ) → i ≤ t.malloc_frame → (m.metas (page i)).tid ≡ t.tid
  pub located : (i : ℕ) → i ≤ t.malloc_frame → Located m (page i)
  pub only :
      (k : ℕ)
      → k < m.page_counter
      → (m.metas (m.frame_table k)).tid ≡ t.tid
      → (i : ℕ) × (i ≤ t.malloc_frame) × (m.frame_table k ≡ page i)

-- No page in a frame is of the thread `n`.
abbrev pub NoPage : ℕ → Mm → Type 0
NoPage n m = (k : ℕ) → k < m.page_counter → (m.metas (m.frame_table k)).tid ≢ n

-- An arena holds the blocks still where `head`, `middle` and the headers of the blocks are the same.
pub Holds-frame :
    (base : Ptr) (bs : List Block) (a a' : Arena)
    → a'.head ≡ a.head
    → a'.middle ≡ a.middle
    → ((p : Ptr) → base ≤ p → p < end base bs → a'.mem p ≡ a.mem p)
    → Holds base bs a
    → Holds base bs a'
Holds-frame base bs a a' head middle same h = record {
  base_pos = h.base_pos;
  head = head ∙ h.head;
  middle = rw middle (h.middle);
  bound = h.bound;
  seg = Seg-frame a.mem a'.mem null base bs null same h.seg;
}

-- The page `p` keeps what it holds: its meta but for the frame, and the memory of its frame.
abbrev pub Kept : Mm → Mm → Ptr → Type 0
Kept m m' p =
    (m'.metas p ≡ record (m.metas p) { page_frame = (m'.metas p).page_frame })
    × ((j : ℕ)
        → j < 4096
        → m'.arena.mem (frame_address (m'.metas p).page_frame m' + j)
          ≡ m.arena.mem (frame_address (m.metas p).page_frame m + j))

-- What a page holds is in its meta and in the memory of its frame.
pub Stands-same :
    (i : ℕ) (bs : List Block) (m m' : Mm) (p : Ptr)
    → m'.myblock_ptr ≡ m.myblock_ptr
    → (m'.metas p).head ≡ (m.metas p).head
    → (m'.metas p).middle ≡ (m.metas p).middle
    → (m'.metas p).front_meta ≡ (m.metas p).front_meta
    → ((j : ℕ)
        → j < 4096
        → m'.arena.mem (frame_address (m'.metas p).page_frame m' + j)
          ≡ m.arena.mem (frame_address (m.metas p).page_frame m + j))
    → Stands i bs m p
    → Stands i bs m' p
Stands-same i bs m m' p block head middle front content (holds, whole, alone) =
    let e : frame_address i m' ≡ frame_address i m = ap (λ b. b + i * 4096) block in
    (
      subst (λ b. Holds b bs (page_view i p m')) (sym e)
          (Holds-frame (frame_address i m) bs (page_view i p m) (page_view i p m') head middle
            (λ a low high.
              ap (λ b. m'.arena.mem (frame_address (m'.metas p).page_frame m' + (a - b))) e
              ∙ content (a - frame_address i m) (omega (arith, low, high, whole)))
            holds),
      subst (λ b. end b bs ≡ b + 4096) (sym e) whole,
      front ∙ alone,
    )

pub Stands-Kept :
    (i : ℕ) (bs : List Block) (m m' : Mm) (p : Ptr)
    → m'.myblock_ptr ≡ m.myblock_ptr
    → Kept m m' p
    → Stands i bs m p
    → Stands i bs m' p
Stands-Kept i bs m m' p block (meta, content) =
    Stands-same i bs m m' p block (ap (λ v. v.head) meta) (ap (λ v. v.middle) meta)
      (ap (λ v. v.front_meta) meta) content
