-- ===== src/Heap/Payload.antt =====
-- memset and memcpy in kernel/memory/heap_core.c, in the payload of one block.
use utamo_os.Common.{
  ℕ, ◌+◌, ◌-◌, ◌%◌, ◌≤◌, ◌<◌, ◌≡◌, ◌⊎◌, inl, inr, refl, sym, ap, ◌∙◌, Bool, true, false, ◌&&◌, List,
  ◌∷◌, ◌++◌, arith, if◌then◌else◌, ltb,
}
use mathlib.Core.Path.{subst}
use utamo_os.Heap.State.{Arena, Heap, none_offset, header_size, block_size, write_memory, poison}
use utamo_os.Heap.Segment.{
  Cell, total, first_linked, last_linked, last_size, Segment, Segment-frame,
}
use utamo_os.Heap.Cut.{Segment-split, Segment-append}
use utamo_os.Heap.Rewire.{Described}
use utamo_os.Heap.Unlink.{Described-Placed}
use utamo_os.Heap.Good.{IsContext, AreCells-split, Holds, block_size-header}
use utamo_os.Heap.Blocks.{poison_free}
use utamo_os.Heap.Kept.{Kept}

-- Only the headers and the payload change.
abbrev pub Rewrites : Heap → Heap → Type 0
Rewrites h g = g ≡ record h { arena = g.arena; bytes = g.bytes }

module _ (h : Heap) (start count : ℕ) where
  pub write_memory-Rewrites : (source : ℕ → ℕ) → Rewrites h (write_memory h start count source)
  unfolding write_memory
  write_memory-Rewrites source = refl

  pub write_memory-Kept : (source : ℕ → ℕ) → Kept h.arena (write_memory h start count source).arena
  unfolding write_memory
  write_memory-Kept source = (refl, refl)

  write_memory-head :
      (source : ℕ → ℕ) → (write_memory h start count source).arena.free_head ≡ h.arena.free_head
  unfolding write_memory
  write_memory-head source = refl

  -- A header outside of the range
  write_memory-same :
      (source : ℕ → ℕ) (i : ℕ)
      → (i + header_size ≤ start) ⊎ (start + count ≤ i)
      → (write_memory h start count source).arena.blocks i ≡ h.arena.blocks i
  unfolding write_memory
  write_memory-same source i apart =
      let e : (ltb start (i + header_size) && ltb i (start + count)) ≡ false = elim apart [
        | inl low ↦ ground arith
        | inr high ↦ ground arith
      ] in
      rw e refl

-- No header is in the payload of a block.
pub write_memory-Described :
    (h : Heap) (pre : List Cell) (c : Cell) (post : List Cell) (start count : ℕ) (source : ℕ → ℕ)
    → Described h.arena (pre ++ c ∷ post)
    → total pre + header_size ≤ start
    → start + count ≤ total pre + c.size
    → Described (write_memory h start count source).arena (pre ++ c ∷ post)
write_memory-Described h pre c post start count source d low high =
    let a = h.arena in
    let r = (write_memory h start count source).arena in
    let o = total pre in
    let q = last_linked 0 none_offset pre in
    let (base, mapped) = write_memory-Kept h start count source in
    let same = write_memory-same h start count source in
    let (left, (positive, at, right)) =
      Segment-split a.blocks a.base 0 o 0 none_offset pre (c ∷ post) none_offset (omega arith)
        d.holds in
    let left' =
      Segment-frame a.base 0 0 none_offset pre (first_linked o (c ∷ post) none_offset)
        (λ i above below. same i (inl (omega arith))) left in
    let right' =
      Segment-frame a.base (o + c.size) c.size (if c.linked then o else q) post none_offset
        (λ i above below. same i (inr (omega arith))) right in
    record {
      head = d.head ∙ sym (write_memory-head h start count source);
      size = d.size ∙ sym mapped;
      bounded = subst (λ m. m < none_offset) (sym mapped) d.bounded;
      holds =
          subst (λ b. Segment r.blocks b 0 0 none_offset (pre ++ c ∷ post) none_offset) (sym base)
            (Segment-append r.blocks a.base 0 o 0 none_offset pre (c ∷ post) none_offset
              (omega arith) left' (positive, same o (inl (omega arith)) ∙ at, right'));
    }

-- Poisoned or not
poison-cases :
    (P : Heap → Type 0) (h : Heap) (start count value : ℕ)
    → P (write_memory h start count (λ i. value))
    → P h
    → P (poison h start count value)
unfolding poison
poison-cases P h start count value on off = choose h.debug_poison
  where
    choose : (b : Bool) → P (if b then write_memory h start count (λ i. value) else h)
    choose true = on
    choose false = off

module _ (h : Heap) (start count value : ℕ) where
  pub poison-Rewrites : Rewrites h (poison h start count value)
  poison-Rewrites =
      poison-cases (Rewrites h) h start count value
        (write_memory-Rewrites h start count (λ i. value)) refl

  pub poison-Kept : Kept h.arena (poison h start count value).arena
  poison-Kept =
      poison-cases (λ g. Kept h.arena g.arena) h start count value
        (write_memory-Kept h start count (λ i. value)) (refl, refl)

pub poison-Described :
    (h : Heap) (pre : List Cell) (c : Cell) (post : List Cell) (start count value : ℕ)
    → Described h.arena (pre ++ c ∷ post)
    → total pre + header_size ≤ start
    → start + count ≤ total pre + c.size
    → Described (poison h start count value).arena (pre ++ c ∷ post)
poison-Described h pre c post start count value d low high =
    poison-cases (λ g. Described g.arena (pre ++ c ∷ post)) h start count value
      (write_memory-Described h pre c post start count (λ i. value) d low high) d

-- The size of a block, as the code reads it
pub Described-block_size :
    (a : Arena) (pre : List Cell) (c : Cell) (post : List Cell)
    → Described a (pre ++ c ∷ post)
    → c.size % 16 ≡ 0
    → block_size (a.blocks (total pre)) ≡ c.size
Described-block_size a pre c post d aligned =
    ap block_size (Described-Placed a pre c post d).at
    ∙ block_size-header a.base (total pre) (last_size 0 pre) (last_linked 0 none_offset pre)
        (first_linked (total pre + c.size) post none_offset) c aligned

-- The whole payload
pub payload-Described :
    (h : Heap) (pre : List Cell) (c : Cell) (post : List Cell) (value : ℕ)
    → Described h.arena (pre ++ c ∷ post)
    → c.size % 16 ≡ 0
    → header_size ≤ c.size
    → Described
        (poison h
          (total pre + header_size)
          (block_size (h.arena.blocks (total pre)) - header_size)
          value).arena
        (pre ++ c ∷ post)
payload-Described h pre c post value d aligned large =
    let size = Described-block_size h.arena pre c post d aligned in
    poison-Described h pre c post (total pre + header_size)
      (block_size (h.arena.blocks (total pre)) - header_size) value d (omega arith) (omega arith)

module _ (h : Heap) (o : ℕ) where
  pub poison_free-Rewrites : Rewrites h (poison_free h o)
  unfolding poison_free
  poison_free-Rewrites =
      poison-Rewrites h (o + header_size) (block_size (h.arena.blocks o) - header_size) 0xdd

  pub poison_free-Kept : Kept h.arena (poison_free h o).arena
  unfolding poison_free
  poison_free-Kept =
      poison-Kept h (o + header_size) (block_size (h.arena.blocks o) - header_size) 0xdd

pub poison_free-Described :
    (h : Heap) (o : ℕ) (pre : List Cell) (c : Cell) (post : List Cell)
    → Described h.arena (pre ++ c ∷ post)
    → o ≡ total pre
    → c.size % 16 ≡ 0
    → header_size ≤ c.size
    → Described (poison_free h o).arena (pre ++ c ∷ post)
unfolding poison_free
poison_free-Described h o pre c post d here aligned large =
    subst
      (λ k.
        Described
          (poison h (k + header_size) (block_size (h.arena.blocks k) - header_size) 0xdd).arena
          (pre ++ c ∷ post))
      (sym here) (payload-Described h pre c post 0xdd d aligned large)

-- Holds with the headers that a write leaves
pub Holds-Rewrites :
    (h g : Heap) (cells : List Cell)
    → Holds h cells
    → Rewrites h g
    → Kept h.arena g.arena
    → Described g.arena cells
    → Holds g cells
Holds-Rewrites h g cells holds rewrites (base, mapped) d =
    subst (λ k. Holds k cells) (sym rewrites)
      (record {
        described = d;
        cells_in_order = holds.cells_in_order;
        context =
            subst (λ b. IsContext h.initialized b g.arena.mapped_size h.max_size h.growth_size)
              (sym base)
              (subst (λ m. IsContext h.initialized h.arena.base m h.max_size h.growth_size)
                (sym mapped) holds.context);
        used_bytes = holds.used_bytes;
        live_allocations = holds.live_allocations;
        peak_usage = holds.peak_usage;
      })

pub write_memory-Holds :
    (h : Heap) (pre : List Cell) (c : Cell) (post : List Cell) (start count : ℕ) (source : ℕ → ℕ)
    → Holds h (pre ++ c ∷ post)
    → total pre + header_size ≤ start
    → start + count ≤ total pre + c.size
    → Holds (write_memory h start count source) (pre ++ c ∷ post)
write_memory-Holds h pre c post start count source holds low high =
    Holds-Rewrites h (write_memory h start count source) (pre ++ c ∷ post) holds
      (write_memory-Rewrites h start count source) (write_memory-Kept h start count source)
      (write_memory-Described h pre c post start count source holds.described low high)

pub poison-Holds :
    (h : Heap) (pre : List Cell) (c : Cell) (post : List Cell) (start count value : ℕ)
    → Holds h (pre ++ c ∷ post)
    → total pre + header_size ≤ start
    → start + count ≤ total pre + c.size
    → Holds (poison h start count value) (pre ++ c ∷ post)
poison-Holds h pre c post start count value holds low high =
    poison-cases (λ g. Holds g (pre ++ c ∷ post)) h start count value
      (write_memory-Holds h pre c post start count (λ i. value) holds low high) holds

pub payload-Holds :
    (h : Heap) (pre : List Cell) (c : Cell) (post : List Cell) (value : ℕ)
    → Holds h (pre ++ c ∷ post)
    → Holds
        (poison h
          (total pre + header_size)
          (block_size (h.arena.blocks (total pre)) - header_size)
          value)
        (pre ++ c ∷ post)
payload-Holds h pre c post value holds =
    let (cell, _) = AreCells-split false pre c post holds.cells_in_order in
    let large = cell.large in
    let size = Described-block_size h.arena pre c post holds.described cell.aligned in
    poison-Holds h pre c post (total pre + header_size)
      (block_size (h.arena.blocks (total pre)) - header_size) value holds (omega arith)
      (omega arith)

pub poison_free-Holds :
    (h : Heap) (o : ℕ) (pre : List Cell) (c : Cell) (post : List Cell)
    → Holds h (pre ++ c ∷ post)
    → o ≡ total pre
    → Holds (poison_free h o) (pre ++ c ∷ post)
unfolding poison_free
poison_free-Holds h o pre c post holds here =
    subst
      (λ k.
        Holds (poison h (k + header_size) (block_size (h.arena.blocks k) - header_size) 0xdd)
          (pre ++ c ∷ post))
      (sym here) (payload-Holds h pre c post 0xdd holds)
