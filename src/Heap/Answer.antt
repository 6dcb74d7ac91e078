-- ===== src/Heap/Answer.antt =====
-- heap_core_free of kernel/memory/heap_core.c: the pointers that it accepts.
use utamo_os.Common.{
  ℕ, zero, suc, ◌+◌, ◌-◌, ◌%◌, ◌≤◌, ◌≡◌, inl, inr, refl, sym, ap, ◌∙◌, Bool, true, false, not, ◌||◌,
  List, [], ◌∷◌, ◌++◌, arith, if◌then◌else◌, Bool-cases, ◌==◌, some, none, ==_iff,
}
use mathlib.Core.Path.{subst}
use utamo_os.Heap.State.{Arena, Heap, none_offset, header_size, block_size, block_used}
use utamo_os.Heap.Segment.{Cell, total, first_linked, last_linked, last_size, Segment}
use utamo_os.Heap.Blocks.{exact_block}
use utamo_os.Heap.Run.{pointer_offset}
use utamo_os.Heap.Give.{release, heap_core_free}
use utamo_os.Heap.Unlink.{Described-Placed}
use utamo_os.Heap.Good.{
  AreCells, Holds, AreCells-split, used_cell, block_size-header, block_used-header,
}
use utamo_os.Heap.Cut.{total-append}
use utamo_os.Heap.Live.{live}
use utamo_os.Heap.Accepted.{heap_core_validate-Holds}
use utamo_os.Heap.Free.{
  exact_block-next, exact_block-here, is_outside, is_used_block, pointer_offset-inside, Frees,
  heap_core_free-Frees,
}
use utamo_os.Heap.Member.{UsedAt, Member, Member-UsedAt}

-- The walk of exact_block finds every block.
exact_block-total :
    (a : Arena) (from previous prior fuel : ℕ) (after_free : Bool) (pre : List Cell) (c : Cell)
    (post : List Cell)
    → Segment a.blocks a.base from previous prior (pre ++ c ∷ post) none_offset
    → AreCells after_free (pre ++ c ∷ post)
    → from + total (pre ++ c ∷ post) ≡ a.mapped_size
    → total (pre ++ c ∷ post) ≤ fuel
    → exact_block a (from + total pre) fuel from ≡ true
exact_block-total a from previous prior zero after_free [] c post s (good, apart, others) ends
      enough =
    let large = good.large in absurd (omega arith)
exact_block-total a from previous prior zero after_free (d ∷ pre) c post s (good, apart, others)
      ends enough =
    let large = good.large in absurd (omega arith)
exact_block-total a from previous prior (suc fuel) after_free [] c post s (good, apart, others) ends
      enough =
    let large = good.large in
    subst (λ t. exact_block a t (suc fuel) from ≡ true) (omega arith)
      (exact_block-here a from fuel (omega arith))
exact_block-total a from previous prior (suc fuel) after_free (d ∷ pre) c post (positive, at, rest)
      (good, apart, others) ends enough =
    let large = good.large in
    let target = from + (d.size + total pre) in
    let size : block_size (a.blocks from) ≡ d.size =
      ap block_size at
      ∙ block_size-header a.base from previous prior
          (first_linked (from + d.size) (pre ++ c ∷ post) none_offset) d good.aligned in
    let later =
      exact_block-total a (from + d.size) d.size (if d.linked then from else prior) fuel
        (not d.used) pre c post rest others (omega arith) (omega arith) in
    exact_block-next a target fuel from (omega arith) (λ e. omega arith)
    ∙ ap (λ s. exact_block a target fuel (from + s)) size
    ∙ subst (λ t. exact_block a t fuel (from + d.size) ≡ true) (omega arith) later

total-aligned :
    (after_free : Bool) (pre : List Cell) (c : Cell) (post : List Cell)
    → AreCells after_free (pre ++ c ∷ post)
    → total pre % 16 ≡ 0
total-aligned after_free [] c post g = omega arith
total-aligned after_free (d ∷ pre) c post (good, apart, others) =
    let aligned = good.aligned in
    let rest = total-aligned (not d.used) pre c post others in omega arith

UsedAt-pointer_offset :
    (h : Heap) (offset : ℕ)
    → UsedAt h offset
    → pointer_offset h (h.arena.base + (offset + header_size)) ≡ some offset
UsedAt-pointer_offset h offset (pre, (size, (old, (post, (holds, at))))) =
    let o = total pre in
    let c = used_cell size old in
    let a = h.arena in
    let d = holds.described in
    let address = a.base + (o + header_size) in
    let (cell, _) = AreCells-split false pre c post holds.cells_in_order in
    let base_aligned = holds.context.2 in
    let (some_requested, room) = cell.in_use refl in
    let whole : total pre + (size + total post) ≡ a.mapped_size =
      sym (total-append pre (c ∷ post)) ∙ d.size in
    let aligned = total-aligned false pre c post holds.cells_in_order in
    let same : address - a.base - header_size ≡ o = omega arith in
    let inside : is_outside h address ≡ false = ground arith in
    let here : exact_block a o a.mapped_size 0 ≡ true =
      subst (λ t. exact_block a t a.mapped_size 0 ≡ true) (omega arith)
        (exact_block-total a 0 0 none_offset a.mapped_size false pre c post d.holds
          holds.cells_in_order (omega (arith, d.size)) (omega (arith, d.size))) in
    let used : block_used (a.blocks o) ≡ true =
      ap block_used (Described-Placed a pre c post d).at
      ∙ block_used-header a.base o (last_size 0 pre) (last_linked 0 none_offset pre)
          (first_linked (o + size) post none_offset) c cell.aligned in
    let accepted : is_used_block h o ≡ true = ground arith in
    subst (λ k. pointer_offset h (a.base + (k + header_size)) ≡ some k) (sym at)
      (pointer_offset-inside h address inside
        ∙ ap (λ k. if is_used_block h k then some k else none) same
        ∙ ap (λ b. if b then some o else none) accepted)

-- Whether a pointer is that of one of the allocations
abbrev pub is_live : ℕ → ℕ → List (ℕ × ℕ) → Bool
is_live base pointer [] = false
is_live base pointer (x ∷ xs) = pointer == base + (x.0 + header_size) || is_live base pointer xs

is_live-Member :
    (base pointer : ℕ) (xs : List (ℕ × ℕ))
    → is_live base pointer xs ≡ true
    → (x : ℕ × ℕ) × (Member x xs × (pointer ≡ base + (x.0 + header_size)))
is_live-Member base pointer [] e = absurd (ground arith)
is_live-Member base pointer (x ∷ xs) e = elim (Bool-cases (pointer == base + (x.0 + header_size))) [
  | inl here ↦ (x, (inl refl, (==_iff pointer (base + (x.0 + header_size))).0 here))
  | inr other ↦ let (y, (m, at)) = is_live-Member base pointer xs (ground arith) in (y, (inr m, at))
]

is_live-middle :
    (base offset requested : ℕ) (xs ys : List (ℕ × ℕ))
    → is_live base (base + (offset + header_size)) (xs ++ (offset, requested) ∷ ys) ≡ true
is_live-middle base offset requested [] ys =
    let p = base + (offset + header_size) in
    let e : (p == p) ≡ true = (==_iff p p).1 refl in ground arith
is_live-middle base offset requested (x ∷ xs) ys =
    let rest = is_live-middle base offset requested xs ys in ground arith

-- What is accepted is NULL or an allocation.
Frees-is_live :
    (base : ℕ) (allocations : List (ℕ × ℕ)) (pointer : ℕ) (r : Bool × Heap)
    → Frees base allocations pointer r
    → r.0 ≡ true
    → (pointer == 0 || is_live base pointer allocations) ≡ true
Frees-is_live base allocations pointer (false, g) f e = absurd (ground arith)
Frees-is_live base allocations pointer (true, g) (inl (null, _)) e =
    let same = (==_iff pointer 0).1 null in ground arith
Frees-is_live base allocations pointer (true, g)
      (inr (before, after, offset, requested, (at, (was, rest)))) e =
    let found : is_live base pointer allocations ≡ true =
      subst (λ p. is_live base p allocations ≡ true) (sym at)
        (subst (λ l. is_live base (base + (offset + header_size)) l ≡ true) (sym was)
          (is_live-middle base offset requested before after)) in
    ground arith

heap_core_free-null :
    (h : Heap) (pointer : ℕ) → (pointer == 0) ≡ true → (heap_core_free h pointer).0 ≡ true
unfolding heap_core_free
heap_core_free-null h pointer null =
    let step : heap_core_free h pointer ≡ (true, h) = rw (null, heap_core_free) refl in
    ap {A = Bool × Heap} (λ r. r.0) step

heap_core_free-accepts :
    (h : Heap) (cells : List Cell) (pointer offset requested : ℕ)
    → Holds h cells
    → (pointer == 0) ≡ false
    → Member (offset, requested) (live 0 cells)
    → pointer ≡ h.arena.base + (offset + header_size)
    → (heap_core_free h pointer).0 ≡ true
unfolding heap_core_free
heap_core_free-accepts h cells pointer offset requested holds address m at =
    let found : pointer_offset h pointer ≡ some offset =
      ap (pointer_offset h) at
      ∙ UsedAt-pointer_offset h offset (Member-UsedAt h cells offset requested holds m) in
    let valid = heap_core_validate-Holds h cells holds in
    let step : heap_core_free h pointer ≡ (true, release h offset) =
      rw (address, valid, found, heap_core_free) refl in
    ap {A = Bool × Heap} (λ r. r.0) step

-- On a heap in order, heap_core_free accepts a pointer exactly if it is NULL or that of an allocation, and
-- leaves a heap in order: with the same allocations if it refuses or the pointer is NULL, else without the
-- one whose pointer that is.
pub heap_core_free-Answers :
    (h : Heap) (cells : List Cell) (pointer : ℕ)
    → Holds h cells
    → ((heap_core_free h pointer).0 ≡ (pointer == 0 || is_live h.arena.base pointer (live 0 cells)))
      × Frees h.arena.base (live 0 cells) pointer (heap_core_free h pointer)
heap_core_free-Answers h cells pointer holds =
    let base = h.arena.base in
    let frees = heap_core_free-Frees h cells pointer holds in
    let known = pointer == 0 || is_live base pointer (live 0 cells) in
    (
      elim (Bool-cases known) [
        | inl accepts ↦ elim (Bool-cases (pointer == 0)) [
          | inl null ↦ heap_core_free-null h pointer null ∙ sym accepts
          | inr address ↦
              let (x, (m, at)) = is_live-Member base pointer (live 0 cells) (ground arith) in
              heap_core_free-accepts h cells pointer x.0 x.1 holds address m at ∙ sym accepts
        ]
        | inr foreign ↦ elim (Bool-cases (heap_core_free h pointer).0) [
          | inl accepted ↦
              let clash =
                Frees-is_live base (live 0 cells) pointer (heap_core_free h pointer) frees
                  accepted in
              absurd (ground arith)
          | inr refused ↦ refused ∙ sym foreign
        ]
      ],
      frees,
    )
