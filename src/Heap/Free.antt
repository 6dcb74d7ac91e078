-- ===== src/Heap/Free.antt =====
-- pointer_offset and heap_core_free of kernel/memory/heap_core.c on a heap in order.
use utamo_os.Common.{
  ℕ, zero, suc, ◌+◌, ◌-◌, ◌≤◌, ◌<◌, ◌≡◌, ◌≢◌, ◌⊎◌, inl, inr, refl, sym, ap, ◌∙◌, Bool, true, false,
  not, ◌&&◌, ◌||◌, List, [], ◌∷◌, ◌++◌, arith, if◌then◌else◌, Bool-cases, ◌==◌, ltb, leb, low_bits,
  some, none, Option-cases, IfSome, IfSome-when, ==_iff,
}
use mathlib.Core.Path.{subst}
use utamo_os.Heap.State.{Arena, Heap, none_offset, header_size, block_size, block_used, saturated}
use utamo_os.Heap.Segment.{Cell, total, first_linked, last_linked, last_size, Segment}
use utamo_os.Heap.Validate.{heap_core_validate}
use utamo_os.Heap.Blocks.{exact_block}
use utamo_os.Heap.Run.{pointer_offset}
use utamo_os.Heap.Give.{release, heap_core_free}
use utamo_os.Heap.Unlink.{Described-Placed}
use utamo_os.Heap.Good.{
  AreCells, Holds, IsCell-used, AreCells-split, used_cell, block_size-header, block_used-header,
}
use utamo_os.Heap.Live.{live, live-append, Unchanged}
use utamo_os.Heap.Release.{release-Unchanged}

pub exact_block-next :
    (a : Arena) (target fuel offset : ℕ)
    → offset < a.mapped_size
    → offset ≢ target
    → exact_block a target (suc fuel) offset
      ≡ exact_block a target fuel (offset + block_size (a.blocks offset))
unfolding exact_block
exact_block-next a target fuel offset below other =
    let e : ltb offset a.mapped_size ≡ true = ground arith in
    let e' : (offset == target) ≡ false = ground arith in rw (e, e', exact_block) refl

pub exact_block-here :
    (a : Arena) (target fuel : ℕ)
    → target < a.mapped_size
    → exact_block a target (suc fuel) target ≡ true
unfolding exact_block
exact_block-here a target fuel below =
    let e : ltb target a.mapped_size ≡ true = ground arith in
    let e' : (target == target) ≡ true = (==_iff target target).1 refl in
    rw (e, e', exact_block) refl

exact_block-end :
    (a : Arena) (target fuel offset : ℕ)
    → a.mapped_size ≤ offset
    → exact_block a target fuel offset ≡ false
unfolding exact_block
exact_block-end a target zero offset above = refl
exact_block-end a target (suc fuel) offset above =
    let e : ltb offset a.mapped_size ≡ false = ground arith in rw (e, exact_block) refl

exact_block-none : (a : Arena) (target offset : ℕ) → exact_block a target zero offset ≡ false
unfolding exact_block
exact_block-none a target offset = refl

-- A cell begins at the target.
abbrev pub BeginsAt : ℕ → ℕ → List Cell → Type 0
BeginsAt target from cs =
    (pre : List Cell) × ((c : Cell) × ((post : List Cell) × ((cs ≡ pre ++ c ∷ post)
          × (target ≡ from + total pre))))

-- The walk of exact_block finds the beginnings of the blocks only.
exact_block-BeginsAt :
    (a : Arena) (target from previous prior fuel : ℕ) (after_free : Bool) (cs : List Cell)
    → Segment a.blocks a.base from previous prior cs none_offset
    → AreCells after_free cs
    → from + total cs ≡ a.mapped_size
    → exact_block a target fuel from ≡ true
    → BeginsAt target from cs
exact_block-BeginsAt a target from previous prior fuel after_free [] s good ends e =
    let stop = exact_block-end a target fuel from (omega arith) in absurd (ground arith)
exact_block-BeginsAt a target from previous prior zero after_free (c ∷ cs) s good ends e =
    let stop = exact_block-none a target from in absurd (ground arith)
exact_block-BeginsAt a target from previous prior (suc fuel) after_free (c ∷ cs)
      (positive, at, rest) (good, apart, others) ends e =
    elim (Bool-cases (from == target)) [
      | inl here ↦ ([], (c, (cs, (refl, ground arith))))
      | inr other ↦
          let n = first_linked (from + c.size) cs none_offset in
          let size : block_size (a.blocks from) ≡ c.size =
            ap block_size at ∙ block_size-header a.base from previous prior n c good.aligned in
          let step : exact_block a target fuel (from + c.size) ≡ true =
            ap (λ s. exact_block a target fuel (from + s)) (sym size)
            ∙ sym (exact_block-next a target fuel from (omega arith) (λ h. ground arith))
            ∙ e in
          let (pre, (d, (post, (split, place)))) =
            exact_block-BeginsAt a target (from + c.size) c.size (if c.linked then from else prior)
              fuel (not c.used) cs rest others (omega arith) step in
          (c ∷ pre, (d, (post, (ap (λ t. c ∷ t) split, omega arith))))
    ]

-- The addresses that pointer_offset refuses without a walk
abbrev pub is_outside : Heap → ℕ → Bool
is_outside h address =
    ltb address h.arena.base
    || ltb (address - h.arena.base) header_size
    || leb h.arena.mapped_size (address - h.arena.base)
    || not (low_bits address 4 == 0)

abbrev pub is_used_block : Heap → ℕ → Bool
is_used_block h offset =
    exact_block h.arena offset h.arena.mapped_size 0 && block_used (h.arena.blocks offset)

pointer_offset-outside :
    (h : Heap) (address : ℕ) → is_outside h address ≡ true → pointer_offset h address ≡ none
unfolding pointer_offset
pointer_offset-outside h address e = rw (e, pointer_offset) refl

pub pointer_offset-inside :
    (h : Heap) (address : ℕ)
    → is_outside h address ≡ false
    → pointer_offset h address ≡ (
        if is_used_block h (address - h.arena.base - header_size)
        then some (address - h.arena.base - header_size)
        else none)
unfolding pointer_offset
pointer_offset-inside h address e = rw (e, pointer_offset) refl

abbrev pub Points : Heap → List Cell → ℕ → ℕ → Type 0
Points h cells pointer offset =
    (pointer ≡ h.arena.base + (offset + header_size))
    × (block_used (h.arena.blocks offset) ≡ true)
    × BeginsAt offset 0 cells

-- A pointer that is accepted is that of a used block.
pub pointer_offset-Points :
    (h : Heap) (cells : List Cell) (pointer : ℕ)
    → Holds h cells
    → IfSome (Points h cells pointer) (pointer_offset h pointer)
pointer_offset-Points h cells pointer holds =
    let offset = pointer - h.arena.base - header_size in
    elim (Bool-cases (is_outside h pointer)) [
      | inl outside ↦
          subst (IfSome (Points h cells pointer)) (sym (pointer_offset-outside h pointer outside))
            tt
      | inr inside ↦
          subst (IfSome (Points h cells pointer)) (sym (pointer_offset-inside h pointer inside)) (
            IfSome-when (Points h cells pointer) (is_used_block h offset) offset (λ accepted. (
              ground arith,
              ground arith,
              exact_block-BeginsAt h.arena offset 0 0 none_offset h.arena.mapped_size false cells
                  holds.described.holds holds.cells_in_order (omega (arith, holds.described.size))
                  (ground arith),
            )))
    ]

-- One fewer, which was at the pointer
abbrev pub Freed : ℕ → List (ℕ × ℕ) → ℕ → Heap → Type 0
Freed base allocations pointer h =
    (before after : List (ℕ × ℕ)) × (offset requested : ℕ) × ((pointer
        ≡ base + (offset + header_size))
      × ((allocations ≡ before ++ (offset, requested) ∷ after)
          × Unchanged base (before ++ after) h))

-- The same allocations if the pointer is refused or NULL, else one fewer
abbrev pub Frees : ℕ → List (ℕ × ℕ) → ℕ → Bool × Heap → Type 0
Frees base allocations pointer (false, h) = (pointer ≢ 0) × Unchanged base allocations h
Frees base allocations pointer (true, h) =
    ((pointer ≡ 0) × Unchanged base allocations h) ⊎ Freed base allocations pointer h

-- A block in use is where the pointer points.
pub Points-used_cell :
    (h : Heap) (cells : List Cell) (pointer offset : ℕ)
    → Holds h cells
    → Points h cells pointer offset
    → (pre : List Cell) × ((size : ℕ) × ((requested : ℕ) × ((post : List Cell) × ((cells
                ≡ pre ++ used_cell size requested ∷ post)
              × (offset ≡ total pre)))))
Points-used_cell h cells pointer offset holds (at, used, (pre, (c, (post, (e, place))))) =
    let o = total pre in
    let holds' = subst (Holds h) e holds in
    let (cell, _) = AreCells-split false pre c post holds'.cells_in_order in
    let placed = Described-Placed h.arena pre c post holds'.described in
    let here : offset ≡ o = omega arith in
    let is_used : c.used ≡ true =
      sym (
        ap block_used placed.at
        ∙ block_used-header h.arena.base o (last_size 0 pre) (last_linked 0 none_offset pre)
            (first_linked (o + c.size) post none_offset) c cell.aligned)
      ∙ ap (λ k. block_used (h.arena.blocks k)) (sym here)
      ∙ used in
    (
      pre,
      (
        c.size,
        (c.requested, (post, (e ∙ ap (λ d. pre ++ d ∷ post) (IsCell-used c cell is_used), here))),
      ),
    )

release-Freed :
    (h : Heap) (cells : List Cell) (pointer offset : ℕ)
    → Holds h cells
    → Points h cells pointer offset
    → Freed h.arena.base (live 0 cells) pointer (release h offset)
release-Freed h cells pointer offset holds points =
    let (pre, (size, (requested, (post, (e, here))))) =
      Points-used_cell h cells pointer offset holds points in
    let o = total pre in
    let listed : live 0 cells ≡ live 0 pre ++ (o, requested) ∷ live (o + size) post =
      ap (live 0) e ∙ live-append 0 o pre (used_cell size requested ∷ post) (omega arith) in
    subst (λ k. Freed h.arena.base (live 0 cells) pointer (release h k)) (sym here)
      (
        live 0 pre,
        live (o + size) post,
        o,
        requested,
        (
          points.0 ∙ ap (λ k. h.arena.base + (k + header_size)) here,
          (listed, release-Unchanged h pre size requested post (subst (Holds h) e holds)),
        ),
      )

-- The three answers of heap_core_free
pub heap_core_free-Frees :
    (h : Heap) (cells : List Cell) (pointer : ℕ)
    → Holds h cells
    → Frees h.arena.base (live 0 cells) pointer (heap_core_free h pointer)
unfolding heap_core_free
heap_core_free-Frees h cells pointer holds =
    let base = h.arena.base in
    let F = Frees base (live 0 cells) pointer in
    let counted = saturated h.invalid_frees in
    let refused : Unchanged base (live 0 cells) (record h { invalid_frees = counted }) =
      (cells, (rebuilt counted, (refl, refl))) in
    elim (Bool-cases (pointer == 0)) [
      | inl null ↦
          let step : heap_core_free h pointer ≡ (true, h) = rw (null, heap_core_free) refl in
          subst F (sym step) (inl ((==_iff pointer 0).0 null, (cells, (holds, (refl, refl)))))
      | inr address ↦ elim (Bool-cases (heap_core_validate h)) [
        | inr invalid ↦
            let step : heap_core_free h pointer ≡ (false, record h { invalid_frees = counted }) =
              rw (address, invalid, holds.context.0, heap_core_free) refl in
            subst F (sym step) ((λ e. ground arith), refused)
        | inl valid ↦ elim (Option-cases (pointer_offset h pointer)) [
          | inl nothing ↦
              let step : heap_core_free h pointer ≡ (false, record h { invalid_frees = counted }) =
                rw (address, valid, nothing, heap_core_free) refl in
              subst F (sym step) ((λ e. ground arith), refused)
          | inr (offset, found) ↦
              let step : heap_core_free h pointer ≡ (true, release h offset) =
                rw (address, valid, found, heap_core_free) refl in
              subst F (sym step) (
                inr (
                  release-Freed h cells pointer offset holds (
                    subst (IfSome (Points h cells pointer)) found
                      (pointer_offset-Points h cells pointer holds))))
        ]
      ]
    ]
  where
    rebuilt : (n : ℕ) → Holds (record h { invalid_frees = n }) cells
    rebuilt n = record {
      described = holds.described;
      cells_in_order = holds.cells_in_order;
      context = holds.context;
      used_bytes = holds.used_bytes;
      live_allocations = holds.live_allocations;
      peak_usage = holds.peak_usage;
    }
