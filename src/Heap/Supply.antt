-- ===== src/Heap/Supply.antt =====
-- heap_core_alloc of kernel/memory/heap_core.c: when it must not return NULL.
use utamo_os.Common.{
  ℕ, ◌+◌, ◌-◌, ◌≤◌, ◌<◌, ◌≡◌, ◌≢◌, ◌⊎◌, inl, inr, refl, sym, ap, ◌∙◌, Bool, true, false, ◌&&◌, ◌||◌,
  List, ◌∷◌, arith, if◌then◌else◌, Bool-cases, ◌==◌, ltb, Option, some, none, clear_low, u64_max,
}
use mathlib.Core.Path.{subst}
use utamo_os.Heap.State.{Heap, none_offset, header_size}
use utamo_os.Heap.Segment.{Cell, total}
use utamo_os.Heap.Cut.{total-append}
use utamo_os.Heap.Good.{Holds, AreCells-split}
use utamo_os.Heap.Fit.{Found, NotFound, has_room}
use utamo_os.Heap.Run.{
  Grow, take_block, fit_of, allocate_at, allocate, required_size, or_failed, checked_size,
  heap_core_alloc,
}
use utamo_os.Heap.Live.{live}
use utamo_os.Heap.Accepted.{heap_core_validate-Holds}
use utamo_os.Heap.Allocate.{Allocates, fit_of-Found, take_block-pointer, heap_core_alloc-Allocates}

abbrev pub is_pointer : Option ℕ → Bool
is_pointer none = false
is_pointer (some p) = true

-- The free block for which there is room is found.
fit_of-room :
    (h : Heap) (cells : List Cell) (needed : ℕ)
    → Holds h cells
    → has_room needed cells ≡ true
    → (fit_of h needed == none_offset) ≡ false
fit_of-room h cells needed holds room = at (fit_of-Found h cells needed holds)
  where
    at :
        NotFound needed cells (fit_of h needed) ⊎ Found needed 0 cells (fit_of h needed)
        → (fit_of h needed == none_offset) ≡ false
    at (inl (e, none_fits)) = absurd (ground arith)
    at (inr (pre, c, post, (e, place, free, fits))) =
        let d = holds.described in
        let bounded = d.bounded in
        let cell = (AreCells-split false pre c post (subst (Holds h) e holds).cells_in_order).0 in
        let large = cell.large in
        let whole : total pre + (c.size + total post) ≡ h.arena.mapped_size =
          sym (total-append pre (c ∷ post)) ∙ ap total (sym e) ∙ d.size in
        let below : fit_of h needed < none_offset = omega arith in ground arith

allocate-room :
    (h : Heap) (grow : Grow) (cells : List Cell) (size needed : ℕ)
    → Holds h cells
    → has_room needed cells ≡ true
    → is_pointer (or_failed (allocate h grow size needed true)).0 ≡ true
unfolding allocate
allocate-room h grow cells size needed holds room =
    let found = fit_of-room h cells needed holds room in
    let direct : (fit_of h needed == none_offset && true) ≡ false = ground arith in
    let step : allocate h grow size needed true ≡ take_block h (fit_of h needed) size needed =
      rw (direct, found, allocate, allocate_at) refl in
    subst (λ r. is_pointer (or_failed r).0 ≡ true) (sym step)
      (taken (take_block h (fit_of h needed) size needed)
        (take_block-pointer h (fit_of h needed) size needed))
  where
    taken :
        (r : Option ℕ × Heap)
        → r.0 ≡ some (h.arena.base + (fit_of h needed + header_size))
        → is_pointer (or_failed r).0 ≡ true
    taken (none, g) e = ap is_pointer e
    taken (some p, g) e = refl

required_size-room :
    (size : ℕ)
    → size ≢ 0
    → size + 63 ≤ u64_max
    → required_size size ≡ some (clear_low (size + 63) 4)
unfolding required_size
required_size-room size some_size small =
    let e : (size == 0 || ltb (u64_max - (header_size + 15)) size) ≡ false = ground arith in
    rw (e, required_size) refl

heap_core_alloc-room :
    (h : Heap) (grow : Grow) (cells : List Cell) (size : ℕ)
    → Holds h cells
    → size ≢ 0
    → size + 63 ≤ u64_max
    → has_room (clear_low (size + 63) 4) cells ≡ true
    → is_pointer (heap_core_alloc h grow size).0 ≡ true
unfolding heap_core_alloc
heap_core_alloc-room h grow cells size holds some_size small room =
    let something : (size == 0) ≡ false = ground arith in
    let accepted : checked_size h size ≡ some (clear_low (size + 63) 4) =
      ap (λ b. if b then required_size size else none) (heap_core_validate-Holds h cells holds)
      ∙ required_size-room size some_size small in
    let step : heap_core_alloc h grow size
        ≡ or_failed (allocate h grow size (clear_low (size + 63) 4) true) =
      rw (something, accepted, heap_core_alloc) refl in
    subst (λ r. is_pointer r.0 ≡ true) (sym step)
      (allocate-room h grow cells size (clear_low (size + 63) 4) holds room)

-- On a heap in order, heap_core_alloc of 1 to 2^64 - 64 bytes leaves a heap in order: with one more allocation,
-- of the bytes that were asked for, at the pointer that it returns, or with the same allocations if it returns
-- NULL, which it does only if no free block holds them with a header, rounded up to 16 bytes.
pub heap_core_alloc-Supplies :
    (h : Heap) (grow : Grow) (cells : List Cell) (size : ℕ)
    → Holds h cells
    → size ≢ 0
    → size + 63 ≤ u64_max
    → ((is_pointer (heap_core_alloc h grow size).0 ≡ true)
        ⊎ (has_room (clear_low (size + 63) 4) cells ≡ false))
      × Allocates h.arena.base (live 0 cells) size (heap_core_alloc h grow size)
heap_core_alloc-Supplies h grow cells size holds some_size small = (
  elim (Bool-cases (has_room (clear_low (size + 63) 4) cells)) [
    | inl room ↦ inl (heap_core_alloc-room h grow cells size holds some_size small room)
    | inr full ↦ inr full
  ],
  heap_core_alloc-Allocates h grow cells size holds,
)
