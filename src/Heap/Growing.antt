-- ===== src/Heap/Growing.antt =====
-- heap_core_realloc of kernel/memory/heap_core.c, with its growth and its moves.
use utamo_os.Common.{
  ℕ, ◌+◌, ◌-◌, ◌%◌, ◌≤◌, ◌≡◌, ◌≢◌, inl, inr, refl, sym, Bool, true, false, List, ◌∷◌, ◌++◌, arith,
  Bool-cases, ◌==◌, Option, some, none, Option-cases, IfSome,
}
use mathlib.Core.Path.{subst}
use utamo_os.Heap.State.{Arena, Heap, header_size, block_size}
use utamo_os.Heap.Segment.{Cell}
use utamo_os.Heap.Run.{
  Grow, grow_heap, pointer_offset, allocate, checked_size, heap_core_alloc, failed_allocation,
}
use utamo_os.Heap.Give.{
  resize_block, consume_next, resize_here, moved, at_tail, realloc_growing, or_growing,
  realloc_block, heap_core_realloc, heap_core_free, consumed,
}
use utamo_os.Heap.Good.{Holds, used_cell}
use utamo_os.Heap.Live.{live, Unchanged}
use utamo_os.Heap.Allocate.{
  Allocates, allocate-Allocates, checked_size-rounds, heap_core_alloc-Allocates,
}
use utamo_os.Heap.Grow.{grow_heap-Holds}
use utamo_os.Heap.Free.{
  Points-used_cell, Points, pointer_offset-Points, Frees, heap_core_free-Frees,
}
use utamo_os.Heap.Member.{UsedAt, Member, Member-UsedAt}
use utamo_os.Heap.Realloc.{
  InOrder, UsedAt-Member, resize_here-InOrder, consumed-InOrder, move_to-InOrder, failed-InOrder,
  moved-InOrder, allocated-InOrder,
}

module _ (size needed : ℕ) (aligned : needed % 16 ≡ 0) (some_size : 1 ≤ size)
    (room : size + 48 ≤ needed) where
  -- The block at the end takes what growth gave.
  grown-InOrder :
      (g : Heap) (offset pointer : ℕ)
      → UsedAt g offset
      → InOrder (consumed g pointer offset size needed (consume_next g.arena offset needed)).1
  grown-InOrder g offset pointer (pre, (s, (old, (post, (holds, at))))) =
      let resized : IfSome (λ a. InOrder (resize_block (record g { arena = a }) offset size needed))
          (consume_next g.arena offset needed) =
        subst
          (λ k.
            IfSome (λ a. InOrder (resize_block (record g { arena = a }) k size needed))
              (consume_next g.arena k needed))
          (sym at) (consumed-InOrder size needed aligned some_size room g pre s old post holds) in
      pick (consume_next g.arena offset needed) resized
    where
      pick :
          (r : Option Arena)
          → IfSome (λ a. InOrder (resize_block (record g { arena = a }) offset size needed)) r
          → InOrder (consumed g pointer offset size needed r).1
      pick none i = failed-InOrder g (pre ++ used_cell s old ∷ post, holds)
      pick (some a) i = i

  realloc_growing-InOrder :
      (h : Heap) (grow : Grow) (offset : ℕ)
      → UsedAt h offset
      → InOrder (realloc_growing h grow offset size needed).1
  unfolding realloc_growing
  realloc_growing-InOrder h grow offset used =
      let (cells, (holds, (old, m))) = UsedAt-Member h offset used in
      let current = block_size (h.arena.blocks offset) in
      elim (Bool-cases (at_tail h.arena (offset + current))) [
        | inr inner ↦
            let step : realloc_growing h grow offset size needed
                ≡ moved offset size (allocate h grow size needed true) =
              rw (inner, realloc_growing) refl in
            subst (λ r. InOrder r.1) (sym step)
              (moved-InOrder h.arena.base (live 0 cells) size offset old
                (allocate h grow size needed true) m
                (allocate-Allocates h grow cells size needed true holds aligned some_size room))
        | inl last ↦ elim (Option-cases (grow_heap h grow (needed - current))) [
          | inl nothing ↦
              let step : realloc_growing h grow offset size needed ≡ (none, failed_allocation h) =
                rw (last, nothing, realloc_growing) refl in
              subst (λ r. InOrder r.1) (sym step) (failed-InOrder h (cells, holds))
          | inr (g, e) ↦
              let step : realloc_growing h grow offset size needed
                  ≡ consumed g (h.arena.base + offset + header_size) offset size needed
                      (consume_next g.arena offset needed) =
                rw (last, e, realloc_growing) refl in
              let (cells', (holds', (same, _))) : Unchanged h.arena.base (live 0 cells) g =
                subst (IfSome (Unchanged h.arena.base (live 0 cells))) e
                  (grow_heap-Holds h grow (needed - current) cells holds) in
              subst (λ r. InOrder r.1) (sym step)
                (grown-InOrder g offset (h.arena.base + offset + header_size) (
                  Member-UsedAt g cells' offset old holds'
                    (subst (Member (offset, old)) (sym same) m)))
        ]
      ]

  or_growing-InOrder :
      (h : Heap) (grow : Grow) (offset : ℕ) (r : Option ℕ × Heap)
      → UsedAt h offset
      → ((cells : List Cell) × (Holds h cells
            × ((old : ℕ) × (Member (offset, old) (live 0 cells)
                  × Allocates h.arena.base (live 0 cells) size r))))
      → InOrder (or_growing h grow offset size needed r).1
  or_growing-InOrder h grow offset (none, g) used _ = realloc_growing-InOrder h grow offset used
  or_growing-InOrder h grow offset (some p, g) used (cells, (holds, (old, (m, gained)))) =
      move_to-InOrder h.arena.base (live 0 cells) size offset old p g m gained

  realloc_block-InOrder :
      (h : Heap) (grow : Grow) (offset : ℕ)
      → UsedAt h offset
      → InOrder (realloc_block h grow offset size needed).1
  unfolding realloc_block
  realloc_block-InOrder h grow offset used =
      let (cells, (holds, (old, m))) = UsedAt-Member h offset used in
      let here = resize_here-InOrder size needed aligned some_size room h offset used in
      elim (Option-cases (resize_here h offset size needed)) [
        | inl nothing ↦
            let step : realloc_block h grow offset size needed
                ≡ or_growing h grow offset size needed (allocate h grow size needed false) =
              rw (nothing, realloc_block) refl in
            subst (λ r. InOrder r.1) (sym step)
              (or_growing-InOrder h grow offset (allocate h grow size needed false) used (
                cells,
                (
                  holds,
                  (
                    old,
                    (
                      m,
                      allocate-Allocates h grow cells size needed false holds aligned some_size
                          room,
                    ),
                  ),
                ),
              ))
        | inr (resized, e) ↦
            let step : realloc_block h grow offset size needed
                ≡ (some (h.arena.base + offset + header_size), resized) =
              rw (e, realloc_block) refl in
            subst (λ r. InOrder r.1) (sym step) (subst (IfSome InOrder) e here)
      ]

not_zero : (size : ℕ) → (size == 0) ≡ false → (size ≢ 0) × (1 ≤ size)
not_zero size e = ((λ z. ground arith), ground arith)

-- Whichever branch a free takes
pub freed-InOrder :
    (base : ℕ) (allocations : List (ℕ × ℕ)) (pointer : ℕ) (r : Bool × Heap)
    → Frees base allocations pointer r
    → InOrder r.1
freed-InOrder base allocations pointer (false, g) (address, (cells, (holds, _))) = (cells, holds)
freed-InOrder base allocations pointer (true, g) (inl (null, (cells, (holds, _)))) = (cells, holds)
freed-InOrder base allocations pointer (true, g)
      (inr (before, after, offset, requested, (at, (was, (cells, (holds, _)))))) =
    (cells, holds)

pub heap_core_realloc-InOrder :
    (h : Heap) (grow : Grow) (pointer size : ℕ)
    → InOrder h
    → InOrder (heap_core_realloc h grow pointer size).1
unfolding heap_core_realloc
heap_core_realloc-InOrder h grow pointer size (cells, holds) =
    let P : Option ℕ × Heap → Type 0 = λ r. InOrder r.1 in
    elim (Bool-cases (pointer == 0)) [
      | inl null ↦
          let step : heap_core_realloc h grow pointer size ≡ heap_core_alloc h grow size =
            rw (null, heap_core_realloc) refl in
          subst P (sym step) (
            allocated-InOrder h.arena.base (live 0 cells) size (heap_core_alloc h grow size)
              (heap_core_alloc-Allocates h grow cells size holds))
      | inr address ↦ elim (Bool-cases (size == 0)) [
        | inl nothing ↦
            let step : heap_core_realloc h grow pointer size
                ≡ (none, (heap_core_free h pointer).1) =
              rw (address, nothing, heap_core_realloc) refl in
            subst P (sym step) (
              freed-InOrder h.arena.base (live 0 cells) pointer (heap_core_free h pointer)
                (heap_core_free-Frees h cells pointer holds))
        | inr something ↦ elim (Option-cases (checked_size h size)) [
          | inl refused ↦
              let step : heap_core_realloc h grow pointer size ≡ (none, failed_allocation h) =
                rw (address, something, refused, heap_core_realloc) refl in
              subst P (sym step) (failed-InOrder h (cells, holds))
          | inr (needed, accepted) ↦ elim (Option-cases (pointer_offset h pointer)) [
            | inl nowhere ↦
                let step : heap_core_realloc h grow pointer size ≡ (none, failed_allocation h) =
                  rw (address, something, accepted, nowhere, heap_core_realloc) refl in
                subst P (sym step) (failed-InOrder h (cells, holds))
            | inr (offset, found) ↦
                let step : heap_core_realloc h grow pointer size
                    ≡ realloc_block h grow offset size needed =
                  rw (address, something, accepted, found, heap_core_realloc) refl in
                let (aligned, room) =
                  checked_size-rounds h size needed accepted (not_zero size something).0 in
                let points =
                  subst (IfSome (Points h cells pointer)) found
                    (pointer_offset-Points h cells pointer holds) in
                let (pre, (s, (old, (post, (e, at))))) =
                  Points-used_cell h cells pointer offset holds points in
                subst P (sym step) (
                  realloc_block-InOrder size needed aligned (not_zero size something).1 room h grow
                    offset (pre, (s, (old, (post, (subst (Holds h) e holds, at))))))
          ]
        ]
      ]
    ]
