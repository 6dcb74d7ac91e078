-- ===== src/Heap/Realloc.antt =====
-- The parts of heap_core_realloc of kernel/memory/heap_core.c on a heap in order.
use utamo_os.Common.{
  ℕ, ◌+◌, ◌-◌, ◌%◌, ◌≤◌, ◌≡◌, inl, inr, refl, sym, ap, ◌∙◌, false, List, ◌∷◌, ◌++◌, arith,
  Bool-cases, leb, leb→le, Option, some, none, Option-cases, IfSome, min,
}
use mathlib.Core.Path.{subst}
use utamo_os.Heap.State.{Arena, Heap, none_offset, header_size, block_size, copy}
use utamo_os.Heap.Segment.{Cell, total, first_linked, last_linked, last_size}
use utamo_os.Heap.Run.{failed_allocation}
use utamo_os.Heap.Give.{resize_block, consume_next, resize_here, move_to, moved, release}
use utamo_os.Heap.Unlink.{Described-Placed}
use utamo_os.Heap.Good.{Holds, AreCells-split, used_cell, block_size-header}
use utamo_os.Heap.Take.{trimmed}
use utamo_os.Heap.Live.{live, live-append}
use utamo_os.Heap.Allocate.{Allocates, Gained, failed_allocation-Unchanged}
use utamo_os.Heap.Release.{release-Unchanged}
use utamo_os.Heap.Member.{
  UsedAt, Member, Member-middle, Member-insert, Member-UsedAt, Gained-write_memory,
}
use utamo_os.Heap.Resize.{resize_block-Holds, Widened, consume_next-Widened}

abbrev pub InOrder : Heap → Type 0
InOrder h = (cells : List Cell) × Holds h cells

pub release-InOrder : (h : Heap) (offset : ℕ) → UsedAt h offset → InOrder (release h offset)
release-InOrder h offset (pre, (size, (old, (post, (holds, at))))) =
    let (cells, (holds', _)) = release-Unchanged h pre size old post holds in
    subst (λ k. InOrder (release h k)) (sym at) (cells, holds')

resize_block-InOrder :
    (h : Heap) (pre : List Cell) (size old requested needed : ℕ) (post : List Cell)
    → Holds h (pre ++ used_cell size old ∷ post)
    → needed ≤ size
    → needed % 16 ≡ 0
    → 1 ≤ requested
    → requested + 48 ≤ needed
    → InOrder (resize_block h (total pre) requested needed)
resize_block-InOrder h pre size old requested needed post holds fits aligned some_requested room = (
  pre ++ trimmed size needed requested post,
  resize_block-Holds h pre size old requested needed post holds fits aligned some_requested room,
)

module _ (size needed : ℕ) (aligned : needed % 16 ≡ 0) (some_size : 1 ≤ size)
    (room : size + 48 ≤ needed) where
  Widened-InOrder :
      (h : Heap) (pre : List Cell) (old : ℕ) (r : Option Arena)
      → IfSome (Widened h pre 0 old needed) r
      → IfSome (λ a. InOrder (resize_block (record h { arena = a }) (total pre) size needed)) r
  Widened-InOrder h pre old none w = tt
  Widened-InOrder h pre old (some a) (combined, (rest, (holds, fits))) =
      resize_block-InOrder (record h { arena = a }) pre combined old size needed rest holds fits
        aligned some_size room

  pub consumed-InOrder :
      (h : Heap) (pre : List Cell) (s old : ℕ) (post : List Cell)
      → Holds h (pre ++ used_cell s old ∷ post)
      → IfSome
          (λ a. InOrder (resize_block (record h { arena = a }) (total pre) size needed))
          (consume_next h.arena (total pre) needed)
  consumed-InOrder h pre s old post holds =
      Widened-InOrder h pre old (consume_next h.arena (total pre) needed)
        (consume_next-Widened h pre s old needed post holds)

  reads :
      (h : Heap) (pre : List Cell) (s old : ℕ) (post : List Cell)
      → Holds h (pre ++ used_cell s old ∷ post)
      → block_size (h.arena.blocks (total pre)) ≡ s
  reads h pre s old post holds =
      let c = used_cell s old in
      let (cell, _) = AreCells-split false pre c post holds.cells_in_order in
      ap block_size (Described-Placed h.arena pre c post holds.described).at
      ∙ block_size-header h.arena.base (total pre) (last_size 0 pre) (last_linked 0 none_offset pre)
          (first_linked (total pre + s) post none_offset) c cell.aligned

  pub resize_here-InOrder :
      (h : Heap) (offset : ℕ) → UsedAt h offset → IfSome InOrder (resize_here h offset size needed)
  unfolding resize_here
  resize_here-InOrder h offset (pre, (s, (old, (post, (holds, at))))) =
      subst (λ k. IfSome InOrder (resize_here h k size needed)) (sym at)
        (elim (Bool-cases (leb needed (block_size (h.arena.blocks (total pre))))) [
          | inl fits ↦
              let step : resize_here h (total pre) size needed
                  ≡ some (resize_block h (total pre) size needed) =
                rw (fits, resize_here) refl in
              let read = reads h pre s old post holds in
              subst (IfSome InOrder) (sym step) (
                resize_block-InOrder h pre s old size needed post holds
                  (omega
                    (arith, leb→le needed (block_size (h.arena.blocks (total pre))) fits, read))
                  aligned some_size room)
          | inr short ↦
              let read = reads h pre s old post holds in
              let consumed = consumed-InOrder h pre s old post holds in
              elim (Option-cases (consume_next h.arena (total pre) needed)) [
                | inl nothing ↦
                    let step : resize_here h (total pre) size needed ≡ none =
                      rw (short, nothing, resize_here) refl in
                    subst (IfSome InOrder) (sym step) tt
                | inr (a, e) ↦
                    let step : resize_here h (total pre) size needed
                        ≡ some (resize_block (record h { arena = a }) (total pre) size needed) =
                      rw (short, e, resize_here) refl in
                    subst (IfSome InOrder) (sym step) (
                      subst
                        (IfSome (λ a'.
                          InOrder (resize_block (record h { arena = a' }) (total pre) size needed)))
                        e consumed)
              ]
        ])

min-right : (a b : ℕ) → min a b ≤ b
min-right a b = ground arith

-- The bytes that fit are copied into the replacement, and the old block is given back.
pub move_to-InOrder :
    (base : ℕ) (allocations : List (ℕ × ℕ)) (size offset old replacement : ℕ) (g : Heap)
    → Member (offset, old) allocations
    → Gained base allocations size replacement g
    → InOrder (move_to g offset size replacement).1
unfolding move_to
move_to-InOrder base allocations size offset old replacement g m
      (before, after, o, cells, (holds, (at, (was, (is, same))))) =
    let kept = min (g.arena.blocks offset).requested size in
    let copied = copy g (replacement - g.arena.base) (offset + header_size) kept in
    release-InOrder copied offset (
      Member-UsedAt copied cells offset old
        (Gained-write_memory base cells before after size o replacement kept
          (λ i. g.bytes (offset + header_size + (i - (replacement - g.arena.base)))) g holds at is
          same (min-right (g.arena.blocks offset).requested size))
        (subst (Member (offset, old)) (sym is) (
          Member-insert (offset, old) (o, size) before after (subst (Member (offset, old)) was m))))

pub failed-InOrder : (h : Heap) → InOrder h → InOrder (failed_allocation h)
failed-InOrder h (cells, holds) =
    let (cells', (holds', _)) =
      failed_allocation-Unchanged h h.arena.base (live 0 cells) (cells, (holds, (refl, refl))) in
    (cells', holds')

pub UsedAt-Member :
    (h : Heap) (offset : ℕ)
    → UsedAt h offset
    → (cells : List Cell) × (Holds h cells × ((old : ℕ) × Member (offset, old) (live 0 cells)))
UsedAt-Member h offset (pre, (s, (old, (post, (holds, at))))) =
    let listed = live-append 0 (total pre) pre (used_cell s old ∷ post) (omega arith) in
    (
      pre ++ used_cell s old ∷ post,
      (
        holds,
        (
          old,
          subst (Member (offset, old)) (sym listed) (
              subst
                (λ k. Member (k, old) (live 0 pre ++ (total pre, old) ∷ live (total pre + s) post))
                (sym at) (Member-middle (total pre, old) (live 0 pre) (live (total pre + s) post))),
        ),
      ),
    )

pub moved-InOrder :
    (base : ℕ) (allocations : List (ℕ × ℕ)) (size offset old : ℕ) (r : Option ℕ × Heap)
    → Member (offset, old) allocations
    → Allocates base allocations size r
    → InOrder (moved offset size r).1
moved-InOrder base allocations size offset old (none, g) m (cells, (holds, _)) =
    failed-InOrder g (cells, holds)
moved-InOrder base allocations size offset old (some p, g) m gained =
    move_to-InOrder base allocations size offset old p g m gained

pub allocated-InOrder :
    (base : ℕ) (allocations : List (ℕ × ℕ)) (size : ℕ) (r : Option ℕ × Heap)
    → Allocates base allocations size r
    → InOrder r.1
allocated-InOrder base allocations size (none, g) (cells, (holds, _)) = (cells, holds)
allocated-InOrder base allocations size (some p, g) (before, after, o, cells, (holds, _)) =
    (cells, holds)
