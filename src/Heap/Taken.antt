-- ===== src/Heap/Taken.antt =====
-- take_block, the part of `allocate` in kernel/memory/heap_core.c that takes the free block it found.
use utamo_os.Common.{
  ℕ, ◌+◌, ◌-◌, ◌%◌, ◌≤◌, ◌≡◌, refl, sym, ap, ◌∙◌, true, false, List, ◌∷◌, ◌++◌, arith, add64, max,
}
use mathlib.Core.Path.{subst}
use utamo_os.Heap.State.{Heap, block_size, saturated}
use utamo_os.Heap.Segment.{Cell, total}
use utamo_os.Heap.Blocks.{remove_free}
use utamo_os.Heap.Run.{take_block}
use utamo_os.Heap.Unlink.{remove_free-Described}
use utamo_os.Heap.Good.{
  AreCells, Holds, used_cell, free_cell, AreCells-split, AreCells-replace, AreCells-weaken,
  requested_sum, requested_sum-append, used_count, used_count-append,
}
use utamo_os.Heap.Kept.{Kept-trans, remove_free-Kept}
use utamo_os.Heap.State.{header_size, poison}
use utamo_os.Heap.Run.{trim_block}
use utamo_os.Heap.Take.{
  trimmed, trimmed_arena-Described, marked, marked-Described, trimmed-AreCells, trimmed-sums,
  Holds-rearranged, requested_sum-le, used_count-le,
}
use utamo_os.Heap.Payload.{Described-block_size, poison-Kept, payload-Holds}
use utamo_os.Heap.Poisoned.{
  trim_block-Rewrites, trim_block-Kept, trim_block-Described, trimmed-cons,
}

-- What take_block poisons at last
abbrev counted_heap : Heap → ℕ → ℕ → ℕ → Heap
counted_heap h o requested needed =
    record (trim_block (record h { arena = marked (remove_free h.arena o) o requested }) o needed) {
      used_bytes = add64 h.used_bytes requested;
      live_allocations = add64 h.live_allocations 1;
      allocations = saturated h.allocations;
      peak_usage = max h.peak_usage (add64 h.used_bytes requested);
    }

counted_heap-fields :
    (h : Heap) (o requested needed : ℕ)
    → let t =
        trim_block (record h { arena = marked (remove_free h.arena o) o requested }) o needed in
      counted_heap h o requested needed ≡ record h {
        arena = t.arena;
        used_bytes = add64 h.used_bytes requested;
        live_allocations = add64 h.live_allocations 1;
        allocations = saturated h.allocations;
        peak_usage = max h.peak_usage (add64 h.used_bytes requested);
        bytes = t.bytes;
      }
counted_heap-fields h o requested needed =
    ap {A = Heap} {B = Heap}
      (λ t. record t {
        used_bytes = add64 h.used_bytes requested;
        live_allocations = add64 h.live_allocations 1;
        allocations = saturated h.allocations;
        peak_usage = max h.peak_usage (add64 h.used_bytes requested);
      })
      (trim_block-Rewrites (record h { arena = marked (remove_free h.arena o) o requested }) o
        needed)

take_block-poison :
    (h : Heap) (o requested needed : ℕ)
    → (take_block h o requested needed).1
      ≡ poison
          (counted_heap h o requested needed)
          (o + header_size)
          (block_size ((counted_heap h o requested needed).arena.blocks o) - header_size)
          0xcd
unfolding take_block
take_block-poison h o requested needed = refl

pub take_block-base :
    (h : Heap) (o requested needed : ℕ)
    → (take_block h o requested needed).1.arena.base ≡ h.arena.base
take_block-base h o requested needed =
    let taken : Heap = record h { arena = marked (remove_free h.arena o) o requested } in
    let counted = counted_heap h o requested needed in
    ap {A = Heap} (λ g. g.arena.base) (take_block-poison h o requested needed)
    ∙ (poison-Kept counted (o + header_size) (block_size (counted.arena.blocks o) - header_size)
        0xcd).0
    ∙ (trim_block-Kept taken o needed).0
    ∙ (remove_free-Kept h.arena o).0

-- The free block that `allocate` found is taken, and its tail given back.
pub take_block-Holds :
    (h : Heap) (pre : List Cell) (size requested needed : ℕ) (post : List Cell)
    → Holds h (pre ++ free_cell size true ∷ post)
    → needed ≤ size
    → needed % 16 ≡ 0
    → 1 ≤ requested
    → requested + 48 ≤ needed
    → Holds
        (take_block h (total pre) requested needed).1
        (pre ++ trimmed size needed requested post)
take_block-Holds h pre size requested needed post holds fits aligned some_requested room =
    let o = total pre in
    let cells = pre ++ free_cell size true ∷ post in
    let cells' = pre ++ trimmed size needed requested post in
    let (cell, after) = AreCells-split false pre (free_cell size true) post holds.cells_in_order in
    let later = AreCells-weaken false post after in
    let size_aligned = cell.aligned in
    let removed =
      remove_free-Described h.arena pre (free_cell size true) post holds.described refl in
    let used = marked-Described (remove_free h.arena o) pre size requested post removed in
    let taken : Heap = record h { arena = marked (remove_free h.arena o) o requested } in
    let dry =
      trimmed_arena-Described taken.arena pre size requested needed post used size_aligned later
        (omega arith) in
    let good : AreCells false cells' =
      AreCells-replace false pre (free_cell size true ∷ post) (trimmed size needed requested post)
        (λ b g.
          trimmed-AreCells size needed requested post b size_aligned aligned fits some_requested
            room later)
        holds.cells_in_order in
    let reads =
      Described-block_size taken.arena pre (used_cell size requested) post used size_aligned in
    let described = trim_block-Described taken pre size requested needed post reads dry good in
    let (sum, count) = trimmed-sums size needed requested post later in
    let trimmed_heap = trim_block taken o needed in
    let kept =
      Kept-trans h.arena (remove_free h.arena o) trimmed_heap.arena (remove_free-Kept h.arena o)
        (trim_block-Kept taken o needed) in
    let bounded = described.bounded in
    let mapped = described.size in
    let total_sum : requested_sum cells' ≡ h.used_bytes + requested = omega (
      arith,
      requested_sum-append pre (trimmed size needed requested post),
      requested_sum-append pre (free_cell size true ∷ post),
      holds.used_bytes,
    ) in
    let total_count : used_count cells' ≡ h.live_allocations + 1 = omega (
      arith,
      used_count-append pre (trimmed size needed requested post),
      used_count-append pre (free_cell size true ∷ post),
      holds.live_allocations,
    ) in
    let limit = requested_sum-le false cells' good in
    let limit' = used_count-le false cells' good in
    let counted_holds : Holds (counted_heap h o requested needed) cells' =
      subst (λ g. Holds g cells') (sym (counted_heap-fields h o requested needed))
        (Holds-rearranged h cells cells' trimmed_heap.arena
          (record h {
            arena = trimmed_heap.arena;
            used_bytes = add64 h.used_bytes requested;
            live_allocations = add64 h.live_allocations 1;
            allocations = saturated h.allocations;
            peak_usage = max h.peak_usage (add64 h.used_bytes requested);
            bytes = trimmed_heap.bytes;
          })
          holds refl described kept good (refl, refl, refl) (omega arith) (omega arith)
          (omega arith)) in
    let (c, (cs, (e, _, _))) = trimmed-cons size needed requested post in
    let e' = ap (λ t. pre ++ t) e in
    subst (λ g. Holds g cells') (sym (take_block-poison h o requested needed))
      (subst (Holds _) (sym e') (
        payload-Holds (counted_heap h o requested needed) pre c cs 0xcd
          (subst (Holds (counted_heap h o requested needed)) e' counted_holds)))
