-- ===== src/Heap/Init.antt =====
-- heap_core_init and heap_core_calloc of kernel/memory/heap_core.c.
use utamo_os.Common.{
  ℕ, ◌*◌, ◌/◌, ◌-◌, List, false, ◌≤◌, ◌≡◌, inl, inr, refl, sym, Bool, true, ◌||◌, [], ◌∷◌, arith,
  ◌%◌, Bool-cases, ◌==◌, ltb, u64_max, Option, some, none, IfSome, IfSome-guard,
}
use mathlib.Core.Path.{subst}
use utamo_os.Heap.State.{Heap, header_size, write_block}
use utamo_os.Heap.Good.{IsCell, Holds, free_cell}
use utamo_os.Heap.Run.{
  Grow, heap_core_init, heap_core_alloc, zeroed_at, heap_core_calloc, failed_allocation,
}
use utamo_os.Heap.Allocate.{Allocates, heap_core_alloc-Allocates}
use utamo_os.Heap.Payload.{poison-Holds}
use utamo_os.Heap.Member.{Gained-write_memory}
use utamo_os.Heap.Live.{live}
use utamo_os.Heap.Realloc.{InOrder, failed-InOrder}

IsCell-whole : (size : ℕ) → 64 ≤ size → size % 16 ≡ 0 → IsCell (free_cell size true)
IsCell-whole size large aligned = record {
  large = large;
  aligned = aligned;
  listed = refl;
  in_use = λ e. absurd (ground arith);
  unused = λ e. refl;
}

abbrev initial_heap : Heap → ℕ → ℕ → ℕ → ℕ → Bool → Heap
initial_heap h base initial_size max_size growth_size debug_poison = record {
  arena =
      write_block
        (record { base = base; mapped_size = initial_size; free_head = 0; blocks = h.arena.blocks })
        0 initial_size 0 0 false;
  bytes = h.bytes;
  max_size = max_size;
  growth_size = growth_size;
  used_bytes = 0;
  live_allocations = 0;
  allocations = 0;
  frees = 0;
  peak_usage = 0;
  failed_allocations = 0;
  invalid_frees = 0;
  debug_poison = debug_poison;
  initialized = true;
}

-- One free block
pub heap_core_init-Holds :
    (h : Heap) (base initial_size max_size growth_size : ℕ) (debug_poison : Bool)
    → IfSome
        (λ g. Holds g (free_cell initial_size true ∷ []))
        (heap_core_init h base initial_size max_size growth_size debug_poison)
unfolding heap_core_init
heap_core_init-Holds h base initial_size max_size growth_size debug_poison =
    IfSome-guard (λ g. Holds g (free_cell initial_size true ∷ [])) _ _
      (λ accepted.
        let plain : Holds (initial_heap h base initial_size max_size growth_size debug_poison)
            (free_cell initial_size true ∷ []) =
          record {
            described = record {
              head = refl;
              size = omega arith;
              bounded = ground arith;
              holds = (ground arith, refl, tt);
            };
            cells_in_order =
                (IsCell-whole initial_size (ground arith) (ground arith), inr refl, tt);
            context = (
              refl,
              ground arith,
              ground arith,
              ground arith,
              ground arith,
              ground arith,
              ground arith,
              ground arith,
              ground arith,
              ground arith,
            );
            used_bytes = refl;
            live_allocations = refl;
            peak_usage = omega arith;
          } in
        poison-Holds (initial_heap h base initial_size max_size growth_size debug_poison) []
          (free_cell initial_size true) [] header_size (initial_size - header_size) 0xdd plain
          (omega arith) (ground arith))

-- The bytes that calloc clears are those of the allocation.
zeroed_at-InOrder :
    (base : ℕ) (allocations : List (ℕ × ℕ)) (bytes : ℕ) (r : Option ℕ × Heap)
    → Allocates base allocations bytes r
    → InOrder (zeroed_at bytes r).1
zeroed_at-InOrder base allocations bytes (none, h) (cells, (holds, _)) = (cells, holds)
zeroed_at-InOrder base allocations bytes (some p, h)
      (before, after, o, cells, (holds, (at, (was, (is, same))))) =
    (
      cells,
      Gained-write_memory base cells before after bytes o p bytes (λ i. 0) h holds at is same
          (omega arith),
    )

pub heap_core_calloc-InOrder :
    (h : Heap) (grow : Grow) (count size : ℕ)
    → InOrder h
    → InOrder (heap_core_calloc h grow count size).1
unfolding heap_core_calloc
heap_core_calloc-InOrder h grow count size (cells, holds) =
    elim (Bool-cases (count == 0 || size == 0)) [
      | inl nothing ↦
          let step : heap_core_calloc h grow count size ≡ (none, h) =
            rw (nothing, heap_core_calloc) refl in
          subst (λ r. InOrder r.1) (sym step) (cells, holds)
      | inr something ↦ elim (Bool-cases (ltb (u64_max / size) count)) [
        | inl large ↦
            let step : heap_core_calloc h grow count size ≡ (none, failed_allocation h) =
              rw (something, large, heap_core_calloc) refl in
            subst (λ r. InOrder r.1) (sym step) (failed-InOrder h (cells, holds))
        | inr fits ↦
            let step : heap_core_calloc h grow count size
                ≡ zeroed_at (count * size) (heap_core_alloc h grow (count * size)) =
              rw (something, fits, heap_core_calloc) refl in
            subst (λ r. InOrder r.1) (sym step)
              (zeroed_at-InOrder h.arena.base (live 0 cells) (count * size)
                (heap_core_alloc h grow (count * size))
                (heap_core_alloc-Allocates h grow cells (count * size) holds))
      ]
    ]
