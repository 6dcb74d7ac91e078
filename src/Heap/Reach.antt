-- ===== src/Heap/Reach.antt =====
-- The states that the operations of kernel/memory/heap_core.c lead to: after heap_core_init, calls
-- in any order, with any arguments and with any answers of ops.grow.
use utamo_os.Common.{ℕ, ◌≡◌, Bool, true, [], ◌∷◌, some, IfSome}
use mathlib.Core.Path.{subst}
use utamo_os.Heap.State.{Heap}
use utamo_os.Heap.Validate.{heap_core_validate}
use utamo_os.Heap.Run.{Grow, heap_core_init, heap_core_alloc, heap_core_calloc}
use utamo_os.Heap.Give.{heap_core_free, heap_core_realloc}
use utamo_os.Heap.Good.{free_cell, Holds}
use utamo_os.Heap.Live.{live}
use utamo_os.Heap.Allocate.{heap_core_alloc-Allocates}
use utamo_os.Heap.Free.{heap_core_free-Frees}
use utamo_os.Heap.Accepted.{heap_core_validate-Holds}
use utamo_os.Heap.Realloc.{InOrder, allocated-InOrder}
use utamo_os.Heap.Growing.{freed-InOrder, heap_core_realloc-InOrder}
use utamo_os.Heap.Init.{heap_core_init-Holds, heap_core_calloc-InOrder}

pub data Reach : Heap → Type 0 where
  by_init :
      (h : Heap) (base initial_size max_size growth_size : ℕ) (debug_poison : Bool) (g : Heap)
      → heap_core_init h base initial_size max_size growth_size debug_poison ≡ some g
      → Reach g
  by_alloc : (h : Heap) (grow : Grow) (size : ℕ) → Reach h → Reach (heap_core_alloc h grow size).1
  by_calloc :
      (h : Heap) (grow : Grow) (count size : ℕ)
      → Reach h
      → Reach (heap_core_calloc h grow count size).1
  by_realloc :
      (h : Heap) (grow : Grow) (pointer size : ℕ)
      → Reach h
      → Reach (heap_core_realloc h grow pointer size).1
  by_free : (h : Heap) (pointer : ℕ) → Reach h → Reach (heap_core_free h pointer).1

free-InOrder : (h : Heap) (pointer : ℕ) → InOrder h → InOrder (heap_core_free h pointer).1
free-InOrder h pointer (cells, holds) =
    freed-InOrder h.arena.base (live 0 cells) pointer (heap_core_free h pointer)
      (heap_core_free-Frees h cells pointer holds)

pub Reach-InOrder : (h : Heap) → Reach h → InOrder h
Reach-InOrder _ (by_init h base initial_size max_size growth_size debug_poison g e) = (
  free_cell initial_size true ∷ [],
  subst (IfSome (λ k. Holds k (free_cell initial_size true ∷ []))) e
      (heap_core_init-Holds h base initial_size max_size growth_size debug_poison),
)
Reach-InOrder _ (by_alloc h grow size r) =
    let (cells, holds) = Reach-InOrder h r in
    allocated-InOrder h.arena.base (live 0 cells) size (heap_core_alloc h grow size)
      (heap_core_alloc-Allocates h grow cells size holds)
Reach-InOrder _ (by_calloc h grow count size r) =
    heap_core_calloc-InOrder h grow count size (Reach-InOrder h r)
Reach-InOrder _ (by_realloc h grow pointer size r) =
    heap_core_realloc-InOrder h grow pointer size (Reach-InOrder h r)
Reach-InOrder _ (by_free h pointer r) = free-InOrder h pointer (Reach-InOrder h r)

-- After heap_core_init succeeds and any sequence of calls of heap_core_alloc, heap_core_calloc,
-- heap_core_realloc and heap_core_free, whatever ops.grow answers, the heap is in order: blocks of at least
-- 64 bytes fill the arena, with the sizes, boundary tags and cookies that belong there, no two free blocks
-- are neighbours, the free list has exactly the free blocks, in the order of their offsets, and the
-- counters of bytes and allocations are those of the used blocks; so heap_core_validate accepts it.
pub heap_core_validate-Reach : (h : Heap) → Reach h → InOrder h × (heap_core_validate h ≡ true)
heap_core_validate-Reach h r =
    let (cells, holds) = Reach-InOrder h r in
    ((cells, holds), heap_core_validate-Holds h cells holds)
