-- ===== src/Heap/Tests.antt =====
-- Heap of kernel/memory/heap_core.c on concrete inputs.
use utamo_os.Common.{
  ℕ, ◌≡◌, refl, true, false, [], ◌∷◌, Option, none, some, IfSome, ◌⊎◌, ◌==◌, ◌||◌, ◌+◌, arith,
  clear_low,
}
use mathlib.Core.Path.{subst}
use utamo_os.Heap.Init.{heap_core_init-Holds}
use utamo_os.Heap.Stats.{HeapStats, heap_core_get_stats}
use utamo_os.Heap.State.{Block, Arena, Heap}
use utamo_os.Heap.Validate.{heap_core_validate}
use utamo_os.Heap.Run.{Grow, heap_core_init, heap_core_alloc}
use utamo_os.Heap.Give.{heap_core_free, heap_core_realloc}
use utamo_os.Heap.Good.{Holds, free_cell}
use utamo_os.Heap.Live.{live}
use utamo_os.Heap.Allocate.{Allocates}
use utamo_os.Heap.Free.{Frees}
use utamo_os.Heap.Supply.{is_pointer, heap_core_alloc-Supplies}
use utamo_os.Heap.Fit.{has_room}
use utamo_os.Heap.Answer.{is_live, heap_core_free-Answers}
use utamo_os.Heap.Realloc.{InOrder}
use utamo_os.Heap.Reach.{Reach, by_init, by_alloc, Reach-InOrder, heap_core_validate-Reach}

abbrev blank_block : Block
blank_block = record {
  size_flags = 0;
  prev_size = 0;
  requested = 0;
  free_prev = 0;
  free_next = 0;
  cookie = 0;
}

-- struct heap_core, all zero
abbrev blank_heap : Heap
blank_heap = record {
  arena = record { base = 0; mapped_size = 0; free_head = 0; blocks = λ i. blank_block };
  bytes = λ i. 0;
  max_size = 0;
  growth_size = 0;
  used_bytes = 0;
  live_allocations = 0;
  allocations = 0;
  frees = 0;
  peak_usage = 0;
  failed_allocations = 0;
  invalid_frees = 0;
  debug_poison = false;
  initialized = false;
}

abbrev or_blank : Option Heap → Heap
or_blank none = blank_heap
or_blank (some h) = h

-- 256 bytes at 4096, that may grow to 512
abbrev started : Heap
unfolding heap_core_init
started = or_blank (heap_core_init blank_heap 4096 256 512 64 true)

started-heap_core_init : heap_core_init blank_heap 4096 256 512 64 true ≡ some started
unfolding heap_core_init
started-heap_core_init = refl

abbrev agreeing : Grow
agreeing = some (λ from to. true)

abbrev one_block : Option ℕ × Heap
one_block = heap_core_alloc started agreeing 20

started-Reach : Reach started
started-Reach = by_init blank_heap 4096 256 512 64 true started started-heap_core_init

one_block-Reach : Reach one_block.1
one_block-Reach = by_alloc started agreeing 20 started-Reach

one_block-InOrder : InOrder one_block.1
one_block-InOrder = Reach-InOrder one_block.1 one_block-Reach

started-Holds : Holds started (free_cell 256 true ∷ [])
started-Holds =
    subst (IfSome (λ h. Holds h (free_cell 256 true ∷ []))) started-heap_core_init
      (heap_core_init-Holds blank_heap 4096 256 512 64 true)

abbrev free_bytes_of : Option HeapStats → ℕ
free_bytes_of none = 0
free_bytes_of (some stats) = stats.free_bytes

-- Growth, no growth, a wrong pointer and a second free
one_block-pointer : one_block.0 ≡ some 4144
unfolding heap_core_alloc heap_core_free heap_core_realloc heap_core_get_stats heap_core_validate
    started utamo_os.Heap.State.block_cookie utamo_os.Heap.State.block_size
    utamo_os.Heap.State.block_used utamo_os.Heap.State.with_used utamo_os.Heap.Blocks.set_links
    utamo_os.Heap.Blocks.link_prev utamo_os.Heap.Blocks.link_next
one_block-pointer = refl

grown_block-pointer : (heap_core_alloc one_block.1 agreeing 300).0 ≡ some 4224
unfolding heap_core_alloc heap_core_free heap_core_realloc heap_core_get_stats heap_core_validate
    started utamo_os.Heap.State.block_cookie utamo_os.Heap.State.block_size
    utamo_os.Heap.State.block_used utamo_os.Heap.State.with_used utamo_os.Heap.Blocks.set_links
    utamo_os.Heap.Blocks.link_prev utamo_os.Heap.Blocks.link_next
grown_block-pointer = refl

refused_growth : (heap_core_alloc one_block.1 none 300).0 ≡ none
unfolding heap_core_alloc heap_core_free heap_core_realloc heap_core_get_stats heap_core_validate
    started utamo_os.Heap.State.block_cookie utamo_os.Heap.State.block_size
    utamo_os.Heap.State.block_used utamo_os.Heap.State.with_used utamo_os.Heap.Blocks.set_links
    utamo_os.Heap.Blocks.link_prev utamo_os.Heap.Blocks.link_next
refused_growth = refl

first_free : (heap_core_free one_block.1 4144).0 ≡ true
unfolding heap_core_alloc heap_core_free heap_core_realloc heap_core_get_stats heap_core_validate
    started utamo_os.Heap.State.block_cookie utamo_os.Heap.State.block_size
    utamo_os.Heap.State.block_used utamo_os.Heap.State.with_used utamo_os.Heap.Blocks.set_links
    utamo_os.Heap.Blocks.link_prev utamo_os.Heap.Blocks.link_next
first_free = refl

wrong_free : (heap_core_free one_block.1 4160).0 ≡ false
unfolding heap_core_alloc heap_core_free heap_core_realloc heap_core_get_stats heap_core_validate
    started utamo_os.Heap.State.block_cookie utamo_os.Heap.State.block_size
    utamo_os.Heap.State.block_used utamo_os.Heap.State.with_used utamo_os.Heap.Blocks.set_links
    utamo_os.Heap.Blocks.link_prev utamo_os.Heap.Blocks.link_next
wrong_free = refl

second_free : (heap_core_free (heap_core_free one_block.1 4144).1 4144).0 ≡ false
unfolding heap_core_alloc heap_core_free heap_core_realloc heap_core_get_stats heap_core_validate
    started utamo_os.Heap.State.block_cookie utamo_os.Heap.State.block_size
    utamo_os.Heap.State.block_used utamo_os.Heap.State.with_used utamo_os.Heap.Blocks.set_links
    utamo_os.Heap.Blocks.link_prev utamo_os.Heap.Blocks.link_next
second_free = refl

in_place : (heap_core_realloc one_block.1 none 4144 100).0 ≡ some 4144
unfolding heap_core_alloc heap_core_free heap_core_realloc heap_core_get_stats heap_core_validate
    started utamo_os.Heap.State.block_cookie utamo_os.Heap.State.block_size
    utamo_os.Heap.State.block_used utamo_os.Heap.State.with_used utamo_os.Heap.Blocks.set_links
    utamo_os.Heap.Blocks.link_prev utamo_os.Heap.Blocks.link_next
in_place = refl

free_after_alloc : free_bytes_of (heap_core_get_stats one_block.1) ≡ 128
unfolding heap_core_alloc heap_core_free heap_core_realloc heap_core_get_stats heap_core_validate
    started utamo_os.Heap.State.block_cookie utamo_os.Heap.State.block_size
    utamo_os.Heap.State.block_used utamo_os.Heap.State.with_used utamo_os.Heap.Blocks.set_links
    utamo_os.Heap.Blocks.link_prev utamo_os.Heap.Blocks.link_next
free_after_alloc = refl

heap_core_validate-Reach_example : InOrder one_block.1 × (heap_core_validate one_block.1 ≡ true)
heap_core_validate-Reach_example = heap_core_validate-Reach one_block.1 one_block-Reach

heap_core_alloc-Supplies_example :
    ((is_pointer (heap_core_alloc started agreeing 20).0 ≡ true)
      ⊎ (has_room (clear_low (20 + 63) 4) (free_cell 256 true ∷ []) ≡ false))
    × Allocates started.arena.base
        (live 0 (free_cell 256 true ∷ []))
        20
        (heap_core_alloc started agreeing 20)
heap_core_alloc-Supplies_example =
    heap_core_alloc-Supplies started agreeing (free_cell 256 true ∷ []) 20 started-Holds
      (λ e. ground arith) (ground arith)

heap_core_free-Answers_example :
    ((heap_core_free one_block.1 4144).0
      ≡ (4144 == 0 || is_live one_block.1.arena.base 4144 (live 0 one_block-InOrder.0)))
    × Frees one_block.1.arena.base
        (live 0 one_block-InOrder.0)
        4144
        (heap_core_free one_block.1 4144)
heap_core_free-Answers_example =
    heap_core_free-Answers one_block.1 one_block-InOrder.0 4144 one_block-InOrder.1
