-- ===== src/Heap/Stats.antt =====
-- heap_core_get_stats of kernel/memory/heap_core.c.
use utamo_os.Common.{ℕ, zero, suc, ◌==◌, if◌then◌else◌, Option, none, some, add64, sub64, max}
use utamo_os.Heap.State.{Arena, Heap, none_offset, header_size, block_size}
use utamo_os.Heap.Validate.{heap_core_validate}

pub record HeapStats : Type 0 where
  pub mapped_bytes : ℕ
  pub used_bytes : ℕ
  pub free_bytes : ℕ
  pub overhead_bytes : ℕ
  pub live_allocations : ℕ
  pub allocations : ℕ
  pub frees : ℕ
  pub peak_usage : ℕ
  pub failed_allocations : ℕ
  pub invalid_frees : ℕ
  pub largest_free_bytes : ℕ

-- The walk over the list of free blocks: the sum of their payloads and the largest
unfoldable pub free_payloads : Arena → ℕ → ℕ → ℕ → ℕ → ℕ × ℕ
free_payloads a zero offset free_bytes largest = (free_bytes, largest)
free_payloads a (suc fuel) offset free_bytes largest =
    let bytes = sub64 (block_size (a.blocks offset)) header_size in
    let rest =
      free_payloads a fuel (a.blocks offset).free_next (add64 free_bytes bytes)
        (max largest bytes) in
    if offset == none_offset then (free_bytes, largest) else rest

-- `none` is the result false; `out` is there.
unfoldable pub heap_core_get_stats : Heap → Option HeapStats
unfolding free_payloads
heap_core_get_stats h =
    let sums = free_payloads h.arena h.arena.mapped_size h.arena.free_head 0 0 in
    if heap_core_validate h
    then some (record {
      mapped_bytes = h.arena.mapped_size;
      used_bytes = h.used_bytes;
      free_bytes = sums.0;
      overhead_bytes = sub64 (sub64 h.arena.mapped_size h.used_bytes) sums.0;
      live_allocations = h.live_allocations;
      allocations = h.allocations;
      frees = h.frees;
      peak_usage = h.peak_usage;
      failed_allocations = h.failed_allocations;
      invalid_frees = h.invalid_frees;
      largest_free_bytes = sums.1;
    })
    else none
