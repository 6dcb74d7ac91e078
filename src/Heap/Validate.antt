-- ===== src/Heap/Validate.antt =====
-- kernel/memory/heap_core.c: context_valid and heap_core_validate.
use utamo_os.Common.{
  ℕ, zero, suc, ◌+◌, ◌-◌, ◌%◌, Bool, true, false, not, ◌&&◌, ltb, leb, ◌==◌, if◌then◌else◌, u64_max,
  add64, low_bits,
}
use utamo_os.Heap.State.{
  Block, Arena, Heap, none_offset, min_block, header_size, block_size, block_used, block_cookie,
}

-- ((mapped_size | max_size | growth_size) & UTAMO_HEAP_FLAG_MASK) == 0 is said of the three.
unfoldable pub context_valid : Heap → Bool
context_valid h =
    h.initialized
    && not (h.arena.base == 0)
    && low_bits h.arena.base 4 == 0
    && leb min_block h.arena.mapped_size
    && leb h.arena.mapped_size h.max_size
    && leb h.max_size (u64_max - h.arena.base)
    && leb min_block h.growth_size
    && low_bits h.arena.mapped_size 4 == 0
    && low_bits h.max_size 4 == 0
    && low_bits h.growth_size 4 == 0

-- The variables of the walk
pub record Walk : Type 0 where
  pub offset : ℕ
  pub previous : ℕ
  pub free_current : ℕ
  pub free_prior : ℕ
  pub live : ℕ
  pub requested : ℕ
  pub previous_free : Bool

-- The tests of a block that is in use or not
unfoldable pub check_header : Arena → Walk → Block → Bool
check_header a w block =
    let size = block_size block in
    block.cookie == block_cookie a.base w.offset
    && block.size_flags % 16 - block.size_flags % 2 == 0
    && leb min_block size
    && leb size (a.mapped_size - w.offset)
    && block.prev_size == w.previous

-- Those of a used block
unfoldable pub check_used : Block → Bool
check_used block =
    not (block.requested == 0)
    && leb block.requested (block_size block - header_size)
    && block.free_prev == none_offset
    && block.free_next == none_offset

-- Those of a free one
unfoldable pub check_free : Walk → Block → Bool
check_free w block =
    block.requested == 0
    && not w.previous_free
    && w.free_current == w.offset
    && block.free_prev == w.free_prior

abbrev pub step : Walk → Block → Walk
step w block =
    let used = block_used block in
    record {
      offset = w.offset + block_size block;
      previous = block_size block;
      free_current = if used then w.free_current else block.free_next;
      free_prior = if used then w.free_prior else w.offset;
      live = if used then w.live + 1 else w.live;
      requested = if used then add64 w.requested block.requested else w.requested;
      previous_free = not used;
    }

-- What is tested after the loop
unfoldable pub check_end : Heap → Walk → Bool
check_end h w =
    w.requested == h.used_bytes
    && w.live == h.live_allocations
    && leb w.requested h.peak_usage
    && w.free_current == none_offset

-- The loop; a block that passes has 64 bytes, so `mapped_size` rounds are enough.
unfoldable pub check_blocks : Heap → ℕ → Walk → Bool
unfolding check_header check_used check_free check_end
check_blocks h zero w = check_end h w
check_blocks h (suc fuel) w =
    let block = h.arena.blocks w.offset in
    let accepted =
      leb header_size (h.arena.mapped_size - w.offset)
      && check_header h.arena w block
      && (if block_used block then check_used block else check_free w block) in
    elim (ltb w.offset h.arena.mapped_size) [
      | false ↦ check_end h w
      | true ↦ elim accepted [ false ↦ false | true ↦ check_blocks h fuel (step w block) ]
    ]

abbrev pub walk_start : Heap → Walk
walk_start h = record {
  offset = 0;
  previous = 0;
  free_current = h.arena.free_head;
  free_prior = none_offset;
  live = 0;
  requested = 0;
  previous_free = false;
}

unfoldable pub heap_core_validate : Heap → Bool
unfolding context_valid check_blocks
heap_core_validate h = context_valid h && check_blocks h h.arena.mapped_size (walk_start h)
