-- ===== src/Heap/Give.antt =====
-- kernel/memory/heap_core.c: what gives blocks back or resizes them.
use utamo_os.Common.{
  ℕ, ◌+◌, ◌-◌, Bool, true, false, not, ◌&&◌, ◌||◌, ltb, leb, ◌==◌, if◌then◌else◌, Option, none,
  some, sub64, add64, max, min,
}
use utamo_os.Heap.State.{
  Arena, Heap, header_size, saturated, block_size, block_used, with_used, put, write_block, poison,
  write_memory, copy,
}
use utamo_os.Heap.Validate.{heap_core_validate}
use utamo_os.Heap.Blocks.{remove_free, insert_free, following_previous, poison_free}
use utamo_os.Heap.Run.{
  Grow, next_is_free, grow_heap, trim_block, allocate, failed_allocation, checked_size,
  heap_core_alloc, pointer_offset,
}

-- The variables of `release` once the block before is absorbed or not
pub record Merged : Type 0 where
  pub arena : Arena
  pub offset : ℕ
  pub size : ℕ
  pub previous : ℕ

unfoldable pub merge_before : Arena → ℕ → Merged
unfolding remove_free
merge_before a offset =
    let block = a.blocks offset in
    let size = block_size block in
    let previous = block.prev_size in
    let before = offset - previous in
    if not (previous == 0) && not (block_used (a.blocks before))
    then record {
      arena = remove_free a before;
      offset = before;
      size = size + previous;
      previous = ((remove_free a before).blocks before).prev_size;
    }
    else record { arena = a; offset = offset; size = size; previous = previous }

unfoldable pub merge_after : Merged → Merged
unfolding remove_free
merge_after m =
    let next = m.offset + m.size in
    if next_is_free m.arena next
    then record m {
      size = m.size + block_size (m.arena.blocks next);
      arena = remove_free m.arena next;
    }
    else m

-- The stores of `release` into the headers; the offset is that of the free block.
unfoldable pub free_block : Arena → ℕ → ℕ × Arena
unfolding merge_before merge_after following_previous insert_free
free_block a offset =
    let m = merge_after (merge_before a offset) in
    let written = write_block m.arena m.offset m.size m.previous 0 false in
    (m.offset, insert_free (following_previous written m.offset m.size) m.offset)

unfoldable pub release : Heap → ℕ → Heap
unfolding free_block poison_free saturated
release h offset =
    let freed = free_block h.arena offset in
    poison_free
      (record h {
        arena = freed.1;
        used_bytes = sub64 h.used_bytes (h.arena.blocks offset).requested;
        live_allocations = sub64 h.live_allocations 1;
        frees = saturated h.frees;
      })
      freed.0

abbrev pub invalid_free : Heap → Heap
invalid_free h = if h.initialized then record h { invalid_frees = saturated h.invalid_frees } else h

-- The address 0 is NULL.
unfoldable pub heap_core_free : Heap → ℕ → Bool × Heap
unfolding release pointer_offset saturated
heap_core_free h pointer = elim (pointer == 0) [
  | true ↦ (true, h)
  | false ↦ elim (heap_core_validate h) [
    | false ↦ (false, invalid_free h)
    | true ↦ elim (pointer_offset h pointer) [
      | none ↦ (false, record h { invalid_frees = saturated h.invalid_frees })
      | some offset ↦ (true, release h offset)
    ]
  ]
]

unfoldable pub resize_block : Heap → ℕ → ℕ → ℕ → Heap
unfolding poison trim_block
resize_block h offset size needed =
    let block = h.arena.blocks offset in
    let used_bytes = add64 (sub64 h.used_bytes block.requested) size in
    let trimmed =
      trim_block (record h { arena = put h.arena offset (record block { requested = size }) })
        offset needed in
    let payload = offset + header_size in
    let counted : Heap = record trimmed {
      used_bytes = used_bytes;
      peak_usage = max h.peak_usage used_bytes;
    } in
    let grown =
      if ltb block.requested size
      then poison counted (payload + block.requested) (size - block.requested) 0xcd
      else counted in
    let room = block_size (grown.arena.blocks offset) - header_size - size in
    poison grown (payload + size) room 0xdd

-- `none` is the result false.
unfoldable pub consume_next : Arena → ℕ → ℕ → Option Arena
unfolding remove_free following_previous
consume_next a offset needed =
    let current = block_size (a.blocks offset) in
    let next = offset + current in
    let combined = current + block_size (a.blocks next) in
    if next == a.mapped_size
      || block_used (a.blocks next)
      || ltb (block_size (a.blocks next)) (needed - current)
    then none
    else some (
        following_previous
          (put (remove_free a next) offset
            (record ((remove_free a next).blocks offset) { size_flags = with_used combined }))
          offset combined)

-- The in-place attempt, over the following block if `needed` asks for it
unfoldable pub resize_here : Heap → ℕ → ℕ → ℕ → Option Heap
unfolding consume_next resize_block
resize_here h offset size needed = elim (leb needed (block_size (h.arena.blocks offset))) [
  | true ↦ some (resize_block h offset size needed)
  | false ↦ elim (consume_next h.arena offset needed) [
    | none ↦ none
    | some a ↦ some (resize_block (record h { arena = a }) offset size needed)
  ]
]

-- Nothing but perhaps one free block is between the block and the end.
abbrev pub at_tail : Arena → ℕ → Bool
at_tail a next =
    next == a.mapped_size
    || (not (block_used (a.blocks next)) && next + block_size (a.blocks next) == a.mapped_size)

-- The move into a replacement that was found
unfoldable pub move_to : Heap → ℕ → ℕ → ℕ → Option ℕ × Heap
unfolding write_memory release
move_to h offset size replacement =
    let kept = min (h.arena.blocks offset).requested size in
    (
      some replacement,
      release (copy h (replacement - h.arena.base) (offset + header_size) kept) offset,
    )

abbrev pub moved : ℕ → ℕ → Option ℕ × Heap → Option ℕ × Heap
moved offset size (none, h) = (none, failed_allocation h)
moved offset size (some replacement, h) = move_to h offset size replacement

-- After growth at the end
abbrev pub consumed : Heap → ℕ → ℕ → ℕ → ℕ → Option Arena → Option ℕ × Heap
consumed h pointer offset size needed none = (none, failed_allocation h)
consumed h pointer offset size needed (some a) =
    (some pointer, resize_block (record h { arena = a }) offset size needed)

-- When no free block fits: growth at the end, or a replacement from growth.
unfoldable pub realloc_growing : Heap → Grow → ℕ → ℕ → ℕ → Option ℕ × Heap
unfolding grow_heap consume_next resize_block allocate move_to failed_allocation
realloc_growing h grow offset size needed =
    let current = block_size (h.arena.blocks offset) in
    let pointer = h.arena.base + offset + header_size in
    elim (at_tail h.arena (offset + current)) [
      | false ↦ moved offset size (allocate h grow size needed true)
      | true ↦ elim (grow_heap h grow (needed - current)) [
        | none ↦ (none, failed_allocation h)
        | some grown ↦
            consumed grown pointer offset size needed (consume_next grown.arena offset needed)
      ]
    ]

abbrev pub or_growing : Heap → Grow → ℕ → ℕ → ℕ → Option ℕ × Heap → Option ℕ × Heap
or_growing h grow offset size needed (none, _) = realloc_growing h grow offset size needed
or_growing h grow offset size needed (some replacement, taken) =
    move_to taken offset size replacement

unfoldable pub realloc_block : Heap → Grow → ℕ → ℕ → ℕ → Option ℕ × Heap
unfolding resize_here allocate move_to realloc_growing
realloc_block h grow offset size needed = elim (resize_here h offset size needed) [
  | some resized ↦ (some (h.arena.base + offset + header_size), resized)
  | none ↦ or_growing h grow offset size needed (allocate h grow size needed false)
]

unfoldable pub heap_core_realloc : Heap → Grow → ℕ → ℕ → Option ℕ × Heap
unfolding heap_core_alloc heap_core_free pointer_offset failed_allocation realloc_block
heap_core_realloc h grow pointer size = elim (pointer == 0) [
  | true ↦ heap_core_alloc h grow size
  | false ↦ elim (size == 0) [
    | true ↦ (none, (heap_core_free h pointer).1)
    | false ↦ elim (checked_size h size) [
      | none ↦ (none, failed_allocation h)
      | some needed ↦ elim (pointer_offset h pointer) [
        | none ↦ (none, failed_allocation h)
        | some offset ↦ realloc_block h grow offset size needed
      ]
    ]
  ]
]
