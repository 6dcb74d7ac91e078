-- ===== src/Heap/Run.antt =====
-- kernel/memory/heap_core.c: the operations. A pointer is an address, and the NULL that an operation
-- returns is `none`; `grow` is ops.grow, or `none` if that is NULL, with its answers during the call.
use utamo_os.Common.{
  ℕ, ◌+◌, ◌-◌, ◌*◌, ◌/◌, ◌%◌, Bool, true, false, not, ◌&&◌, ◌||◌, ltb, leb, ◌==◌, if◌then◌else◌,
  Option, none, some, u64_max, add64, clear_low, low_bits, max,
}
use utamo_os.Heap.State.{
  Arena, Heap, none_offset, min_block, header_size, saturated, block_size, block_used, with_used,
  put, write_block, fill, poison, write_memory,
}
use utamo_os.Heap.Validate.{heap_core_validate}
use utamo_os.Heap.Blocks.{
  remove_free, insert_free, following_previous, poison_free, find_fit, last_block, exact_block,
}

abbrev pub Grow : Type 0
Grow = Option (ℕ → ℕ → Bool)

unfoldable pub heap_core_init : Heap → ℕ → ℕ → ℕ → ℕ → Bool → Option Heap
unfolding poison
heap_core_init h base initial_size max_size growth_size debug_poison =
    if h.initialized
      || base == 0
      || not (low_bits base 4 == 0)
      || ltb initial_size min_block
      || ltb max_size initial_size
      || ltb growth_size min_block
      || not
          (low_bits initial_size 4 == 0 && low_bits max_size 4 == 0 && low_bits growth_size 4 == 0)
      || ltb (u64_max - base) max_size
    then none
    else let a : Arena = record {
      base = base;
      mapped_size = initial_size;
      free_head = 0;
      blocks = h.arena.blocks;
    } in
      let initial : Heap = record {
        arena = write_block a 0 initial_size 0 0 false;
        bytes = h.bytes;
        max_size = max_size;
        growth_size = growth_size;
        used_bytes = 0;
        live_allocations = 0;
        allocations = 0;
        frees = 0;
        peak_usage = 0;
        failed_allocations = 0;
        invalid_frees = 0;
        debug_poison = debug_poison;
        initialized = true;
      } in
      some (poison initial header_size (initial_size - header_size) 0xdd)

abbrev pub next_is_free : Arena → ℕ → Bool
next_is_free a next = ltb next a.mapped_size && not (block_used (a.blocks next))

-- The count of bytes to ask for: whole units, or what is left.
abbrev pub extra_bytes : ℕ → ℕ → ℕ → ℕ
extra_bytes required available growth_size =
    let units = required / growth_size + (if required % growth_size == 0 then 0 else 1) in
    if leb units (available / growth_size) then units * growth_size else available

-- The stores of grow_heap, `extra` the new bytes: the new offset of the free block, and the arena.
unfoldable pub append_free : Arena → ℕ → ℕ → ℕ × Arena
unfolding remove_free insert_free
append_free a tail_offset extra =
    let tail = a.blocks tail_offset in
    let tail_size = block_size tail in
    let old_size = a.mapped_size in
    let grown = record a { mapped_size = old_size + extra } in
    if block_used tail
    then (old_size, insert_free (write_block grown old_size extra tail_size 0 false) old_size)
    else let removed = remove_free grown tail_offset in
      (
        tail_offset,
        insert_free
            (write_block removed tail_offset (tail_size + extra)
              (removed.blocks tail_offset).prev_size 0 false)
            tail_offset,
      )

-- `none` is the result false.
unfoldable pub grow_heap : Heap → Grow → ℕ → Option Heap
unfolding last_block append_free poison_free
grow_heap h none requested = none
grow_heap h (some grow) requested =
    let a = h.arena in
    let needed = max requested min_block in
    let tail_offset = last_block a a.mapped_size 0 in
    let tail = a.blocks tail_offset in
    let tail_free = if block_used tail then 0 else block_size tail in
    let required = needed - tail_free in
    let available = h.max_size - a.mapped_size in
    let extra = extra_bytes required available h.growth_size in
    if a.mapped_size == h.max_size
    then none
    else if leb needed tail_free
    then some h
    else if ltb available required
    then none
    else if not (grow a.mapped_size (a.mapped_size + extra))
    then none
    else let appended = append_free a tail_offset extra in
      some (poison_free (record h { arena = appended.1 }) appended.0)

unfoldable pub required_size : ℕ → Option ℕ
required_size requested =
    if requested == 0 || ltb (u64_max - (header_size + 15)) requested
    then none
    else some (clear_low (requested + (header_size + 15)) 4)

-- The stores of trim_block into the headers, the following block absorbed or not.
unfoldable pub split_block : Arena → ℕ → ℕ → Arena
unfolding remove_free insert_free following_previous
split_block a offset needed =
    let size = block_size (a.blocks offset) in
    let old_next = offset + size in
    let merges = next_is_free a old_next in
    let extra = if merges then block_size (a.blocks old_next) else 0 in
    let remainder_size = size - needed + extra in
    let removed = if merges then remove_free a old_next else a in
    let kept =
      put removed offset (record (removed.blocks offset) { size_flags = with_used needed }) in
    let written = write_block kept (offset + needed) remainder_size needed 0 false in
    insert_free (following_previous written (offset + needed) remainder_size) (offset + needed)

unfoldable pub trim_block : Heap → ℕ → ℕ → Heap
unfolding split_block poison_free
trim_block h offset needed =
    if ltb (block_size (h.arena.blocks offset) - needed) min_block
    then h
    else poison_free (record h { arena = split_block h.arena offset needed }) (offset + needed)

-- What `allocate` does with the block that it found.
unfoldable pub take_block : Heap → ℕ → ℕ → ℕ → Option ℕ × Heap
unfolding poison remove_free trim_block saturated
take_block h offset requested needed =
    let removed = remove_free h.arena offset in
    let block = removed.blocks offset in
    let taken =
      put removed offset
        (record block { size_flags = with_used block.size_flags; requested = requested }) in
    let trimmed = trim_block (record h { arena = taken }) offset needed in
    let used_bytes = add64 h.used_bytes requested in
    let payload = offset + header_size in
    let room = block_size (trimmed.arena.blocks offset) - header_size in
    let counted : Heap = record trimmed {
      used_bytes = used_bytes;
      live_allocations = add64 h.live_allocations 1;
      allocations = saturated h.allocations;
      peak_usage = max h.peak_usage used_bytes;
    } in
    (some (h.arena.base + payload), poison counted payload room 0xcd)

abbrev pub fit_of : Heap → ℕ → ℕ
fit_of h needed = find_fit h.arena needed h.arena.mapped_size h.arena.free_head

-- The second search, in the heap that grew or did not
abbrev pub allocate_at : Heap → ℕ → ℕ → ℕ → Option ℕ × Heap
allocate_at h offset requested needed = elim (offset == none_offset) [
  | true ↦ (none, h)
  | false ↦ take_block h offset requested needed
]

unfoldable pub allocate : Heap → Grow → ℕ → ℕ → Bool → Option ℕ × Heap
unfolding find_fit grow_heap take_block
allocate h grow requested needed allow_growth =
    elim (fit_of h needed == none_offset && allow_growth) [
      | false ↦ allocate_at h (fit_of h needed) requested needed
      | true ↦ elim (grow_heap h grow needed) [
        | none ↦ (none, h)
        | some grown ↦ allocate_at grown (fit_of grown needed) requested needed
      ]
    ]

unfoldable pub failed_allocation : Heap → Heap
unfolding saturated
failed_allocation h =
    if h.initialized then record h { failed_allocations = saturated h.failed_allocations } else h

-- A NULL is counted.
abbrev pub or_failed : Option ℕ × Heap → Option ℕ × Heap
or_failed (none, h) = (none, failed_allocation h)
or_failed (some p, h) = (some p, h)

-- `needed`, if the heap is valid and the size can be rounded up
abbrev pub checked_size : Heap → ℕ → Option ℕ
checked_size h size = if heap_core_validate h then required_size size else none

unfoldable pub heap_core_alloc : Heap → Grow → ℕ → Option ℕ × Heap
unfolding required_size allocate failed_allocation
heap_core_alloc h grow size = elim (size == 0) [
  | true ↦ (none, h)
  | false ↦ elim (checked_size h size) [
    | none ↦ (none, failed_allocation h)
    | some needed ↦ or_failed (allocate h grow size needed true)
  ]
]

-- The bytes at a pointer that calloc got are cleared.
abbrev pub zeroed_at : ℕ → Option ℕ × Heap → Option ℕ × Heap
zeroed_at bytes (none, h) = (none, h)
zeroed_at bytes (some p, h) = (some p, fill h (p - h.arena.base) bytes 0)

unfoldable pub heap_core_calloc : Heap → Grow → ℕ → ℕ → Option ℕ × Heap
unfolding write_memory heap_core_alloc failed_allocation
heap_core_calloc h grow count size = elim (count == 0 || size == 0) [
  | true ↦ (none, h)
  | false ↦ elim (ltb (u64_max / size) count) [
    | true ↦ (none, failed_allocation h)
    | false ↦ zeroed_at (count * size) (heap_core_alloc h grow (count * size))
  ]
]

-- The offset of the used block whose payload the address is.
unfoldable pub pointer_offset : Heap → ℕ → Option ℕ
unfolding exact_block
pointer_offset h address =
    let a = h.arena in
    let offset = address - a.base - header_size in
    elim (ltb address a.base
      || ltb (address - a.base) header_size
      || leb a.mapped_size (address - a.base)
      || not (low_bits address 4 == 0)) [
        | true ↦ none
        | false ↦
            if exact_block a offset a.mapped_size 0 && block_used (a.blocks offset)
            then some offset
            else none
      ]
