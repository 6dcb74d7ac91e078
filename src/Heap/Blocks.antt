-- ===== src/Heap/Blocks.antt =====
-- kernel/memory/heap_core.c: the list of the free blocks, and the walks along the blocks.
use utamo_os.Common.{
  ℕ, zero, suc, ◌+◌, ◌-◌, Bool, true, false, not, ◌&&◌, ltb, leb, ◌==◌, if◌then◌else◌,
}
use utamo_os.Heap.State.{
  Arena, Heap, none_offset, header_size, block_size, put, set_next, set_prev, poison,
}

-- The link to a free block, in the one before it or in the heap.
unfoldable pub link_next : Arena → ℕ → ℕ → Arena
link_next a prior next =
    if prior == none_offset then record a { free_head = next } else set_next a prior next

-- The link back, in the free block after it.
unfoldable pub link_prev : Arena → ℕ → ℕ → Arena
link_prev a next prior = if next == none_offset then a else set_prev a next prior

unfoldable pub set_links : Arena → ℕ → ℕ → ℕ → Arena
set_links a offset prior next =
    put a offset (record (a.blocks offset) { free_prev = prior; free_next = next })

unfoldable pub remove_free : Arena → ℕ → Arena
remove_free a offset =
    let skipped = link_next a (a.blocks offset).free_prev (a.blocks offset).free_next in
    let block = skipped.blocks offset in
    set_links (link_prev skipped block.free_next block.free_prev) offset none_offset none_offset

-- The loop of insert_free. The offsets along the list grow, so `fuel` as large as `mapped_size`
-- is enough.
unfoldable pub find_place : Arena → ℕ → ℕ → ℕ → ℕ → ℕ × ℕ
find_place a zero offset prior current = (prior, current)
find_place a (suc fuel) offset prior current =
    elim (not (current == none_offset) && ltb current offset) [
      | true ↦ find_place a fuel offset current (a.blocks current).free_next
      | false ↦ (prior, current)
    ]

unfoldable pub insert_free : Arena → ℕ → Arena
unfolding find_place
insert_free a offset =
    let place = find_place a a.mapped_size offset none_offset a.free_head in
    link_prev (link_next (set_links a offset place.0 place.1) place.0 offset) place.1 offset

unfoldable pub following_previous : Arena → ℕ → ℕ → Arena
following_previous a offset size =
    if ltb (offset + size) a.mapped_size
    then put a (offset + size) (record (a.blocks (offset + size)) { prev_size = size })
    else a

unfoldable pub poison_free : Heap → ℕ → Heap
unfolding poison
poison_free h offset =
    poison h (offset + header_size) (block_size (h.arena.blocks offset) - header_size) 0xdd

unfoldable pub find_fit : Arena → ℕ → ℕ → ℕ → ℕ
find_fit a needed zero offset = none_offset
find_fit a needed (suc fuel) offset = elim (offset == none_offset) [
  | true ↦ none_offset
  | false ↦ elim (leb needed (block_size (a.blocks offset))) [
    | true ↦ offset
    | false ↦ find_fit a needed fuel (a.blocks offset).free_next
  ]
]

unfoldable pub last_block : Arena → ℕ → ℕ → ℕ
last_block a zero offset = offset
last_block a (suc fuel) offset = elim (ltb (offset + block_size (a.blocks offset)) a.mapped_size) [
  | true ↦ last_block a fuel (offset + block_size (a.blocks offset))
  | false ↦ offset
]

-- exact_block: whether a block begins at the target.
unfoldable pub exact_block : Arena → ℕ → ℕ → ℕ → Bool
exact_block a target zero offset = false
exact_block a target (suc fuel) offset = elim (ltb offset a.mapped_size) [
  | false ↦ false
  | true ↦ elim (offset == target) [
    | true ↦ true
    | false ↦ exact_block a target fuel (offset + block_size (a.blocks offset))
  ]
]
