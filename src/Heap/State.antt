-- ===== src/Heap/State.antt =====
-- kernel/include/utamo/heap_core.h and the header of a block in kernel/memory/heap_core.c. `blocks`
-- are the headers, a function from their offsets in the arena, and `bytes` are the bytes of the arena
-- outside of the headers. memset and memcpy write the bytes of every header too that lies in their
-- range, wholly or in part. What the code stores into a header does not show in `bytes`, so these say
-- nothing where a header is or was, until the next memset or memcpy there. Offsets in a heap that passed heap_core_validate are at most
-- `mapped_size`, which is below 2 ^ 64, so the sums of offsets and sizes do not wrap around.
use Prim.Native.Nat.{bit_xor}
use utamo_os.Common.{
  ℕ, ◌+◌, zero, suc, ◌-◌, ◌*◌, ◌/◌, ◌%◌, Bool, ◌&&◌, ltb, leb, ◌==◌, if◌then◌else◌, u64_max,
  clear_low,
}

-- UTAMO_HEAP_NONE
abbrev pub none_offset : ℕ
none_offset = u64_max

-- UTAMO_HEAP_COOKIE
abbrev pub cookie_constant : ℕ
cookie_constant = 0x5554_414d_4f48_4541

-- UTAMO_HEAP_MIN_BLOCK
abbrev pub min_block : ℕ
min_block = 64

-- sizeof(struct heap_block)
abbrev pub header_size : ℕ
header_size = 48

pub record Block : Type 0 where
  pub size_flags : ℕ
  pub prev_size : ℕ
  pub requested : ℕ
  pub free_prev : ℕ
  pub free_next : ℕ
  pub cookie : ℕ

-- The fields of the heap that describe its blocks
pub record Arena : Type 0 where
  pub base : ℕ
  pub mapped_size : ℕ
  pub free_head : ℕ
  pub blocks : ℕ → Block

-- The others but `ops`: what a call of ops.grow answers is an argument of the operations.
pub record Heap : Type 0 where
  pub arena : Arena
  pub bytes : ℕ → ℕ
  pub max_size : ℕ
  pub growth_size : ℕ
  pub used_bytes : ℕ
  pub live_allocations : ℕ
  pub allocations : ℕ
  pub frees : ℕ
  pub peak_usage : ℕ
  pub failed_allocations : ℕ
  pub invalid_frees : ℕ
  pub debug_poison : Bool
  pub initialized : Bool

unfoldable pub saturated : ℕ → ℕ
saturated counter = if counter == u64_max then counter else counter + 1

unfoldable pub block_size : Block → ℕ
block_size block = clear_low block.size_flags 4

unfoldable pub block_used : Block → Bool
block_used block = block.size_flags % 2 == 1

-- size_flags | UTAMO_HEAP_USED
unfoldable pub with_used : ℕ → ℕ
with_used size_flags = size_flags - size_flags % 2 + 1

unfoldable pub block_cookie : ℕ → ℕ → ℕ
block_cookie base offset = bit_xor (bit_xor cookie_constant base) offset

-- A write to `*block_at(heap, offset)`
abbrev pub store : (ℕ → Block) → ℕ → Block → ℕ → Block
store blocks offset block i = if i == offset then block else blocks i

abbrev pub put : Arena → ℕ → Block → Arena
put a offset block = record a { blocks = store a.blocks offset block }

abbrev pub set_next : Arena → ℕ → ℕ → Arena
set_next a offset next = put a offset (record (a.blocks offset) { free_next = next })

abbrev pub set_prev : Arena → ℕ → ℕ → Arena
set_prev a offset prev = put a offset (record (a.blocks offset) { free_prev = prev })

abbrev pub fresh_block : ℕ → ℕ → ℕ → ℕ → ℕ → Bool → Block
fresh_block base offset size previous requested used = record {
  size_flags = if used then with_used size else size;
  prev_size = previous;
  requested = requested;
  free_prev = none_offset;
  free_next = none_offset;
  cookie = block_cookie base offset;
}

abbrev pub write_block : Arena → ℕ → ℕ → ℕ → ℕ → Bool → Arena
write_block a offset size previous requested used =
    put a offset (fresh_block a.base offset size previous requested used)

abbrev pub in_range : ℕ → ℕ → ℕ → Bool
in_range start count address = leb start address && ltb address (start + count)

-- The `k` bytes of a word at an address, of which those in the range are written
unfoldable pub write_word : ℕ → ℕ → (ℕ → ℕ) → ℕ → ℕ → ℕ → ℕ
write_word start count source zero address word = 0
write_word start count source (suc k) address word =
    let rest = write_word start count source k (address + 1) (word / 256) in
    (if in_range start count address then source address else word % 256) + 256 * rest

unfoldable pub write_header : ℕ → ℕ → (ℕ → ℕ) → ℕ → Block → Block
unfolding write_word
write_header start count source offset block =
    let word : ℕ → ℕ → ℕ = write_word start count source 8 in
    record {
      size_flags = word offset block.size_flags;
      prev_size = word (offset + 8) block.prev_size;
      requested = word (offset + 16) block.requested;
      free_prev = word (offset + 24) block.free_prev;
      free_next = word (offset + 32) block.free_next;
      cookie = word (offset + 40) block.cookie;
    }

-- The bytes of a range of the arena are written, those of every header that lies there too.
unfoldable pub write_memory : Heap → ℕ → ℕ → (ℕ → ℕ) → Heap
unfolding write_header
write_memory h start count source = record h {
  arena = record h.arena {
    blocks = λ offset.
        if ltb start (offset + header_size) && ltb offset (start + count)
        then write_header start count source offset (h.arena.blocks offset)
        else h.arena.blocks offset;
  };
  bytes = λ i. if in_range start count i then source i else h.bytes i;
}

-- memset and memcpy in the arena
abbrev pub fill : Heap → ℕ → ℕ → ℕ → Heap
fill h start count value = write_memory h start count (λ i. value)

abbrev pub copy : Heap → ℕ → ℕ → ℕ → Heap
copy h to from count = write_memory h to count (λ i. h.bytes (from + (i - to)))

-- memset if heap->debug_poison
unfoldable pub poison : Heap → ℕ → ℕ → ℕ → Heap
unfolding write_memory
poison h start count value = if h.debug_poison then fill h start count value else h
