-- ===== src/Memory/Helpers.antt =====
-- kernel/memory/memory_helpers.c: page alignment, canonical addresses, page table indices.
use utamo_os.Common.{
  ℕ, ◌+◌, ◌-◌, ◌*◌, ◌/◌, ◌^◌, Bool, ◌||◌, Option, none, some, ltb, leb, ◌==◌, if◌then◌else◌,
  u64_max, add64, low_bits, clear_low,
}

-- MEMORY_PAGE_SIZE
abbrev pub page_size : ℕ
page_size = 4096

-- `none` is the result false, with `*out` left alone.
unfoldable pub memory_align_up : ℕ → Option ℕ
memory_align_up value =
    if ltb (u64_max - (page_size - 1)) value
    then none
    else some (clear_low (add64 value (page_size - 1)) 12)

unfoldable pub memory_align_down : ℕ → ℕ
memory_align_down value = clear_low value 12

unfoldable pub memory_is_page_aligned : ℕ → Bool
memory_is_page_aligned value = low_bits value 12 == 0

unfoldable pub memory_is_canonical : ℕ → Bool
memory_is_canonical address = leb address 0x0000_7fff_ffff_ffff || leb 0xffff_8000_0000_0000 address

unfoldable pub memory_physical_mask : ℕ → Option ℕ
memory_physical_mask bits =
    if ltb bits 32 || ltb 52 bits then none else some (clear_low (2 ^ bits - 1) 12)

unfoldable pub memory_page_index : ℕ → ℕ → ℕ
memory_page_index virt level =
    if ltb level 1 || ltb 4 level then 512 else low_bits (virt / 2 ^ (12 + 9 * (level - 1))) 9
