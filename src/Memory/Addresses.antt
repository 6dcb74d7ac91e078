-- ===== src/Memory/Addresses.antt =====
-- What memory_helpers.c promises of page rounding and of the page table indices of an address.
use utamo_os.Common.{
  ℕ, ◌+◌, ◌*◌, ◌%◌, ◌^◌, ◌-◌, ◌≤◌, ◌<◌, ◌≡◌, ◌↔◌, true, none, some, arith, u64_max,
}
use utamo_os.Memory.Helpers.{
  page_size, memory_align_up, memory_align_down, memory_is_page_aligned, memory_page_index,
}

-- memory_align_up fails exactly when the next page boundary is not an address. Otherwise its result
-- is page aligned and is the least such number that is not below the argument, and rounding it down
-- leaves it alone.
pub memory_align_up_lem :
    (value : ℕ)
    → ((memory_align_up value ≡ none) ↔ (u64_max < value + (page_size - 1)))
      × ((up : ℕ)
          → memory_align_up value ≡ some up
          → (memory_is_page_aligned up ≡ true)
            × (value ≤ up)
            × (up < value + page_size)
            × (memory_align_down up ≡ up))
unfolding memory_align_up memory_is_page_aligned memory_align_down
memory_align_up_lem value = ((λ e. ground arith, λ h. ground arith), λ up e. ground arith)

-- The four page table indices of an address below 2^48 and its page offset determine it, and each
-- index is below 512.
pub memory_page_index_lem :
    (virt : ℕ)
    → virt < 2 ^ 48
    → (virt
        ≡ memory_page_index virt 4 * 2 ^ 39
          + memory_page_index virt 3 * 2 ^ 30
          + memory_page_index virt 2 * 2 ^ 21
          + memory_page_index virt 1 * 2 ^ 12
          + virt % page_size)
      × (memory_page_index virt 4 < 512)
      × (memory_page_index virt 3 < 512)
      × (memory_page_index virt 2 < 512)
      × (memory_page_index virt 1 < 512)
unfolding memory_page_index
memory_page_index_lem virt h = omega arith
