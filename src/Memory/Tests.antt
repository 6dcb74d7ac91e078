-- ===== src/Memory/Tests.antt =====
-- The memory map and the first state of the allocator for a machine with 32 KiB of usable memory.
use utamo_os.Common.{
  ℕ, ◌+◌, ◌*◌, ◌-◌, ◌%◌, ◌^◌, ◌≤◌, ◌<◌, ◌≡◌, ◌↔◌, refl, u64_max, true, false, none, some, [], ◌∷◌,
  List, arith, replicate, length-replicate, All-replicate,
}
use utamo_os.Memory.Helpers.{
  page_size, memory_is_page_aligned, memory_align_up, memory_align_down, memory_page_index,
}
use utamo_os.Memory.Addresses.{memory_align_up_lem, memory_page_index_lem}
use utamo_os.Memory.Map.{
  Region, MemoryMap, memory_map_init, memory_map_add, requires_exclusive_region, starts_before_last,
  any_conflict, append_region,
}
use utamo_os.Memory.Map.Valid.{
  IsWellFormed, memory_map_add-IsWellFormed, memory_map_init-IsWellFormed,
}
use utamo_os.Memory.Bitmap.{IsByte, bitmap_test, bitmap_set}
use utamo_os.Memory.Pmm.{Plan, Pmm, reserve_range, reserve_bounds, any_allocated, reserve_frames}
use utamo_os.Memory.Pmm.Init.{
  pmm_plan, plan_bounds, plan_storage, storage_size, plan_place, pmm_core_init, blank, open_regions,
  open_frames, reserve_metadata,
}
use utamo_os.Memory.Pmm.Planning.{IsPlan, pmm_plan-IsPlan}
use utamo_os.Memory.Pmm.Initial.{Initial, pmm_core_init-Initial}

abbrev low_memory : Region
low_memory = record { base = 0; length = 0x8000; type = 0 }

abbrev map : MemoryMap
map = record { regions = low_memory ∷ []; usable_bytes = 0x8000; bootloader_reclaimable_bytes = 0 }

add_low_memory : memory_map_add memory_map_init low_memory ≡ some map
unfolding memory_map_add requires_exclusive_region starts_before_last any_conflict append_region
add_low_memory = refl

-- a region that overlaps the first is refused
add_overlap : memory_map_add map (record { base = 0x7000; length = 0x2000; type = 0 }) ≡ none
unfolding memory_map_add requires_exclusive_region starts_before_last any_conflict append_region
add_overlap = refl

map-IsWellFormed : IsWellFormed map
map-IsWellFormed =
    memory_map_add-IsWellFormed memory_map_init low_memory memory_map_init-IsWellFormed
      add_low_memory

memory_map_add-IsWellFormed_example : IsWellFormed map
memory_map_add-IsWellFormed_example =
    memory_map_add-IsWellFormed memory_map_init low_memory memory_map_init-IsWellFormed
      add_low_memory

abbrev plan : Plan
plan = record { storage_phys = 4096; storage_bytes = 4096; bitmap_bytes = 1; span_frames = 8 }

plan_map : pmm_plan map ≡ some plan
unfolding pmm_plan plan_bounds plan_storage storage_size plan_place memory_align_up
    memory_is_page_aligned
plan_map = refl

pmm_plan-IsPlan_example : IsPlan map plan
pmm_plan-IsPlan_example = pmm_plan-IsPlan map plan_map

abbrev storage : List ℕ
storage = replicate 4096 7

-- Frames 0 and 1 are permanent, frames 2 to 7 are available.
abbrev initial : Pmm
initial = record {
  storage = 252 ∷ 3 ∷ replicate 4094 0;
  eligible = 0;
  occupied = 1;
  plan = plan;
  total_frames = 8;
  free_frames = 6;
  cursor = 0;
  initialized = true;
}

init_map : pmm_core_init false map plan storage ≡ some initial
unfolding pmm_core_init pmm_plan plan_bounds plan_storage storage_size plan_place memory_align_up
    memory_is_page_aligned reserve_metadata open_regions open_frames blank reserve_range
    reserve_bounds any_allocated reserve_frames bitmap_test bitmap_set
init_map = refl

pmm_core_init-Initial_example : Initial map plan initial
pmm_core_init-Initial_example =
    pmm_core_init-Initial map plan storage map-IsWellFormed
      (All-replicate IsByte 4096 7 (omega arith))
      (omega (arith, length-replicate 4096 (let x : ℕ = 7 in x))) init_map

memory_align_up_lem_example :
    ((memory_align_up 4097 ≡ none) ↔ (u64_max < 4097 + (page_size - 1)))
    × ((up : ℕ)
        → memory_align_up 4097 ≡ some up
        → (memory_is_page_aligned up ≡ true)
          × (4097 ≤ up)
          × (up < 4097 + page_size)
          × (memory_align_down up ≡ up))
memory_align_up_lem_example = memory_align_up_lem 4097

memory_page_index_lem_example :
    (0x7fff_ffff_f123
      ≡ memory_page_index 0x7fff_ffff_f123 4 * 2 ^ 39
        + memory_page_index 0x7fff_ffff_f123 3 * 2 ^ 30
        + memory_page_index 0x7fff_ffff_f123 2 * 2 ^ 21
        + memory_page_index 0x7fff_ffff_f123 1 * 2 ^ 12
        + 0x7fff_ffff_f123 % page_size)
    × (memory_page_index 0x7fff_ffff_f123 4 < 512)
    × (memory_page_index 0x7fff_ffff_f123 3 < 512)
    × (memory_page_index 0x7fff_ffff_f123 2 < 512)
    × (memory_page_index 0x7fff_ffff_f123 1 < 512)
memory_page_index_lem_example = memory_page_index_lem 0x7fff_ffff_f123 (omega arith)
