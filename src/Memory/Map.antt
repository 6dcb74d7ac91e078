-- ===== src/Memory/Map.antt =====
-- kernel/memory/memory_map.c and include/utamo/memory_map.h: the boot memory map. The entries
-- `regions[0..count)` are a list, so `count` is its length.
pub mod Valid
use Prim.Native.Nat.{bit_or}
use utamo_os.Common.{
  ℕ, ◌+◌, ◌-◌, Bool, true, false, not, ◌&&◌, ◌||◌, Option, none, some, List, [], ◌∷◌, ◌++◌, ltb,
  leb, ◌==◌, if◌then◌else◌, length, u64_max, add64, low_bits,
}

-- UTAMO_MEMORY_REGION_LIMIT
abbrev pub region_limit : ℕ
region_limit = 512

-- enum memory_type: a number, since the code checks its range.
abbrev pub usable : ℕ
usable = 0

abbrev pub bootloader_reclaimable : ℕ
bootloader_reclaimable = 5

abbrev pub framebuffer : ℕ
framebuffer = 7

pub record Region : Type 0 where
  pub base : ℕ
  pub length : ℕ
  pub type : ℕ

pub record MemoryMap : Type 0 where
  pub regions : List Region
  pub usable_bytes : ℕ
  pub bootloader_reclaimable_bytes : ℕ

abbrev pub memory_map_init : MemoryMap
memory_map_init = record { regions = []; usable_bytes = 0; bootloader_reclaimable_bytes = 0 }

unfoldable pub requires_exclusive_region : ℕ → Bool
requires_exclusive_region type = (type == usable) || (type == bootloader_reclaimable)

-- `map->count != 0 && region->base < map->regions[map->count - 1].base`
unfoldable pub starts_before_last : List Region → Region → Bool
starts_before_last [] r = false
starts_before_last (p ∷ []) r = ltb r.base p.base
starts_before_last (p ∷ q ∷ ps) r = starts_before_last (q ∷ ps) r

abbrev pub conflicts : Region → Region → Bool
conflicts p r =
    (requires_exclusive_region r.type || requires_exclusive_region p.type)
    && ltb r.base (add64 p.base p.length)
    && ltb p.base (add64 r.base r.length)

unfoldable pub any_conflict : List Region → Region → Bool
any_conflict [] r = false
any_conflict (p ∷ ps) r = conflicts p r || any_conflict ps r

unfoldable pub append_region : MemoryMap → Region → Option MemoryMap
append_region m r =
    if r.type == usable
    then if ltb (u64_max - m.usable_bytes) r.length
      then none
      else some (record m {
        regions = m.regions ++ (r ∷ []);
        usable_bytes = add64 m.usable_bytes r.length;
      })
    else if r.type == bootloader_reclaimable
    then if ltb (u64_max - m.bootloader_reclaimable_bytes) r.length
      then none
      else some (record m {
        regions = m.regions ++ (r ∷ []);
        bootloader_reclaimable_bytes = add64 m.bootloader_reclaimable_bytes r.length;
      })
    else some (record m { regions = m.regions ++ (r ∷ []) })

-- `none` is the result false, with the map left alone.
unfoldable pub memory_map_add : MemoryMap → Region → Option MemoryMap
memory_map_add m r =
    if leb region_limit (length m.regions)
      || ltb framebuffer r.type
      || (r.length == 0)
      || ltb (u64_max - r.base) r.length
    then none
    else if starts_before_last m.regions r
    then none
    else if requires_exclusive_region r.type && not (low_bits (bit_or r.base r.length) 12 == 0)
    then none
    else if any_conflict m.regions r
    then none
    else append_region m r
