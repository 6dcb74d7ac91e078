-- ===== src/Memory/Pmm.antt =====
-- kernel/memory/pmm_core.c and include/utamo/pmm_core.h: the physical page allocator. Its two
-- bitmaps are offsets into one storage object, as `pmm_core_init` lays them out. A `for` over the
-- frames `first..end` is a recursion on the `end - first` rounds that are left. `none` is the
-- result false, with the state and every output left alone.
pub mod Init
pub mod Opened
pub mod Planning
pub mod Start
pub mod Initial
pub mod Count
pub mod Valid
pub mod Ranges
pub mod Search
pub mod Alloc
pub mod Free
pub mod Reserve
pub mod Pin
mod Tests
use utamo_os.Common.{
  ℕ, zero, suc, ◌+◌, ◌-◌, ◌*◌, ◌/◌, Bool, true, false, not, ◌&&◌, ◌||◌, Option, none, some, List,
  ltb, leb, ◌==◌, if◌then◌else◌, u64_max, add64, sub64,
}
use utamo_os.Memory.Helpers.{page_size, memory_align_up, memory_is_page_aligned}
use utamo_os.Memory.Bitmap.{bitmap_test, bitmap_set}

pub record Plan : Type 0 where
  pub storage_phys : ℕ
  pub storage_bytes : ℕ
  pub bitmap_bytes : ℕ
  pub span_frames : ℕ

pub record Pmm : Type 0 where
  pub storage : List ℕ
  pub eligible : ℕ
  pub occupied : ℕ
  pub plan : Plan
  pub total_frames : ℕ
  pub free_frames : ℕ
  pub cursor : ℕ
  pub initialized : Bool

pub record Stats : Type 0 where
  pub total_frames : ℕ
  pub free_frames : ℕ
  pub used_frames : ℕ
  pub bitmap_phys : ℕ
  pub bitmap_bytes : ℕ
  pub storage_bytes : ℕ
  pub span_frames : ℕ

abbrev pub is_eligible : Pmm → ℕ → Bool
is_eligible s frame = bitmap_test s.storage s.eligible frame

abbrev pub is_occupied : Pmm → ℕ → Bool
is_occupied s frame = bitmap_test s.storage s.occupied frame

-- `*first` and `*end`
unfoldable pub range_frames : Pmm → ℕ → ℕ → Option (ℕ × ℕ)
range_frames s phys count =
    if not s.initialized || (count == 0) || not (memory_is_page_aligned phys)
    then none
    else let frame = phys / page_size in
      if leb s.plan.span_frames frame || ltb (s.plan.span_frames - frame) count
      then none
      else some (frame, frame + count)

-- Some frame of the range is allocated.
unfoldable pub any_allocated : Pmm → ℕ → ℕ → Bool
any_allocated s zero frame = false
any_allocated s (suc n) frame =
    let rest = any_allocated s n (frame + 1) in
    if is_eligible s frame && is_occupied s frame then true else rest

-- Every frame of the range is allocated.
unfoldable pub all_allocated : Pmm → ℕ → ℕ → Bool
all_allocated s zero frame = true
all_allocated s (suc n) frame =
    let rest = all_allocated s n (frame + 1) in
    if not (is_eligible s frame) || not (is_occupied s frame) then false else rest

abbrev pub reserve_frame : Pmm → ℕ → Pmm
reserve_frame s frame =
    if is_eligible s frame
    then record s {
      storage = bitmap_set (bitmap_set s.storage s.eligible frame false) s.occupied frame true;
      free_frames = sub64 s.free_frames 1;
    }
    else s

unfoldable pub reserve_frames : Pmm → ℕ → ℕ → Pmm
reserve_frames s zero frame = s
reserve_frames s (suc n) frame = reserve_frames (reserve_frame s frame) n (frame + 1)

abbrev pub clip : ℕ → ℕ → ℕ
clip span end = if ltb span end then span else end

-- the frames that a range of bytes touches, inside the managed span
unfoldable pub reserve_bounds : Pmm → ℕ → ℕ → Option (ℕ × ℕ)
reserve_bounds s phys bytes =
    if not s.initialized || (bytes == 0) || ltb (u64_max - phys) bytes
    then none
    else elim (memory_align_up (add64 phys bytes)) [
      | none ↦ none
      | some end_address ↦
          some (phys / page_size, clip s.plan.span_frames (end_address / page_size))
    ]

unfoldable pub reserve_range : Pmm → ℕ → ℕ → Option Pmm
reserve_range s phys bytes = elim (reserve_bounds s phys bytes) [
  | none ↦ none
  | some (first, end) ↦
      if any_allocated s (end - first) first
      then none
      else some (reserve_frames s (end - first) first)
]

-- The argument `n` counts the frames that are left to scan, `run` the free ones just passed.
unfoldable pub find_run : Pmm → ℕ → ℕ → ℕ → ℕ → Option ℕ
find_run s count zero frame run = none
find_run s count (suc n) frame run =
    let longer = find_run s count n (frame + 1) (run + 1) in
    let again = find_run s count n (frame + 1) 0 in
    if not (is_occupied s frame)
    then if run + 1 == count then some (frame - (count - 1)) else longer
    else again

-- from the cursor on, and if that fails from frame 0
unfoldable pub find_first : Pmm → ℕ → Option ℕ
find_first s count = elim (find_run s count (s.plan.span_frames - s.cursor) s.cursor 0) [
  | some first ↦ some first
  | none ↦ if s.cursor == 0 then none else find_run s count s.plan.span_frames 0 0
]

-- writes `value` into the occupied bitmap over a range
unfoldable pub set_occupied : Pmm → Bool → ℕ → ℕ → Pmm
set_occupied s value zero frame = s
set_occupied s value (suc n) frame =
    set_occupied (record s { storage = bitmap_set s.storage s.occupied frame value }) value n
      (frame + 1)

-- what follows a successful search: the address and the new state
unfoldable pub claim : Pmm → ℕ → ℕ → ℕ × Pmm
claim s count first =
    let end = first + count in
    let marked = set_occupied s true count first in
    (
      first * page_size,
      record marked {
        free_frames = sub64 marked.free_frames count;
        cursor = if end == marked.plan.span_frames then 0 else end;
      },
    )

unfoldable pub alloc_pages : Pmm → ℕ → Option (ℕ × Pmm)
alloc_pages s count =
    if not s.initialized || (count == 0) || ltb s.free_frames count
    then none
    else elim (find_first s count) [ none ↦ none | some first ↦ some (claim s count first) ]

-- the writes of a release that was accepted
unfoldable pub release : Pmm → ℕ → ℕ → ℕ → Pmm
release s count first n =
    let cleared = set_occupied s false n first in
    record cleared { free_frames = add64 cleared.free_frames count }

unfoldable pub free_pages : Pmm → ℕ → ℕ → Option Pmm
free_pages s phys count = elim (range_frames s phys count) [
  | none ↦ none
  | some (first, end) ↦
      if all_allocated s (end - first) first
      then some (release s count first (end - first))
      else none
]

unfoldable pub pin_page : Pmm → ℕ → Option Pmm
pin_page s phys = elim (range_frames s phys 1) [
  | none ↦ none
  | some (first, end) ↦
      if not (is_eligible s first) || not (is_occupied s first)
      then none
      else some (record s { storage = bitmap_set s.storage s.eligible first false })
]

unfoldable pub is_allocated_page : Pmm → ℕ → Bool
is_allocated_page s phys = elim (range_frames s phys 1) [
  | none ↦ false
  | some (first, end) ↦ is_eligible s first && is_occupied s first
]

unfoldable pub get_stats : Pmm → Option Stats
get_stats s =
    if not s.initialized
    then none
    else some (record {
      total_frames = s.total_frames;
      free_frames = s.free_frames;
      used_frames = sub64 s.total_frames s.free_frames;
      bitmap_phys = s.plan.storage_phys;
      bitmap_bytes = s.plan.bitmap_bytes;
      storage_bytes = s.plan.storage_bytes;
      span_frames = s.plan.span_frames;
    })
