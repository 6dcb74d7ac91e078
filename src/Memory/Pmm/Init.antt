-- ===== src/Memory/Pmm/Init.antt =====
-- pmm_plan and pmm_core_init of kernel/memory/pmm_core.c: where the bitmaps go, and the first
-- state of the allocator.
use utamo_os.Common.{
  ℕ, suc, zero, ◌+◌, ◌-◌, ◌*◌, ◌/◌, ◌%◌, Bool, true, false, not, Option, none, some, List, [], ◌∷◌,
  ◌++◌, ltb, leb, ◌==◌, if◌then◌else◌, ◌&&◌, ◌||◌, u64_max, add64, length, take, drop, replicate,
}
use utamo_os.Memory.Helpers.{page_size, memory_align_up, memory_is_page_aligned}
use utamo_os.Memory.Map.{Region, MemoryMap, region_limit, usable, framebuffer}
use utamo_os.Memory.Bitmap.{bitmap_set}
use utamo_os.Memory.Pmm.{Plan, Pmm, reserve_range}

-- memset on the storage object
abbrev pub fill : List ℕ → ℕ → ℕ → ℕ → List ℕ
fill mem start value n = take start mem ++ (replicate n value ++ drop (start + n) mem)

-- The check of one region, with the bounds so far.
abbrev pub region_refused : Region → Bool
region_refused r = (r.length == 0) || ltb (u64_max - r.base) r.length || ltb framebuffer r.type

abbrev pub usable_refused : Region → ℕ → Bool
usable_refused r bytes =
    not (memory_is_page_aligned r.base)
    || not (memory_is_page_aligned r.length)
    || ltb (u64_max - bytes) r.length

-- The first loop of `pmm_plan`: `last_end` and `usable_bytes`, for regions in order of base.
unfoldable pub plan_bounds : List Region → ℕ → ℕ → ℕ → Option (ℕ × ℕ)
plan_bounds [] before last_end bytes = some (last_end, bytes)
plan_bounds (r ∷ rs) before last_end bytes =
    let skip = plan_bounds rs r.base last_end bytes in
    let end = add64 r.base r.length in
    let next =
      plan_bounds rs r.base (if ltb last_end end then end else last_end) (add64 bytes r.length) in
    if region_refused r || ltb r.base before
    then none
    else if not (r.type == usable)
    then skip
    else if usable_refused r bytes
    then none
    else next

-- The second loop: the first usable region, past page zero, that holds the bitmaps.
unfoldable pub plan_place : List Region → ℕ → Option ℕ
plan_place [] bytes = none
plan_place (r ∷ rs) bytes =
    let rest = plan_place rs bytes in
    let start = if r.base == 0 then page_size else r.base in
    let end = add64 r.base r.length in
    if not (r.type == usable)
    then rest
    else if leb start end && leb bytes (end - start)
    then some start
    else rest

-- the size of each bitmap, and of both rounded to pages
abbrev pub bitmap_size : ℕ → ℕ
bitmap_size frames = frames / 8 + (if not (frames % 8 == 0) then 1 else 0)

unfoldable pub storage_size : ℕ → Option ℕ
storage_size bitmap_bytes =
    if ltb (u64_max / 2) bitmap_bytes then none else memory_align_up (bitmap_bytes * 2)

unfoldable pub plan_storage : List Region → ℕ → Option Plan
plan_storage rs frames = elim (storage_size (bitmap_size frames)) [
  | none ↦ none
  | some bytes ↦ elim (plan_place rs bytes) [
    | none ↦ none
    | some start ↦ some (record {
      storage_phys = start;
      storage_bytes = bytes;
      bitmap_bytes = bitmap_size frames;
      span_frames = frames;
    })
  ]
]

unfoldable pub pmm_plan : MemoryMap → Option Plan
pmm_plan m =
    if (length m.regions == 0) || ltb region_limit (length m.regions)
    then none
    else elim (plan_bounds m.regions 0 0 0) [
      | none ↦ none
      | some (last_end, bytes) ↦
          if (last_end == 0) || not (bytes == m.usable_bytes)
          then none
          else plan_storage m.regions (last_end / page_size)
    ]

-- one frame, and each frame of a range: eligible and free
abbrev pub open_frame : Pmm → ℕ → Pmm
open_frame s frame = record s {
  storage = bitmap_set (bitmap_set s.storage s.eligible frame true) s.occupied frame false;
}

unfoldable pub open_frames : Pmm → ℕ → ℕ → Pmm
open_frames s zero frame = s
open_frames s (suc n) frame = open_frames (open_frame s frame) n (frame + 1)

unfoldable pub open_regions : Pmm → List Region → Pmm
open_regions s [] = s
open_regions s (r ∷ rs) =
    let first = r.base / page_size in
    let end = add64 r.base r.length / page_size in
    open_regions (if r.type == usable then open_frames s (end - first) first else s) rs

-- A call whose result is cast to void.
abbrev pub ignore : Pmm → Option Pmm → Pmm
ignore s none = s
ignore s (some t) = t

abbrev pub same_plan : Plan → Plan → Bool
same_plan p q =
    (p.storage_phys == q.storage_phys)
    && (p.storage_bytes == q.storage_bytes)
    && (p.bitmap_bytes == q.bitmap_bytes)
    && (p.span_frames == q.span_frames)

-- `initial`, with both bitmaps cleared
unfoldable pub blank : MemoryMap → Plan → List ℕ → Pmm
blank m plan storage = record {
  storage = fill (fill storage 0 0 plan.storage_bytes) plan.bitmap_bytes 255 plan.bitmap_bytes;
  eligible = 0;
  occupied = plan.bitmap_bytes;
  plan = plan;
  total_frames = m.usable_bytes / page_size;
  free_frames = m.usable_bytes / page_size;
  cursor = 0;
  initialized = true;
}

unfoldable pub reserve_metadata : Pmm → Plan → Pmm
reserve_metadata s plan =
    let low = ignore s (reserve_range s 0 page_size) in
    ignore low (reserve_range low plan.storage_phys plan.storage_bytes)

-- `initialized` is that of the state that is overwritten.
unfoldable pub pmm_core_init : Bool → MemoryMap → Plan → List ℕ → Option Pmm
pmm_core_init initialized m plan storage = if initialized then none else elim (pmm_plan m) [
  | none ↦ none
  | some expected ↦
      if not (same_plan plan expected)
      then none
      else some (reserve_metadata (open_regions (blank m plan storage) m.regions) plan)
]
