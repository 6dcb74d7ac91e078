-- ===== src/Memory/Pmm/Tests.antt =====
-- The allocator at a concrete state of eight frames, and the theorems there.
use utamo_os.Common.{
  ℕ, ◌+◌, ◌≤◌, ◌<◌, ◌≡◌, ◌≢◌, ◌↔◌, refl, true, false, ◌||◌, none, some, [], ◌∷◌, arith,
  if◌then◌else◌, ◌==◌, passes_below, passes_at, same_bool, ◌&&◌,
}
use utamo_os.Memory.Helpers.{memory_is_page_aligned, memory_align_up}
use utamo_os.Memory.Bitmap.{bitmap_test, bitmap_set}
use utamo_os.Memory.Pmm.{
  Pmm, Stats, get_stats, is_eligible, is_occupied, alloc_pages, free_pages, release, reserve_range,
  pin_page, range_frames, all_allocated, set_occupied, find_run, find_first, claim, reserve_bounds,
  any_allocated, reserve_frames, is_allocated_page,
}
use utamo_os.Memory.Pmm.Count.{in_range, clear_count}
use utamo_os.Memory.Pmm.Valid.{IsValid, view, permanent, available, allocated}
use utamo_os.Memory.Pmm.Alloc.{Granted, alloc_pages-Granted, alloc_pages_complete}
use utamo_os.Memory.Pmm.Free.{Freed, IsRange, AllAllocated, free_pages-Freed, free_pages_complete}
use utamo_os.Memory.Pmm.Reserve.{
  Withdrawn, touches, reserve_range-Withdrawn, reserve_range_complete,
}
use utamo_os.Memory.Pmm.Pin.{
  get_stats_lem, pin_page_lem, is_allocated_page_lem, free_pages-alloc_pages, free_pages_twice,
}

-- Frame 0 is permanent, frames 1 and 2 are allocated, frames 3 to 7 are available.
abbrev state : Pmm
state = record {
  storage = 254 ∷ 7 ∷ [];
  eligible = 0;
  occupied = 1;
  plan = record { storage_phys = 0; storage_bytes = 4096; bitmap_bytes = 1; span_frames = 8 };
  total_frames = 8;
  free_frames = 5;
  cursor = 3;
  initialized = true;
}

state-closed : passes_below (λ g. is_eligible state g || is_occupied state g) 8 ≡ true
unfolding passes_below bitmap_test
state-closed = refl

state-IsValid : IsValid state
unfolding bitmap_test
state-IsValid = record {
  ready = refl;
  layout = record {
    bytes = omega arith;
    apart = omega arith;
    fits = omega arith;
    covers = omega arith;
    small = omega arith;
  };
  closed = λ g l e. ground (arith, passes_at _ 8 l state-closed);
  counted = refl;
  owned = omega arith;
  total_small = omega arith;
  cursor_in = omega arith;
}

-- two pages after an allocation of two, and after their release
abbrev after_alloc : Pmm
after_alloc = record state { storage = 254 ∷ 31 ∷ []; free_frames = 3; cursor = 5 }

abbrev after_free : Pmm
after_free = record state { storage = 254 ∷ 1 ∷ []; free_frames = 7 }

alloc_two : alloc_pages state 2 ≡ some (12288, after_alloc)
unfolding alloc_pages find_first find_run claim set_occupied bitmap_test bitmap_set
alloc_two = refl

free_two : free_pages state 4096 2 ≡ some after_free
unfolding free_pages range_frames memory_is_page_aligned all_allocated release set_occupied
    bitmap_test bitmap_set
free_two = refl

pin_one : pin_page state 4096 ≡ some (record state { storage = 252 ∷ 7 ∷ [] })
unfolding pin_page range_frames memory_is_page_aligned bitmap_test bitmap_set
pin_one = refl

-- bytes 16383 to 16384 lie in frames 3 and 4
reserve_two :
    reserve_range state 16383 2 ≡ some (record state { storage = 230 ∷ 31 ∷ []; free_frames = 3 })
unfolding reserve_range reserve_bounds memory_align_up any_allocated reserve_frames bitmap_test
    bitmap_set
reserve_two = refl

alloc_pages-Granted_example : Granted state 2 12288 after_alloc
alloc_pages-Granted_example = alloc_pages-Granted state 2 state-IsValid alloc_two

alloc_pages_complete_example : (alloc_pages state 6 ≡ none) ↔ (
    (first : ℕ)
    → first + 6 ≤ 8
    → ¬ ((g : ℕ) → in_range first 6 g ≡ true → view state g ≡ available))
alloc_pages_complete_example = alloc_pages_complete state 6 state-IsValid (omega arith)

free_pages-Freed_example : Freed state 4096 2 after_free
free_pages-Freed_example = free_pages-Freed state 4096 2 state-IsValid free_two

-- the allocated frames are 1 and 2
state-taken :
    passes_below (λ g. same_bool (in_range 1 2 g) (is_eligible state g && is_occupied state g)) 8
    ≡ true
unfolding passes_below bitmap_test
state-taken = refl

AllAllocated-state : AllAllocated state 1 2
AllAllocated-state g r = let l : g < 8 = ground arith in ground (arith, passes_at _ 8 l state-taken)

free_pages_complete_example : free_pages state 4096 2 ≢ none
free_pages_complete_example =
    free_pages_complete state 4096 2 state-IsValid (omega arith, omega arith, omega arith)
      AllAllocated-state

reserve_range-Withdrawn_example :
    Withdrawn state (touches 16383 2) (record state { storage = 230 ∷ 31 ∷ []; free_frames = 3 })
    × ((g : ℕ) → g < 8 → touches 16383 2 g ≡ true → view state g ≢ allocated)
reserve_range-Withdrawn_example = reserve_range-Withdrawn state 16383 2 state-IsValid reserve_two

reserve_range_complete_example : reserve_range state 16383 2 ≢ none
reserve_range_complete_example =
    reserve_range_complete state 16383 2 state-IsValid (omega arith, omega arith)
      (λ g l r.
        let out : in_range 1 2 g ≡ false = ground arith in
        ground (arith, passes_at _ 8 l state-taken))

pin_page_lem_example :
    let t : Pmm = record state { storage = 252 ∷ 7 ∷ [] } in
    IsRange state 4096 1
    × (view state 1 ≡ allocated)
    × ((g : ℕ) → g < 8 → view t g ≡ (if 1 == g then permanent else view state g))
    × (t.free_frames ≡ 5)
    × IsValid t
pin_page_lem_example = pin_page_lem state 4096 state-IsValid pin_one

is_allocated_page_lem_example :
    (is_allocated_page state 4096 ≡ true) ↔ (IsRange state 4096 1 × (view state 1 ≡ allocated))
is_allocated_page_lem_example = is_allocated_page_lem state 4096 refl

free_pages-alloc_pages_example :
    (u : Pmm) × (free_pages after_alloc 12288 2 ≡ some u)
    × ((g : ℕ) → g < 8 → view u g ≡ view state g)
    × (u.free_frames ≡ 5)
free_pages-alloc_pages_example = free_pages-alloc_pages state 2 state-IsValid alloc_two

free_pages_twice_example : free_pages after_free 4096 2 ≡ none
free_pages_twice_example = free_pages_twice state 4096 2 state-IsValid free_two

get_stats_lem_example :
    (st : Stats) × (get_stats state ≡ some st)
    × (st.free_frames ≡ clear_count (is_occupied state) 8)
    × (st.used_frames + st.free_frames ≡ st.total_frames)
    × (st.total_frames ≡ 8)
    × (st.bitmap_phys ≡ 0)
    × (st.bitmap_bytes ≡ 1)
    × (st.storage_bytes ≡ 4096)
    × (st.span_frames ≡ 8)
get_stats_lem_example = get_stats_lem state state-IsValid
