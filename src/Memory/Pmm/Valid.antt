-- ===== src/Memory/Pmm/Valid.antt =====
-- The invariant of `struct pmm_state`, the state of each frame that a client sees, and what one
-- bitmap write does to both.
use utamo_os.Common.{
  ℕ, ◌+◌, ◌*◌, ◌≤◌, ◌<◌, ◌≡◌, sym, Bool, true, false, arith, ◌==◌, if◌then◌else◌, length, All,
  u64_max, inl, inr, Bool-cases, ==_iff,
}
use utamo_os.Memory.Helpers.{page_size}
use utamo_os.Memory.Bitmap.{
  IsByte, bitmap_test, bitmap_set, length-bitmap_set, bitmap_set-IsByte, test-set_self, test-set_ne,
  test-set_apart,
}
use utamo_os.Memory.Pmm.{Pmm, is_eligible, is_occupied}
use utamo_os.Memory.Pmm.Count.{clear_count, set_count}

-- The storage is bytes, and the two bitmaps lie in it, apart, and cover the span. The span is a
-- range of byte addresses.
pub record HasLayout (s : Pmm) : Type 0 where
  pub bytes : All IsByte s.storage
  pub apart : s.eligible + s.plan.bitmap_bytes ≤ s.occupied
  pub fits : s.occupied + s.plan.bitmap_bytes ≤ length s.storage
  pub covers : s.plan.span_frames ≤ 8 * s.plan.bitmap_bytes
  pub small : s.plan.span_frames * page_size ≤ u64_max

pub record IsValid (s : Pmm) : Type 0 where
  pub ready : s.initialized ≡ true
  pub layout : HasLayout s
  -- what is not eligible is occupied, so the search needs one bitmap only
  pub closed : (g : ℕ) → g < s.plan.span_frames → is_eligible s g ≡ false → is_occupied s g ≡ true
  pub counted : s.free_frames ≡ clear_count (is_occupied s) s.plan.span_frames
  pub owned : set_count (is_eligible s) s.plan.span_frames ≤ s.total_frames
  pub total_small : s.total_frames ≤ u64_max
  pub cursor_in : s.cursor ≤ s.plan.span_frames

-- What the header says of the two bits of a frame.
pub data Frame : Type 0 where
  permanent available allocated : Frame

abbrev pub view : Pmm → ℕ → Frame
view s g = if is_eligible s g then if is_occupied s g then allocated else available else permanent

-- One write to the occupied bitmap, and one to the eligible bitmap.
module _ (s : Pmm) (v : Bool) (f : ℕ) (lay : HasLayout s) (inside : f < s.plan.span_frames) where
  open lay use {bytes, apart, fits, covers}

  pub occupied-write :
      (g : ℕ)
      → bitmap_test (bitmap_set s.storage s.occupied f v) s.occupied g
        ≡ (if f == g then v else is_occupied s g)
  occupied-write g = elim (Bool-cases (f == g)) [
    | inl e ↦
        rw e
          (rw (sym ((==_iff f g).0 e)) (test-set_self s.storage s.occupied f v bytes (omega arith)))
    | inr e ↦ rw e (test-set_ne s.storage s.occupied f v bytes (omega arith) g (ground arith))
  ]

  pub eligible-write_occupied :
      (g : ℕ)
      → g < s.plan.span_frames
      → bitmap_test (bitmap_set s.storage s.occupied f v) s.eligible g ≡ is_eligible s g
  eligible-write_occupied g l = test-set_apart s.storage s.occupied f v s.eligible g (omega arith)

  pub eligible-write :
      (g : ℕ)
      → bitmap_test (bitmap_set s.storage s.eligible f v) s.eligible g
        ≡ (if f == g then v else is_eligible s g)
  eligible-write g = elim (Bool-cases (f == g)) [
    | inl e ↦
        rw e
          (rw (sym ((==_iff f g).0 e)) (test-set_self s.storage s.eligible f v bytes (omega arith)))
    | inr e ↦ rw e (test-set_ne s.storage s.eligible f v bytes (omega arith) g (ground arith))
  ]

  pub occupied-write_eligible :
      (g : ℕ)
      → g < s.plan.span_frames
      → bitmap_test (bitmap_set s.storage s.eligible f v) s.occupied g ≡ is_occupied s g
  occupied-write_eligible g l = test-set_apart s.storage s.eligible f v s.occupied g (omega arith)

  pub HasLayout-write :
      (base : ℕ) → HasLayout (record s { storage = bitmap_set s.storage base f v })
  HasLayout-write base = record {
    bytes = bitmap_set-IsByte s.storage base f v bytes;
    apart = apart;
    fits = rw length-bitmap_set fits;
    covers = covers;
    small = lay.small;
  }
