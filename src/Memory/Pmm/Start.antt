-- ===== src/Memory/Pmm/Start.antt =====
-- pmm_core_init: the storage as its two memset calls leave it.
use utamo_os.Common.{
  ℕ, suc, zero, ◌+◌, ◌-◌, ◌/◌, ◌≤◌, ◌<◌, ◌≡◌, refl, sym, ap, ◌∙◌, true, false, not, List, [], ◌∷◌,
  ◌++◌, arith, ◌&&◌, All, length, low_bits, take, drop, replicate, length-append, length-replicate,
  get_or, get_or-append_left, get_or-append_right, get_or-replicate, All-append, All-replicate,
  passes_below, passes_at,
}
use utamo_os.Memory.Map.{MemoryMap}
use utamo_os.Memory.Bitmap.{IsByte, test_byte, bitmap_test}
use utamo_os.Memory.Pmm.{Plan, is_eligible, is_occupied}
use utamo_os.Memory.Pmm.Init.{fill, blank}
use utamo_os.Memory.Pmm.Valid.{HasLayout}
use utamo_os.Memory.Pmm.Planning.{IsPlan}

length-take : (mem : List ℕ) (n : ℕ) → n ≤ length mem → length (take n mem) ≡ n
length-take mem zero h = refl
length-take [] (suc n) h = absurd (omega arith)
length-take (x ∷ xs) (suc n) h = ap suc (length-take xs n (omega arith))

length-drop : (mem : List ℕ) (n : ℕ) → length (drop n mem) ≡ length mem - n
length-drop mem zero = omega arith
length-drop [] (suc n) = omega arith
length-drop (x ∷ xs) (suc n) = omega (arith, length-drop xs n)

All-take : (mem : List ℕ) (n : ℕ) → All IsByte mem → All IsByte (take n mem)
All-take mem zero h = tt
All-take [] (suc n) h = tt
All-take (x ∷ xs) (suc n) h = (h.0, All-take xs n h.1)

All-drop : (mem : List ℕ) (n : ℕ) → All IsByte mem → All IsByte (drop n mem)
All-drop mem zero h = h
All-drop [] (suc n) h = tt
All-drop (x ∷ xs) (suc n) h = All-drop xs n h.1

get_or-take :
    (mem : List ℕ) (n i : ℕ) → i < n → n ≤ length mem → get_or (take n mem) i 0 ≡ get_or mem i 0
get_or-take mem zero i h k = absurd (omega arith)
get_or-take [] (suc n) i h k = absurd (omega arith)
get_or-take (x ∷ xs) (suc n) zero h k = refl
get_or-take (x ∷ xs) (suc n) (suc i) h k = get_or-take xs n i (omega arith) (omega arith)

module _ (mem : List ℕ) (start value n : ℕ) (room : start + n ≤ length mem) where
  length-fill : length (fill mem start value n) ≡ length mem
  length-fill = omega (
    arith,
    length-append (take start mem) (replicate n value ++ drop (start + n) mem),
    length-append (replicate n value) (drop (start + n) mem),
    length-take mem start (omega arith),
    length-replicate n value,
    length-drop mem (start + n),
  )

  fill-IsByte : All IsByte mem → IsByte value → All IsByte (fill mem start value n)
  fill-IsByte h v = All-append IsByte (take start mem) _ (All-take mem start h) (
      All-append IsByte (replicate n value) _ (All-replicate IsByte n value v)
        (All-drop mem (start + n) h))

  get_or-fill : (i : ℕ) → i < n → get_or (fill mem start value n) (start + i) 0 ≡ value
  get_or-fill i h =
      let front = length-take mem start (omega arith) in
      ap (λ k. get_or (fill mem start value n) (k + i) 0) (sym front)
      ∙ get_or-append_right (take start mem) _ i 0
      ∙ get_or-append_left (replicate n value) _ i 0 (rw length-replicate h)
      ∙ get_or-replicate n i value 0 h

  get_or-fill_before : (i : ℕ) → i < start → get_or (fill mem start value n) i 0 ≡ get_or mem i 0
  get_or-fill_before i h =
      get_or-append_left (take start mem) _ i 0 (rw (length-take mem start (omega arith)) h)
      ∙ get_or-take mem start i h (omega arith)

ends_table : passes_below (λ k. not (test_byte 0 k) && test_byte 255 k) 8 ≡ true
unfolding passes_below
ends_table = refl

test_ends : (k : ℕ) → k < 8 → (test_byte 0 k ≡ false) × (test_byte 255 k ≡ true)
test_ends k h = ground (arith, passes_at _ 8 h ends_table)

module _ (m : MemoryMap) (plan : Plan) (storage : List ℕ) (p : IsPlan m plan)
    (bytes : All IsByte storage) (room : plan.storage_bytes ≤ length storage) where
  cleared : List ℕ
  cleared = fill storage 0 0 plan.storage_bytes

  length-cleared : length cleared ≡ length storage
  unfolding cleared
  length-cleared = length-fill storage 0 0 plan.storage_bytes (omega arith)

  pub HasLayout-blank : HasLayout (blank m plan storage)
  unfolding blank cleared
  HasLayout-blank =
      let fits : plan.bitmap_bytes + plan.bitmap_bytes ≤ length cleared =
        omega (arith, length-cleared, p.both) in
      record {
        bytes =
            fill-IsByte cleared plan.bitmap_bytes 255 plan.bitmap_bytes fits
              (fill-IsByte storage 0 0 plan.storage_bytes (omega arith) bytes (omega arith))
              (omega arith);
        apart = omega arith;
        fits = rw (length-fill cleared plan.bitmap_bytes 255 plan.bitmap_bytes fits) fits;
        covers = ground (arith, p.bitmap);
        small = p.span_small;
      }

  -- Every frame of the span starts neither eligible nor free.
  pub blank-bits :
      (g : ℕ)
      → g < plan.span_frames
      → (is_eligible (blank m plan storage) g ≡ false)
        × (is_occupied (blank m plan storage) g ≡ true)
  unfolding blank cleared bitmap_test
  blank-bits g l =
      let fits : plan.bitmap_bytes + plan.bitmap_bytes ≤ length cleared =
        omega (arith, length-cleared, p.both) in
      let inside : g / 8 < plan.bitmap_bytes = ground (arith, p.bitmap) in
      let (off, on) = test_ends (low_bits g 3) (omega arith) in
      let low =
        get_or-fill_before cleared plan.bitmap_bytes 255 plan.bitmap_bytes fits (0 + g / 8)
          (omega arith) in
      let nil =
        get_or-fill storage 0 0 plan.storage_bytes (omega arith) (g / 8) (omega (arith, p.both)) in
      let high = get_or-fill cleared plan.bitmap_bytes 255 plan.bitmap_bytes fits (g / 8) inside in
      (
        ap (λ b. test_byte b (low_bits g 3)) (low ∙ nil) ∙ off,
        ap (λ b. test_byte b (low_bits g 3)) high ∙ on,
      )
