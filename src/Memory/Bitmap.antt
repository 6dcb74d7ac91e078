-- ===== src/Memory/Bitmap.antt =====
-- kernel/memory/pmm_core.c, bitmap_test and bitmap_set: one bit for each frame. The two bitmaps of
-- the allocator lie in one storage object, so a bitmap is that object's bytes and an offset.
use Prim.Native.Nat.{bit_and, bit_or}
use utamo_os.Common.{
  ℕ, ◌+◌, ◌-◌, ◌/◌, ◌^◌, ◌<◌, ◌≡◌, ◌≢◌, refl, Bool, true, false, not, ◌&&◌, List, arith, ltb, ◌==◌,
  if◌then◌else◌, same_bool, same_bool→eq, ltb→lt, ap, length, get_or, set, All, All-set, All-get_or,
  length-set, get_or-set_self, get_or-set_ne, low_bits, passes_below, passes_at,
}

abbrev pub IsByte : ℕ → Type 0
IsByte b = b < 256

abbrev pub test_byte : ℕ → ℕ → Bool
test_byte byte bit = not (bit_and byte (2 ^ bit) == 0)

abbrev pub set_byte : ℕ → ℕ → Bool → ℕ
set_byte byte bit value = if value then bit_or byte (2 ^ bit) else bit_and byte (255 - 2 ^ bit)

unfoldable pub bitmap_test : List ℕ → ℕ → ℕ → Bool
bitmap_test mem base frame =
    let bit = low_bits frame 3 in test_byte (get_or mem (base + frame / 8) 0) bit

unfoldable pub bitmap_set : List ℕ → ℕ → ℕ → Bool → List ℕ
bitmap_set mem base frame value =
    let index = base + frame / 8 in
    let bit = low_bits frame 3 in set mem index (set_byte (get_or mem index 0) bit value)

-- The law of one byte, at one position written and one read.
byte_ok : Bool → ℕ → ℕ → ℕ → Bool
byte_ok value byte i j =
    ltb (set_byte byte i value) 256
    && same_bool (test_byte (set_byte byte i value) j) (if i == j then value else test_byte byte j)

byte_table : Bool → Bool
byte_table value =
    passes_below (λ byte. passes_below (λ i. passes_below (λ j. byte_ok value byte i j) 8) 8) 256

byte_table-holds : (value : Bool) → byte_table value ≡ true
unfolding byte_table passes_below byte_ok
byte_table-holds true = refl
byte_table-holds false = refl

byte_ok-holds :
    (value : Bool) (byte i j : ℕ) → byte < 256 → i < 8 → j < 8 → byte_ok value byte i j ≡ true
unfolding byte_table
byte_ok-holds value byte i j hb hi hj =
    let row =
      passes_at (λ b. passes_below (λ i. passes_below (λ j. byte_ok value b i j) 8) 8) 256 hb
        (byte_table-holds value) in
    let cell = passes_at (λ i. passes_below (λ j. byte_ok value byte i j) 8) 8 hi row in
    passes_at (λ j. byte_ok value byte i j) 8 hj cell

and_true : (a b : Bool) → (a && b) ≡ true → (a ≡ true) × (b ≡ true)
and_true true b h = (refl, h)
and_true false b h = ground arith

test_byte-set_byte :
    (value : Bool) (byte i j : ℕ)
    → byte < 256
    → i < 8
    → j < 8
    → test_byte (set_byte byte i value) j ≡ (if i == j then value else test_byte byte j)
unfolding byte_ok
test_byte-set_byte value byte i j hb hi hj =
    same_bool→eq _ _ (and_true _ _ (byte_ok-holds value byte i j hb hi hj)).1

set_byte-IsByte : (value : Bool) (byte i : ℕ) → byte < 256 → i < 8 → IsByte (set_byte byte i value)
unfolding byte_ok
set_byte-IsByte value byte i hb hi =
    ltb→lt _ _ (and_true _ _ (byte_ok-holds value byte i i hb hi hi)).0

module _ (mem : List ℕ) (base frame : ℕ) (value : Bool) where
  pub length-bitmap_set : length (bitmap_set mem base frame value) ≡ length mem
  unfolding bitmap_set
  length-bitmap_set = length-set mem _ _

  module _ (bytes : All IsByte mem) where
    IsByte-here : IsByte (get_or mem (base + frame / 8) 0)
    IsByte-here = All-get_or IsByte mem _ 0 bytes (omega arith)

    pub bitmap_set-IsByte : All IsByte (bitmap_set mem base frame value)
    unfolding bitmap_set
    bitmap_set-IsByte =
        All-set IsByte mem _ _ bytes
          (set_byte-IsByte value _ (low_bits frame 3) IsByte-here (omega arith))

    module _ (inside : base + frame / 8 < length mem) where
      -- A bit reads back as it was written.
      pub test-set_self : bitmap_test (bitmap_set mem base frame value) base frame ≡ value
      unfolding bitmap_test bitmap_set
      test-set_self = ground (
        arith,
        get_or-set_self mem (base + frame / 8)
            (set_byte (get_or mem (base + frame / 8) 0) (low_bits frame 3) value) 0,
        test_byte-set_byte value (get_or mem (base + frame / 8) 0) (low_bits frame 3)
            (low_bits frame 3),
        IsByte-here,
      )

      -- In the same bitmap, every other bit stays.
      pub test-set_ne :
          (g : ℕ)
          → frame ≢ g
          → bitmap_test (bitmap_set mem base frame value) base g ≡ bitmap_test mem base g
      unfolding bitmap_test bitmap_set
      test-set_ne g ne = ground (
        arith,
        get_or-set_self mem (base + frame / 8)
            (set_byte (get_or mem (base + frame / 8) 0) (low_bits frame 3) value) 0,
        get_or-set_ne mem (base + frame / 8) (base + g / 8)
            (set_byte (get_or mem (base + frame / 8) 0) (low_bits frame 3) value) 0,
        test_byte-set_byte value (get_or mem (base + frame / 8) 0) (low_bits frame 3)
            (low_bits g 3),
        IsByte-here,
      )

  -- In a bitmap whose byte lies elsewhere, the bit stays.
  pub test-set_apart :
      (base' g : ℕ)
      → base + frame / 8 ≢ base' + g / 8
      → bitmap_test (bitmap_set mem base frame value) base' g ≡ bitmap_test mem base' g
  unfolding bitmap_test bitmap_set
  test-set_apart base' g ne =
      ap (λ b. test_byte b (low_bits g 3))
        (get_or-set_ne mem (base + frame / 8) (base' + g / 8) _ 0 ne)
