-- ===== src/Common/Bytes.antt =====
-- Machine words: wrap-around at 64 bits, masks and shifts at a constant, and facts about a byte
-- that are checked at all of its values.
use Prim.Native.Nat.{ℕ, zero, suc, ◌+◌, ◌-◌, ◌%◌, ◌^◌, ◌<◌}
use mathlib.Core.Path.{◌≡◌}
use mathlib.Core.Bool.{Bool, true, false}
use mathlib.Core.Logic.{inl, inr}
use native.Mathlib.Omega.{arith}
use utamo_os.Common.Bools.{if◌then◌else◌, ◌==◌, Bool-cases, ==_iff}

-- UINT64_MAX, which is SIZE_MAX too
abbrev pub u64_max : ℕ
u64_max = 2 ^ 64 - 1

-- a + b and a - b on uint64_t
abbrev pub add64 : ℕ → ℕ → ℕ
add64 a b = (a + b) % 2 ^ 64

abbrev pub sub64 : ℕ → ℕ → ℕ
sub64 a b = (a + 2 ^ 64 - b) % 2 ^ 64

-- x & (2 ^ k - 1)
abbrev pub low_bits : ℕ → ℕ → ℕ
low_bits x k = x % 2 ^ k

-- x & ~(2 ^ k - 1)
abbrev pub clear_low : ℕ → ℕ → ℕ
clear_low x k = x - x % 2 ^ k

-- Whether a test passes at every number below a bound, for tables that are checked by running.
unfoldable pub passes_below : (ℕ → Bool) → ℕ → Bool
passes_below test zero = true
passes_below test (suc bound) = if test bound then passes_below test bound else false

pub passes_at :
    (test : ℕ → Bool) (bound : ℕ) {n : ℕ}
    → n < bound
    → passes_below test bound ≡ true
    → test n ≡ true
unfolding passes_below
passes_at test zero below table = elim below [ ]
passes_at test (suc bound) {n} below table = elim (Bool-cases (n == bound)) [
  | inl last ↦ rw ((==_iff n bound).0 last) (ground arith)
  | inr other ↦ passes_at test bound (ground arith) (ground arith)
]
