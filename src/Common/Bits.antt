-- ===== src/Common/Bits.antt =====
-- The bitwise or of two numbers, digit by digit, and what its low bits say of both.
use Prim.Native.Nat.{ℕ, zero, suc, ◌+◌, ◌*◌, ◌/◌, ◌%◌, ◌≤◌, max, bit_or, digits, bit_or-bitwise}
use mathlib.Core.Path.{◌≡◌}
use native.Mathlib.Omega.{arith}

abbrev or_digits : ℕ → ℕ → ℕ → ℕ
or_digits n a b = digits (λ b. b) max n a b

zero-bit_or : (b : ℕ) → bit_or 0 b ≡ b
zero-bit_or = bit_or-bitwise 0

-- The recursion gives the or, whatever count of rounds it is given, if that is enough. The bound on
-- the count is what falls.
digits-eq-bit_or :
    (bound rounds a b : ℕ) → rounds ≤ bound → a ≤ rounds → or_digits rounds a b ≡ bit_or a b
digits-eq-bit_or bound zero zero b r h = omega (arith, zero-bit_or b)
digits-eq-bit_or bound (suc rounds) zero b r h = omega (arith, zero-bit_or b)
digits-eq-bit_or zero (suc rounds) (suc a) b r h = absurd (omega arith)
digits-eq-bit_or bound zero (suc a) b r h = absurd (omega arith)
digits-eq-bit_or (suc bound) (suc rounds) (suc a) b r h =
    let half = suc a / 2 in
    let long = digits-eq-bit_or bound rounds half (b / 2) (omega arith) (omega arith) in
    let short = digits-eq-bit_or bound a half (b / 2) (omega arith) (omega arith) in
    omega (arith, bit_or-bitwise (suc a) b)

bit_or_step : (a b : ℕ) → bit_or a b ≡ max (a % 2) (b % 2) + 2 * bit_or (a / 2) (b / 2)
bit_or_step zero b = let whole = zero-bit_or b in let half = zero-bit_or (b / 2) in omega arith
bit_or_step (suc a) b =
    let half = digits-eq-bit_or a a (suc a / 2) (b / 2) (omega arith) (omega arith) in
    omega (arith, bit_or-bitwise (suc a) b)

-- The numbers whose low bits, below the modulus `m`, are clear together.
abbrev Clear : ℕ → Type 0
Clear m = (a b : ℕ) → bit_or a b % m ≡ 0 → (a % m ≡ 0) × (b % m ≡ 0)

Clear-8 : Clear 8
Clear-8 a b h =
    omega (arith, bit_or_step a b, bit_or_step (a / 2) (b / 2), bit_or_step (a / 2 / 2) (b / 2 / 2))

Clear-64 : Clear 64
Clear-64 a b h =
    let x = bit_or_step a b in
    let y = bit_or_step (a / 2) (b / 2) in
    let z = bit_or_step (a / 2 / 2) (b / 2 / 2) in
    let (p, q) = Clear-8 (a / 2 / 2 / 2) (b / 2 / 2 / 2) (omega arith) in
    let (r, s) = Clear-8 a b (omega arith) in omega arith

Clear-512 : Clear 512
Clear-512 a b h =
    let x = bit_or_step a b in
    let y = bit_or_step (a / 2) (b / 2) in
    let z = bit_or_step (a / 2 / 2) (b / 2 / 2) in
    let (p, q) = Clear-64 (a / 2 / 2 / 2) (b / 2 / 2 / 2) (omega arith) in
    let (r, s) = Clear-8 a b (omega arith) in omega arith

-- A page mask of an or is clear when it is clear in both.
pub bit_or-clear_4096 : (a b : ℕ) → bit_or a b % 4096 ≡ 0 → (a % 4096 ≡ 0) × (b % 4096 ≡ 0)
bit_or-clear_4096 a b h =
    let x = bit_or_step a b in
    let y = bit_or_step (a / 2) (b / 2) in
    let z = bit_or_step (a / 2 / 2) (b / 2 / 2) in
    let (p, q) = Clear-512 (a / 2 / 2 / 2) (b / 2 / 2 / 2) (omega arith) in
    let (r, s) = Clear-8 a b (omega arith) in omega arith
