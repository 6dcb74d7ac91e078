-- ===== src/Net/Checksum.antt =====
-- kernel/net/ipv4.c, net_checksum: the Internet checksum, against the sum of the words.
use utamo_os.Common.{
  ℕ, zero, suc, ◌+◌, ◌-◌, ◌*◌, ◌/◌, ◌%◌, ◌^◌, ◌≤◌, ◌<◌, ◌≡◌, ◌≢◌, refl, sym, ap, ◌∙◌, List, [], ◌∷◌,
  All, ltb, if◌then◌else◌, arith, Bool-cases, inl, inr, ltb→lt,
}
use utamo_os.Net.Packet.{IsByte}

-- sum = (sum & 0xffff) + (sum >> 16)
abbrev pub fold : ℕ → ℕ
fold sum = sum % 2 ^ 16 + sum / 2 ^ 16

-- The loop over the pairs of bytes, and the byte that is left over; sums are of 32 bits.
unfoldable pub add_words : ℕ → List ℕ → ℕ
add_words sum [] = sum
add_words sum (a ∷ []) = (sum + a * 256) % 2 ^ 32
add_words sum (a ∷ b ∷ p) = add_words (fold ((sum + (a * 256 + b)) % 2 ^ 32)) p

-- while (sum >> 16) fold; `fuel` bounds the rounds.
unfoldable pub fold_all : ℕ → ℕ → ℕ
fold_all zero sum = sum
fold_all (suc fuel) sum =
    let rest = fold_all fuel (fold sum) in if ltb 0 (sum / 2 ^ 16) then rest else sum

-- Sixteen rounds are more than the loop takes.
unfoldable pub net_checksum : List ℕ → ℕ
unfolding add_words fold_all
net_checksum p = 2 ^ 16 - 1 - fold_all 16 (add_words 0 p) % 2 ^ 16

-- The sum of the big-endian words, the last padded with a zero byte.
abbrev pub word_total : List ℕ → ℕ
word_total [] = 0
word_total (a ∷ []) = a * 256
word_total (a ∷ b ∷ p) = a * 256 + b + word_total p

-- The one's complement sum of a total: the residue modulo 65535, from 1 to 65535 when positive.
abbrev pub ones_sum : ℕ → ℕ
ones_sum zero = 0
ones_sum (suc n) = suc (n % 65535)

ones_sum-congruent : (a b k : ℕ) → a ≡ b + 65535 * k → (b ≡ 0 → a ≡ 0) → ones_sum a ≡ ones_sum b
ones_sum-congruent zero zero k e h = refl
ones_sum-congruent (suc a) zero k e h = let x = h refl in omega arith
ones_sum-congruent zero (suc b) k e h = omega arith
ones_sum-congruent (suc a) (suc b) k e h = omega arith

ones_sum-fold_more : (sum more : ℕ) → ones_sum (sum + more) ≡ ones_sum (fold sum + more)
ones_sum-fold_more sum more =
    ones_sum-congruent (sum + more) (fold sum + more) (sum / 2 ^ 16) (omega arith)
      (λ e. omega arith)

ones_sum-small : (n : ℕ) → n < 2 ^ 16 → ones_sum n ≡ n
ones_sum-small zero h = refl
ones_sum-small (suc n) h = omega arith

add_words-lem :
    (sum : ℕ) (p : List ℕ)
    → sum < 2 ^ 17
    → All IsByte p
    → (add_words sum p < 2 ^ 18) × (ones_sum (add_words sum p) ≡ ones_sum (sum + word_total p))
unfolding add_words
add_words-lem sum [] h bytes = (omega arith, ap ones_sum (omega arith))
add_words-lem sum (a ∷ []) h (byte, _) = (omega arith, ap ones_sum (omega arith))
add_words-lem sum (a ∷ b ∷ p) h (byte, (byte', bytes)) =
    let added : (sum + (a * 256 + b)) % 2 ^ 32 ≡ sum + (a * 256 + b) = omega arith in
    let folded = fold ((sum + (a * 256 + b)) % 2 ^ 32) in
    let (small, total) = add_words-lem folded p (omega arith) bytes in
    let step : ones_sum (sum + (a * 256 + b) + word_total p) ≡ ones_sum (folded + word_total p) =
      ap (λ n. ones_sum (n + word_total p)) (sym added)
      ∙ ones_sum-fold_more ((sum + (a * 256 + b)) % 2 ^ 32) (word_total p) in
    (small, total ∙ sym step ∙ ap ones_sum (omega arith))

fold_all-small : (fuel sum : ℕ) → sum < 2 ^ 16 → fold_all fuel sum ≡ sum
unfolding fold_all
fold_all-small zero sum h = refl
fold_all-small (suc fuel) sum h = ground arith

fold_all-step : (fuel sum : ℕ) → 2 ^ 16 ≤ sum → fold_all (suc fuel) sum ≡ fold_all fuel (fold sum)
unfolding fold_all
fold_all-step fuel sum h = ground arith

ones_sum-fold : (sum : ℕ) → ones_sum (fold sum) ≡ ones_sum sum
ones_sum-fold sum =
    ap ones_sum (omega arith) ∙ sym (ones_sum-fold_more sum 0) ∙ ap ones_sum (omega arith)

fold_all-reach :
    (fuel sum : ℕ)
    → (fold_all fuel (fold sum) ≡ ones_sum (fold sum))
    → 2 ^ 16 ≤ sum
    → fold_all (suc fuel) sum ≡ ones_sum sum
fold_all-reach fuel sum e h = fold_all-step fuel sum h ∙ e ∙ ones_sum-fold sum

fold_all-done : (fuel sum : ℕ) → sum < 2 ^ 16 → fold_all fuel sum ≡ ones_sum sum
fold_all-done fuel sum h = fold_all-small fuel sum h ∙ sym (ones_sum-small sum h)

-- Two rounds suffice for what the loop over the words leaves.
fold_all-lem : (fuel sum : ℕ) → sum < 2 ^ 18 → fold_all (suc (suc fuel)) sum ≡ ones_sum sum
fold_all-lem fuel sum h = elim (Bool-cases (ltb sum (2 ^ 16))) [
  | inl small ↦ fold_all-done (suc (suc fuel)) sum (ltb→lt sum (2 ^ 16) small)
  | inr large ↦
      let second : fold_all (suc fuel) (fold sum) ≡ ones_sum (fold sum) =
        elim (Bool-cases (ltb (fold sum) (2 ^ 16))) [
          | inl small ↦ fold_all-done (suc fuel) (fold sum) (ltb→lt (fold sum) (2 ^ 16) small)
          | inr more ↦
              fold_all-reach fuel (fold sum) (fold_all-done fuel (fold (fold sum)) (ground arith))
                (ground arith)
        ] in
      fold_all-reach (suc fuel) sum second (ground arith)
]

ones_sum-lt : (n : ℕ) → ones_sum n < 2 ^ 16
ones_sum-lt zero = omega arith
ones_sum-lt (suc n) = omega arith

-- The checksum of a list of bytes is the complement of the one's complement sum of its
-- big-endian words, the last padded with a zero byte when their count is odd.
pub net_checksum-ones_sum :
    (p : List ℕ) → All IsByte p → net_checksum p ≡ 65535 - ones_sum (word_total p)
unfolding net_checksum
net_checksum-ones_sum p bytes =
    let (small, total) = add_words-lem 0 p (omega arith) bytes in
    let folded : fold_all 16 (add_words 0 p) ≡ ones_sum (word_total p) =
      fold_all-lem 14 (add_words 0 p) small ∙ total ∙ ap ones_sum (omega arith) in
    let below = ones_sum-lt (word_total p) in omega arith

-- Data with the checksum in it passes.
pub net_checksum-passes :
    (p : List ℕ) → All IsByte p → word_total p ≢ 0 → word_total p % 65535 ≡ 0 → net_checksum p ≡ 0
net_checksum-passes p bytes positive divides =
    net_checksum-ones_sum p bytes ∙ full (word_total p) positive divides
  where
    full : (n : ℕ) → n ≢ 0 → n % 65535 ≡ 0 → 65535 - ones_sum n ≡ 0
    full zero h d = absurd (h refl)
    full (suc n) h d = omega arith

-- The checksum of a total makes it divisible.
pub ones_sum-completes : (n : ℕ) → n ≢ 0 → (n + (65535 - ones_sum n)) % 65535 ≡ 0
ones_sum-completes zero h = absurd (h refl)
ones_sum-completes (suc n) h = omega arith

-- And so does UINT16_MAX where the checksum is 0.
pub ones_sum-full : (n : ℕ) → 65535 - ones_sum n ≡ 0 → (n + 65535) % 65535 ≡ 0
ones_sum-full zero h = absurd (omega arith)
ones_sum-full (suc n) h = omega arith
