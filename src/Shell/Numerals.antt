-- ===== src/Shell/Numerals.antt =====
-- The number parsers of kernel/lib/shell_line.c against numerals in positional notation.
use utamo_os.Common.{
  ℕ, suc, ◌+◌, ◌-◌, ◌*◌, ◌^◌, ◌≤◌, ◌<◌, ◌≡◌, refl, sym, ap, ◌∙◌, Bool, ◌&&◌, Option, none, some,
  List, [], ◌∷◌, leb, ltb, ◌==◌, if◌then◌else◌, u64_max, length, inl, inr, Option-cases, Bool-cases,
  arith,
}
use mathlib.Core.Path.{fun_ext}
use native.Mathlib.Nat.{
  add-mul, mul_assoc, mul-le-mul_left, pow-succ', one-le-pow, pow-le-pow_right,
}
use utamo_os.Shell.Numbers.{
  hex_digit, skip_prefix, hex_loop, shell_parse_u64_hex, dec_loop, shell_parse_u64_dec,
}

abbrev pub dec_digit : ℕ → Option ℕ
dec_digit c = if leb b'0' c && leb c b'9' then some (c - b'0') else none

abbrev add_to : ℕ → Option ℕ → Option ℕ
add_to n none = none
add_to n (some v) = some (n + v)

add_to_zero : (p : ℕ) (o : Option ℕ) → add_to (0 * p) o ≡ o
add_to_zero p none = refl
add_to_zero p (some v) = ap some (omega arith)

abbrev add_digit : Option ℕ → ℕ → Option ℕ → Option ℕ
add_digit none place rest = none
add_digit (some d) place rest = add_to (d * place) rest

-- The value of a numeral: each digit times the power of the base at its place.
unfoldable pub value : (ℕ → Option ℕ) → ℕ → List ℕ → Option ℕ
value digit base [] = some 0
value digit base (c ∷ rest) = add_digit (digit c) (base ^ length rest) (value digit base rest)

abbrev pub in_word : Option ℕ → Option ℕ
in_word none = none
in_word (some v) = if leb v u64_max then some v else none

value_step :
    (digit : ℕ → Option ℕ) (base c : ℕ) (rest : List ℕ) {d : ℕ}
    → digit c ≡ some d
    → value digit base (c ∷ rest) ≡ add_to (d * base ^ length rest) (value digit base rest)
unfolding value
value_step digit base c rest h = rw (h, value) refl

-- A digit read on the left of `rest` moves the value before it up by a place.
shift_place :
    (base r d n : ℕ) (rest : Option ℕ)
    → add_to (r * base ^ suc n) (add_to (d * base ^ n) rest)
      ≡ add_to ((r * base + d) * base ^ n) rest
shift_place base r d n none = refl
shift_place base r d n (some v) = ap some (
    omega (
      arith,
      pow-succ' base n,
      add-mul (r * base) d (base ^ n),
      mul_assoc r base (base ^ n),
      ap (λ p. r * p) (pow-succ' base n),
    ))

-- A value above a word stays above it in front of further digits.
too_large :
    (base a n : ℕ) (rest : Option ℕ)
    → 0 < base
    → u64_max < a
    → in_word (add_to (a * base ^ n) rest) ≡ none
too_large base a n none pos h = refl
too_large base a n (some v) pos h =
    let more : a * 1 ≤ a * base ^ n = mul-le-mul_left a (one-le-pow n base pos) in ground arith

dec_loop_step :
    (c : ℕ) (rest : List ℕ) (r : ℕ) {d : ℕ}
    → dec_digit c ≡ some d
    → dec_loop (c ∷ rest) r
      ≡ (if leb (r * 10 + d) u64_max then dec_loop rest (r * 10 + d) else none)
unfolding dec_loop
dec_loop_step c rest r h = ground arith

dec_loop_lem :
    (token : List ℕ) (r : ℕ)
    → r ≤ u64_max
    → dec_loop token r ≡ in_word (add_to (r * 10 ^ length token) (value dec_digit 10 token))
unfolding dec_loop value
dec_loop_lem [] r h = ground arith
dec_loop_lem (c ∷ rest) r h = elim (Option-cases (dec_digit c)) [
  | inl bad ↦ ground (arith, bad)
  | inr (d, good) ↦
      let step = dec_loop_step c rest r good in
      let numeral_is = value_step dec_digit 10 c rest good in
      let place = shift_place 10 r d (length rest) (value dec_digit 10 rest) in
      elim (Bool-cases (leb (r * 10 + d) u64_max)) [
        | inl fits ↦
            let ih = dec_loop_lem rest (r * 10 + d) (ground arith) in
            rw (step, numeral_is, place, fits) ih
        | inr over ↦
            let big =
              too_large 10 (r * 10 + d) (length rest) (value dec_digit 10 rest) (omega arith)
                (ground arith) in
            rw (step, numeral_is, place, over) (sym big)
      ]
]

-- The value of a nonempty decimal numeral that fits in a word
abbrev pub numeral : List ℕ → Option ℕ
numeral [] = none
numeral (c ∷ rest) = in_word (value dec_digit 10 (c ∷ rest))

-- For every token, shell_parse_u64_dec gives the value of the token as a decimal numeral, if it has a
-- digit, consists of digits only and its value is below 2^64, else it fails.
pub shell_parse_u64_dec-numeral : (token : List ℕ) → shell_parse_u64_dec token ≡ numeral token
unfolding shell_parse_u64_dec value
shell_parse_u64_dec-numeral [] = refl
shell_parse_u64_dec-numeral (c ∷ rest) =
    let run = dec_loop_lem (c ∷ rest) 0 (omega arith) in
    rw (run, add_to_zero (10 ^ suc (length rest)) (value dec_digit 10 (c ∷ rest))) refl

hex_fits : (r d count : ℕ) → r < 16 ^ count → d < 16 → count < 16 → r * 16 + d ≤ u64_max
hex_fits r d count hr hd hc =
    let grow : 16 ^ count ≤ 16 ^ 15 = pow-le-pow_right (omega arith) {j = 15} (omega arith) in
    omega arith

hex_grows : (r d count : ℕ) → r < 16 ^ count → d < 16 → r * 16 + d < 16 ^ (count + 1)
hex_grows r d count hr hd =
    let e : count + 1 ≡ suc count = omega arith in rw e (omega (arith, pow-succ' 16 count))

hex_digit-below : (c : ℕ) {d : ℕ} → hex_digit c ≡ some d → d < 16
unfolding hex_digit
hex_digit-below c h = ground arith

hex_loop_step :
    (c : ℕ) (rest : List ℕ) (r count : ℕ) {d : ℕ}
    → r < 16 ^ count
    → count ≤ 16
    → hex_digit c ≡ some d
    → hex_loop (c ∷ rest) r count
      ≡ (if count == 16 then none else hex_loop rest (r * 16 + d) (count + 1))
unfolding hex_loop
hex_loop_step c rest r count {d} h hc hd =
    let fits = hex_fits r d count h (hex_digit-below c hd) in rw (hd, hex_loop) (ground arith)

abbrev short : ℕ → Bool
short n = leb 1 n && leb n 16

value_stop :
    (digit : ℕ → Option ℕ) (base c : ℕ) (rest : List ℕ)
    → digit c ≡ none
    → value digit base (c ∷ rest) ≡ none
unfolding value
value_stop digit base c rest h = rw (h, value) refl

hex_loop_stop :
    (c : ℕ) (rest : List ℕ) (r count : ℕ) → hex_digit c ≡ none → hex_loop (c ∷ rest) r count ≡ none
unfolding hex_loop
hex_loop_stop c rest r count h = rw (h, hex_loop) refl

hex_loop_end :
    (r count : ℕ)
    → count ≤ 16
    → hex_loop [] r count
      ≡ (if short (0 + count) then add_to (r * 1) (value hex_digit 16 []) else none)
unfolding hex_loop value
hex_loop_end r count h = ground arith

hex_loop_lem :
    (token : List ℕ) (r count : ℕ)
    → r < 16 ^ count
    → count ≤ 16
    → hex_loop token r count ≡ (
        if short (length token + count)
        then add_to (r * 16 ^ length token) (value hex_digit 16 token)
        else none)
hex_loop_lem [] r count h hc = hex_loop_end r count hc
hex_loop_lem (c ∷ rest) r count h hc = elim (Option-cases (hex_digit c)) [
  | inl bad ↦
      rw (hex_loop_stop c rest r count bad, value_stop hex_digit 16 c rest bad) (ground arith)
  | inr (d, good) ↦
      let step = hex_loop_step c rest r count h hc good in
      let numeral_is = value_step hex_digit 16 c rest good in
      let place = shift_place 16 r d (length rest) (value hex_digit 16 rest) in
      let ih =
        hex_loop_lem rest (r * 16 + d) (count + 1)
          (hex_grows r d count h (hex_digit-below c good)) in
      rw (step, numeral_is, place) (ground (arith, ih))
]

-- The sixteen digits, by their codes, letters in either case
abbrev pub hex_value : ℕ → Option ℕ
hex_value c =
    if leb 48 c && ltb c 58
    then some (c - 48)
    else if leb 65 c && ltb c 71
    then some (c - 55)
    else if leb 97 c && ltb c 103
    then some (c - 87)
    else none

hex_digit-hex_value : (c : ℕ) → hex_digit c ≡ hex_value c
unfolding hex_digit
hex_digit-hex_value c = ground arith

-- A token without the two characters "0x" or "0X" that it may begin with
abbrev pub without_prefix : List ℕ → List ℕ
without_prefix [] = []
without_prefix (c ∷ []) = c ∷ []
without_prefix (c ∷ x ∷ rest) =
    if c == 48 && x == 120 then rest else if c == 48 && x == 88 then rest else c ∷ x ∷ rest

skip_prefix-without_prefix : (token : List ℕ) → skip_prefix token ≡ without_prefix token
unfolding skip_prefix
skip_prefix-without_prefix [] = refl
skip_prefix-without_prefix (c ∷ []) = refl
skip_prefix-without_prefix (c ∷ x ∷ rest) = elim (Bool-cases (c == 48)) [
  | inl zero_first ↦ elim (Bool-cases (x == 120)) [
    | inl small ↦ rw (zero_first, small) refl
    | inr other ↦ rw (zero_first, other) refl
  ]
  | inr no_zero ↦ rw no_zero refl
]

value-same :
    (f g : ℕ → Option ℕ) (base : ℕ) (token : List ℕ)
    → ((c : ℕ) → f c ≡ g c)
    → value f base token ≡ value g base token
value-same f g base token same = ap (λ digit. value digit base token) (fun_ext same)

-- The value of a hexadecimal numeral of 1 to 16 digits
abbrev pub hex_numeral : List ℕ → Option ℕ
hex_numeral token = if short (length token) then value hex_value 16 token else none

-- For every token, shell_parse_u64_hex gives the value of the token without a prefix 0x or 0X as a
-- hexadecimal numeral, if that has 1 to 16 characters, all of them digits in either case, else it
-- fails; its guard against overflow never refuses such a numeral.
pub shell_parse_u64_hex-numeral :
    (token : List ℕ) → shell_parse_u64_hex token ≡ hex_numeral (without_prefix token)
unfolding shell_parse_u64_hex
shell_parse_u64_hex-numeral token =
    let digits = skip_prefix token in
    let run = hex_loop_lem digits 0 0 (omega arith) (omega arith) in
    let zero_in = add_to_zero (16 ^ length digits) (value hex_digit 16 digits) in
    let e : length digits + 0 ≡ length digits = omega arith in
    let parsed : hex_loop digits 0 0
        ≡ (if short (length digits) then value hex_digit 16 digits else none) =
      rw (run, zero_in, e) refl in
    parsed
    ∙ ap (λ v. if short (length digits) then v else none)
        (value-same hex_digit hex_value 16 digits hex_digit-hex_value)
    ∙ ap hex_numeral (skip_prefix-without_prefix token)
