-- ===== src/Shell/Numbers.antt =====
-- kernel/lib/shell_line.c, shell_parse_u64_hex and shell_parse_u64_dec. A token is the list of its
-- characters up to the NUL, as unsigned bytes: those above 127, which are negative as `char`, are
-- no digits either way. `none` is false with `*value` unchanged.
use utamo_os.Common.{
  ℕ, ◌+◌, ◌-◌, ◌*◌, ◌/◌, ◌&&◌, ◌||◌, Option, none, some, List, [], ◌∷◌, ltb, leb, ◌==◌,
  if◌then◌else◌, u64_max,
}

unfoldable pub hex_digit : ℕ → Option ℕ
hex_digit c =
    if leb b'0' c && leb c b'9'
    then some (c - b'0')
    else if leb b'a' c && leb c b'f'
    then some (c - b'a' + 10)
    else if leb b'A' c && leb c b'F'
    then some (c - b'A' + 10)
    else none

-- `token += 2` past 0x or 0X
unfoldable pub skip_prefix : List ℕ → List ℕ
skip_prefix [] = []
skip_prefix (c ∷ []) = c ∷ []
skip_prefix (c ∷ x ∷ rest) = if c == b'0' && (x == b'x' || x == b'X') then rest else c ∷ x ∷ rest

unfoldable pub hex_loop : List ℕ → ℕ → ℕ → Option ℕ
hex_loop [] result count = if count == 0 then none else some result
hex_loop (c ∷ rest) result count = elim (hex_digit c) [
  | none ↦ none
  | some digit ↦
      if count == 16 || ltb ((u64_max - digit) / 16) result
      then none
      else hex_loop rest (result * 16 + digit) (count + 1)
]

unfoldable pub shell_parse_u64_hex : List ℕ → Option ℕ
unfolding skip_prefix hex_loop
shell_parse_u64_hex token = hex_loop (skip_prefix token) 0 0

unfoldable pub dec_loop : List ℕ → ℕ → Option ℕ
dec_loop [] result = some result
dec_loop (c ∷ rest) result =
    if ltb c b'0' || ltb b'9' c
    then none
    else (let digit = c - b'0' in
        if ltb ((u64_max - digit) / 10) result then none else dec_loop rest (result * 10 + digit))

unfoldable pub shell_parse_u64_dec : List ℕ → Option ℕ
unfolding dec_loop
shell_parse_u64_dec [] = none
shell_parse_u64_dec (c ∷ rest) = dec_loop (c ∷ rest) 0
