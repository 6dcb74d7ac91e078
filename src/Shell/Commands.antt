-- ===== src/Shell/Commands.antt =====
-- shell_parse_line of kernel/lib/shell_line.c against the words of a line.
use utamo_os.Common.{
  ℕ, zero, suc, ◌+◌, ◌≡◌, refl, ap, ◌∙◌, true, false, Option, none, some, List, [], ◌∷◌, set,
  get_or, drop, arith, inl, inr, Bool-cases,
}
use utamo_os.Shell.Editing.{c_string}
use utamo_os.Shell.Tokens.{
  is_space, spaces, string_size, trim, shell_next_token, parse_rest, shell_parse_line,
}
use utamo_os.Shell.Words.{
  words, words_end, goes_on, words-spaces, drop_add, get_or-drop, Takes, shell_next_token-Takes,
}

get_or-string_size : (s : List ℕ) → get_or s (string_size s) 0 ≡ 0
unfolding string_size
get_or-string_size [] = refl
get_or-string_size (c ∷ s) = ground (arith, get_or-string_size s)

get_or-set_zero : (s : List ℕ) (n : ℕ) → get_or (set s n 0) n 0 ≡ 0
get_or-set_zero [] n = refl
get_or-set_zero (c ∷ s) zero = refl
get_or-set_zero (c ∷ s) (suc n) = get_or-set_zero s n

goes_on-set :
    (s : List ℕ) (n : ℕ) → is_space (get_or s n 0) ≡ true → goes_on (set s n 0) ≡ goes_on s
goes_on-set [] n h = refl
goes_on-set (c ∷ s) zero h = ground arith
goes_on-set (c ∷ s) (suc n) h = refl

-- A NUL over the space that ends a string keeps its words.
words-set :
    (s : List ℕ) (n : ℕ)
    → is_space (get_or s n 0) ≡ true
    → get_or s (suc n) 0 ≡ 0
    → words (set s n 0) ≡ words s
unfolding words
words-set [] n h e = refl
words-set (c ∷ s) zero h e = ground (arith, words_end s)
words-set (c ∷ s) (suc n) h e = ground (arith, words-set s n h e, goes_on-set s n h)

words-trim : (n : ℕ) (s : List ℕ) → get_or s n 0 ≡ 0 → words (trim s n) ≡ words s
unfolding trim
words-trim zero s e = refl
words-trim (suc n) s e = elim (Bool-cases (is_space (get_or s n 0))) [
  | inl space ↦
      let ih = words-trim n (set s n 0) (get_or-set_zero s n) in
      rw (space, trim) (ih ∙ words-set s n space e)
  | inr other ↦ rw (other, trim) refl
]

not_space : (s : List ℕ) → is_space (get_or (drop (spaces s) s) 0 0) ≡ false
unfolding spaces is_space
not_space [] = refl
not_space (c ∷ s) = ground (arith, not_space s)

-- What shell_parse_line makes of a line with these words.
abbrev pub Parses : List (List ℕ) → Option (ℕ × ℕ) × List ℕ → Type 0
Parses [] (command, line) = command ≡ none
Parses (w ∷ ws) (command, line) =
    (name : ℕ) × (arguments : ℕ) × (command ≡ some (name, arguments))
    × (c_string (drop name line) ≡ w)
    × (words (drop arguments line) ≡ ws)
    × (is_space (get_or line arguments 0) ≡ false)

Parses-parse_rest :
    (ws : List (List ℕ)) (token : Option ℕ) (line : List ℕ) (cursor : ℕ)
    → Takes ws (token, line, cursor)
    → Parses ws (parse_rest (token, line, cursor))
unfolding parse_rest
Parses-parse_rest [] none line cursor h = refl
Parses-parse_rest [] (some name) line cursor h = absurd (ground (arith, h.0))
Parses-parse_rest (w ∷ ws) none line cursor (t, token_is, h, h') = absurd (ground (arith, token_is))
Parses-parse_rest (w ∷ ws) (some name) line cursor (t, token_is, string, others) =
    let s = drop cursor line in
    let arguments = cursor + spaces s in
    let here : drop arguments line ≡ drop (spaces s) s = drop_add line cursor (spaces s) in
    let first : get_or line arguments 0 ≡ get_or (drop (spaces s) s) 0 0 =
      get_or-drop line arguments ∙ ap (λ a. get_or a 0 0) here in
    let name_is : name ≡ t = ground (arith, token_is) in
    (
      name,
      arguments,
      refl,
      rw name_is string,
      ap words here ∙ words-spaces s ∙ others,
      rw first (not_space s),
    )

-- shell_parse_line fails if the line has no words. Otherwise the name is the index of the first word,
-- made a C string of the array, and the arguments are the index of a string with the other words
-- that does not begin with a space.
pub shell_parse_line-Parses : (line : List ℕ) → Parses (words line) (shell_parse_line line)
unfolding shell_parse_line
shell_parse_line-Parses line =
    let takes = shell_next_token-Takes (trim line (string_size line)) 0 in
    let same = words-trim (string_size line) line (get_or-string_size line) in
    let (token, rest, cursor) = shell_next_token (trim line (string_size line)) 0 in
    Parses-parse_rest (words line) token rest cursor (rw same at takes)
