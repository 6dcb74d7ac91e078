-- ===== src/Shell/Words.antt =====
-- The tokenizer of kernel/lib/shell_line.c against the words of a line.
use utamo_os.Common.{
  ℕ, zero, suc, ◌+◌, ◌≡◌, refl, ap, ◌∙◌, sym, Bool, true, false, not, ◌&&◌, Option, none, some,
  List, [], ◌∷◌, ◌==◌, if◌then◌else◌, set, get_or, take, drop, arith, inl, inr, Bool-cases,
}
use utamo_os.Shell.Editing.{c_string}
use utamo_os.Shell.Tokens.{is_space, spaces, word_size, shell_next_token}

-- Whether a word goes on here: no NUL, no space, not the end of the array
abbrev pub goes_on : List ℕ → Bool
goes_on [] = false
goes_on (c ∷ rest) = not (c == 0) && not (is_space c)

abbrev in_front : ℕ → List (List ℕ) → List (List ℕ)
in_front c [] = (c ∷ []) ∷ []
in_front c (w ∷ ws) = (c ∷ w) ∷ ws

-- The words of the C string in an array: its longest stretches without spaces.
unfoldable pub words : List ℕ → List (List ℕ)
words [] = []
words (c ∷ rest) =
    let more = words rest in
    if c == 0
    then []
    else if is_space c
    then more
    else if goes_on rest
    then in_front c more
    else (c ∷ []) ∷ more

pub words-spaces : (s : List ℕ) → words (drop (spaces s) s) ≡ words s
unfolding words spaces is_space
words-spaces [] = refl
words-spaces (c ∷ s) = ground (arith, words-spaces s)

goes_on-spaces :
    (s : List ℕ)
    → (get_or (drop (spaces s) s) 0 0 == 0) ≡ false
    → goes_on (drop (spaces s) s) ≡ true
unfolding spaces
goes_on-spaces [] h = absurd (ground arith)
goes_on-spaces (c ∷ s) h = ground (arith, goes_on-spaces s)

pub words_end : (s : List ℕ) → (get_or s 0 0 == 0) ≡ true → words s ≡ []
unfolding words
words_end [] h = refl
words_end (c ∷ s) h = ground arith

word_size_stop : (s : List ℕ) → goes_on s ≡ false → word_size s ≡ 0
unfolding word_size
word_size_stop [] h = refl
word_size_stop (c ∷ s) h = ground arith

words-drop :
    (s : List ℕ) → goes_on s ≡ true → words s ≡ take (word_size s) s ∷ words (drop (word_size s) s)
unfolding words word_size
words-drop [] h = ground arith
words-drop (c ∷ s) h = elim (Bool-cases (goes_on s)) [
  | inl more ↦ ground (arith, words-drop s more)
  | inr last ↦ ground (arith, word_size_stop s last)
]

c_string-set : (s : List ℕ) → c_string (set s (word_size s) 0) ≡ take (word_size s) s
unfolding c_string word_size
c_string-set [] = refl
c_string-set (c ∷ s) = ground (arith, c_string-set s)

c_string-take :
    (s : List ℕ)
    → (get_or (drop (word_size s) s) 0 0 == 0) ≡ true
    → c_string s ≡ take (word_size s) s
unfolding c_string word_size
c_string-take [] h = refl
c_string-take (c ∷ s) h = ground (arith, c_string-take s)

words-delimiter :
    (s : List ℕ)
    → (get_or (drop (word_size s) s) 0 0 == 0) ≡ false
    → words (drop 1 (drop (word_size s) s)) ≡ words (drop (word_size s) s)
unfolding words word_size
words-delimiter [] h = refl
words-delimiter (c ∷ s) h = ground (arith, words-delimiter s)

drop_nil : (n : ℕ) → drop {A = ℕ} n [] ≡ []
drop_nil zero = refl
drop_nil (suc n) = refl

pub drop_add : (xs : List ℕ) (m n : ℕ) → drop (m + n) xs ≡ drop n (drop m xs)
drop_add xs zero n = ap (λ k. drop k xs) (omega arith)
drop_add [] (suc m) n = drop_nil (suc m + n) ∙ sym (drop_nil n)
drop_add (x ∷ xs) (suc m) n =
    let e : suc m + n ≡ suc (m + n) = omega arith in rw e (drop_add xs m n)

pub get_or-drop : (xs : List ℕ) (n : ℕ) → get_or xs n 0 ≡ get_or (drop n xs) 0 0
get_or-drop xs zero = refl
get_or-drop [] (suc n) = refl
get_or-drop (x ∷ xs) (suc n) = get_or-drop xs n

drop-set : (xs : List ℕ) (m k v : ℕ) → drop m (set xs (m + k) v) ≡ set (drop m xs) k v
drop-set xs zero k v = ap (λ i. set xs i v) (omega arith)
drop-set [] (suc m) k v = refl
drop-set (x ∷ xs) (suc m) k v =
    let e : suc m + k ≡ suc (m + k) = omega arith in rw e (drop-set xs m k v)

drop-set_before : (xs : List ℕ) (n v : ℕ) → drop (suc n) (set xs n v) ≡ drop (suc n) xs
drop-set_before [] n v = refl
drop-set_before (x ∷ xs) zero v = refl
drop-set_before (x ∷ xs) (suc n) v = drop-set_before xs n v

past_cut : (xs : List ℕ) (n : ℕ) → drop (n + 1) (set xs n 0) ≡ drop 1 (drop n xs)
past_cut xs n =
    let e : n + 1 ≡ suc n = omega arith in
    ap (λ k. drop k (set xs n 0)) e
    ∙ drop-set_before xs n 0
    ∙ ap (λ k. drop k xs) (sym e)
    ∙ drop_add xs n 1

-- What a call leaves when these words are waiting: the cursor before the other words, and the token,
-- if there is a word, which is then the C string there.
abbrev pub Takes : List (List ℕ) → Option ℕ × List ℕ × ℕ → Type 0
Takes [] (token, line, cursor) = (token ≡ none) × (words (drop cursor line) ≡ [])
Takes (w ∷ ws) (token, line, cursor) =
    (t : ℕ) × (token ≡ some t) × (c_string (drop t line) ≡ w) × (words (drop cursor line) ≡ ws)

-- `if (*current != '\0')` after a token
abbrev cut : List ℕ → ℕ → ℕ → Option ℕ × List ℕ × ℕ
cut line token stop =
    if get_or line stop 0 == 0
    then (some token, line, stop)
    else (some token, set line stop 0, stop + 1)

Takes-cut :
    (line : List ℕ) (token : ℕ)
    → goes_on (drop token line) ≡ true
    → Takes (words (drop token line)) (cut line token (token + word_size (drop token line)))
Takes-cut line token h =
    let a = drop token line in
    let stop = token + word_size a in
    let behind : drop stop line ≡ drop (word_size a) a = drop_add line token (word_size a) in
    let at_stop : get_or line stop 0 ≡ get_or (drop (word_size a) a) 0 0 =
      get_or-drop line stop ∙ ap (λ s. get_or s 0 0) behind in
    rw (words-drop a h) (elim (Bool-cases (get_or line stop 0 == 0)) [
      | inl ends ↦
          let ended = rw at_stop at ends in
          rw ends (token, refl, c_string-take a ended, ap words behind)
      | inr space ↦
          let spaced = rw at_stop at space in
          rw space (
            token,
            refl,
            ap c_string (drop-set line token (word_size a) 0) ∙ c_string-set a,
            ap words (past_cut line stop ∙ ap (drop 1) behind) ∙ words-delimiter a spaced,
          )
    ])

-- If the array has words from the cursor on, shell_next_token returns the index of the first one,
-- which it makes a C string of the array, and the cursor is left before the others; else it returns
-- no token, and no words are left.
pub shell_next_token-Takes :
    (line : List ℕ) (cursor : ℕ) → Takes (words (drop cursor line)) (shell_next_token line cursor)
unfolding shell_next_token
shell_next_token-Takes line cursor =
    let s = drop cursor line in
    let token = cursor + spaces s in
    let here : drop token line ≡ drop (spaces s) s = drop_add line cursor (spaces s) in
    let same : words s ≡ words (drop token line) = sym (ap words here ∙ words-spaces s) in
    let first : get_or line token 0 ≡ get_or (drop token line) 0 0 = get_or-drop line token in
    rw same (elim (Bool-cases (get_or line token 0 == 0)) [
      | inl ends ↦
          let over : words (drop token line) ≡ [] =
            words_end (drop token line) (rw first at ends) in
          rw (ends, over) (refl, over)
      | inr word ↦
          let begins : goes_on (drop token line) ≡ true =
            rw here (goes_on-spaces s (rw (first, here) at word)) in
          rw word (Takes-cut line token begins)
    ])
