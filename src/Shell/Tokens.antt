-- ===== src/Shell/Tokens.antt =====
-- kernel/lib/shell_line.c, shell_next_token and shell_parse_line. A pointer into the line is an
-- index of its array, and a loop that advances one is a recursion on the characters from there on,
-- which also stops at the end of the array; the C string in the array ends before.
use utamo_os.Common.{
  ℕ, zero, suc, ◌+◌, Bool, not, ◌&&◌, ◌||◌, Option, none, some, List, [], ◌∷◌, ◌==◌, if◌then◌else◌,
  set, get_or, drop,
}

unfoldable pub is_space : ℕ → Bool
is_space character = character == b' ' || character == b'\t'

-- `while (is_space(*current)) ++current`: how far it goes
unfoldable pub spaces : List ℕ → ℕ
unfolding is_space
spaces [] = 0
spaces (c ∷ rest) = let n = spaces rest in if is_space c then suc n else 0

-- `while (*current != '\0' && !is_space(*current)) ++current`
unfoldable pub word_size : List ℕ → ℕ
unfolding is_space
word_size [] = 0
word_size (c ∷ rest) =
    let n = word_size rest in if not (c == 0) && not (is_space c) then suc n else 0

-- The token, if any, the line and the cursor.
unfoldable pub shell_next_token : List ℕ → ℕ → Option ℕ × List ℕ × ℕ
unfolding spaces word_size
shell_next_token line cursor =
    let token = cursor + spaces (drop cursor line) in
    if get_or line token 0 == 0
    then (none, line, token)
    else (let stop = token + word_size (drop token line) in
        if get_or line stop 0 == 0
        then (some token, line, stop)
        else (some token, set line stop 0, stop + 1))

-- strlen
unfoldable pub string_size : List ℕ → ℕ
string_size [] = 0
string_size (c ∷ rest) = let n = string_size rest in if c == 0 then 0 else suc n

-- The NULs over the spaces that end the line of the given length.
unfoldable pub trim : List ℕ → ℕ → List ℕ
unfolding is_space
trim line zero = line
trim line (suc length) =
    let trimmed = trim (set line length 0) length in
    if is_space (get_or line length 0) then trimmed else line

-- The name is the token; the spaces in front of the arguments are skipped.
unfoldable pub parse_rest : Option ℕ × List ℕ × ℕ → Option (ℕ × ℕ) × List ℕ
unfolding spaces
parse_rest (none, line, cursor) = (none, line)
parse_rest (some name, line, cursor) = (some (name, cursor + spaces (drop cursor line)), line)

-- The indices of the name and of the arguments, if the line has a name, and the line.
unfoldable pub shell_parse_line : List ℕ → Option (ℕ × ℕ) × List ℕ
unfolding shell_next_token string_size trim parse_rest
shell_parse_line line = parse_rest (shell_next_token (trim line (string_size line)) 0)
