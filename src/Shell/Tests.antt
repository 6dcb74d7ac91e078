-- ===== src/Shell/Tests.antt =====
-- The line editor, the tokenizer and the number parsers at concrete input, and the theorems there.
use utamo_os.Common.{ℕ, ◌≡◌, refl, none, some, List, [], ◌∷◌, min, replicate, drop}
use utamo_os.Shell.Line.{appended, erased, full, submitted, shell_line_init, shell_line_feed}
use utamo_os.Shell.Editing.{laid, Holds, feed_all, edit_all, c_string, feed_all-shell_line_init}
use utamo_os.Shell.Tokens.{
  is_space, spaces, word_size, string_size, trim, parse_rest, shell_next_token, shell_parse_line,
}
use utamo_os.Shell.Words.{words, Takes, shell_next_token-Takes}
use utamo_os.Shell.Commands.{Parses, shell_parse_line-Parses}
use utamo_os.Shell.Numbers.{shell_parse_u64_hex, shell_parse_u64_dec}
use utamo_os.Shell.Numerals.{
  numeral, hex_numeral, without_prefix, value, shell_parse_u64_dec-numeral,
  shell_parse_u64_hex-numeral,
}

-- Backspace takes the second of two characters back, and a line with limit 2 takes no third one.
abbrev keys : List ℕ
keys = b'l' ∷ b'x' ∷ 8 ∷ b's' ∷ b'!' ∷ 10 ∷ []

feed_all-keys :
    (feed_all (shell_line_init 2) keys).0
    ≡ appended ∷ appended ∷ erased ∷ appended ∷ full ∷ submitted ∷ []
unfolding feed_all shell_line_init shell_line_feed
feed_all-keys = refl

string-keys : c_string (feed_all (shell_line_init 2) keys).1.bytes ≡ b'l' ∷ b's' ∷ []
unfolding feed_all shell_line_init shell_line_feed c_string
string-keys = refl

feed_all-shell_line_init_example :
    ((feed_all (shell_line_init 2) keys).0 ≡ (edit_all (min 2 127) [] keys).0)
    × Holds (feed_all (shell_line_init 2) keys).1 (edit_all (min 2 127) [] keys).1
    × (c_string (feed_all (shell_line_init 2) keys).1.bytes
        ≡ laid (edit_all (min 2 127) [] keys).1 [])
feed_all-shell_line_init_example = feed_all-shell_line_init 2 keys

-- ` ls  -a ` has the name at index 1 and the arguments at index 5, and loses its last space.
parses_line :
    shell_parse_line (32 ∷ b'l' ∷ b's' ∷ 32 ∷ 32 ∷ b'-' ∷ b'a' ∷ 32 ∷ 0 ∷ [])
    ≡ (some (1, 5), 32 ∷ b'l' ∷ b's' ∷ 0 ∷ 32 ∷ b'-' ∷ b'a' ∷ 0 ∷ 0 ∷ [])
unfolding shell_parse_line shell_next_token parse_rest trim string_size spaces word_size is_space
parses_line = refl

parses_no_line : (shell_parse_line (32 ∷ 9 ∷ 0 ∷ 0 ∷ [])).0 ≡ none
unfolding shell_parse_line shell_next_token parse_rest trim string_size spaces word_size is_space
parses_no_line = refl

shell_parse_line-Parses_example :
    Parses (words (32 ∷ b'l' ∷ b's' ∷ 0 ∷ [])) (shell_parse_line (32 ∷ b'l' ∷ b's' ∷ 0 ∷ []))
shell_parse_line-Parses_example = shell_parse_line-Parses (32 ∷ b'l' ∷ b's' ∷ 0 ∷ [])

-- ` ls  -a`
abbrev typed : List ℕ
typed = 32 ∷ b'l' ∷ b's' ∷ 32 ∷ 32 ∷ b'-' ∷ b'a' ∷ 0 ∷ []

words-typed : words typed ≡ (b'l' ∷ b's' ∷ []) ∷ (b'-' ∷ b'a' ∷ []) ∷ []
unfolding words is_space
words-typed = refl

shell_next_token-Takes_example : Takes (words (drop 3 typed)) (shell_next_token typed 3)
shell_next_token-Takes_example = shell_next_token-Takes typed 3

-- 2 ^ 64 - 1 and 2 ^ 64
abbrev largest : List ℕ
largest =
    b'1' ∷ b'8' ∷ b'4' ∷ b'4' ∷ b'6' ∷ b'7' ∷ b'4' ∷ b'4' ∷ b'0' ∷ b'7' ∷ b'3' ∷ b'7' ∷ b'0' ∷ b'9'
    ∷ b'5' ∷ b'5' ∷ b'1' ∷ b'6' ∷ b'1' ∷ b'5' ∷ []

parses_largest : numeral largest ≡ some 18446744073709551615
unfolding value
parses_largest = refl

shell_parse_u64_dec-numeral_example : shell_parse_u64_dec largest ≡ numeral largest
shell_parse_u64_dec-numeral_example = shell_parse_u64_dec-numeral largest

abbrev hex_token : List ℕ
hex_token = b'0' ∷ b'x' ∷ replicate 16 b'F'

parses_hex : hex_numeral (without_prefix hex_token) ≡ some 18446744073709551615
unfolding value
parses_hex = refl

shell_parse_u64_hex-numeral_example :
    shell_parse_u64_hex hex_token ≡ hex_numeral (without_prefix hex_token)
shell_parse_u64_hex-numeral_example = shell_parse_u64_hex-numeral hex_token
