-- ===== src/Input/Decoder.antt =====
-- kernel/input/input.c, input_decode_set1: scancodes of set 1 to characters.
use utamo_os.Common.{
  ℕ, ◌+◌, ◌-◌, Bool, true, false, not, ◌&&◌, ◌||◌, Option, none, some, List, [], ◌∷◌, leb, ◌==◌,
  if◌then◌else◌, get_or, low_bits,
}

pub record InputDecoder : Type 0 where
  pub left_shift : Bool
  pub right_shift : Bool
  pub caps_lock : Bool
  pub caps_down : Bool
  pub extended : Bool
  pub pause_remaining : ℕ

abbrev pub input_decoder_init : InputDecoder
input_decoder_init = record {
  left_shift = false;
  right_shift = false;
  caps_lock = false;
  caps_down = false;
  extended = false;
  pause_remaining = 0;
}

-- The two tables, indexed by scancode; their entries from 64 on are 0, as `key` reads them.
abbrev pub plain : List ℕ
plain =
    0 ∷ 0 ∷ 49 ∷ 50 ∷ 51 ∷ 52 ∷ 53 ∷ 54 ∷ 55 ∷ 56 ∷ 57 ∷ 48 ∷ 45 ∷ 61 ∷ 8 ∷ 9 ∷ 113 ∷ 119 ∷ 101
    ∷ 114 ∷ 116 ∷ 121 ∷ 117 ∷ 105 ∷ 111 ∷ 112 ∷ 91 ∷ 93 ∷ 10 ∷ 0 ∷ 97 ∷ 115 ∷ 100 ∷ 102 ∷ 103 ∷ 104
    ∷ 106 ∷ 107 ∷ 108 ∷ 59 ∷ 39 ∷ 96 ∷ 0 ∷ 92 ∷ 122 ∷ 120 ∷ 99 ∷ 118 ∷ 98 ∷ 110 ∷ 109 ∷ 44 ∷ 46 ∷ 47
    ∷ 0 ∷ 42 ∷ 0 ∷ 32 ∷ 0 ∷ 0 ∷ 0 ∷ 0 ∷ 0 ∷ 0 ∷ []

abbrev pub shifted : List ℕ
shifted =
    0 ∷ 0 ∷ 33 ∷ 64 ∷ 35 ∷ 36 ∷ 37 ∷ 94 ∷ 38 ∷ 42 ∷ 40 ∷ 41 ∷ 95 ∷ 43 ∷ 0 ∷ 0 ∷ 0 ∷ 0 ∷ 0 ∷ 0 ∷ 0
    ∷ 0 ∷ 0 ∷ 0 ∷ 0 ∷ 0 ∷ 123 ∷ 125 ∷ 0 ∷ 0 ∷ 0 ∷ 0 ∷ 0 ∷ 0 ∷ 0 ∷ 0 ∷ 0 ∷ 0 ∷ 0 ∷ 58 ∷ 34 ∷ 126 ∷ 0
    ∷ 124 ∷ 0 ∷ 0 ∷ 0 ∷ 0 ∷ 0 ∷ 0 ∷ 0 ∷ 60 ∷ 62 ∷ 63 ∷ 0 ∷ 0 ∷ 0 ∷ 0 ∷ 0 ∷ 0 ∷ 0 ∷ 0 ∷ 0 ∷ 0 ∷ []

abbrev pub key : List ℕ → ℕ → ℕ
key table code = get_or table code 0

-- byte & 0x80 and byte & 0x7f
abbrev pub is_release : ℕ → Bool
is_release byte = leb 128 (low_bits byte 8)

abbrev pub scancode : ℕ → ℕ
scancode byte = low_bits byte 7

-- the character of a key that is pressed, from `plain[code]`
abbrev pub is_letter : ℕ → Bool
is_letter c = leb b'a' c && leb c b'z'

abbrev pub differ : Bool → Bool → Bool
differ true b = not b
differ false b = b

unfoldable pub pressed : InputDecoder → ℕ → ℕ
pressed d code =
    let shift = d.left_shift || d.right_shift in
    let result = key plain code in
    if is_letter result
    then if differ shift d.caps_lock then result - b'a' + b'A' else result
    else if shift && not (key shifted code == 0)
    then key shifted code
    else result

-- after an 0xe0 prefix
unfoldable pub decode_extended : InputDecoder → Bool → ℕ → Option ℕ × InputDecoder
decode_extended d released code = (
  if not released && ((code == 0x1c) || (code == 0x35))
      then some (if code == 0x1c then b'\n' else b'/')
      else none,
  record d { extended = false },
)

-- shift, caps lock, and the other keys
unfoldable pub decode_key : InputDecoder → Bool → ℕ → Option ℕ × InputDecoder
unfolding pressed
decode_key d released code =
    if (code == 0x2a) || (code == 0x36)
    then (
      none,
      if code == 0x2a
          then record d { left_shift = not released }
          else record d { right_shift = not released },
    )
    else if code == 0x3a
    then (
      none,
      record d {
        caps_lock = if not released && not d.caps_down then not d.caps_lock else d.caps_lock;
        caps_down = not released;
      },
    )
    else if released || (key plain code == 0)
    then (none, d)
    else (some (pressed d code), d)

-- The character, if the result is true, and the new state.
unfoldable pub input_decode_set1 : InputDecoder → ℕ → Option ℕ × InputDecoder
unfolding decode_extended decode_key
input_decode_set1 d byte =
    if not (d.pause_remaining == 0)
    then (none, record d { pause_remaining = d.pause_remaining - 1 })
    else if byte == 0xe1
    then (none, record d { pause_remaining = 5; extended = false })
    else if byte == 0xe0
    then (none, record d { extended = true })
    else if d.extended
    then decode_extended d (is_release byte) (scancode byte)
    else decode_key d (is_release byte) (scancode byte)
