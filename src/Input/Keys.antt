-- ===== src/Input/Keys.antt =====
-- What the scancode decoder promises: which characters it can produce, what it swallows, and how
-- the modifiers work.
use utamo_os.Common.{
  ℕ, zero, suc, ◌+◌, ◌-◌, ◌<◌, ◌≡◌, ◌≢◌, refl, sym, ap, ◌∙◌, Bool, true, false, not, ◌&&◌, ◌||◌,
  none, some, List, [], ◌∷◌, arith, leb, ◌==◌, if◌then◌else◌, inl, inr, Bool-cases, All,
  passes_below, passes_at, length, replicate,
}
use utamo_os.Input.Decoder.{
  InputDecoder, input_decode_set1, decode_key, decode_extended, pressed, plain, shifted, key,
  is_release, scancode,
}

-- Backspace, tab, newline, and the printable characters of ASCII.
abbrev pub is_output : ℕ → Bool
is_output c = ((c == 8) || (c == 9) || (c == 10)) || (leb 32 c && leb c 126)

-- Every entry of the tables is an output character or absent, and a letter's capital is one.
entry_ok : ℕ → Bool
entry_ok code =
    ((key plain code == 0) || is_output (key plain code))
    && ((key shifted code == 0) || is_output (key shifted code))

entries-ok : passes_below entry_ok 128 ≡ true
unfolding passes_below entry_ok
entries-ok = refl

pressed-is_output :
    (d : InputDecoder) (code : ℕ)
    → code < 128
    → (key plain code == 0) ≡ false
    → is_output (pressed d code) ≡ true
unfolding pressed entry_ok
pressed-is_output d code h e = ground (arith, passes_at entry_ok 128 h entries-ok)

-- Every character that the decoder produces is a backspace, a tab, a newline or printable ASCII,
-- whatever the state and the byte.
pub input_decode_set1-is_output :
    (d : InputDecoder) (byte : ℕ) {c : ℕ}
    → (input_decode_set1 d byte).0 ≡ some c
    → is_output c ≡ true
unfolding input_decode_set1 decode_key decode_extended
input_decode_set1-is_output d byte {c} e = elim (Bool-cases (key plain (scancode byte) == 0)) [
  | inl absent ↦ ground arith
  | inr there ↦ ground (arith, pressed-is_output d (scancode byte) (omega arith))
]

-- The characters that a sequence of bytes produces, in order, and the state that it leaves.
unfoldable pub decode_all : InputDecoder → List ℕ → List ℕ × InputDecoder
decode_all d [] = ([], d)
decode_all d (b ∷ bs) =
    let (out, d') = input_decode_set1 d b in
    let (rest, last) = decode_all d' bs in (elim out [ none ↦ rest | some c ↦ c ∷ rest ], last)

-- While the decoder swallows, a byte changes nothing but the count.
swallow :
    (d : InputDecoder) (b : ℕ)
    → d.pause_remaining ≢ 0
    → input_decode_set1 d b ≡ (none, record d { pause_remaining = d.pause_remaining - 1 })
unfolding input_decode_set1
swallow d b h = ground arith

swallow_all :
    (bs : List ℕ) (d : InputDecoder)
    → d.pause_remaining ≡ length bs
    → decode_all d bs ≡ ([], record d { pause_remaining = 0 })
unfolding decode_all
swallow_all [] d e = ground arith
swallow_all (b ∷ bs) d e =
    let one = swallow d b (omega arith) in
    let d' : InputDecoder = record d { pause_remaining = d.pause_remaining - 1 } in
    ground (arith, one, swallow_all bs d' (omega arith))

-- Outside another pause sequence, an 0xe1 byte makes the decoder swallow the next five bytes,
-- whatever they are: they produce nothing, and of the state only a pending 0xe0 prefix is forgotten.
pub decode_all-pause :
    (d : InputDecoder) (bs : List ℕ)
    → d.pause_remaining ≡ 0
    → length bs ≡ 5
    → decode_all d (0xe1 ∷ bs) ≡ ([], record d { extended = false; pause_remaining = 0 })
unfolding decode_all
decode_all-pause d bs p five =
    let d' : InputDecoder = record d { pause_remaining = 5; extended = false } in
    let first : input_decode_set1 d 0xe1 ≡ (none, d') = unfold input_decode_set1 in ground arith in
    ground (arith, first, swallow_all bs d' (sym five))

-- A caps lock key that is held down repeats its code. However often it does, it changes the lock
-- once, if the key was up before, and not at all, if it was down.
pub decode_all-caps_lock :
    (d : InputDecoder) (n : ℕ)
    → d.pause_remaining ≡ 0
    → d.extended ≡ false
    → decode_all d (0x3a ∷ replicate n 0x3a) ≡ (
      [],
      record d {
        caps_lock = if d.caps_down then d.caps_lock else not d.caps_lock;
        caps_down = true;
      },
    )
unfolding decode_all input_decode_set1 decode_extended decode_key
decode_all-caps_lock d zero p e = ground arith
decode_all-caps_lock d (suc n) p e =
    let d' : InputDecoder = record d {
      caps_lock = if d.caps_down then d.caps_lock else not d.caps_lock;
      caps_down = true;
    } in
    ground (arith, decode_all-caps_lock d' n p e)

-- whether a key is down after some bytes, from its code and whether it was down before
abbrev pub down_after : ℕ → List ℕ → Bool → Bool
down_after code [] was = was
down_after code (b ∷ bs) was =
    down_after code bs (if b == code then true else if b == code + 128 then false else was)

-- a byte that is no prefix
abbrev pub IsPlainByte : ℕ → Type 0
IsPlainByte b = (b < 256) × (b ≢ 0xe0) × (b ≢ 0xe1)

-- The shifts and the other two fields after one byte that is no prefix.
decode-plain :
    (d : InputDecoder) (b : ℕ)
    → IsPlainByte b
    → d.pause_remaining ≡ 0
    → d.extended ≡ false
    → input_decode_set1 d b ≡ decode_key d (is_release b) (scancode b)
unfolding input_decode_set1
decode-plain d b h p e = ground arith

decode_key-left_shift :
    (d : InputDecoder) (released : Bool) (code : ℕ)
    → (decode_key d released code).1.left_shift
      ≡ (if code == 0x2a then not released else d.left_shift)
unfolding decode_key
decode_key-left_shift d released code = ground arith

decode_key-right_shift :
    (d : InputDecoder) (released : Bool) (code : ℕ)
    → (decode_key d released code).1.right_shift
      ≡ (if code == 0x36 then not released else d.right_shift)
unfolding decode_key
decode_key-right_shift d released code = ground arith

decode_key-rest :
    (d : InputDecoder) (released : Bool) (code : ℕ)
    → ((decode_key d released code).1.pause_remaining ≡ d.pause_remaining)
      × ((decode_key d released code).1.extended ≡ d.extended)
unfolding decode_key
decode_key-rest d released code = (ground arith, ground arith)

-- A byte as the key's code and whether it is a release.
byte-code :
    (b code : ℕ) (was : Bool)
    → b < 256
    → code < 128
    → (if scancode b == code then not (is_release b) else was)
      ≡ (if b == code then true else if b == code + 128 then false else was)
byte-code b code was h k = ground arith

decode-shift :
    (d : InputDecoder) (b : ℕ)
    → IsPlainByte b
    → d.pause_remaining ≡ 0
    → d.extended ≡ false
    → ((input_decode_set1 d b).1.left_shift
        ≡ (if b == 0x2a then true else if b == 0xaa then false else d.left_shift))
      × ((input_decode_set1 d b).1.right_shift
          ≡ (if b == 0x36 then true else if b == 0xb6 then false else d.right_shift))
      × ((input_decode_set1 d b).1.pause_remaining ≡ 0)
      × ((input_decode_set1 d b).1.extended ≡ false)
decode-shift d b h p e =
    let released = is_release b in
    let code = scancode b in
    let (pause, ext) = decode_key-rest d released code in
    rw (decode-plain d b h p e) (
      decode_key-left_shift d released code ∙ byte-code b 0x2a d.left_shift h.0 (omega arith),
      decode_key-right_shift d released code ∙ byte-code b 0x36 d.right_shift h.0 (omega arith),
      pause ∙ p,
      ext ∙ e,
    )

-- Over bytes that are no prefixes, outside a pause sequence and a pending prefix, each shift is
-- held exactly from its press to its release, whatever other keys are struck.
pub decode_all-shift :
    (bs : List ℕ) (d : InputDecoder)
    → All IsPlainByte bs
    → d.pause_remaining ≡ 0
    → d.extended ≡ false
    → ((decode_all d bs).1.left_shift ≡ down_after 0x2a bs d.left_shift)
      × ((decode_all d bs).1.right_shift ≡ down_after 0x36 bs d.right_shift)
unfolding decode_all
decode_all-shift [] d h p e = (refl, refl)
decode_all-shift (b ∷ bs) d h p e =
    let one = decode-shift d b h.0 p e in
    let rest = decode_all-shift bs (input_decode_set1 d b).1 h.1 one.2 one.3 in
    (rest.0 ∙ ap (down_after 0x2a bs) one.0, rest.1 ∙ ap (down_after 0x36 bs) one.1)
