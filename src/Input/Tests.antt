-- ===== src/Input/Tests.antt =====
-- The keyboard path at concrete bytes, and the theorems there.
use utamo_os.Common.{
  ℕ, ◌≡◌, refl, true, false, some, List, [], ◌∷◌, arith, replicate, set, if◌then◌else◌, ◌==◌,
}
use utamo_os.Input.Ring.{InputRing, input_ring_pop}
use utamo_os.Input.Queue.{
  put, take_one, discard, ask, run_ring, run_queue, contents, IsRing, run_ring-run_queue,
}
use utamo_os.Input.Decoder.{input_decoder_init, input_decode_set1}
use utamo_os.Input.Keys.{
  is_output, decode_all, down_after, input_decode_set1-is_output, decode_all-pause,
  decode_all-caps_lock, decode_all-shift,
}
use utamo_os.Input.Keyboard.{Keyboard, keyboard_on_irq, interrupted, keyboard_read_char, read_loop}
use utamo_os.Input.Reader.{
  HasRead, after_irq, keyboard_read_char-HasRead, keyboard_on_irq-after_irq,
}

-- A shifted `a` (left shift down, A down, A up, left shift up) waits at the end of the array.
abbrev ring : InputRing
ring = record {
  bytes = set (set (set (set (replicate 128 0) 126 0x2a) 127 0x1e) 0 0x9e) 1 0xaa;
  head = 2;
  tail = 126;
  reset_pending = false;
}

abbrev keyboard : Keyboard
keyboard = record { raw_input = ring; decoder = input_decoder_init; initialized = true }

ring-IsRing : IsRing ring
ring-IsRing = record { size = refl; head_in = omega arith; tail_in = omega arith }

contents-ring : (contents ring).bytes ≡ 0x2a ∷ 0x1e ∷ 0x9e ∷ 0xaa ∷ []
contents-ring = refl

reads_capital : (keyboard_read_char (λ n. []) keyboard).0 ≡ some b'A'
unfolding keyboard_read_char read_loop interrupted input_ring_pop input_decode_set1
reads_capital = refl

types_word :
    (decode_all input_decoder_init (0x3a ∷ 0xba ∷ 0x18 ∷ 0x98 ∷ 0x25 ∷ [])).0 ≡ b'O' ∷ b'K' ∷ []
unfolding decode_all input_decode_set1
types_word = refl

run_ring-run_queue_example :
    run_ring ring (put 5 ∷ take_one ∷ discard ∷ take_one ∷ ask ∷ [])
    ≡ run_queue (contents ring) (put 5 ∷ take_one ∷ discard ∷ take_one ∷ ask ∷ [])
run_ring-run_queue_example =
    run_ring-run_queue (put 5 ∷ take_one ∷ discard ∷ take_one ∷ ask ∷ []) ring ring-IsRing

input_decode_set1-is_output_example : is_output b'a' ≡ true
unfolding input_decode_set1
input_decode_set1-is_output_example =
    input_decode_set1-is_output input_decoder_init 0x1e {c = b'a'} refl

decode_all-pause_example :
    decode_all input_decoder_init (0xe1 ∷ 0x1d ∷ 0x45 ∷ 0xe1 ∷ 0x9d ∷ 0xc5 ∷ [])
    ≡ ([], record input_decoder_init { extended = false; pause_remaining = 0 })
decode_all-pause_example =
    decode_all-pause input_decoder_init (0x1d ∷ 0x45 ∷ 0xe1 ∷ 0x9d ∷ 0xc5 ∷ []) refl refl

decode_all-caps_lock_example :
    decode_all input_decoder_init (0x3a ∷ replicate 3 0x3a)
    ≡ ([], record input_decoder_init { caps_lock = true; caps_down = true })
decode_all-caps_lock_example = decode_all-caps_lock input_decoder_init 3 refl refl

abbrev shift_bytes : List ℕ
shift_bytes = 0x2a ∷ 0x36 ∷ 0x1e ∷ 0xaa ∷ []

decode_all-shift_example :
    ((decode_all input_decoder_init shift_bytes).1.left_shift ≡ down_after 0x2a shift_bytes false)
    × ((decode_all input_decoder_init shift_bytes).1.right_shift
        ≡ down_after 0x36 shift_bytes false)
decode_all-shift_example = decode_all-shift shift_bytes input_decoder_init (omega arith) refl refl

-- A byte arrives just before the read.
abbrev arrivals : ℕ → List (ℕ × ℕ)
arrivals n = if n == 127 then (1, 0x30) ∷ [] else []

keyboard_read_char-HasRead_example :
    HasRead
      (contents (interrupted keyboard (arrivals 127)).raw_input)
      input_decoder_init
      (keyboard_read_char arrivals keyboard).0
      (keyboard_read_char arrivals keyboard).1
keyboard_read_char-HasRead_example =
    keyboard_read_char-HasRead arrivals keyboard ring-IsRing
      (λ n h. let other : (n == 127) ≡ false = ground arith in rw other refl)

keyboard_on_irq-after_irq_example :
    (contents (keyboard_on_irq keyboard 1 7).raw_input ≡ after_irq (contents ring) true 1 7)
    × ((keyboard_on_irq keyboard 1 7).decoder ≡ input_decoder_init)
    × IsRing (keyboard_on_irq keyboard 1 7).raw_input
keyboard_on_irq-after_irq_example = keyboard_on_irq-after_irq keyboard 1 7 ring-IsRing
