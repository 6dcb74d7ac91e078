-- ===== src/Input/Keyboard.antt =====
-- kernel/drivers/input/keyboard.c, the interrupt handler and the reader. The controller's status
-- and data bytes are arguments; the handler's early exits stand in their order.
use utamo_os.Common.{
  ℕ, zero, suc, ◌/◌, ◌^◌, Bool, not, ◌||◌, Option, none, some, List, [], ◌∷◌, ◌==◌, if◌then◌else◌,
  low_bits,
}
use utamo_os.Input.Ring.{
  InputRing, capacity, input_ring_discard, input_ring_push, input_ring_pop, input_ring_has_pending,
}
use utamo_os.Input.Decoder.{InputDecoder, input_decoder_init, input_decode_set1}

pub record Keyboard : Type 0 where
  pub raw_input : InputRing
  pub decoder : InputDecoder
  pub initialized : Bool

-- The `count` bits of a byte from `first` on, which `status & mask` tests.
abbrev pub bits_of : ℕ → ℕ → ℕ → ℕ
bits_of byte first count = low_bits (byte / 2 ^ first) count

unfoldable pub keyboard_on_irq : Keyboard → ℕ → ℕ → Keyboard
keyboard_on_irq k status byte =
    if bits_of status 0 1 == 0
    then k
    else if not k.initialized || not (bits_of status 5 1 == 0)
    then k
    else if not (bits_of status 6 2 == 0)
    then record k { raw_input = input_ring_discard k.raw_input }
    else record k { raw_input = (input_ring_push k.raw_input byte).1 }

-- The interrupts that come while they are enabled, as the status and data bytes of each
unfoldable pub interrupted : Keyboard → List (ℕ × ℕ) → Keyboard
unfolding keyboard_on_irq
interrupted k [] = k
interrupted k (irq ∷ irqs) = interrupted (keyboard_on_irq k irq.0 irq.1) irqs

-- A round of the loop: a byte is taken and decoded, and `next_round` follows if there is no
-- character yet.
abbrev pub read_round : (Keyboard → Option ℕ × Keyboard) → Keyboard → Option ℕ × Keyboard
read_round next_round k =
    let (byte, reset, ring) = input_ring_pop k.raw_input in
    let before = if reset then input_decoder_init else k.decoder in
    elim byte [
      | none ↦ (none, record k { raw_input = ring; decoder = before })
      | some b ↦
          let (out, after) = input_decode_set1 before b in
          let next : Keyboard = record k { raw_input = ring; decoder = after } in
          elim out [ none ↦ next_round next | some c ↦ (some c, next) ]
    ]

-- The loop over the budget. Only the pops run with interrupts off; `irqs n` are the interrupts that
-- come before the pop after which `n` rounds are left. The handler leaves the decoder alone, so what
-- comes while a byte is decoded may stand before the next pop.
unfoldable pub read_loop : ℕ → (ℕ → List (ℕ × ℕ)) → Keyboard → Option ℕ × Keyboard
unfolding interrupted
read_loop zero irqs k = (none, k)
read_loop (suc budget) irqs k =
    read_round (λ g. read_loop budget irqs g) (interrupted k (irqs budget))

unfoldable pub keyboard_read_char : (ℕ → List (ℕ × ℕ)) → Keyboard → Option ℕ × Keyboard
unfolding read_loop
keyboard_read_char irqs k = read_loop capacity irqs k

unfoldable pub keyboard_has_pending : Keyboard → Bool
keyboard_has_pending k = input_ring_has_pending k.raw_input
