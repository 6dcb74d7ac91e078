-- ===== src/Input/Reader.antt =====
-- keyboard_read_char against the queue that the ring stands for: it decodes the bytes that wait, in
-- order, and its budget of rounds never ends it early.
use utamo_os.Common.{
  ℕ, zero, suc, ◌<◌, ◌≡◌, refl, sym, ap, ◌∙◌, Bool, true, false, Option, none, some, List, [], ◌∷◌,
  arith, if◌then◌else◌, length, ◌==◌, ◌||◌, not, Bool-cases, inl, inr, Option-cases,
}
use mathlib.Core.Path.{subst, subst₂, fun_ext}
use utamo_os.Input.Ring.{InputRing, capacity, input_ring_pop}
use utamo_os.Input.Queue.{
  Pending, IsRing, contents, waiting, length-bytes_from, pop_bytes, pop_refines, push, push_refines,
  discard_refines,
}
use utamo_os.Input.Decoder.{InputDecoder, input_decoder_init, input_decode_set1}
use utamo_os.Input.Keyboard.{
  Keyboard, keyboard_on_irq, interrupted, read_round, read_loop, keyboard_read_char, bits_of,
}

-- What a read finds among the waiting bytes: the first character, the bytes behind it, and the
-- decoder's state there.
unfoldable pub first_char : List ℕ → InputDecoder → Option ℕ × List ℕ × InputDecoder
first_char [] d = (none, [], d)
first_char (b ∷ bs) d =
    let (out, d') = input_decode_set1 d b in
    let rest = first_char bs d' in elim out [ none ↦ rest | some c ↦ (some c, bs, d') ]

-- The decoder that a read starts with: a fresh one, if bytes were lost.
abbrev pub decoder_for : Bool → InputDecoder → InputDecoder
decoder_for lost d = if lost then input_decoder_init else d

-- `k'` is what a read leaves of `k`, and `out` what it returns.
pub record HasRead (q : Pending) (d : InputDecoder) (out : Option ℕ) (k' : Keyboard) : Type 0 where
  pub char : out ≡ (first_char q.bytes (decoder_for q.lost d)).0
  pub left :
      contents k'.raw_input
      ≡ record { bytes = (first_char q.bytes (decoder_for q.lost d)).1; lost = false }
  pub state : k'.decoder ≡ (first_char q.bytes (decoder_for q.lost d)).2
  pub ring : IsRing k'.raw_input

-- A pop, at the queue that the ring stands for.
record Popped (r : InputRing) (bytes : List ℕ) (lost : Bool) : Type 0 where
  byte : (input_ring_pop r).0 ≡ (pop_bytes bytes lost).0
  reset : (input_ring_pop r).1 ≡ lost
  rest : contents (input_ring_pop r).2 ≡ (pop_bytes bytes lost).2
  ring : IsRing (input_ring_pop r).2

pop_bytes-lost : (bytes : List ℕ) (lost : Bool) → (pop_bytes bytes lost).1 ≡ lost
unfolding pop_bytes
pop_bytes-lost [] lost = refl
pop_bytes-lost (b ∷ bs) lost = refl

pop-Popped :
    (r : InputRing) (bytes : List ℕ) (lost : Bool)
    → IsRing r
    → contents r ≡ record { bytes = bytes; lost = lost }
    → Popped r bytes lost
pop-Popped r bytes lost v e =
    let (b, flag, rest, ok) = pop_refines r v in
    let same : (contents r).bytes ≡ bytes = ap (λ (q : Pending). q.bytes) e in
    let was : r.reset_pending ≡ lost = ap (λ (q : Pending). q.lost) e in
    let at =
      λ (f : Option ℕ × Bool × Pending → Type 0)
          (x : f (pop_bytes (contents r).bytes r.reset_pending)).
        subst₂ (λ bs l. f (pop_bytes bs l)) same was x in
    record {
      byte = at (λ x. (input_ring_pop r).0 ≡ x.0) b;
      reset = at (λ x. (input_ring_pop r).1 ≡ x.1) flag ∙ pop_bytes-lost bytes lost;
      rest = at (λ x. contents (input_ring_pop r).2 ≡ x.2) rest;
      ring = ok;
    }

-- The loop without interrupts
unfoldable quiet_loop : ℕ → Keyboard → Option ℕ × Keyboard
quiet_loop zero k = (none, k)
quiet_loop (suc budget) k =
    let (byte, reset, ring) = input_ring_pop k.raw_input in
    let before = if reset then input_decoder_init else k.decoder in
    elim byte [
      | none ↦ (none, record k { raw_input = ring; decoder = before })
      | some b ↦
          let (out, after) = input_decode_set1 before b in
          let next : Keyboard = record k { raw_input = ring; decoder = after } in
          elim out [ none ↦ quiet_loop budget next | some c ↦ (some c, next) ]
    ]

read_loop-HasRead :
    (budget : ℕ) (bytes : List ℕ) (lost : Bool) (k : Keyboard)
    → IsRing k.raw_input
    → contents k.raw_input ≡ record { bytes = bytes; lost = lost }
    → length bytes < budget
    → HasRead
        (record { bytes = bytes; lost = lost })
        k.decoder
        (quiet_loop budget k).0
        (quiet_loop budget k).1
unfolding quiet_loop first_char pop_bytes
read_loop-HasRead zero bytes lost k v e h = absurd (omega arith)
read_loop-HasRead (suc budget) [] lost k v e h =
    let p = pop-Popped k.raw_input [] lost v e in
    let byte = p.byte in
    let reset = p.reset in
    rw (byte, quiet_loop) (record { char = refl; left = p.rest; state = rw reset; ring = p.ring })
read_loop-HasRead (suc budget) (b ∷ bs) lost k v e h =
    let p = pop-Popped k.raw_input (b ∷ bs) lost v e in
    let byte = p.byte in
    let reset = p.reset in
    let before = decoder_for lost k.decoder in
    let next : Keyboard = record k {
      raw_input = (input_ring_pop k.raw_input).2;
      decoder = (input_decode_set1 before b).1;
    } in
    elim (Option-cases (input_decode_set1 before b).0) [
      | inl silent ↦
          let rest = read_loop-HasRead budget bs false next p.ring p.rest (omega arith) in
          record {
            char = ground (arith, rest.char);
            left = ground (arith, rest.left);
            state = ground (arith, rest.state);
            ring =
                (let step : quiet_loop budget next ≡ quiet_loop (suc budget) k = ground arith in
                  subst (λ (x : Option ℕ × Keyboard). IsRing x.1.raw_input) step rest.ring);
          }
      | inr (c, struck) ↦ record {
        char = ground arith;
        left = ground (arith, p.rest);
        state = ground arith;
        ring =
            (let step : (some c, next) ≡ quiet_loop (suc budget) k = ground arith in
              subst (λ (x : Option ℕ × Keyboard). IsRing x.1.raw_input) step p.ring);
      }
    ]

-- What the interrupt handler does to the queue: nothing, a loss of all bytes, or a push.
abbrev pub after_irq : Pending → Bool → ℕ → ℕ → Pending
after_irq q initialized status byte =
    if bits_of status 0 1 == 0
    then q
    else if not initialized || not (bits_of status 5 1 == 0)
    then q
    else if not (bits_of status 6 2 == 0)
    then record { bytes = []; lost = true }
    else (push q byte).1

-- The interrupt handler ignores the byte if the controller has none, if the keyboard is not
-- initialized, or if the byte is from the mouse. On a parity or timeout error it drops all bytes
-- that wait, else it pushes the byte onto the queue. It leaves the decoder, and the ring in order.
pub keyboard_on_irq-after_irq :
    (k : Keyboard) (status byte : ℕ)
    → IsRing k.raw_input
    → (contents (keyboard_on_irq k status byte).raw_input
        ≡ after_irq (contents k.raw_input) k.initialized status byte)
      × ((keyboard_on_irq k status byte).decoder ≡ k.decoder)
      × IsRing (keyboard_on_irq k status byte).raw_input
unfolding keyboard_on_irq
keyboard_on_irq-after_irq k status byte v =
    let (d, pushed, ring) = push_refines k.raw_input byte v in
    let (dropped, ring') = discard_refines k.raw_input v in
    elim (Bool-cases (bits_of status 0 1 == 0)) [
      | inl empty ↦ rw empty (refl, refl, v)
      | inr full ↦ elim (Bool-cases (not k.initialized || not (bits_of status 5 1 == 0))) [
        | inl skip ↦ rw (full, skip) (refl, refl, v)
        | inr keep ↦ elim (Bool-cases (bits_of status 6 2 == 0)) [
          | inl good ↦ rw (full, keep, good) (pushed, refl, ring)
          | inr bad ↦ rw (full, keep, bad) (dropped, refl, ring')
        ]
      ]
    ]

-- So do the interrupts that come in between.
interrupted-IsRing :
    (k : Keyboard) (irqs : List (ℕ × ℕ))
    → IsRing k.raw_input
    → IsRing (interrupted k irqs).raw_input × ((interrupted k irqs).decoder ≡ k.decoder)
unfolding interrupted
interrupted-IsRing k [] v = (v, refl)
interrupted-IsRing k (irq ∷ irqs) v =
    let (_, same, v') = keyboard_on_irq-after_irq k irq.0 irq.1 v in
    let (w, same') = interrupted-IsRing (keyboard_on_irq k irq.0 irq.1) irqs v' in (w, same' ∙ same)

read_round-same :
    (f g : Keyboard → Option ℕ × Keyboard) (k : Keyboard)
    → ((x : Keyboard) → f x ≡ g x)
    → read_round f k ≡ read_round g k
read_round-same f g k same = ap (λ next. read_round next k) (fun_ext same)

-- Rounds that no interrupt comes between
read_loop-quiet :
    (budget : ℕ) (irqs : ℕ → List (ℕ × ℕ)) (k : Keyboard)
    → ((n : ℕ) → n < budget → irqs n ≡ [])
    → read_loop budget irqs k ≡ quiet_loop budget k
unfolding read_loop interrupted quiet_loop
read_loop-quiet zero irqs k quiet = refl
read_loop-quiet (suc budget) irqs k quiet =
    ap (λ (l : List (ℕ × ℕ)). read_round (λ g. read_loop budget irqs g) (interrupted k l))
      (quiet budget (omega arith))
    ∙ read_round-same (λ g. read_loop budget irqs g) (quiet_loop budget) k
        (λ x. read_loop-quiet budget irqs x (λ n h. quiet n (omega arith)))

read_loop_start :
    (irqs : ℕ → List (ℕ × ℕ)) (k : Keyboard)
    → read_loop 128 irqs k ≡ read_round (λ x. read_loop 127 irqs x) (interrupted k (irqs 127))
unfolding read_loop
read_loop_start irqs k = refl

quiet_loop_start : (k : Keyboard) → read_round (quiet_loop 127) k ≡ quiet_loop 128 k
unfolding quiet_loop
quiet_loop_start k = refl

-- If no interrupt comes between the pops of keyboard_read_char, it returns the first character that
-- the bytes waiting at its first pop decode to, starting afresh if bytes were lost. It takes the bytes
-- up to that character, or all of them if there is none, leaves the decoder as it is there, and clears
-- the flag of lost bytes. Its budget of 128 rounds suffices for every ring then.
pub keyboard_read_char-HasRead :
    (irqs : ℕ → List (ℕ × ℕ)) (k : Keyboard)
    → IsRing k.raw_input
    → ((n : ℕ) → n < 127 → irqs n ≡ [])
    → HasRead
        (contents (interrupted k (irqs 127)).raw_input)
        k.decoder
        (keyboard_read_char irqs k).0
        (keyboard_read_char irqs k).1
unfolding keyboard_read_char
keyboard_read_char-HasRead irqs k v quiet =
    let g = interrupted k (irqs 127) in
    let (w, same) = interrupted-IsRing k (irqs 127) v in
    let first : read_loop 128 irqs k ≡ quiet_loop 128 g =
      read_loop_start irqs k
      ∙ read_round-same (λ x. read_loop 127 irqs x) (quiet_loop 127) g
          (λ x. read_loop-quiet 127 irqs x quiet)
      ∙ quiet_loop_start g in
    let read =
      read_loop-HasRead capacity (contents g.raw_input).bytes g.raw_input.reset_pending g w refl (
        omega
          (arith, length-bytes_from g.raw_input.bytes g.raw_input.tail (waiting g.raw_input))) in
    subst
      (λ d.
        HasRead (contents g.raw_input) d (keyboard_read_char irqs k).0
          (keyboard_read_char irqs k).1)
      same
      (subst (λ (r : Option ℕ × Keyboard). HasRead (contents g.raw_input) g.decoder r.0 r.1)
        (sym first) read)
