-- ===== src/Input/Ring.antt =====
-- kernel/input/input.c, the input_ring functions: raw keyboard bytes between the interrupt handler
-- and its reader.
use utamo_os.Common.{
  ℕ, ◌+◌, ◌%◌, Bool, true, false, not, ◌||◌, Option, none, some, List, ◌==◌, if◌then◌else◌, set,
  get_or, replicate,
}

-- UTAMO_INPUT_RING_CAPACITY
abbrev pub capacity : ℕ
capacity = 128

pub record InputRing : Type 0 where
  pub bytes : List ℕ
  pub head : ℕ
  pub tail : ℕ
  pub reset_pending : Bool

abbrev pub input_ring_init : InputRing
input_ring_init = record { bytes = replicate capacity 0; head = 0; tail = 0; reset_pending = false }

unfoldable pub input_ring_discard : InputRing → InputRing
input_ring_discard r = record r { tail = r.head; reset_pending = true }

unfoldable pub input_ring_push : InputRing → ℕ → Bool × InputRing
unfolding input_ring_discard
input_ring_push r byte =
    let next = (r.head + 1) % capacity in
    if next == r.tail
    then (false, input_ring_discard r)
    else (true, record r { bytes = set r.bytes r.head byte; head = next })

-- The byte that goes through `*byte`, if any, what goes through `*reset`, and the new ring.
unfoldable pub input_ring_pop : InputRing → Option ℕ × Bool × InputRing
input_ring_pop r =
    let cleared : InputRing = record r { reset_pending = false } in
    if r.head == r.tail then (none, r.reset_pending, cleared) else (
      some (get_or r.bytes r.tail 0),
      r.reset_pending,
      record cleared { tail = (r.tail + 1) % capacity },
    )

unfoldable pub input_ring_has_pending : InputRing → Bool
input_ring_has_pending r = not (r.head == r.tail) || r.reset_pending
