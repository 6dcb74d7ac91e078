-- ===== src/Input/Queue.antt =====
-- What the input ring promises its two users: a bounded queue of bytes, with a flag that says that
-- bytes were lost. No sequence of calls tells a ring from it.
use utamo_os.Common.{
  ℕ, zero, suc, ◌+◌, ◌-◌, ◌%◌, ◌<◌, ◌≡◌, ◌≢◌, refl, ap, ◌∙◌, Bool, true, false, ◌||◌, Option, none,
  some, List, [], ◌∷◌, ◌++◌, arith, ◌==◌, if◌then◌else◌, set, get_or, length, length-set,
  get_or-set_self, get_or-set_ne, inl, inr, Bool-cases,
}
use utamo_os.Input.Ring.{
  InputRing, capacity, input_ring_init, input_ring_discard, input_ring_push, input_ring_pop,
  input_ring_has_pending,
}

-- the bytes that wait, oldest first, and whether bytes were lost since the last pop
pub record Pending : Type 0 where
  pub bytes : List ℕ
  pub lost : Bool

-- A full queue drops all that it holds, and the new byte.
unfoldable pub push : Pending → ℕ → Bool × Pending
push q byte =
    if length q.bytes == 127
    then (false, record { bytes = []; lost = true })
    else (true, record q { bytes = q.bytes ++ (byte ∷ []) })

unfoldable pub pop_bytes : List ℕ → Bool → Option ℕ × Bool × Pending
pop_bytes [] lost = (none, lost, record { bytes = []; lost = false })
pop_bytes (b ∷ bs) lost = (some b, lost, record { bytes = bs; lost = false })

abbrev pub has_bytes : List ℕ → Bool
has_bytes [] = false
has_bytes (b ∷ bs) = true

-- A user's call, and what it sees.
pub data Call : Type 0 where
  put : ℕ → Call
  take_one discard ask : Call

pub data Reply : Type 0 where
  put_done : Bool → Reply
  taken : Option ℕ → Bool → Reply
  discarded : Reply
  answer : Bool → Reply

pub run_ring : InputRing → List Call → List Reply
run_ring r [] = []
run_ring r (put b ∷ cs) = let (done, r') = input_ring_push r b in put_done done ∷ run_ring r' cs
run_ring r (take_one ∷ cs) = let (b, reset, r') = input_ring_pop r in taken b reset ∷ run_ring r' cs
run_ring r (discard ∷ cs) = discarded ∷ run_ring (input_ring_discard r) cs
run_ring r (ask ∷ cs) = answer (input_ring_has_pending r) ∷ run_ring r cs

pub run_queue : Pending → List Call → List Reply
run_queue q [] = []
run_queue q (put b ∷ cs) = let (done, q') = push q b in put_done done ∷ run_queue q' cs
run_queue q (take_one ∷ cs) =
    let (b, reset, q') = pop_bytes q.bytes q.lost in taken b reset ∷ run_queue q' cs
run_queue q (discard ∷ cs) = discarded ∷ run_queue (record { bytes = []; lost = true }) cs
run_queue q (ask ∷ cs) = answer (has_bytes q.bytes || q.lost) ∷ run_queue q cs

pub record IsRing (r : InputRing) : Type 0 where
  pub size : length r.bytes ≡ capacity
  pub head_in : r.head < capacity
  pub tail_in : r.tail < capacity

-- the `n` bytes from index `t` on, going round
abbrev pub bytes_from : List ℕ → ℕ → ℕ → List ℕ
bytes_from xs t zero = []
bytes_from xs t (suc n) = get_or xs t 0 ∷ bytes_from xs ((t + 1) % capacity) n

abbrev pub waiting : InputRing → ℕ
waiting r = (r.head + capacity - r.tail) % capacity

-- The queue that a ring stands for.
abbrev pub contents : InputRing → Pending
contents r = record { bytes = bytes_from r.bytes r.tail (waiting r); lost = r.reset_pending }

pub length-bytes_from : (xs : List ℕ) (t n : ℕ) → length (bytes_from xs t n) ≡ n
length-bytes_from xs t zero = refl
length-bytes_from xs t (suc n) = ap suc (length-bytes_from xs ((t + 1) % capacity) n)

-- A write behind the last of the bytes leaves them, and adds one.
bytes_from-set :
    (xs : List ℕ) (t n h b : ℕ)
    → length xs ≡ capacity
    → t < capacity
    → n < 127
    → h ≡ (t + n) % capacity
    → bytes_from (set xs h b) t (suc n) ≡ bytes_from xs t n ++ (b ∷ [])
bytes_from-set xs t zero h b size ht hn e =
    let same : h ≡ t = omega arith in rw (← same) (rw (get_or-set_self xs h b 0 (omega arith)))
bytes_from-set xs t (suc n) h b size ht hn e =
    let other : h ≢ t = omega arith in
    let rest =
      bytes_from-set xs ((t + 1) % capacity) n h b size (omega arith) (omega arith) (omega arith) in
    ground (arith, get_or-set_ne xs h t b 0 other)

bytes_from-pop :
    (xs : List ℕ) (t n : ℕ)
    → 0 < n
    → bytes_from xs t n ≡ get_or xs t 0 ∷ bytes_from xs ((t + 1) % capacity) (n - 1)
bytes_from-pop xs t zero h = absurd (omega arith)
bytes_from-pop xs t (suc n) h = ap (λ k. bytes_from xs t (suc k)) (omega arith)

empty-contents : (r : InputRing) → r.head ≡ r.tail → r.tail < capacity → (contents r).bytes ≡ []
empty-contents r e h =
    let n : waiting r ≡ 0 = omega arith in ap (λ k. bytes_from r.bytes r.tail k) n

pub discard_refines :
    (r : InputRing)
    → IsRing r
    → (contents (input_ring_discard r) ≡ record { bytes = []; lost = true })
      × IsRing (input_ring_discard r)
unfolding input_ring_discard
discard_refines r v = (
  ap (λ (bs : List ℕ). record { bytes = bs; lost = true })
      (empty-contents (record r { tail = r.head }) refl v.head_in),
  record { size = v.size; head_in = v.head_in; tail_in = v.head_in },
)

pub push_refines :
    (r : InputRing) (b : ℕ)
    → IsRing r
    → ((input_ring_push r b).0 ≡ (push (contents r) b).0)
      × (contents (input_ring_push r b).1 ≡ (push (contents r) b).1)
      × IsRing (input_ring_push r b).1
unfolding input_ring_push push
push_refines r b v =
    let len = length-bytes_from r.bytes r.tail (waiting r) in
    elim (Bool-cases ((r.head + 1) % capacity == r.tail)) [
      | inl full ↦
          let n : (length (contents r).bytes == 127) ≡ true = ground arith in
          let (d, ok) = discard_refines r v in rw (full, n) (refl, d, ok)
      | inr room ↦
          let n : (length (contents r).bytes == 127) ≡ false = ground arith in
          let more : ((r.head + 1) % capacity + capacity - r.tail) % capacity ≡ suc (waiting r) =
            ground arith in
          let added =
            bytes_from-set r.bytes r.tail (waiting r) r.head b v.size v.tail_in (ground arith)
              (omega arith) in
          rw (room, n)
            (
              refl,
              ap (λ (bs : List ℕ). record { bytes = bs; lost = r.reset_pending })
                  (ap (λ k. bytes_from (set r.bytes r.head b) r.tail k) more ∙ added),
              record {
                size = length-set r.bytes r.head b ∙ v.size;
                head_in = omega arith;
                tail_in = v.tail_in;
              },
            )
    ]

pub pop_refines :
    (r : InputRing)
    → IsRing r
    → ((input_ring_pop r).0 ≡ (pop_bytes (contents r).bytes r.reset_pending).0)
      × ((input_ring_pop r).1 ≡ (pop_bytes (contents r).bytes r.reset_pending).1)
      × (contents (input_ring_pop r).2 ≡ (pop_bytes (contents r).bytes r.reset_pending).2)
      × IsRing (input_ring_pop r).2
unfolding input_ring_pop pop_bytes
pop_refines r v = elim (Bool-cases (r.head == r.tail)) [
  | inl none_left ↦
      let e = empty-contents r (ground arith) v.tail_in in
      rw (none_left, e)
        (refl, refl, refl, record { size = v.size; head_in = v.head_in; tail_in = v.tail_in })
  | inr some_left ↦
      let pos : 0 < waiting r = ground arith in
      let split = bytes_from-pop r.bytes r.tail (waiting r) pos in
      let less : (r.head + capacity - (r.tail + 1) % capacity) % capacity ≡ waiting r - 1 =
        ground arith in
      rw (some_left, split)
        (
          refl,
          refl,
          ap (λ k. record { bytes = bytes_from r.bytes ((r.tail + 1) % capacity) k; lost = false })
              less,
          record { size = v.size; head_in = v.head_in; tail_in = omega arith },
        )
]

has_pending_refines :
    (r : InputRing)
    → IsRing r
    → input_ring_has_pending r ≡ (has_bytes (contents r).bytes || r.reset_pending)
unfolding input_ring_has_pending
has_pending_refines r v = elim (Bool-cases (r.head == r.tail)) [
  | inl none_left ↦ rw (none_left, empty-contents r (ground arith) v.tail_in)
  | inr some_left ↦
      let pos : 0 < waiting r = ground arith in
      rw (some_left, bytes_from-pop r.bytes r.tail (waiting r) pos)
]

-- From a ring whose array has 128 bytes and whose two indices are in it, every sequence of pushes,
-- pops, discards and queries gives the answers of the queue of the bytes that wait. The queue holds
-- at most 127 bytes: a push onto a full one drops all of them and the new byte, and the next pop
-- reports it.
pub run_ring-run_queue :
    (cs : List Call) (r : InputRing) → IsRing r → run_ring r cs ≡ run_queue (contents r) cs
unfolding run_ring run_queue
run_ring-run_queue [] r v = refl
run_ring-run_queue (put b ∷ cs) r v =
    let (d, c, ok) = push_refines r b v in rw (run_ring-run_queue cs _ ok, c, d)
run_ring-run_queue (take_one ∷ cs) r v =
    let (b, reset, c, ok) = pop_refines r v in rw (run_ring-run_queue cs _ ok, c, b, reset)
run_ring-run_queue (discard ∷ cs) r v =
    let (c, ok) = discard_refines r v in rw (run_ring-run_queue cs _ ok, c)
run_ring-run_queue (ask ∷ cs) r v = rw (run_ring-run_queue cs r v, has_pending_refines r v)

pub input_ring_init-IsRing : IsRing input_ring_init
input_ring_init-IsRing = record { size = refl; head_in = omega arith; tail_in = omega arith }
