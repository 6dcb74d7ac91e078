-- ===== src/Sched/Tick.antt =====
-- sched_core_tick of kernel/core/sched_core.c: the loop that wakes the sleepers, and the whole tick.
use utamo_os.Common.{
  ℕ, zero, suc, ◌≤◌, ◌<◌, ◌≡◌, ◌≢◌, refl, ap, ◌∙◌, true, false, Option, none, some, List, [], ◌∷◌,
  ◌++◌, ltb, leb, ◌==◌, if◌then◌else◌, length, arith, Bool-cases, inl, inr,
}
use mathlib.Core.List.{append-nil}
use native.Mathlib.Decide.{ℕ_discrete}
use utamo_os.Sched.State.{Sched, max_tasks, sleeping, increment}
use utamo_os.Sched.Validate.{check_task}
use utamo_os.Sched.Links.{has}
use utamo_os.Sched.Valid.{wake_of, Ordered, IsValid}
use utamo_os.Sched.Accept.{sched_core_validate-IsValid, length-sleepers}
use utamo_os.Sched.Run.{ready_push, wake_first, wake_due, is_due, charge, sched_core_tick}
use utamo_os.Sched.Charge.{charge-IsValid, set_clock, charge-set_clock, wake_of-charge}
use utamo_os.Sched.Time.{due, later, wake_first-IsValid}

pub due_congr :
    (wake wake' : ℕ → ℕ) (now : ℕ) (xs : List ℕ)
    → ((a : ℕ) → has xs a ≡ true → wake' a ≡ wake a)
    → (due wake' now xs ≡ due wake now xs) × (later wake' now xs ≡ later wake now xs)
unfolding has
due_congr wake wake' now [] h = (refl, refl)
due_congr wake wake' now (x ∷ xs) h =
    let rest = due_congr wake wake' now xs (λ a e. h a (ground (arith, e))) in
    rw (h x (ground arith), rest.0, rest.1) (refl, refl)

-- Behind a deadline that is not due, none is.
later_above :
    (wake : ℕ → ℕ) (low now : ℕ) (xs : List ℕ) (a : ℕ)
    → now < low
    → Ordered wake low xs
    → has xs a ≡ true
    → now < wake a
unfolding has
later_above wake low now [] a h o e = absurd (ground (arith, e))
later_above wake low now (x ∷ xs) a h (here, rest) e = elim (ℕ_discrete x a) [
  | yes same ↦ rw (← same) (omega arith)
  | no other ↦ later_above wake (wake x) now xs a (omega arith) rest (ground (arith, e, other))
]

later-lt :
    (wake : ℕ → ℕ) (low now : ℕ) (xs : List ℕ) (a : ℕ)
    → Ordered wake low xs
    → has (later wake now xs) a ≡ true
    → now < wake a
unfolding has
later-lt wake low now [] a o e = absurd (ground (arith, e))
later-lt wake low now (x ∷ xs) a (here, rest) e = elim (Bool-cases (leb (wake x) now)) [
  | inl is_due' ↦ later-lt wake (wake x) now xs a rest (rw is_due' at e)
  | inr later' ↦
      later_above wake (wake x) now (x ∷ xs) a (ground (arith, later')) (omega arith, rest)
        (rw later' at e)
]

pub has-later :
    (wake : ℕ → ℕ) (now : ℕ) (xs : List ℕ) (a : ℕ)
    → has (later wake now xs) a ≡ true
    → has xs a ≡ true
unfolding has
has-later wake now [] a e = e
has-later wake now (x ∷ xs) a e = ground (arith, e, has-later wake now xs a)

wake_of-wake_first : (s : Sched) (a : ℕ) → a ≢ s.sleep_head → wake_of (wake_first s) a ≡ wake_of s a
unfolding wake_first ready_push
wake_of-wake_first s a h = ground (arith, h)

append_snoc : (xs : List ℕ) (x : ℕ) (ys : List ℕ) → (xs ++ x ∷ []) ++ ys ≡ xs ++ x ∷ ys
append_snoc [] x ys = refl
append_snoc (y ∷ xs) x ys = ap (λ zs. y ∷ zs) (append_snoc xs x ys)

wake_due-IsValid :
    (fuel : ℕ) (s : Sched) (now : ℕ) (rs ss : List ℕ)
    → length ss ≤ fuel
    → IsValid s rs ss
    → IsValid (wake_due fuel s now) (rs ++ due (wake_of s) now ss) (later (wake_of s) now ss)
      × ((a : ℕ)
          → has (later (wake_of s) now ss) a ≡ true
          → wake_of (wake_due fuel s now) a ≡ wake_of s a)
unfolding wake_due has
wake_due-IsValid zero s now rs [] h w = (rw (append-nil rs) w, λ a e. refl)
wake_due-IsValid zero s now rs (x ∷ xs) h w = absurd (omega arith)
wake_due-IsValid (suc fuel) s now rs [] h w =
    let none_due : is_due s now ≡ false = ground (arith, w.queues.sleep_links) in
    rw none_due (rw (append-nil rs) w, λ a e. refl)
wake_due-IsValid (suc fuel) s now rs (x ∷ xs) h w =
    let (at, nonzero, links) = w.queues.sleep_links in
    elim (Bool-cases (leb (wake_of s x) now)) [
      | inl wakes ↦
          let some_due : is_due s now ≡ true =
            ground (arith, at, nonzero, ap (wake_of s) at, wakes) in
          let kept : (a : ℕ) → has xs a ≡ true → wake_of (wake_first s) a ≡ wake_of s a = λ a e.
            wake_of-wake_first s a
              (λ z. ground (arith, e, ap (has xs) (z ∙ at), w.queues.sleep_distinct)) in
          let (valid, wakes') =
            wake_due-IsValid fuel (wake_first s) now (rs ++ x ∷ []) xs (omega arith)
              (wake_first-IsValid s x xs w) in
          let (same_due, same_later) = due_congr (wake_of s) (wake_of (wake_first s)) now xs kept in
          rw (some_due, wakes)
            (
              rw (append_snoc, same_due, same_later) at valid,
              λ a e. wakes' a (rw same_later e) ∙ kept a (has-later (wake_of s) now xs a e),
            )
      | inr sleeps ↦
          let none_due : is_due s now ≡ false = ground (arith, at, ap (wake_of s) at, sleeps) in
          rw (none_due, sleeps) (rw (append-nil rs) w, λ a e. refl)
    ]

wake_due-set_clock :
    (fuel : ℕ) (s : Sched) (now ticks : ℕ)
    → wake_due fuel (set_clock s now ticks) now ≡ set_clock (wake_due fuel s now) now ticks
unfolding wake_due wake_first ready_push
wake_due-set_clock zero s now ticks = refl
wake_due-set_clock (suc fuel) s now ticks = elim (Bool-cases (is_due s now)) [
  | inl some_due ↦ rw some_due (wake_due-set_clock fuel (wake_first s) now ticks)
  | inr none_due ↦ rw none_due refl
]

check-set_clock :
    (s : Sched) (now ticks a : ℕ)
    → (((s.store a).state == sleeping) ≡ true → now < wake_of s a)
    → check_task s a (s.store a) ≡ true
    → check_task (set_clock s now ticks) a (s.store a) ≡ true
unfolding check_task
check-set_clock s now ticks a h e = elim (Bool-cases ((s.store a).state == sleeping)) [
  | inl asleep ↦ ground (arith, e, h asleep, asleep)
  | inr other ↦ ground (arith, e, other)
]

-- The time may pass up to the first deadline.
set_clock-IsValid :
    (s : Sched) (now ticks : ℕ) {rs ss : List ℕ}
    → IsValid s rs ss
    → ((a : ℕ) → has ss a ≡ true → now < wake_of s a)
    → IsValid (set_clock s now ticks) rs ss
set_clock-IsValid s now ticks w h =
    let v = w.queues in
    record {
      queues = record {
        is_initialized = v.is_initialized;
        self_nonzero = v.self_nonzero;
        has_quantum = v.has_quantum;
        size = v.size;
        counted = v.counted;
        once = v.once;
        next_id_from = v.next_id_from;
        next_id_to = v.next_id_to;
        idle_in = v.idle_in;
        checked = λ a e z.
            check-set_clock s now ticks a
              (λ asleep. h a (v.sleep_are a ∙ ground (arith, e, z, asleep))) (v.checked a e z);
        floating = v.floating;
        ids = v.ids;
        ready_links = v.ready_links;
        ready_last = v.ready_last;
        ready_distinct = v.ready_distinct;
        ready_are = v.ready_are;
        sleep_links = v.sleep_links;
        sleep_distinct = v.sleep_distinct;
        sleep_are = v.sleep_are;
        sleep_ordered = v.sleep_ordered;
      };
      current_in = w.current_in;
      asks = w.asks;
    }

abbrev pub Ticks : Sched → List ℕ → List ℕ → ℕ → Option Sched → Type 0
Ticks s rs ss now result =
    if ltb now s.now
    then result ≡ none
    else (s' : Sched) × (result ≡ some s')
      × (s'.now ≡ now)
      × IsValid s' (rs ++ due (wake_of s) now ss) (later (wake_of s) now ss)

-- On a valid state, sched_core_tick fails if time goes backwards. Otherwise it leaves a valid state
-- at the new time, in which exactly the sleepers whose deadline is not after it have gone to the end
-- of the ready queue, in the order of their deadlines; the loop that wakes them ends.
pub sched_core_tick-Ticks :
    (s : Sched) (now : ℕ) {rs ss : List ℕ}
    → IsValid s rs ss
    → Ticks s rs ss now (sched_core_tick s now)
unfolding sched_core_tick
sched_core_tick-Ticks s now {rs} {ss} w =
    let accepted = sched_core_validate-IsValid s w in
    let ticks = increment s.ticks in
    elim (Bool-cases (ltb now s.now)) [
      | inl back ↦ rw (accepted, back) refl
      | inr forth ↦
          let charged = charge-IsValid s w in
          let (woken, wakes) =
            wake_due-IsValid max_tasks (charge s) now rs ss (length-sleepers s w) charged in
          let (same_due, same_later) =
            due_congr (wake_of s) (wake_of (charge s)) now ss (λ a e. wake_of-charge s a) in
          let result = wake_due max_tasks (charge s) now in
          let valid = set_clock-IsValid result now ticks woken (λ a e. omega (
            arith,
            wakes a e,
            later-lt (wake_of (charge s)) 0 now ss a charged.queues.sleep_ordered e,
          )) in
          rw (accepted, forth)
            (
              set_clock result now ticks,
              ap some (
                  ap (λ u. wake_due max_tasks u now) (charge-set_clock s now ticks)
                  ∙ wake_due-set_clock max_tasks (charge s) now ticks),
              refl,
              rw (same_due, same_later) at valid,
            )
    ]
