-- ===== src/Sched/Fifo.antt =====
-- sched_core_select of kernel/core/sched_core.c: first in, first out.
use utamo_os.Common.{
  ℕ, ◌≡◌, ◌≢◌, refl, sym, ap, ◌∙◌, Bool, true, false, some, List, [], ◌∷◌, ◌==◌, if◌then◌else◌,
  arith, Bool-cases, inl, inr,
}
use mathlib.Core.Path.{subst}
use native.Mathlib.Decide.{ℕ_discrete}
use utamo_os.Sched.State.{Task, Sched, running, increment}
use utamo_os.Sched.Validate.{check_task}
use utamo_os.Sched.Links.{has, Linked, last_or}
use utamo_os.Sched.Valid.{is_task, next_of, in_ready, in_sleep, check_floating, Standing, IsValid}
use utamo_os.Sched.Accept.{sched_core_validate-IsValid}
use utamo_os.Sched.Revise.{Standing-revised}
use utamo_os.Sched.Run.{ready_push, requeue, take_next, dispatch, keeps_current, sched_core_select}
use utamo_os.Sched.Choose.{
  standby, check-other, queue_after, Standing-requeue, not-has-idle, not-asleep-idle,
  Standing-floating,
}

-- The first of the list, or the idle task.
abbrev pub first_or : ℕ → List ℕ → ℕ
first_or d [] = d
first_or d (x ∷ xs) = x

abbrev pub rest_of : List ℕ → List ℕ
rest_of [] = []
rest_of (x ∷ xs) = xs

floats-idle :
    (s : Sched)
    → s.current ≡ 0
    → is_task s s.idle ≡ true
    → check_task s s.idle (s.store s.idle) ≡ true
    → check_floating s s.idle ≡ true
unfolding check_task
floats-idle s c e h = ground (arith, c, e, h)

floats-ready :
    (s : Sched) (a : ℕ)
    → s.current ≡ 0
    → is_task s a ≡ true
    → a ≢ s.idle
    → check_task s a (s.store a) ≡ true
    → check_floating s a ≡ true
unfolding check_task
floats-ready s a c e i h = ground (arith, c, e, i, h)

-- The ready queue without its head.
abbrev shifted : Sched → Sched
shifted s =
    let head = (s.store s.ready_head).next in
    record s { ready_head = head; ready_tail = if head == 0 then 0 else s.ready_tail }

last_shifted :
    (next : ℕ → ℕ) (n x : ℕ) (xs : List ℕ) (tail : ℕ)
    → Linked next n xs 0
    → last_or x xs ≡ tail
    → last_or 0 xs ≡ (if n == 0 then 0 else tail)
last_shifted next n x [] tail l e = ground (arith, l)
last_shifted next n x (y ∷ xs) tail (at, nonzero, rest) e = ground (arith, at, nonzero, e)

Standing-shifted :
    (s : Sched) (x : ℕ) (xs : List ℕ) {ss : List ℕ}
    → s.current ≡ 0
    → Standing s 0 (x ∷ xs) ss
    → Standing (shifted s) x xs ss
unfolding has check_task
Standing-shifted s x xs {ss} c v =
    let (at, nonzero, links) = v.ready_links in
    let here : in_ready s 0 x ≡ true = sym (v.ready_are x) ∙ ground arith in
    let checked = v.checked x (ground (arith, here)) nonzero in
    record {
      is_initialized = v.is_initialized;
      self_nonzero = v.self_nonzero;
      has_quantum = v.has_quantum;
      size = v.size;
      counted = v.counted;
      once = v.once;
      next_id_from = v.next_id_from;
      next_id_to = v.next_id_to;
      idle_in = v.idle_in;
      checked = λ a e h. v.checked a e (λ z. ground (arith, e, z));
      floating =
          λ h. floats-ready s x c (ground (arith, here)) (λ i. ground (arith, here, i)) checked;
      ids = v.ids;
      ready_links = rw (ap (next_of s) at) links;
      ready_last =
          rw (ap (next_of s) at)
            (last_shifted (next_of s) (next_of s x) x xs s.ready_tail links v.ready_last);
      ready_distinct = v.ready_distinct.1;
      ready_are = λ a. ready_shifted a (ℕ_discrete a x);
      sleep_links = v.sleep_links;
      sleep_distinct = v.sleep_distinct;
      sleep_are = λ a. sleep_shifted a (ℕ_discrete a x);
      sleep_ordered = v.sleep_ordered;
    }
  where
    ready_shifted : (a : ℕ) → Dec (a ≡ x) → has xs a ≡ in_ready s x a
    ready_shifted a (yes e) = rw e (v.ready_distinct.0 ∙ ground arith)
    ready_shifted a (no h) = ground (arith, v.ready_are a, h)

    sleep_shifted : (a : ℕ) → Dec (a ≡ x) → has ss a ≡ in_sleep s x a
    sleep_shifted a (yes e) = rw e (ground (arith, v.sleep_are x, v.ready_are x))
    sleep_shifted a (no h) = ground (arith, v.sleep_are a, h)

check-chosen :
    (s : Sched) (n : ℕ)
    → s.current ≡ 0
    → check_floating s n ≡ true
    → check_task
        (record s { current = n })
        n
        (record (s.store n) {
          next = 0;
          state = running;
          wake_tick = 0;
          quantum_left = s.quantum_ticks;
        })
      ≡ true
unfolding check_task
check-chosen s n c e = ground (arith, c, e)

-- The current task runs from the start of its quantum, and may be preempted.
abbrev pub Fresh : Sched → Type 0
Fresh s =
    let task = s.store s.current in
    (task.state ≡ running) × (task.quantum_left ≡ s.quantum_ticks) × (task.preempt_depth ≡ 0)

abbrev pub Chosen : Sched → List ℕ → List ℕ → Type 0
Chosen s rs ss = IsValid s rs ss × Fresh s

-- The task that take_next chose becomes the current one.
Standing-dispatch :
    (s : Sched) (old n : ℕ) {rs ss : List ℕ}
    → s.current ≡ 0
    → n ≢ 0
    → Standing s n rs ss
    → Chosen (dispatch old s n) rs ss
unfolding dispatch check_task
Standing-dispatch s old n {rs} {ss} c nonzero v =
    let floats = v.floating nonzero in
    let task : Task = record (s.store n) {
      next = 0;
      state = running;
      wake_tick = 0;
      quantum_left = s.quantum_ticks;
    } in
    (
      record {
        queues =
            Standing-revised s n task n false s.ticks
              (if n == old then s.switches else increment s.switches) n 0 v refl
              (v.ready_are n ∙ ground arith) (v.sleep_are n ∙ ground arith) (ground arith) refl
              (λ a e h. ground (arith, e, h)) (λ h e. check-chosen s n c floats)
              (λ a e other h.
                check-other s n a (s.store a) (λ z. h (z ∙ c)) other (v.checked a e other))
              (λ h. absurd (h refl));
        current_in = ground (arith, floats);
        asks = λ e. absurd (ground (arith, e));
      },
      (ground arith, ground arith, ground (arith, floats, c, nonzero)),
    )

-- The choice of a core without a current task.
choice : Sched → ℕ → Sched
choice s old = dispatch old (take_next s).1 (take_next s).0

choice-IsValid :
    (s : Sched) (old : ℕ) (rs : List ℕ) {ss : List ℕ}
    → s.current ≡ 0
    → Standing s 0 rs ss
    → Chosen (choice s old) (rest_of rs) ss × ((take_next s).0 ≡ first_or s.idle rs)
unfolding choice take_next
choice-IsValid s old [] {ss} c v =
    let empty : (s.ready_head == 0) ≡ true = ground (arith, v.ready_links) in
    let nonzero : s.idle ≢ 0 = λ z. ground (arith, v.idle_in, z) in
    let floats = floats-idle s c v.idle_in (v.checked s.idle v.idle_in nonzero) in
    let floating = Standing-floating s s.idle v (not-has-idle s v) (not-asleep-idle s v) floats in
    rw empty (Standing-dispatch s old s.idle c nonzero floating, refl)
choice-IsValid s old (x ∷ xs) {ss} c v =
    let (at, nonzero, links) = v.ready_links in
    let full : (s.ready_head == 0) ≡ false = ground (arith, at, nonzero) in
    rw full (
      subst (λ n. Chosen (dispatch old (shifted s) n) xs ss) (sym at)
          (Standing-dispatch (shifted s) old x c nonzero (Standing-shifted s x xs c v)),
      at,
    )

choice-standby :
    (s : Sched) (old : ℕ)
    → (choice s old ≡ choice (standby s) old) × ((take_next s).0 ≡ (take_next (standby s)).0)
unfolding choice take_next dispatch
choice-standby s old = elim (Bool-cases (s.ready_head == 0)) [
  | inl empty ↦ rw empty (refl, refl)
  | inr full ↦ rw full (refl, refl)
]

kept-requeue : (s : Sched) → ((requeue s).current ≡ s.current) × ((requeue s).idle ≡ s.idle)
unfolding requeue ready_push
kept-requeue s = ground arith

-- The task that is returned, and the core, for these queues.
abbrev pub Selects : Sched → List ℕ → List ℕ → Bool → ℕ × Sched → Type 0
Selects s rs ss force (n, s') =
    if keeps_current s force
    then (n ≡ s.current) × (s' ≡ s)
    else (n ≡ first_or s.idle (queue_after s rs))
      × (s'.current ≡ n)
      × Chosen s' (rest_of (queue_after s rs)) ss

-- On a valid state, sched_core_select returns the current task and changes nothing if that one may
-- not be preempted, or if it runs, nobody asks for another and the call does not force it. Otherwise
-- a running task other than the idle one goes to the end of the ready queue, and the head of the
-- queue, or the idle task if it is empty, is returned and becomes the current task, which runs with
-- a full quantum and may be preempted; the sleepers stay, and so does the validity of the state.
pub sched_core_select-Selects :
    (s : Sched) (force : Bool) {rs ss : List ℕ}
    → IsValid s rs ss
    → (r : ℕ × Sched) × (sched_core_select s force ≡ some r) × Selects s rs ss force r
unfolding sched_core_select choice dispatch
sched_core_select-Selects s force {rs} {ss} w =
    let accepted = sched_core_validate-IsValid s w in
    elim (Bool-cases (keeps_current s force)) [
      | inl keeps ↦ ((s.current, s), rw (accepted, keeps) refl, rw keeps (refl, refl))
      | inr changes ↦
          let standing = Standing-requeue s w (ground (arith, changes)) in
          let (valid, first) =
            choice-IsValid (standby (requeue s)) s.current (queue_after s rs) refl standing in
          let (same, same_first) = choice-standby (requeue s) s.current in
          (
            ((take_next (requeue s)).0, choice (requeue s) s.current),
            rw (accepted, changes) refl,
            rw changes (
              same_first ∙ first ∙ ap (λ d. first_or d (queue_after s rs)) (kept-requeue s).1,
              refl,
              subst (λ s'. Chosen s' (rest_of (queue_after s rs)) ss) (sym same) valid,
            ),
          )
    ]
