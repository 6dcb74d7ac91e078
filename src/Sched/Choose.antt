-- ===== src/Sched/Choose.antt =====
-- sched_core_select of kernel/core/sched_core.c: first in, first out.
use utamo_os.Common.{
  ℕ, ◌≡◌, ◌≢◌, refl, sym, ap, ◌∙◌, true, false, not, ◌&&◌, List, [], ◌∷◌, ◌++◌, ◌==◌, if◌then◌else◌,
  arith, Bool-cases, inl, inr,
}
use native.Mathlib.Decide.{ℕ_discrete}
use utamo_os.Sched.State.{Task, Sched, running, ready, write}
use utamo_os.Sched.Validate.{check_task}
use utamo_os.Sched.Links.{has}
use utamo_os.Sched.Valid.{is_task, in_ready, in_sleep, check_floating, Standing, IsValid}
use utamo_os.Sched.Push.{ready_push-Standing}
use utamo_os.Sched.Revise.{Standing-revised}
use utamo_os.Sched.Run.{ready_push, requeue}

abbrev pub standby : Sched → Sched
standby s = record s { current = 0 }

check-standby :
    (s : Sched) (a : ℕ)
    → ((s.store s.current).state == running) ≡ false
    → (s.store s.current).preempt_depth ≡ 0
    → a ≢ 0
    → check_task s a (s.store a) ≡ true
    → check_task (standby s) a (s.store a) ≡ true
unfolding check_task
check-standby s a stopped depth h e = elim (ℕ_discrete s.current a) [
  | yes same ↦
      let state = ap (λ c. (s.store c).state == running) (sym same) ∙ stopped in
      let here = ap (λ c. (s.store c).preempt_depth) (sym same) ∙ depth in
      ground (arith, state, here, e, h, same)
  | no other ↦ ground (arith, other, h, e)
]

-- A task that does not run, and may be preempted, no longer counts as current.
Standing-standby :
    (s : Sched) {rs ss : List ℕ}
    → Standing s 0 rs ss
    → ((s.store s.current).state == running) ≡ false
    → (s.store s.current).preempt_depth ≡ 0
    → Standing (standby s) 0 rs ss
Standing-standby s v stopped depth = record {
  is_initialized = v.is_initialized;
  self_nonzero = v.self_nonzero;
  has_quantum = v.has_quantum;
  size = v.size;
  counted = v.counted;
  once = v.once;
  next_id_from = v.next_id_from;
  next_id_to = v.next_id_to;
  idle_in = v.idle_in;
  checked = λ a e h. check-standby s a stopped depth h (v.checked a e h);
  floating = λ e. absurd (e refl);
  ids = v.ids;
  ready_links = v.ready_links;
  ready_last = v.ready_last;
  ready_distinct = v.ready_distinct;
  ready_are = v.ready_are;
  sleep_links = v.sleep_links;
  sleep_distinct = v.sleep_distinct;
  sleep_are = v.sleep_are;
  sleep_ordered = v.sleep_ordered;
}

pub not-has-idle : (s : Sched) {rs ss : List ℕ} → Standing s 0 rs ss → has rs s.idle ≡ false
not-has-idle s v = ground (arith, v.ready_are s.idle)

pub not-asleep-idle : (s : Sched) {rs ss : List ℕ} → Standing s 0 rs ss → has ss s.idle ≡ false
unfolding check_task
not-asleep-idle s v = ground (arith, v.sleep_are s.idle, v.checked s.idle v.idle_in)

pub not-has-running :
    (s : Sched) {rs ss : List ℕ} (a : ℕ)
    → Standing s 0 rs ss
    → ((s.store a).state == running) ≡ true
    → (has rs a ≡ false) × (has ss a ≡ false)
not-has-running s a v r = (ground (arith, v.ready_are a, r), ground (arith, v.sleep_are a, r))

-- The idle task goes back to its standby.
abbrev idle_waits : Sched → Sched
idle_waits s = standby (write s s.current (record (s.store s.current) { state = ready }))

check-idle_waits :
    (s : Sched)
    → s.current ≡ s.idle
    → (s.store s.current).preempt_depth ≡ 0
    → s.current ≢ 0
    → check_task s s.current (s.store s.current) ≡ true
    → check_task (idle_waits s) s.current (record (s.store s.current) { state = ready }) ≡ true
unfolding check_task
check-idle_waits s c depth h e = ground (arith, c, depth, h, e)

pub check-other :
    (s : Sched) (current : ℕ) (a : ℕ) (task : Task)
    → a ≢ s.current
    → a ≢ current
    → check_task s a task ≡ true
    → check_task (record s { current = current }) a task ≡ true
unfolding check_task
check-other s current a task h h' e = ground (arith, h, h', e)

Standing-idle_waits :
    (s : Sched) {rs ss : List ℕ}
    → IsValid s rs ss
    → s.current ≡ s.idle
    → ((s.store s.current).state == running) ≡ true
    → (s.store s.current).preempt_depth ≡ 0
    → Standing (idle_waits s) 0 rs ss
unfolding check_task
Standing-idle_waits s w c runs depth =
    let v = w.queues in
    let nonzero : s.current ≢ 0 = λ z. ground (arith, w.current_in, z) in
    let (not_ready, not_asleep) = not-has-running s s.current v runs in
    Standing-revised s s.current (record (s.store s.current) { state = ready }) 0 s.reschedule
      s.ticks s.switches 0 0 v refl not_ready not_asleep (ground (arith, c)) refl (λ a e h. refl)
      (λ h e. check-idle_waits s c depth nonzero (v.checked s.current e nonzero))
      (λ a e other h. check-other s 0 a (s.store a) other h (v.checked a e h))
      (λ h. absurd (h refl))

-- The running task leaves its place.
pub Standing-floating :
    (s : Sched) {rs ss : List ℕ} (t : ℕ)
    → Standing s 0 rs ss
    → has rs t ≡ false
    → has ss t ≡ false
    → check_floating s t ≡ true
    → Standing s t rs ss
Standing-floating s {rs} {ss} t v hr hs f = record {
  is_initialized = v.is_initialized;
  self_nonzero = v.self_nonzero;
  has_quantum = v.has_quantum;
  size = v.size;
  counted = v.counted;
  once = v.once;
  next_id_from = v.next_id_from;
  next_id_to = v.next_id_to;
  idle_in = v.idle_in;
  checked = λ a e h. v.checked a e (λ z. ground (arith, e, z));
  floating = λ h. f;
  ids = v.ids;
  ready_links = v.ready_links;
  ready_last = v.ready_last;
  ready_distinct = v.ready_distinct;
  ready_are = λ a. float_ready a (ℕ_discrete a t);
  sleep_links = v.sleep_links;
  sleep_distinct = v.sleep_distinct;
  sleep_are = λ a. float_sleep a (ℕ_discrete a t);
  sleep_ordered = v.sleep_ordered;
}
  where
    float_ready : (a : ℕ) → Dec (a ≡ t) → has rs a ≡ in_ready s t a
    float_ready a (yes e) = rw e (hr ∙ ground arith)
    float_ready a (no h) = ground (arith, v.ready_are a, h)

    float_sleep : (a : ℕ) → Dec (a ≡ t) → has ss a ≡ in_sleep s t a
    float_sleep a (yes e) = rw e (hs ∙ ground arith)
    float_sleep a (no h) = ground (arith, v.sleep_are a, h)

-- What requeue leaves of the ready queue.
abbrev pub queue_after : Sched → List ℕ → List ℕ
queue_after s rs =
    if (s.store s.current).state == running && not (s.current == s.idle)
    then rs ++ s.current ∷ []
    else rs

pub floating-current :
    (s : Sched)
    → is_task s s.current ≡ true
    → check_task s s.current (s.store s.current) ≡ true
    → check_floating s s.current ≡ true
unfolding check_task
floating-current s e h = ground (arith, e, h)

depth-ready_push :
    (s : Sched) (a : ℕ) → ((ready_push s a).store a).preempt_depth ≡ (s.store a).preempt_depth
unfolding ready_push
depth-ready_push s a = ground arith

state-ready_push : (s : Sched) (a : ℕ) → ((ready_push s a).store a).state ≡ ready
unfolding ready_push
state-ready_push s a = ground arith

current-ready_push : (s : Sched) (a : ℕ) → (ready_push s a).current ≡ s.current
unfolding ready_push
current-ready_push s a = refl

Standing-push_current :
    (s : Sched) {rs ss : List ℕ}
    → IsValid s rs ss
    → s.current ≢ s.idle
    → ((s.store s.current).state == running) ≡ true
    → (s.store s.current).preempt_depth ≡ 0
    → Standing (standby (ready_push s s.current)) 0 (rs ++ s.current ∷ []) ss
Standing-push_current s w works runs depth =
    let v = w.queues in
    let nonzero : s.current ≢ 0 = λ z. ground (arith, w.current_in, z) in
    let (not_ready, not_asleep) = not-has-running s s.current v runs in
    let floats = floating-current s w.current_in (v.checked s.current w.current_in nonzero) in
    let floating = Standing-floating s s.current v not_ready not_asleep floats in
    let pushed = ready_push-Standing s s.current floating nonzero works in
    Standing-standby (ready_push s s.current) pushed
      (rw (current-ready_push s s.current, state-ready_push s s.current) refl)
      (rw (current-ready_push s s.current, depth-ready_push s s.current) depth)

-- No task runs any more, and the current one waits.
pub Standing-requeue :
    (s : Sched) {rs ss : List ℕ}
    → IsValid s rs ss
    → (s.store s.current).preempt_depth ≡ 0
    → Standing (standby (requeue s)) 0 (queue_after s rs) ss
unfolding requeue
Standing-requeue s {rs} {ss} w depth = elim (Bool-cases ((s.store s.current).state == running)) [
  | inl runs ↦ elim (ℕ_discrete s.current s.idle) [
    | yes idles ↦
        let same : (s.current == s.idle) ≡ true = ground (arith, idles) in
        rw (runs, same) (Standing-idle_waits s w idles runs depth)
    | no works ↦
        let same : (s.current == s.idle) ≡ false = ground (arith, works) in
        rw (runs, same) (Standing-push_current s w works runs depth)
  ]
  | inr stopped ↦ rw stopped (Standing-standby s w.queues stopped depth)
]
