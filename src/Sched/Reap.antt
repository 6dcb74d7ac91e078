-- ===== src/Sched/Reap.antt =====
-- sched_core_remove_zombie of kernel/core/sched_core.c keeps the invariant.
use utamo_os.Common.{
  ℕ, ◌-◌, ◌≤◌, ◌<◌, ◌≡◌, ◌≢◌, refl, sym, ap, ◌∙◌, true, false, not, ◌&&◌, ◌||◌, List, [], ◌∷◌, ◌==◌,
  length, arith, set, length-set, IfSome, IfSome-guard,
}
use native.Mathlib.Decide.{ℕ_discrete}
use utamo_os.Sched.State.{Task, Sched, max_tasks, zombie, zeroed, write, first_slot, task_slot}
use utamo_os.Sched.Validate.{check_task, sched_core_validate}
use utamo_os.Sched.Links.{has, Linked-frame}
use utamo_os.Sched.Valid.{
  is_task, next_of, wake_of, Ordered-frame, in_ready, in_sleep, Standing, IsValid,
}
use utamo_os.Sched.Registry.{has-set_empty, count-set_empty, Once-set_empty}
use utamo_os.Sched.Wait.{sched_core_remove_zombie}

-- The core without the task.
abbrev reaped : Sched → ℕ → Sched
reaped s t = record (write s t zeroed) {
  tasks = set s.tasks (task_slot s t) 0;
  task_count = s.task_count - 1;
}

module _ (s : Sched) (t : ℕ) {rs ss : List ℕ} (w : IsValid s rs ss) (known : is_task s t ≡ true)
    (no_current : t ≢ s.current) (no_idle : t ≢ s.idle) (dead : (s.store t).state ≡ zombie) where
  abbrev s' : Sched
  s' = reaped s t

  abbrev v : Standing s 0 rs ss
  v = w.queues

  nonzero : t ≢ 0
  nonzero z = ground (arith, known, z)

  slot_is : task_slot s t ≡ first_slot s.tasks t
  unfolding task_slot
  slot_is = ground (arith, nonzero)

  is_task_after : (a : ℕ) → is_task s' a ≡ (is_task s a && not (a == t))
  is_task_after a = elim (ℕ_discrete a 0) [
    | yes e ↦ ground (arith, e)
    | no z ↦ rw slot_is (ground (arith, has-set_empty s.tasks t a v.once nonzero z, z))
  ]

  store_after : (a : ℕ) → a ≢ t → s'.store a ≡ s.store a
  store_after a e = ground (arith, e)

  check_env : (a : ℕ) (task : Task) → check_task s' a task ≡ check_task s a task
  unfolding check_task
  check_env a task = refl

  apart_from : (xs : List ℕ) (a : ℕ) → has xs t ≡ false → has xs a ≡ true → a ≢ t
  apart_from xs a h e same = ground (arith, ap (has xs) same, h, e)

  not_ready : has rs t ≡ false
  not_ready = ground (arith, v.ready_are t, dead)

  not_asleep : has ss t ≡ false
  not_asleep = ground (arith, v.sleep_are t, dead)

  split : (a : ℕ) → is_task s' a ≡ true → (is_task s a ≡ true) × (a ≢ t)
  split a e =
      let both = sym (is_task_after a) ∙ e in (ground (arith, both), λ z. ground (arith, both, z))

  ready_after : (a : ℕ) → has rs a ≡ in_ready s' 0 a
  ready_after a = elim (ℕ_discrete a t) [
    | yes e ↦ rw e (not_ready ∙ ground (arith, is_task_after t))
    | no other ↦ ground (arith, v.ready_are a, is_task_after a, other)
  ]

  sleep_after : (a : ℕ) → has ss a ≡ in_sleep s' 0 a
  sleep_after a = elim (ℕ_discrete a t) [
    | yes e ↦ rw e (not_asleep ∙ ground (arith, is_task_after t))
    | no other ↦ ground (arith, v.sleep_are a, is_task_after a, other)
  ]

  ids_after :
      (a b : ℕ)
      → (is_task s a ≡ true) × (a ≢ t)
      → (is_task s b ≡ true) × (b ≢ t)
      → (s'.store a).id ≡ (s'.store b).id
      → a ≡ b
  ids_after a b (ea, ha) (eb, hb) e = v.ids a b ea eb (ground (arith, e, ha, hb))

  reaped-Standing : Standing s' 0 rs ss
  reaped-Standing = record {
    is_initialized = v.is_initialized;
    self_nonzero = v.self_nonzero;
    has_quantum = v.has_quantum;
    size = length-set s.tasks (task_slot s t) 0 ∙ v.size;
    counted =
        rw slot_is
          (omega (arith, count-set_empty s.tasks t (ground (arith, known)) nonzero, v.counted));
    once = rw slot_is (Once-set_empty s.tasks t nonzero v.once);
    next_id_from = v.next_id_from;
    next_id_to = v.next_id_to;
    idle_in = is_task_after s.idle ∙ ground (arith, v.idle_in, no_idle);
    checked = λ a e z.
        let (old, other) = split a e in
        rw (store_after a other, check_env a (s.store a)) (v.checked a old z);
    floating = λ z. absurd (z refl);
    ids = λ a b ea eb e. ids_after a b (split a ea) (split b eb) e;
    ready_links =
        Linked-frame (next_of s) (next_of s') s.ready_head rs 0
          (λ a e. ap (λ task. task.next) (store_after a (apart_from rs a not_ready e)))
          v.ready_links;
    ready_last = v.ready_last;
    ready_distinct = v.ready_distinct;
    ready_are = ready_after;
    sleep_links =
        Linked-frame (next_of s) (next_of s') s.sleep_head ss 0
          (λ a e. ap (λ task. task.next) (store_after a (apart_from ss a not_asleep e)))
          v.sleep_links;
    sleep_distinct = v.sleep_distinct;
    sleep_are = sleep_after;
    sleep_ordered =
        Ordered-frame (wake_of s) (wake_of s') 0 ss
          (λ a e. ap (λ task. task.wake_tick) (store_after a (apart_from ss a not_asleep e)))
          v.sleep_ordered;
  }

  reaped-IsValid : IsValid s' rs ss
  reaped-IsValid = record {
    queues = reaped-Standing;
    current_in = is_task_after s.current ∙ ground (arith, w.current_in, no_current);
    asks = λ e. w.asks (ground (arith, e, no_current));
  }

has-first_slot : (xs : List ℕ) (a : ℕ) → first_slot xs a < length xs → has xs a ≡ true
unfolding has first_slot
has-first_slot [] a h = absurd (omega arith)
has-first_slot (x ∷ xs) a h = ground (arith, has-first_slot xs a, h)

first_slot-le : (xs : List ℕ) (a : ℕ) → first_slot xs a ≤ length xs
unfolding first_slot
first_slot-le [] a = omega arith
first_slot-le (x ∷ xs) a = ground (arith, first_slot-le xs a)

-- A slot that is found holds a task.
pub is_task-task_slot :
    (s : Sched) (a : ℕ)
    → length s.tasks ≡ max_tasks
    → (task_slot s a == max_tasks) ≡ false
    → is_task s a ≡ true
unfolding task_slot
is_task-task_slot s a size h =
    ground (arith, has-first_slot s.tasks a, first_slot-le s.tasks a, h, size)

pub sched_core_remove_zombie-IsValid :
    (s : Sched) (t : ℕ) {rs ss : List ℕ}
    → IsValid s rs ss
    → IfSome (λ s'. IsValid s' rs ss) (sched_core_remove_zombie s t)
unfolding sched_core_remove_zombie
sched_core_remove_zombie-IsValid s t {rs} {ss} w =
    IfSome-guard (λ s'. IsValid s' rs ss)
      (not (sched_core_validate s)
        || task_slot s t == max_tasks
        || t == s.current
        || t == s.idle
        || not ((s.store t).state == zombie))
      (reaped s t)
      (λ e.
        reaped-IsValid s t w (is_task-task_slot s t w.queues.size (ground (arith, e)))
          (λ z. ground (arith, e, z)) (λ z. ground (arith, e, z)) (ground (arith, e)))
