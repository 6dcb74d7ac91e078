-- ===== src/Sched/Enroll.antt =====
-- sched_core_add and sched_core_remove_zombie of kernel/core/sched_core.c.
use utamo_os.Common.{
  ℕ, ◌<◌, ◌≡◌, ◌≢◌, sym, ap, ◌∙◌, true, false, not, ◌||◌, List, [], ◌∷◌, ◌++◌, ◌==◌, length, arith,
  Bool-cases, inl, inr, length-set, u64_max, IfSome, IfSome-guard,
}
use native.Mathlib.Decide.{ℕ_discrete}
use utamo_os.Sched.State.{Sched, max_tasks, first_slot}
use utamo_os.Sched.Validate.{check_task, sched_core_validate}
use utamo_os.Sched.Links.{has, Linked-frame}
use utamo_os.Sched.Valid.{
  count_tasks, is_task, next_of, wake_of, Ordered-frame, in_ready, in_sleep, check_floating,
  Standing, IsValid,
}
use utamo_os.Sched.Push.{ready_push-IsValid}
use utamo_os.Sched.Accept.{count_tasks-le}
use utamo_os.Sched.Registry.{has-set_free, count-set_free, Once-set_free}
use utamo_os.Sched.Run.{ready_push, enrolled, sched_core_add}

-- A task that no core owns is in no slot.
not-is_task :
    (s : Sched) (t : ℕ) {rs ss : List ℕ}
    → Standing s 0 rs ss
    → t ≢ 0
    → (s.store t).owner ≡ 0
    → is_task s t ≡ false
unfolding check_task
not-is_task s t v h free = elim (Bool-cases (is_task s t)) [
  | inl e ↦ absurd (ground (arith, v.checked t e h, free, v.self_nonzero))
  | inr e ↦ e
]

module _ (s : Sched) (t : ℕ) {rs ss : List ℕ} (w : IsValid s rs ss) (h : t ≢ 0)
    (free : (s.store t).owner ≡ 0) (room : s.task_count ≢ max_tasks)
    (below : s.next_id ≢ u64_max) where
  abbrev s' : Sched
  s' = enrolled s t

  abbrev v : Standing s 0 rs ss
  v = w.queues

  unknown : is_task s t ≡ false
  unknown = not-is_task s t v h free

  less : count_tasks s.tasks < length s.tasks
  less = ground (arith, v.size, v.counted, room, count_tasks-le s.tasks)

  is_task_after : (a : ℕ) → is_task s' a ≡ (is_task s a || a == t)
  is_task_after a = elim (ℕ_discrete a 0) [
    | yes e ↦ ground (arith, e, h)
    | no z ↦ ground (arith, has-set_free s.tasks t a less z, z)
  ]

  store_after : (a : ℕ) → a ≢ t → s'.store a ≡ s.store a
  store_after a e = ground (arith, e)

  old : (a : ℕ) → is_task s a ≡ true → a ≢ t
  old a e same = ground (arith, ap (is_task s) same, e, unknown)

  check_env : (a : ℕ) → check_task s a (s.store a) ≡ true → check_task s' a (s.store a) ≡ true
  unfolding check_task
  check_env a e = ground (arith, e)

  id_below : (a : ℕ) → is_task s a ≡ true → (s.store a).id < s.next_id
  unfolding check_task
  id_below a e = ground (arith, v.checked a e (λ z. ground (arith, e, z)))

  ids_after :
      (a b : ℕ)
      → (is_task s a || a == t) ≡ true
      → (is_task s b || b == t) ≡ true
      → (s'.store a).id ≡ (s'.store b).id
      → a ≡ b
  ids_after a b ea eb e = elim (ℕ_discrete a t) [
    | yes here ↦ elim (ℕ_discrete b t) [
      | yes there ↦ here ∙ sym there
      | no other ↦
          let b_in : is_task s b ≡ true = ground (arith, eb, other) in
          absurd (ground (arith, e, here, other, id_below b b_in))
    ]
    | no apart ↦
        let a_in : is_task s a ≡ true = ground (arith, ea, apart) in
        elim (ℕ_discrete b t) [
          | yes there ↦ absurd (ground (arith, e, there, apart, id_below a a_in))
          | no other ↦
              let b_in : is_task s b ≡ true = ground (arith, eb, other) in
              v.ids a b a_in b_in (ground (arith, e, apart, other))
        ]
  ]

  apart_from : (xs : List ℕ) (a : ℕ) → has xs t ≡ false → has xs a ≡ true → a ≢ t
  apart_from xs a h e same = ground (arith, ap (has xs) same, h, e)

  not_ready : has rs t ≡ false
  not_ready = ground (arith, v.ready_are t, unknown)

  not_asleep : has ss t ≡ false
  not_asleep = ground (arith, v.sleep_are t, unknown)

  floats : check_floating s' t ≡ true
  floats =
      let in_slot : is_task s' t ≡ true = is_task_after t ∙ ground arith in
      let works : s.idle ≢ t = old s.idle v.idle_in in
      ground (arith, in_slot, works, v.next_id_from)

  ready_after : (a : ℕ) → has rs a ≡ in_ready s' t a
  ready_after a = elim (ℕ_discrete a t) [
    | yes e ↦ rw e (not_ready ∙ ground arith)
    | no other ↦ ground (arith, v.ready_are a, is_task_after a, other)
  ]

  sleep_after : (a : ℕ) → has ss a ≡ in_sleep s' t a
  sleep_after a = elim (ℕ_discrete a t) [
    | yes e ↦ rw e (not_asleep ∙ ground arith)
    | no other ↦ ground (arith, v.sleep_are a, is_task_after a, other)
  ]

  checked_after :
      (a : ℕ) → (is_task s a || a == t) ≡ true → a ≢ t → check_task s' a (s'.store a) ≡ true
  checked_after a e other =
      let a_in : is_task s a ≡ true = ground (arith, e, other) in
      rw (store_after a other) (check_env a (v.checked a a_in (λ z. ground (arith, a_in, z))))

  enrolled-Standing : Standing s' t rs ss
  enrolled-Standing = record {
    is_initialized = v.is_initialized;
    self_nonzero = v.self_nonzero;
    has_quantum = v.has_quantum;
    size = length-set s.tasks (first_slot s.tasks 0) t ∙ v.size;
    counted = ground (arith, count-set_free s.tasks t less h, v.counted);
    once = Once-set_free s.tasks t less h (ground (arith, unknown, h)) v.once;
    next_id_from = omega (arith, v.next_id_from);
    next_id_to = omega (arith, v.next_id_to);
    idle_in = is_task_after s.idle ∙ ground (arith, v.idle_in);
    checked = λ a e other. checked_after a (sym (is_task_after a) ∙ e) other;
    floating = λ z. floats;
    ids = λ a b ea eb e. ids_after a b (sym (is_task_after a) ∙ ea) (sym (is_task_after b) ∙ eb) e;
    ready_links =
        Linked-frame (next_of s) (next_of s') s.ready_head rs 0
          (λ a e. ap (λ task. task.next) (store_after a (apart_from rs a not_ready e)))
          v.ready_links;
    ready_last = v.ready_last;
    ready_distinct = v.ready_distinct;
    ready_are = ready_after;
    sleep_links =
        Linked-frame (next_of s) (next_of s') s.sleep_head ss 0
          (λ a e. ap (λ task. task.next) (store_after a (apart_from ss a not_asleep e)))
          v.sleep_links;
    sleep_distinct = v.sleep_distinct;
    sleep_are = sleep_after;
    sleep_ordered =
        Ordered-frame (wake_of s) (wake_of s') 0 ss
          (λ a e. ap (λ task. task.wake_tick) (store_after a (apart_from ss a not_asleep e)))
          v.sleep_ordered;
  }

-- A task that is added goes to the end of the ready queue.
pub sched_core_add-IsValid :
    (s : Sched) (t : ℕ) {rs ss : List ℕ}
    → IsValid s rs ss
    → IfSome (λ s'. IsValid s' (rs ++ t ∷ []) ss) (sched_core_add s t)
unfolding sched_core_add
sched_core_add-IsValid s t {rs} {ss} w =
    IfSome-guard (λ s'. IsValid s' (rs ++ t ∷ []) ss)
      (not (sched_core_validate s)
        || t == 0
        || not ((s.store t).owner == 0)
        || s.task_count == max_tasks
        || s.next_id == u64_max)
      (ready_push (enrolled s t) t)
      (λ e.
        let h : t ≢ 0 = λ z. ground (arith, e, z) in
        let free : (s.store t).owner ≡ 0 = ground (arith, e) in
        let room : s.task_count ≢ max_tasks = λ z. ground (arith, e, z) in
        let below : s.next_id ≢ u64_max = λ z. ground (arith, e, z) in
        ready_push-IsValid (enrolled s t) t (enrolled-Standing s t w h free room below) h
          (λ i. old s t w h free room below s.idle w.queues.idle_in (sym i))
          (is_task_after s t w h free room below s.current ∙ ground (arith, w.current_in)))
