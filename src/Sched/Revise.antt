-- ===== src/Sched/Revise.antt =====
-- A write to a task that is in no queue, neither before nor afterwards.
use utamo_os.Common.{ℕ, ◌≡◌, ◌≢◌, sym, ap, ◌∙◌, Bool, true, false, not, ◌&&◌, List, ◌==◌, arith}
use native.Mathlib.Decide.{ℕ_discrete}
use utamo_os.Sched.State.{Task, Sched, ready, sleeping, update}
use utamo_os.Sched.Validate.{check_task}
use utamo_os.Sched.Links.{has, Linked-frame}
use utamo_os.Sched.Valid.{
  is_task, next_of, wake_of, Ordered-frame, in_ready, in_sleep, check_floating, Standing,
}

-- The core after the write, with any current task, request and counters.
abbrev pub revised : Sched → ℕ → Task → ℕ → Bool → ℕ → ℕ → Sched
revised s t task current reschedule ticks switches = record s {
  store = update s.store t task;
  current = current;
  reschedule = reschedule;
  ticks = ticks;
  switches = switches;
}

module _ (s : Sched) (t : ℕ) (task : Task) (current : ℕ) (reschedule : Bool)
    (ticks switches out out' : ℕ) {rs ss : List ℕ} (v : Standing s out rs ss)
    (same_id : task.id ≡ (s.store t).id) (not_ready : has rs t ≡ false)
    (not_asleep : has ss t ≡ false)
    (no_ready : (not (t == s.idle) && task.state == ready && not (t == out')) ≡ false)
    (no_sleep : (task.state == sleeping && not (t == out')) ≡ false)
    (others_out : (a : ℕ) → is_task s a ≡ true → a ≢ t → (a == out) ≡ (a == out')) where
  abbrev s' : Sched
  s' = revised s t task current reschedule ticks switches

  update_self : s'.store t ≡ task
  update_self = ground arith

  update_other : (a : ℕ) → a ≢ t → s'.store a ≡ s.store a
  update_other a h = ground (arith, h)

  id_kept : (a : ℕ) → (s'.store a).id ≡ (s.store a).id
  id_kept a = elim (ℕ_discrete a t) [
    | yes here ↦ rw here (ground (arith, same_id))
    | no other ↦ ground (arith, other)
  ]

  next_kept : (a : ℕ) → a ≢ t → next_of s' a ≡ next_of s a
  next_kept a h = ground (arith, h)

  wake_kept : (a : ℕ) → a ≢ t → wake_of s' a ≡ wake_of s a
  wake_kept a h = ground (arith, h)

  apart : (xs : List ℕ) (a : ℕ) → has xs t ≡ false → has xs a ≡ true → a ≢ t
  apart xs a h e same = cc (ap (has xs) same)

  ready_kept : (a : ℕ) → in_ready s out a ≡ in_ready s' out' a
  ready_kept a = elim (ℕ_discrete a t) [
    | yes here ↦ rw here (sym (v.ready_are t) ∙ not_ready ∙ ground (arith, no_ready))
    | no other ↦ ground (arith, other, others_out a)
  ]

  sleep_kept : (a : ℕ) → in_sleep s out a ≡ in_sleep s' out' a
  sleep_kept a = elim (ℕ_discrete a t) [
    | yes here ↦ rw here (sym (v.sleep_are t) ∙ not_asleep ∙ ground (arith, no_sleep))
    | no other ↦ ground (arith, other, others_out a)
  ]

  checked_kept :
      (t ≢ out' → is_task s t ≡ true → check_task s' t task ≡ true)
      → ((a : ℕ) → is_task s a ≡ true → a ≢ t → a ≢ out' → check_task s' a (s.store a) ≡ true)
      → (a : ℕ) → is_task s a ≡ true
      → a ≢ out'
      → check_task s' a (s'.store a) ≡ true
  checked_kept at_t at_others a e h = elim (ℕ_discrete a t) [
    | yes here ↦ rw (here, update_self) (at_t (λ z. h (here ∙ z)) (ap (is_task s) (sym here) ∙ e))
    | no other ↦ rw (update_other a other) (at_others a e other h)
  ]

  pub Standing-revised :
      (t ≢ out' → is_task s t ≡ true → check_task s' t task ≡ true)
      → ((a : ℕ) → is_task s a ≡ true → a ≢ t → a ≢ out' → check_task s' a (s.store a) ≡ true)
      → (out' ≢ 0 → check_floating s' out' ≡ true)
      → Standing s' out' rs ss
  Standing-revised at_t at_others floating' = record {
    is_initialized = v.is_initialized;
    self_nonzero = v.self_nonzero;
    has_quantum = v.has_quantum;
    size = v.size;
    counted = v.counted;
    once = v.once;
    next_id_from = v.next_id_from;
    next_id_to = v.next_id_to;
    idle_in = v.idle_in;
    checked = λ a e h. checked_kept at_t at_others a e h;
    floating = floating';
    ids = λ a b ea eb e. v.ids a b ea eb (sym (id_kept a) ∙ e ∙ id_kept b);
    ready_links =
        Linked-frame (next_of s) (next_of s') s.ready_head rs 0
          (λ a e. next_kept a (apart rs a not_ready e)) v.ready_links;
    ready_last = v.ready_last;
    ready_distinct = v.ready_distinct;
    ready_are = λ a. v.ready_are a ∙ ready_kept a;
    sleep_links =
        Linked-frame (next_of s) (next_of s') s.sleep_head ss 0
          (λ a e. next_kept a (apart ss a not_asleep e)) v.sleep_links;
    sleep_distinct = v.sleep_distinct;
    sleep_are = λ a. v.sleep_are a ∙ sleep_kept a;
    sleep_ordered =
        Ordered-frame (wake_of s) (wake_of s') 0 ss (λ a e. wake_kept a (apart ss a not_asleep e))
          v.sleep_ordered;
  }
