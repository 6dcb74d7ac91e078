-- ===== src/Sched/Report.antt =====
-- sched_core_snapshot of kernel/core/sched_core.c counts the queues.
use utamo_os.Common.{
  ℕ, ◌+◌, ◌≤◌, ◌≡◌, ◌≢◌, ap, ◌∙◌, true, not, ◌&&◌, ◌||◌, some, List, [], ◌∷◌, ◌==◌, length, arith,
  Bool-cases, inl, inr,
}
use utamo_os.Sched.State.{Sched, ready, sleeping, blocked, zombie}
use utamo_os.Sched.Validate.{check_task, one_if}
use utamo_os.Sched.Links.{has}
use utamo_os.Sched.Valid.{IsValid}
use utamo_os.Sched.Accept.{sched_core_validate-IsValid}
use utamo_os.Sched.Accept.{count_if, count_congr, count_ready, count_sleep}
use utamo_os.Sched.Snapshot.{
  Snapshot, count_state, count_states, blank_snapshot, sched_core_snapshot,
}

-- The tasks in a state, without the idle one.
abbrev pub tasks_in : Sched → ℕ → List ℕ → ℕ
tasks_in s state xs = count_if (λ a. (s.store a).state == state && not (a == s.idle)) xs

abbrev counted : Sched → List ℕ → Snapshot → Snapshot
counted s xs c = record c {
  ready_count = c.ready_count + tasks_in s ready xs;
  sleeping_count = c.sleeping_count + tasks_in s sleeping xs;
  blocked_count = c.blocked_count + tasks_in s blocked xs;
  zombie_count = c.zombie_count + tasks_in s zombie xs;
}

known_state : (s : Sched) (a : ℕ) → check_task s a (s.store a) ≡ true → (s.store a).state ≤ zombie
unfolding check_task
known_state s a e = ground (arith, e)

-- A task in a state is counted.
abbrev with_one : ℕ → Snapshot → Snapshot
with_one state c = record c {
  ready_count = c.ready_count + one_if (state == ready);
  sleeping_count = c.sleeping_count + one_if (state == sleeping);
  blocked_count = c.blocked_count + one_if (state == blocked);
  zombie_count = c.zombie_count + one_if (state == zombie);
}

count_state_lem :
    (state : ℕ) (c : Snapshot) → state ≤ zombie → count_state state c ≡ some (with_one state c)
unfolding count_state
count_state_lem state c h = ground arith

idle_awake :
    (s : Sched) (a : ℕ)
    → check_task s a (s.store a) ≡ true
    → ((s.store a).state == sleeping && not (a == s.idle)) ≡ ((s.store a).state == sleeping)
unfolding check_task
idle_awake s a e = ground (arith, e)

count_states_lem :
    (s : Sched) (xs : List ℕ) (c : Snapshot)
    → ((a : ℕ) → has xs a ≡ true → a ≢ 0 → (s.store a).state ≤ zombie)
    → count_states s xs c ≡ some (counted s xs c)
unfolding count_states has
count_states_lem s [] c h = ap some (ground arith)
count_states_lem s (x ∷ xs) c h =
    let later : (a : ℕ) → has xs a ≡ true → a ≢ 0 → (s.store a).state ≤ zombie =
      λ a e. h a (ground (arith, e)) in
    elim (Bool-cases (x == 0 || x == s.idle)) [
      | inl skip ↦
          rw (skip, count_states) (count_states_lem s xs c later ∙ ap some (ground (arith, skip)))
      | inr counts ↦
          let state = (s.store x).state in
          let one = count_state_lem state c (h x (ground arith) (λ z. ground (arith, counts, z))) in
          rw (counts, one, count_states)
            (count_states_lem s xs (with_one state c) later ∙ ap some (ground (arith, counts)))
    ]

-- On a valid state, sched_core_snapshot succeeds and reports the lengths of the ready queue and of
-- the sleepers, and how many blocked and dead tasks other than the idle one the registry
-- has.
pub sched_core_snapshot_lem :
    (s : Sched) {rs ss : List ℕ}
    → IsValid s rs ss
    → (r : Snapshot) × (sched_core_snapshot s ≡ some r)
      × (r.ready_count ≡ length rs)
      × (r.sleeping_count ≡ length ss)
      × (r.blocked_count ≡ tasks_in s blocked s.tasks)
      × (r.zombie_count ≡ tasks_in s zombie s.tasks)
unfolding sched_core_snapshot
sched_core_snapshot_lem s {rs} {ss} w =
    let v = w.queues in
    let accepted = sched_core_validate-IsValid s w in
    let run =
      count_states_lem s s.tasks (blank_snapshot s)
        (λ a e z. known_state s a (v.checked a (ground (arith, e, z)) z)) in
    let asleep =
      count_congr (λ a. (s.store a).state == sleeping && not (a == s.idle))
        (λ a. (s.store a).state == sleeping) s.tasks
        (λ a e z. idle_awake s a (v.checked a (ground (arith, e, z)) z)) in
    (
      counted s s.tasks (blank_snapshot s),
      rw accepted run,
      omega (arith, count_ready s v w.current_in),
      omega (arith, asleep, count_sleep s v w.current_in),
      omega arith,
      omega arith,
    )
