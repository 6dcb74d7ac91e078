-- ===== src/Sched/Validate.antt =====
-- kernel/core/sched_core.c, sched_core_validate. The invariant of the policy as a test.
use utamo_os.Common.{
  ℕ, zero, suc, ◌+◌, Bool, true, false, not, ◌&&◌, ◌||◌, Option, none, some, List, [], ◌∷◌, ltb,
  leb, ◌==◌, if◌then◌else◌,
}
use utamo_os.Sched.State.{Task, Sched, max_tasks, running, ready, sleeping, zombie, task_slot}

-- `task` is `*a` in these. The tests of a task against the idle and the current one.
unfoldable pub check_idle : Sched → ℕ → Task → Bool
check_idle s a task =
    if a == s.idle
    then task.id == 0
      && task.next == 0
      && task.wake_tick == 0
      && task.state == (if a == s.current then running else ready)
    else not (task.id == 0)

-- The tests that its state asks for.
unfoldable pub check_state : Sched → ℕ → Task → Bool
check_state s a task =
    if task.state == running
    then a == s.current && task.next == 0 && task.wake_tick == 0
    else if task.state == ready
    then task.wake_tick == 0
    else if task.state == sleeping
    then ltb s.now task.wake_tick && task.preempt_depth == 0
    else task.next == 0 && task.wake_tick == 0 && task.preempt_depth == 0

unfoldable pub check_task : Sched → ℕ → Task → Bool
unfolding check_idle check_state
check_task s a task =
    task.owner == s.self
    && ltb task.id s.next_id
    && leb task.state zombie
    && leb task.quantum_left s.quantum_ticks
    && (a == s.current || task.preempt_depth == 0)
    && check_idle s a task
    && check_state s a task

-- No slot before holds the task or its id.
unfoldable pub is_new : Sched → ℕ → List ℕ → Bool
is_new s a [] = true
is_new s a (b ∷ before) =
    (b == 0 || not (b == a || (s.store b).id == (s.store a).id)) && is_new s a before

pub record Counts : Type 0 where
  pub count : ℕ
  pub ready_count : ℕ
  pub sleep_count : ℕ
  pub running_count : ℕ

abbrev pub one_if : Bool → ℕ
one_if true = 1
one_if false = 0

unfoldable pub tally : Sched → ℕ → Counts → Counts
tally s a c = record {
  count = c.count + 1;
  ready_count = c.ready_count + one_if ((s.store a).state == ready && not (a == s.idle));
  sleep_count = c.sleep_count + one_if ((s.store a).state == sleeping);
  running_count = c.running_count + one_if ((s.store a).state == running);
}

-- The loop over the slots, with those before in reverse; `none` is `return false`.
unfoldable pub scan : Sched → List ℕ → List ℕ → Counts → Option Counts
unfolding check_task is_new tally
scan s before [] c = some c
scan s before (a ∷ tasks) c =
    let counted =
      if a == 0
      then some c
      else if check_task s a (s.store a) && is_new s a before
      then some (tally s a c)
      else none in
    elim counted [ none ↦ none | some c' ↦ scan s (a ∷ before) tasks c' ]

-- The walk along the ready queue.
unfoldable pub check_ready : Sched → ℕ → ℕ → ℕ → Bool
unfolding task_slot
check_ready s zero task last = task == 0 && last == s.ready_tail
check_ready s (suc n) task last =
    not (task_slot s task == max_tasks)
    && not (task == s.idle)
    && (s.store task).state == ready
    && check_ready s n (s.store task).next task

-- The walk along the sleepers.
unfoldable pub check_sleepers : Sched → ℕ → ℕ → ℕ → Bool
unfolding task_slot
check_sleepers s zero task previous_deadline = task == 0
check_sleepers s (suc n) task previous_deadline =
    not (task_slot s task == max_tasks)
    && (s.store task).state == sleeping
    && leb previous_deadline (s.store task).wake_tick
    && check_sleepers s n (s.store task).next (s.store task).wake_tick

abbrev pub check_counts : Sched → Counts → Bool
check_counts s c =
    c.count == s.task_count
    && c.running_count == one_if ((s.store s.current).state == running)
    && (not (c.running_count == 0) || s.reschedule)

unfoldable pub sched_core_validate : Sched → Bool
unfolding task_slot scan check_ready check_sleepers
sched_core_validate s =
    let scanned =
      scan s [] s.tasks
        (record { count = 0; ready_count = 0; sleep_count = 0; running_count = 0 }) in
    s.initialized
    && not (s.quantum_ticks == 0)
    && not (s.task_count == 0)
    && leb s.task_count max_tasks
    && leb 2 s.next_id
    && not (task_slot s s.idle == max_tasks)
    && not (task_slot s s.current == max_tasks)
    && elim scanned [
      | none ↦ false
      | some c ↦
          check_counts s c
          && check_ready s c.ready_count s.ready_head 0
          && check_sleepers s c.sleep_count s.sleep_head 0
    ]
