-- ===== src/Sched/Snapshot.antt =====
-- kernel/core/sched_core.c: what is reported of the policy and of a task.
use utamo_os.Common.{
  ℕ, ◌+◌, Bool, not, ◌||◌, Option, none, some, List, [], ◌∷◌, ◌==◌, if◌then◌else◌,
}
use utamo_os.Sched.State.{Sched, max_tasks, running, ready, blocked, sleeping, zombie, task_slot}
use utamo_os.Sched.Validate.{sched_core_validate}

-- `ready_count` has the members of the queue, without the idle task.
pub record Snapshot : Type 0 where
  pub now : ℕ
  pub ticks : ℕ
  pub switches : ℕ
  pub current_id : ℕ
  pub next_id : ℕ
  pub task_count : ℕ
  pub ready_count : ℕ
  pub sleeping_count : ℕ
  pub blocked_count : ℕ
  pub zombie_count : ℕ
  pub quantum_ticks : ℕ
  pub reschedule_pending : Bool

-- The `switch` on the state of a task; `none` is its default.
unfoldable pub count_state : ℕ → Snapshot → Option Snapshot
count_state state c =
    if state == ready
    then some (record c { ready_count = c.ready_count + 1 })
    else if state == sleeping
    then some (record c { sleeping_count = c.sleeping_count + 1 })
    else if state == blocked
    then some (record c { blocked_count = c.blocked_count + 1 })
    else if state == zombie
    then some (record c { zombie_count = c.zombie_count + 1 })
    else if state == running
    then some c
    else none

unfoldable pub count_states : Sched → List ℕ → Snapshot → Option Snapshot
count_states s [] c = some c
count_states s (a ∷ tasks) c =
    let counted = if a == 0 || a == s.idle then some c else count_state (s.store a).state c in
    elim counted [ none ↦ none | some c' ↦ count_states s tasks c' ]

abbrev pub blank_snapshot : Sched → Snapshot
blank_snapshot s = record {
  now = s.now;
  ticks = s.ticks;
  switches = s.switches;
  current_id = (s.store s.current).id;
  next_id = s.next_id;
  task_count = s.task_count;
  ready_count = 0;
  sleeping_count = 0;
  blocked_count = 0;
  zombie_count = 0;
  quantum_ticks = s.quantum_ticks;
  reschedule_pending = s.reschedule;
}

unfoldable pub sched_core_snapshot : Sched → Option Snapshot
sched_core_snapshot s =
    if not (sched_core_validate s) then none else count_states s s.tasks (blank_snapshot s)

pub record TaskSnapshot : Type 0 where
  pub id : ℕ
  pub run_ticks : ℕ
  pub wake_tick : ℕ
  pub state : ℕ
  pub quantum_left : ℕ
  pub preempt_depth : ℕ
  pub current : Bool
  pub idle : Bool

unfoldable pub sched_core_task_snapshot : Sched → ℕ → Option TaskSnapshot
sched_core_task_snapshot s a =
    let task = s.store a in
    if not (sched_core_validate s) || task_slot s a == max_tasks
    then none
    else some (record {
      id = task.id;
      run_ticks = task.run_ticks;
      wake_tick = task.wake_tick;
      state = task.state;
      quantum_left = task.quantum_left;
      preempt_depth = task.preempt_depth;
      current = a == s.current;
      idle = a == s.idle;
    })
