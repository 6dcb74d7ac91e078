-- ===== src/Sched/State.antt =====
-- kernel/include/utamo/sched_core.h and the helpers of kernel/core/sched_core.c: the core with its
-- tasks. A pointer to a task is its address, 0 for NULL. The tasks that callers own are `store`, a
-- function from addresses, and `self` is the address of the core, for the field `owner`.
use utamo_os.Common.{ℕ, suc, ◌+◌, ◌/◌, ◌%◌, Bool, List, [], ◌∷◌, ◌==◌, if◌then◌else◌, u64_max}

-- UTAMO_SCHED_MAX_TASKS
abbrev pub max_tasks : ℕ
max_tasks = 64

-- enum sched_state
abbrev pub running : ℕ
running = 0

abbrev pub ready : ℕ
ready = 1

abbrev pub blocked : ℕ
blocked = 2

abbrev pub sleeping : ℕ
sleeping = 3

abbrev pub zombie : ℕ
zombie = 4

pub record Task : Type 0 where
  pub owner : ℕ
  pub id : ℕ
  pub state : ℕ
  pub next : ℕ
  pub wake_tick : ℕ
  pub run_ticks : ℕ
  pub quantum_left : ℕ
  pub preempt_depth : ℕ

pub record Sched : Type 0 where
  pub self : ℕ
  pub store : ℕ → Task
  pub tasks : List ℕ
  pub current : ℕ
  pub idle : ℕ
  pub ready_head : ℕ
  pub ready_tail : ℕ
  pub sleep_head : ℕ
  pub now : ℕ
  pub next_id : ℕ
  pub ticks : ℕ
  pub switches : ℕ
  pub task_count : ℕ
  pub quantum_ticks : ℕ
  pub reschedule : Bool
  pub initialized : Bool

-- `(struct sched_task){0}`
abbrev pub zeroed : Task
zeroed = record {
  owner = 0;
  id = 0;
  state = 0;
  next = 0;
  wake_tick = 0;
  run_ticks = 0;
  quantum_left = 0;
  preempt_depth = 0;
}

-- A write through a pointer.
abbrev pub update : (ℕ → Task) → ℕ → Task → ℕ → Task
update store a task b = if b == a then task else store b

abbrev pub write : Sched → ℕ → Task → Sched
write s a task = record s { store = update s.store a task }

unfoldable pub increment : ℕ → ℕ
increment value = if value == u64_max then value else value + 1

-- The index of the first slot that holds the pointer, else the number of slots.
unfoldable pub first_slot : List ℕ → ℕ → ℕ
first_slot [] task = 0
first_slot (t ∷ ts) task = let later = first_slot ts task in if t == task then 0 else suc later

unfoldable pub task_slot : Sched → ℕ → ℕ
unfolding first_slot
task_slot s task = if task == 0 then max_tasks else first_slot s.tasks task

unfoldable pub sched_ms_to_ticks : ℕ → ℕ
sched_ms_to_ticks milliseconds = milliseconds / 10 + (if milliseconds % 10 == 0 then 0 else 1)
