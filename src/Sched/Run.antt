-- ===== src/Sched/Run.antt =====
-- kernel/core/sched_core.c: initialization, new tasks, the timer tick and the choice of a task.
-- `none` is a failed call, which changes nothing.
use utamo_os.Common.{
  ℕ, zero, suc, ◌+◌, ◌-◌, Bool, true, false, not, ◌&&◌, ◌||◌, Option, none, some, ltb, leb, ◌==◌,
  if◌then◌else◌, u64_max, set, replicate,
}
use utamo_os.Sched.State.{
  Task, Sched, max_tasks, running, ready, zeroed, update, write, increment, first_slot,
}
use utamo_os.Sched.Validate.{sched_core_validate}

-- The core after the assignment to `*core`, and the two tasks in it.
abbrev pub started : Sched → ℕ → ℕ → ℕ → ℕ → Sched
started s idle bootstrap quantum_ticks now = record {
  self = s.self;
  store =
      update
        (update s.store idle
          (record zeroed { owner = s.self; id = 0; state = ready; quantum_left = quantum_ticks }))
        bootstrap
        (record zeroed { owner = s.self; id = 1; state = running; quantum_left = quantum_ticks });
  tasks = set (set (replicate max_tasks 0) 0 idle) 1 bootstrap;
  current = bootstrap;
  idle = idle;
  ready_head = 0;
  ready_tail = 0;
  sleep_head = 0;
  now = now;
  next_id = 2;
  ticks = 0;
  switches = 0;
  task_count = 2;
  quantum_ticks = quantum_ticks;
  reschedule = false;
  initialized = true;
}

unfoldable pub sched_core_init : Sched → ℕ → ℕ → ℕ → ℕ → Option Sched
sched_core_init s idle bootstrap quantum_ticks now =
    if s.initialized
      || idle == 0
      || bootstrap == 0
      || idle == bootstrap
      || not ((s.store idle).owner == 0)
      || not ((s.store bootstrap).owner == 0)
      || quantum_ticks == 0
    then none
    else some (started s idle bootstrap quantum_ticks now)

-- The task at the end of the queue, by the link of the last one or by the head.
abbrev pub append_ready : Sched → ℕ → Sched
append_ready s task =
    let linked = update s.store s.ready_tail (record (s.store s.ready_tail) { next = task }) in
    record s {
      store = if s.ready_tail == 0 then s.store else linked;
      ready_head = if s.ready_tail == 0 then task else s.ready_head;
      ready_tail = task;
    }

-- `core->current == core->idle || core->current->state != UTAMO_SCHED_RUNNING`
abbrev pub no_work : Sched → Bool
no_work s = s.current == s.idle || not ((s.store s.current).state == running)

abbrev pub request : Sched → Bool → Sched
request s condition = record s { reschedule = condition || s.reschedule }

unfoldable pub ready_push : Sched → ℕ → Sched
ready_push s task =
    let marked = write s task (record (s.store task) { next = 0; state = ready; wake_tick = 0 }) in
    let appended = append_ready marked task in request appended (no_work appended)

-- The core with the new task in its slot, before `ready_push`.
abbrev pub enrolled : Sched → ℕ → Sched
enrolled s task =
    let fresh : Task = record zeroed {
      owner = s.self;
      id = s.next_id;
      state = ready;
      quantum_left = s.quantum_ticks;
    } in
    record (write s task fresh) {
      next_id = s.next_id + 1;
      tasks = set s.tasks (first_slot s.tasks 0) task;
      task_count = s.task_count + 1;
    }

unfoldable pub sched_core_add : Sched → ℕ → Option Sched
sched_core_add s task =
    if not (sched_core_validate s)
      || task == 0
      || not ((s.store task).owner == 0)
      || s.task_count == max_tasks
      || s.next_id == u64_max
    then none
    else some (ready_push (enrolled s task) task)

-- The time of a running task that is not the idle one, which asks for another when it is used up.
abbrev pub spend : Sched → Sched
spend s =
    let left = (s.store s.current).quantum_left - 1 in
    request (write s s.current (record (s.store s.current) { quantum_left = left })) (left == 0)

unfoldable pub charge : Sched → Sched
charge s =
    let task = s.store s.current in
    let counted = write s s.current (record task { run_ticks = increment task.run_ticks }) in
    if task.state == running then if s.current == s.idle then counted else spend counted else s

-- One round of the loop that wakes the sleepers.
unfoldable pub wake_first : Sched → Sched
wake_first s = ready_push (record s { sleep_head = (s.store s.sleep_head).next }) s.sleep_head

abbrev pub is_due : Sched → ℕ → Bool
is_due s now = not (s.sleep_head == 0) && leb (s.store s.sleep_head).wake_tick now

unfoldable pub wake_due : ℕ → Sched → ℕ → Sched
wake_due zero s now = s
wake_due (suc fuel) s now =
    let rest = wake_due fuel (wake_first s) now in if is_due s now then rest else s

-- There are at most as many sleepers as slots.
unfoldable pub sched_core_tick : Sched → ℕ → Option Sched
sched_core_tick s now =
    if not (sched_core_validate s) || ltb now s.now
    then none
    else some (wake_due max_tasks (charge (record s { now = now; ticks = increment s.ticks })) now)

-- The running task goes back to the queue, the idle one only out of its state.
unfoldable pub requeue : Sched → Sched
requeue s =
    if (s.store s.current).state == running
    then if s.current == s.idle
      then write s s.current (record (s.store s.current) { state = ready })
      else ready_push s s.current
    else s

-- The first task of the queue is taken from it, else the idle one.
unfoldable pub take_next : Sched → ℕ × Sched
take_next s =
    let head = (s.store s.ready_head).next in
    if s.ready_head == 0 then (s.idle, s) else (
      s.ready_head,
      record s { ready_head = head; ready_tail = if head == 0 then 0 else s.ready_tail },
    )

-- The choice becomes the running task, with a fresh quantum.
unfoldable pub dispatch : ℕ → Sched → ℕ → Sched
dispatch old s next =
    let task : Task = record (s.store next) {
      next = 0;
      state = running;
      wake_tick = 0;
      quantum_left = s.quantum_ticks;
    } in
    record (write s next task) {
      current = next;
      reschedule = false;
      switches = if next == old then s.switches else increment s.switches;
    }

abbrev pub keeps_current : Sched → Bool → Bool
keeps_current s force =
    not ((s.store s.current).preempt_depth == 0)
    || (not force && not s.reschedule && (s.store s.current).state == running)

-- The pointer that is returned is that of the current task afterwards.
unfoldable pub sched_core_select : Sched → Bool → Option (ℕ × Sched)
sched_core_select s force =
    if not (sched_core_validate s)
    then none
    else if keeps_current s force
    then some (s.current, s)
    else (let (next, rest) = take_next (requeue s) in some (next, dispatch s.current rest next))
