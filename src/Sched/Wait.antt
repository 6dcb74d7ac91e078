-- ===== src/Sched/Wait.antt =====
-- kernel/core/sched_core.c: tasks that wait, leave or may not be preempted, and what is reported of
-- them. A link, a pointer to a pointer in the source, is the task whose field `next` it is, or 0
-- for the head of the sleepers.
use utamo_os.Common.{
  ℕ, zero, suc, ◌+◌, ◌-◌, Bool, true, not, ◌&&◌, ◌||◌, Option, none, some, ltb, leb, ◌==◌,
  if◌then◌else◌, u64_max, set,
}
use utamo_os.Sched.State.{
  Task, Sched, max_tasks, running, blocked, sleeping, zombie, zeroed, update, write, task_slot,
}
use utamo_os.Sched.Validate.{sched_core_validate}
use utamo_os.Sched.Run.{ready_push}

abbrev pub read_link : Sched → ℕ → ℕ
read_link s link = if link == 0 then s.sleep_head else (s.store link).next

abbrev pub write_link : Sched → ℕ → ℕ → Sched
write_link s link task =
    let linked = update s.store link (record (s.store link) { next = task }) in
    record s {
      sleep_head = if link == 0 then task else s.sleep_head;
      store = if link == 0 then s.store else linked;
    }

unfoldable pub current_can_wait : Sched → Bool
current_can_wait s =
    sched_core_validate s
    && not (s.current == s.idle)
    && (s.store s.current).state == running
    && (s.store s.current).preempt_depth == 0

-- The link behind the sleepers that wake no later.
unfoldable pub find_later : ℕ → Sched → ℕ → ℕ → ℕ
find_later zero s deadline link = link
find_later (suc fuel) s deadline link =
    let task = read_link s link in
    let further = find_later fuel s deadline task in
    if not (task == 0) && leb (s.store task).wake_tick deadline then further else link

-- The task in the place of what follows the link.
abbrev pub insert_at : Sched → ℕ → ℕ → Sched
insert_at s link task =
    write_link (write s task (record (s.store task) { next = read_link s link })) link task

unfoldable pub go_to_sleep : Sched → ℕ → Sched
go_to_sleep s deadline =
    let task : Task = record (s.store s.current) { wake_tick = deadline; state = sleeping } in
    let marked = write s s.current task in
    let inserted = insert_at marked (find_later max_tasks marked deadline 0) s.current in
    record inserted { reschedule = true }

unfoldable pub sched_core_sleep_current : Sched → ℕ → Option Sched
sched_core_sleep_current s delay =
    if not (current_can_wait s) || delay == 0 || ltb (u64_max - s.now) delay
    then none
    else some (go_to_sleep s (s.now + delay))

-- The current task in a state in which it does not run.
abbrev pub stop_current : Sched → ℕ → Sched
stop_current s state = record (write s s.current (record (s.store s.current) { state = state })) {
  reschedule = true;
}

unfoldable pub sched_core_block_current : Sched → Option Sched
sched_core_block_current s = if current_can_wait s then some (stop_current s blocked) else none

-- The link that points to the task.
unfoldable pub find_task : ℕ → Sched → ℕ → ℕ → ℕ
find_task zero s task link = link
find_task (suc fuel) s task link =
    let further = find_task fuel s task (read_link s link) in
    if read_link s link == task then link else further

unfoldable pub unlink : Sched → ℕ → Sched
unlink s task = write_link s (find_task max_tasks s task 0) (s.store task).next

unfoldable pub sched_core_wake : Sched → ℕ → Option Sched
sched_core_wake s task =
    let state = (s.store task).state in
    if not (sched_core_validate s)
      || task_slot s task == max_tasks
      || (not (state == blocked) && not (state == sleeping))
    then none
    else some (ready_push (if state == sleeping then unlink s task else s) task)

unfoldable pub sched_core_exit_current : Sched → Option Sched
sched_core_exit_current s = if current_can_wait s then some (stop_current s zombie) else none

unfoldable pub sched_core_remove_zombie : Sched → ℕ → Option Sched
sched_core_remove_zombie s task =
    if not (sched_core_validate s)
      || task_slot s task == max_tasks
      || task == s.current
      || task == s.idle
      || not ((s.store task).state == zombie)
    then none
    else some (record (write s task zeroed) {
      tasks = set s.tasks (task_slot s task) 0;
      task_count = s.task_count - 1;
    })

abbrev pub with_depth : Sched → ℕ → Sched
with_depth s depth = write s s.current (record (s.store s.current) { preempt_depth = depth })

unfoldable pub sched_core_preempt_disable : Sched → Option Sched
sched_core_preempt_disable s =
    let depth = (s.store s.current).preempt_depth in
    if not (sched_core_validate s)
      || not ((s.store s.current).state == running)
      || depth == 4294967295
    then none
    else some (with_depth s (depth + 1))

unfoldable pub sched_core_preempt_enable : Sched → Option Sched
sched_core_preempt_enable s =
    let depth = (s.store s.current).preempt_depth in
    if not (sched_core_validate s) || not ((s.store s.current).state == running) || depth == 0
    then none
    else some (with_depth s (depth - 1))

unfoldable pub sched_core_reschedule_pending : Sched → Bool
sched_core_reschedule_pending s =
    sched_core_validate s && s.reschedule && (s.store s.current).preempt_depth == 0
