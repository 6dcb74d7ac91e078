-- ===== src/Sched/Tests.antt =====
-- The scheduling policy on concrete tasks, and the theorems there.
use utamo_os.Common.{
  ℕ, ◌+◌, ◌≡◌, refl, true, false, Option, none, some, [], ◌∷◌, ◌++◌, arith, IfSome,
}
use mathlib.Core.Path.{subst}
use utamo_os.Sched.State.{Sched, zeroed, increment, first_slot, task_slot, blocked, zombie}
use utamo_os.Sched.Validate.{
  check_idle, check_state, check_task, is_new, tally, scan, check_ready, check_sleepers,
  sched_core_validate,
}
use utamo_os.Sched.Run.{
  started, sched_core_init, enrolled, ready_push, sched_core_add, sched_core_select, requeue,
  take_next, dispatch, sched_core_tick,
}
use utamo_os.Sched.Wait.{current_can_wait, go_to_sleep, sched_core_sleep_current}
use utamo_os.Sched.Valid.{IsValid, wake_of}
use utamo_os.Sched.Start.{sched_core_init-IsValid}
use utamo_os.Sched.Enroll.{sched_core_add-IsValid}
use utamo_os.Sched.Fifo.{Selects, sched_core_select-Selects}
use utamo_os.Sched.Time.{due, later}
use utamo_os.Sched.Tick.{Ticks, sched_core_tick-Ticks}
use utamo_os.Sched.Sleep.{sched_core_sleep_current-IsValid}
use utamo_os.Sched.Reach.{start, next, add, sched_core_validate-Reach}
use utamo_os.Sched.Fair.{yields, yields_turn}
use utamo_os.Sched.Snapshot.{Snapshot, sched_core_snapshot}
use utamo_os.Sched.Report.{tasks_in, sched_core_snapshot_lem}

abbrev unused : Sched
unused = record {
  self = 1;
  store = λ a. zeroed;
  tasks = [];
  current = 0;
  idle = 0;
  ready_head = 0;
  ready_tail = 0;
  sleep_head = 0;
  now = 0;
  next_id = 0;
  ticks = 0;
  switches = 0;
  task_count = 0;
  quantum_ticks = 0;
  reschedule = false;
  initialized = false;
}

-- Idle task 10, bootstrap task 20, quantum 5, time 100.
abbrev begun : Sched
begun = started unused 10 20 5 100

begun-IsValid : IsValid begun [] []
unfolding sched_core_init
begun-IsValid = sched_core_init-IsValid unused 10 20 5 100 (omega arith)

begun-accepted : sched_core_validate begun ≡ true
unfolding sched_core_validate check_idle check_state check_task is_new tally scan check_ready
    check_sleepers task_slot first_slot
begun-accepted = refl

-- Task 30 is ready.
abbrev two_tasks : Sched
two_tasks = ready_push (enrolled begun 30) 30

two_tasks-added : sched_core_add begun 30 ≡ some two_tasks
unfolding sched_core_add sched_core_validate check_idle check_state check_task is_new tally scan
    check_ready check_sleepers task_slot first_slot
two_tasks-added = refl

two_tasks-IsValid : IsValid two_tasks (30 ∷ []) []
two_tasks-IsValid =
    subst (IfSome (λ s. IsValid s (30 ∷ []) [])) two_tasks-added
      (sched_core_add-IsValid begun 30 begun-IsValid)

-- Bootstrap sleeps until 110.
abbrev dozing : Sched
dozing = go_to_sleep begun 110

dozing-slept : sched_core_sleep_current begun 10 ≡ some dozing
unfolding sched_core_validate check_idle check_state check_task is_new tally scan check_ready
    check_sleepers task_slot first_slot sched_core_sleep_current current_can_wait
dozing-slept = refl

dozing-IsValid : IsValid dozing [] (20 ∷ [])
dozing-IsValid =
    subst (IfSome (λ s. IsValid s [] (20 ∷ []))) dozing-slept
      (sched_core_sleep_current-IsValid begun 10 begun-IsValid)

abbrev yielded : Option (ℕ × Sched)
yielded = sched_core_select two_tasks true

current_of : Option (ℕ × Sched) → ℕ
current_of none = 0
current_of (some r) = r.0

yields_to_30 : current_of yielded ≡ 30
unfolding sched_core_validate check_idle check_state check_task is_new tally scan check_ready
    check_sleepers task_slot first_slot current_of sched_core_select requeue take_next dispatch
    ready_push increment
yields_to_30 = refl

sched_core_validate-Reach_example : sched_core_validate two_tasks ≡ true
unfolding sched_core_validate check_idle check_state check_task is_new tally scan check_ready
    check_sleepers task_slot first_slot sched_core_init sched_core_add
sched_core_validate-Reach_example =
    sched_core_validate-Reach two_tasks
      (next (start unused 10 20 5 100 (omega arith) refl) (add 30 two_tasks-added))

sched_core_select-Selects_example :
    (r : ℕ × Sched) × (sched_core_select two_tasks true ≡ some r)
    × Selects two_tasks (30 ∷ []) [] true r
sched_core_select-Selects_example = sched_core_select-Selects two_tasks true two_tasks-IsValid

sched_core_tick-Ticks_example : Ticks dozing [] (20 ∷ []) 110 (sched_core_tick dozing 110)
sched_core_tick-Ticks_example = sched_core_tick-Ticks dozing 110 dozing-IsValid

sched_core_sleep_current-IsValid_example :
    IfSome
      (λ s'. IsValid s' (30 ∷ []) (
        due (wake_of two_tasks) (two_tasks.now + 7) []
        ++ two_tasks.current ∷ later (wake_of two_tasks) (two_tasks.now + 7) []))
      (sched_core_sleep_current two_tasks 7)
sched_core_sleep_current-IsValid_example =
    sched_core_sleep_current-IsValid two_tasks 7 two_tasks-IsValid

yields_turn_example : (yields 1 two_tasks).current ≡ 30
unfolding sched_core_validate check_idle check_state check_task is_new tally scan check_ready
    check_sleepers task_slot first_slot sched_core_init sched_core_add ready_push
yields_turn_example = yields_turn [] two_tasks 30 [] two_tasks-IsValid refl

sched_core_snapshot_lem_example :
    (r : Snapshot) × (sched_core_snapshot dozing ≡ some r)
    × (r.ready_count ≡ 0)
    × (r.sleeping_count ≡ 1)
    × (r.blocked_count ≡ tasks_in dozing blocked dozing.tasks)
    × (r.zombie_count ≡ tasks_in dozing zombie dozing.tasks)
sched_core_snapshot_lem_example = sched_core_snapshot_lem dozing dozing-IsValid
