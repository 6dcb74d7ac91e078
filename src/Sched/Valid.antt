-- ===== src/Sched/Valid.antt =====
-- The invariant of kernel/core/sched_core.c, with the tasks in the order of its two queues.
use utamo_os.Common.{
  ℕ, suc, ◌≤◌, ◌<◌, ◌≡◌, ◌≢◌, Bool, true, false, not, ◌&&◌, ◌||◌, List, [], ◌∷◌, ltb, leb, ◌==◌,
  if◌then◌else◌, length, arith, u64_max,
}
use utamo_os.Sched.State.{Sched, max_tasks, running, ready, sleeping}
use utamo_os.Sched.Validate.{check_task}
use utamo_os.Sched.Links.{has, Distinct, Linked, last_or}

-- Every task is in one slot only.
abbrev pub Once : List ℕ → Type 0
Once [] = Unit
Once (x ∷ xs) = ((x == 0 || not (has xs x)) ≡ true) × Once xs

abbrev pub count_tasks : List ℕ → ℕ
count_tasks [] = 0
count_tasks (x ∷ xs) = if x == 0 then count_tasks xs else suc (count_tasks xs)

abbrev pub is_task : Sched → ℕ → Bool
is_task s a = not (a == 0) && has s.tasks a

abbrev pub next_of : Sched → ℕ → ℕ
next_of s a = (s.store a).next

abbrev pub wake_of : Sched → ℕ → ℕ
wake_of s a = (s.store a).wake_tick

-- The deadlines do not fall along the list.
abbrev pub Ordered : (ℕ → ℕ) → ℕ → List ℕ → Type 0
Ordered wake low [] = Unit
Ordered wake low (x ∷ xs) = (low ≤ wake x) × Ordered wake (wake x) xs

abbrev pub in_ready : Sched → ℕ → ℕ → Bool
in_ready s out a = is_task s a && not (a == s.idle) && (s.store a).state == ready && not (a == out)

abbrev pub in_sleep : Sched → ℕ → ℕ → Bool
in_sleep s out a = is_task s a && (s.store a).state == sleeping && not (a == out)

-- What is kept of a task that is in no queue, between two of them
abbrev pub check_floating : Sched → ℕ → Bool
check_floating s a =
    let task = s.store a in
    is_task s a
    && task.owner == s.self
    && ltb task.id s.next_id
    && leb task.quantum_left s.quantum_ticks
    && (a == s.current || task.preempt_depth == 0)
    && (if a == s.idle then task.id == 0 else not (task.id == 0))

-- The tasks and the queues are in order, with the ready tasks and the sleepers in the order of
-- their queues, but for the task `out`, which is in no queue; 0 is no task.
pub record Standing (s : Sched) (out : ℕ) (ready_tasks sleepers : List ℕ) : Type 0 where
  pub is_initialized : s.initialized ≡ true
  pub self_nonzero : s.self ≢ 0
  pub has_quantum : 0 < s.quantum_ticks
  pub size : length s.tasks ≡ max_tasks
  pub counted : count_tasks s.tasks ≡ s.task_count
  pub once : Once s.tasks
  pub next_id_from : 2 ≤ s.next_id
  pub next_id_to : s.next_id ≤ u64_max
  pub idle_in : is_task s s.idle ≡ true
  pub checked : (a : ℕ) → is_task s a ≡ true → a ≢ out → check_task s a (s.store a) ≡ true
  pub floating : out ≢ 0 → check_floating s out ≡ true
  pub ids :
      (a b : ℕ) → is_task s a ≡ true → is_task s b ≡ true → (s.store a).id ≡ (s.store b).id → a ≡ b
  pub ready_links : Linked (next_of s) s.ready_head ready_tasks 0
  pub ready_last : last_or 0 ready_tasks ≡ s.ready_tail
  pub ready_distinct : Distinct ready_tasks
  pub ready_are : (a : ℕ) → has ready_tasks a ≡ in_ready s out a
  pub sleep_links : Linked (next_of s) s.sleep_head sleepers 0
  pub sleep_distinct : Distinct sleepers
  pub sleep_are : (a : ℕ) → has sleepers a ≡ in_sleep s out a
  pub sleep_ordered : Ordered (wake_of s) 0 sleepers

-- A current task that does not run has asked for another.
abbrev pub Asks : Sched → Type 0
Asks s = ((s.store s.current).state == running) ≡ false → s.reschedule ≡ true

-- The state is valid, with the ready tasks and the sleepers in the order of their queues.
pub record IsValid (s : Sched) (ready_tasks sleepers : List ℕ) : Type 0 where
  pub queues : Standing s 0 ready_tasks sleepers
  pub current_in : is_task s s.current ≡ true
  pub asks : Asks s

-- Deadlines that agree on the list are ordered too.
pub Ordered-frame :
    (wake wake' : ℕ → ℕ) (low : ℕ) (xs : List ℕ)
    → ((a : ℕ) → has xs a ≡ true → wake' a ≡ wake a)
    → Ordered wake low xs
    → Ordered wake' low xs
unfolding has
Ordered-frame wake wake' low [] h o = tt
Ordered-frame wake wake' low (x ∷ xs) h (here, rest) =
    rw (h x (ground arith))
      (here, Ordered-frame wake wake' (wake x) xs (λ a e. h a (ground (arith, e))) rest)
