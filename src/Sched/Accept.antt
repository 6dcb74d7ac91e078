-- ===== src/Sched/Accept.antt =====
-- sched_core_validate of kernel/core/sched_core.c accepts every valid state.
use utamo_os.Common.{
  ℕ, ◌+◌, ◌≤◌, ◌<◌, ◌≡◌, ◌≢◌, refl, sym, ap, ◌∙◌, Bool, true, false, not, ◌&&◌, ◌||◌, some, List,
  [], ◌∷◌, ◌==◌, if◌then◌else◌, length, arith, Bool-cases, inl, inr,
}
use native.Mathlib.Decide.{ℕ_discrete}
use utamo_os.Sched.State.{Sched, max_tasks, running, ready, sleeping, task_slot, first_slot}
use utamo_os.Sched.Validate.{
  check_task, is_new, tally, Counts, one_if, scan, check_ready, check_sleepers, sched_core_validate,
}
use utamo_os.Sched.Links.{has, Distinct, Linked, last_or}
use utamo_os.Sched.Valid.{
  Once, count_tasks, is_task, next_of, wake_of, Ordered, in_ready, in_sleep, Standing, IsValid,
}

first_slot-has : (xs : List ℕ) (a : ℕ) → has xs a ≡ true → first_slot xs a < length xs
unfolding has first_slot
first_slot-has [] a h = absurd (ground (arith, h))
first_slot-has (x ∷ xs) a h = ground (arith, first_slot-has xs a)

pub task_slot-is_task :
    (s : Sched) (a : ℕ)
    → length s.tasks ≡ max_tasks
    → is_task s a ≡ true
    → (task_slot s a == max_tasks) ≡ false
unfolding task_slot
task_slot-is_task s a size h = ground (arith, first_slot-has s.tasks a)

-- How many slots hold a task that passes the test
abbrev pub count_if : (ℕ → Bool) → List ℕ → ℕ
count_if p [] = 0
count_if p (x ∷ xs) = if x == 0 then count_if p xs else one_if (p x) + count_if p xs

count_one : (xs : List ℕ) (a : ℕ) → Once xs → a ≢ 0 → count_if (λ b. a == b) xs ≡ one_if (has xs a)
unfolding has
count_one [] a o h = refl
count_one (x ∷ xs) a o h = ground (arith, count_one xs a o.1 h, o.0)

count_none : (xs : List ℕ) → count_if (λ b. false) xs ≡ 0
count_none [] = refl
count_none (x ∷ xs) = ground (arith, count_none xs)

-- Tests that exclude each other
count_or :
    (p q : ℕ → Bool) (xs : List ℕ)
    → ((a : ℕ) → p a ≡ true → q a ≡ false)
    → count_if (λ a. p a || q a) xs ≡ count_if p xs + count_if q xs
count_or p q [] h = omega arith
count_or p q (x ∷ xs) h = ground (arith, count_or p q xs h, h x)

pub count_congr :
    (p q : ℕ → Bool) (xs : List ℕ)
    → ((a : ℕ) → has xs a ≡ true → a ≢ 0 → p a ≡ q a)
    → count_if p xs ≡ count_if q xs
unfolding has
count_congr p q [] h = refl
count_congr p q (x ∷ xs) h =
    ground (arith, count_congr p q xs (λ a e. h a (ground (arith, e))), h x)

-- Distinct tasks of the slots are as many as the slots that hold them.
count-has :
    (xs ys : List ℕ)
    → Once xs
    → Distinct ys
    → ((a : ℕ) → has ys a ≡ true → (has xs a ≡ true) × (a ≢ 0))
    → count_if (has ys) xs ≡ length ys
unfolding has
count-has xs [] o d h = count_none xs
count-has xs (y ∷ ys) o d h =
    let others = count-has xs ys o d.1 (λ a e. h a (ground (arith, e))) in
    let (inside, nonzero) = h y (ground arith) in
    let one = count_one xs y o nonzero in
    let both = count_or (λ a. y == a) (has ys) xs (λ a e. ground (arith, e, d.0)) in
    both ∙ ground (arith, one, inside, others)

module _ (s : Sched) {rs ss : List ℕ} (v : Standing s 0 rs ss)
    (here : is_task s s.current ≡ true) where
  is_new-apart :
      (a : ℕ) (before : List ℕ)
      → is_task s a ≡ true
      → has before a ≡ false
      → ((b : ℕ) → has before b ≡ true → b ≢ 0 → is_task s b ≡ true)
      → is_new s a before ≡ true
  unfolding is_new has
  is_new-apart a [] ea h t = refl
  is_new-apart a (b ∷ before) ea h t =
      let rest = is_new-apart a before ea (ground (arith, h)) (λ b' e. t b' (ground (arith, e))) in
      elim (ℕ_discrete b 0) [
        | yes empty ↦ ground (arith, empty, rest)
        | no full ↦
            let other : (s.store b).id ≢ (s.store a).id =
              λ e. ground (arith, v.ids b a (t b (ground arith) full) ea e, h) in
            ground (arith, other, rest, h)
      ]

  tasks_before :
      (x : ℕ) (before : List ℕ) (a : ℕ)
      → is_task s x ≡ true
      → ((b : ℕ) → has before b ≡ true → b ≢ 0 → is_task s b ≡ true)
      → has (x ∷ before) a ≡ true
      → a ≢ 0
      → is_task s a ≡ true
  unfolding has
  tasks_before x before a here b e z = elim (ℕ_discrete x a) [
    | yes same ↦ rw (← same) here
    | no other ↦ b a (ground (arith, e, other)) z
  ]

  scan_lem :
      (before xs : List ℕ) (c : Counts)
      → Once xs
      → ((a : ℕ) → has xs a ≡ true → a ≢ 0 → is_task s a ≡ true)
      → ((a : ℕ) → has xs a ≡ true → a ≢ 0 → has before a ≡ false)
      → ((b : ℕ) → has before b ≡ true → b ≢ 0 → is_task s b ≡ true)
      → scan s before xs c
        ≡ some (record {
          count = c.count + count_tasks xs;
          ready_count =
              c.ready_count + count_if (λ a. (s.store a).state == ready && not (a == s.idle)) xs;
          sleep_count = c.sleep_count + count_if (λ a. (s.store a).state == sleeping) xs;
          running_count = c.running_count + count_if (λ a. (s.store a).state == running) xs;
        })
  unfolding scan has tally
  scan_lem before [] c o t apart b = ground arith
  scan_lem before (x ∷ xs) c o t apart b = elim (ℕ_discrete x 0) [
    | yes empty ↦
        let is_empty : (x == 0) ≡ true = ground (arith, empty) in
        let ih =
          scan_lem (x ∷ before) xs c o.1 (λ a e. t a (ground (arith, e)))
            (λ a e z. ground (arith, apart a (ground (arith, e)) z, z, empty))
            (λ a e z. b a (ground (arith, e, z, empty)) z) in
        rw (is_empty, scan) ih
    | no full ↦
        let some_task : (x == 0) ≡ false = ground (arith, full) in
        let here : is_task s x ≡ true = t x (ground arith) full in
        let good = v.checked x here full in
        let new = is_new-apart x before here (apart x (ground arith) full) b in
        let ih =
          scan_lem (x ∷ before) xs (tally s x c) o.1 (λ a e. t a (ground (arith, e)))
            (λ a e z. ground (arith, apart a (ground (arith, e)) z, z, o.0, e))
            (λ a e z. tasks_before x before a here b e z) in
        rw (some_task, good, new, scan) (ih ∙ ap some (ground arith))
  ]

  check_ready_lem :
      (xs : List ℕ) (head last : ℕ)
      → Linked (next_of s) head xs 0
      → ((a : ℕ) → has xs a ≡ true → in_ready s 0 a ≡ true)
      → last_or last xs ≡ s.ready_tail
      → check_ready s (length xs) head last ≡ true
  unfolding check_ready has
  check_ready_lem [] head last l h e = ground (arith, l, e)
  check_ready_lem (x ∷ xs) head last (at, nonzero, rest) h e =
      let here = h x (ground arith) in
      let slot = task_slot-is_task s x v.size (ground (arith, here)) in
      let walk = check_ready_lem xs (next_of s x) x rest (λ a e'. h a (ground (arith, e'))) e in
      rw at (ground (arith, here, slot, walk))

  check_sleepers_lem :
      (xs : List ℕ) (head low : ℕ)
      → Linked (next_of s) head xs 0
      → ((a : ℕ) → has xs a ≡ true → in_sleep s 0 a ≡ true)
      → Ordered (wake_of s) low xs
      → check_sleepers s (length xs) head low ≡ true
  unfolding check_sleepers has
  check_sleepers_lem [] head low l h o = ground (arith, l)
  check_sleepers_lem (x ∷ xs) head low (at, nonzero, rest) h (above, o) =
      let here = h x (ground arith) in
      let slot = task_slot-is_task s x v.size (ground (arith, here)) in
      let walk =
        check_sleepers_lem xs (next_of s x) (wake_of s x) rest (λ a e'. h a (ground (arith, e')))
          o in
      rw at (ground (arith, here, slot, walk, above))

  pub count_ready :
      count_if (λ a. (s.store a).state == ready && not (a == s.idle)) s.tasks ≡ length rs
  count_ready =
      count_congr (λ a. (s.store a).state == ready && not (a == s.idle)) (has rs) s.tasks
        (λ a e z. ground (arith, v.ready_are a, e, z))
      ∙ count-has s.tasks rs v.once v.ready_distinct
          (λ a e. (ground (arith, v.ready_are a, e), λ z. ground (arith, v.ready_are a, e, z)))

  pub count_sleep : count_if (λ a. (s.store a).state == sleeping) s.tasks ≡ length ss
  count_sleep =
      count_congr (λ a. (s.store a).state == sleeping) (has ss) s.tasks
        (λ a e z. ground (arith, v.sleep_are a, e, z))
      ∙ count-has s.tasks ss v.once v.sleep_distinct
          (λ a e. (ground (arith, v.sleep_are a, e), λ z. ground (arith, v.sleep_are a, e, z)))

  running_is_current :
      (a : ℕ) → is_task s a ≡ true → a ≢ 0 → ((s.store a).state == running) ≡ true → a ≡ s.current
  unfolding check_task
  running_is_current a h z e = ground (arith, v.checked a h z)

  runs_iff :
      (a : ℕ)
      → ((s.store s.current).state == running) ≡ true
      → is_task s a ≡ true
      → a ≢ 0
      → ((s.store a).state == running) ≡ (s.current == a)
  runs_iff a runs h z = elim (ℕ_discrete s.current a) [
    | yes same ↦ rw (← same) (ground (arith, runs))
    | no other ↦ ground (arith, running_is_current a h z, other)
  ]

  stops :
      (a : ℕ)
      → ((s.store s.current).state == running) ≡ false
      → is_task s a ≡ true
      → a ≢ 0
      → ((s.store a).state == running) ≡ false
  stops a stopped h z = elim (ℕ_discrete s.current a) [
    | yes same ↦ rw (← same) stopped
    | no other ↦ ground (arith, running_is_current a h z, other)
  ]

  count_running :
      count_if (λ a. (s.store a).state == running) s.tasks
      ≡ one_if ((s.store s.current).state == running)
  count_running = elim (Bool-cases ((s.store s.current).state == running)) [
    | inl runs ↦
        count_congr (λ a. (s.store a).state == running) (λ a. s.current == a) s.tasks
          (λ a e z. runs_iff a runs (ground (arith, e, z)) z)
        ∙ count_one s.tasks s.current v.once (λ z. ground (arith, here, z))
        ∙ ground (arith, here, runs)
    | inr stopped ↦
        count_congr (λ a. (s.store a).state == running) (λ a. false) s.tasks
          (λ a e z. stops a stopped (ground (arith, e, z)) z)
        ∙ count_none s.tasks
        ∙ ground (arith, stopped)
  ]

pub count_tasks-le : (xs : List ℕ) → count_tasks xs ≤ length xs
count_tasks-le [] = omega arith
count_tasks-le (x ∷ xs) = ground (arith, count_tasks-le xs)

count_tasks_pos : (xs : List ℕ) (a : ℕ) → has xs a ≡ true → a ≢ 0 → 0 < count_tasks xs
unfolding has
count_tasks_pos [] a h z = absurd (ground (arith, h))
count_tasks_pos (x ∷ xs) a h z = ground (arith, count_tasks_pos xs a, h, z)

abbrev no_counts : Counts
no_counts = record { count = 0; ready_count = 0; sleep_count = 0; running_count = 0 }

-- sched_core_validate accepts every valid state.
pub sched_core_validate-IsValid :
    (s : Sched) {rs ss : List ℕ} → IsValid s rs ss → sched_core_validate s ≡ true
unfolding sched_core_validate has
sched_core_validate-IsValid s {rs} {ss} w =
    let v = w.queues in
    let scanned =
      scan_lem s v w.current_in [] s.tasks no_counts v.once (λ a e z. ground (arith, e, z))
        (λ a e z. refl) (λ b e z. absurd (ground (arith, e))) in
    let idle_slot = task_slot-is_task s s.idle v.size v.idle_in in
    let current_slot = task_slot-is_task s s.current v.size w.current_in in
    let ready_walk =
      check_ready_lem s v w.current_in rs s.ready_head 0 v.ready_links
        (λ a e. sym (v.ready_are a) ∙ e) v.ready_last in
    let sleep_walk =
      check_sleepers_lem s v w.current_in ss s.sleep_head 0 v.sleep_links
        (λ a e. sym (v.sleep_are a) ∙ e) v.sleep_ordered in
    let counts : Counts = record {
      count = s.task_count;
      ready_count = length rs;
      sleep_count = length ss;
      running_count = one_if ((s.store s.current).state == running);
    } in
    let same : scan s [] s.tasks no_counts ≡ some counts =
      scanned
      ∙ ap some (
          ground (
            arith,
            v.counted,
            count_ready s v w.current_in,
            count_sleep s v w.current_in,
            count_running s v w.current_in,
          )) in
    let some_tasks =
      count_tasks_pos s.tasks s.current (ground (arith, w.current_in))
        (λ z. ground (arith, w.current_in, z)) in
    let asked = w.asks in
    rw same (
      ground (
        arith,
        v.is_initialized,
        v.has_quantum,
        v.counted,
        some_tasks,
        count_tasks-le s.tasks,
        v.size,
        v.next_id_from,
        idle_slot,
        current_slot,
        ready_walk,
        sleep_walk,
        asked,
      ))

count_if-le : (p : ℕ → Bool) (xs : List ℕ) → count_if p xs ≤ length xs
count_if-le p [] = omega arith
count_if-le p (x ∷ xs) = ground (arith, count_if-le p xs)

pub length-sleepers : (s : Sched) {rs ss : List ℕ} → IsValid s rs ss → length ss ≤ max_tasks
length-sleepers s w = omega (
  arith,
  count_sleep s w.queues w.current_in,
  count_if-le (λ a. (s.store a).state == sleeping) s.tasks,
  w.queues.size,
)
