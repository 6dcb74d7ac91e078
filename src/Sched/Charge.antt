-- ===== src/Sched/Charge.antt =====
-- sched_core_tick of kernel/core/sched_core.c: what the tick takes from the running task.
use utamo_os.Common.{ℕ, ◌-◌, ◌≡◌, refl, true, ◌||◌, List, ◌==◌, arith, Bool-cases, inl, inr}
use utamo_os.Sched.State.{Sched, running, write, increment}
use utamo_os.Sched.Validate.{check_task}
use utamo_os.Sched.Valid.{wake_of, IsValid}
use utamo_os.Sched.Run.{charge, spend}
use utamo_os.Sched.Leave.{IsValid-current}

check-run_ticks :
    (s : Sched) (n : ℕ)
    → check_task s s.current (s.store s.current) ≡ true
    → check_task s s.current (record (s.store s.current) { run_ticks = n }) ≡ true
unfolding check_task
check-run_ticks s n e = e

check-quantum_left :
    (s : Sched)
    → check_task s s.current (s.store s.current) ≡ true
    → check_task s s.current
        (record (s.store s.current) { quantum_left = (s.store s.current).quantum_left - 1 })
      ≡ true
unfolding check_task
check-quantum_left s e = ground (arith, e)

abbrev counted_run : Sched → Sched
counted_run s =
    write s s.current
      (record (s.store s.current) { run_ticks = increment (s.store s.current).run_ticks })

counted_run-IsValid :
    (s : Sched) {rs ss : List ℕ}
    → IsValid s rs ss
    → ((s.store s.current).state == running) ≡ true
    → IsValid (counted_run s) rs ss × ((((counted_run s).store s.current).state == running) ≡ true)
counted_run-IsValid s w r = (
  IsValid-current s
      (record (s.store s.current) { run_ticks = increment (s.store s.current).run_ticks })
      s.reschedule s.ticks w r refl (ground (arith, r))
      (check-run_ticks s (increment (s.store s.current).run_ticks)) (λ e. w.asks e),
  ground (arith, r),
)

spend-IsValid :
    (s : Sched) {rs ss : List ℕ}
    → IsValid s rs ss
    → ((s.store s.current).state == running) ≡ true
    → IsValid (spend s) rs ss
spend-IsValid s w r =
    let left = (s.store s.current).quantum_left - 1 in
    IsValid-current s (record (s.store s.current) { quantum_left = left })
      (left == 0 || s.reschedule) s.ticks w r refl (ground (arith, r)) (check-quantum_left s)
      (λ e. absurd (ground (arith, e, r)))

pub charge-IsValid : (s : Sched) {rs ss : List ℕ} → IsValid s rs ss → IsValid (charge s) rs ss
unfolding charge
charge-IsValid s w = elim (Bool-cases ((s.store s.current).state == running)) [
  | inl runs ↦
      let (valid, runs') = counted_run-IsValid s w runs in
      elim (Bool-cases (s.current == s.idle)) [
        | inl idles ↦ rw (runs, idles) valid
        | inr works ↦ rw (runs, works) (spend-IsValid (counted_run s) valid runs')
      ]
  | inr stopped ↦ rw stopped w
]

-- The tick does not read its clock before it is done.
abbrev pub set_clock : Sched → ℕ → ℕ → Sched
set_clock s now ticks = record s { now = now; ticks = ticks }

pub charge-set_clock :
    (s : Sched) (now ticks : ℕ) → charge (set_clock s now ticks) ≡ set_clock (charge s) now ticks
unfolding charge
charge-set_clock s now ticks = elim (Bool-cases ((s.store s.current).state == running)) [
  | inl runs ↦ elim (Bool-cases (s.current == s.idle)) [
    | inl idles ↦ rw (runs, idles) refl
    | inr works ↦ rw (runs, works) refl
  ]
  | inr stopped ↦ rw stopped refl
]

pub wake_of-charge : (s : Sched) (a : ℕ) → wake_of (charge s) a ≡ wake_of s a
unfolding charge
wake_of-charge s a = ground arith
