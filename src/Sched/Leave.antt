-- ===== src/Sched/Leave.antt =====
-- kernel/core/sched_core.c: the current task stops, or may not be preempted.
use utamo_os.Common.{
  ℕ, ◌+◌, ◌-◌, ◌≡◌, ◌≢◌, refl, Bool, true, false, not, ◌||◌, List, ◌==◌, arith, IfSome,
  IfSome-guard, IfSome-when,
}
use utamo_os.Sched.State.{Task, Sched, running, ready, sleeping, blocked, zombie}
use utamo_os.Sched.Validate.{check_task, sched_core_validate}
use utamo_os.Sched.Valid.{IsValid}
use utamo_os.Sched.Revise.{revised, Standing-revised}
use utamo_os.Sched.Wait.{
  current_can_wait, stop_current, with_depth, sched_core_block_current, sched_core_exit_current,
  sched_core_preempt_disable, sched_core_preempt_enable,
}
use utamo_os.Sched.Choose.{not-has-running}

check-stopped :
    (s : Sched) (state : ℕ)
    → (state == blocked || state == zombie) ≡ true
    → s.current ≢ s.idle
    → ((s.store s.current).state == running) ≡ true
    → (s.store s.current).preempt_depth ≡ 0
    → check_task s s.current (s.store s.current) ≡ true
    → check_task s s.current (record (s.store s.current) { state = state }) ≡ true
unfolding check_task
check-stopped s state st i r d e = ground (arith, st, i, r, d, e)

check-depth :
    (s : Sched) (depth : ℕ)
    → ((s.store s.current).state == running) ≡ true
    → check_task s s.current (s.store s.current) ≡ true
    → check_task s s.current (record (s.store s.current) { preempt_depth = depth }) ≡ true
unfolding check_task
check-depth s depth r e = ground (arith, r, e)

-- A write to the running task that leaves it in no queue.
pub IsValid-current :
    (s : Sched) (task : Task) (reschedule : Bool) (ticks : ℕ) {rs ss : List ℕ}
    → IsValid s rs ss
    → ((s.store s.current).state == running) ≡ true
    → task.id ≡ (s.store s.current).id
    → (task.state == ready || task.state == sleeping) ≡ false
    → (check_task s s.current (s.store s.current) ≡ true → check_task s s.current task ≡ true)
    → ((task.state == running) ≡ false → reschedule ≡ true)
    → IsValid (revised s s.current task s.current reschedule ticks s.switches) rs ss
unfolding check_task
IsValid-current s task reschedule ticks w r same out check ask =
    let v = w.queues in
    let nonzero : s.current ≢ 0 = λ z. ground (arith, w.current_in, z) in
    let (not_ready, not_asleep) = not-has-running s s.current v r in
    record {
      queues =
          Standing-revised s s.current task s.current reschedule ticks s.switches 0 0 v same
            not_ready not_asleep (ground (arith, out)) (ground (arith, out)) (λ a e h. refl)
            (λ h e. check (v.checked s.current e nonzero)) (λ a e other h. v.checked a e h)
            (λ h. absurd (h refl));
      current_in = w.current_in;
      asks = λ e. ask (ground (arith, e));
    }

stop_current-IsValid :
    (s : Sched) (state : ℕ) {rs ss : List ℕ}
    → (state == blocked || state == zombie) ≡ true
    → IsValid s rs ss
    → current_can_wait s ≡ true
    → IsValid (stop_current s state) rs ss
unfolding current_can_wait
stop_current-IsValid s state st w can =
    IsValid-current s (record (s.store s.current) { state = state }) true s.ticks w
      (ground (arith, can)) refl (ground (arith, st))
      (check-stopped s state st (λ z. ground (arith, can, z)) (ground (arith, can))
        (ground (arith, can)))
      (λ e. refl)

pub sched_core_block_current-IsValid :
    (s : Sched) {rs ss : List ℕ}
    → IsValid s rs ss
    → IfSome (λ s'. IsValid s' rs ss) (sched_core_block_current s)
unfolding sched_core_block_current
sched_core_block_current-IsValid s {rs} {ss} w =
    IfSome-when (λ s'. IsValid s' rs ss) (current_can_wait s) (stop_current s blocked)
      (λ can. stop_current-IsValid s blocked refl w can)

pub sched_core_exit_current-IsValid :
    (s : Sched) {rs ss : List ℕ}
    → IsValid s rs ss
    → IfSome (λ s'. IsValid s' rs ss) (sched_core_exit_current s)
unfolding sched_core_exit_current
sched_core_exit_current-IsValid s {rs} {ss} w =
    IfSome-when (λ s'. IsValid s' rs ss) (current_can_wait s) (stop_current s zombie)
      (λ can. stop_current-IsValid s zombie refl w can)

with_depth-IsValid :
    (s : Sched) (depth : ℕ) {rs ss : List ℕ}
    → IsValid s rs ss
    → ((s.store s.current).state == running) ≡ true
    → IsValid (with_depth s depth) rs ss
with_depth-IsValid s depth w r =
    IsValid-current s (record (s.store s.current) { preempt_depth = depth }) s.reschedule s.ticks w
      r refl (ground (arith, r)) (check-depth s depth r) (λ e. w.asks e)

pub sched_core_preempt_disable-IsValid :
    (s : Sched) {rs ss : List ℕ}
    → IsValid s rs ss
    → IfSome (λ s'. IsValid s' rs ss) (sched_core_preempt_disable s)
unfolding sched_core_preempt_disable
sched_core_preempt_disable-IsValid s {rs} {ss} w =
    let depth = (s.store s.current).preempt_depth in
    IfSome-guard (λ s'. IsValid s' rs ss)
      (not (sched_core_validate s)
        || not ((s.store s.current).state == running)
        || depth == 4294967295)
      (with_depth s (depth + 1)) (λ e. with_depth-IsValid s (depth + 1) w (ground (arith, e)))

pub sched_core_preempt_enable-IsValid :
    (s : Sched) {rs ss : List ℕ}
    → IsValid s rs ss
    → IfSome (λ s'. IsValid s' rs ss) (sched_core_preempt_enable s)
unfolding sched_core_preempt_enable
sched_core_preempt_enable-IsValid s {rs} {ss} w =
    let depth = (s.store s.current).preempt_depth in
    IfSome-guard (λ s'. IsValid s' rs ss)
      (not (sched_core_validate s) || not ((s.store s.current).state == running) || depth == 0)
      (with_depth s (depth - 1)) (λ e. with_depth-IsValid s (depth - 1) w (ground (arith, e)))
