-- ===== src/Sched/Reach.antt =====
-- kernel/core/sched_core.c: the run of the policy, from initialization on.
use utamo_os.Common.{
  ℕ, ◌+◌, ◌≡◌, ◌≢◌, sym, Bool, true, false, Option, none, some, List, [], ◌∷◌, ◌++◌, ltb,
  if◌then◌else◌, IfSome,
}
use mathlib.Core.Path.{subst}
use utamo_os.Sched.State.{Sched}
use utamo_os.Sched.Validate.{sched_core_validate}
use utamo_os.Sched.Valid.{wake_of, IsValid}
use utamo_os.Sched.Accept.{sched_core_validate-IsValid}
use utamo_os.Sched.Run.{sched_core_init, sched_core_add, sched_core_tick, sched_core_select}
use utamo_os.Sched.Wait.{
  sched_core_sleep_current, sched_core_block_current, sched_core_wake, sched_core_exit_current,
  sched_core_remove_zombie, sched_core_preempt_disable, sched_core_preempt_enable,
}
use utamo_os.Sched.Start.{sched_core_init-IsValid}
use utamo_os.Sched.Enroll.{sched_core_add-IsValid}
use utamo_os.Sched.Fifo.{first_or, rest_of, Chosen, sched_core_select-Selects}
use utamo_os.Sched.Choose.{queue_after}
use utamo_os.Sched.Run.{keeps_current}
use utamo_os.Sched.Time.{due, later}
use utamo_os.Sched.Tick.{sched_core_tick-Ticks}
use utamo_os.Sched.Leave.{
  sched_core_block_current-IsValid, sched_core_exit_current-IsValid,
  sched_core_preempt_disable-IsValid, sched_core_preempt_enable-IsValid,
}
use utamo_os.Sched.Sleep.{sched_core_sleep_current-IsValid}
use utamo_os.Sched.Wake.{remove, sched_core_wake-IsValid}
use utamo_os.Sched.Reap.{sched_core_remove_zombie-IsValid}

-- A successful call of an operation.
pub data Step (s : Sched) : Sched → Type 0 where
  add : {s' : Sched} (task : ℕ) → sched_core_add s task ≡ some s' → Step s s'
  tick : {s' : Sched} (now : ℕ) → sched_core_tick s now ≡ some s' → Step s s'
  select :
      {s' : Sched} (force : Bool) (task : ℕ)
      → sched_core_select s force ≡ some (task, s')
      → Step s s'
  sleep : {s' : Sched} (delay : ℕ) → sched_core_sleep_current s delay ≡ some s' → Step s s'
  block : {s' : Sched} → sched_core_block_current s ≡ some s' → Step s s'
  wake : {s' : Sched} (task : ℕ) → sched_core_wake s task ≡ some s' → Step s s'
  exit : {s' : Sched} → sched_core_exit_current s ≡ some s' → Step s s'
  remove_zombie : {s' : Sched} (task : ℕ) → sched_core_remove_zombie s task ≡ some s' → Step s s'
  disable : {s' : Sched} → sched_core_preempt_disable s ≡ some s' → Step s s'
  enable : {s' : Sched} → sched_core_preempt_enable s ≡ some s' → Step s s'

-- The states from initialization on.
pub data Reach : Sched → Type 0 where
  start :
      {s : Sched} (before : Sched) (idle bootstrap quantum now : ℕ)
      → before.self ≢ 0
      → sched_core_init before idle bootstrap quantum now ≡ some s
      → Reach s
  next : {before s : Sched} → Reach before → Step before s → Reach s

IfSome-some {ℓ κ} :
    {A : Type ℓ} (P : A → Type κ) {o : Option A} {a : A} → o ≡ some a → IfSome P o → P a
IfSome-some P e h = subst (IfSome P) e h

-- A state with some queues is valid.
abbrev pub Valid : Sched → Type 0
Valid s = (rs : List ℕ) × (ss : List ℕ) × IsValid s rs ss

tick_Valid :
    (s : Sched) (now : ℕ) {rs ss : List ℕ} → IsValid s rs ss → IfSome Valid (sched_core_tick s now)
tick_Valid s now {rs} {ss} w = go (ltb now s.now) (sched_core_tick-Ticks s now w)
  where
    go :
        (back : Bool)
        → (if back
            then sched_core_tick s now ≡ none
            else (s' : Sched) × (sched_core_tick s now ≡ some s')
              × (s'.now ≡ now)
              × IsValid s' (rs ++ due (wake_of s) now ss) (later (wake_of s) now ss))
        → IfSome Valid (sched_core_tick s now)
    go true e = subst (IfSome Valid) (sym e) tt
    go false (s', e, h, v) =
        subst (IfSome Valid) (sym e) (rs ++ due (wake_of s) now ss, later (wake_of s) now ss, v)

select_Valid :
    (s : Sched) (force : Bool) {rs ss : List ℕ}
    → IsValid s rs ss
    → IfSome (λ r. Valid r.1) (sched_core_select s force)
select_Valid s force {rs} {ss} w =
    let (r, e, selects) = sched_core_select-Selects s force w in
    subst (IfSome (λ u. Valid u.1)) (sym e) (go (keeps_current s force) r selects)
  where
    go :
        (keeps : Bool) (r : ℕ × Sched)
        → (if keeps
            then (r.0 ≡ s.current) × (r.1 ≡ s)
            else (r.0 ≡ first_or s.idle (queue_after s rs))
              × (r.1.current ≡ r.0)
              × Chosen r.1 (rest_of (queue_after s rs)) ss)
        → Valid r.1
    go true r (first, same) = subst Valid (sym same) (rs, ss, w)
    go false r (first, current, v) = (rest_of (queue_after s rs), ss, v.0)

Step-Valid : {s s' : Sched} → Step s s' → Valid s → Valid s'
Step-Valid {s} (add task e) (rs, ss, w) = (
  rs ++ task ∷ [],
  ss,
  IfSome-some (λ u. IsValid u (rs ++ task ∷ []) ss) e (sched_core_add-IsValid s task w),
)
Step-Valid {s} (tick now e) (rs, ss, w) = IfSome-some Valid e (tick_Valid s now w)
Step-Valid {s} (select force task e) (rs, ss, w) =
    IfSome-some (λ r. Valid r.1) e (select_Valid s force w)
Step-Valid {s} (sleep delay e) (rs, ss, w) =
    let order =
      due (wake_of s) (s.now + delay) ss ++ s.current ∷ later (wake_of s) (s.now + delay) ss in
    (
      rs,
      order,
      IfSome-some (λ u. IsValid u rs order) e (sched_core_sleep_current-IsValid s delay w),
    )
Step-Valid {s} (block e) (rs, ss, w) =
    (rs, ss, IfSome-some (λ u. IsValid u rs ss) e (sched_core_block_current-IsValid s w))
Step-Valid {s} (wake task e) (rs, ss, w) = (
  rs ++ task ∷ [],
  remove task ss,
  IfSome-some (λ u. IsValid u (rs ++ task ∷ []) (remove task ss)) e
      (sched_core_wake-IsValid s task w),
)
Step-Valid {s} (exit e) (rs, ss, w) =
    (rs, ss, IfSome-some (λ u. IsValid u rs ss) e (sched_core_exit_current-IsValid s w))
Step-Valid {s} (remove_zombie task e) (rs, ss, w) =
    (rs, ss, IfSome-some (λ u. IsValid u rs ss) e (sched_core_remove_zombie-IsValid s task w))
Step-Valid {s} (disable e) (rs, ss, w) =
    (rs, ss, IfSome-some (λ u. IsValid u rs ss) e (sched_core_preempt_disable-IsValid s w))
Step-Valid {s} (enable e) (rs, ss, w) =
    (rs, ss, IfSome-some (λ u. IsValid u rs ss) e (sched_core_preempt_enable-IsValid s w))

Reach-Valid : {s : Sched} → Reach s → Valid s
Reach-Valid (start before idle bootstrap quantum now nonzero e) = (
  [],
  [],
  IfSome-some (λ u. IsValid u [] []) e
      (sched_core_init-IsValid before idle bootstrap quantum now nonzero),
)
Reach-Valid (next r step) = Step-Valid step (Reach-Valid r)

-- In every state that successful calls of the operations lead to from a successful initialization,
-- sched_core_validate accepts: the registry, the ready queue and the ordered sleepers are in order,
-- so no call is ever refused for an invalid core.
pub sched_core_validate-Reach : (s : Sched) → Reach s → sched_core_validate s ≡ true
sched_core_validate-Reach s r = let (rs, ss, w) = Reach-Valid r in sched_core_validate-IsValid s w
