-- ===== src/Sched/Start.antt =====
-- sched_core_init of kernel/core/sched_core.c leaves a valid state.
use utamo_os.Common.{
  ℕ, zero, suc, ◌<◌, ◌≡◌, ◌≢◌, refl, sym, ◌∙◌, true, false, not, ◌&&◌, ◌||◌, [], ◌∷◌, ◌==◌, arith,
  replicate, IfSome, IfSome-guard,
}
use native.Mathlib.Decide.{ℕ_discrete}
use utamo_os.Sched.State.{Sched}
use utamo_os.Sched.Validate.{check_task}
use utamo_os.Sched.Links.{has}
use utamo_os.Sched.Valid.{Once, count_tasks, is_task, in_ready, in_sleep, IsValid}
use utamo_os.Sched.Run.{started, sched_core_init}

has-replicate : (n a : ℕ) → a ≢ 0 → has (replicate n 0) a ≡ false
unfolding has
has-replicate zero a h = refl
has-replicate (suc n) a h = ground (arith, has-replicate n a h)

Once-replicate : (n : ℕ) → Once (replicate n 0)
Once-replicate zero = tt
Once-replicate (suc n) = (refl, Once-replicate n)

count_tasks-replicate : (n : ℕ) → count_tasks (replicate n 0) ≡ 0
count_tasks-replicate zero = refl
count_tasks-replicate (suc n) = count_tasks-replicate n

has_two :
    (n x y a : ℕ)
    → x ≢ 0
    → y ≢ 0
    → (not (a == 0) && has (x ∷ y ∷ replicate n 0) a) ≡ (x == a || y == a)
unfolding has
has_two n x y a hx hy = elim (ℕ_discrete a 0) [
  | yes e ↦ ground (arith, e)
  | no h ↦ ground (arith, has-replicate n a h)
]

Once-two : (n x y : ℕ) → x ≢ 0 → y ≢ 0 → x ≢ y → Once (x ∷ y ∷ replicate n 0)
unfolding has
Once-two n x y hx hy d =
    (ground (arith, has-replicate n x hx), (ground (arith, has-replicate n y hy), Once-replicate n))

count_two : (n x y : ℕ) → x ≢ 0 → y ≢ 0 → count_tasks (x ∷ y ∷ replicate n 0) ≡ 2
count_two n x y hx hy = ground (arith, count_tasks-replicate n)

module _ (s : Sched) (idle bootstrap quantum now : ℕ) (z : s.self ≢ 0) (i : idle ≢ 0)
    (b : bootstrap ≢ 0) (d : idle ≢ bootstrap) (q : 0 < quantum) where
  abbrev start : Sched
  start = started s idle bootstrap quantum now

  start_tasks : (a : ℕ) → is_task start a ≡ (idle == a || bootstrap == a)
  start_tasks a = has_two 62 idle bootstrap a i b

  start_checked :
      (a : ℕ) → (idle == a || bootstrap == a) ≡ true → check_task start a (start.store a) ≡ true
  unfolding check_task
  start_checked a e = ground (arith, e, d, q)

  start_ids :
      (a b' : ℕ)
      → (idle == a || bootstrap == a) ≡ true
      → (idle == b' || bootstrap == b') ≡ true
      → (start.store a).id ≡ (start.store b').id
      → a ≡ b'
  start_ids a b' ea eb e = ground (arith, d, ea, eb, e)

  start-in_ready : (a : ℕ) → in_ready start 0 a ≡ false
  start-in_ready a = ground (arith, start_tasks a, d)

  start-in_sleep : (a : ℕ) → in_sleep start 0 a ≡ false
  start-in_sleep a = ground (arith, start_tasks a, d)

  started-IsValid : IsValid start [] []
  unfolding has
  started-IsValid = record {
    queues = record {
      is_initialized = refl;
      self_nonzero = z;
      has_quantum = q;
      size = refl;
      counted = count_two 62 idle bootstrap i b;
      once = Once-two 62 idle bootstrap i b d;
      next_id_from = omega arith;
      next_id_to = omega arith;
      idle_in = start_tasks idle ∙ ground arith;
      checked = λ a e h. start_checked a (sym (start_tasks a) ∙ e);
      floating = λ e. absurd (e refl);
      ids = λ a b' ea eb e. start_ids a b' (sym (start_tasks a) ∙ ea) (sym (start_tasks b') ∙ eb) e;
      ready_links = refl;
      ready_last = refl;
      ready_distinct = tt;
      ready_are = λ a. sym (start-in_ready a);
      sleep_links = refl;
      sleep_distinct = tt;
      sleep_are = λ a. sym (start-in_sleep a);
      sleep_ordered = tt;
    };
    current_in = start_tasks bootstrap ∙ ground arith;
    asks = λ e. ground (arith, e);
  }

-- A successful sched_core_init leaves a valid state with empty queues.
pub sched_core_init-IsValid :
    (s : Sched) (idle bootstrap quantum now : ℕ)
    → s.self ≢ 0
    → IfSome (λ s'. IsValid s' [] []) (sched_core_init s idle bootstrap quantum now)
unfolding sched_core_init
sched_core_init-IsValid s idle bootstrap quantum now z =
    IfSome-guard (λ s'. IsValid s' [] [])
      (s.initialized
        || idle == 0
        || bootstrap == 0
        || idle == bootstrap
        || not ((s.store idle).owner == 0)
        || not ((s.store bootstrap).owner == 0)
        || quantum == 0)
      (started s idle bootstrap quantum now)
      (λ e.
        started-IsValid s idle bootstrap quantum now z (λ w. ground (arith, e, w))
          (λ w. ground (arith, e, w)) (λ w. ground (arith, e, w)) (ground (arith, e)))
