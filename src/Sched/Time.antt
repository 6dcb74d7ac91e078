-- ===== src/Sched/Time.antt =====
-- sched_core_tick of kernel/core/sched_core.c: the sleepers that are due wake.
use utamo_os.Common.{ℕ, ◌≡◌, ◌≢◌, sym, ◌∙◌, true, List, [], ◌∷◌, ◌++◌, leb, if◌then◌else◌, arith}
use mathlib.Core.Path.{subst}
use native.Mathlib.Decide.{ℕ_discrete}
use utamo_os.Sched.State.{Sched}
use utamo_os.Sched.Validate.{check_task}
use utamo_os.Sched.Links.{has}
use utamo_os.Sched.Valid.{
  next_of, wake_of, Ordered, in_ready, in_sleep, check_floating, Standing, IsValid,
}
use utamo_os.Sched.Push.{ready_push-IsValid}
use utamo_os.Sched.Run.{ready_push, wake_first}

-- The sleepers that are due, and the others, in the order of their deadlines.
abbrev pub due : (ℕ → ℕ) → ℕ → List ℕ → List ℕ
due wake now [] = []
due wake now (x ∷ xs) = if leb (wake x) now then x ∷ due wake now xs else []

abbrev pub later : (ℕ → ℕ) → ℕ → List ℕ → List ℕ
later wake now [] = []
later wake now (x ∷ xs) = if leb (wake x) now then later wake now xs else x ∷ xs

floats-sleeping :
    (s : Sched) (a : ℕ)
    → in_sleep s 0 a ≡ true
    → check_task s a (s.store a) ≡ true
    → (check_floating s a ≡ true) × (a ≢ s.idle)
unfolding check_task
floats-sleeping s a e h = (ground (arith, e, h), λ z. ground (arith, e, h, z))

pub Ordered-lower : (wake : ℕ → ℕ) (low : ℕ) (xs : List ℕ) → Ordered wake low xs → Ordered wake 0 xs
Ordered-lower wake low [] o = tt
Ordered-lower wake low (x ∷ xs) o = (omega arith, o.1)

-- The first sleeper leaves their queue.
Standing-woken :
    (s : Sched) (x : ℕ) (xs : List ℕ) {rs : List ℕ}
    → Standing s 0 rs (x ∷ xs)
    → Standing (record s { sleep_head = next_of s x }) x rs xs
unfolding has check_task
Standing-woken s x xs {rs} v =
    let (at, nonzero, links) = v.sleep_links in
    let here : in_sleep s 0 x ≡ true = sym (v.sleep_are x) ∙ ground arith in
    let checked = v.checked x (ground (arith, here)) nonzero in
    record {
      is_initialized = v.is_initialized;
      self_nonzero = v.self_nonzero;
      has_quantum = v.has_quantum;
      size = v.size;
      counted = v.counted;
      once = v.once;
      next_id_from = v.next_id_from;
      next_id_to = v.next_id_to;
      idle_in = v.idle_in;
      checked = λ a e h. v.checked a e (λ z. ground (arith, e, z));
      floating = λ h. (floats-sleeping s x here checked).0;
      ids = v.ids;
      ready_links = v.ready_links;
      ready_last = v.ready_last;
      ready_distinct = v.ready_distinct;
      ready_are = λ a. ready_woken a (ℕ_discrete a x);
      sleep_links = links;
      sleep_distinct = v.sleep_distinct.1;
      sleep_are = λ a. sleep_woken a (ℕ_discrete a x);
      sleep_ordered = Ordered-lower (wake_of s) (wake_of s x) xs v.sleep_ordered.1;
    }
  where
    ready_woken : (a : ℕ) → Dec (a ≡ x) → has rs a ≡ in_ready s x a
    ready_woken a (yes e) = rw e (ground (arith, v.sleep_are x, v.ready_are x))
    ready_woken a (no h) = ground (arith, v.ready_are a, h)

    sleep_woken : (a : ℕ) → Dec (a ≡ x) → has xs a ≡ in_sleep s x a
    sleep_woken a (yes e) = rw e (v.sleep_distinct.0 ∙ ground arith)
    sleep_woken a (no h) = ground (arith, v.sleep_are a, h)

pub wake_first-IsValid :
    (s : Sched) (x : ℕ) (xs : List ℕ) {rs : List ℕ}
    → IsValid s rs (x ∷ xs)
    → IsValid (wake_first s) (rs ++ x ∷ []) xs
unfolding wake_first has
wake_first-IsValid s x xs {rs} w =
    let v = w.queues in
    let (at, nonzero, links) = v.sleep_links in
    let here : in_sleep s 0 x ≡ true = sym (v.sleep_are x) ∙ ground arith in
    let checked = v.checked x (ground (arith, here)) nonzero in
    let works = (floats-sleeping s x here checked).1 in
    subst (λ a. IsValid (ready_push (record s { sleep_head = next_of s a }) a) (rs ++ x ∷ []) xs)
      (sym at)
      (ready_push-IsValid (record s { sleep_head = next_of s x }) x (Standing-woken s x xs v)
        nonzero works w.current_in)
