-- ===== src/Sched/Push.antt =====
-- ready_push of kernel/core/sched_core.c keeps the invariant.
use utamo_os.Common.{
  ℕ, ◌≡◌, ◌≢◌, refl, sym, ap, ◌∙◌, true, false, not, ◌&&◌, ◌||◌, List, [], ◌∷◌, ◌++◌, ◌==◌,
  if◌then◌else◌, arith,
}
use native.Mathlib.Decide.{ℕ_discrete}
use utamo_os.Sched.State.{Task, Sched, ready, sleeping}
use utamo_os.Sched.Validate.{check_task}
use utamo_os.Sched.Run.{ready_push}
use utamo_os.Sched.Links.{
  has, Distinct, Linked, last_or, has-last_or, has-append, Distinct-append, Linked-append,
  Linked-frame, Linked-redirect, Linked-last_or,
}
use utamo_os.Sched.Valid.{
  is_task, next_of, wake_of, Ordered, in_ready, in_sleep, check_floating, Standing, IsValid, Asks,
  Ordered-frame,
}

abbrev pushed : Task → Task
pushed task = record task { next = 0; state = ready; wake_tick = 0 }

module _ (s : Sched) (t : ℕ) where
  store_self : s.ready_tail ≢ t → (ready_push s t).store t ≡ pushed (s.store t)
  unfolding ready_push
  store_self h = ground arith

  store_empty : (a : ℕ) → s.ready_tail ≡ 0 → a ≢ t → (ready_push s t).store a ≡ s.store a
  unfolding ready_push
  store_empty a e h = ground arith

  store_tail :
      s.ready_tail ≢ t
      → s.ready_tail ≢ 0
      → (ready_push s t).store s.ready_tail ≡ record (s.store s.ready_tail) { next = t }
  unfolding ready_push
  store_tail h e = ground arith

  store_other : (a : ℕ) → a ≢ t → a ≢ s.ready_tail → (ready_push s t).store a ≡ s.store a
  unfolding ready_push
  store_other a h e = ground arith

-- What the store has afterwards, for any claim on an address and its task.
store-ready_push :
    (P : ℕ → Task → Type 0) (s : Sched) (t : ℕ)
    → s.ready_tail ≢ t
    → P t (pushed (s.store t))
    → (s.ready_tail ≢ 0 → P s.ready_tail (record (s.store s.ready_tail) { next = t }))
    → ((a : ℕ) → a ≢ t → P a (s.store a))
    → (a : ℕ) → P a ((ready_push s t).store a)
store-ready_push P s t h at_t at_tail at_other a = elim (ℕ_discrete a t) [
  | yes here ↦ rw (here, store_self s t h) at_t
  | no other ↦ elim (ℕ_discrete s.ready_tail 0) [
    | yes empty ↦ rw (store_empty s t a empty other) (at_other a other)
    | no full ↦ elim (ℕ_discrete a s.ready_tail) [
      | yes last ↦ rw (last, store_tail s t h full) (at_tail full)
      | no inner ↦ rw (store_other s t a other inner) (at_other a other)
    ]
  ]
]

last-ne : (rs : List ℕ) (t : ℕ) → t ≢ 0 → has rs t ≡ false → last_or 0 rs ≢ t
last-ne [] t h e eq = h (sym eq)
last-ne (x ∷ xs) t h e eq = ground (arith, eq, e, has-last_or x xs)

pub has_last : (xs : List ℕ) (t : ℕ) → last_or 0 xs ≡ t → t ≢ 0 → has xs t ≡ true
has_last [] t e h = absurd (h (sym e))
has_last (x ∷ xs) t e h = rw (← e) (has-last_or x xs)

module _ (s : Sched) (t : ℕ) {rs ss : List ℕ} (v : Standing s t rs ss) (nonzero : t ≢ 0)
    (work : t ≢ s.idle) where
  tail-ne : s.ready_tail ≢ t
  tail-ne eq = last-ne rs t nonzero (ground (arith, v.ready_are t)) (v.ready_last ∙ eq)

  tail_in : s.ready_tail ≢ 0 → in_ready s t s.ready_tail ≡ true
  tail_in h = sym (v.ready_are s.ready_tail) ∙ has_last rs s.ready_tail v.ready_last h

  check_env : (a : ℕ) (task : Task) → check_task (ready_push s t) a task ≡ check_task s a task
  unfolding check_task ready_push
  check_env a task = refl

  check_next :
      (a n : ℕ)
      → check_task s a (s.store a) ≡ true
      → (s.store a).state ≡ ready
      → a ≢ s.idle
      → check_task s a (record (s.store a) { next = n }) ≡ true
  unfolding check_task
  check_next a n e r i = ground arith

  check_pushed :
      check_floating s t ≡ true
      → check_task s t (record (s.store t) { next = 0; state = ready; wake_tick = 0 }) ≡ true
  unfolding check_task
  check_pushed e = ground arith

  all :
      (P : ℕ → Task → Type 0)
      → P t (pushed (s.store t))
      → (s.ready_tail ≢ 0 → P s.ready_tail (record (s.store s.ready_tail) { next = t }))
      → ((a : ℕ) → a ≢ t → P a (s.store a))
      → (a : ℕ) → P a ((ready_push s t).store a)
  all P = store-ready_push P s t tail-ne

  checked_after :
      (a : ℕ) → is_task s a ≡ true → check_task (ready_push s t) a ((ready_push s t).store a) ≡ true
  checked_after =
      all (λ a task. is_task s a ≡ true → check_task (ready_push s t) a task ≡ true)
        (λ e. rw (check_env t) (check_pushed (v.floating nonzero)))
        (λ h e. rw (check_env s.ready_tail) (
          check_next s.ready_tail t (v.checked s.ready_tail e tail-ne) (ground (arith, tail_in h))
            (ground (arith, tail_in h))))
        (λ a other e. rw (check_env a) (v.checked a e other))

  id_after : (a : ℕ) → ((ready_push s t).store a).id ≡ (s.store a).id
  id_after = all (λ a task. task.id ≡ (s.store a).id) refl (λ h. refl) (λ a h. refl)

  wake_after : (a : ℕ) → a ≢ t → wake_of (ready_push s t) a ≡ wake_of s a
  wake_after =
      all (λ a task. a ≢ t → task.wake_tick ≡ wake_of s a) (λ h. absurd (h refl)) (λ h e. refl)
        (λ a h e. refl)

  next_after : (a : ℕ) → a ≢ t → a ≢ s.ready_tail → next_of (ready_push s t) a ≡ next_of s a
  next_after a h e = ap (λ task. task.next) (store_other s t a h e)

  ready_after : (a : ℕ) → in_ready (ready_push s t) 0 a ≡ (in_ready s t a || t == a)
  unfolding ready_push
  ready_after =
      all
        (λ a task.
          (is_task s a && not (a == s.idle) && task.state == ready && not (a == 0))
          ≡ (in_ready s t a || t == a))
        (ground (arith, v.floating nonzero)) (λ h. ground (arith, tail_in h)) (λ a h. ground arith)

  sleep_after : (a : ℕ) → in_sleep (ready_push s t) 0 a ≡ in_sleep s t a
  unfolding ready_push
  sleep_after =
      all (λ a task. (is_task s a && task.state == sleeping && not (a == 0)) ≡ in_sleep s t a)
        (ground arith) (λ h. ground (arith, tail_in h)) (λ a h. ground arith)

  head_after : (ready_push s t).ready_head ≡ (if s.ready_tail == 0 then t else s.ready_head)
  unfolding ready_push
  head_after = refl

  next_self : next_of (ready_push s t) t ≡ 0
  next_self = ap (λ task. task.next) (store_self s t tail-ne)

  next_tail : s.ready_tail ≢ 0 → next_of (ready_push s t) s.ready_tail ≡ t
  next_tail h = ap (λ task. task.next) (store_tail s t tail-ne h)

  not-has-t : has rs t ≡ false
  not-has-t = ground (arith, v.ready_are t)

  sleeper_apart : (a : ℕ) → has ss a ≡ true → (a ≢ t) × (a ≢ s.ready_tail)
  sleeper_apart a h =
      let asleep : in_sleep s t a ≡ true = sym (v.sleep_are a) ∙ h in
      (
        λ e. ground (arith, asleep, e),
        λ e. ground (arith, asleep, e, tail_in (λ z. ground (arith, asleep, e, z))),
      )

  links_after :
      (xs : List ℕ)
      → last_or 0 xs ≡ s.ready_tail
      → has xs t ≡ false
      → Distinct xs
      → Linked (next_of s) s.ready_head xs 0
      → Linked (next_of (ready_push s t)) (ready_push s t).ready_head (xs ++ t ∷ []) 0
  unfolding has
  links_after [] e h d l =
      let empty : (s.ready_tail == 0) ≡ true = ground (arith, e) in
      rw (head_after, empty) (refl, nonzero, next_self)
  links_after (x ∷ xs) e h d l =
      let full : s.ready_tail ≢ 0 = λ z. Linked-last_or (next_of s) s.ready_head x xs 0 l (e ∙ z) in
      let some_ready : (s.ready_tail == 0) ≡ false = ground (arith, full) in
      rw (head_after, some_ready)
        (Linked-append (next_of (ready_push s t)) s.ready_head (x ∷ xs) (t ∷ []) t 0
          (Linked-redirect (next_of s) (next_of (ready_push s t)) s.ready_head x xs 0 t d
            (λ a e' other.
              next_after a (λ same. ground (arith, e', same, h)) (λ same. other (same ∙ sym e)))
            (rw e (next_tail full)) l)
          (refl, nonzero, next_self))

  sleep_links_after : Linked (next_of (ready_push s t)) s.sleep_head ss 0
  sleep_links_after =
      Linked-frame (next_of s) (next_of (ready_push s t)) s.sleep_head ss 0
        (λ a h. next_after a (sleeper_apart a h).0 (sleeper_apart a h).1) v.sleep_links

  Ordered-after : Ordered (wake_of (ready_push s t)) 0 ss
  Ordered-after =
      Ordered-frame (wake_of s) (wake_of (ready_push s t)) 0 ss
        (λ a h. wake_after a (sleeper_apart a h).0) v.sleep_ordered

  last_after : (xs : List ℕ) (d : ℕ) → last_or d (xs ++ t ∷ []) ≡ t
  last_after [] d = refl
  last_after (x ∷ xs) d = last_after xs x

pub ready_push-Asks : (s : Sched) (t : ℕ) → Asks (ready_push s t)
unfolding ready_push
ready_push-Asks s t e = ground (arith, e)

-- A task in no queue goes to the end of the ready ones.
pub ready_push-Standing :
    (s : Sched) (t : ℕ) {rs ss : List ℕ}
    → Standing s t rs ss
    → t ≢ 0
    → t ≢ s.idle
    → Standing (ready_push s t) 0 (rs ++ t ∷ []) ss
unfolding ready_push has
ready_push-Standing s t {rs} {ss} v h w = record {
  is_initialized = v.is_initialized;
  self_nonzero = v.self_nonzero;
  has_quantum = v.has_quantum;
  size = v.size;
  counted = v.counted;
  once = v.once;
  next_id_from = v.next_id_from;
  next_id_to = v.next_id_to;
  idle_in = v.idle_in;
  checked = λ a e z. checked_after s t v h w a e;
  floating = λ e. absurd (e refl);
  ids = λ a b ea eb e. v.ids a b ea eb (sym (id_after s t v h w a) ∙ e ∙ id_after s t v h w b);
  ready_links =
      links_after s t v h w rs v.ready_last (not-has-t s t v h w) v.ready_distinct v.ready_links;
  ready_last = last_after s t v h w rs 0;
  ready_distinct =
      Distinct-append rs (t ∷ []) v.ready_distinct (refl, tt)
        (λ a e. ground (arith, e, not-has-t s t v h w));
  ready_are = λ a. ground (arith, has-append rs (t ∷ []) a, v.ready_are a, ready_after s t v h w a);
  sleep_links = sleep_links_after s t v h w;
  sleep_distinct = v.sleep_distinct;
  sleep_are = λ a. v.sleep_are a ∙ sym (sleep_after s t v h w a);
  sleep_ordered = Ordered-after s t v h w;
}

pub ready_push-IsValid :
    (s : Sched) (t : ℕ) {rs ss : List ℕ}
    → Standing s t rs ss
    → t ≢ 0
    → t ≢ s.idle
    → is_task s s.current ≡ true
    → IsValid (ready_push s t) (rs ++ t ∷ []) ss
unfolding ready_push
ready_push-IsValid s t v h w e = record {
  queues = ready_push-Standing s t v h w;
  current_in = e;
  asks = ready_push-Asks s t;
}
