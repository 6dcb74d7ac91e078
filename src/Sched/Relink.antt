-- ===== src/Sched/Relink.antt =====
-- A write through a link of the sleepers of kernel/core/sched_core.c.
use utamo_os.Common.{ℕ, ◌≡◌, ◌≢◌, refl, sym, ap, ◌∙◌, true, false, List, [], ◌∷◌, ◌==◌, arith}
use mathlib.Core.Path.{subst}
use native.Mathlib.Decide.{ℕ_discrete}
use utamo_os.Sched.State.{Task, Sched, sleeping}
use utamo_os.Sched.Validate.{check_task}
use utamo_os.Sched.Links.{
  has, Distinct, Linked, last_or, Linked-frame, Linked-redirect, Linked-last_or,
}
use utamo_os.Sched.Valid.{
  is_task, next_of, wake_of, Ordered, Ordered-frame, in_ready, in_sleep, check_floating, Standing,
}
use utamo_os.Sched.Wait.{read_link, write_link}

-- The links before the one that is written lead to the new task.
pub Linked-write_link :
    (s : Sched) (xs : List ℕ) (mid n : ℕ)
    → Distinct xs
    → Linked (next_of s) s.sleep_head xs mid
    → Linked
        (next_of (write_link s (last_or 0 xs) n))
        (write_link s (last_or 0 xs) n).sleep_head
        xs
        n
Linked-write_link s [] mid n d l = refl
Linked-write_link s (x ∷ xs) mid n d l =
    let link = last_or x xs in
    let nonzero : (link == 0) ≡ false =
      ground (arith, Linked-last_or (next_of s) s.sleep_head x xs mid l) in
    let head : (write_link s link n).sleep_head ≡ s.sleep_head = rw nonzero refl in
    subst (λ h. Linked (next_of (write_link s link n)) h (x ∷ xs) n) (sym head)
      (Linked-redirect (next_of s) (next_of (write_link s link n)) s.sleep_head x xs mid n d
        (λ a e other. ground (arith, other)) (ground (arith, nonzero)) l)

pub next-last_or :
    (next : ℕ → ℕ) (head x : ℕ) (xs : List ℕ) (end : ℕ)
    → Linked next head (x ∷ xs) end
    → next (last_or x xs) ≡ end
next-last_or next head x [] end (at, nonzero, rest) = rest
next-last_or next head x (y ∷ xs) end (at, nonzero, rest) = next-last_or next (next x) y xs end rest

-- What the link behind some tasks points to.
pub read_link-last_or :
    (s : Sched) (xs : List ℕ) (mid : ℕ)
    → Linked (next_of s) s.sleep_head xs mid
    → read_link s (last_or 0 xs) ≡ mid
read_link-last_or s [] mid l = l
read_link-last_or s (x ∷ xs) mid l =
    let link = last_or x xs in
    let nonzero : (link == 0) ≡ false =
      ground (arith, Linked-last_or (next_of s) s.sleep_head x xs mid l) in
    rw nonzero (next-last_or (next_of s) s.sleep_head x xs mid l)

-- Everything but the links of the sleepers is as before.
store_cases :
    (P : ℕ → Task → Type 0) (s : Sched) (link n : ℕ)
    → (link ≢ 0 → P link (record (s.store link) { next = n }))
    → ((a : ℕ) → P a (s.store a))
    → (a : ℕ) → P a ((write_link s link n).store a)
store_cases P s link n at_link others a = elim (ℕ_discrete link 0) [
  | yes first ↦ let e : (link == 0) ≡ true = ground (arith, first) in rw e (others a)
  | no later ↦
      let e : (link == 0) ≡ false = ground (arith, later) in
      elim (ℕ_discrete a link) [
        | yes here ↦
            let same : (link == link) ≡ true = ground arith in rw (e, here, same) (at_link later)
        | no other ↦
            let apart : (a == link) ≡ false = ground (arith, other) in rw (e, apart) (others a)
      ]
]

check-next_sleeping :
    (s : Sched) (a n : ℕ)
    → check_task s a (s.store a) ≡ true
    → (s.store a).state ≡ sleeping
    → check_task s a (record (s.store a) { next = n }) ≡ true
unfolding check_task
check-next_sleeping s a n e st = ground (arith, e, st)

module _ (s : Sched) (link n out out' : ℕ) {rs ss : List ℕ} (v : Standing s out rs ss)
    (asleep : link ≢ 0 → (in_sleep s 0 link ≡ true) × (link ≢ out))
    (checks_out : out ≢ out' → is_task s out ≡ true → check_task s out (s.store out) ≡ true)
    (others : (a : ℕ)
      → a ≢ out'
      → is_task s a ≡ true
      → a ≢ out
      → check_task s a (s.store a) ≡ true) where
  abbrev s' : Sched
  s' = write_link s link n

  kept :
      (a : ℕ)
      → ((s'.store a).id ≡ (s.store a).id)
        × ((s'.store a).state ≡ (s.store a).state)
        × ((s'.store a).wake_tick ≡ (s.store a).wake_tick)
  kept =
      store_cases
        (λ a task.
          (task.id ≡ (s.store a).id)
          × (task.state ≡ (s.store a).state)
          × (task.wake_tick ≡ (s.store a).wake_tick))
        s link n (λ h. (refl, refl, refl)) (λ a. (refl, refl, refl))

  checked_before : (a : ℕ) → is_task s a ≡ true → a ≢ out' → check_task s a (s.store a) ≡ true
  checked_before a e h = elim (ℕ_discrete a out) [
    | yes same ↦ rw same (checks_out (λ z. h (same ∙ z)) (ap (is_task s) (sym same) ∙ e))
    | no other ↦ others a h e other
  ]

  check_env : (a : ℕ) (task : Task) → check_task s' a task ≡ check_task s a task
  unfolding check_task
  check_env a task = refl

  checked_after : (a : ℕ) → is_task s a ≡ true → a ≢ out' → check_task s' a (s'.store a) ≡ true
  checked_after a e h = rw (check_env a (s'.store a)) (
      store_cases (λ a task. is_task s a ≡ true → a ≢ out' → check_task s a task ≡ true) s link n
        (λ z e' h'.
          check-next_sleeping s link n (checked_before link e' h') (ground (arith, (asleep z).0)))
        (λ a e' h'. checked_before a e' h') a e h)

  next_kept : (a : ℕ) → a ≢ link → next_of s' a ≡ next_of s a
  next_kept a h = ground (arith, h)

  not_ready : link ≢ 0 → has rs link ≡ false
  not_ready h = ground (arith, v.ready_are link, (asleep h).0)

  not_link : (a : ℕ) → has rs a ≡ true → a ≢ link
  not_link a e same =
      ground
        (arith, e, ap (has rs) same, not_ready (λ z. ground (arith, e, v.ready_are a, same, z)))

  pub Standing-write_link :
      {ss' : List ℕ}
      → ((a : ℕ) → in_ready s out a ≡ in_ready s out' a)
      → (out' ≢ 0 → check_floating s' out' ≡ true)
      → Linked (next_of s') s'.sleep_head ss' 0
      → Distinct ss'
      → ((a : ℕ) → has ss' a ≡ in_sleep s out' a)
      → Ordered (wake_of s) 0 ss'
      → Standing s' out' rs ss'
  Standing-write_link {ss'} same_ready floats links distinct are ordered = record {
    is_initialized = v.is_initialized;
    self_nonzero = v.self_nonzero;
    has_quantum = v.has_quantum;
    size = v.size;
    counted = v.counted;
    once = v.once;
    next_id_from = v.next_id_from;
    next_id_to = v.next_id_to;
    idle_in = v.idle_in;
    checked = checked_after;
    floating = floats;
    ids = λ a b ea eb e. v.ids a b ea eb (sym (kept a).0 ∙ e ∙ (kept b).0);
    ready_links =
        Linked-frame (next_of s) (next_of s') s.ready_head rs 0 (λ a e. next_kept a (not_link a e))
          v.ready_links;
    ready_last = v.ready_last;
    ready_distinct = v.ready_distinct;
    ready_are = λ a. v.ready_are a ∙ same_ready a ∙ ground (arith, kept a);
    sleep_links = links;
    sleep_distinct = distinct;
    sleep_are = λ a. are a ∙ ground (arith, kept a);
    sleep_ordered = Ordered-frame (wake_of s) (wake_of s') 0 ss' (λ a e. (kept a).2) ordered;
  }
