-- ===== src/Sched/Sleep.antt =====
-- sched_core_sleep_current of kernel/core/sched_core.c puts the task behind those that wake no later.
use utamo_os.Common.{
  ℕ, zero, suc, ◌+◌, ◌-◌, ◌≤◌, ◌<◌, ◌≡◌, ◌≢◌, refl, sym, ap, ◌∙◌, true, false, not, ◌||◌, List, [],
  ◌∷◌, ◌++◌, ltb, leb, ◌==◌, length, arith, Bool-cases, inl, inr, u64_max, IfSome, IfSome-guard,
}
use mathlib.Core.Path.{subst}
use native.Mathlib.Decide.{ℕ_discrete}
use utamo_os.Sched.State.{Task, Sched, max_tasks, running, sleeping, write}
use utamo_os.Sched.Validate.{check_task}
use utamo_os.Sched.Links.{
  has, Distinct, Linked, last_or, has-append, Linked-append, Linked-frame, Linked-split,
}
use utamo_os.Sched.Valid.{
  next_of, wake_of, Ordered, Ordered-frame, in_ready, in_sleep, check_floating, Standing, IsValid,
}
use utamo_os.Sched.Accept.{length-sleepers}
use utamo_os.Sched.Revise.{revised, Standing-revised}
use utamo_os.Sched.Wait.{
  read_link, write_link, find_later, go_to_sleep, current_can_wait, sched_core_sleep_current,
}
use utamo_os.Sched.Choose.{not-has-running, Standing-floating, floating-current}
use utamo_os.Sched.Time.{due, later}
use utamo_os.Sched.Tick.{due_congr}
use utamo_os.Sched.Push.{has_last}
use utamo_os.Sched.Relink.{Linked-write_link, read_link-last_or, Standing-write_link}

find_later-last_or :
    (fuel : ℕ) (s : Sched) (deadline link : ℕ) (xs : List ℕ)
    → length xs ≤ fuel
    → Linked (next_of s) (read_link s link) xs 0
    → find_later fuel s deadline link ≡ last_or link (due (wake_of s) deadline xs)
unfolding find_later
find_later-last_or zero s deadline link [] h l = refl
find_later-last_or zero s deadline link (x ∷ xs) h l = absurd (omega arith)
find_later-last_or (suc fuel) s deadline link [] h l = rw l refl
find_later-last_or (suc fuel) s deadline link (x ∷ xs) h (at, nonzero, rest) =
    let full : (x == 0) ≡ false = ground (arith, nonzero) in
    let ih = find_later-last_or fuel s deadline x xs (omega arith) (rw full rest) in
    elim (Bool-cases (leb (wake_of s x) deadline)) [
      | inl earlier ↦ rw (at, full, earlier) ih
      | inr after ↦ rw (at, full, after) refl
    ]

due-append-later : (wake : ℕ → ℕ) (d : ℕ) (xs : List ℕ) → due wake d xs ++ later wake d xs ≡ xs
due-append-later wake d [] = refl
due-append-later wake d (x ∷ xs) = elim (Bool-cases (leb (wake x) d)) [
  | inl earlier ↦ rw earlier (ap (λ ys. x ∷ ys) (due-append-later wake d xs))
  | inr after ↦ rw after refl
]

-- A deadline takes its place.
Ordered-insert :
    (wake : ℕ → ℕ) (low d t : ℕ) (xs : List ℕ)
    → wake t ≡ d
    → low ≤ d
    → Ordered wake low xs
    → Ordered wake low (due wake d xs ++ t ∷ later wake d xs)
Ordered-insert wake low d t [] e h o = (rw e h, tt)
Ordered-insert wake low d t (x ∷ xs) e h (here, rest) = elim (Bool-cases (leb (wake x) d)) [
  | inl earlier ↦
      rw earlier (here, Ordered-insert wake (wake x) d t xs e (ground (arith, earlier)) rest)
  | inr after ↦ rw after (rw e h, (ground (arith, e, after), rest))
]

-- A new address between two lists
pub has_middle : (xs ys : List ℕ) (t a : ℕ) → has (xs ++ t ∷ ys) a ≡ (has (xs ++ ys) a || t == a)
unfolding has
has_middle [] ys t a = ground arith
has_middle (x ∷ xs) ys t a = ground (arith, has_middle xs ys t a)

Distinct-middle :
    (xs ys : List ℕ) (t : ℕ)
    → Distinct (xs ++ ys)
    → has (xs ++ ys) t ≡ false
    → Distinct (xs ++ t ∷ ys)
unfolding has
Distinct-middle [] ys t d h = (h, d)
Distinct-middle (x ∷ xs) ys t (here, rest) h = (
  has_middle xs ys t x ∙ ground (arith, here, h),
  Distinct-middle xs ys t rest (ground (arith, h)),
)

pub Distinct-left : (xs ys : List ℕ) → Distinct (xs ++ ys) → Distinct xs
unfolding has
Distinct-left [] ys d = tt
Distinct-left (x ∷ xs) ys (here, rest) =
    (ground (arith, here, has-append xs ys x), Distinct-left xs ys rest)

-- The last of the first list is not in the second.
pub last-not-has :
    (xs ys : List ℕ) (a : ℕ) → Distinct (xs ++ ys) → has ys a ≡ true → a ≢ 0 → a ≢ last_or 0 xs
unfolding has
last-not-has [] ys a d e z same = z same
last-not-has (x ∷ []) ys a d e z same = ground (arith, d.0, ap (has ys) same, e)
last-not-has (x ∷ y ∷ xs) ys a d e z same = last-not-has (y ∷ xs) ys a d.1 e z same

module _ (s : Sched) (d : ℕ) {rs ss : List ℕ} (w : IsValid s rs ss) (works : s.current ≢ s.idle)
    (runs : ((s.store s.current).state == running) ≡ true)
    (depth : (s.store s.current).preempt_depth ≡ 0) (ahead : s.now < d) where
  abbrev c : ℕ
  c = s.current

  abbrev t1 : Task
  t1 = record (s.store c) { wake_tick = d; state = sleeping }

  abbrev m : Sched
  m = write s c t1

  abbrev v : Standing s 0 rs ss
  v = w.queues

  nonzero : c ≢ 0
  nonzero z = ground (arith, w.current_in, z)

  known : check_task s c (s.store c) ≡ true
  known = v.checked c w.current_in nonzero

  floats : check_floating s c ≡ true
  floats = floating-current s w.current_in known

  not_ready : has rs c ≡ false
  not_ready = (not-has-running s c v runs).0

  not_asleep : has ss c ≡ false
  not_asleep = (not-has-running s c v runs).1

  marked : Standing m c rs ss
  unfolding check_task
  marked =
      Standing-revised s c t1 s.current s.reschedule s.ticks s.switches c c
        (Standing-floating s c v not_ready not_asleep floats) refl not_ready not_asleep
        (ground arith) (ground arith) (λ a e h. refl) (λ h. absurd (h refl))
        (λ a e h h'. v.checked a e (λ z. ground (arith, e, z))) (λ h. ground (arith, floats))

  abbrev before : List ℕ
  before = due (wake_of m) d ss

  abbrev behind : List ℕ
  behind = later (wake_of m) d ss

  both : before ++ behind ≡ ss
  both = due-append-later (wake_of m) d ss

  parts : (mid : ℕ) × Linked (next_of m) m.sleep_head before mid × Linked (next_of m) mid behind 0
  parts = Linked-split (next_of m) m.sleep_head before behind 0 (rw both marked.sleep_links)

  abbrev mid : ℕ
  mid = parts.0

  abbrev link : ℕ
  link = last_or 0 before

  link_is : find_later max_tasks m d 0 ≡ link
  link_is = find_later-last_or max_tasks m d 0 ss (length-sleepers s w) marked.sleep_links

  link_reads : read_link m link ≡ mid
  link_reads = read_link-last_or m before mid parts.1

  abbrev t2 : Task
  t2 = record (m.store c) { next = mid }

  abbrev m2 : Sched
  m2 = revised m c t2 s.current true s.ticks s.switches

  placed : Standing m2 c rs ss
  unfolding check_task
  placed =
      Standing-revised m c t2 s.current true s.ticks s.switches c c marked refl not_ready not_asleep
        (ground arith) (ground arith) (λ a e h. refl) (λ h. absurd (h refl))
        (λ a e h h'. marked.checked a e h') (λ h. ground (arith, marked.floating nonzero))

  has-before : (a : ℕ) → has before a ≡ true → has ss a ≡ true
  has-before a e = ap (λ xs. has xs a) (sym both) ∙ ground (arith, has-append before behind a, e)

  has-behind : (a : ℕ) → has behind a ≡ true → has ss a ≡ true
  has-behind a e = ap (λ xs. has xs a) (sym both) ∙ ground (arith, has-append before behind a, e)

  apart : (a : ℕ) → has ss a ≡ true → a ≢ c
  apart a e same = ground (arith, ap (has ss) same, not_asleep, e)

  next_placed : (a : ℕ) → a ≢ c → next_of m2 a ≡ next_of m a
  next_placed a h = ground (arith, h)

  link_asleep : link ≢ 0 → (in_sleep m2 0 link ≡ true) × (link ≢ c)
  link_asleep h =
      let inside = has-before link (has_last before link refl h) in
      (ground (arith, inside, placed.sleep_are link, h), apart link inside)

  link_apart : c ≢ link
  link_apart e = elim (ℕ_discrete link 0) [
    | yes first ↦ nonzero (e ∙ first)
    | no later' ↦ (link_asleep later').1 (sym e)
  ]

  wake_same : (a : ℕ) → wake_of m2 a ≡ wake_of m a
  wake_same a = elim (ℕ_discrete a c) [
    | yes same ↦ rw same (ground arith)
    | no other ↦ ground (arith, other)
  ]

  sleep_after : (a : ℕ) → (has ss a || c == a) ≡ in_sleep m2 0 a
  sleep_after a = elim (ℕ_discrete a c) [
    | yes same ↦ rw same (ground (arith, w.current_in))
    | no other ↦ ground (arith, placed.sleep_are a, other)
  ]

  known_after : check_task m2 c (m2.store c) ≡ true
  unfolding check_task
  known_after = ground (arith, known, works, runs, depth, ahead)

  same_ready : (a : ℕ) → in_ready m2 c a ≡ in_ready m2 0 a
  same_ready a = elim (ℕ_discrete a c) [
    | yes same ↦ rw same (ground arith)
    | no other ↦ ground (arith, other)
  ]

  distinct : Distinct (before ++ behind)
  distinct = rw both v.sleep_distinct

  behind_links : Linked (next_of (write_link m2 link c)) mid behind 0
  behind_links =
      Linked-frame (next_of m) (next_of (write_link m2 link c)) mid behind 0
        (λ a e.
          let known_a : in_sleep s 0 a ≡ true = sym (v.sleep_are a) ∙ has-behind a e in
          let no_link = last-not-has before behind a distinct e (λ z. ground (arith, known_a, z)) in
          ground (arith, no_link, apart a (has-behind a e)))
        parts.2

  before_links : Linked (next_of (write_link m2 link c)) (write_link m2 link c).sleep_head before c
  before_links = Linked-write_link m2 before mid c (Distinct-left before behind distinct) (
      Linked-frame (next_of m) (next_of m2) m.sleep_head before mid
        (λ a e. next_placed a (apart a (has-before a e))) parts.1)

  c-link : next_of (write_link m2 link c) c ≡ mid
  c-link = ground (arith, link_apart)

  inserted : Standing (write_link m2 link c) 0 rs (before ++ c ∷ behind)
  inserted =
      Standing-write_link m2 link c c 0 placed link_asleep (λ h e. known_after)
        (λ a h e h'. placed.checked a e h') same_ready (λ z. absurd (z refl))
        (Linked-append (next_of (write_link m2 link c)) (write_link m2 link c).sleep_head before
          (c ∷ behind) c 0 before_links (refl, nonzero, rw c-link behind_links))
        (Distinct-middle before behind c distinct (rw both not_asleep))
        (λ a. has_middle before behind c a ∙ ap (λ xs. has xs a || c == a) both ∙ sleep_after a)
        (Ordered-frame (wake_of m) (wake_of m2) 0 (before ++ c ∷ behind) (λ a e. wake_same a)
          (Ordered-insert (wake_of m) 0 d c ss (ground arith) (omega arith) marked.sleep_ordered))

  sleeps : IsValid (write_link m2 link c) rs (before ++ c ∷ behind)
  sleeps = record { queues = inserted; current_in = w.current_in; asks = λ e. refl }

  -- The core, for a link and what it points to.
  abbrev placed_at : ℕ → ℕ → Sched
  placed_at l n = record (write_link (write m c (record (m.store c) { next = n })) l c) {
    reschedule = true;
  }

  go_to_sleep_lem : go_to_sleep s d ≡ write_link m2 link c
  unfolding go_to_sleep
  go_to_sleep_lem = ap (λ l. placed_at l (read_link m l)) link_is ∙ ap (placed_at link) link_reads

  go_to_sleep-IsValid :
      IsValid (go_to_sleep s d) rs (due (wake_of s) d ss ++ c ∷ later (wake_of s) d ss)
  go_to_sleep-IsValid =
      let (same_due, same_later) =
        due_congr (wake_of s) (wake_of m) d ss (λ a e. ground (arith, apart a e)) in
      let order : before ++ c ∷ behind ≡ due (wake_of s) d ss ++ c ∷ later (wake_of s) d ss =
        rw (same_due, same_later) refl in
      subst (λ u. IsValid u rs (due (wake_of s) d ss ++ c ∷ later (wake_of s) d ss))
        (sym go_to_sleep_lem) (subst (λ xs. IsValid (write_link m2 link c) rs xs) order sleeps)

-- On a valid state, a successful sched_core_sleep_current leaves a valid state in which the current
-- task waits among the sleepers, behind those whose deadline is not after its own and before the
-- others; the ready queue stays.
pub sched_core_sleep_current-IsValid :
    (s : Sched) (delay : ℕ) {rs ss : List ℕ}
    → IsValid s rs ss
    → IfSome
        (λ s'.
          IsValid s' rs (
            due (wake_of s) (s.now + delay) ss ++ s.current ∷ later (wake_of s) (s.now + delay) ss))
        (sched_core_sleep_current s delay)
unfolding sched_core_sleep_current current_can_wait
sched_core_sleep_current-IsValid s delay {rs} {ss} w =
    IfSome-guard
      (λ s'.
        IsValid s' rs
          (due (wake_of s) (s.now + delay) ss ++ s.current ∷ later (wake_of s) (s.now + delay) ss))
      (not (current_can_wait s) || delay == 0 || ltb (u64_max - s.now) delay)
      (go_to_sleep s (s.now + delay))
      (λ e.
        go_to_sleep-IsValid s (s.now + delay) w (λ z. ground (arith, e, z)) (ground (arith, e))
          (ground (arith, e)) (ground (arith, e)))
