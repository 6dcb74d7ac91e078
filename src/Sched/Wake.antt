-- ===== src/Sched/Wake.antt =====
-- sched_core_wake of kernel/core/sched_core.c takes a task from the sleepers, if it is one.
use utamo_os.Common.{
  ℕ, zero, suc, ◌≤◌, ◌≡◌, ◌≢◌, refl, sym, ap, ◌∙◌, true, false, not, ◌&&◌, ◌||◌, List, [], ◌∷◌,
  ◌++◌, ◌==◌, if◌then◌else◌, length, arith, Bool-cases, inl, inr, IfSome, IfSome-guard,
}
use mathlib.Core.Path.{subst}
use native.Mathlib.Decide.{ℕ_discrete}
use utamo_os.Sched.State.{Sched, max_tasks, sleeping, blocked, task_slot}
use utamo_os.Sched.Validate.{check_task, sched_core_validate}
use utamo_os.Sched.Links.{
  has, Distinct, Linked, last_or, has-append, Linked-append, Linked-frame, Linked-split,
}
use utamo_os.Sched.Valid.{
  is_task, next_of, wake_of, Ordered, in_ready, in_sleep, check_floating, Standing, IsValid,
}
use utamo_os.Sched.Push.{ready_push-IsValid}
use utamo_os.Sched.Accept.{length-sleepers}
use utamo_os.Sched.Wait.{read_link, write_link, find_task, unlink, sched_core_wake}
use utamo_os.Sched.Run.{ready_push}
use utamo_os.Sched.Choose.{Standing-floating}
use utamo_os.Sched.Push.{has_last}
use utamo_os.Sched.Relink.{Linked-write_link, Standing-write_link}
use utamo_os.Sched.Sleep.{has_middle, Distinct-left, last-not-has}
use utamo_os.Sched.Reap.{is_task-task_slot}

-- The list without an address.
unfoldable pub remove : ℕ → List ℕ → List ℕ
remove t [] = []
remove t (x ∷ xs) = let rest = remove t xs in if x == t then xs else x ∷ rest

split_at :
    (t : ℕ) (xs : List ℕ)
    → has xs t ≡ true
    → (ps : List ℕ) × (bs : List ℕ) × (xs ≡ ps ++ t ∷ bs)
      × (remove t xs ≡ ps ++ bs)
      × (has ps t ≡ false)
unfolding remove has
split_at t [] h = absurd (ground (arith, h))
split_at t (x ∷ xs) h = elim (ℕ_discrete x t) [
  | yes here ↦
      let found : (x == t) ≡ true = ground (arith, here) in
      ([], xs, ap (λ y. y ∷ xs) here, rw found refl, refl)
  | no other ↦
      let apart : (x == t) ≡ false = ground (arith, other) in
      let (ps, bs, whole, rest, none_before) = split_at t xs (ground (arith, h, other)) in
      (
        x ∷ ps,
        bs,
        ap (λ ys. x ∷ ys) whole,
        rw apart (ap (λ ys. x ∷ ys) rest),
        ground (arith, apart, none_before),
      )
]

find_task-last_or :
    (fuel : ℕ) (s : Sched) (t link : ℕ) (ps bs : List ℕ)
    → length (ps ++ t ∷ bs) ≤ fuel
    → has ps t ≡ false
    → Linked (next_of s) (read_link s link) (ps ++ t ∷ bs) 0
    → find_task fuel s t link ≡ last_or link ps
unfolding find_task has
find_task-last_or zero s t link [] bs h n l = absurd (omega arith)
find_task-last_or zero s t link (x ∷ ps) bs h n l = absurd (omega arith)
find_task-last_or (suc fuel) s t link [] bs h n (at, nonzero, rest) = rw at (ground arith)
find_task-last_or (suc fuel) s t link (x ∷ ps) bs h n (at, nonzero, rest) =
    let full : (x == 0) ≡ false = ground (arith, nonzero) in
    let apart : (x == t) ≡ false = ground (arith, n) in
    let ih = find_task-last_or fuel s t x ps bs (omega arith) (ground (arith, n)) (rw full rest) in
    rw (at, apart) ih

Ordered-skip :
    (wake : ℕ → ℕ) (low t : ℕ) (ps bs : List ℕ)
    → Ordered wake low (ps ++ t ∷ bs)
    → Ordered wake low (ps ++ bs)
Ordered-skip wake low t [] [] o = tt
Ordered-skip wake low t [] (b ∷ bs) o = (omega (arith, o.0, o.1.0), o.1.1)
Ordered-skip wake low t (x ∷ ps) bs o = (o.0, Ordered-skip wake (wake x) t ps bs o.1)

-- The distinct parts around an address
Distinct-around :
    (ps bs : List ℕ) (t : ℕ)
    → Distinct (ps ++ t ∷ bs)
    → Distinct (ps ++ bs) × (has (ps ++ bs) t ≡ false)
unfolding has
Distinct-around [] bs t (here, rest) = (rest, here)
Distinct-around (x ∷ ps) bs t (here, rest) =
    let (d, absent) = Distinct-around ps bs t rest in
    (
      (ground (arith, here, has_middle ps bs t x), d),
      ground (arith, absent, here, has_middle ps bs t x),
    )

floats-waiting :
    (s : Sched) (t : ℕ)
    → is_task s t ≡ true
    → ((s.store t).state == blocked || (s.store t).state == sleeping) ≡ true
    → check_task s t (s.store t) ≡ true
    → (check_floating s t ≡ true) × (t ≢ s.idle)
unfolding check_task
floats-waiting s t e st h = (ground (arith, e, st, h), λ z. ground (arith, e, h, st, z))

module _ (s : Sched) (t : ℕ) {rs : List ℕ} (ps bs : List ℕ) (w : IsValid s rs (ps ++ t ∷ bs))
    (none_before : has ps t ≡ false) where
  abbrev v : Standing s 0 rs (ps ++ t ∷ bs)
  v = w.queues

  here : in_sleep s 0 t ≡ true
  here = sym (v.sleep_are t) ∙ has_middle ps bs t t ∙ ground arith

  nonzero : t ≢ 0
  nonzero z = ground (arith, here, z)

  known : check_task s t (s.store t) ≡ true
  known = v.checked t (ground (arith, here)) nonzero

  abbrev link : ℕ
  link = last_or 0 ps

  abbrev n : ℕ
  n = next_of s t

  parts : (mid : ℕ) × Linked (next_of s) s.sleep_head ps mid × Linked (next_of s) mid (t ∷ bs) 0
  parts = Linked-split (next_of s) s.sleep_head ps (t ∷ bs) 0 v.sleep_links

  unlink_is : unlink s t ≡ write_link s link n
  unfolding unlink
  unlink_is =
      ap (λ l. write_link s l n)
        (find_task-last_or max_tasks s t 0 ps bs (length-sleepers s w) none_before v.sleep_links)

  distinct : Distinct (ps ++ bs) × (has (ps ++ bs) t ≡ false)
  distinct = Distinct-around ps bs t v.sleep_distinct

  asleep : (a : ℕ) → has (ps ++ bs) a ≡ true → in_sleep s 0 a ≡ true
  asleep a e = sym (v.sleep_are a) ∙ has_middle ps bs t a ∙ ground (arith, e)

  link_asleep : link ≢ 0 → (in_sleep s 0 link ≡ true) × (link ≢ 0)
  link_asleep h = (asleep link (has-append ps bs link ∙ ground (arith, has_last ps link refl h)), h)

  link_apart : t ≢ link
  link_apart e = elim (ℕ_discrete link 0) [
    | yes first ↦ nonzero (e ∙ first)
    | no later' ↦ ground (arith, ap (has ps) e, none_before, has_last ps link refl later')
  ]

  behind_links : Linked (next_of (write_link s link n)) n bs 0
  behind_links =
      Linked-frame (next_of s) (next_of (write_link s link n)) n bs 0
        (λ a e.
          let inside : has (ps ++ bs) a ≡ true = has-append ps bs a ∙ ground (arith, e) in
          let no_link =
            last-not-has ps bs a distinct.0 e (λ z. ground (arith, asleep a inside, z)) in
          ground (arith, no_link))
        parts.2.2

  before_links : Linked (next_of (write_link s link n)) (write_link s link n).sleep_head ps n
  before_links = Linked-write_link s ps parts.0 n (Distinct-left ps bs distinct.0) parts.1

  sleep_after : (a : ℕ) → has (ps ++ bs) a ≡ in_sleep s t a
  sleep_after a = elim (ℕ_discrete a t) [
    | yes same ↦ rw same (distinct.1 ∙ ground arith)
    | no other ↦ ground (arith, v.sleep_are a, has_middle ps bs t a, other)
  ]

  ready_after : (a : ℕ) → in_ready s 0 a ≡ in_ready s t a
  ready_after a = elim (ℕ_discrete a t) [
    | yes same ↦ rw same (ground (arith, here))
    | no other ↦ ground (arith, other)
  ]

  floats_after : check_floating (write_link s link n) t ≡ true
  floats_after = ground (
    arith,
    (floats-waiting s t (ground (arith, here)) (ground (arith, here)) known).0,
    link_apart,
  )

  unlinked : Standing (write_link s link n) t rs (ps ++ bs)
  unlinked =
      Standing-write_link s link n 0 t v link_asleep (λ h e. absurd (ground (arith, e)))
        (λ a h e h'. v.checked a e h') ready_after (λ z. floats_after)
        (Linked-append (next_of (write_link s link n)) (write_link s link n).sleep_head ps bs n 0
          before_links behind_links)
        distinct.0 sleep_after (Ordered-skip (wake_of s) 0 t ps bs v.sleep_ordered)

  woken : IsValid (ready_push (unlink s t) t) (rs ++ t ∷ []) (ps ++ bs)
  woken =
      subst (λ u. IsValid (ready_push u t) (rs ++ t ∷ []) (ps ++ bs)) (sym unlink_is)
        (ready_push-IsValid (write_link s link n) t unlinked nonzero
          (floats-waiting s t (ground (arith, here)) (ground (arith, here)) known).1 w.current_in)

-- A blocked task
blocked_woken :
    (s : Sched) (t : ℕ) {rs ss : List ℕ}
    → IsValid s rs ss
    → is_task s t ≡ true
    → (s.store t).state ≡ blocked
    → IsValid (ready_push s t) (rs ++ t ∷ []) ss
blocked_woken s t w e st =
    let v = w.queues in
    let nonzero : t ≢ 0 = λ z. ground (arith, e, z) in
    let (floats, works) = floats-waiting s t e (ground (arith, st)) (v.checked t e nonzero) in
    let floating =
      Standing-floating s t v (ground (arith, v.ready_are t, st))
        (ground (arith, v.sleep_are t, st)) floats in
    ready_push-IsValid s t floating nonzero works w.current_in

not-has-remove : (t : ℕ) (xs : List ℕ) → has xs t ≡ false → remove t xs ≡ xs
unfolding has remove
not-has-remove t [] h = refl
not-has-remove t (x ∷ xs) h =
    let apart : (x == t) ≡ false = ground (arith, h) in
    rw apart (ap (λ ys. x ∷ ys) (not-has-remove t xs (ground (arith, h))))

pub sched_core_wake-IsValid :
    (s : Sched) (t : ℕ) {rs ss : List ℕ}
    → IsValid s rs ss
    → IfSome (λ s'. IsValid s' (rs ++ t ∷ []) (remove t ss)) (sched_core_wake s t)
unfolding sched_core_wake
sched_core_wake-IsValid s t {rs} {ss} w =
    let state = (s.store t).state in
    IfSome-guard (λ s'. IsValid s' (rs ++ t ∷ []) (remove t ss))
      (not (sched_core_validate s)
        || task_slot s t == max_tasks
        || (not (state == blocked) && not (state == sleeping)))
      (ready_push (if state == sleeping then unlink s t else s) t)
      (λ e.
        let known = is_task-task_slot s t w.queues.size (ground (arith, e)) in
        elim (Bool-cases (state == sleeping)) [
          | inl sleeps ↦
              let (ps, bs, whole, rest, none_before) =
                split_at t ss (w.queues.sleep_are t ∙ ground (arith, known, sleeps)) in
              let valid : IsValid s rs (ps ++ t ∷ bs) = subst (λ xs. IsValid s rs xs) whole w in
              rw (sleeps, rest) (woken s t ps bs valid none_before)
          | inr awake ↦
              let gone : remove t ss ≡ ss =
                not-has-remove t ss (w.queues.sleep_are t ∙ ground (arith, awake)) in
              rw (awake, gone) (blocked_woken s t w known (ground (arith, e, awake)))
        ])
