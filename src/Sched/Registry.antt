-- ===== src/Sched/Registry.antt =====
-- kernel/core/sched_core.c: tasks enter and leave the registry.
use utamo_os.Common.{
  ℕ, ◌+◌, ◌<◌, ◌≡◌, ◌≢◌, refl, true, false, not, ◌&&◌, ◌||◌, List, [], ◌∷◌, ◌==◌, length, arith,
  set,
}
use native.Mathlib.Decide.{ℕ_discrete}
use utamo_os.Sched.State.{first_slot}
use utamo_os.Sched.Links.{has}
use utamo_os.Sched.Valid.{Once, count_tasks}

-- The first free slot takes a task.
pub has-set_free :
    (xs : List ℕ) (t a : ℕ)
    → count_tasks xs < length xs
    → a ≢ 0
    → has (set xs (first_slot xs 0) t) a ≡ (t == a || has xs a)
unfolding has first_slot
has-set_free [] t a h z = absurd (omega arith)
has-set_free (x ∷ xs) t a h z = elim (ℕ_discrete x 0) [
  | yes e ↦ rw e (ground (arith, z))
  | no other ↦ ground (arith, other, has-set_free xs t a (ground (arith, other, h)) z)
]

pub count-set_free :
    (xs : List ℕ) (t : ℕ)
    → count_tasks xs < length xs
    → t ≢ 0
    → count_tasks (set xs (first_slot xs 0) t) ≡ count_tasks xs + 1
unfolding first_slot
count-set_free [] t h z = absurd (omega arith)
count-set_free (x ∷ xs) t h z = elim (ℕ_discrete x 0) [
  | yes e ↦ rw e (ground (arith, z))
  | no other ↦ ground (arith, other, count-set_free xs t (ground (arith, other, h)) z)
]

count_less :
    (x : ℕ) (xs : List ℕ)
    → x ≢ 0
    → count_tasks (x ∷ xs) < length (x ∷ xs)
    → count_tasks xs < length xs
count_less x xs other h = ground (arith, other, h)

pub Once-set_free :
    (xs : List ℕ) (t : ℕ)
    → count_tasks xs < length xs
    → t ≢ 0
    → has xs t ≡ false
    → Once xs
    → Once (set xs (first_slot xs 0) t)
unfolding has first_slot
Once-set_free [] t h z n o = absurd (omega arith)
Once-set_free (x ∷ xs) t h z n (here, rest) = elim (ℕ_discrete x 0) [
  | yes e ↦ rw e (ground (arith, n), rest)
  | no other ↦
      let later = count_less x xs other h in
      let free : (x == 0) ≡ false = ground (arith, other) in
      rw free (
        ground (arith, has-set_free xs t x later other, here, n, other),
        Once-set_free xs t later z (ground (arith, n)) rest,
      )
]

-- The slot of a task becomes free.
pub has-set_empty :
    (xs : List ℕ) (t a : ℕ)
    → Once xs
    → t ≢ 0
    → a ≢ 0
    → has (set xs (first_slot xs t) 0) a ≡ (has xs a && not (a == t))
unfolding has first_slot
has-set_empty [] t a o h z = refl
has-set_empty (x ∷ xs) t a (here, rest) h z = elim (ℕ_discrete x t) [
  | yes e ↦ elim (ℕ_discrete a t) [
    | yes same ↦ rw (e, same) (ground (arith, e, here, h))
    | no apart ↦ rw e (ground (arith, apart, z))
  ]
  | no other ↦ ground (arith, other, has-set_empty xs t a rest h z)
]

pub count-set_empty :
    (xs : List ℕ) (t : ℕ)
    → has xs t ≡ true
    → t ≢ 0
    → count_tasks (set xs (first_slot xs t) 0) + 1 ≡ count_tasks xs
unfolding has first_slot
count-set_empty [] t h z = absurd (ground (arith, h))
count-set_empty (x ∷ xs) t h z = elim (ℕ_discrete x t) [
  | yes e ↦ ground (arith, e, z)
  | no other ↦ ground (arith, other, h, count-set_empty xs t (ground (arith, h, other)) z)
]

pub Once-set_empty : (xs : List ℕ) (t : ℕ) → t ≢ 0 → Once xs → Once (set xs (first_slot xs t) 0)
unfolding has first_slot
Once-set_empty [] t h o = tt
Once-set_empty (x ∷ xs) t h (here, rest) = elim (ℕ_discrete x t) [
  | yes e ↦ let found : (x == t) ≡ true = ground (arith, e) in rw found (refl, rest)
  | no other ↦
      let later : (x == t) ≡ false = ground (arith, other) in
      rw later (ground (arith, here, has-set_empty xs t x rest h), Once-set_empty xs t h rest)
]
