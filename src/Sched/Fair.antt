-- ===== src/Sched/Fair.antt =====
-- sched_core_select of kernel/core/sched_core.c: every ready task gets its turn.
use utamo_os.Common.{
  ℕ, zero, suc, ◌≡◌, refl, ap, ◌∙◌, true, false, not, ◌&&◌, none, some, List, [], ◌∷◌, ◌++◌, ◌==◌,
  length, arith, Bool-cases, inl, inr,
}
use mathlib.Core.Path.{subst}
use utamo_os.Sched.State.{Sched, running}
use utamo_os.Sched.Valid.{IsValid}
use utamo_os.Sched.Run.{keeps_current, sched_core_select}
use utamo_os.Sched.Choose.{queue_after}
use utamo_os.Sched.Fifo.{first_or, rest_of, Chosen, sched_core_select-Selects}

-- The core after some voluntary yields in a row; a failed one ends them.
unfoldable pub yields : ℕ → Sched → Sched
yields zero s = s
yields (suc n) s = elim (sched_core_select s true) [ none ↦ s | some r ↦ yields n r.1 ]

append_cons : (ps : List ℕ) (t : ℕ) (ys zs : List ℕ) → (ps ++ t ∷ ys) ++ zs ≡ ps ++ t ∷ (ys ++ zs)
append_cons [] t ys zs = refl
append_cons (x ∷ ps) t ys zs = ap (λ xs. x ∷ xs) (append_cons ps t ys zs)

-- Who waits in front of a task does not change.
queue_front :
    (s : Sched) (ps : List ℕ) (t : ℕ) (ys : List ℕ)
    → (zs : List ℕ) × (queue_after s (ps ++ t ∷ ys) ≡ ps ++ t ∷ zs)
queue_front s ps t ys =
    elim (Bool-cases ((s.store s.current).state == running && not (s.current == s.idle))) [
      | inl goes ↦ (ys ++ s.current ∷ [], rw goes (append_cons ps t ys (s.current ∷ [])))
      | inr stays ↦ (ys, rw stays refl)
    ]

-- A voluntary yield with a task in the queue.
one_yield :
    (s : Sched) {rs ss : List ℕ}
    → IsValid s rs ss
    → (s.store s.current).preempt_depth ≡ 0
    → (r : ℕ × Sched) × (sched_core_select s true ≡ some r)
      × (r.1.current ≡ first_or s.idle (queue_after s rs))
      × Chosen r.1 (rest_of (queue_after s rs)) ss
one_yield s w depth =
    let (r, e, selects) = sched_core_select-Selects s true w in
    let changes : keeps_current s true ≡ false = ground (arith, depth) in
    let (first, current, chosen) = rw changes at selects in (r, e, current ∙ first, chosen)

-- On a valid state whose current task may be preempted, as many voluntary yields in a row as there
-- are ready tasks before a ready task, and one more, make that task the current one.
pub yields_turn :
    (ps : List ℕ) (s : Sched) (t : ℕ) (ys : List ℕ) {ss : List ℕ}
    → IsValid s (ps ++ t ∷ ys) ss
    → (s.store s.current).preempt_depth ≡ 0
    → (yields (suc (length ps)) s).current ≡ t
unfolding yields
yields_turn [] s t ys w depth =
    let (r, e, current, chosen) = one_yield s w depth in
    let (zs, order) = queue_front s [] t ys in rw (e, yields) (current ∙ ap (first_or s.idle) order)
yields_turn (x ∷ ps) s t ys {ss} w depth =
    let (r, e, current, chosen) = one_yield s w depth in
    let (zs, order) = queue_front s (x ∷ ps) t ys in
    let valid : IsValid r.1 (ps ++ t ∷ zs) ss =
      subst (λ xs. IsValid r.1 xs ss) (ap rest_of order) chosen.0 in
    rw (e, yields) (yields_turn ps r.1 t zs valid chosen.1.2)
