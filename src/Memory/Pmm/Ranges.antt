-- ===== src/Memory/Pmm/Ranges.antt =====
-- The loops of pmm_core.c over a range of frames: what they leave, and what they find.
use utamo_os.Common.{
  ℕ, suc, zero, ◌+◌, ◌≤◌, ◌<◌, ◌≡◌, refl, sym, ap, ◌∙◌, Bool, true, false, ◌&&◌, arith, ◌==◌,
  if◌then◌else◌, inl, inr, Bool-cases, ==_iff,
}
use utamo_os.Memory.Bitmap.{bitmap_set}
use utamo_os.Memory.Pmm.{Pmm, is_eligible, is_occupied, set_occupied, any_allocated, all_allocated}
use utamo_os.Memory.Pmm.Count.{in_range}
use utamo_os.Memory.Pmm.Valid.{HasLayout, HasLayout-write, occupied-write, eligible-write_occupied}

-- `t` has the bitmaps of `s`, with `v` written over a range of the occupied one.
pub record Marked (s : Pmm) (v : Bool) (n f : ℕ) (t : Pmm) : Type 0 where
  pub layout : HasLayout t
  pub plan : t.plan ≡ s.plan
  pub total : t.total_frames ≡ s.total_frames
  pub free : t.free_frames ≡ s.free_frames
  pub cursor : t.cursor ≡ s.cursor
  pub ready : t.initialized ≡ s.initialized
  pub eligible : (g : ℕ) → g < s.plan.span_frames → is_eligible t g ≡ is_eligible s g
  pub occupied : (g : ℕ) → is_occupied t g ≡ (if in_range f n g then v else is_occupied s g)

pub set_occupied-Marked :
    (s : Pmm) (v : Bool) (n f : ℕ)
    → HasLayout s
    → f + n ≤ s.plan.span_frames
    → Marked s v n f (set_occupied s v n f)
unfolding set_occupied
set_occupied-Marked s v zero f lay h = record {
  layout = lay;
  plan = refl;
  total = refl;
  free = refl;
  cursor = refl;
  ready = refl;
  eligible = λ g l. refl;
  occupied = λ g. ground arith;
}
set_occupied-Marked s v (suc n) f lay h =
    let s' : Pmm = record s { storage = bitmap_set s.storage s.occupied f v } in
    let rest =
      set_occupied-Marked s' v n (f + 1) (HasLayout-write s v f lay (omega arith) s.occupied)
        (omega arith) in
    record {
      layout = rest.layout;
      plan = rest.plan;
      total = rest.total;
      free = rest.free;
      cursor = rest.cursor;
      ready = rest.ready;
      eligible = λ g l. rest.eligible g l ∙ eligible-write_occupied s v f lay (omega arith) g l;
      occupied = λ g.
          rest.occupied g
          ∙ ap (λ b. if in_range (f + 1) n g then v else b)
              (occupied-write s v f lay (omega arith) g)
          ∙ ground arith;
    }

-- The two scans before a change: they answer for the whole range.
pub any_allocated-false :
    (s : Pmm) (n f g : ℕ)
    → any_allocated s n f ≡ false
    → in_range f n g ≡ true
    → (is_eligible s g && is_occupied s g) ≡ false
unfolding any_allocated
any_allocated-false s zero f g h r = ground arith
any_allocated-false s (suc n) f g h r = elim (Bool-cases (f == g)) [
  | inl e ↦ rw (sym ((==_iff f g).0 e)) (ground arith)
  | inr e ↦ any_allocated-false s n (f + 1) g (ground arith) (ground arith)
]

pub any_allocated-true :
    (s : Pmm) (n f : ℕ)
    → any_allocated s n f ≡ true
    → (g : ℕ) × (in_range f n g ≡ true) × ((is_eligible s g && is_occupied s g) ≡ true)
unfolding any_allocated
any_allocated-true s zero f h = cc
any_allocated-true s (suc n) f h = elim (Bool-cases (is_eligible s f && is_occupied s f)) [
  | inl e ↦ (f, ground arith, e)
  | inr e ↦ let (g, r, a) = any_allocated-true s n (f + 1) (ground arith) in (g, ground arith, a)
]

pub all_allocated-true :
    (s : Pmm) (n f g : ℕ)
    → all_allocated s n f ≡ true
    → in_range f n g ≡ true
    → (is_eligible s g ≡ true) × (is_occupied s g ≡ true)
unfolding all_allocated
all_allocated-true s zero f g h r = ground arith
all_allocated-true s (suc n) f g h r = elim (Bool-cases (f == g)) [
  | inl e ↦ rw (sym ((==_iff f g).0 e)) (ground arith)
  | inr e ↦ all_allocated-true s n (f + 1) g (ground arith) (ground arith)
]

pub all_allocated-false :
    (s : Pmm) (n f : ℕ)
    → all_allocated s n f ≡ false
    → (g : ℕ) × (in_range f n g ≡ true) × ((is_eligible s g && is_occupied s g) ≡ false)
unfolding all_allocated
all_allocated-false s zero f h = cc
all_allocated-false s (suc n) f h = elim (Bool-cases (is_eligible s f && is_occupied s f)) [
  | inl e ↦ let (g, r, a) = all_allocated-false s n (f + 1) (ground arith) in (g, ground arith, a)
  | inr e ↦ (f, ground arith, e)
]
