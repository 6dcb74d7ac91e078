-- ===== src/Memory/Pmm/Opened.antt =====
-- The loops of pmm_core_init that open the frames of the usable regions.
use utamo_os.Common.{
  ℕ, suc, zero, ◌+◌, ◌-◌, ◌/◌, ◌%◌, ◌≤◌, ◌<◌, ◌≡◌, refl, ap, ◌∙◌, Bool, true, false, List, [], ◌∷◌,
  arith, ◌==◌, if◌then◌else◌, inl, inr, Bool-cases, ==_iff, u64_max, add64, ◌&&◌, ◌||◌, All,
}
use utamo_os.Memory.Helpers.{page_size}
use utamo_os.Memory.Map.{Region, usable}
use utamo_os.Memory.Bitmap.{bitmap_set}
use utamo_os.Memory.Pmm.{Pmm, Plan, is_eligible, is_occupied}
use utamo_os.Memory.Pmm.Init.{open_frame, open_frames, open_regions}
use utamo_os.Memory.Pmm.Count.{in_range}
use utamo_os.Memory.Pmm.Valid.{
  HasLayout, HasLayout-write, occupied-write, eligible-write_occupied, eligible-write,
  occupied-write_eligible,
}

-- `t` is `s` with the frames of `p` eligible and free.
pub record Opened (s : Pmm) (p : ℕ → Bool) (t : Pmm) : Type 0 where
  pub layout : HasLayout t
  pub plan : t.plan ≡ s.plan
  pub total : t.total_frames ≡ s.total_frames
  pub free : t.free_frames ≡ s.free_frames
  pub cursor : t.cursor ≡ s.cursor
  pub ready : t.initialized ≡ s.initialized
  pub eligible :
      (g : ℕ) → g < s.plan.span_frames → is_eligible t g ≡ (if p g then true else is_eligible s g)
  pub occupied :
      (g : ℕ) → g < s.plan.span_frames → is_occupied t g ≡ (if p g then false else is_occupied s g)

-- one frame, by the two writes of the loop's body
open_frame-Opened :
    (s : Pmm) (f : ℕ)
    → HasLayout s
    → f < s.plan.span_frames
    → Opened s (λ g. f == g) (open_frame s f)
open_frame-Opened s f lay inside =
    let u : Pmm = record s { storage = bitmap_set s.storage s.eligible f true } in
    let mid : HasLayout u = HasLayout-write s true f lay inside s.eligible in
    record {
      layout =
          (let deep = HasLayout-write u false f mid inside s.occupied in
            record {
              bytes = deep.bytes;
              apart = lay.apart;
              fits = deep.fits;
              covers = lay.covers;
              small = lay.small;
            });
      plan = refl;
      total = refl;
      free = refl;
      cursor = refl;
      ready = refl;
      eligible = λ g l.
          eligible-write_occupied u false f mid inside g l ∙ eligible-write s true f lay inside g;
      occupied = λ g l.
          occupied-write u false f mid inside g
          ∙ ap (λ b. if f == g then false else b) (occupied-write_eligible s true f lay inside g l);
    }

-- Opening some frames, and then others, opens both.
Opened-trans :
    (s t u : Pmm) (p q : ℕ → Bool) → Opened s p t → Opened t q u → Opened s (λ g. q g || p g) u
Opened-trans s t u p q a b =
    let span : t.plan.span_frames ≡ s.plan.span_frames = ap (λ (x : Plan). x.span_frames) a.plan in
    record {
      layout = b.layout;
      plan = b.plan ∙ a.plan;
      total = b.total ∙ a.total;
      free = b.free ∙ a.free;
      cursor = b.cursor ∙ a.cursor;
      ready = b.ready ∙ a.ready;
      eligible = λ g l.
          let l' : g < t.plan.span_frames = omega (arith, span) in
          ground (arith, b.eligible g l', a.eligible g l);
      occupied = λ g l.
          let l' : g < t.plan.span_frames = omega (arith, span) in
          ground (arith, b.occupied g l', a.occupied g l);
    }

Opened-cong : (s t : Pmm) (p q : ℕ → Bool) → ((g : ℕ) → p g ≡ q g) → Opened s p t → Opened s q t
Opened-cong s t p q e o = record {
  layout = o.layout;
  plan = o.plan;
  total = o.total;
  free = o.free;
  cursor = o.cursor;
  ready = o.ready;
  eligible = λ g l. rw (← e g) (o.eligible g l);
  occupied = λ g l. rw (← e g) (o.occupied g l);
}

nothing-Opened : (s : Pmm) → HasLayout s → Opened s (λ g. false) s
nothing-Opened s lay = record {
  layout = lay;
  plan = refl;
  total = refl;
  free = refl;
  cursor = refl;
  ready = refl;
  eligible = λ g l. refl;
  occupied = λ g l. refl;
}

pub open_frames-Opened :
    (s : Pmm) (n f : ℕ)
    → HasLayout s
    → f + n ≤ s.plan.span_frames
    → Opened s (in_range f n) (open_frames s n f)
unfolding open_frames
open_frames-Opened s zero f lay h =
    Opened-cong s s (λ g. false) (in_range f 0) (λ g. ground arith) (nothing-Opened s lay)
open_frames-Opened s (suc n) f lay h =
    let one = open_frame-Opened s f lay (omega arith) in
    let rest = open_frames-Opened (open_frame s f) n (f + 1) one.layout (omega arith) in
    Opened-cong s _ (λ g. in_range (f + 1) n g || (f == g)) (in_range f (suc n)) (λ g. ground arith)
      (Opened-trans s _ _ (λ g. f == g) (in_range (f + 1) n) one rest)

-- The frame `g` lies in a usable region.
abbrev pub region_frame : Region → ℕ → Bool
region_frame r g =
    (r.type == usable)
    && in_range (r.base / page_size) ((r.base + r.length) / page_size - r.base / page_size) g

abbrev pub usable_frame : List Region → ℕ → Bool
usable_frame [] g = false
usable_frame (r ∷ rs) g = usable_frame rs g || region_frame r g

-- A usable region is page aligned and ends in the span, and below the top of the address space.
abbrev pub IsInside : ℕ → Region → Type 0
IsInside span r =
    (r.base + r.length ≤ u64_max)
    × (r.type ≡ usable
        → (r.base % page_size ≡ 0)
          × (r.length % page_size ≡ 0)
          × ((r.base + r.length) / page_size ≤ span))

pub open_regions-Opened :
    (s : Pmm) (rs : List Region)
    → HasLayout s
    → All (IsInside s.plan.span_frames) rs
    → Opened s (usable_frame rs) (open_regions s rs)
unfolding open_regions
open_regions-Opened s [] lay h = nothing-Opened s lay
open_regions-Opened s (r ∷ rs) lay (h, hs) =
    let first = r.base / page_size in
    let n = add64 r.base r.length / page_size - first in
    let same : add64 r.base r.length ≡ r.base + r.length = omega arith in
    elim (Bool-cases (r.type == usable)) [
      | inl e ↦
          let (a, b, c) = h.1 ((==_iff r.type usable).0 e) in
          let one = open_frames-Opened s n first lay (omega arith) in
          let span : (open_frames s n first).plan.span_frames ≡ s.plan.span_frames =
            ap (λ (x : Plan). x.span_frames) one.plan in
          let rest = open_regions-Opened (open_frames s n first) rs one.layout (rw span hs) in
          rw e (
            Opened-cong s _ (λ g. usable_frame rs g || in_range first n g) (usable_frame (r ∷ rs))
              (λ g. rw (e, same))
              (Opened-trans s _ _ (in_range first n) (usable_frame rs) one rest))
      | inr e ↦ rw e (
          Opened-cong s _ (usable_frame rs) (usable_frame (r ∷ rs)) (λ g. ground arith)
            (open_regions-Opened s rs lay hs))
    ]
