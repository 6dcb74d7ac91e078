-- ===== src/Memory/Pmm/Reserve.antt =====
-- pmm_core_reserve_range: the loop over the frames that a range of bytes touches.
use utamo_os.Common.{
  ℕ, suc, zero, ◌+◌, ◌-◌, ◌*◌, ◌≤◌, ◌<◌, ◌≡◌, ◌≢◌, ◌↔◌, refl, ap, ◌∙◌, Bool, true, false, none,
  some, arith, ltb, ◌==◌, if◌then◌else◌, inl, inr, Bool-cases, ==_iff, Option-cases, u64_max, sub64,
  ◌&&◌,
}
use utamo_os.Memory.Helpers.{page_size, memory_align_up}
use utamo_os.Memory.Bitmap.{bitmap_set}
use utamo_os.Memory.Pmm.{
  Pmm, is_eligible, is_occupied, any_allocated, reserve_frame, reserve_frames, reserve_bounds,
  reserve_range,
}
use utamo_os.Memory.Pmm.Count.{
  clear_count, in_range, clear_count-range, set_count-drop, clear_count-le,
}
use utamo_os.Memory.Pmm.Valid.{
  HasLayout, IsValid, view, allocated, permanent, HasLayout-write, occupied-write,
  eligible-write_occupied, eligible-write, occupied-write_eligible,
}
use utamo_os.Memory.Pmm.Ranges.{any_allocated-false, any_allocated-true}

module _ (s : Pmm) (f : ℕ) (v : IsValid s) (inside : f < s.plan.span_frames)
    (eligible : is_eligible s f ≡ true) (clear : is_occupied s f ≡ false) where
  withdrawn : Pmm
  withdrawn = record s { storage = bitmap_set s.storage s.eligible f false }

  taken : Pmm
  unfolding withdrawn
  taken = record s {
    storage = bitmap_set withdrawn.storage s.occupied f true;
    free_frames = sub64 s.free_frames 1;
  }

  lay : HasLayout withdrawn
  unfolding withdrawn
  lay = HasLayout-write s false f v.layout inside s.eligible

  occupied-taken :
      (g : ℕ)
      → g < s.plan.span_frames
      → is_occupied taken g ≡ (if f == g then true else is_occupied s g)
  unfolding taken withdrawn
  occupied-taken g l =
      occupied-write withdrawn true f lay inside g
      ∙ ap (λ b. if f == g then true else b) (occupied-write_eligible s false f v.layout inside g l)

  eligible-taken :
      (g : ℕ)
      → g < s.plan.span_frames
      → is_eligible taken g ≡ (if f == g then false else is_eligible s g)
  unfolding taken withdrawn
  eligible-taken g l =
      eligible-write_occupied withdrawn true f lay inside g l
      ∙ eligible-write s false f v.layout inside g

  count-taken :
      clear_count (is_occupied s) s.plan.span_frames
      ≡ clear_count (is_occupied taken) s.plan.span_frames + 1
  count-taken =
      let e =
        clear_count-range (is_occupied s) (is_occupied taken) f 1 s.plan.span_frames
          (λ g l. ground (arith, occupied-taken g l))
          (λ g l r. let same : f ≡ g = ground arith in rw (← same) clear) in
      omega (arith, e)

  taken-IsValid : IsValid taken
  unfolding taken
  taken-IsValid = record {
    ready = v.ready;
    layout =
        (let deep = HasLayout-write withdrawn true f lay inside s.occupied in
          record {
            bytes = deep.bytes;
            apart = v.layout.apart;
            fits = deep.fits;
            covers = v.layout.covers;
            small = v.layout.small;
          });
    closed = λ g l e. ground (arith, occupied-taken g l, eligible-taken g l, v.closed g l);
    counted = omega (
      arith,
      count-taken,
      v.counted,
      clear_count-le (is_occupied s) s.plan.span_frames,
      v.layout.small,
    );
    owned = omega (
      arith,
      v.owned,
      set_count-drop (is_eligible s) (is_eligible taken) f s.plan.span_frames eligible-taken,
    );
    total_small = v.total_small;
    cursor_in = v.cursor_in;
  }

-- What making the frames of `p` permanent leaves.
pub record Withdrawn (s : Pmm) (p : ℕ → Bool) (t : Pmm) : Type 0 where
  pub now_permanent :
      (g : ℕ) → g < s.plan.span_frames → view t g ≡ (if p g then permanent else view s g)
  pub span : t.plan.span_frames ≡ s.plan.span_frames
  pub still_valid : IsValid t

reserve_frame-Withdrawn :
    (s : Pmm) (f : ℕ)
    → IsValid s
    → f < s.plan.span_frames
    → (is_eligible s f && is_occupied s f) ≡ false
    → Withdrawn s (λ g. f == g) (reserve_frame s f)
unfolding taken withdrawn
reserve_frame-Withdrawn s f v inside idle = elim (Bool-cases (is_eligible s f)) [
  | inl e ↦
      let clear : is_occupied s f ≡ false = ground arith in
      rw e (record {
        now_permanent = λ g l. ground (
          arith,
          occupied-taken s f v inside e clear g l,
          eligible-taken s f v inside e clear g l,
        );
        span = refl;
        still_valid = taken-IsValid s f v inside e clear;
      })
  | inr e ↦ rw e (record {
    now_permanent = λ g l. elim (Bool-cases (f == g)) [
      | inl same ↦ rw (← (==_iff f g).0 same) (ground arith)
      | inr other ↦ ground arith
    ];
    span = refl;
    still_valid = v;
  })
]

view-idle :
    (s : Pmm) (g : ℕ) → ((is_eligible s g && is_occupied s g) ≡ false) ↔ (view s g ≢ allocated)
view-idle s g = ground arith

reserve_frames-Withdrawn :
    (s : Pmm) (n f : ℕ)
    → IsValid s
    → ((g : ℕ) → in_range f n g ≡ true → g < s.plan.span_frames)
    → ((g : ℕ) → in_range f n g ≡ true → view s g ≢ allocated)
    → Withdrawn s (in_range f n) (reserve_frames s n f)
unfolding reserve_frames
reserve_frames-Withdrawn s zero f v inside idle = record {
  now_permanent = λ g l. ground arith;
  span = refl;
  still_valid = v;
}
reserve_frames-Withdrawn s (suc n) f v inside idle =
    let here = inside f (ground arith) in
    let one = reserve_frame-Withdrawn s f v here ((view-idle s f).1 (idle f (ground arith))) in
    let rest =
      reserve_frames-Withdrawn (reserve_frame s f) n (f + 1) one.still_valid
        (λ g r. let l = inside g (ground arith) in omega (arith, one.span))
        (λ g r.
          let l = inside g (ground arith) in
          let kept = one.now_permanent g l in
          let i = idle g (ground arith) in rw kept (ground arith)) in
    record {
      now_permanent = λ g l.
          let l' : g < (reserve_frame s f).plan.span_frames = omega (arith, one.span) in
          rw (rest.now_permanent g l', one.now_permanent g l) (ground arith);
      span = rest.span ∙ one.span;
      still_valid = rest.still_valid;
    }

-- The frame `g` holds a byte of the range.
abbrev pub touches : ℕ → ℕ → ℕ → Bool
touches phys bytes g = ltb (g * page_size) (phys + bytes) && ltb phys ((g + 1) * page_size)

-- The byte range is not empty and its page-rounded end is an address.
abbrev pub IsRounded : ℕ → ℕ → Type 0
IsRounded phys bytes = (0 < bytes) × (phys + bytes + (page_size - 1) ≤ u64_max)

reserve_bounds-some :
    (s : Pmm) (phys bytes : ℕ) {first end : ℕ}
    → reserve_bounds s phys bytes ≡ some (first, end)
    → IsRounded phys bytes
      × ((g : ℕ) → g < s.plan.span_frames → in_range first (end - first) g ≡ touches phys bytes g)
      × (end ≤ s.plan.span_frames)
unfolding reserve_bounds memory_align_up
reserve_bounds-some s phys bytes e = (ground arith, λ g l. ground arith, ground arith)

reserve_bounds_of :
    (s : Pmm) (phys bytes : ℕ)
    → s.initialized ≡ true
    → IsRounded phys bytes
    → reserve_bounds s phys bytes ≢ none
unfolding reserve_bounds memory_align_up
reserve_bounds_of s phys bytes e r = ground arith

-- On a valid state a successful pmm_core_reserve_range makes permanent exactly the frames of the
-- span that hold a byte of the range, none of which was allocated. The state of no other frame
-- changes, the span stays, and the state stays valid.
pub reserve_range-Withdrawn :
    (s : Pmm) (phys bytes : ℕ) {t : Pmm}
    → IsValid s
    → reserve_range s phys bytes ≡ some t
    → Withdrawn s (touches phys bytes) t
      × ((g : ℕ) → g < s.plan.span_frames → touches phys bytes g ≡ true → view s g ≢ allocated)
unfolding reserve_range
reserve_range-Withdrawn s phys bytes {t} v e = elim (Option-cases (reserve_bounds s phys bytes)) [
  | inl miss ↦ ground arith
  | inr ((first, end), hit) ↦
      let (rounded, same, below) = reserve_bounds-some s phys bytes hit in
      let n = end - first in
      let inside : (g : ℕ) → in_range first n g ≡ true → g < s.plan.span_frames =
        λ g r. ground arith in
      elim (Bool-cases (any_allocated s n first)) [
        | inl some_taken ↦ ground arith
        | inr no_taken ↦
            let idle = λ (g : ℕ) (r : in_range first n g ≡ true).
              (view-idle s g).0 (any_allocated-false s n first g no_taken r) in
            let all = reserve_frames-Withdrawn s n first v inside idle in
            let to : reserve_frames s n first ≡ t = ground arith in
            (
              record {
                now_permanent = λ g l. rw (← to) (rw (all.now_permanent g l, same g l));
                span = rw (← to) all.span;
                still_valid = rw (← to) all.still_valid;
              },
              λ g l r. idle g (rw (same g l) r),
            )
      ]
]

-- On a valid state pmm_core_reserve_range accepts every range that is not empty, whose rounded end
-- is an address, and that touches no allocated frame of the span.
pub reserve_range_complete :
    (s : Pmm) (phys bytes : ℕ)
    → IsValid s
    → IsRounded phys bytes
    → ((g : ℕ) → g < s.plan.span_frames → touches phys bytes g ≡ true → view s g ≢ allocated)
    → reserve_range s phys bytes ≢ none
unfolding reserve_range
reserve_range_complete s phys bytes v rounded idle e =
    elim (Option-cases (reserve_bounds s phys bytes)) [
      | inl miss ↦ reserve_bounds_of s phys bytes v.ready rounded miss
      | inr ((first, end), hit) ↦
          let (r, same, below) = reserve_bounds-some s phys bytes hit in
          let taken : any_allocated s (end - first) first ≡ true = ground arith in
          let (g, inside, both) = any_allocated-true s (end - first) first taken in
          let l : g < s.plan.span_frames = ground arith in
          idle g l (rw (← same g l) inside) (ground arith)
    ]
