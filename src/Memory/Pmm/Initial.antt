-- ===== src/Memory/Pmm/Initial.antt =====
-- pmm_core_init: the state that it leaves is valid, and which frames it leaves available.
use utamo_os.Common.{
  ℕ, ◌+◌, ◌-◌, ◌*◌, ◌/◌, ◌≤◌, ◌<◌, ◌≡◌, ◌≢◌, refl, ap, ◌∙◌, Bool, false, not, List, [], ◌∷◌, some,
  arith, ◌==◌, if◌then◌else◌, inl, inr, Bool-cases, ==_iff, Option-cases, ◌&&◌, All, length,
}
use utamo_os.Memory.Helpers.{page_size}
use utamo_os.Memory.Map.{Region, MemoryMap, usable, requires_exclusive_region}
use utamo_os.Memory.Map.Valid.{bytes_of, Apart, AllApart, IsWellFormed}
use utamo_os.Memory.Bitmap.{IsByte}
use utamo_os.Memory.Pmm.{Plan, Pmm, is_eligible, is_occupied, reserve_range}
use utamo_os.Memory.Pmm.Init.{
  blank, open_regions, reserve_metadata, ignore, pmm_plan, pmm_core_init,
}
use utamo_os.Memory.Pmm.Count.{
  set_count, in_range, set_count-in_range, set_count-or, clear_count-not, set_count-cong,
  set_count-none,
}
use utamo_os.Memory.Pmm.Valid.{IsValid, view, permanent, available, allocated}
use utamo_os.Memory.Pmm.Opened.{Opened, open_regions-Opened, usable_frame, region_frame, IsInside}
use utamo_os.Memory.Pmm.Planning.{IsPlan, pmm_plan-IsPlan}
use utamo_os.Memory.Pmm.Start.{HasLayout-blank, blank-bits}
use utamo_os.Memory.Pmm.Reserve.{
  Withdrawn, touches, IsRounded, reserve_range-Withdrawn, reserve_range_complete,
}

-- A frame of one usable region is in no region apart from it.
Apart-frames :
    (span : ℕ) (r : Region) (rs : List Region) (g : ℕ)
    → IsInside span r
    → All (IsInside span) rs
    → All (Apart r) rs
    → (usable_frame rs g && region_frame r g) ≡ false
unfolding requires_exclusive_region
Apart-frames span r [] g h hs a = refl
Apart-frames span r (q ∷ qs) g h hs a =
    let rest = Apart-frames span r qs g h hs.1 a.1 in
    elim (Bool-cases (region_frame r g)) [
      | inl here ↦ elim (Bool-cases (region_frame q g)) [
        | inl there ↦ ground (arith, h.1, hs.0.1, a.0)
        | inr apart ↦ ground arith
      ]
      | inr not_here ↦ ground arith
    ]

-- The usable frames of a map are its usable bytes, in pages.
count-usable :
    (span : ℕ) (rs : List Region)
    → All (IsInside span) rs
    → AllApart rs
    → set_count (usable_frame rs) span * page_size ≡ bytes_of usable rs
count-usable span [] h a = omega (arith, set_count-none span)
count-usable span (r ∷ rs) h a =
    let both =
      set_count-or (usable_frame rs) (region_frame r) span
        (λ g l. Apart-frames span r rs g h.0 h.1 a.0) in
    let rest = count-usable span rs h.1 a.1 in
    let first = r.base / page_size in
    let n = (r.base + r.length) / page_size - first in
    elim (Bool-cases (r.type == usable)) [
      | inl u ↦
          let (x, y, z) = h.0.1 ((==_iff r.type usable).0 u) in
          let one = set_count-cong (in_range first n) (region_frame r) span (λ g l. rw u) in
          let all = set_count-in_range first n span in rw u (omega arith)
      | inr u ↦
          let one = set_count-cong (λ g. false) (region_frame r) span (λ g l. rw u) in
          let nothing = set_count-none span in rw u (omega arith)
    ]

module _ (m : MemoryMap) (plan : Plan) (storage : List ℕ) (w : IsWellFormed m) (p : IsPlan m plan)
    (bytes : All IsByte storage) (room : plan.storage_bytes ≤ length storage) where
  opened : Pmm
  opened = open_regions (blank m plan storage) m.regions

  opened-Opened : Opened (blank m plan storage) (usable_frame m.regions) opened
  unfolding opened blank
  opened-Opened =
      open_regions-Opened (blank m plan storage) m.regions
        (HasLayout-blank m plan storage p bytes room) p.regions_in

  opened-bits :
      (g : ℕ)
      → g < plan.span_frames
      → (is_eligible opened g ≡ usable_frame m.regions g)
        × (is_occupied opened g ≡ not (usable_frame m.regions g))
  unfolding blank
  opened-bits g l =
      let (e, o) = blank-bits m plan storage p bytes room g l in
      ground (arith, opened-Opened.eligible g l, opened-Opened.occupied g l)

  opened-plan : opened.plan ≡ plan
  unfolding blank
  opened-plan = opened-Opened.plan

  opened-IsValid : IsValid opened
  unfolding blank
  opened-IsValid =
      let span : opened.plan.span_frames ≡ plan.span_frames =
        ap (λ (x : Plan). x.span_frames) opened-plan in
      let pages = count-usable plan.span_frames m.regions p.regions_in w.apart in
      let clear =
        clear_count-not (usable_frame m.regions) (is_occupied opened) plan.span_frames
          (λ g l. (opened-bits g l).1) in
      let elig =
        set_count-cong (usable_frame m.regions) (is_eligible opened) plan.span_frames
          (λ g l. (opened-bits g l).0) in
      record {
        ready = opened-Opened.ready;
        layout = opened-Opened.layout;
        closed = λ g l e.
            let l' : g < plan.span_frames = omega (arith, span) in ground (arith, opened-bits g l');
        counted = rw span (omega (arith, opened-Opened.free, p.total));
        owned = rw span (omega (arith, opened-Opened.total, p.total));
        total_small = omega (arith, opened-Opened.total, w.no_overflow);
        cursor_in = omega (arith, opened-Opened.cursor);
      }

  opened-view :
      (g : ℕ)
      → g < plan.span_frames
      → view opened g ≡ (if usable_frame m.regions g then available else permanent)
  opened-view g l = ground (arith, opened-bits g l)

-- A reservation whose result is ignored, where no frame is allocated.
reserve-ignore :
    (s : Pmm) (phys bytes : ℕ)
    → IsValid s
    → IsRounded phys bytes
    → ((g : ℕ) → g < s.plan.span_frames → view s g ≢ allocated)
    → Withdrawn s (touches phys bytes) (ignore s (reserve_range s phys bytes))
reserve-ignore s phys bytes v rounded idle = elim (Option-cases (reserve_range s phys bytes)) [
  | inl refused ↦ absurd (reserve_range_complete s phys bytes v rounded (λ g l r. idle g l) refused)
  | inr (t, done) ↦ rw done (reserve_range-Withdrawn s phys bytes v done).0
]

-- The frames that the initial state leaves to its clients.
abbrev pub initial_frame : MemoryMap → Plan → ℕ → Bool
initial_frame m plan g =
    usable_frame m.regions g
    && not (touches 0 page_size g)
    && not (touches plan.storage_phys plan.storage_bytes g)

pub record Initial (m : MemoryMap) (plan : Plan) (t : Pmm) : Type 0 where
  pub valid : IsValid t
  pub span : t.plan.span_frames ≡ plan.span_frames
  pub frames :
      (g : ℕ)
      → g < plan.span_frames
      → view t g ≡ (if initial_frame m plan g then available else permanent)

module _ (m : MemoryMap) (plan : Plan) (storage : List ℕ) (w : IsWellFormed m) (p : IsPlan m plan)
    (bytes : All IsByte storage) (room : plan.storage_bytes ≤ length storage) where
  reserve_metadata-Initial :
      Initial m plan (reserve_metadata (open_regions (blank m plan storage) m.regions) plan)
  unfolding reserve_metadata opened
  reserve_metadata-Initial =
      let s = opened m plan storage w p bytes room in
      let v = opened-IsValid m plan storage w p bytes room in
      let e : s.plan ≡ plan = opened-plan m plan storage w p bytes room in
      let span : s.plan.span_frames ≡ plan.span_frames = ap (λ (x : Plan). x.span_frames) e in
      let one =
        reserve-ignore s 0 page_size v (omega arith, omega arith)
          (λ g l.
            let x = opened-view m plan storage w p bytes room g (omega (arith, span)) in
            ground arith) in
      let low = ignore s (reserve_range s 0 page_size) in
      let two =
        reserve-ignore low plan.storage_phys plan.storage_bytes one.still_valid
          (p.not_empty, omega (arith, p.page_aligned, p.storage_in, p.span_small))
          (λ g l.
            let l' : g < s.plan.span_frames = omega (arith, one.span) in
            let x = opened-view m plan storage w p bytes room g (omega (arith, span)) in
            let y = one.now_permanent g l' in ground arith) in
      record {
        valid = two.still_valid;
        span = two.span ∙ one.span ∙ span;
        frames = λ g l.
            let x = opened-view m plan storage w p bytes room g l in
            let y = one.now_permanent g (omega (arith, span)) in
            let z = two.now_permanent g (omega (arith, span, one.span)) in ground arith;
      }

-- For a well-formed map, and storage of at least the planned size whose elements are bytes,
-- pmm_core_init leaves a valid state. The available frames of its span are exactly those that lie
-- in a usable region, outside page zero and outside the bitmaps; all others are permanent.
pub pmm_core_init-Initial :
    (m : MemoryMap) (plan : Plan) (storage : List ℕ) {t : Pmm}
    → IsWellFormed m
    → All IsByte storage
    → plan.storage_bytes ≤ length storage
    → pmm_core_init false m plan storage ≡ some t
    → Initial m plan t
unfolding pmm_core_init
pmm_core_init-Initial m plan storage {t} w bytes room e = elim (Option-cases (pmm_plan m)) [
  | inl miss ↦ ground arith
  | inr (expected, planned) ↦
      let same : plan ≡ expected = ground arith in
      let p = rw (← same) at (pmm_plan-IsPlan m planned) in
      let to : reserve_metadata (open_regions (blank m plan storage) m.regions) plan ≡ t =
        ground arith in
      rw (← to) (reserve_metadata-Initial m plan storage w p bytes room)
]
