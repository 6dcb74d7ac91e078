-- ===== src/Memory/Pmm/Free.antt =====
-- pmm_core_free_pages and pmm_core_is_allocated_page.
use utamo_os.Common.{
  ℕ, ◌+◌, ◌-◌, ◌/◌, ◌%◌, ◌≤◌, ◌<◌, ◌≡◌, ◌≢◌, ap, ◌∙◌, true, false, none, some, arith, if◌then◌else◌,
  inl, inr, Bool-cases, Option-cases,
}
use utamo_os.Memory.Helpers.{page_size, memory_is_page_aligned}
use utamo_os.Memory.Pmm.{
  Pmm, Plan, is_eligible, is_occupied, set_occupied, range_frames, all_allocated, free_pages,
  release,
}
use utamo_os.Memory.Pmm.Count.{
  clear_count, in_range, clear_count-range, set_count-cong, clear_count-le,
}
use utamo_os.Memory.Pmm.Valid.{IsValid, view, available, allocated}
use utamo_os.Memory.Pmm.Ranges.{
  Marked, set_occupied-Marked, all_allocated-true, all_allocated-false,
}

-- What range_frames accepts: a page aligned address of `count` frames of the span.
abbrev pub IsRange : Pmm → ℕ → ℕ → Type 0
IsRange s phys count =
    (0 < count) × (phys % page_size ≡ 0) × (phys / page_size + count ≤ s.plan.span_frames)

pub range_frames-some :
    (s : Pmm) (phys count : ℕ) {first end : ℕ}
    → range_frames s phys count ≡ some (first, end)
    → IsRange s phys count × (first ≡ phys / page_size) × (end ≡ phys / page_size + count)
unfolding range_frames memory_is_page_aligned
range_frames-some s phys count e = ground arith

pub range_frames_of :
    (s : Pmm) (phys count : ℕ)
    → s.initialized ≡ true
    → IsRange s phys count
    → range_frames s phys count ≡ some (phys / page_size, phys / page_size + count)
unfolding range_frames memory_is_page_aligned
range_frames_of s phys count e r = ground arith

module _ (s : Pmm) (count first : ℕ) (v : IsValid s) (inside : first + count ≤ s.plan.span_frames)
    (taken : (g : ℕ)
      → in_range first count g ≡ true
      → (is_eligible s g ≡ true) × (is_occupied s g ≡ true)) where
  cleared : Pmm
  cleared = set_occupied s false count first

  marked : Marked s false count first cleared
  unfolding cleared
  marked = set_occupied-Marked s false count first v.layout inside

  released : Pmm
  released = release s count first count

  same_span : cleared.plan.span_frames ≡ s.plan.span_frames
  same_span = ap (λ (p : Plan). p.span_frames) marked.plan

  count-released :
      clear_count (is_occupied cleared) s.plan.span_frames
      ≡ clear_count (is_occupied s) s.plan.span_frames + count
  count-released =
      let e =
        clear_count-range (is_occupied cleared) (is_occupied s) first count s.plan.span_frames
          (λ g l. ground (arith, marked.occupied g, taken g))
          (λ g l r. ground (arith, marked.occupied g)) in
      omega (arith, e)

  free-released : released.free_frames ≡ s.free_frames + count
  unfolding released release cleared
  free-released = omega (
    arith,
    count-released,
    v.counted,
    marked.free,
    clear_count-le (is_occupied cleared) s.plan.span_frames,
    v.layout.small,
  )

  view-released :
      (g : ℕ)
      → g < s.plan.span_frames
      → view released g ≡ (if in_range first count g then available else view s g)
  unfolding released release cleared
  view-released g l = ground (arith, marked.occupied g, marked.eligible g l, taken g)

  released-IsValid : IsValid released
  unfolding released release cleared
  released-IsValid = record {
    ready = marked.ready ∙ v.ready;
    layout = record {
      bytes = marked.layout.bytes;
      apart = marked.layout.apart;
      fits = marked.layout.fits;
      covers = marked.layout.covers;
      small = marked.layout.small;
    };
    closed = λ g l e.
        let l' : g < s.plan.span_frames = omega (arith, same_span) in
        ground (arith, marked.occupied g, marked.eligible g l', v.closed g l', taken g);
    counted = rw same_span (omega (arith, free-released, count-released, v.counted));
    owned = rw same_span (
        omega (
          arith,
          set_count-cong (is_eligible s) (is_eligible cleared) s.plan.span_frames
              (λ g l. marked.eligible g l),
          v.owned,
          marked.total,
        ));
    total_small = omega (arith, marked.total, v.total_small);
    cursor_in = omega (arith, same_span, marked.cursor, v.cursor_in);
  }

abbrev pub AllAllocated : Pmm → ℕ → ℕ → Type 0
AllAllocated s first count = (g : ℕ) → in_range first count g ≡ true → view s g ≡ allocated

-- What a successful `pmm_core_free_pages` leaves.
pub record Freed (s : Pmm) (phys count : ℕ) (t : Pmm) : Type 0 where
  pub range : IsRange s phys count
  pub was_taken : AllAllocated s (phys / page_size) count
  pub now_free :
      (g : ℕ)
      → g < s.plan.span_frames
      → view t g ≡ (if in_range (phys / page_size) count g then available else view s g)
  pub accounted : t.free_frames ≡ s.free_frames + count
  pub span : t.plan.span_frames ≡ s.plan.span_frames
  pub still_valid : IsValid t

free_pages_inv :
    (s : Pmm) (phys count : ℕ) {t : Pmm}
    → free_pages s phys count ≡ some t
    → IsRange s phys count
      × (all_allocated s count (phys / page_size) ≡ true)
      × (release s count (phys / page_size) count ≡ t)
unfolding free_pages
free_pages_inv s phys count {t} e = elim (Option-cases (range_frames s phys count)) [
  | inl miss ↦ ground arith
  | inr ((first, end), hit) ↦
      let (r, a, b) = range_frames-some s phys count hit in
      let n : end - first ≡ count = omega arith in
      let e' = rw (hit, free_pages) at e in
      let e'' = rw n at e' in
      let e3 = rw a at e'' in
      elim (Bool-cases (all_allocated s count (phys / page_size))) [
        | inl all ↦ (r, all, ground arith)
        | inr part ↦ ground arith
      ]
]

-- On a valid state a successful pmm_core_free_pages was given a page aligned range of `count`
-- frames of the span, all of them allocated. They become available, the state of no other frame
-- changes, the free count grows by `count`, the span stays, and the state stays valid.
pub free_pages-Freed :
    (s : Pmm) (phys count : ℕ) {t : Pmm}
    → IsValid s
    → free_pages s phys count ≡ some t
    → Freed s phys count t
unfolding released release cleared
free_pages-Freed s phys count {t} v e =
    let (range, all, to) = free_pages_inv s phys count e in
    let first = phys / page_size in
    let taken =
      λ (g : ℕ) (r : in_range first count g ≡ true). all_allocated-true s count first g all r in
    record {
      range = range;
      was_taken = λ g r. ground (arith, taken g r);
      now_free = λ g l. rw (← to) (view-released s count first v range.2 taken g l);
      accounted = rw (← to) (free-released s count first v range.2 taken);
      span = rw (← to) (same_span s count first v range.2 taken);
      still_valid = rw (← to) (released-IsValid s count first v range.2 taken);
    }

-- On a valid state pmm_core_free_pages accepts every page aligned range of allocated frames of the
-- span.
pub free_pages_complete :
    (s : Pmm) (phys count : ℕ)
    → IsValid s
    → IsRange s phys count
    → AllAllocated s (phys / page_size) count
    → free_pages s phys count ≢ none
unfolding free_pages
free_pages_complete s phys count v range all e =
    let first = phys / page_size in
    let hit = range_frames_of s phys count v.ready range in
    let n : first + count - first ≡ count = omega arith in
    let e' = rw n at (rw (hit, free_pages) at e) in
    elim (Bool-cases (all_allocated s count first)) [
      | inl yes_all ↦ ground arith
      | inr part ↦
          let (g, r, bad) = all_allocated-false s count first part in ground (arith, all g r)
    ]
