-- ===== src/Memory/Pmm/Alloc.antt =====
-- pmm_core_alloc_pages: what an allocation gives out, and when there is none.
use utamo_os.Common.{
  ℕ, ◌+◌, ◌*◌, ◌≤◌, ◌<◌, ◌≡◌, ◌↔◌, sym, ap, ◌∙◌, true, none, some, arith, if◌then◌else◌, inl, inr,
  Option-cases,
}
use utamo_os.Memory.Helpers.{page_size}
use utamo_os.Memory.Pmm.{
  Pmm, Plan, is_eligible, is_occupied, set_occupied, find_first, claim, alloc_pages,
}
use utamo_os.Memory.Pmm.Count.{
  clear_count, in_range, clear_count-range, set_count-cong, clear_count-le,
}
use utamo_os.Memory.Pmm.Valid.{IsValid, view, available, allocated}
use utamo_os.Memory.Pmm.Ranges.{Marked, set_occupied-Marked}
use utamo_os.Memory.Pmm.Search.{IsFreeRun, find_first_sound, find_first_complete}

-- A run of free frames is eligible and counted.
module _ (s : Pmm) (count first : ℕ) (v : IsValid s) (inside : first + count ≤ s.plan.span_frames)
    (free : IsFreeRun s first count) where
  marked : Marked s true count first (set_occupied s true count first)
  marked = set_occupied-Marked s true count first v.layout inside

  count-claim :
      clear_count (is_occupied s) s.plan.span_frames
      ≡ clear_count (is_occupied (set_occupied s true count first)) s.plan.span_frames + count
  count-claim =
      let e =
        clear_count-range (is_occupied s) (is_occupied (set_occupied s true count first)) first
          count s.plan.span_frames (λ g l. marked.occupied g)
          (λ g l r. free g (ground arith) (ground arith)) in
      omega (arith, e)

  pub count-le-free : count ≤ s.free_frames
  count-le-free = omega (arith, count-claim, v.counted)

  pub view-run : (g : ℕ) → in_range first count g ≡ true → view s g ≡ available
  view-run g r =
      let o = free g (ground arith) (ground arith) in
      let l : g < s.plan.span_frames = ground arith in ground (arith, o, v.closed g l)

  pub view-claim :
      (g : ℕ)
      → g < s.plan.span_frames
      → view (claim s count first).1 g ≡ (if in_range first count g then allocated else view s g)
  unfolding claim
  view-claim g l = ground (arith, marked.occupied g, marked.eligible g l, view-run g, free g)

  pub claim-free : (claim s count first).1.free_frames + count ≡ s.free_frames
  unfolding claim
  claim-free = omega (
    arith,
    count-claim,
    v.counted,
    marked.free,
    clear_count-le (is_occupied s) s.plan.span_frames,
    v.layout.small,
  )

  same_span : (set_occupied s true count first).plan.span_frames ≡ s.plan.span_frames
  same_span = ap (λ (p : Plan). p.span_frames) marked.plan

  pub claim-IsValid : IsValid (claim s count first).1
  unfolding claim
  claim-IsValid = record {
    ready = marked.ready ∙ v.ready;
    layout = record {
      bytes = marked.layout.bytes;
      apart = marked.layout.apart;
      fits = marked.layout.fits;
      covers = marked.layout.covers;
      small = marked.layout.small;
    };
    closed = λ g l e.
        let l' : g < s.plan.span_frames = omega (arith, same_span) in
        ground (arith, marked.occupied g, marked.eligible g l', v.closed g l');
    counted = rw same_span (omega (arith, claim-free, count-claim, v.counted));
    owned = rw same_span (
        omega (
          arith,
          set_count-cong (is_eligible s) (is_eligible (set_occupied s true count first))
              s.plan.span_frames (λ g l. marked.eligible g l),
          v.owned,
          marked.total,
        ));
    total_small = omega (arith, marked.total, v.total_small);
    cursor_in = ground (arith, same_span);
  }

-- What `pmm_core_alloc_pages` hands out, and what it leaves.
pub record Granted (s : Pmm) (count phys : ℕ) (t : Pmm) : Type 0 where
  pub first : ℕ
  pub positive : 0 < count
  pub address : phys ≡ first * page_size
  pub inside : first + count ≤ s.plan.span_frames
  pub was_free : (g : ℕ) → in_range first count g ≡ true → view s g ≡ available
  pub now_taken :
      (g : ℕ)
      → g < s.plan.span_frames
      → view t g ≡ (if in_range first count g then allocated else view s g)
  pub accounted : t.free_frames + count ≡ s.free_frames
  pub span : t.plan.span_frames ≡ s.plan.span_frames
  pub still_valid : IsValid t

alloc_pages_inv :
    (s : Pmm) (count : ℕ) {phys : ℕ} {t : Pmm}
    → alloc_pages s count ≡ some (phys, t)
    → (first : ℕ) × (find_first s count ≡ some first)
      × (claim s count first ≡ (phys, t))
      × (0 < count)
unfolding alloc_pages
alloc_pages_inv s count e = elim (Option-cases (find_first s count)) [
  | inl miss ↦ ground arith
  | inr (first, hit) ↦ (first, hit, ground arith, ground arith)
]

-- On a valid state a successful pmm_core_alloc_pages returns the address of `count` consecutive
-- frames of the span that were available, for a positive `count`. They become allocated, the state
-- of no other frame changes, the free count drops by `count`, the span stays, and the state stays
-- valid.
pub alloc_pages-Granted :
    (s : Pmm) (count : ℕ) {phys : ℕ} {t : Pmm}
    → IsValid s
    → alloc_pages s count ≡ some (phys, t)
    → Granted s count phys t
unfolding claim
alloc_pages-Granted s count {phys} {t} v e =
    let (first, hit, same, pos) = alloc_pages_inv s count e in
    let (inside, free) = find_first_sound s count pos v.cursor_in hit in
    let to : (claim s count first).1 ≡ t = ap (λ (r : ℕ × Pmm). r.1) same in
    record {
      first = first;
      positive = pos;
      address = sym (ap (λ (r : ℕ × Pmm). r.0) same);
      inside = inside;
      was_free = view-run s count first v inside free;
      now_taken = λ g l. rw (← to) (view-claim s count first v inside free g l);
      accounted = rw (← to) (claim-free s count first v inside free);
      span = rw (← to) (same_span s count first v inside free);
      still_valid = rw (← to) (claim-IsValid s count first v inside free);
    }

-- On a valid state, for a positive `count`, pmm_core_alloc_pages fails exactly when no `count`
-- consecutive frames of the span are all available.
pub alloc_pages_complete :
    (s : Pmm) (count : ℕ)
    → IsValid s
    → 0 < count
    → (alloc_pages s count ≡ none) ↔ (
        (first : ℕ)
        → first + count ≤ s.plan.span_frames
        → ¬ ((g : ℕ) → in_range first count g ≡ true → view s g ≡ available))
unfolding alloc_pages
alloc_pages_complete s count v pos = (
  λ e first inside all.
      let run : IsFreeRun s first count = λ g a b. let x = all g (ground arith) in ground arith in
      let room = count-le-free s count first v inside run in
      let miss : find_first s count ≡ none = ground (arith, v.ready) in
      find_first_complete s count pos first miss inside run,
  λ nowhere. elim (Option-cases (find_first s count)) [
    | inl miss ↦ ground arith
    | inr (first, hit) ↦
        let (inside, free) = find_first_sound s count pos v.cursor_in hit in
        absurd (nowhere first inside (view-run s count first v inside free))
  ],
)
