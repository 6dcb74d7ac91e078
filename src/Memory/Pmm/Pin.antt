-- ===== src/Memory/Pmm/Pin.antt =====
-- pmm_core_pin_page and pmm_core_is_allocated_page, and the life of a page through the calls.
use utamo_os.Common.{
  ℕ, ◌+◌, ◌/◌, ◌<◌, ◌≡◌, ◌↔◌, refl, sym, ◌∙◌, true, false, none, some, arith, ◌==◌, if◌then◌else◌,
  inl, inr, Bool-cases, ==_iff, Option-cases, ◌&&◌, sub64,
}
use utamo_os.Memory.Helpers.{page_size}
use utamo_os.Memory.Bitmap.{bitmap_set}
use utamo_os.Memory.Pmm.{
  Pmm, is_eligible, is_occupied, range_frames, pin_page, is_allocated_page, alloc_pages, free_pages,
  get_stats, Stats,
}
use utamo_os.Memory.Pmm.Count.{
  clear_count, clear_count-cong, clear_count-le-set_count, in_range, set_count-drop,
}
use utamo_os.Memory.Pmm.Valid.{
  IsValid, view, allocated, permanent, HasLayout-write, eligible-write, occupied-write_eligible,
}
use utamo_os.Memory.Pmm.Free.{
  IsRange, AllAllocated, range_frames-some, range_frames_of, free_pages-Freed, free_pages_complete,
}
use utamo_os.Memory.Pmm.Alloc.{alloc_pages-Granted}

module _ (s : Pmm) (f : ℕ) (v : IsValid s) (inside : f < s.plan.span_frames)
    (taken : is_occupied s f ≡ true) where
  pinned : Pmm
  pinned = record s { storage = bitmap_set s.storage s.eligible f false }

  view-pinned :
      (g : ℕ) → g < s.plan.span_frames → view pinned g ≡ (if f == g then permanent else view s g)
  unfolding pinned
  view-pinned g l = ground (
    arith,
    eligible-write s false f v.layout inside g,
    occupied-write_eligible s false f v.layout inside g l,
  )

  pinned-IsValid : IsValid pinned
  unfolding pinned
  pinned-IsValid = record {
    ready = v.ready;
    layout = HasLayout-write s false f v.layout inside s.eligible;
    closed = λ g l e.
        rw (occupied-write_eligible s false f v.layout inside g l) (elim (Bool-cases (f == g)) [
          | inl same ↦ rw (← (==_iff f g).0 same) taken
          | inr other ↦ v.closed g l (ground (arith, eligible-write s false f v.layout inside g))
        ]);
    counted =
        v.counted
        ∙ sym (
            clear_count-cong (is_occupied s) (is_occupied pinned) s.plan.span_frames
              (occupied-write_eligible s false f v.layout inside));
    owned = omega (
      arith,
      v.owned,
      set_count-drop (is_eligible s) (is_eligible pinned) f s.plan.span_frames
          (λ g l. eligible-write s false f v.layout inside g),
    );
    total_small = v.total_small;
    cursor_in = v.cursor_in;
  }

-- On a valid state a successful pmm_core_pin_page was given the address of an allocated frame of
-- the span. That frame becomes permanent, no other frame changes, the free count stays, and the
-- state stays valid.
pub pin_page_lem :
    (s : Pmm) (phys : ℕ) {t : Pmm}
    → IsValid s
    → pin_page s phys ≡ some t
    → IsRange s phys 1
      × (view s (phys / page_size) ≡ allocated)
      × ((g : ℕ)
          → g < s.plan.span_frames
          → view t g ≡ (if phys / page_size == g then permanent else view s g))
      × (t.free_frames ≡ s.free_frames)
      × IsValid t
unfolding pin_page pinned
pin_page_lem s phys {t} v e = elim (Option-cases (range_frames s phys 1)) [
  | inl miss ↦ ground arith
  | inr ((first, end), hit) ↦
      let (range, a, b) = range_frames-some s phys 1 hit in
      let both : (is_eligible s first && is_occupied s first) ≡ true = ground arith in
      let inside : first < s.plan.span_frames = omega arith in
      let occupied : is_occupied s first ≡ true = ground arith in
      let to : pinned s first v inside occupied ≡ t = ground arith in
      (
        range,
        rw (← a) (ground arith),
        λ g l. rw (← to, ← a) (view-pinned s first v inside occupied g l),
        ground arith,
        rw (← to) (pinned-IsValid s first v inside occupied),
      )
]

-- pmm_core_is_allocated_page answers whether the address is that of an allocated frame.
pub is_allocated_page_lem :
    (s : Pmm) (phys : ℕ)
    → s.initialized ≡ true
    → (is_allocated_page s phys ≡ true)
      ↔ (IsRange s phys 1 × (view s (phys / page_size) ≡ allocated))
unfolding is_allocated_page
is_allocated_page_lem s phys ready = (
  λ e. elim (Option-cases (range_frames s phys 1)) [
    | inl miss ↦ ground arith
    | inr ((first, end), hit) ↦
        let (range, a, b) = range_frames-some s phys 1 hit in (range, rw (← a) (ground arith))
  ],
  λ (range, taken). rw (range_frames_of s phys 1 ready range, is_allocated_page) (ground arith),
)

-- On a valid state, pages that pmm_core_alloc_pages handed out can be freed at once with the same
-- count. The free then restores the state of every frame of the span and the free count.
pub free_pages-alloc_pages :
    (s : Pmm) (count : ℕ) {phys : ℕ} {t : Pmm}
    → IsValid s
    → alloc_pages s count ≡ some (phys, t)
    → (u : Pmm) × (free_pages t phys count ≡ some u)
      × ((g : ℕ) → g < s.plan.span_frames → view u g ≡ view s g)
      × (u.free_frames ≡ s.free_frames)
free_pages-alloc_pages s count {phys} {t} v e =
    let got = alloc_pages-Granted s count v e in
    let where_ : phys / page_size ≡ got.first = omega (arith, got.address) in
    let range : IsRange t phys count =
      (got.positive, omega (arith, got.address), omega (arith, got.inside, got.span, where_)) in
    let all : AllAllocated t (phys / page_size) count = λ g r.
      let l : g < s.plan.span_frames = ground (arith, got.inside, where_) in
      let r' : in_range got.first count g ≡ true = rw (← where_) r in rw (got.now_taken g l, r') in
    elim (Option-cases (free_pages t phys count)) [
      | inl refused ↦ absurd (free_pages_complete t phys count got.still_valid range all refused)
      | inr (u, freed) ↦
          let done = free_pages-Freed t phys count got.still_valid freed in
          (
            u,
            freed,
            λ g l.
                let l' : g < t.plan.span_frames = omega (arith, got.span) in
                let was = got.was_free g in
                rw (done.now_free g l', where_, got.now_taken g l) (ground arith),
            omega (arith, done.accounted, got.accounted),
          )
    ]

-- On a valid state, a range that was just freed cannot be freed again.
pub free_pages_twice :
    (s : Pmm) (phys count : ℕ) {t : Pmm}
    → IsValid s
    → free_pages s phys count ≡ some t
    → free_pages t phys count ≡ none
free_pages_twice s phys count {t} v e =
    let done = free_pages-Freed s phys count v e in
    let first = phys / page_size in
    let (pos, aligned, inside) = done.range in
    elim (Option-cases (free_pages t phys count)) [
      | inl refused ↦ refused
      | inr (u, again) ↦
          let second = free_pages-Freed t phys count done.still_valid again in
          let here : in_range first count first ≡ true = ground arith in
          let l : first < s.plan.span_frames = omega arith in
          let now = done.now_free first l in
          let was = second.was_taken first here in ground (arith, now, was, here)
    ]

-- On a valid state pmm_core_get_stats reports as free the number of frames of the span that are
-- not occupied, as used what is left of the total, and the plan's fields.
pub get_stats_lem :
    (s : Pmm)
    → IsValid s
    → (st : Stats) × (get_stats s ≡ some st)
      × (st.free_frames ≡ clear_count (is_occupied s) s.plan.span_frames)
      × (st.used_frames + st.free_frames ≡ st.total_frames)
      × (st.total_frames ≡ s.total_frames)
      × (st.bitmap_phys ≡ s.plan.storage_phys)
      × (st.bitmap_bytes ≡ s.plan.bitmap_bytes)
      × (st.storage_bytes ≡ s.plan.storage_bytes)
      × (st.span_frames ≡ s.plan.span_frames)
unfolding get_stats
get_stats_lem s v =
    let below =
      clear_count-le-set_count (is_occupied s) (is_eligible s) s.plan.span_frames
        (λ g l e. v.closed g l e) in
    (
      record {
        total_frames = s.total_frames;
        free_frames = s.free_frames;
        used_frames = sub64 s.total_frames s.free_frames;
        bitmap_phys = s.plan.storage_phys;
        bitmap_bytes = s.plan.bitmap_bytes;
        storage_bytes = s.plan.storage_bytes;
        span_frames = s.plan.span_frames;
      },
      rw (v.ready, get_stats),
      v.counted,
      omega (arith, below, v.counted, v.owned, v.total_small),
      refl,
      refl,
      refl,
      refl,
      refl,
    )
