-- ===== src/Memory/Pmm/Planning.antt =====
-- What pmm_plan promises of the plan that it makes for a map: where the bitmaps lie, how large they
-- are, and that the usable regions lie in the span.
use utamo_os.Common.{
  ℕ, ◌+◌, ◌*◌, ◌/◌, ◌%◌, ◌≤◌, ◌<◌, ◌≡◌, List, [], ◌∷◌, some, arith, ltb, ◌==◌, if◌then◌else◌, inl,
  inr, Bool-cases, Option-cases, u64_max, add64, All,
}
use utamo_os.Memory.Helpers.{page_size, memory_is_page_aligned, memory_align_up}
use utamo_os.Memory.Map.{Region, MemoryMap, usable}
use utamo_os.Memory.Map.Valid.{bytes_of}
use utamo_os.Memory.Pmm.{Plan}
use utamo_os.Memory.Pmm.Init.{
  plan_bounds, plan_place, plan_storage, pmm_plan, storage_size, bitmap_size,
}
use utamo_os.Memory.Pmm.Opened.{IsInside}

abbrev Below : ℕ → Region → Type 0
Below end r =
    (r.base + r.length ≤ u64_max)
    × (r.type ≡ usable
        → (r.base % page_size ≡ 0) × (r.length % page_size ≡ 0) × (r.base + r.length ≤ end))

-- The first loop's result, from the bounds that it starts with.
record Bounds (rs : List Region) (last_end bytes last_end' bytes' : ℕ) : Type 0 where
  below : All (Below last_end') rs
  grows : last_end ≤ last_end'
  whole : last_end % page_size ≡ 0 → last_end' % page_size ≡ 0
  small : last_end ≤ u64_max → last_end' ≤ u64_max
  sum : bytes ≤ u64_max → bytes' ≡ bytes + bytes_of usable rs

plan_bounds-Bounds :
    (rs : List Region) (before last_end bytes : ℕ) {last_end' bytes' : ℕ}
    → plan_bounds rs before last_end bytes ≡ some (last_end', bytes')
    → Bounds rs last_end bytes last_end' bytes'
unfolding plan_bounds memory_is_page_aligned
plan_bounds-Bounds [] before last_end bytes e = record {
  below = tt;
  grows = ground arith;
  whole = λ h. ground arith;
  small = λ h. ground arith;
  sum = λ h. ground arith;
}
plan_bounds-Bounds (r ∷ rs) before last_end bytes {last_end'} {bytes'} e =
    elim (Bool-cases (r.type == usable)) [
      | inl u ↦
          let next =
            if ltb last_end (add64 r.base r.length) then add64 r.base r.length else last_end in
          let rest =
            plan_bounds-Bounds rs r.base next (add64 bytes r.length) {last_end' = last_end'}
              {bytes' = bytes'} (ground arith) in
          record {
            below = ((ground arith, λ h. ground (arith, rest.grows)), rest.below);
            grows = ground (arith, rest.grows);
            whole = λ h. rest.whole (ground arith);
            small = λ h. rest.small (ground arith);
            sum = λ h. ground (arith, rest.sum);
          }
      | inr u ↦
          let rest =
            plan_bounds-Bounds rs r.base last_end bytes {last_end' = last_end'} {bytes' = bytes'}
              (ground arith) in
          record {
            below = ((ground arith, λ h. ground arith), rest.below);
            grows = rest.grows;
            whole = rest.whole;
            small = rest.small;
            sum = λ h. ground (arith, rest.sum h);
          }
    ]

plan_place-inside :
    (rs : List Region) (bytes end : ℕ) {start : ℕ}
    → All (Below end) rs
    → plan_place rs bytes ≡ some start
    → (start % page_size ≡ 0) × (start + bytes ≤ end) × (0 < start)
unfolding plan_place
plan_place-inside [] bytes end h e = cc
plan_place-inside (r ∷ rs) bytes end {start} h e = elim (Option-cases (plan_place rs bytes)) [
  | inl nowhere ↦ ground (arith, h.0.0, h.0.1)
  | inr (x, later) ↦
      let (a, b, c) = plan_place-inside rs bytes end h.1 later in ground (arith, h.0.0, h.0.1)
]

-- What pmm_plan promises.
pub record IsPlan (m : MemoryMap) (p : Plan) : Type 0 where
  pub regions_in : All (IsInside p.span_frames) m.regions
  pub span_small : p.span_frames * page_size ≤ u64_max
  pub bitmap : p.bitmap_bytes ≡ bitmap_size p.span_frames
  pub both : 2 * p.bitmap_bytes ≤ p.storage_bytes
  pub not_empty : 0 < p.storage_bytes
  pub page_aligned : (p.storage_phys % page_size ≡ 0) × (p.storage_bytes % page_size ≡ 0)
  pub not_page_zero : 0 < p.storage_phys
  pub storage_in : p.storage_phys + p.storage_bytes ≤ p.span_frames * page_size
  pub total : m.usable_bytes ≡ bytes_of usable m.regions

All-IsInside :
    (rs : List Region) (end : ℕ) → All (Below end) rs → All (IsInside (end / page_size)) rs
All-IsInside [] end h = tt
All-IsInside (r ∷ rs) end h =
    ((h.0.0, λ u. let x = h.0.1 u in omega arith), All-IsInside rs end h.1)

-- pmm_plan puts the usable regions into the span, and its two bitmaps, one bit for each frame, into
-- whole pages of the span, not page zero. The map's usable bytes are those of its usable regions.
pub pmm_plan-IsPlan : (m : MemoryMap) {p : Plan} → pmm_plan m ≡ some p → IsPlan m p
unfolding pmm_plan plan_storage storage_size memory_align_up
pmm_plan-IsPlan m {p} e = elim (Option-cases (plan_bounds m.regions 0 0 0)) [
  | inl miss ↦ ground arith
  | inr ((last_end, bytes), hit) ↦
      let b = plan_bounds-Bounds m.regions 0 0 0 hit in
      let whole = b.whole (omega arith) in
      let small = b.small (omega arith) in
      let sum = b.sum (omega arith) in
      let frames = last_end / page_size in
      elim (Option-cases (plan_place m.regions p.storage_bytes)) [
        | inl nowhere ↦ ground arith
        | inr (start, place) ↦
            let (aligned, inside, pos) =
              plan_place-inside m.regions p.storage_bytes last_end b.below place in
            let span : p.span_frames ≡ last_end / page_size = ground arith in
            record {
              regions_in = rw span (All-IsInside m.regions last_end b.below);
              span_small = omega arith;
              bitmap = ground arith;
              both = ground arith;
              not_empty = ground arith;
              page_aligned = (ground arith, ground arith);
              not_page_zero = ground arith;
              storage_in = ground arith;
              total = ground arith;
            }
      ]
]
