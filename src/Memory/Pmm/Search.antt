-- ===== src/Memory/Pmm/Search.antt =====
-- find_run and the two scans of pmm_core_alloc_pages: what they find is free, and they find a run
-- whenever there is one.
use utamo_os.Common.{
  ℕ, suc, zero, ◌+◌, ◌-◌, ◌≤◌, ◌<◌, ◌≡◌, false, none, some, arith, ltb, ◌==◌, inl, inr, Bool-cases,
  Option-cases,
}
use utamo_os.Memory.Pmm.{Pmm, is_occupied, find_run, find_first}

-- the `count` frames from `r` on are free
abbrev pub IsFreeRun : Pmm → ℕ → ℕ → Type 0
IsFreeRun s r count = (g : ℕ) → r ≤ g → g < r + count → is_occupied s g ≡ false

module _ (s : Pmm) (count : ℕ) (positive : 0 < count) where
  -- `run` free frames end at `frame`.
  pub find_run_sound :
      (n frame run : ℕ) {r : ℕ}
      → run < count
      → run ≤ frame
      → IsFreeRun s (frame - run) run
      → find_run s count n frame run ≡ some r
      → (r + count ≤ frame + n) × IsFreeRun s r count
  unfolding find_run
  find_run_sound zero frame run small le before e = cc
  find_run_sound (suc n) frame run {r} small le before e = elim (Bool-cases (is_occupied s frame)) [
    | inl taken ↦
        let rest =
          find_run_sound n (frame + 1) 0 {r = r} positive (omega arith)
            (λ g a b. absurd (omega arith)) (ground arith) in
        (omega arith, rest.1)
    | inr free ↦
        let longer : IsFreeRun s (frame + 1 - (run + 1)) (run + 1) = λ g a b.
          elim (Bool-cases (g == frame)) [
            | inl here ↦ ground arith
            | inr other ↦ before g (omega arith) (ground arith)
          ] in
        elim (Bool-cases (run + 1 == count)) [
          | inl full ↦
              let found : frame - (count - 1) ≡ r = ground arith in
              (ground arith, λ g a b. longer g (ground arith) (ground arith))
          | inr short ↦
              let rest =
                find_run_sound n (frame + 1) (run + 1) {r = r} (ground arith) (omega arith) longer
                  (ground arith) in
              (omega arith, rest.1)
        ]
  ]

  pub find_run_complete :
      (n frame run r : ℕ)
      → run < count
      → run ≤ frame
      → find_run s count n frame run ≡ none
      → frame - run ≤ r
      → r + count ≤ frame + n
      → ¬ IsFreeRun s r count
  unfolding find_run
  find_run_complete zero frame run r small le e lo hi all = omega arith
  find_run_complete (suc n) frame run r small le e lo hi all =
      elim (Bool-cases (is_occupied s frame)) [
        | inl taken ↦ elim (Bool-cases (ltb frame r)) [
          | inl later ↦
              find_run_complete n (frame + 1) 0 r positive (omega arith) (ground arith)
                (ground arith) (omega arith) all
          | inr early ↦ ground (arith, all frame (ground arith) (omega arith))
        ]
        | inr free ↦
            find_run_complete n (frame + 1) (run + 1) r (ground arith) (omega arith) (ground arith)
              (omega arith) (omega arith) all
      ]

  pub find_first_sound :
      {r : ℕ}
      → s.cursor ≤ s.plan.span_frames
      → find_first s count ≡ some r
      → (r + count ≤ s.plan.span_frames) × IsFreeRun s r count
  unfolding find_first
  find_first_sound {r} cur e =
      elim (Option-cases (find_run s count (s.plan.span_frames - s.cursor) s.cursor 0)) [
        | inl miss ↦
            let again : find_run s count s.plan.span_frames 0 0 ≡ some r = ground arith in
            let found =
              find_run_sound s.plan.span_frames 0 0 {r = r} positive (omega arith)
                (λ g a b. absurd (omega arith)) again in
            (omega arith, found.1)
        | inr (x, hit) ↦
            let same : find_run s count (s.plan.span_frames - s.cursor) s.cursor 0 ≡ some r =
              ground arith in
            let found =
              find_run_sound (s.plan.span_frames - s.cursor) s.cursor 0 {r = r} positive
                (omega arith) (λ g a b. absurd (omega arith)) same in
            (omega arith, found.1)
      ]

  pub find_first_complete :
      (r : ℕ) → find_first s count ≡ none → r + count ≤ s.plan.span_frames → ¬ IsFreeRun s r count
  unfolding find_first
  find_first_complete r e inside all =
      elim (Option-cases (find_run s count (s.plan.span_frames - s.cursor) s.cursor 0)) [
        | inl miss ↦ elim (Bool-cases (s.cursor == 0)) [
          | inl start ↦
              find_run_complete (s.plan.span_frames - s.cursor) s.cursor 0 r positive (omega arith)
                miss (ground arith) (ground arith) all
          | inr later ↦
              find_run_complete s.plan.span_frames 0 0 r positive (omega arith) (ground arith)
                (omega arith) (omega arith) all
        ]
        | inr (x, hit) ↦ ground arith
      ]
