-- ===== src/Heap/Allocate.antt =====
-- heap_core_alloc of kernel/memory/heap_core.c on a heap in order.
use utamo_os.Common.{
  ℕ, ◌+◌, ◌%◌, ◌≤◌, ◌≡◌, ◌≢◌, ◌⊎◌, inl, inr, refl, sym, ap, ◌∙◌, Bool, true, false, ◌&&◌, List, ◌∷◌,
  ◌++◌, arith, if◌then◌else◌, Bool-cases, ◌==◌, Option, some, none, Option-cases, IfSome,
  IfSome-guard, ==_iff,
}
use mathlib.Core.Path.{subst}
use utamo_os.Heap.State.{Heap, none_offset, header_size, saturated}
use utamo_os.Heap.Validate.{heap_core_validate}
use utamo_os.Heap.Segment.{Cell, total}
use utamo_os.Heap.Good.{Holds, IsCell-free, AreCells-split}
use utamo_os.Heap.Blocks.{find_fit}
use utamo_os.Heap.Run.{
  Grow, grow_heap, take_block, fit_of, allocate_at, allocate, required_size, failed_allocation,
  or_failed, checked_size, heap_core_alloc,
}
use utamo_os.Heap.Take.{trimmed}
use utamo_os.Heap.Taken.{take_block-Holds, take_block-base}
use utamo_os.Heap.Fit.{NotFound, Found, find_fit-Segment}
use utamo_os.Heap.Grow.{grow_heap-Holds}
use utamo_os.Heap.Live.{live, Unchanged, live-append, live-free, trimmed-live}

-- One more, at the pointer
abbrev pub Gained : ℕ → List (ℕ × ℕ) → ℕ → ℕ → Heap → Type 0
Gained base allocations requested pointer h =
    (before after : List (ℕ × ℕ)) × (offset : ℕ) × (cells : List Cell) × (Holds h cells
      × ((pointer ≡ base + (offset + header_size))
          × ((allocations ≡ before ++ after)
              × ((live 0 cells ≡ before ++ (offset, requested) ∷ after) × (h.arena.base ≡ base)))))

abbrev pub Allocates : ℕ → List (ℕ × ℕ) → ℕ → Option ℕ × Heap → Type 0
Allocates base allocations requested (none, h) = Unchanged base allocations h
Allocates base allocations requested (some pointer, h) = Gained base allocations requested pointer h

pub take_block-pointer :
    (h : Heap) (o requested needed : ℕ)
    → (take_block h o requested needed).0 ≡ some (h.arena.base + (o + header_size))
unfolding take_block
take_block-pointer h o requested needed = refl

take_block-Gained :
    (h : Heap) (cells : List Cell) (requested needed found : ℕ)
    → Holds h cells
    → Found needed 0 cells found
    → needed % 16 ≡ 0
    → 1 ≤ requested
    → requested + 48 ≤ needed
    → Allocates h.arena.base (live 0 cells) requested (take_block h found requested needed)
take_block-Gained h cells requested needed found holds (pre, c, post, (e, at, free, fits)) aligned
      some_requested room =
    let o = total pre in
    let holds' = subst (Holds h) e holds in
    let (cell, _) = AreCells-split false pre c post holds'.cells_in_order in
    let holds'' = subst (λ d. Holds h (pre ++ d ∷ post)) (IsCell-free c cell free) holds' in
    let taken =
      take_block-Holds h pre c.size requested needed post holds'' fits aligned some_requested
        room in
    let here : found ≡ o = at ∙ omega arith in
    let listed : live 0 cells ≡ live 0 pre ++ live (o + c.size) post =
      ap (live 0) e
      ∙ live-append 0 o pre (c ∷ post) (omega arith)
      ∙ ap (λ t. live 0 pre ++ t) (live-free o c post free) in
    let listed' : live 0 (pre ++ trimmed c.size needed requested post)
        ≡ live 0 pre ++ (o, requested) ∷ live (o + c.size) post =
      live-append 0 o pre (trimmed c.size needed requested post) (omega arith)
      ∙ ap (λ t. live 0 pre ++ t) (trimmed-live o c.size needed requested post) in
    subst (λ k. Allocates h.arena.base (live 0 cells) requested (take_block h k requested needed))
      (sym here)
      (subst
        (λ p.
          Allocates h.arena.base (live 0 cells) requested (p, (take_block h o requested needed).1))
        (sym (take_block-pointer h o requested needed))
        (
          live 0 pre,
          live (o + c.size) post,
          o,
          pre ++ trimmed c.size needed requested post,
          (taken, (refl, (listed, (listed', take_block-base h o requested needed)))),
        ))

-- What find_fit finds in a heap in order
pub fit_of-Found :
    (h : Heap) (cells : List Cell) (needed : ℕ)
    → Holds h cells
    → NotFound needed cells (fit_of h needed) ⊎ Found needed 0 cells (fit_of h needed)
fit_of-Found h cells needed holds =
    let d = holds.described in
    let size = d.size in
    let bounded = d.bounded in
    let found =
      find_fit-Segment h.arena needed 0 0 none_offset h.arena.mapped_size false cells d.holds
        holds.cells_in_order (omega arith) (omega arith) in
    subst
      (λ k.
        NotFound needed cells (find_fit h.arena needed h.arena.mapped_size k)
        ⊎ Found needed 0 cells (find_fit h.arena needed h.arena.mapped_size k))
      d.head found

allocate_at-Allocates :
    (h : Heap) (cells : List Cell) (requested needed : ℕ)
    → Holds h cells
    → needed % 16 ≡ 0
    → 1 ≤ requested
    → requested + 48 ≤ needed
    → Allocates h.arena.base
        (live 0 cells)
        requested
        (allocate_at h (fit_of h needed) requested needed)
allocate_at-Allocates h cells requested needed holds aligned some_requested room =
    at (fit_of h needed) (fit_of-Found h cells needed holds)
  where
    nothing :
        (offset : ℕ)
        → (offset == none_offset) ≡ true
        → Allocates h.arena.base (live 0 cells) requested (allocate_at h offset requested needed)
    nothing offset stop =
        let step : allocate_at h offset requested needed ≡ (none, h) =
          rw (stop, allocate_at) refl in
        subst (Allocates h.arena.base (live 0 cells) requested) (sym step)
          (cells, (holds, (refl, refl)))

    at :
        (offset : ℕ)
        → NotFound needed cells offset ⊎ Found needed 0 cells offset
        → Allocates h.arena.base (live 0 cells) requested (allocate_at h offset requested needed)
    at offset (inl (e, _)) = nothing offset ((==_iff offset none_offset).1 e)
    at offset (inr f) = elim (Bool-cases (offset == none_offset)) [
      | inl stop ↦ nothing offset stop
      | inr go ↦
          let step : allocate_at h offset requested needed ≡ take_block h offset requested needed =
            rw (go, allocate_at) refl in
          subst (Allocates h.arena.base (live 0 cells) requested) (sym step)
            (take_block-Gained h cells requested needed offset holds f aligned some_requested room)
    ]

-- The allocation from the list of free blocks, after growth if that is allowed and necessary
pub allocate-Allocates :
    (h : Heap) (grow : Grow) (cells : List Cell) (requested needed : ℕ) (allow_growth : Bool)
    → Holds h cells
    → needed % 16 ≡ 0
    → 1 ≤ requested
    → requested + 48 ≤ needed
    → Allocates h.arena.base
        (live 0 cells)
        requested
        (allocate h grow requested needed allow_growth)
unfolding allocate
allocate-Allocates h grow cells requested needed allow_growth holds aligned some_requested room =
    elim (Bool-cases (fit_of h needed == none_offset && allow_growth)) [
      | inr direct ↦
          rw (direct, allocate)
            (allocate_at-Allocates h cells requested needed holds aligned some_requested room)
      | inl growing ↦
          rw (growing, allocate)
            (after (grow_heap h grow needed) (grow_heap-Holds h grow needed cells holds))
    ]
  where
    after :
        (g : Option Heap)
        → IfSome (Unchanged h.arena.base (live 0 cells)) g
        → Allocates h.arena.base (live 0 cells) requested (elim g [
          | none ↦ (none, h)
          | some grown ↦ allocate_at grown (fit_of grown needed) requested needed
        ])
    after none u = (cells, (holds, (refl, refl)))
    after (some g) (cells', (holds', (same, base))) =
        subst
          (λ l.
            Allocates h.arena.base l requested (allocate_at g (fit_of g needed) requested needed))
          same
          (subst
            (λ b.
              Allocates b (live 0 cells') requested
                (allocate_at g (fit_of g needed) requested needed))
            base
            (allocate_at-Allocates g cells' requested needed holds' aligned some_requested room))

required_size-rounds :
    (size : ℕ)
    → size ≢ 0
    → IfSome (λ needed. (needed % 16 ≡ 0) × (size + 48 ≤ needed)) (required_size size)
unfolding required_size
required_size-rounds size some_size =
    IfSome-guard (λ needed. (needed % 16 ≡ 0) × (size + 48 ≤ needed)) _ _
      (λ h. (omega arith, omega arith))

-- What is asked for is rounded up, with the header.
pub checked_size-rounds :
    (h : Heap) (size needed : ℕ)
    → checked_size h size ≡ some needed
    → size ≢ 0
    → (needed % 16 ≡ 0) × (size + 48 ≤ needed)
checked_size-rounds h size needed e some_size = elim (Bool-cases (heap_core_validate h)) [
  | inl valid ↦
      let same : required_size size ≡ some needed =
        ap (λ b. if b then required_size size else none) (sym valid) ∙ e in
      subst (IfSome (λ n. (n % 16 ≡ 0) × (size + 48 ≤ n))) same
        (required_size-rounds size some_size)
  | inr invalid ↦
      let clash : none ≡ some needed =
        ap (λ b. if b then required_size size else none) (sym invalid) ∙ e in
      subst (IfSome (λ n. (n % 16 ≡ 0) × (size + 48 ≤ n))) clash tt
]

-- A failure is counted.
pub failed_allocation-Unchanged :
    (h : Heap) (base : ℕ) (allocations : List (ℕ × ℕ))
    → Unchanged base allocations h
    → Unchanged base allocations (failed_allocation h)
unfolding failed_allocation
failed_allocation-Unchanged h base allocations (cells, (holds, same)) =
    let step : failed_allocation h
        ≡ record h { failed_allocations = saturated h.failed_allocations } =
      rw (holds.context.0, failed_allocation) refl in
    subst (Unchanged base allocations) (sym step) (
      cells,
      (
        record {
          described = holds.described;
          cells_in_order = holds.cells_in_order;
          context = holds.context;
          used_bytes = holds.used_bytes;
          live_allocations = holds.live_allocations;
          peak_usage = holds.peak_usage;
        },
        same,
      ),
    )

or_failed-Allocates :
    (base : ℕ) (allocations : List (ℕ × ℕ)) (requested : ℕ) (r : Option ℕ × Heap)
    → Allocates base allocations requested r
    → Allocates base allocations requested (or_failed r)
or_failed-Allocates base allocations requested (none, h) u =
    failed_allocation-Unchanged h base allocations u
or_failed-Allocates base allocations requested (some p, h) g = g

-- On a heap in order, heap_core_alloc leaves a heap in order: with the same allocations if it returns NULL, else
-- with one more, of the bytes that were asked for, at the pointer that it returns.
pub heap_core_alloc-Allocates :
    (h : Heap) (grow : Grow) (cells : List Cell) (size : ℕ)
    → Holds h cells
    → Allocates h.arena.base (live 0 cells) size (heap_core_alloc h grow size)
unfolding heap_core_alloc
heap_core_alloc-Allocates h grow cells size holds =
    let base = h.arena.base in
    let now : Unchanged base (live 0 cells) h = (cells, (holds, (refl, refl))) in
    elim (Bool-cases (size == 0)) [
      | inl nothing ↦
          let step : heap_core_alloc h grow size ≡ (none, h) = rw (nothing, heap_core_alloc) refl in
          subst (Allocates base (live 0 cells) size) (sym step) now
      | inr something ↦ elim (Option-cases (checked_size h size)) [
        | inl refused ↦
            let step : heap_core_alloc h grow size ≡ (none, failed_allocation h) =
              rw (something, refused, heap_core_alloc) refl in
            subst (Allocates base (live 0 cells) size) (sym step)
              (failed_allocation-Unchanged h base (live 0 cells) now)
        | inr (needed, accepted) ↦
            let step : heap_core_alloc h grow size ≡ or_failed (allocate h grow size needed true) =
              rw (something, accepted, heap_core_alloc) refl in
            let (aligned, room) = checked_size-rounds h size needed accepted (λ e. ground arith) in
            subst (Allocates base (live 0 cells) size) (sym step) (
              or_failed-Allocates base (live 0 cells) size (allocate h grow size needed true) (
                allocate-Allocates h grow cells size needed true holds aligned (ground arith) room))
      ]
    ]
