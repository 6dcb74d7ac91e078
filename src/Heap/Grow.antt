-- ===== src/Heap/Grow.antt =====
-- grow_heap of kernel/memory/heap_core.c on a heap in order.
use utamo_os.Common.{
  ℕ, zero, suc, ◌+◌, ◌-◌, ◌*◌, ◌/◌, ◌%◌, ◌≤◌, ◌<◌, ◌≡◌, inl, inr, refl, sym, ap, ◌∙◌, Bool, true,
  false, not, List, [], ◌∷◌, ◌++◌, arith, if◌then◌else◌, Bool-cases, ◌==◌, leb,
}
use mathlib.Core.Path.{subst}
use utamo_os.Common.{some, none, max, ltb, IfSome, IfSome-if}
use utamo_os.Heap.State.{Arena, Heap, none_offset, min_block, block_size, block_used}
use utamo_os.Heap.Blocks.{insert_free, last_block, poison_free}
use utamo_os.Heap.Segment.{Cell, total, last_linked, last_size}
use utamo_os.Heap.Rewire.{Described}
use utamo_os.Heap.Unlink.{Described-Placed}
use utamo_os.Heap.Reshape.{last_size-append}
use utamo_os.Heap.Good.{
  IsCell, AreCells, Holds, IsContext, free_cell, IsCell-free, block_size-header, block_used-header,
  AreCells-split, AreCells-replace, requested_sum, requested_sum-append, used_count,
  used_count-append,
}
use utamo_os.Heap.Kept.{remove_free-Kept, insert_free-Kept}
use utamo_os.Heap.Payload.{poison_free-Holds, poison_free-Kept}
use utamo_os.Heap.Take.{free-IsCell}
use utamo_os.Heap.Live.{live, grown_cells, grown_cells-live, Unchanged}
use utamo_os.Heap.Fit.{last_block-Segment}
use utamo_os.Heap.Extend.{resized, appended, appended-Described, extended, extended-Described}
use utamo_os.Heap.Run.{Grow, extra_bytes, append_free, grow_heap}

extra_bytes-small :
    (required available growth : ℕ) → 1 ≤ growth → extra_bytes required available growth ≤ available
extra_bytes-small required available growth some_growth = grind arith

mul_aligned : (a b : ℕ) → b % 16 ≡ 0 → a * b % 16 ≡ 0
mul_aligned zero b h = grind arith
mul_aligned (suc a) b h = let before = mul_aligned a b h in grind arith

extra_bytes-aligned :
    (required available growth : ℕ)
    → available % 16 ≡ 0
    → growth % 16 ≡ 0
    → extra_bytes required available growth % 16 ≡ 0
extra_bytes-aligned required available growth aligned aligned' =
    let units = required / growth + (if required % growth == 0 then 0 else 1) in
    let product = mul_aligned units growth aligned' in
    elim (Bool-cases (leb units (available / growth))) [
      | inl fits ↦ rw fits product
      | inr all ↦ rw all aligned
    ]

extra_bytes-large :
    (required available growth : ℕ)
    → 64 ≤ required
    → 64 ≤ growth
    → required ≤ available
    → 64 ≤ extra_bytes required available growth
extra_bytes-large required available growth large large' room = grind arith

append_free-used :
    (a : Arena) (o size extra : ℕ)
    → block_used (a.blocks o) ≡ true
    → block_size (a.blocks o) ≡ size
    → append_free a o extra ≡ (a.mapped_size, insert_free (appended a extra size) a.mapped_size)
unfolding append_free
append_free-used a o size extra used e = rw (used, e, append_free) refl

append_free-free :
    (a : Arena) (o size extra : ℕ)
    → block_used (a.blocks o) ≡ false
    → block_size (a.blocks o) ≡ size
    → append_free a o extra ≡ (o, insert_free (extended a o size extra) o)
unfolding append_free
append_free-free a o size extra free e = rw (free, e, append_free) refl

append_free-Described :
    (a : Arena) (pre : List Cell) (d : Cell) (extra : ℕ)
    → Described a (pre ++ d ∷ [])
    → IsCell d
    → 1 ≤ extra
    → a.mapped_size + extra < none_offset
    → Described (append_free a (total pre) extra).1 (grown_cells pre d extra)
append_free-Described a pre d extra desc good some_extra bounded =
    let o = total pre in
    let q = last_linked 0 none_offset pre in
    let placed = Described-Placed a pre d [] desc in
    let size : block_size (a.blocks o) ≡ d.size =
      ap block_size placed.at
      ∙ block_size-header a.base o (last_size 0 pre) q none_offset d good.aligned in
    let usage : block_used (a.blocks o) ≡ d.used =
      ap block_used placed.at
      ∙ block_used-header a.base o (last_size 0 pre) q none_offset d good.aligned in
    elim (Bool-cases d.used) [
      | inl used ↦
          let cells : grown_cells pre d extra ≡ (pre ++ d ∷ []) ++ free_cell extra true ∷ [] =
            ap
              (λ b.
                if b
                then (pre ++ d ∷ []) ++ free_cell extra true ∷ []
                else pre ++ free_cell (d.size + extra) true ∷ [])
              used in
          let last : last_size 0 (pre ++ d ∷ []) ≡ d.size = last_size-append 0 pre (d ∷ []) in
          let step = append_free-used a o d.size extra (usage ∙ used) size in
          subst (λ r. Described r.1 (grown_cells pre d extra)) (sym step)
            (subst (Described (insert_free (appended a extra d.size) a.mapped_size)) (sym cells) (
              subst
                (λ s.
                  Described (insert_free (appended a extra s) a.mapped_size)
                    ((pre ++ d ∷ []) ++ free_cell extra true ∷ []))
                last (appended-Described a (pre ++ d ∷ []) extra desc some_extra bounded)))
      | inr free ↦
          let cells : grown_cells pre d extra ≡ pre ++ free_cell (d.size + extra) true ∷ [] =
            ap
              (λ b.
                if b
                then (pre ++ d ∷ []) ++ free_cell extra true ∷ []
                else pre ++ free_cell (d.size + extra) true ∷ [])
              free in
          let step = append_free-free a o d.size extra (usage ∙ free) size in
          subst (λ r. Described r.1 (grown_cells pre d extra)) (sym step)
            (subst (Described (insert_free (extended a o d.size extra) o)) (sym cells) (
              extended-Described a pre d.size extra
                (subst (λ c. Described a (pre ++ c ∷ [])) (IsCell-free d good free) desc) bounded))
    ]

-- The free block at the end is the one that grow_heap poisons.
grown_cells-last :
    (a : Arena) (pre : List Cell) (d : Cell) (extra : ℕ)
    → Described a (pre ++ d ∷ [])
    → IsCell d
    → (front : List Cell) × ((f : Cell) × ((grown_cells pre d extra ≡ front ++ f ∷ [])
          × ((append_free a (total pre) extra).0 ≡ total front)))
grown_cells-last a pre d extra desc good =
    let o = total pre in
    let placed = Described-Placed a pre d [] desc in
    let usage : block_used (a.blocks o) ≡ d.used =
      ap block_used placed.at
      ∙ block_used-header a.base o (last_size 0 pre) (last_linked 0 none_offset pre) none_offset d
          good.aligned in
    let size = block_size (a.blocks o) in
    let cells : Bool → List Cell = λ b.
      if b
      then (pre ++ d ∷ []) ++ free_cell extra true ∷ []
      else pre ++ free_cell (d.size + extra) true ∷ [] in
    elim (Bool-cases d.used) [
      | inl used ↦
          let step = append_free-used a o size extra (usage ∙ used) refl in
          (
            pre ++ d ∷ [],
            (
              free_cell extra true,
              (ap cells used, ap {A = ℕ × Arena} (λ r. r.0) step ∙ sym desc.size),
            ),
          )
      | inr free ↦
          let step = append_free-free a o size extra (usage ∙ free) refl in
          (
            pre,
            (free_cell (d.size + extra) true, (ap cells free, ap {A = ℕ × Arena} (λ r. r.0) step)),
          )
    ]

grown_cells-sums :
    (pre : List Cell) (d : Cell) (extra : ℕ)
    → IsCell d
    → (requested_sum (grown_cells pre d extra) ≡ requested_sum (pre ++ d ∷ []))
      × (used_count (grown_cells pre d extra) ≡ used_count (pre ++ d ∷ []))
grown_cells-sums pre d extra good = elim (Bool-cases d.used) [
  | inl used ↦
      let cells : grown_cells pre d extra ≡ (pre ++ d ∷ []) ++ free_cell extra true ∷ [] =
        ap
          (λ b.
            if b
            then (pre ++ d ∷ []) ++ free_cell extra true ∷ []
            else pre ++ free_cell (d.size + extra) true ∷ [])
          used in
      (
        ap requested_sum cells
            ∙ requested_sum-append (pre ++ d ∷ []) (free_cell extra true ∷ [])
            ∙ omega arith,
        ap used_count cells
            ∙ used_count-append (pre ++ d ∷ []) (free_cell extra true ∷ [])
            ∙ omega arith,
      )
  | inr free ↦
      let cells : grown_cells pre d extra ≡ pre ++ free_cell (d.size + extra) true ∷ [] =
        ap
          (λ b.
            if b
            then (pre ++ d ∷ []) ++ free_cell extra true ∷ []
            else pre ++ free_cell (d.size + extra) true ∷ [])
          free in
      let same : d ≡ free_cell d.size true = IsCell-free d good free in
      (
        ap requested_sum cells
            ∙ requested_sum-append pre (free_cell (d.size + extra) true ∷ [])
            ∙ sym (requested_sum-append pre (free_cell d.size true ∷ []))
            ∙ ap (λ c. requested_sum (pre ++ c ∷ [])) (sym same),
        ap used_count cells
            ∙ used_count-append pre (free_cell (d.size + extra) true ∷ [])
            ∙ sym (used_count-append pre (free_cell d.size true ∷ []))
            ∙ ap (λ c. used_count (pre ++ c ∷ [])) (sym same),
      )
]

AreCells-snoc :
    (after_free : Bool) (pre : List Cell) (d : Cell) (extra : ℕ)
    → AreCells after_free (pre ++ d ∷ [])
    → d.used ≡ true
    → 64 ≤ extra
    → extra % 16 ≡ 0
    → AreCells after_free ((pre ++ d ∷ []) ++ free_cell extra true ∷ [])
AreCells-snoc after_free [] d extra (good, apart, rest) used large aligned =
    (good, apart, (free-IsCell extra large aligned, inr (ap not used), tt))
AreCells-snoc after_free (x ∷ pre) d extra (good, apart, rest) used large aligned =
    (good, apart, AreCells-snoc (not x.used) pre d extra rest used large aligned)

grown_cells-AreCells :
    (pre : List Cell) (d : Cell) (extra : ℕ)
    → AreCells false (pre ++ d ∷ [])
    → (d.used ≡ true → 64 ≤ extra)
    → extra % 16 ≡ 0
    → AreCells false (grown_cells pre d extra)
grown_cells-AreCells pre d extra good large aligned = elim (Bool-cases d.used) [
  | inl used ↦
      let cells : grown_cells pre d extra ≡ (pre ++ d ∷ []) ++ free_cell extra true ∷ [] =
        ap
          (λ b.
            if b
            then (pre ++ d ∷ []) ++ free_cell extra true ∷ []
            else pre ++ free_cell (d.size + extra) true ∷ [])
          used in
      subst (AreCells false) (sym cells)
        (AreCells-snoc false pre d extra good used (large used) aligned)
  | inr free ↦
      let cells : grown_cells pre d extra ≡ pre ++ free_cell (d.size + extra) true ∷ [] =
        ap
          (λ b.
            if b
            then (pre ++ d ∷ []) ++ free_cell extra true ∷ []
            else pre ++ free_cell (d.size + extra) true ∷ [])
          free in
      let (cell, _) = AreCells-split false pre d [] good in
      let size_large = cell.large in
      let size_aligned = cell.aligned in
      subst (AreCells false) (sym cells) (
        AreCells-replace false pre (d ∷ []) (free_cell (d.size + extra) true ∷ [])
          (λ b g. (
            free-IsCell (d.size + extra) (omega arith) (omega arith),
            elim (g.1) [ inl used ↦ absurd (ground arith) | inr apart ↦ inr apart ],
            tt,
          ))
          good)
]

-- The heap after growth, with the block that was poisoned
abbrev grown : Heap → ℕ → ℕ → Heap
grown h o extra =
    let appended = append_free h.arena o extra in
    poison_free (record h { arena = appended.1 }) appended.0

append_free-mapped :
    (a : Arena) (o extra : ℕ)
    → ((append_free a o extra).1.base ≡ a.base)
      × ((append_free a o extra).1.mapped_size ≡ a.mapped_size + extra)
append_free-mapped a o extra =
    let size = block_size (a.blocks o) in
    elim (Bool-cases (block_used (a.blocks o))) [
      | inl used ↦
          let step = append_free-used a o size extra used refl in
          let (base, mapped) = insert_free-Kept (appended a extra size) a.mapped_size in
          (
            ap {A = ℕ × Arena} (λ r. r.1.base) step ∙ base,
            ap {A = ℕ × Arena} (λ r. r.1.mapped_size) step ∙ mapped,
          )
      | inr free ↦
          let step = append_free-free a o size extra free refl in
          let (base, mapped) = insert_free-Kept (extended a o size extra) o in
          let (base', mapped') = remove_free-Kept (resized a (a.mapped_size + extra)) o in
          (
            ap {A = ℕ × Arena} (λ r. r.1.base) step ∙ base ∙ base',
            ap {A = ℕ × Arena} (λ r. r.1.mapped_size) step ∙ mapped ∙ mapped',
          )
    ]

grown-Holds :
    (h : Heap) (pre : List Cell) (d : Cell) (extra : ℕ)
    → Holds h (pre ++ d ∷ [])
    → 1 ≤ extra
    → (d.used ≡ true → 64 ≤ extra)
    → extra % 16 ≡ 0
    → extra + h.arena.mapped_size ≤ h.max_size
    → Holds (grown h (total pre) extra) (grown_cells pre d extra)
grown-Holds h pre d extra holds some_extra large aligned room =
    let o = total pre in
    let (
      initialized, some_base, base_aligned, mapped_large, fits, in_range, growth_large,
      mapped_aligned, max_aligned, growth_aligned,
    ) =
      holds.context in
    let (cell, _) = AreCells-split false pre d [] holds.cells_in_order in
    let (base, mapped) = append_free-mapped h.arena o extra in
    let a = (append_free h.arena o extra).1 in
    let described =
      append_free-Described h.arena pre d extra holds.described cell some_extra (omega arith) in
    let (sum, count) = grown_cells-sums pre d extra cell in
    let plain : Holds (record h { arena = a }) (grown_cells pre d extra) = (record {
      described = described;
      cells_in_order = grown_cells-AreCells pre d extra holds.cells_in_order large aligned;
      context =
          subst (λ b. IsContext h.initialized b a.mapped_size h.max_size h.growth_size) (sym base)
            (subst (λ m. IsContext h.initialized h.arena.base m h.max_size h.growth_size)
              (sym mapped)
              (
                initialized,
                some_base,
                base_aligned,
                omega arith,
                omega arith,
                in_range,
                growth_large,
                omega arith,
                max_aligned,
                growth_aligned,
              ));
      used_bytes = sum ∙ holds.used_bytes;
      live_allocations = count ∙ holds.live_allocations;
      peak_usage = holds.peak_usage;
    }) in
    let (front, (f, (e, here))) = grown_cells-last h.arena pre d extra holds.described cell in
    subst (Holds (grown h o extra)) (sym e) (
      poison_free-Holds (record h { arena = a }) (append_free h.arena o extra).0 front f []
        (subst (Holds (record h { arena = a })) e plain) here)

extra_bytes-positive :
    (required available growth : ℕ)
    → 1 ≤ required
    → 1 ≤ growth
    → required ≤ available
    → 1 ≤ extra_bytes required available growth
extra_bytes-positive required available growth some_required some_growth room = grind arith

-- The last block, with those before it
last_cell :
    (h : Heap) (cells : List Cell)
    → Holds h cells
    → (pre : List Cell) × (d : Cell) × ((cells ≡ pre ++ d ∷ [])
        × (last_block h.arena h.arena.mapped_size 0 ≡ total pre))
last_cell h [] holds =
    let size = holds.described.size in let large = holds.context.3 in absurd (omega arith)
last_cell h (c ∷ cs) holds =
    let (pre, d, (e, last)) =
      last_block-Segment h.arena 0 0 none_offset h.arena.mapped_size false c cs
        holds.described.holds holds.cells_in_order (omega (arith, holds.described.size))
        (omega (arith, holds.described.size)) in
    (pre, d, (e, last ∙ omega arith))

-- Growth that succeeds leaves a heap in order, with the same allocations.
pub grow_heap-Holds :
    (h : Heap) (grow : Grow) (requested : ℕ) (cells : List Cell)
    → Holds h cells
    → IfSome (Unchanged h.arena.base (live 0 cells)) (grow_heap h grow requested)
unfolding grow_heap
grow_heap-Holds h none requested cells holds = tt
grow_heap-Holds h (some grow) requested cells holds =
    let P : Heap → Type 0 = Unchanged h.arena.base (live 0 cells) in
    let a = h.arena in
    let (pre, d, (e, last)) = last_cell h cells holds in
    let holds' = subst (Holds h) e holds in
    let (
      initialized, some_base, base_aligned, mapped_large, fits, in_range, growth_large,
      mapped_aligned, max_aligned, growth_aligned,
    ) =
      holds.context in
    let (cell, _) = AreCells-split false pre d [] holds'.cells_in_order in
    let tail = a.blocks (last_block a a.mapped_size 0) in
    let placed = Described-Placed a pre d [] holds'.described in
    let usage : block_used tail ≡ d.used =
      ap (λ o. block_used (a.blocks o)) last
      ∙ ap block_used placed.at
      ∙ block_used-header a.base (total pre) (last_size 0 pre) (last_linked 0 none_offset pre)
          none_offset d cell.aligned in
    let tail_free = if block_used tail then 0 else block_size tail in
    let needed = max requested min_block in
    let required = needed - tail_free in
    let available = h.max_size - a.mapped_size in
    let extra = extra_bytes required available h.growth_size in
    let small = extra_bytes-small required available h.growth_size (omega arith) in
    let aligned =
      extra_bytes-aligned required available h.growth_size (omega arith) growth_aligned in
    let o = last_block a a.mapped_size 0 in
    let grown_base : (grown h o extra).arena.base ≡ a.base =
      (poison_free-Kept (record h { arena = (append_free a o extra).1 })
        (append_free a o extra).0).0
      ∙ (append_free-mapped a o extra).0 in
    IfSome-if P (a.mapped_size == h.max_size) none _ (λ h. tt)
      (λ more.
        IfSome-if P (leb needed tail_free) (some h) _ (λ h. (cells, (holds, (refl, refl))))
          (λ short.
            IfSome-if P (ltb available required) none _ (λ h. tt)
              (λ room.
                IfSome-if P (not (grow a.mapped_size (a.mapped_size + extra))) none _ (λ h. tt)
                  (λ granted. (
                    grown_cells pre d extra,
                    (
                      subst (λ o. Holds (grown h o extra) (grown_cells pre d extra)) (sym last)
                          (grown-Holds h pre d extra holds'
                            (extra_bytes-positive required available h.growth_size (ground arith)
                              (omega arith) (ground arith))
                            (λ used.
                              let nothing : tail_free ≡ 0 =
                                ap (λ b. if b then 0 else block_size tail) (usage ∙ used) in
                              extra_bytes-large required available h.growth_size (omega arith)
                                growth_large (ground arith))
                            aligned (omega arith)),
                      (grown_cells-live pre d extra ∙ ap (live 0) (sym e), grown_base),
                    ),
                  )))))
