-- ===== src/Heap/Release.antt =====
-- `release` and heap_core_free of kernel/memory/heap_core.c on a heap in order.
use utamo_os.Common.{
  ℕ, ◌+◌, ◌-◌, ◌%◌, ◌≤◌, ◌≡◌, ◌⊎◌, inl, inr, refl, sym, ap, ◌∙◌, Bool, true, false, not, ◌&&◌, List,
  [], ◌∷◌, ◌++◌, arith, Bool-cases, ◌==◌, sub64,
}
use mathlib.Core.Path.{subst}
use utamo_os.Heap.State.{Block, Arena, Heap, block_used, write_block, saturated}
use utamo_os.Heap.Segment.{Cell, total}
use utamo_os.Heap.Blocks.{insert_free, following_previous}
use utamo_os.Heap.Run.{next_is_free}
use utamo_os.Heap.Give.{Merged, merge_before, merge_after, free_block, release}
use utamo_os.Heap.Rewire.{Described, with_link}
use utamo_os.Heap.Unlink.{Described-Placed}
use utamo_os.Heap.Good.{
  AreCells, Holds, used_cell, free_cell, head_free, AreCells-split, requested_sum,
  requested_sum-append, used_count, used_count-append, counted,
}
use utamo_os.Heap.Trim.{total-snoc}
use utamo_os.Heap.Kept.{Kept, remove_free-Kept, insert_free-Kept, following_previous-Kept}
use utamo_os.Heap.Take.{Holds-rearranged, free-IsCell, requested_sum-le, used_count-le}
use utamo_os.Heap.Blocks.{poison_free}
use utamo_os.Heap.Payload.{poison_free-Holds, poison_free-Kept}
use utamo_os.Heap.Live.{live, live-append, live-free, Unchanged}
use utamo_os.Heap.Merge.{
  AreCells-cut, AreCells-join, joined, joined-Described, Merging, merge_after-MergedAfter,
  merge_before-MergedBefore,
}

merge_before-Kept : (a : Arena) (o : ℕ) → Kept a (merge_before a o).arena
unfolding merge_before
merge_before-Kept a o =
    let previous = (a.blocks o).prev_size in
    elim (Bool-cases (not (previous == 0) && not (block_used (a.blocks (o - previous))))) [
      | inl go ↦ rw (go, merge_before) (remove_free-Kept a (o - previous))
      | inr stop ↦ rw (stop, merge_before) (refl, refl)
    ]

merge_after-Kept : (m : Merged) → Kept m.arena (merge_after m).arena
unfolding merge_after
merge_after-Kept m = elim (Bool-cases (next_is_free m.arena (m.offset + m.size))) [
  | inl go ↦ rw (go, merge_after) (remove_free-Kept m.arena (m.offset + m.size))
  | inr stop ↦ rw (stop, merge_after) (refl, refl)
]

free_block-Kept : (a : Arena) (o : ℕ) → Kept a (free_block a o).1
unfolding free_block
free_block-Kept a o =
    let b = merge_before a o in
    let m = merge_after b in
    let written = write_block m.arena m.offset m.size m.previous 0 false in
    let (e1, f1) = merge_before-Kept a o in
    let (e2, f2) = merge_after-Kept b in
    let (e3, f3) = following_previous-Kept written m.offset m.size in
    let (e4, f4) = insert_free-Kept (following_previous written m.offset m.size) m.offset in
    (e4 ∙ e3 ∙ e2 ∙ e1, f4 ∙ f3 ∙ f2 ∙ f1)

-- What a client sees of the cells before the freed block, and their place, is that of `pre'`.
abbrev Left : List Cell → List Cell → List Cell → ℕ → Type 0
Left pre pre' mid size =
    (requested_sum pre ≡ requested_sum pre')
    × (used_count pre ≡ used_count pre')
    × (live 0 pre ≡ live 0 pre')
    × (total pre' + total mid ≡ total pre + size)
    × (64 ≤ total mid)
    × (total mid % 16 ≡ 0)
    × AreCells false pre'

AreCells-Left :
    (pre : List Cell) (size requested : ℕ) (post : List Cell) (m : Merged) (pre' mid : List Cell)
    → AreCells false (pre ++ used_cell size requested ∷ post)
    → ((pre ≡ pre') × (mid ≡ used_cell size requested ∷ []))
      ⊎ ((b : Cell) × ((pre ≡ pre' ++ b ∷ [])
            × ((mid ≡ with_link b false ∷ used_cell size requested ∷ []) × (b.used ≡ false))))
    → Left pre pre' mid size
AreCells-Left pre size requested post m pre' mid good (inl (e, e')) =
    let (cell, _) = AreCells-split false pre (used_cell size requested) post good in
    let large = cell.large in
    let aligned = cell.aligned in
    let measure : total mid ≡ size + 0 = ap total e' in
    (
      ap requested_sum e,
      ap used_count e,
      ap (live 0) e,
      omega (arith, ap total e),
      omega arith,
      omega arith,
      subst (AreCells false) e (AreCells-cut false pre (used_cell size requested ∷ post) good).0,
    )
AreCells-Left pre size requested post m pre' mid good (inr (b, (e, (e', free)))) =
    let (cell, _) = AreCells-split false pre (used_cell size requested) post good in
    let before =
      subst (AreCells false) e (AreCells-cut false pre (used_cell size requested ∷ post) good).0 in
    let (before', _) = AreCells-cut false pre' (b ∷ []) before in
    let (cell', _) = AreCells-split false pre' b [] before in
    let large = cell.large in
    let aligned = cell.aligned in
    let aligned' = cell'.aligned in
    let none_requested = cell'.unused free in
    let none_counted : counted b.used ≡ 0 = ap counted free in
    let measure : total mid ≡ b.size + (size + 0) = ap total e' in
    (
      ap requested_sum e ∙ requested_sum-append pre' (b ∷ []) ∙ omega arith,
      ap used_count e ∙ used_count-append pre' (b ∷ []) ∙ omega arith,
      ap (live 0) e
          ∙ live-append 0 (total pre') pre' (b ∷ []) (omega arith)
          ∙ ap (λ t. live 0 pre' ++ t) (live-free (total pre') b [] free)
          ∙ append-nil (live 0 pre'),
      omega (arith, ap total e, total-snoc pre' b),
      omega arith,
      omega arith,
      before',
    )
  where
    append-nil : (xs : List (ℕ × ℕ)) → xs ++ [] ≡ xs
    append-nil [] = refl
    append-nil (x ∷ xs) = ap (λ t. x ∷ t) (append-nil xs)

-- The same of the cells behind it
abbrev Right : List Cell → List Cell → List Cell → List Cell → Type 0
Right post rest mid mid' =
    (gap : ℕ) × ((requested_sum post ≡ requested_sum rest)
      × ((used_count post ≡ used_count rest)
          × (((o : ℕ) → live o post ≡ live (o + gap) rest)
              × ((total mid' ≡ total mid + gap) × ((gap % 16 ≡ 0) × AreCells true rest)))))

head_used :
    (after_free : Bool) (post : List Cell)
    → AreCells after_free post
    → head_free post ≡ false
    → AreCells true post
head_used after_free [] good e = tt
head_used after_free (n ∷ post) (good, apart, rest) e = (good, inl (ground arith), rest)

AreCells-Right :
    (post rest mid mid' : List Cell)
    → AreCells false post
    → ((mid' ≡ mid) × ((rest ≡ post) × (head_free post ≡ false)))
      ⊎ ((n : Cell) × ((mid' ≡ mid ++ with_link n false ∷ [])
            × ((post ≡ n ∷ rest) × (n.used ≡ false))))
    → Right post rest mid mid'
AreCells-Right post rest mid mid' good (inl (e, (e', stop))) = (
  0,
  (
    ap requested_sum (sym e'),
    (
      ap used_count (sym e'),
      (
        (λ o. ap (λ k. live k post) (omega arith) ∙ ap (live (o + 0)) (sym e')),
        (
          omega (arith, ap total e),
          (refl, subst (AreCells true) (sym e') (head_used false post good stop)),
        ),
      ),
    ),
  ),
)
AreCells-Right post rest mid mid' good (inr (n, (e, (e', free)))) =
    let (cell, apart, after) = subst (AreCells false) e' good in
    let none_requested = cell.unused free in
    let none_counted : counted n.used ≡ 0 = ap counted free in
    (
      n.size,
      (
        ap requested_sum e' ∙ omega arith,
        (
          ap used_count e' ∙ omega arith,
          (
            (λ o. ap (live o) e' ∙ live-free o n rest free),
            (
              omega (arith, ap total e, total-snoc mid (with_link n false)),
              (cell.aligned, subst (λ b. AreCells b rest) (ap not free) after),
            ),
          ),
        ),
      ),
    )

-- The arena after a block is freed
free_block-Described :
    (a : Arena) (o : ℕ) (pre mid rest : List Cell)
    → Merging (merge_after (merge_before a o)) pre mid rest
    → Described (free_block a o).1 (pre ++ free_cell (total mid) true ∷ rest)
unfolding free_block
free_block-Described a o pre mid rest merging =
    let m = merge_after (merge_before a o) in
    let cells = pre ++ free_cell (total mid) true ∷ rest in
    subst (λ k. Described (insert_free (joined m.arena k m.size m.previous) k) cells)
      (sym merging.offset)
      (subst
        (λ s. Described (insert_free (joined m.arena (total pre) s m.previous) (total pre)) cells)
        (sym merging.size)
        (subst
          (λ p.
            Described (insert_free (joined m.arena (total pre) (total mid) p) (total pre)) cells)
          (sym merging.previous)
          (joined-Described m.arena pre mid rest merging.described merging.loose merging.some)))

free_block-offset :
    (a : Arena) (o : ℕ) → (free_block a o).0 ≡ (merge_after (merge_before a o)).offset
unfolding free_block
free_block-offset a o = refl

-- The heap after release, but for the poison
abbrev released : Heap → ℕ → Heap
released h o = record h {
  arena = (free_block h.arena o).1;
  used_bytes = sub64 h.used_bytes (h.arena.blocks o).requested;
  live_allocations = sub64 h.live_allocations 1;
  frees = saturated h.frees;
}

release-poison_free :
    (h : Heap) (o : ℕ) → release h o ≡ poison_free (released h o) (free_block h.arena o).0
unfolding release
release-poison_free h o = refl

-- The block is no allocation any more, and the others stay.
pub release-Unchanged :
    (h : Heap) (pre : List Cell) (size requested : ℕ) (post : List Cell)
    → Holds h (pre ++ used_cell size requested ∷ post)
    → Unchanged h.arena.base (live 0 pre ++ live (total pre + size) post) (release h (total pre))
release-Unchanged h pre size requested post holds =
    let o = total pre in
    let c = used_cell size requested in
    let cells = pre ++ c ∷ post in
    let good = holds.cells_in_order in
    let (_, after) = AreCells-split false pre c post good in
    let d = holds.described in
    let placed = Described-Placed h.arena pre c post d in
    let (pre', mid, (before, (apart, left))) =
      merge_before-MergedBefore h.arena pre size requested post d good in
    let (mid', rest, (merging, right)) =
      merge_after-MergedAfter (merge_before h.arena o) pre' mid post false before after in
    let (sum, count, listed, end, large, aligned, left_good) =
      AreCells-Left pre size requested post (merge_before h.arena o) pre' mid good left in
    let (gap, (sum', (count', (listed', (end', (aligned', right_good)))))) =
      AreCells-Right post rest mid mid' after right in
    let cells' = pre' ++ free_cell (total mid') true ∷ rest in
    let described = free_block-Described h.arena o pre' mid' rest merging in
    let good' : AreCells false cells' =
      AreCells-join false pre' (free_cell (total mid') true ∷ rest) left_good
        (free-IsCell (total mid') (omega arith) (omega arith), inr apart, right_good) in
    let heap = release-poison_free h o in
    let freed = (free_block h.arena o).0 in
    let asked : (h.arena.blocks o).requested ≡ requested =
      ap {A = Block} (λ b. b.requested) placed.at in
    let all_sum : requested_sum cells' + requested ≡ h.used_bytes = omega (
      arith,
      requested_sum-append pre' (free_cell (total mid') true ∷ rest),
      requested_sum-append pre (c ∷ post),
      holds.used_bytes,
    ) in
    let all_count : used_count cells' + 1 ≡ h.live_allocations = omega (
      arith,
      used_count-append pre' (free_cell (total mid') true ∷ rest),
      used_count-append pre (c ∷ post),
      holds.live_allocations,
    ) in
    let limit = requested_sum-le false cells good in
    let limit' = used_count-le false cells good in
    let bounded = d.bounded in
    let mapped = d.size in
    let peak = holds.peak_usage in
    let used = holds.used_bytes in
    let counted_live = holds.live_allocations in
    subst (Unchanged h.arena.base (live 0 pre ++ live (o + size) post)) (sym heap) (
      cells',
      (
        poison_free-Holds (released h o) freed pre' (free_cell (total mid') true) rest
            (Holds-rearranged h cells cells' (free_block h.arena o).1 (released h o) holds refl
              described (free_block-Kept h.arena o) good' (refl, refl, refl) (omega arith)
              (omega arith) (omega arith))
            (free_block-offset h.arena o ∙ merging.offset),
        (
          live-append 0 (total pre') pre' (free_cell (total mid') true ∷ rest) (omega arith)
              ∙ ap (λ k. live 0 pre' ++ live k rest) (omega arith)
              ∙ ap (λ t. live 0 pre' ++ t) (sym (listed' (o + size)))
              ∙ ap (λ t. t ++ live (o + size) post) (sym listed),
          (poison_free-Kept (released h o) freed).0 ∙ (free_block-Kept h.arena o).0,
        ),
      ),
    )
