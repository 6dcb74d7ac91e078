-- ===== src/Heap/Resize.antt =====
-- heap_core_realloc of kernel/memory/heap_core.c on a heap in order.
use utamo_os.Common.{
  ℕ, ◌+◌, ◌-◌, ◌%◌, ◌≤◌, ◌≡◌, ◌≢◌, inl, inr, refl, sym, ap, ◌∙◌, Bool, true, false, not, ◌||◌, List,
  [], ◌∷◌, ◌++◌, arith, if◌then◌else◌, Bool-cases, ◌==◌, ltb, some, none, IfSome, add64, sub64, max,
}
use mathlib.Core.Path.{subst}
use utamo_os.Heap.State.{Block, Arena, Heap, none_offset, block_size, block_used, put, with_used}
use utamo_os.Heap.Segment.{Cell, total, first_linked, last_linked, last_size}
use utamo_os.Heap.Blocks.{remove_free, following_previous}
use utamo_os.Heap.Give.{resize_block, consume_next}
use utamo_os.Heap.Rewire.{Described, with_link}
use utamo_os.Heap.Unlink.{Described-Placed, remove_free-Described}
use utamo_os.Heap.Reshape.{put-at, put-same, Reshaped-Described}
use utamo_os.Heap.Good.{
  AreCells, Holds, IsCell-free, AreCells-split, AreCells-replace, AreCells-weaken, used_cell,
  free_cell, block_size-header, requested_sum, requested_sum-append, used_count, used_count-append,
  counted,
}
use utamo_os.Heap.Trim.{
  snoc, total-snoc, following_previous-at, following_previous-same, following_previous-rest,
  next-Placed,
}
use utamo_os.Heap.Kept.{Kept, Kept-trans, remove_free-Kept, following_previous-Kept}
use utamo_os.Heap.State.{header_size, poison}
use utamo_os.Heap.Run.{trim_block}
use utamo_os.Heap.Payload.{Described-block_size, poison-Holds}
use utamo_os.Heap.Poisoned.{
  trim_block-Rewrites, trim_block-Kept, trim_block-Described, trimmed-cons,
}
use utamo_os.Heap.Take.{
  trimmed, trimmed-AreCells, trimmed-sums, trimmed_arena-Described, put-Described, Holds-rearranged,
  used-IsCell, requested_sum-le,
}

-- The header of the block gets the new request.
abbrev asked : Arena → ℕ → ℕ → Arena
asked a o requested = put a o (record (a.blocks o) { requested = requested })

-- What resize_block poisons at last
abbrev renamed_heap : Heap → ℕ → ℕ → ℕ → Heap
renamed_heap h o size needed =
    record (trim_block (record h { arena = asked h.arena o size }) o needed) {
      used_bytes = add64 (sub64 h.used_bytes (h.arena.blocks o).requested) size;
      peak_usage = max h.peak_usage (add64 (sub64 h.used_bytes (h.arena.blocks o).requested) size);
    }

renamed_heap-fields :
    (h : Heap) (o size needed : ℕ)
    → let t = trim_block (record h { arena = asked h.arena o size }) o needed in
      renamed_heap h o size needed ≡ record h {
        arena = t.arena;
        used_bytes = add64 (sub64 h.used_bytes (h.arena.blocks o).requested) size;
        peak_usage =
            max h.peak_usage (add64 (sub64 h.used_bytes (h.arena.blocks o).requested) size);
        bytes = t.bytes;
      }
renamed_heap-fields h o size needed =
    ap {A = Heap} {B = Heap}
      (λ t. record t {
        used_bytes = add64 (sub64 h.used_bytes (h.arena.blocks o).requested) size;
        peak_usage =
            max h.peak_usage (add64 (sub64 h.used_bytes (h.arena.blocks o).requested) size);
      })
      (trim_block-Rewrites (record h { arena = asked h.arena o size }) o needed)

-- The poison of resize_block lies behind the old request or the new one, in the same payload.
resize_block-poison :
    (h : Heap) (pre : List Cell) (old size needed : ℕ) (c : Cell) (cs : List Cell)
    → Holds (renamed_heap h (total pre) size needed) (pre ++ c ∷ cs)
    → (h.arena.blocks (total pre)).requested ≡ old
    → size + header_size ≤ c.size
    → Holds (resize_block h (total pre) size needed) (pre ++ c ∷ cs)
unfolding resize_block
resize_block-poison h pre old size needed c cs holds was room =
    let o = total pre in
    let g = renamed_heap h o size needed in
    let before = (h.arena.blocks o).requested in
    let (cell, _) = AreCells-split false pre c cs holds.cells_in_order in
    let grown : Heap =
      if ltb before size then poison g (o + header_size + before) (size - before) 0xcd else g in
    let first : Holds grown (pre ++ c ∷ cs) = choose (ltb before size) (λ e.
      poison-Holds g pre c cs (o + header_size + before) (size - before) 0xcd holds (omega arith)
        (ground arith)) in
    let reads = Described-block_size grown.arena pre c cs first.described cell.aligned in
    poison-Holds grown pre c cs (o + header_size + size)
      (block_size (grown.arena.blocks o) - header_size - size) 0xdd first (omega arith)
      (omega arith)
  where
    choose :
        (b : Bool)
        → (b ≡ true
            → Holds
                (poison
                  (renamed_heap h (total pre) size needed)
                  (total pre + header_size + (h.arena.blocks (total pre)).requested)
                  (size - (h.arena.blocks (total pre)).requested)
                  0xcd)
                (pre ++ c ∷ cs))
        → Holds
            (if b
              then poison
                  (renamed_heap h (total pre) size needed)
                  (total pre + header_size + (h.arena.blocks (total pre)).requested)
                  (size - (h.arena.blocks (total pre)).requested)
                  0xcd
              else renamed_heap h (total pre) size needed)
            (pre ++ c ∷ cs)
    choose true on = on refl
    choose false on = holds

-- A block that is large enough is resized in its place.
pub resize_block-Holds :
    (h : Heap) (pre : List Cell) (size old requested needed : ℕ) (post : List Cell)
    → Holds h (pre ++ used_cell size old ∷ post)
    → needed ≤ size
    → needed % 16 ≡ 0
    → 1 ≤ requested
    → requested + 48 ≤ needed
    → Holds
        (resize_block h (total pre) requested needed)
        (pre ++ trimmed size needed requested post)
resize_block-Holds h pre size old requested needed post holds fits aligned some_requested room =
    let o = total pre in
    let c = used_cell size old in
    let cells = pre ++ c ∷ post in
    let cells' = pre ++ trimmed size needed requested post in
    let good = holds.cells_in_order in
    let d = holds.described in
    let placed = Described-Placed h.arena pre c post d in
    let (cell, later) = AreCells-split false pre c post good in
    let size_aligned = cell.aligned in
    let named =
      put-Described h.arena pre c (used_cell size requested) post
        (record (h.arena.blocks o) { requested = requested }) d refl refl refl
        (ap {A = Block} (λ b. record b { requested = requested }) placed.at) in
    let taken : Heap = record h { arena = asked h.arena o requested } in
    let dry =
      trimmed_arena-Described taken.arena pre size requested needed post named size_aligned later
        (omega arith) in
    let good' : AreCells false cells' =
      AreCells-replace false pre (c ∷ post) (trimmed size needed requested post)
        (λ b g.
          trimmed-AreCells size needed requested post b size_aligned aligned fits some_requested
            room later)
        good in
    let (sum, count) = trimmed-sums size needed requested post later in
    let reads =
      Described-block_size taken.arena pre (used_cell size requested) post named size_aligned in
    let described = trim_block-Described taken pre size requested needed post reads dry good' in
    let trimmed_heap = trim_block taken o needed in
    let kept = trim_block-Kept taken o needed in
    let bounded = described.bounded in
    let mapped = described.size in
    let was : (h.arena.blocks o).requested ≡ old = ap {A = Block} (λ b. b.requested) placed.at in
    let before_sum : requested_sum pre + (old + requested_sum post) ≡ h.used_bytes =
      sym (requested_sum-append pre (c ∷ post)) ∙ holds.used_bytes in
    let total_sum : requested_sum cells' ≡ requested_sum pre + (requested + requested_sum post) =
      requested_sum-append pre (trimmed size needed requested post)
      ∙ ap (λ n. requested_sum pre + n) sum in
    let total_count : used_count cells' ≡ h.live_allocations =
      used_count-append pre (trimmed size needed requested post)
      ∙ ap (λ n. used_count pre + n) count
      ∙ sym (used_count-append pre (c ∷ post))
      ∙ holds.live_allocations in
    let limit = requested_sum-le false cells' good' in
    let bounded' = d.bounded in
    let mapped' = d.size in
    let limit' = requested_sum-le false cells good in
    let sum_is = holds.used_bytes in
    let renamed : Holds (renamed_heap h o requested needed) cells' =
      subst (λ g. Holds g cells') (sym (renamed_heap-fields h o requested needed))
        (Holds-rearranged h cells cells' trimmed_heap.arena
          (record h {
            arena = trimmed_heap.arena;
            used_bytes = add64 (sub64 h.used_bytes (h.arena.blocks o).requested) requested;
            peak_usage =
                max h.peak_usage
                  (add64 (sub64 h.used_bytes (h.arena.blocks o).requested) requested);
            bytes = trimmed_heap.bytes;
          })
          holds refl described kept good' (refl, refl, refl) (omega arith) total_count
          (omega arith)) in
    let (c', (cs, (e, in_use, is_requested))) = trimmed-cons size needed requested post in
    let e' = ap (λ t. pre ++ t) e in
    let (cell', _) = AreCells-split false pre c' cs (subst (AreCells false) e' good') in
    let (_, room') = cell'.in_use in_use in
    subst (Holds (resize_block h o requested needed)) (sym e') (
      resize_block-poison h pre old requested needed c' cs
        (subst (Holds (renamed_heap h o requested needed)) e' renamed) was (omega arith))

-- The stores of consume_next once the free block behind is out of the list
abbrev widened : Arena → ℕ → ℕ → Arena
widened a o combined =
    following_previous (put a o (record (a.blocks o) { size_flags = with_used combined })) o
      combined

widened-Described :
    (a : Arena) (pre : List Cell) (size requested more : ℕ) (rest : List Cell)
    → Described a (pre ++ used_cell size requested ∷ free_cell more false ∷ rest)
    → Described
        (widened a (total pre) (size + more))
        (pre ++ used_cell (size + more) requested ∷ rest)
widened-Described a pre size requested more rest d =
    let o = total pre in
    let c = used_cell size requested in
    let n = free_cell more false in
    let combined = size + more in
    let placed = Described-Placed a pre c (n ∷ rest) d in
    let inside = placed.inside in
    let positive = placed.positive in
    let block : Block = record (a.blocks o) { size_flags = with_used combined } in
    let written = put a o block in
    let r = following_previous written o combined in
    let (base, mapped, head) = following_previous-rest written o combined in
    let bounded = d.bounded in
    let outside = λ (i : ℕ) (h : i ≢ o) (h' : i ≢ o + combined).
      following_previous-same written o combined i h' ∙ put-same a o block i h in
    let here : o + combined ≡ o + (size + (more + 0)) = omega arith in
    Reshaped-Described a r pre (c ∷ n ∷ []) (used_cell combined requested ∷ []) rest d
      (refl, (refl, tt)) (refl, tt) (inl (omega arith)) (omega arith) (omega arith)
      (record {
        base = base;
        head = head;
        below = λ i low. outside i (λ e. omega arith) (λ e. omega arith);
        above = λ i low high. outside i (λ e. omega arith) (λ e. omega arith);
        tag = λ some_post.
            subst (λ m. r.blocks m ≡ record (a.blocks m) { prev_size = combined }) here
              (following_previous-at written o combined (omega arith)
                ∙ ap {A = Block} (λ b. record b { prev_size = combined })
                    (put-same a o block (o + combined) (λ e. omega arith)));
        within = (
          omega arith,
          following_previous-same written o combined o (λ e. omega arith)
              ∙ put-at a o block
              ∙ ap {A = Block} (λ b. record b { size_flags = with_used combined }) placed.at,
          tt,
        );
      })

-- What consume_next gives: the cells with the block that took over the free one behind it
abbrev pub Widened : Heap → List Cell → ℕ → ℕ → ℕ → Arena → Type 0
Widened h pre size requested needed a =
    (combined : ℕ) × ((rest : List Cell) × (Holds (record h { arena = a })
          (pre ++ used_cell combined requested ∷ rest)
        × (needed ≤ combined)))

abbrev refuses : Arena → ℕ → ℕ → ℕ → Bool
refuses a o size needed =
    o + size == a.mapped_size
    || block_used (a.blocks (o + size))
    || ltb (block_size (a.blocks (o + size))) (needed - size)

consume_next-refused :
    (a : Arena) (o needed : ℕ)
    → refuses a o (block_size (a.blocks o)) needed ≡ true
    → consume_next a o needed ≡ none
unfolding consume_next
consume_next-refused a o needed e = rw (e, consume_next) refl

consume_next-widened :
    (a : Arena) (o needed size more : ℕ)
    → block_size (a.blocks o) ≡ size
    → block_size (a.blocks (o + size)) ≡ more
    → (o + size == a.mapped_size || block_used (a.blocks (o + size)) || ltb more (needed - size))
      ≡ false
    → consume_next a o needed ≡ some (widened (remove_free a (o + size)) o (size + more))
unfolding consume_next
consume_next-widened a o needed size more e e' f = rw (e, e', f, consume_next) refl

consume_free :
    (h : Heap) (pre : List Cell) (size requested needed : ℕ) (n : Cell) (rest : List Cell)
    → Holds h (pre ++ used_cell size requested ∷ n ∷ rest)
    → n.used ≡ false
    → needed ≤ size + n.size
    → Widened h pre size requested needed
        (widened (remove_free h.arena (total pre + size)) (total pre) (size + n.size))
consume_free h pre size requested needed n rest holds free fits =
    let o = total pre in
    let c = used_cell size requested in
    let cells = pre ++ c ∷ n ∷ rest in
    let cells' = pre ++ used_cell (size + n.size) requested ∷ rest in
    let good = holds.cells_in_order in
    let d = holds.described in
    let (cell, (cell', _, after)) = AreCells-split false pre c (n ∷ rest) good in
    let (some_requested, room) = cell.in_use refl in
    let aligned = cell.aligned in
    let aligned' = cell'.aligned in
    let none_requested = cell'.unused free in
    let none_counted : counted n.used ≡ 0 = ap counted free in
    let is_free : n ≡ free_cell n.size true = IsCell-free n cell' free in
    let removed = remove_free h.arena (o + size) in
    let gone : Described removed (pre ++ c ∷ free_cell n.size false ∷ rest) =
      subst (λ k. Described (remove_free h.arena k) (pre ++ c ∷ free_cell n.size false ∷ rest))
        (total-snoc pre c)
        (subst
          (λ m.
            Described (remove_free h.arena (total (pre ++ c ∷ [])))
              (pre ++ c ∷ with_link m false ∷ rest))
          is_free
          (subst (Described (remove_free h.arena (total (pre ++ c ∷ []))))
            (snoc pre c (with_link n false ∷ rest))
            (remove_free-Described h.arena (pre ++ c ∷ []) n rest
              (subst (Described h.arena) (sym (snoc pre c (n ∷ rest))) d)
              (cell'.listed ∙ ap not free)))) in
    let a = widened removed o (size + n.size) in
    let kept : Kept h.arena a = Kept-trans h.arena removed a (remove_free-Kept h.arena (o + size)) (
      following_previous-Kept
        (put removed o (record (removed.blocks o) { size_flags = with_used (size + n.size) })) o
        (size + n.size)) in
    let good' : AreCells false cells' =
      AreCells-replace false pre (c ∷ n ∷ rest) (used_cell (size + n.size) requested ∷ rest)
        (λ b g. (
          used-IsCell (size + n.size) requested (omega arith) some_requested (omega arith),
          inl refl,
          AreCells-weaken false rest (subst (λ u. AreCells u rest) (ap not free) after),
        ))
        good in
    let sums : requested_sum cells' ≡ h.used_bytes = omega (
      arith,
      requested_sum-append pre (c ∷ n ∷ rest),
      requested_sum-append pre (used_cell (size + n.size) requested ∷ rest),
      holds.used_bytes,
    ) in
    let counts : used_count cells' ≡ h.live_allocations = omega (
      arith,
      used_count-append pre (c ∷ n ∷ rest),
      used_count-append pre (used_cell (size + n.size) requested ∷ rest),
      holds.live_allocations,
    ) in
    (
      size + n.size,
      (
        rest,
        (
          Holds-rearranged h cells cells' a (record h { arena = a }) holds refl
              (widened-Described removed pre size requested n.size rest gone) kept good'
              (refl, refl, refl) sums counts holds.peak_usage,
          fits,
        ),
      ),
    )

pub consume_next-Widened :
    (h : Heap) (pre : List Cell) (size requested needed : ℕ) (post : List Cell)
    → Holds h (pre ++ used_cell size requested ∷ post)
    → IfSome (Widened h pre size requested needed) (consume_next h.arena (total pre) needed)
consume_next-Widened h pre size requested needed post holds =
    let a = h.arena in
    let o = total pre in
    let c = used_cell size requested in
    let (cell, _) = AreCells-split false pre c post holds.cells_in_order in
    let placed = Described-Placed a pre c post holds.described in
    let reads : block_size (a.blocks o) ≡ size =
      ap block_size placed.at
      ∙ block_size-header a.base o (last_size 0 pre) (last_linked 0 none_offset pre)
          (first_linked (o + size) post none_offset) c cell.aligned in
    elim (Bool-cases (refuses a o size needed)) [
      | inl refused ↦
          let same = ap (λ s. refuses a o s needed) reads in
          subst (IfSome (Widened h pre size requested needed))
            (sym (consume_next-refused a o needed (same ∙ refused))) tt
      | inr accepted ↦ behind post holds reads accepted placed.inside
    ]
  where
    behind :
        (post : List Cell)
        → Holds h (pre ++ used_cell size requested ∷ post)
        → block_size (h.arena.blocks (total pre)) ≡ size
        → refuses h.arena (total pre) size needed ≡ false
        → total pre + size + total post ≡ h.arena.mapped_size
        → IfSome (Widened h pre size requested needed) (consume_next h.arena (total pre) needed)
    behind [] holds reads accepted inside = absurd (ground arith)
    behind (n ∷ rest) holds reads accepted inside =
        let c = used_cell size requested in
        let (_, (cell', _, _)) = AreCells-split false pre c (n ∷ rest) holds.cells_in_order in
        let (below, more, used) = next-Placed h.arena pre c n rest holds.described cell' in
        let step = consume_next-widened h.arena (total pre) needed size n.size reads more (
          ap
            (λ m.
              total pre + size == h.arena.mapped_size
              || block_used (h.arena.blocks (total pre + size))
              || ltb m (needed - size))
            (sym more)
          ∙ accepted) in
        subst (IfSome (Widened h pre size requested needed)) (sym step)
          (consume_free h pre size requested needed n rest holds (ground arith) (ground arith))
