-- ===== src/Heap/Accepted.antt =====
-- heap_core_validate of kernel/memory/heap_core.c on a heap in order.
use utamo_os.Common.{
  ℕ, zero, suc, ◌+◌, ◌-◌, ◌%◌, ◌≤◌, ◌<◌, ◌≡◌, inl, inr, refl, sym, ap, ◌∙◌, true, false, not, ◌&&◌,
  List, [], ◌∷◌, arith, if◌then◌else◌, Bool-cases, ◌==◌, ltb, leb, add64, u64_max, low_bits, ==_iff,
}
use mathlib.Core.Path.{subst}
use utamo_os.Heap.State.{
  Block, Arena, Heap, none_offset, header_size, min_block, block_size, block_used, block_cookie,
  with_used,
}
use utamo_os.Heap.Segment.{Cell, total, first_linked, header, Segment}
use utamo_os.Heap.Validate.{
  context_valid, Walk, check_header, check_used, check_free, step, check_end, check_blocks,
  walk_start, heap_core_validate,
}
use utamo_os.Heap.Good.{
  IsCell, AreCells, Holds, IsContext, requested_sum, used_count, counted, block_size-header,
  block_used-header,
}
use utamo_os.Heap.Take.{requested_sum-le}

check_header-block :
    (a : Arena) (w : Walk) (block : Block) (size : ℕ)
    → block.cookie ≡ block_cookie a.base w.offset
    → block.prev_size ≡ w.previous
    → block_size block ≡ size
    → block.size_flags % 16 ≡ block.size_flags % 2
    → 64 ≤ size
    → size ≤ a.mapped_size - w.offset
    → check_header a w block ≡ true
unfolding check_header
check_header-block a w block size cookie tag e flags large fits =
    let t1 : (block.cookie == block_cookie a.base w.offset) ≡ true =
      (==_iff block.cookie (block_cookie a.base w.offset)).1 cookie in
    let t2 : (block.prev_size == w.previous) ≡ true = (==_iff block.prev_size w.previous).1 tag in
    let t3 : (block.size_flags % 16 - block.size_flags % 2 == 0) ≡ true = ground arith in
    let t4 : leb min_block (block_size block) ≡ true = ground arith in
    let t5 : leb (block_size block) (a.mapped_size - w.offset) ≡ true = ground arith in
    rw (t1, t3, t4, t5, t2, check_header) refl

flags-header :
    (c : Cell)
    → IsCell c
    → (if c.used then with_used c.size else c.size) % 16
      ≡ (if c.used then with_used c.size else c.size) % 2
unfolding with_used
flags-header c good =
    let aligned = good.aligned in
    elim (Bool-cases c.used) [ inl used ↦ rw used (omega arith) | inr free ↦ rw free (omega arith) ]

check_used-block :
    (block : Block) (size : ℕ)
    → 1 ≤ block.requested
    → block_size block ≡ size
    → block.requested + 48 ≤ size
    → block.free_prev ≡ none_offset
    → block.free_next ≡ none_offset
    → check_used block ≡ true
unfolding check_used
check_used-block block size some e room prev next =
    let t1 : leb block.requested (block_size block - header_size) ≡ true = ground arith in
    let t0 : (block.requested == 0) ≡ false = ground arith in
    let t2 : (block.free_prev == none_offset) ≡ true =
      (==_iff block.free_prev none_offset).1 prev in
    let t3 : (block.free_next == none_offset) ≡ true =
      (==_iff block.free_next none_offset).1 next in
    rw (t0, t1, t2, t3, check_used) refl

check_free-block :
    (w : Walk) (block : Block)
    → block.requested ≡ 0
    → w.previous_free ≡ false
    → w.free_current ≡ w.offset
    → block.free_prev ≡ w.free_prior
    → check_free w block ≡ true
unfolding check_free
check_free-block w block nothing apart here prior =
    let t1 : (block.requested == 0) ≡ true = (==_iff block.requested 0).1 nothing in
    let t2 : (w.free_current == w.offset) ≡ true = (==_iff w.free_current w.offset).1 here in
    let t3 : (block.free_prev == w.free_prior) ≡ true =
      (==_iff block.free_prev w.free_prior).1 prior in
    rw (t1, apart, t2, t3, check_free) refl

check_blocks-go :
    (h : Heap) (fuel : ℕ) (w : Walk)
    → w.offset < h.arena.mapped_size
    → (leb header_size (h.arena.mapped_size - w.offset)
        && check_header h.arena w (h.arena.blocks w.offset)
        && (if block_used (h.arena.blocks w.offset)
            then check_used (h.arena.blocks w.offset)
            else check_free w (h.arena.blocks w.offset)))
      ≡ true
    → check_blocks h (suc fuel) w ≡ check_blocks h fuel (step w (h.arena.blocks w.offset))
unfolding check_blocks
check_blocks-go h fuel w below accepted =
    let e : ltb w.offset h.arena.mapped_size ≡ true = ground arith in
    rw (e, accepted, check_blocks) refl

check_blocks-stop :
    (h : Heap) (fuel : ℕ) (w : Walk)
    → h.arena.mapped_size ≤ w.offset
    → check_blocks h fuel w ≡ check_end h w
unfolding check_blocks
check_blocks-stop h zero w above = refl
check_blocks-stop h (suc fuel) w above =
    let e : ltb w.offset h.arena.mapped_size ≡ false = ground arith in rw (e, check_blocks) refl

finished :
    (h : Heap) (w : Walk)
    → w.free_current ≡ none_offset
    → w.requested ≡ h.used_bytes
    → w.live ≡ h.live_allocations
    → h.used_bytes ≤ h.peak_usage
    → check_end h w ≡ true
unfolding check_end
finished h w current sum count peak =
    let t1 : (w.requested == h.used_bytes) ≡ true = (==_iff w.requested h.used_bytes).1 sum in
    let t2 : (w.live == h.live_allocations) ≡ true = (==_iff w.live h.live_allocations).1 count in
    let t3 : leb w.requested h.peak_usage ≡ true = ground arith in
    let t4 : (w.free_current == none_offset) ≡ true =
      (==_iff w.free_current none_offset).1 current in
    rw (t1, t2, t3, t4, check_end) refl

step-used :
    (w : Walk) (block : Block) (size requested : ℕ)
    → block_used block ≡ true
    → block_size block ≡ size
    → block.requested ≡ requested
    → step w block ≡ record {
      offset = w.offset + size;
      previous = size;
      free_current = w.free_current;
      free_prior = w.free_prior;
      live = w.live + 1;
      requested = add64 w.requested requested;
      previous_free = false;
    }
step-used w block size requested u e e' = rw (u, e, e', step) refl

step-free :
    (w : Walk) (block : Block) (size next : ℕ)
    → block_used block ≡ false
    → block_size block ≡ size
    → block.free_next ≡ next
    → step w block ≡ record {
      offset = w.offset + size;
      previous = size;
      free_current = next;
      free_prior = w.offset;
      live = w.live;
      requested = w.requested;
      previous_free = true;
    }
step-free w block size next u e e' = rw (u, e, e', step) refl

-- The walk over cells that lie in the arena, from where it is to the end
check_blocks-Segment :
    (h : Heap) (fuel : ℕ) (w : Walk) (cs : List Cell)
    → Segment h.arena.blocks h.arena.base w.offset w.previous w.free_prior cs none_offset
    → AreCells w.previous_free cs
    → w.free_current ≡ first_linked w.offset cs none_offset
    → w.offset + total cs ≡ h.arena.mapped_size
    → h.arena.mapped_size < none_offset
    → total cs ≤ fuel
    → w.requested + requested_sum cs ≡ h.used_bytes
    → w.live + used_count cs ≡ h.live_allocations
    → h.used_bytes ≤ h.peak_usage
    → h.used_bytes < none_offset
    → check_blocks h fuel w ≡ true
check_blocks-Segment h fuel w [] s good current ends bounded enough sum count peak limit =
    check_blocks-stop h fuel w (omega arith) ∙ finished h w current (omega arith) (omega arith) peak
check_blocks-Segment h zero w (c ∷ cs) (positive, at, rest) good current ends bounded enough sum
      count peak limit =
    absurd (omega arith)
check_blocks-Segment h (suc fuel) w (c ∷ cs) (positive, at, rest) (good, apart, others) current ends
      bounded enough sum count peak limit =
    let n = first_linked (w.offset + c.size) cs none_offset in
    let block = h.arena.blocks w.offset in
    let top = header h.arena.base w.offset w.previous w.free_prior n c in
    let size : block_size block ≡ c.size =
      ap block_size at
      ∙ block_size-header h.arena.base w.offset w.previous w.free_prior n c good.aligned in
    let usage : block_used block ≡ c.used =
      ap block_used at
      ∙ block_used-header h.arena.base w.offset w.previous w.free_prior n c good.aligned in
    let large = good.large in
    let head : check_header h.arena w block ≡ true =
      check_header-block h.arena w block c.size (ap {A = Block} (λ b. b.cookie) at)
        (ap {A = Block} (λ b. b.prev_size) at) size
        (ap {A = Block} (λ b. b.size_flags % 16) at
          ∙ flags-header c good
          ∙ ap {A = Block} (λ b. b.size_flags % 2) (sym at))
        large (omega arith) in
    let room : leb header_size (h.arena.mapped_size - w.offset) ≡ true = ground arith in
    let asked : block.requested ≡ c.requested = ap {A = Block} (λ b. b.requested) at in
    elim (Bool-cases c.used) [
      | inl used ↦
          let (some_requested, fits) = good.in_use used in
          let loose : c.linked ≡ false = good.listed ∙ ap not used in
          let u = usage ∙ used in
          let body : check_used block ≡ true =
            check_used-block block c.size (omega arith) size (omega arith)
              (ap {A = Block} (λ b. b.free_prev) at
                ∙ ap (λ l. if l then w.free_prior else none_offset) loose)
              (ap {A = Block} (λ b. b.free_next) at
                ∙ ap (λ l. if l then n else none_offset) loose) in
          let counts : counted c.used ≡ 1 = ap counted used in
          check_blocks-go h fuel w (omega arith) (rw (room, head, u, body) refl)
          ∙ ap (check_blocks h fuel) (step-used w block c.size c.requested u size asked)
          ∙ check_blocks-Segment h fuel
              (record {
                offset = w.offset + c.size;
                previous = c.size;
                free_current = w.free_current;
                free_prior = w.free_prior;
                live = w.live + 1;
                requested = add64 w.requested c.requested;
                previous_free = false;
              })
              cs
              (subst
                (λ p.
                  Segment h.arena.blocks h.arena.base (w.offset + c.size) c.size p cs none_offset)
                (ap (λ l. if l then w.offset else w.free_prior) loose) rest)
              (subst (λ b. AreCells b cs) (ap not used) others)
              (current ∙ ap (λ l. if l then w.offset else n) loose) (omega arith) bounded
              (omega arith) (omega arith) (omega arith) peak limit
      | inr free ↦
          let none_requested = good.unused free in
          let linked : c.linked ≡ true = good.listed ∙ ap not free in
          let u = usage ∙ free in
          let clear : w.previous_free ≡ false = elim apart [
            | inl clash ↦ absurd (ground arith)
            | inr e ↦ e
          ] in
          let next : block.free_next ≡ n =
            ap {A = Block} (λ b. b.free_next) at ∙ ap (λ l. if l then n else none_offset) linked in
          let body : check_free w block ≡ true =
            check_free-block w block (asked ∙ none_requested) clear
              (current ∙ ap (λ l. if l then w.offset else n) linked)
              (ap {A = Block} (λ b. b.free_prev) at
                ∙ ap (λ l. if l then w.free_prior else none_offset) linked) in
          let counts : counted c.used ≡ 0 = ap counted free in
          check_blocks-go h fuel w (omega arith) (rw (room, head, u, body) refl)
          ∙ ap (check_blocks h fuel) (step-free w block c.size n u size next)
          ∙ check_blocks-Segment h fuel
              (record {
                offset = w.offset + c.size;
                previous = c.size;
                free_current = n;
                free_prior = w.offset;
                live = w.live;
                requested = w.requested;
                previous_free = true;
              })
              cs
              (subst
                (λ p.
                  Segment h.arena.blocks h.arena.base (w.offset + c.size) c.size p cs none_offset)
                (ap (λ l. if l then w.offset else w.free_prior) linked) rest)
              (subst (λ b. AreCells b cs) (ap not free) others) refl (omega arith) bounded
              (omega arith) (omega arith) (omega arith) peak limit
    ]

context_valid-IsContext :
    (h : Heap)
    → IsContext h.initialized h.arena.base h.arena.mapped_size h.max_size h.growth_size
    → context_valid h ≡ true
unfolding context_valid
context_valid-IsContext h
      (
        initialized, some_base, base_aligned, mapped_large, fits, in_range, growth_large,
        mapped_aligned, max_aligned, growth_aligned,
      ) =
    let t1 : (h.arena.base == 0) ≡ false = ground arith in
    let t2 : (low_bits h.arena.base 4 == 0) ≡ true = ground arith in
    let t3 : leb min_block h.arena.mapped_size ≡ true = ground arith in
    let t4 : leb h.arena.mapped_size h.max_size ≡ true = ground arith in
    let t5 : leb h.max_size (u64_max - h.arena.base) ≡ true = ground arith in
    let t6 : leb min_block h.growth_size ≡ true = ground arith in
    let t7 : (low_bits h.arena.mapped_size 4 == 0) ≡ true = ground arith in
    let t8 : (low_bits h.max_size 4 == 0) ≡ true = ground arith in
    let t9 : (low_bits h.growth_size 4 == 0) ≡ true = ground arith in
    rw (initialized, t1, t2, t3, t4, t5, t6, t7, t8, t9, context_valid) refl

-- heap_core_validate accepts a heap in order.
pub heap_core_validate-Holds :
    (h : Heap) (cells : List Cell) → Holds h cells → heap_core_validate h ≡ true
unfolding heap_core_validate
heap_core_validate-Holds h cells holds =
    let d = holds.described in
    let used = holds.used_bytes in
    let count = holds.live_allocations in
    let size = d.size in
    let bounded = d.bounded in
    let limit = requested_sum-le false cells holds.cells_in_order in
    let blocks : check_blocks h h.arena.mapped_size (walk_start h) ≡ true =
      check_blocks-Segment h h.arena.mapped_size (walk_start h) cells d.holds holds.cells_in_order
        (sym d.head) (omega arith) bounded (omega arith) (omega arith) (omega arith)
        holds.peak_usage (omega arith) in
    rw (context_valid-IsContext h holds.context, blocks, heap_core_validate) refl
