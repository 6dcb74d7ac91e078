-- ===== src/Heap/Take.antt =====
-- trim_block and take_block of kernel/memory/heap_core.c: their stores into the headers.
use utamo_os.Common.{
  ℕ, ◌+◌, ◌-◌, ◌%◌, ◌≤◌, ◌≡◌, inl, inr, refl, sym, ap, ◌∙◌, Bool, true, false, not, List, [], ◌∷◌,
  ◌++◌, arith, if◌then◌else◌, Bool-cases, ltb,
}
use mathlib.Core.Path.{subst}
use utamo_os.Heap.State.{Block, Arena, Heap, none_offset, min_block, with_used, block_size, put}
use utamo_os.Heap.Segment.{Cell, total, first_linked, last_linked, last_size, header}
use utamo_os.Heap.Rewire.{Described}
use utamo_os.Heap.Unlink.{Described-Placed}
use utamo_os.Heap.Reshape.{put-at, put-same, Reshaped-Described, last_size-append}
use utamo_os.Heap.Good.{
  IsCell, AreCells, Holds, IsContext, used_cell, free_cell, block_size-header, requested_sum,
  used_count, counted,
}
use utamo_os.Heap.Trim.{
  absorbed, absorbed-used, absorbed-free, snoc, total-snoc, split_block-Described,
}
use utamo_os.Heap.Kept.{Kept, trimmed_arena}

-- The cells of a used block that is trimmed, and of those after it
abbrev pub trimmed : ℕ → ℕ → ℕ → List Cell → List Cell
trimmed size needed requested post =
    if ltb (size - needed) min_block
    then used_cell size requested ∷ post
    else used_cell needed requested ∷ absorbed (size - needed) post

pub trimmed_arena-Described :
    (a : Arena) (pre : List Cell) (size requested needed : ℕ) (post : List Cell)
    → Described a (pre ++ used_cell size requested ∷ post)
    → size % 16 ≡ 0
    → AreCells false post
    → 1 ≤ needed
    → Described (trimmed_arena a (total pre) needed) (pre ++ trimmed size needed requested post)
trimmed_arena-Described a pre size requested needed post d aligned good some_needed =
    let c = used_cell size requested in
    let placed = Described-Placed a pre c post d in
    let reads : block_size (a.blocks (total pre)) ≡ size =
      ap block_size placed.at
      ∙ block_size-header a.base (total pre) (last_size 0 pre) (last_linked 0 none_offset pre)
          (first_linked (total pre + size) post none_offset) c aligned in
    elim (Bool-cases (ltb (size - needed) min_block)) [
      | inl short ↦ rw (reads, short) d
      | inr long ↦
          rw (reads, long)
            (split_block-Described a pre size requested needed post d aligned good some_needed
              (ground arith))
    ]

pub free-IsCell : (size : ℕ) → 64 ≤ size → size % 16 ≡ 0 → IsCell (free_cell size true)
free-IsCell size large aligned = record {
  large = large;
  aligned = aligned;
  listed = refl;
  in_use = λ e. absurd (ground arith);
  unused = λ e. refl;
}

pub used-IsCell :
    (size requested : ℕ)
    → size % 16 ≡ 0
    → 1 ≤ requested
    → requested + 48 ≤ size
    → IsCell (used_cell size requested)
used-IsCell size requested aligned some_requested room = record {
  large = omega arith;
  aligned = aligned;
  listed = refl;
  in_use = λ e. (some_requested, room);
  unused = λ e. absurd (ground arith);
}

absorbed-AreCells :
    (rest : ℕ) (post : List Cell)
    → 64 ≤ rest
    → rest % 16 ≡ 0
    → AreCells false post
    → AreCells false (absorbed rest post)
absorbed-AreCells rest [] large aligned good = (free-IsCell rest large aligned, inr refl, tt)
absorbed-AreCells rest (n ∷ post) large aligned (good, apart, after) = elim (Bool-cases n.used) [
  | inl used ↦
      subst (AreCells false) (sym (absorbed-used rest n post used))
        (free-IsCell rest large aligned, inr refl, (good, inl used, after))
  | inr free ↦
      let size_aligned = good.aligned in
      subst (AreCells false) (sym (absorbed-free rest n post free)) (
        free-IsCell (rest + n.size) (omega arith) (omega arith),
        inr refl,
        subst (λ b. AreCells b post) (ap not free) after,
      )
]

absorbed-sums :
    (rest : ℕ) (post : List Cell)
    → AreCells false post
    → (requested_sum (absorbed rest post) ≡ requested_sum post)
      × (used_count (absorbed rest post) ≡ used_count post)
absorbed-sums rest [] good = (refl, refl)
absorbed-sums rest (n ∷ post) (good, apart, after) = elim (Bool-cases n.used) [
  | inl used ↦ (
    ap requested_sum (absorbed-used rest n post used) ∙ omega arith,
    ap used_count (absorbed-used rest n post used) ∙ omega arith,
  )
  | inr free ↦
      let none_requested = good.unused free in
      let counts : counted n.used ≡ 0 = ap counted free in
      (
        ap requested_sum (absorbed-free rest n post free) ∙ omega arith,
        ap used_count (absorbed-free rest n post free) ∙ omega arith,
      )
]

module _ (size needed requested : ℕ) (post : List Cell) where
  pub trimmed-AreCells :
      (after_free : Bool)
      → size % 16 ≡ 0
      → needed % 16 ≡ 0
      → needed ≤ size
      → 1 ≤ requested
      → requested + 48 ≤ needed
      → AreCells false post
      → AreCells after_free (trimmed size needed requested post)
  trimmed-AreCells after_free aligned aligned' fits some_requested room good =
      elim (Bool-cases (ltb (size - needed) min_block)) [
        | inl short ↦
            rw short
              (used-IsCell size requested aligned some_requested (omega arith), inl refl, good)
        | inr long ↦ rw long (
          used-IsCell needed requested aligned' some_requested room,
          inl refl,
          absorbed-AreCells (size - needed) post (ground arith) (omega arith) good,
        )
      ]

  pub trimmed-sums :
      AreCells false post
      → (requested_sum (trimmed size needed requested post) ≡ requested + requested_sum post)
        × (used_count (trimmed size needed requested post) ≡ 1 + used_count post)
  trimmed-sums good =
      let (sum, count) = absorbed-sums (size - needed) post good in
      elim (Bool-cases (ltb (size - needed) min_block)) [
        | inl short ↦ rw short (refl, refl)
        | inr long ↦ rw long (ap (λ n. requested + n) sum, ap (λ n. 1 + n) count)
      ]

pub requested_sum-le :
    (after_free : Bool) (cs : List Cell) → AreCells after_free cs → requested_sum cs ≤ total cs
requested_sum-le after_free [] good = omega arith
requested_sum-le after_free (c ∷ cs) (good, apart, rest) =
    let later = requested_sum-le (not c.used) cs rest in
    elim (Bool-cases c.used) [
      | inl used ↦ let (some_requested, room) = good.in_use used in omega arith
      | inr free ↦ let none_requested = good.unused free in omega arith
    ]

pub used_count-le :
    (after_free : Bool) (cs : List Cell) → AreCells after_free cs → used_count cs ≤ total cs
used_count-le after_free [] good = omega arith
used_count-le after_free (c ∷ cs) (good, apart, rest) =
    let later = used_count-le (not c.used) cs rest in
    let large = good.large in
    elim (Bool-cases c.used) [
      | inl used ↦ let counts : counted c.used ≡ 1 = ap counted used in omega arith
      | inr free ↦ let counts : counted c.used ≡ 0 = ap counted free in omega arith
    ]

-- The block is marked as used, before it is trimmed.
abbrev pub marked : Arena → ℕ → ℕ → Arena
marked a o requested =
    put a o (record (a.blocks o) {
      size_flags = with_used (a.blocks o).size_flags;
      requested = requested;
    })

same_tag :
    (a : Arena) (pre : List Cell) (c : Cell) (post : List Cell)
    → Described a (pre ++ c ∷ post)
    → 1 ≤ total post
    → a.blocks (total pre + (c.size + 0))
      ≡ record (a.blocks (total pre + (c.size + 0))) { prev_size = c.size }
same_tag a pre c [] d some_post = absurd (omega arith)
same_tag a pre c (n ∷ post) d some_post =
    let placed =
      Described-Placed a (pre ++ c ∷ []) n post
        (subst (Described a) (sym (snoc pre c (n ∷ post))) d) in
    let there : total (pre ++ c ∷ []) ≡ total pre + (c.size + 0) = total-snoc pre c ∙ omega arith in
    let tag : (a.blocks (total (pre ++ c ∷ []))).prev_size ≡ c.size =
      ap {A = Block} (λ b. b.prev_size) placed.at ∙ last_size-append 0 pre (c ∷ []) in
    subst (λ k. a.blocks k ≡ record (a.blocks k) { prev_size = c.size }) there
      (ap {A = ℕ} {B = Block} (λ s. record (a.blocks (total (pre ++ c ∷ []))) { prev_size = s })
        tag)

-- The header of a loose block is written, its size kept.
pub put-Described :
    (a : Arena) (pre : List Cell) (c c' : Cell) (post : List Cell) (block : Block)
    → Described a (pre ++ c ∷ post)
    → c.linked ≡ false
    → c'.linked ≡ false
    → c'.size ≡ c.size
    → block
      ≡ header a.base
          (total pre)
          (last_size 0 pre)
          (last_linked 0 none_offset pre)
          (first_linked (total pre + (c.size + 0)) post none_offset)
          c'
    → Described (put a (total pre) block) (pre ++ c' ∷ post)
put-Described a pre c c' post block d loose loose' same is_header =
    let o = total pre in
    let placed = Described-Placed a pre c post d in
    let inside = placed.inside in
    let positive = placed.positive in
    Reshaped-Described a (put a o block) pre (c ∷ []) (c' ∷ []) post d (loose, tt) (loose', tt)
      (inl (omega arith)) (omega arith) d.bounded
      (record {
        base = refl;
        head = refl;
        below = λ i low. put-same a o block i (λ e. omega arith);
        above = λ i low high. put-same a o block i (λ e. omega arith);
        tag = λ some_post.
            put-same a o block (o + (c.size + 0)) (λ e. omega arith)
            ∙ same_tag a pre c post d some_post
            ∙ ap {A = ℕ} {B = Block} (λ s. record (a.blocks (o + (c.size + 0))) { prev_size = s })
                (sym same);
        within = (omega arith, put-at a o block ∙ is_header, tt);
      })

pub marked-Described :
    (a : Arena) (pre : List Cell) (size requested : ℕ) (post : List Cell)
    → Described a (pre ++ free_cell size false ∷ post)
    → Described (marked a (total pre) requested) (pre ++ used_cell size requested ∷ post)
marked-Described a pre size requested post d =
    let placed = Described-Placed a pre (free_cell size false) post d in
    put-Described a pre (free_cell size false) (used_cell size requested) post
      (record (a.blocks (total pre)) {
        size_flags = with_used (a.blocks (total pre)).size_flags;
        requested = requested;
      })
      d refl refl refl
      (ap {A = Block} (λ b. record b { size_flags = with_used b.size_flags; requested = requested })
        placed.at)

-- A heap in order stays so when its blocks are rearranged.
pub Holds-rearranged :
    (h : Heap) (cells cells' : List Cell) (a : Arena) (h' : Heap)
    → Holds h cells
    → h'.arena ≡ a
    → Described a cells'
    → Kept h.arena a
    → AreCells false cells'
    → (h'.initialized ≡ h.initialized)
      × (h'.max_size ≡ h.max_size)
      × (h'.growth_size ≡ h.growth_size)
    → requested_sum cells' ≡ h'.used_bytes
    → used_count cells' ≡ h'.live_allocations
    → h'.used_bytes ≤ h'.peak_usage
    → Holds h' cells'
Holds-rearranged h cells cells' a h' holds is_a d (base, mapped) good
      (initialized, max_size, growth_size) used live peak =
    record {
      described = subst (λ r. Described r cells') (sym is_a) d;
      cells_in_order = good;
      context =
          subst (λ b. IsContext b h'.arena.base h'.arena.mapped_size h'.max_size h'.growth_size)
            (sym initialized)
            (subst (λ b. IsContext h.initialized b h'.arena.mapped_size h'.max_size h'.growth_size)
              (sym (ap {A = Arena} (λ r. r.base) is_a ∙ base))
              (subst (λ m. IsContext h.initialized h.arena.base m h'.max_size h'.growth_size)
                (sym (ap {A = Arena} (λ r. r.mapped_size) is_a ∙ mapped))
                (subst
                  (λ m. IsContext h.initialized h.arena.base h.arena.mapped_size m h'.growth_size)
                  (sym max_size)
                  (subst
                    (λ g. IsContext h.initialized h.arena.base h.arena.mapped_size h.max_size g)
                    (sym growth_size) holds.context))));
      used_bytes = used;
      live_allocations = live;
      peak_usage = peak;
    }
