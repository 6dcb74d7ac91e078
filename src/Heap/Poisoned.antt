-- ===== src/Heap/Poisoned.antt =====
-- trim_block of kernel/memory/heap_core.c, with the poison.
use utamo_os.Common.{
  ℕ, ◌+◌, ◌-◌, ◌≡◌, refl, sym, ap, ◌∙◌, Bool, true, false, List, [], ◌∷◌, ◌++◌, arith,
  if◌then◌else◌, ltb,
}
use mathlib.Core.Path.{subst}
use utamo_os.Heap.State.{Heap, block_size, min_block}
use utamo_os.Heap.Segment.{Cell, total}
use utamo_os.Heap.Rewire.{Described}
use utamo_os.Heap.Good.{AreCells, AreCells-split, used_cell, free_cell}
use utamo_os.Heap.Blocks.{poison_free}
use utamo_os.Heap.Run.{trim_block, split_block}
use utamo_os.Heap.Trim.{absorbed, snoc, total-snoc}
use utamo_os.Heap.Kept.{Kept, Kept-trans, split_block-Kept, trimmed_arena}
use utamo_os.Heap.Take.{trimmed}
use utamo_os.Heap.Payload.{Rewrites, poison_free-Rewrites, poison_free-Kept, poison_free-Described}

-- A tail that is too small, or a split
trim_block-cases :
    (P : Heap → Type 0) (h : Heap) (o needed : ℕ)
    → (ltb (block_size (h.arena.blocks o) - needed) min_block ≡ true → P h)
    → (ltb (block_size (h.arena.blocks o) - needed) min_block ≡ false
        → P (poison_free (record h { arena = split_block h.arena o needed }) (o + needed)))
    → P (trim_block h o needed)
unfolding trim_block
trim_block-cases P h o needed short long =
    choose (ltb (block_size (h.arena.blocks o) - needed) min_block) short long
  where
    choose :
        (b : Bool)
        → (b ≡ true → P h)
        → (b ≡ false
            → P (poison_free (record h { arena = split_block h.arena o needed }) (o + needed)))
        → P (
            if b
            then h
            else poison_free (record h { arena = split_block h.arena o needed }) (o + needed))
    choose true short long = short refl
    choose false short long = long refl

pub trim_block-Rewrites : (h : Heap) (o needed : ℕ) → Rewrites h (trim_block h o needed)
trim_block-Rewrites h o needed =
    trim_block-cases (Rewrites h) h o needed (λ e. refl)
      (λ e. poison_free-Rewrites (record h { arena = split_block h.arena o needed }) (o + needed))

pub trim_block-Kept : (h : Heap) (o needed : ℕ) → Kept h.arena (trim_block h o needed).arena
trim_block-Kept h o needed =
    trim_block-cases (λ g. Kept h.arena g.arena) h o needed (λ e. (refl, refl))
      (λ e.
        Kept-trans h.arena (split_block h.arena o needed)
          (poison_free (record h { arena = split_block h.arena o needed }) (o + needed)).arena
          (split_block-Kept h.arena o needed)
          (poison_free-Kept (record h { arena = split_block h.arena o needed }) (o + needed)))

absorbed-cons :
    (rest : ℕ) (post : List Cell) → (f : Cell) × ((cs : List Cell) × (absorbed rest post ≡ f ∷ cs))
absorbed-cons rest [] = (free_cell rest true, ([], refl))
absorbed-cons rest (n ∷ post) = choose n.used
  where
    choose :
        (b : Bool)
        → (f : Cell) × ((cs : List Cell) × ((if b
                then free_cell rest true ∷ n ∷ post
                else free_cell (rest + n.size) true ∷ post)
              ≡ f ∷ cs))
    choose true = (free_cell rest true, (n ∷ post, refl))
    choose false = (free_cell (rest + n.size) true, (post, refl))

-- The poison is in the free block that the tail becomes.
poisoned-Described :
    (h : Heap) (pre : List Cell) (needed requested rest : ℕ) (post : List Cell)
    → Described h.arena (pre ++ used_cell needed requested ∷ absorbed rest post)
    → AreCells false (pre ++ used_cell needed requested ∷ absorbed rest post)
    → Described
        (poison_free h (total pre + needed)).arena
        (pre ++ used_cell needed requested ∷ absorbed rest post)
poisoned-Described h pre needed requested rest post d good =
    let c = used_cell needed requested in
    let (f, (cs, e)) = absorbed-cons rest post in
    let same : (pre ++ c ∷ []) ++ f ∷ cs ≡ pre ++ c ∷ absorbed rest post =
      snoc pre c (f ∷ cs) ∙ ap (λ t. pre ++ c ∷ t) (sym e) in
    let (cell, _) =
      AreCells-split false (pre ++ c ∷ []) f cs (subst (AreCells false) (sym same) good) in
    let large = cell.large in
    subst (Described (poison_free h (total pre + needed)).arena) same (
      poison_free-Described h (total pre + needed) (pre ++ c ∷ []) f cs
        (subst (Described h.arena) (sym same) d) (sym (total-snoc pre c)) cell.aligned
        (omega arith))

pub trim_block-Described :
    (h : Heap) (pre : List Cell) (size requested needed : ℕ) (post : List Cell)
    → block_size (h.arena.blocks (total pre)) ≡ size
    → Described
        (trimmed_arena h.arena (total pre) needed)
        (pre ++ trimmed size needed requested post)
    → AreCells false (pre ++ trimmed size needed requested post)
    → Described (trim_block h (total pre) needed).arena (pre ++ trimmed size needed requested post)
trim_block-Described h pre size requested needed post reads dry good =
    let o = total pre in
    let cells : Bool → List Cell = λ b.
      pre
      ++ (if b
          then used_cell size requested ∷ post
          else used_cell needed requested ∷ absorbed (size - needed) post) in
    let split = split_block h.arena o needed in
    trim_block-cases (λ g. Described g.arena (pre ++ trimmed size needed requested post)) h o needed
      (λ e.
        subst
          (λ b.
            Described (if b then h.arena else split) (pre ++ trimmed size needed requested post))
          e dry)
      (λ e.
        let e' : ltb (size - needed) min_block ≡ false =
          ap (λ s. ltb (s - needed) min_block) (sym reads) ∙ e in
        let same = ap cells e' in
        let dry' : Described split (pre ++ trimmed size needed requested post) =
          subst
            (λ b.
              Described (if b then h.arena else split) (pre ++ trimmed size needed requested post))
            e dry in
        subst (Described (poison_free (record h { arena = split }) (o + needed)).arena) (sym same) (
          poisoned-Described (record h { arena = split }) pre needed requested (size - needed) post
            (subst (Described split) same dry') (subst (AreCells false) same good)))

pub trimmed-cons :
    (size needed requested : ℕ) (post : List Cell)
    → (c : Cell) × ((cs : List Cell) × ((trimmed size needed requested post ≡ c ∷ cs)
          × (c.used ≡ true)
          × (c.requested ≡ requested)))
trimmed-cons size needed requested post = choose (ltb (size - needed) min_block)
  where
    choose :
        (b : Bool)
        → (c : Cell) × ((cs : List Cell) × (((if b
                  then used_cell size requested ∷ post
                  else used_cell needed requested ∷ absorbed (size - needed) post)
                ≡ c ∷ cs)
              × (c.used ≡ true)
              × (c.requested ≡ requested)))
    choose true = (used_cell size requested, (post, (refl, refl, refl)))
    choose false = (used_cell needed requested, (absorbed (size - needed) post, (refl, refl, refl)))
