-- ===== src/Heap/Live.antt =====
-- The allocations that a client of kernel/memory/heap_core.c has: the offsets of the used blocks, in
-- order, with what was requested.
use utamo_os.Common.{
  ℕ, ◌+◌, ◌-◌, ◌≡◌, refl, sym, ap, ◌∙◌, true, false, List, [], ◌∷◌, ◌++◌, arith, if◌then◌else◌,
  Bool-cases, inl, inr, ltb,
}
use utamo_os.Heap.State.{min_block}
use utamo_os.Heap.Segment.{Cell, total}
use utamo_os.Heap.Good.{free_cell}
use utamo_os.Heap.Trim.{absorbed, absorbed-used, absorbed-free}
use utamo_os.Heap.Take.{trimmed}
use utamo_os.Heap.State.{Heap}
use utamo_os.Heap.Good.{Holds}

abbrev pub live : ℕ → List Cell → List (ℕ × ℕ)
live o [] = []
live o (c ∷ cs) =
    let rest = live (o + c.size) cs in if c.used then (o, c.requested) ∷ rest else rest

-- These allocations, in a heap in order at `base`
abbrev pub Unchanged : ℕ → List (ℕ × ℕ) → Heap → Type 0
Unchanged base allocations h =
    (cells : List Cell) × (Holds h cells × ((live 0 cells ≡ allocations) × (h.arena.base ≡ base)))

pub live-append :
    (o m : ℕ) (xs ys : List Cell) → m ≡ o + total xs → live o (xs ++ ys) ≡ live o xs ++ live m ys
live-append o m [] ys e = ap (λ k. live k ys) (omega arith)
live-append o m (x ∷ xs) ys e =
    let later = live-append (o + x.size) m xs ys (omega arith) in
    elim (Bool-cases x.used) [
      | inl used ↦
          ap
            (λ b.
              if b
              then (o, x.requested) ∷ live (o + x.size) (xs ++ ys)
              else live (o + x.size) (xs ++ ys))
            used
          ∙ ap (λ t. (o, x.requested) ∷ t) later
          ∙ ap
              (λ b.
                (if b then (o, x.requested) ∷ live (o + x.size) xs else live (o + x.size) xs)
                ++ live m ys)
              (sym used)
      | inr free ↦
          ap
            (λ b.
              if b
              then (o, x.requested) ∷ live (o + x.size) (xs ++ ys)
              else live (o + x.size) (xs ++ ys))
            free
          ∙ later
          ∙ ap
              (λ b.
                (if b then (o, x.requested) ∷ live (o + x.size) xs else live (o + x.size) xs)
                ++ live m ys)
              (sym free)
    ]

pub live-free :
    (o : ℕ) (n : Cell) (post : List Cell)
    → n.used ≡ false
    → live o (n ∷ post) ≡ live (o + n.size) post
live-free o n post free =
    ap (λ b. if b then (o, n.requested) ∷ live (o + n.size) post else live (o + n.size) post) free

absorbed-live :
    (o m rest : ℕ) (post : List Cell) → m ≡ o + rest → live o (absorbed rest post) ≡ live m post
absorbed-live o m rest [] e = refl
absorbed-live o m rest (n ∷ post) e = elim (Bool-cases n.used) [
  | inl used ↦ ap (live o) (absorbed-used rest n post used) ∙ ap (λ k. live k (n ∷ post)) (sym e)
  | inr free ↦
      ap (live o) (absorbed-free rest n post free)
      ∙ ap (λ k. live k post) (omega arith)
      ∙ sym (live-free m n post free)
]

pub trimmed-live :
    (o size needed requested : ℕ) (post : List Cell)
    → live o (trimmed size needed requested post) ≡ (o, requested) ∷ live (o + size) post
trimmed-live o size needed requested post = elim (Bool-cases (ltb (size - needed) min_block)) [
  | inl short ↦ rw short refl
  | inr long ↦ rw long (
      ap (λ t. (o, requested) ∷ t)
        (absorbed-live (o + needed) (o + size) (size - needed) post (ground arith)))
]

-- The cells after growth by `extra` bytes, `d` the last one before
abbrev pub grown_cells : List Cell → Cell → ℕ → List Cell
grown_cells pre d extra =
    if d.used
    then (pre ++ d ∷ []) ++ free_cell extra true ∷ []
    else pre ++ free_cell (d.size + extra) true ∷ []

pub grown_cells-live :
    (pre : List Cell) (d : Cell) (extra : ℕ)
    → live 0 (grown_cells pre d extra) ≡ live 0 (pre ++ d ∷ [])
grown_cells-live pre d extra = elim (Bool-cases d.used) [
  | inl used ↦
      ap
        (λ b. live 0 (
          if b
          then (pre ++ d ∷ []) ++ free_cell extra true ∷ []
          else pre ++ free_cell (d.size + extra) true ∷ []))
        used
      ∙ live-append 0 (total (pre ++ d ∷ [])) (pre ++ d ∷ []) (free_cell extra true ∷ [])
          (omega arith)
      ∙ append-nil (live 0 (pre ++ d ∷ []))
  | inr free ↦
      ap
        (λ b. live 0 (
          if b
          then (pre ++ d ∷ []) ++ free_cell extra true ∷ []
          else pre ++ free_cell (d.size + extra) true ∷ []))
        free
      ∙ live-append 0 (total pre) pre (free_cell (d.size + extra) true ∷ []) (omega arith)
      ∙ ap (λ t. live 0 pre ++ t) (sym (live-free (total pre) d [] free))
      ∙ sym (live-append 0 (total pre) pre (d ∷ []) (omega arith))
]
  where
    append-nil : (xs : List (ℕ × ℕ)) → xs ++ [] ≡ xs
    append-nil [] = refl
    append-nil (x ∷ xs) = ap (λ t. x ∷ t) (append-nil xs)
