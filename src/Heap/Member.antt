-- ===== src/Heap/Member.antt =====
-- The allocations of a client of kernel/memory/heap_core.c, and their blocks.
use utamo_os.Common.{
  ℕ, ◌+◌, ◌-◌, ◌≤◌, ◌≡◌, ◌⊎◌, inl, inr, refl, sym, ap, ◌∙◌, true, false, List, [], ◌∷◌, ◌++◌, arith,
  if◌then◌else◌, Bool-cases,
}
use mathlib.Core.Path.{subst}
use utamo_os.Heap.State.{Heap, header_size}
use utamo_os.Heap.Segment.{Cell, total}
use utamo_os.Heap.Good.{Holds, IsCell-used, AreCells-split, used_cell}
use utamo_os.Heap.Live.{live}
use utamo_os.Heap.State.{write_memory}
use utamo_os.Heap.Payload.{write_memory-Holds}

-- A used block at the offset
abbrev pub UsedAt : Heap → ℕ → Type 0
UsedAt h offset =
    (pre : List Cell) × ((size : ℕ) × ((old : ℕ) × ((post : List Cell) × (Holds h
              (pre ++ used_cell size old ∷ post)
            × (offset ≡ total pre)))))

abbrev pub Member : ℕ × ℕ → List (ℕ × ℕ) → Type 0
Member x [] = true ≡ false
Member x (y ∷ ys) = (x ≡ y) ⊎ Member x ys

pub Member-middle : (x : ℕ × ℕ) (xs ys : List (ℕ × ℕ)) → Member x (xs ++ x ∷ ys)
Member-middle x [] ys = inl refl
Member-middle x (z ∷ xs) ys = inr (Member-middle x xs ys)

pub Member-insert :
    (x y : ℕ × ℕ) (xs ys : List (ℕ × ℕ)) → Member x (xs ++ ys) → Member x (xs ++ y ∷ ys)
Member-insert x y [] ys m = inr m
Member-insert x y (z ∷ xs) ys (inl e) = inl e
Member-insert x y (z ∷ xs) ys (inr m) = inr (Member-insert x y xs ys m)

-- The cell of an allocation
pub live-Member :
    (from offset requested : ℕ) (cs : List Cell)
    → Member (offset, requested) (live from cs)
    → (pre : List Cell) × ((c : Cell) × ((post : List Cell) × ((cs ≡ pre ++ c ∷ post)
            × ((c.used ≡ true) × ((offset ≡ from + total pre) × (requested ≡ c.requested))))))
live-Member from offset requested [] m = absurd (ground arith)
live-Member from offset requested (c ∷ cs) m = elim (Bool-cases c.used) [
  | inl used ↦
      let m' : Member (offset, requested) ((from, c.requested) ∷ live (from + c.size) cs) =
        subst (Member (offset, requested))
          (ap
            (λ b.
              if b then (from, c.requested) ∷ live (from + c.size) cs else live (from + c.size) cs)
            used)
          m in
      elim m' [
        | inl e ↦ (
          [],
          (
            c,
            (
              cs,
              (
                refl,
                (used, (ap {A = ℕ × ℕ} (λ p. p.0) e ∙ omega arith, ap {A = ℕ × ℕ} (λ p. p.1) e)),
              ),
            ),
          ),
        )
        | inr later ↦
            let (pre, (d, (post, (e, (u, (at, same)))))) =
              live-Member (from + c.size) offset requested cs later in
            (c ∷ pre, (d, (post, (ap (λ t. c ∷ t) e, (u, (omega arith, same))))))
      ]
  | inr free ↦
      let later : Member (offset, requested) (live (from + c.size) cs) =
        subst (Member (offset, requested))
          (ap
            (λ b.
              if b then (from, c.requested) ∷ live (from + c.size) cs else live (from + c.size) cs)
            free)
          m in
      let (pre, (d, (post, (e, (u, (at, same)))))) =
        live-Member (from + c.size) offset requested cs later in
      (c ∷ pre, (d, (post, (ap (λ t. c ∷ t) e, (u, (omega arith, same))))))
]

pub Member-UsedAt :
    (h : Heap) (cells : List Cell) (offset requested : ℕ)
    → Holds h cells
    → Member (offset, requested) (live 0 cells)
    → UsedAt h offset
Member-UsedAt h cells offset requested holds m =
    let (pre, (c, (post, (e, (used, (at, _)))))) = live-Member 0 offset requested cells m in
    let holds' = subst (Holds h) e holds in
    let (cell, _) = AreCells-split false pre c post holds'.cells_in_order in
    (
      pre,
      (
        c.size,
        (
          c.requested,
          (
            post,
            (subst (λ d. Holds h (pre ++ d ∷ post)) (IsCell-used c cell used) holds', omega arith),
          ),
        ),
      ),
    )

-- What a client was given may be written.
pub Member-write_memory :
    (h : Heap) (cells : List Cell) (offset requested count : ℕ) (source : ℕ → ℕ)
    → Holds h cells
    → Member (offset, requested) (live 0 cells)
    → count ≤ requested
    → Holds (write_memory h (offset + header_size) count source) cells
Member-write_memory h cells offset requested count source holds m small =
    let (pre, (c, (post, (e, (used, (at, same)))))) = live-Member 0 offset requested cells m in
    let holds' = subst (Holds h) e holds in
    let (cell, _) = AreCells-split false pre c post holds'.cells_in_order in
    let (some_requested, room) = cell.in_use used in
    subst (Holds (write_memory h (offset + header_size) count source)) (sym e) (
      write_memory-Holds h pre c post (offset + header_size) count source holds' (omega arith)
        (omega arith))

-- Likewise at the pointer that an allocation returned
pub Gained-write_memory :
    (base : ℕ) (cells : List Cell) (before after : List (ℕ × ℕ))
    (requested offset pointer count : ℕ) (source : ℕ → ℕ) (g : Heap)
    → Holds g cells
    → pointer ≡ base + (offset + header_size)
    → live 0 cells ≡ before ++ (offset, requested) ∷ after
    → g.arena.base ≡ base
    → count ≤ requested
    → Holds (write_memory g (pointer - g.arena.base) count source) cells
Gained-write_memory base cells before after requested offset pointer count source g holds at is same
      small =
    subst (λ k. Holds (write_memory g k count source) cells) (omega arith)
      (Member-write_memory g cells offset requested count source holds
        (subst (Member (offset, requested)) (sym is)
          (Member-middle (offset, requested) before after))
        small)
