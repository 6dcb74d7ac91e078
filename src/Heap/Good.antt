-- ===== src/Heap/Good.antt =====
-- What the blocks of a heap in order satisfy in kernel/memory/heap_core.c, and what the code reads
-- of them.
use utamo_os.Common.{
  ℕ, ◌+◌, ◌%◌, ◌≤◌, ◌≡◌, ◌⊎◌, inl, inr, ap, ◌∙◌, Bool, true, false, not, List, [], ◌∷◌, ◌++◌, arith,
  Bool-cases, u64_max,
}
use utamo_os.Heap.State.{Heap, with_used, block_size, block_used}
use utamo_os.Heap.Segment.{Cell, header}
use utamo_os.Heap.Rewire.{Described}

-- A cell as the code leaves it: a block in use, or a free one of the list.
pub record IsCell (c : Cell) : Type 0 where
  pub large : 64 ≤ c.size
  pub aligned : c.size % 16 ≡ 0
  pub listed : c.linked ≡ not c.used
  pub in_use : c.used ≡ true → (1 ≤ c.requested) × (c.requested + 48 ≤ c.size)
  pub unused : c.used ≡ false → c.requested ≡ 0

-- All are such cells, and no two free ones are neighbours; `after_free` says that the block before
-- is free.
abbrev pub AreCells : Bool → List Cell → Type 0
AreCells after_free [] = Unit
AreCells after_free (c ∷ cs) =
    IsCell c × ((c.used ≡ true) ⊎ (after_free ≡ false)) × AreCells (not c.used) cs

-- The sum of what is requested of the cells, and how many are in use
abbrev pub requested_sum : List Cell → ℕ
requested_sum [] = 0
requested_sum (c ∷ cs) = c.requested + requested_sum cs

abbrev pub counted : Bool → ℕ
counted true = 1
counted false = 0

abbrev pub used_count : List Cell → ℕ
used_count [] = 0
used_count (c ∷ cs) = counted c.used + used_count cs

-- What context_valid tests
abbrev pub IsContext : Bool → ℕ → ℕ → ℕ → ℕ → Type 0
IsContext initialized base mapped_size max_size growth_size =
    (initialized ≡ true)
    × (16 ≤ base)
    × (base % 16 ≡ 0)
    × (64 ≤ mapped_size)
    × (mapped_size ≤ max_size)
    × (max_size + base ≤ u64_max)
    × (64 ≤ growth_size)
    × (mapped_size % 16 ≡ 0)
    × (max_size % 16 ≡ 0)
    × (growth_size % 16 ≡ 0)

-- A heap in order, with its blocks
pub record Holds (h : Heap) (cells : List Cell) : Type 0 where
  pub described : Described h.arena cells
  pub cells_in_order : AreCells false cells
  pub context : IsContext h.initialized h.arena.base h.arena.mapped_size h.max_size h.growth_size
  pub used_bytes : requested_sum cells ≡ h.used_bytes
  pub live_allocations : used_count cells ≡ h.live_allocations
  pub peak_usage : h.used_bytes ≤ h.peak_usage

module _ (base o previous prior next : ℕ) (c : Cell) where
  pub block_size-header :
      c.size % 16 ≡ 0 → block_size (header base o previous prior next c) ≡ c.size
  unfolding block_size with_used
  block_size-header aligned = elim (Bool-cases c.used) [
    | inl used ↦ rw used (omega arith)
    | inr free ↦ rw free (omega arith)
  ]

  pub block_used-header :
      c.size % 16 ≡ 0 → block_used (header base o previous prior next c) ≡ c.used
  unfolding block_used with_used
  block_used-header aligned = elim (Bool-cases c.used) [
    | inl used ↦ rw used (ground arith)
    | inr free ↦ rw free (ground arith)
  ]

pub AreCells-split :
    (after_free : Bool) (xs : List Cell) (c : Cell) (ys : List Cell)
    → AreCells after_free (xs ++ c ∷ ys)
    → IsCell c × AreCells (not c.used) ys
AreCells-split after_free [] c ys (here, apart, rest) = (here, rest)
AreCells-split after_free (x ∷ xs) c ys (here, apart, rest) =
    AreCells-split (not x.used) xs c ys rest

-- Cells that a block before them does not bother
pub AreCells-weaken :
    (after_free : Bool) (cs : List Cell) → AreCells true cs → AreCells after_free cs
AreCells-weaken after_free [] g = tt
AreCells-weaken after_free (c ∷ cs) (here, apart, rest) =
    (here, elim apart [ inl u ↦ inl u | inr e ↦ absurd (ground arith) ], rest)

-- The cells from some place on may be replaced by others that fit there.
pub AreCells-replace :
    (after_free : Bool) (xs ys zs : List Cell)
    → ((b : Bool) → AreCells b ys → AreCells b zs)
    → AreCells after_free (xs ++ ys)
    → AreCells after_free (xs ++ zs)
AreCells-replace after_free [] ys zs turn g = turn after_free g
AreCells-replace after_free (x ∷ xs) ys zs turn (here, apart, rest) =
    (here, apart, AreCells-replace (not x.used) xs ys zs turn rest)

pub requested_sum-append :
    (xs ys : List Cell) → requested_sum (xs ++ ys) ≡ requested_sum xs + requested_sum ys
requested_sum-append [] ys = omega arith
requested_sum-append (x ∷ xs) ys = omega (arith, requested_sum-append xs ys)

pub used_count-append : (xs ys : List Cell) → used_count (xs ++ ys) ≡ used_count xs + used_count ys
used_count-append [] ys = omega arith
used_count-append (x ∷ xs) ys = omega (arith, used_count-append xs ys)

-- Whether the first of the cells is free, and its size
abbrev pub head_free : List Cell → Bool
head_free [] = false
head_free (c ∷ cs) = not c.used

abbrev pub free_cell : ℕ → Bool → Cell
free_cell size linked = record { size = size; requested = 0; used = false; linked = linked }

abbrev pub used_cell : ℕ → ℕ → Cell
used_cell size requested = record {
  size = size;
  requested = requested;
  used = true;
  linked = false;
}

pub IsCell-free : (c : Cell) → IsCell c → c.used ≡ false → c ≡ free_cell c.size true
IsCell-free c good free =
    ap {A = ℕ} {B = Cell}
      (λ r. record { size = c.size; requested = r; used = c.used; linked = c.linked })
      (good.unused free)
    ∙ ap {A = Bool} {B = Cell}
        (λ l. record { size = c.size; requested = 0; used = c.used; linked = l }) good.listed
    ∙ ap {A = Bool} {B = Cell}
        (λ u. record { size = c.size; requested = 0; used = u; linked = not u }) free

pub IsCell-used : (c : Cell) → IsCell c → c.used ≡ true → c ≡ used_cell c.size c.requested
IsCell-used c good used =
    ap {A = Bool} {B = Cell}
      (λ l. record { size = c.size; requested = c.requested; used = c.used; linked = l })
      good.listed
    ∙ ap {A = Bool} {B = Cell}
        (λ u. record { size = c.size; requested = c.requested; used = u; linked = not u }) used
