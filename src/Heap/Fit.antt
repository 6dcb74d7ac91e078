-- ===== src/Heap/Fit.antt =====
-- find_fit and last_block of kernel/memory/heap_core.c: the first free block that is large enough,
-- and the last block.
use utamo_os.Common.{
  ℕ, zero, suc, ◌+◌, ◌≤◌, ◌<◌, ◌≡◌, ◌≢◌, ◌⊎◌, inl, inr, refl, sym, ap, ◌∙◌, Bool, true, false, not,
  List, [], ◌∷◌, ◌++◌, arith, if◌then◌else◌, Bool-cases, ltb, leb, leb→le, ◌==◌, ◌&&◌, ◌||◌,
}
use mathlib.Core.Path.{subst}
use utamo_os.Heap.State.{Block, Arena, none_offset, block_size}
use utamo_os.Heap.Blocks.{find_fit, last_block}
use utamo_os.Heap.Segment.{Cell, total, first_linked, Segment}
use utamo_os.Heap.Good.{AreCells, block_size-header}

-- A free cell of at least `needed` bytes begins at `found`.
abbrev pub Found : ℕ → ℕ → List Cell → ℕ → Type 0
Found needed from cs found =
    (pre : List Cell) × (c : Cell) × (post : List Cell) × ((cs ≡ pre ++ c ∷ post)
      × (found ≡ from + total pre)
      × (c.used ≡ false)
      × (needed ≤ c.size))

-- Whether a free cell has at least `needed` bytes
abbrev pub has_room : ℕ → List Cell → Bool
has_room needed [] = false
has_room needed (c ∷ cs) = (not c.used && leb needed c.size) || has_room needed cs

abbrev pub NotFound : ℕ → List Cell → ℕ → Type 0
NotFound needed cs found = (found ≡ none_offset) × (has_room needed cs ≡ false)

later_Found :
    (needed from : ℕ) (d : Cell) (cs : List Cell) (found : ℕ)
    → Found needed (from + d.size) cs found
    → Found needed from (d ∷ cs) found
later_Found needed from d cs found (pre, c, post, (e, at, free, fits)) =
    (d ∷ pre, c, post, (ap (λ t. d ∷ t) e, omega arith, free, fits))

module _ (a : Arena) (needed fuel offset : ℕ) where
  find_fit-here :
      offset ≢ none_offset
      → needed ≤ block_size (a.blocks offset)
      → find_fit a needed (suc fuel) offset ≡ offset
  unfolding find_fit
  find_fit-here some fits =
      let e : (offset == none_offset) ≡ false = ground arith in
      let e' : leb needed (block_size (a.blocks offset)) ≡ true = ground arith in
      rw (e, e', find_fit) refl

  find_fit-next :
      offset ≢ none_offset
      → leb needed (block_size (a.blocks offset)) ≡ false
      → find_fit a needed (suc fuel) offset ≡ find_fit a needed fuel (a.blocks offset).free_next
  unfolding find_fit
  find_fit-next some e' =
      let e : (offset == none_offset) ≡ false = ground arith in rw (e, e', find_fit) refl

  last_block-next :
      offset + block_size (a.blocks offset) < a.mapped_size
      → last_block a (suc fuel) offset ≡ last_block a fuel (offset + block_size (a.blocks offset))
  unfolding last_block
  last_block-next below =
      let e : ltb (offset + block_size (a.blocks offset)) a.mapped_size ≡ true = ground arith in
      rw (e, last_block) refl

  last_block-here :
      a.mapped_size ≤ offset + block_size (a.blocks offset)
      → last_block a (suc fuel) offset ≡ offset
  unfolding last_block
  last_block-here above =
      let e : ltb (offset + block_size (a.blocks offset)) a.mapped_size ≡ false = ground arith in
      rw (e, last_block) refl

find_fit-none : (a : Arena) (needed fuel : ℕ) → find_fit a needed fuel none_offset ≡ none_offset
unfolding find_fit
find_fit-none a needed zero = refl
find_fit-none a needed (suc fuel) = refl

pub find_fit-Segment :
    (a : Arena) (needed from previous prior fuel : ℕ) (after_free : Bool) (cs : List Cell)
    → Segment a.blocks a.base from previous prior cs none_offset
    → AreCells after_free cs
    → from + total cs < none_offset
    → total cs ≤ fuel
    → let found = find_fit a needed fuel (first_linked from cs none_offset) in
      NotFound needed cs found ⊎ Found needed from cs found
find_fit-Segment a needed from previous prior fuel after_free [] s good below enough =
    inl (find_fit-none a needed fuel, refl)
find_fit-Segment a needed from previous prior zero after_free (c ∷ cs) (positive, at, rest) good
      below enough =
    absurd (omega arith)
find_fit-Segment a needed from previous prior (suc fuel) after_free (c ∷ cs) (positive, at, rest)
      (good, apart, others) below enough =
    let n = first_linked (from + c.size) cs none_offset in
    let size : block_size (a.blocks from) ≡ c.size =
      ap block_size at ∙ block_size-header a.base from previous prior n c good.aligned in
    elim (Bool-cases c.used) [
      | inl used ↦
          let here : first_linked from (c ∷ cs) none_offset ≡ n =
            ap (λ b. if b then from else n) (good.listed ∙ ap not used) in
          subst
            (λ k.
              NotFound needed (c ∷ cs) (find_fit a needed (suc fuel) k)
              ⊎ Found needed from (c ∷ cs) (find_fit a needed (suc fuel) k))
            (sym here)
            (lift from c cs (find_fit a needed (suc fuel) n) (ground arith) (
              find_fit-Segment a needed (from + c.size) c.size (if c.linked then from else prior)
                (suc fuel) (not c.used) cs rest others (omega arith) (omega arith)))
      | inr free ↦
          let linked : c.linked ≡ true = good.listed ∙ ap not free in
          let here : first_linked from (c ∷ cs) none_offset ≡ from =
            ap (λ b. if b then from else n) linked in
          let next : (a.blocks from).free_next ≡ n =
            ap {A = Block} (λ b. b.free_next) at ∙ ap (λ b. if b then n else none_offset) linked in
          subst
            (λ k.
              NotFound needed (c ∷ cs) (find_fit a needed (suc fuel) k)
              ⊎ Found needed from (c ∷ cs) (find_fit a needed (suc fuel) k))
            (sym here)
            (elim (Bool-cases (leb needed (block_size (a.blocks from)))) [
              | inl fits ↦ inr (
                [],
                c,
                cs,
                (
                  refl,
                  find_fit-here a needed fuel from (λ e. omega arith)
                        (leb→le needed (block_size (a.blocks from)) fits)
                      ∙ omega arith,
                  free,
                  omega (arith, leb→le needed (block_size (a.blocks from)) fits),
                ),
              )
              | inr short ↦
                  let step : find_fit a needed (suc fuel) from ≡ find_fit a needed fuel n =
                    find_fit-next a needed fuel from (λ e. omega arith) short
                    ∙ ap (find_fit a needed fuel) next in
                  subst (λ k. NotFound needed (c ∷ cs) k ⊎ Found needed from (c ∷ cs) k) (sym step)
                    (lift from c cs (find_fit a needed fuel n) (ground arith) (
                      find_fit-Segment a needed (from + c.size) c.size
                        (if c.linked then from else prior) fuel (not c.used) cs rest others
                        (omega arith) (omega arith)))
            ])
    ]
  where
    lift :
        (from : ℕ) (c : Cell) (cs : List Cell) (found : ℕ)
        → (not c.used && leb needed c.size) ≡ false
        → NotFound needed cs found ⊎ Found needed (from + c.size) cs found
        → NotFound needed (c ∷ cs) found ⊎ Found needed from (c ∷ cs) found
    lift from c cs found small (inl (e, none_fits)) = inl (e, ground arith)
    lift from c cs found small (inr f) = inr (later_Found needed from c cs found f)

-- The cells before the last one, and where that begins
pub last_block-Segment :
    (a : Arena) (from previous prior fuel : ℕ) (after_free : Bool) (c : Cell) (cs : List Cell)
    → Segment a.blocks a.base from previous prior (c ∷ cs) none_offset
    → AreCells after_free (c ∷ cs)
    → from + total (c ∷ cs) ≡ a.mapped_size
    → total (c ∷ cs) ≤ fuel
    → (pre : List Cell) × (d : Cell) × ((c ∷ cs ≡ pre ++ d ∷ [])
        × (last_block a fuel from ≡ from + total pre))
last_block-Segment a from previous prior zero after_free c cs (positive, at, rest) good ends
      enough =
    absurd (omega arith)
last_block-Segment a from previous prior (suc fuel) after_free c [] (positive, at, rest)
      (good, apart, others) ends enough =
    let size : block_size (a.blocks from) ≡ c.size =
      ap block_size at ∙ block_size-header a.base from previous prior none_offset c good.aligned in
    ([], c, (refl, last_block-here a 0 fuel from (omega arith) ∙ omega arith))
last_block-Segment a from previous prior (suc fuel) after_free c (n ∷ cs) (positive, at, rest)
      (good, apart, others) ends enough =
    let size : block_size (a.blocks from) ≡ c.size =
      ap block_size at
      ∙ block_size-header a.base from previous prior
          (first_linked (from + c.size) (n ∷ cs) none_offset) c good.aligned in
    let large = others.0.large in
    let (pre, d, (e, last)) =
      last_block-Segment a (from + c.size) c.size (if c.linked then from else prior) fuel
        (not c.used) n cs rest others (omega arith) (omega arith) in
    (
      c ∷ pre,
      d,
      (
        ap (λ t. c ∷ t) e,
        last_block-next a 0 fuel from (omega arith)
            ∙ ap (λ s. last_block a fuel (from + s)) size
            ∙ last
            ∙ omega arith,
      ),
    )
