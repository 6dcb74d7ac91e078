-- ===== src/Heap/Cut.antt =====
-- Segments of the arena of kernel/memory/heap_core.c that lie behind each other.
use utamo_os.Common.{ℕ, ◌+◌, ◌<◌, ◌≡◌, sym, ap, ◌∙◌, List, [], ◌∷◌, ◌++◌, arith, if◌then◌else◌}
use mathlib.Core.Path.{subst}
use utamo_os.Heap.State.{Block}
use utamo_os.Heap.Segment.{
  Cell, total, first_linked, last_linked, last_size, header, Segment, Segment-frame,
}

pub total-append : (xs ys : List Cell) → total (xs ++ ys) ≡ total xs + total ys
total-append [] ys = omega arith
total-append (x ∷ xs) ys = omega (arith, total-append xs ys)

-- `m` is where the cells `ys` begin.
pub first_linked-append :
    (o m : ℕ) (xs ys : List Cell) (next : ℕ)
    → m ≡ o + total xs
    → first_linked o (xs ++ ys) next ≡ first_linked o xs (first_linked m ys next)
first_linked-append o m [] ys next e = ap (λ k. first_linked k ys next) (omega arith)
first_linked-append o m (x ∷ xs) ys next e =
    ap (λ l. if x.linked then o else l)
      (first_linked-append (o + x.size) m xs ys next (omega arith))

pub last_linked-append :
    (o m prior : ℕ) (xs ys : List Cell)
    → m ≡ o + total xs
    → last_linked o prior (xs ++ ys) ≡ last_linked m (last_linked o prior xs) ys
last_linked-append o m prior [] ys e = ap (λ k. last_linked k prior ys) (omega arith)
last_linked-append o m prior (x ∷ xs) ys e =
    last_linked-append (o + x.size) m (if x.linked then o else prior) xs ys (omega arith)

module _ (blocks : ℕ → Block) (base : ℕ) where
  pub Segment-split :
      (o m previous prior : ℕ) (xs ys : List Cell) (next : ℕ)
      → m ≡ o + total xs
      → Segment blocks base o previous prior (xs ++ ys) next
      → Segment blocks base o previous prior xs (first_linked m ys next)
        × Segment blocks base m (last_size previous xs) (last_linked o prior xs) ys next
  Segment-split o m previous prior [] ys next e s =
      let here : o ≡ m = omega arith in
      (tt, subst (λ k. Segment blocks base k previous prior ys next) here s)
  Segment-split o m previous prior (x ∷ xs) ys next e (positive, at, rest) =
      let (left, right) =
        Segment-split (o + x.size) m x.size (if x.linked then o else prior) xs ys next (omega arith)
          rest in
      (
        (
          positive,
          at
              ∙ ap (λ n. header base o previous prior n x)
                  (first_linked-append (o + x.size) m xs ys next (omega arith)),
          left,
        ),
        right,
      )

  pub Segment-append :
      (o m previous prior : ℕ) (xs ys : List Cell) (next : ℕ)
      → m ≡ o + total xs
      → Segment blocks base o previous prior xs (first_linked m ys next)
      → Segment blocks base m (last_size previous xs) (last_linked o prior xs) ys next
      → Segment blocks base o previous prior (xs ++ ys) next
  Segment-append o m previous prior [] ys next e left right =
      let here : m ≡ o = omega arith in
      subst (λ k. Segment blocks base k previous prior ys next) here right
  Segment-append o m previous prior (x ∷ xs) ys next e (positive, at, left) right = (
    positive,
    at
        ∙ ap (λ n. header base o previous prior n x)
            (sym (first_linked-append (o + x.size) m xs ys next (omega arith))),
    Segment-append (o + x.size) m x.size (if x.linked then o else prior) xs ys next (omega arith)
        left right,
  )

module _ {blocks blocks' : ℕ → Block} (base : ℕ) where
  -- The block before a segment gets another size.
  pub Segment-previous :
      (o previous previous' prior : ℕ) (c : Cell) (cs : List Cell) (next : ℕ)
      → ((i : ℕ) → o < i → i < o + total (c ∷ cs) → blocks' i ≡ blocks i)
      → blocks' o ≡ record (blocks o) { prev_size = previous' }
      → Segment blocks base o previous prior (c ∷ cs) next
      → Segment blocks' base o previous' prior (c ∷ cs) next
  Segment-previous o previous previous' prior c cs next same changed (positive, at, rest) = (
    positive,
    changed ∙ ap {A = Block} (λ b. record b { prev_size = previous' }) at,
    Segment-frame base (o + c.size) c.size (if c.linked then o else prior) cs next
        (λ i low high. same i (omega arith) (omega arith)) rest,
  )
