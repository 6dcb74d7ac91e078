-- ===== src/Heap/Segment.antt =====
-- What the headers of kernel/memory/heap_core.c say of the blocks in order: a segment of the arena
-- holds a list of cells, and the headers are those that the list determines.
use utamo_os.Common.{
  ℕ, ◌+◌, ◌≤◌, ◌<◌, ◌≡◌, ◌≢◌, ◌⊎◌, inl, inr, refl, sym, ap, ◌∙◌, Bool, true, false, List, [], ◌∷◌,
  arith, if◌then◌else◌, Bool-cases,
}
use mathlib.Core.Path.{subst}
use utamo_os.Heap.State.{Block, none_offset, with_used, block_cookie}

-- A block: its size, what was requested of it, whether it is in use and whether it is in the list
-- of free blocks.
pub record Cell : Type 0 where
  pub size : ℕ
  pub requested : ℕ
  pub used : Bool
  pub linked : Bool

abbrev pub total : List Cell → ℕ
total [] = 0
total (c ∷ cs) = c.size + total cs

-- The first block of the list at or after the offset, `next` if the cells have none
abbrev pub first_linked : ℕ → List Cell → ℕ → ℕ
first_linked o [] next = next
first_linked o (c ∷ cs) next = if c.linked then o else first_linked (o + c.size) cs next

-- The last one before the end of the cells, `prior` if they have none
abbrev pub last_linked : ℕ → ℕ → List Cell → ℕ
last_linked o prior [] = prior
last_linked o prior (c ∷ cs) = last_linked (o + c.size) (if c.linked then o else prior) cs

-- The size of the last cell, `previous` if there is none
abbrev pub last_size : ℕ → List Cell → ℕ
last_size previous [] = previous
last_size previous (c ∷ cs) = last_size c.size cs

abbrev pub header : ℕ → ℕ → ℕ → ℕ → ℕ → Cell → Block
header base o previous prior next c = record {
  size_flags = if c.used then with_used c.size else c.size;
  prev_size = previous;
  requested = c.requested;
  free_prev = if c.linked then prior else none_offset;
  free_next = if c.linked then next else none_offset;
  cookie = block_cookie base o;
}

-- From `o` on, after a block of `previous` bytes, the cells lie in the arena; `prior` is the free
-- block before them and `next` the one after them.
abbrev pub Segment : (ℕ → Block) → ℕ → ℕ → ℕ → ℕ → List Cell → ℕ → Type 0
Segment blocks base o previous prior [] next = Unit
Segment blocks base o previous prior (c ∷ cs) next =
    (1 ≤ c.size)
    × (blocks o ≡ header base o previous prior (first_linked (o + c.size) cs next) c)
    × Segment blocks base (o + c.size) c.size (if c.linked then o else prior) cs next

module _ {blocks blocks' : ℕ → Block} (base : ℕ) where
  -- A change elsewhere
  pub Segment-frame :
      (o previous prior : ℕ) (cs : List Cell) (next : ℕ)
      → ((i : ℕ) → o ≤ i → i < o + total cs → blocks' i ≡ blocks i)
      → Segment blocks base o previous prior cs next
      → Segment blocks' base o previous prior cs next
  Segment-frame o previous prior [] next same s = tt
  Segment-frame o previous prior (c ∷ cs) next same (positive, at, rest) = (
    positive,
    same o (omega arith) (omega arith) ∙ at,
    Segment-frame (o + c.size) c.size (if c.linked then o else prior) cs next
        (λ i h h'. same i (omega arith) (omega arith)) rest,
  )

-- No cell is empty.
abbrev pub Sized : List Cell → Type 0
Sized [] = Unit
Sized (c ∷ cs) = (1 ≤ c.size) × Sized cs

pub Segment-Sized :
    (blocks : ℕ → Block) (base o previous prior : ℕ) (cs : List Cell) (next : ℕ)
    → Segment blocks base o previous prior cs next
    → Sized cs
Segment-Sized blocks base o previous prior [] next s = tt
Segment-Sized blocks base o previous prior (c ∷ cs) next (positive, at, rest) = (
  positive,
  Segment-Sized blocks base (o + c.size) c.size (if c.linked then o else prior) cs next rest,
)

-- Either no cell is in the list of free blocks, or the ends of the list do not depend on what is
-- around the cells.
abbrev pub Unlinked : ℕ → ℕ → List Cell → Type 0
Unlinked o prior cs =
    (last_linked o prior cs ≡ prior) × ((next : ℕ) → first_linked o cs next ≡ next)

abbrev pub Links : ℕ → ℕ → List Cell → Type 0
Links o prior cs =
    (o ≤ last_linked o prior cs)
    × (last_linked o prior cs < o + total cs)
    × ((next next' : ℕ) → first_linked o cs next ≡ first_linked o cs next')

pub Unlinked-or-Links :
    (o prior : ℕ) (cs : List Cell) → Sized cs → Unlinked o prior cs ⊎ Links o prior cs
Unlinked-or-Links o prior [] sized = inl (refl, λ next. refl)
Unlinked-or-Links o prior (c ∷ cs) (positive, sized) = elim (Bool-cases c.linked) [
  | inl linked ↦ rw linked (elim (Unlinked-or-Links (o + c.size) o cs sized) [
    | inl (last, first) ↦ inr (omega arith, omega arith, λ next next'. refl)
    | inr (low, high, first) ↦ inr (omega arith, omega arith, λ next next'. refl)
  ])
  | inr unlinked ↦ rw unlinked (elim (Unlinked-or-Links (o + c.size) prior cs sized) [
    | inl (last, first) ↦ inl (last, first)
    | inr (low, high, first) ↦ inr (omega arith, omega arith, first)
  ])
]

-- The first link is in the segment or is the one after it.
pub first_linked-cases :
    (o : ℕ) (cs : List Cell) (next : ℕ)
    → Sized cs
    → (first_linked o cs next ≡ next)
      ⊎ ((o ≤ first_linked o cs next) × (first_linked o cs next < o + total cs))
first_linked-cases o [] next sized = inl refl
first_linked-cases o (c ∷ cs) next (positive, sized) = elim (Bool-cases c.linked) [
  | inl linked ↦ rw linked (inr (omega arith, omega arith))
  | inr unlinked ↦ rw unlinked (elim (first_linked-cases (o + c.size) cs next sized) [
    | inl e ↦ inl e
    | inr (low, high) ↦ inr (omega arith, omega arith)
  ])
]

module _ (base o previous prior prior' next next' : ℕ) (c : Cell) where
  pub header-next :
      c.linked ≡ true
      → record (header base o previous prior next c) { free_next = next' }
        ≡ header base o previous prior next' c
  header-next linked = rw linked refl

  pub header-prior :
      c.linked ≡ true
      → record (header base o previous prior next c) { free_prev = prior' }
        ≡ header base o previous prior' next c
  header-prior linked = rw linked refl

  pub header-unlinked :
      c.linked ≡ false → header base o previous prior next c ≡ header base o previous prior' next' c
  header-unlinked unlinked = rw unlinked refl

module _ {blocks blocks' : ℕ → Block} (base : ℕ) where
  -- The link behind the segment changes, and with it that of the last free block in it.
  pub Segment-next :
      (o previous prior : ℕ) (cs : List Cell) (next next' : ℕ)
      → ((prior < o) ⊎ (o + total cs ≤ prior))
      → ((i : ℕ) → o ≤ i → i < o + total cs → i ≢ last_linked o prior cs → blocks' i ≡ blocks i)
      → (o ≤ last_linked o prior cs
          → last_linked o prior cs < o + total cs
          → blocks' (last_linked o prior cs)
            ≡ record (blocks (last_linked o prior cs)) { free_next = next' })
      → Segment blocks base o previous prior cs next
      → Segment blocks' base o previous prior cs next'
  Segment-next o previous prior [] next next' outside same changed s = tt
  Segment-next o previous prior (c ∷ cs) next next' outside same changed (positive, at, rest) =
      let q = if c.linked then o else prior in
      let outside' : (q < o + c.size) ⊎ (o + c.size + total cs ≤ q) = elim (Bool-cases c.linked) [
        | inl linked ↦ rw linked (inl (omega arith))
        | inr unlinked ↦
            rw unlinked (elim outside [ inl h ↦ inl (omega arith) | inr h ↦ inr (omega arith) ])
      ] in
      let later =
        Segment-next (o + c.size) c.size q cs next next' outside'
          (λ i low high. same i (omega arith) (omega arith))
          (λ low high. changed (omega arith) (omega arith)) rest in
      let head : blocks' o ≡ header base o previous prior (first_linked (o + c.size) cs next') c =
        elim (Unlinked-or-Links (o + c.size) q cs
          (Segment-Sized blocks base (o + c.size) c.size q cs next rest)) [
            | inl (last, first) ↦ elim (Bool-cases c.linked) [
              | inl linked ↦
                  let here : last_linked (o + c.size) q cs ≡ o =
                    last ∙ ap (λ b. if b then o else prior) linked in
                  subst (λ l. blocks' l ≡ record (blocks l) { free_next = next' }) here
                    (changed (omega arith) (omega arith))
                  ∙ ap {A = Block} (λ b. record b { free_next = next' }) at
                  ∙ header-next base o previous prior prior (first_linked (o + c.size) cs next)
                      next' c linked
                  ∙ ap (λ n. header base o previous prior n c) (sym (first next'))
              | inr unlinked ↦
                  let before : last_linked (o + c.size) q cs ≡ prior =
                    last ∙ ap (λ b. if b then o else prior) unlinked in
                  same o (omega arith) (omega arith)
                    (λ e. elim outside [ inl h ↦ omega arith | inr h ↦ omega arith ])
                  ∙ at
                  ∙ header-unlinked base o previous prior prior (first_linked (o + c.size) cs next)
                      (first_linked (o + c.size) cs next') c unlinked
            ]
            | inr (low, high, first) ↦
                same o (omega arith) (omega arith) (λ e. omega arith)
                ∙ at
                ∙ ap (λ n. header base o previous prior n c) (first next next')
          ] in
      (positive, head, later)

  -- The link before the segment changes, and with it that of the first free block in it.
  pub Segment-prior :
      (o previous prior prior' : ℕ) (cs : List Cell) (next : ℕ)
      → ((next < o) ⊎ (o + total cs ≤ next))
      → ((i : ℕ) → o ≤ i → i < o + total cs → i ≢ first_linked o cs next → blocks' i ≡ blocks i)
      → (o ≤ first_linked o cs next
          → first_linked o cs next < o + total cs
          → blocks' (first_linked o cs next)
            ≡ record (blocks (first_linked o cs next)) { free_prev = prior' })
      → Segment blocks base o previous prior cs next
      → Segment blocks' base o previous prior' cs next
  Segment-prior o previous prior prior' [] next outside same changed s = tt
  Segment-prior o previous prior prior' (c ∷ cs) next outside same changed (positive, at, rest) =
      elim (Bool-cases c.linked) [
        | inl linked ↦
            let here : first_linked o (c ∷ cs) next ≡ o = rw linked refl in
            let stays : (if c.linked then o else prior) ≡ (if c.linked then o else prior') =
              rw linked refl in
            let framed =
              Segment-frame base (o + c.size) c.size (if c.linked then o else prior) cs next
                (λ i low high. same i (omega arith) (omega arith) (λ e. omega arith)) rest in
            (
              positive,
              subst (λ l. blocks' l ≡ record (blocks l) { free_prev = prior' }) here
                    (changed (omega arith) (omega arith))
                  ∙ ap {A = Block} (λ b. record b { free_prev = prior' }) at
                  ∙ header-prior base o previous prior prior' (first_linked (o + c.size) cs next)
                      next c linked,
              subst (λ q. Segment blocks' base (o + c.size) c.size q cs next) stays framed,
            )
        | inr unlinked ↦
            let there : first_linked o (c ∷ cs) next ≡ first_linked (o + c.size) cs next =
              rw unlinked refl in
            let q : (if c.linked then o else prior) ≡ prior = rw unlinked refl in
            let q' : (if c.linked then o else prior') ≡ prior' = rw unlinked refl in
            let sized =
              Segment-Sized blocks base (o + c.size) c.size (if c.linked then o else prior) cs next
                rest in
            let outside' : (next < o + c.size) ⊎ (o + c.size + total cs ≤ next) = elim outside [
              | inl h ↦ inl (omega arith)
              | inr h ↦ inr (omega arith)
            ] in
            let elsewhere : o ≢ first_linked (o + c.size) cs next = λ e.
              elim (first_linked-cases (o + c.size) cs next sized) [
                | inl next_is ↦ elim outside [ inl h ↦ omega arith | inr h ↦ omega arith ]
                | inr (low, high) ↦ omega arith
              ] in
            let later =
              Segment-prior (o + c.size) c.size prior prior' cs next outside'
                (λ i low high other. same i (omega arith) (omega arith) (λ e. other (e ∙ there)))
                (λ low high.
                  subst (λ l. blocks' l ≡ record (blocks l) { free_prev = prior' }) there
                    (changed (omega arith) (omega arith)))
                (subst (λ p. Segment blocks base (o + c.size) c.size p cs next) q rest) in
            (
              positive,
              same o (omega arith) (omega arith) (λ e. elsewhere (e ∙ there))
                  ∙ at
                  ∙ header-unlinked base o previous prior prior' (first_linked (o + c.size) cs next)
                      (first_linked (o + c.size) cs next) c unlinked,
              subst (λ p. Segment blocks' base (o + c.size) c.size p cs next) (sym q') later,
            )
      ]
