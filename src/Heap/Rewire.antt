-- ===== src/Heap/Rewire.antt =====
-- remove_free and insert_free of kernel/memory/heap_core.c write the links of one block and of its
-- two neighbours in the list of free blocks.
use utamo_os.Common.{
  ℕ, ◌+◌, ◌≤◌, ◌<◌, ◌≡◌, ◌≢◌, ◌⊎◌, inl, inr, sym, ap, ◌∙◌, Bool, true, false, List, ◌∷◌, ◌++◌,
  arith, if◌then◌else◌, ◌==◌, ==_iff,
}
use mathlib.Core.Path.{subst}
use utamo_os.Heap.State.{Block, Arena, none_offset}
use utamo_os.Heap.Segment.{
  Cell, total, first_linked, last_linked, last_size, header, Segment, Segment-Sized, Segment-next,
  Segment-prior, Unlinked-or-Links, first_linked-cases,
}
use utamo_os.Heap.Cut.{total-append, first_linked-append, Segment-split, Segment-append}

-- The arena holds the cells, and its list of free blocks is that of the linked ones.
pub record Described (a : Arena) (cells : List Cell) : Type 0 where
  pub head : first_linked 0 cells none_offset ≡ a.free_head
  pub size : total cells ≡ a.mapped_size
  pub bounded : a.mapped_size < none_offset
  pub holds : Segment a.blocks a.base 0 0 none_offset cells none_offset

-- `r` is `a` but for the links `x` and `y` of the block at `o`, the link `n` of the free block `q`
-- before it and the link `p` of the free block `f` after it.
pub record Rewired (a r : Arena) (o q f x y n p : ℕ) : Type 0 where
  pub base : r.base ≡ a.base
  pub mapped_size : r.mapped_size ≡ a.mapped_size
  pub head : r.free_head ≡ (if q == none_offset then n else a.free_head)
  pub at : r.blocks o ≡ record (a.blocks o) { free_prev = x; free_next = y }
  pub elsewhere : (i : ℕ) → i ≢ o → i ≢ q → i ≢ f → r.blocks i ≡ a.blocks i
  pub before : q ≢ none_offset → r.blocks q ≡ record (a.blocks q) { free_next = n }
  pub after : f ≢ none_offset → r.blocks f ≡ record (a.blocks f) { free_prev = p }

abbrev pub with_link : Cell → Bool → Cell
with_link c linked = record c { linked = linked }

-- The cell at `o` changes its place in the list only.
pub Rewired-Described :
    (a r : Arena) (pre : List Cell) (c : Cell) (post : List Cell) (linked : Bool) (x y n p : ℕ)
    → Described a (pre ++ c ∷ post)
    → let o = total pre in
      let q = last_linked 0 none_offset pre in
      let f = first_linked (o + c.size) post none_offset in
      (record (header a.base o (last_size 0 pre) q f c) { free_prev = x; free_next = y }
        ≡ header a.base o (last_size 0 pre) q f (with_link c linked))
      → first_linked o (with_link c linked ∷ post) none_offset ≡ n
      → (if linked then o else q) ≡ p
      → Rewired a r o q f x y n p
      → Described r (pre ++ with_link c linked ∷ post)
Rewired-Described a r pre c post linked x y n p d turns first last w =
    let o = total pre in
    let q = last_linked 0 none_offset pre in
    let f = first_linked (o + c.size) post none_offset in
    let (left, (positive, at, right)) =
      Segment-split a.blocks a.base 0 o 0 none_offset pre (c ∷ post) none_offset (omega arith)
        d.holds in
    let sized =
      Segment-Sized a.blocks a.base 0 0 none_offset pre (first_linked o (c ∷ post) none_offset)
        left in
    let sized' =
      Segment-Sized a.blocks a.base (o + c.size) c.size (if c.linked then o else q) post none_offset
        right in
    let size : total pre + (c.size + total post) ≡ a.mapped_size =
      sym (total-append pre (c ∷ post)) ∙ d.size in
    let bounded = d.bounded in
    let q_at : (q ≡ none_offset) ⊎ (q < o) = elim (Unlinked-or-Links 0 none_offset pre sized) [
      | inl (h, _) ↦ inl h
      | inr (low, high, _) ↦ inr (omega arith)
    ] in
    let f_at : (f ≡ none_offset) ⊎ (o + c.size ≤ f) =
      elim (first_linked-cases (o + c.size) post none_offset sized') [
        | inl h ↦ inl h
        | inr (low, high) ↦ inr low
      ] in
    let left' =
      Segment-next {blocks = a.blocks} {blocks' = r.blocks} a.base 0 0 none_offset pre
        (first_linked o (c ∷ post) none_offset) n (inr (omega arith))
        (λ i low high other.
          w.elsewhere i (λ e. omega arith) other
            (λ e. elim f_at [ inl h ↦ omega arith | inr h ↦ omega arith ]))
        (λ low high. w.before (λ e. omega arith)) left in
    let right' =
      Segment-prior {blocks = a.blocks} {blocks' = r.blocks} a.base (o + c.size) c.size
        (if c.linked then o else q) p post none_offset (inr (omega arith))
        (λ i low high other.
          w.elsewhere i (λ e. omega arith)
            (λ e. elim q_at [ inl h ↦ omega arith | inr h ↦ omega arith ]) other)
        (λ low high. w.after (λ e. omega arith)) right in
    let at' = w.at ∙ ap {A = Block} (λ b. record b { free_prev = x; free_next = y }) at ∙ turns in
    let whole =
      Segment-append r.blocks a.base 0 o 0 none_offset pre (with_link c linked ∷ post) none_offset
        (omega arith) (subst (λ k. Segment r.blocks a.base 0 0 none_offset pre k) (sym first) left')
        (
          positive,
          at',
          subst (λ k. Segment r.blocks a.base (o + c.size) c.size k post none_offset) (sym last)
              right',
        ) in
    let through : first_linked 0 (pre ++ with_link c linked ∷ post) none_offset
        ≡ first_linked 0 pre n =
      first_linked-append 0 o pre (with_link c linked ∷ post) none_offset (omega arith)
      ∙ ap (first_linked 0 pre) first in
    let through' : a.free_head ≡ first_linked 0 pre (first_linked o (c ∷ post) none_offset) =
      sym d.head ∙ first_linked-append 0 o pre (c ∷ post) none_offset (omega arith) in
    record {
      head = elim (Unlinked-or-Links 0 none_offset pre sized) [
        | inl (e, all) ↦
            let none_is : (q == none_offset) ≡ true = (==_iff q none_offset).1 e in
            through ∙ all n ∙ sym (w.head ∙ ap (λ t. if t then n else a.free_head) none_is)
        | inr (low, high, same) ↦
            let some_is : (q == none_offset) ≡ false = ground arith in
            through
            ∙ same n (first_linked o (c ∷ post) none_offset)
            ∙ sym through'
            ∙ sym (w.head ∙ ap (λ t. if t then n else a.free_head) some_is)
      ];
      size = total-append pre (with_link c linked ∷ post) ∙ size ∙ sym w.mapped_size;
      bounded = subst (λ k. k < none_offset) (sym w.mapped_size) d.bounded;
      holds =
          subst
            (λ b. Segment r.blocks b 0 0 none_offset (pre ++ with_link c linked ∷ post) none_offset)
            (sym w.base) whole;
    }
