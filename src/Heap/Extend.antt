-- ===== src/Heap/Extend.antt =====
-- append_free, the stores of grow_heap in kernel/memory/heap_core.c: the new bytes become a free
-- block or part of the one at the end.
use utamo_os.Common.{
  ℕ, ◌+◌, ◌≤◌, ◌<◌, ◌≡◌, inl, inr, refl, sym, ap, ◌∙◌, true, false, List, [], ◌∷◌, ◌++◌, arith,
  Bool-cases, ◌==◌,
}
use mathlib.Core.Path.{subst}
use utamo_os.Heap.State.{Block, Arena, none_offset, put, write_block, fresh_block}
use utamo_os.Heap.Blocks.{remove_free, insert_free, link_next, link_prev, set_links}
use utamo_os.Heap.Segment.{Cell, total, last_linked, last_size, header}
use utamo_os.Heap.Rewire.{Described}
use utamo_os.Heap.Unlink.{Described-Placed, remove_free-Described, insert_free-Described}
use utamo_os.Heap.Reshape.{put-at, put-same, Reshaped-Described}
use utamo_os.Heap.Good.{free_cell}
use utamo_os.Heap.Kept.{remove_free-Kept}

abbrev pub resized : Arena → ℕ → Arena
resized a mapped_size = record a { mapped_size = mapped_size }

module _ (a : Arena) (m : ℕ) where
  link_next-resized :
      (prior next : ℕ) → link_next (resized a m) prior next ≡ resized (link_next a prior next) m
  unfolding link_next
  link_next-resized prior next = elim (Bool-cases (prior == none_offset)) [
    | inl h ↦ rw h refl
    | inr h ↦ rw h refl
  ]

  link_prev-resized :
      (next prior : ℕ) → link_prev (resized a m) next prior ≡ resized (link_prev a next prior) m
  unfolding link_prev
  link_prev-resized next prior = elim (Bool-cases (next == none_offset)) [
    | inl h ↦ rw h refl
    | inr h ↦ rw h refl
  ]

  set_links-resized :
      (o prior next : ℕ)
      → set_links (resized a m) o prior next ≡ resized (set_links a o prior next) m
  unfolding set_links
  set_links-resized o prior next = refl

pub remove_free-resized :
    (a : Arena) (m o : ℕ) → remove_free (resized a m) o ≡ resized (remove_free a o) m
unfolding remove_free
remove_free-resized a m o =
    let s = link_next a (a.blocks o).free_prev (a.blocks o).free_next in
    let next = (s.blocks o).free_next in
    let prev = (s.blocks o).free_prev in
    ap {A = Arena}
      (λ t.
        set_links (link_prev t (t.blocks o).free_next (t.blocks o).free_prev) o none_offset
          none_offset)
      (link_next-resized a m (a.blocks o).free_prev (a.blocks o).free_next)
    ∙ ap (λ t. set_links t o none_offset none_offset) (link_prev-resized s m next prev)
    ∙ set_links-resized (link_prev s next prev) m o none_offset none_offset

-- The free block behind the blocks of an arena
abbrev pub appended : Arena → ℕ → ℕ → Arena
appended a extra tail_size =
    write_block (resized a (a.mapped_size + extra)) a.mapped_size extra tail_size 0 false

pub appended-Described :
    (a : Arena) (cells : List Cell) (extra : ℕ)
    → Described a cells
    → 1 ≤ extra
    → a.mapped_size + extra < none_offset
    → Described
        (insert_free (appended a extra (last_size 0 cells)) a.mapped_size)
        (cells ++ free_cell extra true ∷ [])
appended-Described a cells extra d some_extra bounded =
    let o = total cells in
    let whole = d.size in
    let free = fresh_block a.base a.mapped_size extra (last_size 0 cells) 0 false in
    let grown = resized a (a.mapped_size + extra) in
    let r = put grown a.mapped_size free in
    let f = free_cell extra false in
    let d' = subst (Described a) (sym (append_nil cells)) d in
    let at : r.blocks o
        ≡ header a.base o (last_size 0 cells) (last_linked 0 none_offset cells) none_offset f =
      ap r.blocks whole
      ∙ put-at grown a.mapped_size free
      ∙ ap
          (λ k. header a.base k (last_size 0 cells) (last_linked 0 none_offset cells) none_offset f)
          (sym whole) in
    let described : Described r (cells ++ f ∷ []) =
      Reshaped-Described a r cells [] (f ∷ []) [] d' tt (refl, tt) (inr refl) (omega arith) bounded
        (record {
          base = refl;
          head = refl;
          below = λ i low. put-same grown a.mapped_size free i (λ e. omega arith);
          above = λ i low high. absurd (omega arith);
          tag = λ some_post. absurd (omega arith);
          within = (some_extra, at, tt);
        }) in
    subst (λ k. Described (insert_free r k) (cells ++ free_cell extra true ∷ [])) whole
      (insert_free-Described r cells f [] described refl)
  where
    append_nil : (xs : List Cell) → xs ++ [] ≡ xs
    append_nil [] = refl
    append_nil (x ∷ xs) = ap (λ t. x ∷ t) (append_nil xs)

-- The free block at the end, extended
abbrev pub extended : Arena → ℕ → ℕ → ℕ → Arena
extended a o size extra =
    let removed = remove_free (resized a (a.mapped_size + extra)) o in
    write_block removed o (size + extra) (removed.blocks o).prev_size 0 false

pub extended-Described :
    (a : Arena) (pre : List Cell) (size extra : ℕ)
    → Described a (pre ++ free_cell size true ∷ [])
    → a.mapped_size + extra < none_offset
    → Described
        (insert_free (extended a (total pre) size extra) (total pre))
        (pre ++ free_cell (size + extra) true ∷ [])
extended-Described a pre size extra d bounded =
    let o = total pre in
    let c = free_cell size false in
    let c' = free_cell (size + extra) false in
    let m = a.mapped_size + extra in
    let removed = remove_free a o in
    let removed' = remove_free (resized a m) o in
    let same : removed' ≡ resized removed m = remove_free-resized a m o in
    let d' = remove_free-Described a pre (free_cell size true) [] d refl in
    let placed = Described-Placed removed pre c [] d' in
    let inside = placed.inside in
    let positive = placed.positive in
    let (base, mapped) = remove_free-Kept a o in
    let grown = resized removed m in
    let free = fresh_block removed.base o (size + extra) (removed.blocks o).prev_size 0 false in
    let r = put grown o free in
    let tag : (removed.blocks o).prev_size ≡ last_size 0 pre =
      ap {A = Block} (λ b. b.prev_size) placed.at in
    let at : free
        ≡ header removed.base o (last_size 0 pre) (last_linked 0 none_offset pre) none_offset c' =
      ap {A = ℕ} {B = Block} (λ s. fresh_block removed.base o (size + extra) s 0 false) tag in
    let described : Described r (pre ++ c' ∷ []) =
      Reshaped-Described removed r pre (c ∷ []) (c' ∷ []) [] d' (refl, tt) (refl, tt) (inr refl)
        (omega arith) bounded
        (record {
          base = refl;
          head = refl;
          below = λ i low. put-same grown o free i (λ e. omega arith);
          above = λ i low high. absurd (omega arith);
          tag = λ some_post. absurd (omega arith);
          within = (omega arith, put-at grown o free ∙ at, tt);
        }) in
    let inserted = insert_free-Described r pre c' [] described refl in
    subst
      (λ t.
        Described (insert_free (write_block t o (size + extra) (t.blocks o).prev_size 0 false) o)
          (pre ++ free_cell (size + extra) true ∷ []))
      (sym same) inserted
