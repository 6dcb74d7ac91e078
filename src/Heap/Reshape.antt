-- ===== src/Heap/Reshape.antt =====
-- Blocks of kernel/memory/heap_core.c that are not in the list of free blocks are split, merged,
-- taken and extended.
use utamo_os.Common.{
  ℕ, ◌+◌, ◌≤◌, ◌<◌, ◌≡◌, ◌≢◌, ◌⊎◌, inl, inr, refl, sym, ap, ◌∙◌, true, false, List, [], ◌∷◌, ◌++◌,
  arith, if◌then◌else◌, ◌==◌, ==_iff,
}
use mathlib.Core.Path.{subst}
use utamo_os.Heap.State.{Block, Arena, none_offset, put}
use utamo_os.Heap.Segment.{
  Cell, total, first_linked, last_linked, last_size, Segment, Segment-frame,
}
use utamo_os.Heap.Cut.{
  total-append, first_linked-append, Segment-split, Segment-append, Segment-previous,
}
use utamo_os.Heap.Rewire.{Described}

module _ (a : Arena) (offset : ℕ) (block : Block) where
  pub put-at : (put a offset block).blocks offset ≡ block
  put-at = let e : (offset == offset) ≡ true = (==_iff offset offset).1 refl in rw e refl

  pub put-same : (i : ℕ) → i ≢ offset → (put a offset block).blocks i ≡ a.blocks i
  put-same i other = let e : (i == offset) ≡ false = ground arith in rw e refl

-- No cell is in the list.
abbrev pub Loose : List Cell → Type 0
Loose [] = Unit
Loose (c ∷ cs) = (c.linked ≡ false) × Loose cs

pub first_linked-Loose :
    (o : ℕ) (cs : List Cell) (next : ℕ) → Loose cs → first_linked o cs next ≡ next
first_linked-Loose o [] next loose = refl
first_linked-Loose o (c ∷ cs) next (e, loose) =
    ap (λ b. if b then o else first_linked (o + c.size) cs next) e
    ∙ first_linked-Loose (o + c.size) cs next loose

pub last_linked-Loose : (o prior : ℕ) (cs : List Cell) → Loose cs → last_linked o prior cs ≡ prior
last_linked-Loose o prior [] loose = refl
last_linked-Loose o prior (c ∷ cs) (e, loose) =
    ap (λ b. last_linked (o + c.size) (if b then o else prior) cs) e
    ∙ last_linked-Loose (o + c.size) prior cs loose

pub last_size-append :
    (previous : ℕ) (xs ys : List Cell)
    → last_size previous (xs ++ ys) ≡ last_size (last_size previous xs) ys
last_size-append previous [] ys = refl
last_size-append previous (x ∷ xs) ys = last_size-append x.size xs ys

-- The cells `mid`, at `total pre`, become the cells `mid'`. The block after them has the size of the last
-- one in its tag.
pub record Reshaped (a r : Arena) (pre mid mid' post : List Cell) : Type 0 where
  pub base : r.base ≡ a.base
  pub head : r.free_head ≡ a.free_head
  pub below : (i : ℕ) → i < total pre → r.blocks i ≡ a.blocks i
  pub above :
      (i : ℕ)
      → total pre + total mid < i
      → i < total pre + total mid + total post
      → r.blocks i ≡ a.blocks i
  pub tag :
      1 ≤ total post
      → r.blocks (total pre + total mid)
        ≡ record (a.blocks (total pre + total mid)) { prev_size = last_size (last_size 0 pre) mid' }
  pub within :
      Segment r.blocks a.base
        (total pre)
        (last_size 0 pre)
        (last_linked 0 none_offset pre)
        mid'
        (first_linked (total pre + total mid) post none_offset)

module _ (a r : Arena) (pre mid mid' : List Cell) where
  pub Reshaped-Described :
      (post : List Cell)
      → Described a (pre ++ (mid ++ post))
      → Loose mid
      → Loose mid'
      → (total mid' ≡ total mid) ⊎ (post ≡ [])
      → r.mapped_size ≡ total pre + total mid' + total post
      → r.mapped_size < none_offset
      → Reshaped a r pre mid mid' post
      → Described r (pre ++ (mid' ++ post))
  Reshaped-Described post d loose loose' same_total mapped bounded w =
      let o = total pre in
      let q = last_linked 0 none_offset pre in
      let m = total pre + total mid in
      let m' = total pre + total mid' in
      let f = first_linked m post none_offset in
      let (left, rest) =
        Segment-split a.blocks a.base 0 o 0 none_offset pre (mid ++ post) none_offset (omega arith)
          d.holds in
      let (middle, right) =
        Segment-split a.blocks a.base o m (last_size 0 pre) q mid post none_offset refl rest in
      let through : first_linked o (mid ++ post) none_offset ≡ f =
        first_linked-append o m mid post none_offset refl ∙ first_linked-Loose o mid f loose in
      let left' =
        Segment-frame {blocks = a.blocks} {blocks' = r.blocks} a.base 0 0 none_offset pre f
          (λ i low high. w.below i (omega arith))
          (subst (Segment a.blocks a.base 0 0 none_offset pre) through left) in
      let right' =
        tail post q (last_size (last_size 0 pre) mid) m (last_size (last_size 0 pre) mid')
          (λ i low high. w.above i low high) w.tag
          (subst
            (λ p. Segment a.blocks a.base m (last_size (last_size 0 pre) mid) p post none_offset)
            (last_linked-Loose o q mid loose) right) in
      let joined = join post loose' same_total w.within right' in
      let f' : first_linked o (mid' ++ post) none_offset ≡ f =
        first_linked-append o m' mid' post none_offset refl
        ∙ first_linked-Loose o mid' (first_linked m' post none_offset) loose'
        ∙ moved post same_total in
      record {
        head =
            first_linked-append 0 o pre (mid' ++ post) none_offset (omega arith)
            ∙ ap (first_linked 0 pre) (f' ∙ sym through)
            ∙ sym (first_linked-append 0 o pre (mid ++ post) none_offset (omega arith))
            ∙ d.head
            ∙ sym w.head;
        size = omega (arith, total-append pre (mid' ++ post), total-append mid' post);
        bounded = bounded;
        holds =
            subst (λ b. Segment r.blocks b 0 0 none_offset (pre ++ (mid' ++ post)) none_offset)
              (sym w.base)
              (Segment-append r.blocks a.base 0 o 0 none_offset pre (mid' ++ post) none_offset
                (omega arith) (subst (Segment r.blocks a.base 0 0 none_offset pre) (sym f') left')
                joined);
      }
    where
      moved :
          (post : List Cell)
          → (total mid' ≡ total mid) ⊎ (post ≡ [])
          → first_linked (total pre + total mid') post none_offset
            ≡ first_linked (total pre + total mid) post none_offset
      moved post (inl e) = ap (λ n. first_linked (total pre + n) post none_offset) e
      moved post (inr e) =
          ap (λ cs. first_linked (total pre + total mid') cs none_offset) e
          ∙ ap (λ cs. first_linked (total pre + total mid) cs none_offset) (sym e)

      tail :
          (post : List Cell) (q previous m previous' : ℕ)
          → ((i : ℕ) → m < i → i < m + total post → r.blocks i ≡ a.blocks i)
          → (1 ≤ total post → r.blocks m ≡ record (a.blocks m) { prev_size = previous' })
          → Segment a.blocks a.base m previous q post none_offset
          → Segment r.blocks a.base m previous' q post none_offset
      tail [] q previous m previous' above tag s = tt
      tail (c ∷ cs) q previous m previous' above tag s =
          Segment-previous a.base m previous previous' q c cs none_offset above
            (tag (omega (arith, s.0))) s

      join :
          (post : List Cell)
          → Loose mid'
          → (total mid' ≡ total mid) ⊎ (post ≡ [])
          → Segment r.blocks a.base
              (total pre)
              (last_size 0 pre)
              (last_linked 0 none_offset pre)
              mid'
              (first_linked (total pre + total mid) post none_offset)
          → Segment r.blocks a.base
              (total pre + total mid)
              (last_size (last_size 0 pre) mid')
              (last_linked 0 none_offset pre)
              post
              none_offset
          → Segment r.blocks a.base
              (total pre)
              (last_size 0 pre)
              (last_linked 0 none_offset pre)
              (mid' ++ post)
              none_offset
      join post loose' same within right =
          let q = last_linked 0 none_offset pre in
          Segment-append r.blocks a.base (total pre) (total pre + total mid') (last_size 0 pre) q
            mid' post none_offset refl
            (subst (Segment r.blocks a.base (total pre) (last_size 0 pre) q mid')
              (sym (moved post same)) within)
            (subst
              (λ p.
                Segment r.blocks a.base (total pre + total mid') (last_size (last_size 0 pre) mid')
                  p post none_offset)
              (sym (last_linked-Loose (total pre) q mid' loose'))
              (elim same [
                | inl e ↦
                    subst
                      (λ n.
                        Segment r.blocks a.base (total pre + n) (last_size (last_size 0 pre) mid') q
                          post none_offset)
                      (sym e) right
                | inr e ↦
                    subst
                      (λ cs.
                        Segment r.blocks a.base (total pre + total mid')
                          (last_size (last_size 0 pre) mid') q cs none_offset)
                      (sym e) tt
              ]))
