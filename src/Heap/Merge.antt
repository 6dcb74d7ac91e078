-- ===== src/Heap/Merge.antt =====
-- free_block, the stores of `release` in kernel/memory/heap_core.c: a block becomes free, together with
-- the free blocks before and after it.
use utamo_os.Common.{
  ℕ, ◌+◌, ◌-◌, ◌≤◌, ◌≡◌, ◌≢◌, ◌⊎◌, inl, inr, refl, sym, ap, ◌∙◌, Bool, true, false, not, ◌&&◌, List,
  [], ◌∷◌, ◌++◌, arith, Bool-cases, ◌==◌, ltb, lt→ltb,
}
use mathlib.Core.Path.{subst}
use utamo_os.Heap.State.{
  Block, Arena, none_offset, block_size, block_used, put, fresh_block, write_block,
}
use utamo_os.Heap.Segment.{Cell, total, first_linked, last_linked, last_size}
use utamo_os.Heap.Blocks.{remove_free, insert_free, following_previous}
use utamo_os.Heap.Run.{next_is_free}
use utamo_os.Heap.Give.{Merged, merge_before, merge_after}
use utamo_os.Heap.Cut.{total-append}
use utamo_os.Heap.Rewire.{Described, with_link}
use utamo_os.Heap.Unlink.{Described-Placed, remove_free-Described, insert_free-Described}
use utamo_os.Heap.Reshape.{put-at, put-same, Reshaped-Described, Loose, last_size-append}
use utamo_os.Heap.Good.{
  AreCells, used_cell, free_cell, head_free, AreCells-split, block_size-header, block_used-header,
}
use utamo_os.Heap.Trim.{
  following_previous-at, following_previous-same, following_previous-rest, snoc, total-snoc,
}

pub append_assoc : (xs ys zs : List Cell) → (xs ++ ys) ++ zs ≡ xs ++ (ys ++ zs)
append_assoc [] ys zs = refl
append_assoc (x ∷ xs) ys zs = ap (λ t. x ∷ t) (append_assoc xs ys zs)

-- Whether the last of the cells is free
abbrev pub last_free : Bool → List Cell → Bool
last_free after_free [] = after_free
last_free after_free (c ∷ cs) = last_free (not c.used) cs

pub AreCells-cut :
    (after_free : Bool) (xs ys : List Cell)
    → AreCells after_free (xs ++ ys)
    → AreCells after_free xs × AreCells (last_free after_free xs) ys
AreCells-cut after_free [] ys good = (tt, good)
AreCells-cut after_free (x ∷ xs) ys (good, apart, rest) =
    let (left, right) = AreCells-cut (not x.used) xs ys rest in ((good, apart, left), right)

pub AreCells-join :
    (after_free : Bool) (xs ys : List Cell)
    → AreCells after_free xs
    → AreCells (last_free after_free xs) ys
    → AreCells after_free (xs ++ ys)
AreCells-join after_free [] ys left right = right
AreCells-join after_free (x ∷ xs) ys (good, apart, left) right =
    (good, apart, AreCells-join (not x.used) xs ys left right)

pub last_free-snoc :
    (after_free : Bool) (xs : List Cell) (c : Cell)
    → last_free after_free (xs ++ c ∷ []) ≡ not c.used
last_free-snoc after_free [] c = refl
last_free-snoc after_free (x ∷ xs) c = last_free-snoc (not x.used) xs c

-- The stores of free_block into the headers, once the free blocks around are out of their list
abbrev pub joined : Arena → ℕ → ℕ → ℕ → Arena
joined a offset size previous =
    following_previous (write_block a offset size previous 0 false) offset size

pub joined-Described :
    (a : Arena) (pre mid post : List Cell)
    → Described a (pre ++ (mid ++ post))
    → Loose mid
    → 1 ≤ total mid
    → Described
        (insert_free (joined a (total pre) (total mid) (last_size 0 pre)) (total pre))
        (pre ++ free_cell (total mid) true ∷ post)
joined-Described a pre mid post d loose some =
    let o = total pre in
    let size = total mid in
    let free = fresh_block a.base o size (last_size 0 pre) 0 false in
    let written = put a o free in
    let r = following_previous written o size in
    let (base, mapped, head) = following_previous-rest written o size in
    let whole : total pre + (total mid + total post) ≡ a.mapped_size =
      omega (arith, total-append pre (mid ++ post), total-append mid post, d.size) in
    let bounded = d.bounded in
    let outside = λ (i : ℕ) (h : i ≢ o) (h' : i ≢ o + size).
      following_previous-same written o size i h' ∙ put-same a o free i h in
    let d' =
      Reshaped-Described a r pre mid (free_cell size false ∷ []) post d loose (refl, tt)
        (inl (omega arith)) (omega arith) (omega arith)
        (record {
          base = base;
          head = head;
          below = λ i low. outside i (λ e. omega arith) (λ e. omega arith);
          above = λ i low high. outside i (λ e. omega arith) (λ e. omega arith);
          tag = λ some_post.
              following_previous-at written o size (omega arith)
              ∙ ap {A = Block} (λ b. record b { prev_size = size })
                  (put-same a o free (o + size) (λ e. omega arith));
          within = (
            some,
            following_previous-same written o size o (λ e. omega arith) ∙ put-at a o free,
            tt,
          );
        }) in
    insert_free-Described r pre (free_cell size false) post d' refl

-- The block behind some cells, as the code reads it
next_is_free-at :
    (a : Arena) (xs post : List Cell) (after_free : Bool)
    → Described a (xs ++ post)
    → AreCells after_free post
    → next_is_free a (total xs) ≡ head_free post
next_is_free-at a xs [] after_free d good =
    let size = d.size in
    let stop : ltb (total xs) a.mapped_size ≡ false = ground (arith, total-append xs []) in
    rw stop refl
next_is_free-at a xs (n ∷ post) after_free d (good, apart, rest) =
    let placed = Described-Placed a xs n post d in
    let inside = placed.inside in
    let large = good.large in
    let go : ltb (total xs) a.mapped_size ≡ true = lt→ltb (total xs) a.mapped_size (omega arith) in
    let used : block_used (a.blocks (total xs)) ≡ n.used =
      ap block_used placed.at
      ∙ block_used-header a.base (total xs) (last_size 0 xs) (last_linked 0 none_offset xs)
          (first_linked (total xs + n.size) post none_offset) n good.aligned in
    rw (go, used) refl

-- What is merged so far: the cells `mid` behind `pre` are one block to be.
pub record Merging (m : Merged) (pre mid post : List Cell) : Type 0 where
  pub described : Described m.arena (pre ++ (mid ++ post))
  pub loose : Loose mid
  pub some : 1 ≤ total mid
  pub offset : m.offset ≡ total pre
  pub size : m.size ≡ total mid
  pub previous : m.previous ≡ last_size 0 pre

Loose-snoc : (mid : List Cell) (c : Cell) → Loose mid → c.linked ≡ false → Loose (mid ++ c ∷ [])
Loose-snoc [] c loose e = (e, tt)
Loose-snoc (x ∷ mid) c (h, loose) e = (h, Loose-snoc mid c loose e)

merge_after-stop :
    (m : Merged) → next_is_free m.arena (m.offset + m.size) ≡ false → merge_after m ≡ m
unfolding merge_after
merge_after-stop m e = rw (e, merge_after) refl

merge_after-go :
    (m : Merged)
    → next_is_free m.arena (m.offset + m.size) ≡ true
    → merge_after m ≡ record m {
      size = m.size + block_size (m.arena.blocks (m.offset + m.size));
      arena = remove_free m.arena (m.offset + m.size);
    }
unfolding merge_after
merge_after-go m e = rw (e, merge_after) refl

-- The cells after merge_after: those that are merged, and those behind them
abbrev pub MergedAfter : Merged → List Cell → List Cell → List Cell → Type 0
MergedAfter m pre mid post =
    (mid' rest : List Cell) × (Merging m pre mid' rest
      × (((mid' ≡ mid) × ((rest ≡ post) × (head_free post ≡ false)))
          ⊎ ((n : Cell) × ((mid' ≡ mid ++ with_link n false ∷ [])
                × ((post ≡ n ∷ rest) × (n.used ≡ false))))))

pub merge_after-MergedAfter :
    (m : Merged) (pre mid post : List Cell) (after_free : Bool)
    → Merging m pre mid post
    → AreCells after_free post
    → MergedAfter (merge_after m) pre mid post
merge_after-MergedAfter m pre mid post after_free merging good =
    let here : total (pre ++ mid) ≡ m.offset + m.size =
      omega (arith, total-append pre mid, merging.offset, merging.size) in
    let d = subst (Described m.arena) (sym (append_assoc pre mid post)) merging.described in
    let reads : next_is_free m.arena (m.offset + m.size) ≡ head_free post =
      ap (next_is_free m.arena) (sym here)
      ∙ next_is_free-at m.arena (pre ++ mid) post after_free d good in
    elim (Bool-cases (head_free post)) [
      | inr stop ↦
          subst (λ r. MergedAfter r pre mid post) (sym (merge_after-stop m (reads ∙ stop)))
            (mid, post, (merging, inl (refl, (refl, stop))))
      | inl free ↦
          subst (λ r. MergedAfter r pre mid post) (sym (merge_after-go m (reads ∙ free)))
            (absorb post merging d good free here)
    ]
  where
    absorb :
        (post : List Cell)
        → Merging m pre mid post
        → Described m.arena ((pre ++ mid) ++ post)
        → AreCells after_free post
        → head_free post ≡ true
        → total (pre ++ mid) ≡ m.offset + m.size
        → MergedAfter
            (record m {
              size = m.size + block_size (m.arena.blocks (m.offset + m.size));
              arena = remove_free m.arena (m.offset + m.size);
            })
            pre
            mid
            post
    absorb [] merging d good free here = absurd (ground arith)
    absorb (n ∷ post) merging d (good, apart, rest) free here =
        let placed = Described-Placed m.arena (pre ++ mid) n post d in
        let size : block_size (m.arena.blocks (m.offset + m.size)) ≡ n.size =
          ap (λ k. block_size (m.arena.blocks k)) (sym here)
          ∙ ap block_size placed.at
          ∙ block_size-header m.arena.base (total (pre ++ mid)) (last_size 0 (pre ++ mid))
              (last_linked 0 none_offset (pre ++ mid))
              (first_linked (total (pre ++ mid) + n.size) post none_offset) n good.aligned in
        let removed = remove_free-Described m.arena (pre ++ mid) n post d (good.listed ∙ free) in
        let removed' : Described (remove_free m.arena (m.offset + m.size))
            (pre ++ ((mid ++ with_link n false ∷ []) ++ post)) =
          subst
            (λ k.
              Described (remove_free m.arena k) (pre ++ ((mid ++ with_link n false ∷ []) ++ post)))
            here
            (subst (λ cs. Described (remove_free m.arena (total (pre ++ mid))) (pre ++ cs))
              (sym (snoc mid (with_link n false) post))
              (subst (Described (remove_free m.arena (total (pre ++ mid))))
                (append_assoc pre mid (with_link n false ∷ post)) removed)) in
        let is_free : n.used ≡ false = ground arith in
        (
          mid ++ with_link n false ∷ [],
          post,
          (
            record {
              described = removed';
              loose = Loose-snoc mid (with_link n false) merging.loose refl;
              some = omega (arith, total-snoc mid (with_link n false), merging.some);
              offset = merging.offset;
              size =
                  ap (λ k. m.size + k) size
                  ∙ ap (λ k. k + n.size) merging.size
                  ∙ sym (total-snoc mid (with_link n false));
              previous = merging.previous;
            },
            inr (n, (refl, (refl, is_free))),
          ),
        )

merge_before-stop :
    (a : Arena) (o size previous : ℕ)
    → block_size (a.blocks o) ≡ size
    → (a.blocks o).prev_size ≡ previous
    → (not (previous == 0) && not (block_used (a.blocks (o - previous)))) ≡ false
    → merge_before a o ≡ record { arena = a; offset = o; size = size; previous = previous }
unfolding merge_before
merge_before-stop a o size previous e e' stop = rw (e, e', stop, merge_before) refl

merge_before-go :
    (a : Arena) (o size previous : ℕ)
    → block_size (a.blocks o) ≡ size
    → (a.blocks o).prev_size ≡ previous
    → (not (previous == 0) && not (block_used (a.blocks (o - previous)))) ≡ true
    → merge_before a o ≡ record {
      arena = remove_free a (o - previous);
      offset = o - previous;
      size = size + previous;
      previous = ((remove_free a (o - previous)).blocks (o - previous)).prev_size;
    }
unfolding merge_before
merge_before-go a o size previous e e' go = rw (e, e', go, merge_before) refl

snoc_view : (xs : List Cell) → (xs ≡ []) ⊎ ((ys : List Cell) × ((b : Cell) × (xs ≡ ys ++ b ∷ [])))
snoc_view [] = inl refl
snoc_view (x ∷ xs) = elim (snoc_view xs) [
  | inl e ↦ inr ([], (x, ap (λ t. x ∷ t) e))
  | inr (ys, (b, e)) ↦ inr (x ∷ ys, (b, ap (λ t. x ∷ t) e))
]

-- The cells after merge_before, of which those before the merged ones end with a used one.
abbrev pub MergedBefore : Merged → List Cell → Cell → List Cell → Type 0
MergedBefore m pre c post =
    (pre' mid : List Cell) × (Merging m pre' mid post
      × ((last_free false pre' ≡ false)
          × (((pre ≡ pre') × (mid ≡ c ∷ []))
              ⊎ ((b : Cell) × ((pre ≡ pre' ++ b ∷ [])
                    × ((mid ≡ with_link b false ∷ c ∷ []) × (b.used ≡ false)))))))

pub merge_before-MergedBefore :
    (a : Arena) (pre : List Cell) (size requested : ℕ) (post : List Cell)
    → Described a (pre ++ used_cell size requested ∷ post)
    → AreCells false (pre ++ used_cell size requested ∷ post)
    → MergedBefore (merge_before a (total pre)) pre (used_cell size requested) post
merge_before-MergedBefore a pre size requested post d good = elim (snoc_view pre) [
  | inl e ↦
      subst (λ p. MergedBefore (merge_before a (total p)) p (used_cell size requested) post) (sym e)
        (nothing_before (subst (λ p. Described a (p ++ used_cell size requested ∷ post)) e d)
          (subst (λ p. AreCells false (p ++ used_cell size requested ∷ post)) e good))
  | inr (ys, (b, e)) ↦
      subst (λ p. MergedBefore (merge_before a (total p)) p (used_cell size requested) post) (sym e)
        (one_before ys b (subst (λ p. Described a (p ++ used_cell size requested ∷ post)) e d)
          (subst (λ p. AreCells false (p ++ used_cell size requested ∷ post)) e good))
]
  where
    size_at :
        (pre : List Cell)
        → Described a (pre ++ used_cell size requested ∷ post)
        → AreCells false (pre ++ used_cell size requested ∷ post)
        → block_size (a.blocks (total pre)) ≡ size
    size_at pre d good =
        let (cell, _) = AreCells-split false pre (used_cell size requested) post good in
        let placed = Described-Placed a pre (used_cell size requested) post d in
        ap block_size placed.at
        ∙ block_size-header a.base (total pre) (last_size 0 pre) (last_linked 0 none_offset pre)
            (first_linked (total pre + size) post none_offset) (used_cell size requested)
            cell.aligned

    alone :
        (pre : List Cell)
        → Described a (pre ++ used_cell size requested ∷ post)
        → AreCells false (pre ++ used_cell size requested ∷ post)
        → last_free false pre ≡ false
        → (not (last_size 0 pre == 0) && not (block_used (a.blocks (total pre - last_size 0 pre))))
          ≡ false
        → MergedBefore (merge_before a (total pre)) pre (used_cell size requested) post
    alone pre d good apart stop =
        let placed = Described-Placed a pre (used_cell size requested) post d in
        let positive = placed.positive in
        let step =
          merge_before-stop a (total pre) size (last_size 0 pre) (size_at pre d good)
            (ap {A = Block} (λ b. b.prev_size) placed.at) stop in
        subst (λ r. MergedBefore r pre (used_cell size requested) post) (sym step)
          (
            pre,
            used_cell size requested ∷ [],
            (
              record {
                described = d;
                loose = (refl, tt);
                some = omega arith;
                offset = refl;
                size = omega arith;
                previous = refl;
              },
              (apart, inl (refl, refl)),
            ),
          )

    nothing_before :
        Described a ([] ++ used_cell size requested ∷ post)
        → AreCells false ([] ++ used_cell size requested ∷ post)
        → MergedBefore (merge_before a (total [])) [] (used_cell size requested) post
    nothing_before d good = alone [] d good refl refl

    one_before :
        (ys : List Cell) (b : Cell)
        → Described a ((ys ++ b ∷ []) ++ used_cell size requested ∷ post)
        → AreCells false ((ys ++ b ∷ []) ++ used_cell size requested ∷ post)
        → MergedBefore
            (merge_before a (total (ys ++ b ∷ [])))
            (ys ++ b ∷ [])
            (used_cell size requested)
            post
    one_before ys b d good =
        let pre = ys ++ b ∷ [] in
        let cells = used_cell size requested ∷ post in
        let d' = subst (Described a) (snoc ys b cells) d in
        let good' = subst (AreCells false) (snoc ys b cells) good in
        let (cell, _) = AreCells-split false ys b cells good' in
        let placed = Described-Placed a ys b cells d' in
        let large = cell.large in
        let last : last_size 0 pre ≡ b.size = last_size-append 0 ys (b ∷ []) in
        let before : total pre - last_size 0 pre ≡ total ys = omega (arith, total-snoc ys b) in
        let used : block_used (a.blocks (total pre - last_size 0 pre)) ≡ b.used =
          ap (λ k. block_used (a.blocks k)) before
          ∙ ap block_used placed.at
          ∙ block_used-header a.base (total ys) (last_size 0 ys) (last_linked 0 none_offset ys)
              (first_linked (total ys + b.size) cells none_offset) b cell.aligned in
        elim (Bool-cases b.used) [
          | inl is_used ↦
              let u = used ∙ is_used in
              alone pre d good (last_free-snoc false ys b ∙ ap not is_used) (ground arith)
          | inr free ↦
              let u = used ∙ free in
              let (_, (_, apart, _)) = AreCells-cut false ys (b ∷ cells) good' in
              let removed = remove_free-Described a ys b cells d' (cell.listed ∙ ap not free) in
              let step =
                merge_before-go a (total pre) size (last_size 0 pre) (size_at pre d good)
                  (ap {A = Block} (λ b. b.prev_size)
                    (Described-Placed a pre (used_cell size requested) post d).at)
                  (ground arith) in
              let removed' : Described (remove_free a (total pre - last_size 0 pre))
                  (ys ++ with_link b false ∷ cells) =
                subst (λ k. Described (remove_free a k) (ys ++ with_link b false ∷ cells))
                  (sym before) removed in
              let placed' =
                Described-Placed (remove_free a (total ys)) ys (with_link b false) cells removed in
              let tag : ((remove_free a (total pre - last_size 0 pre)).blocks
                    (total pre - last_size 0 pre)).prev_size
                  ≡ last_size 0 ys =
                ap (λ k. ((remove_free a k).blocks k).prev_size) before
                ∙ ap {A = Block} (λ b. b.prev_size) placed'.at in
              subst (λ r. MergedBefore r pre (used_cell size requested) post) (sym step)
                (
                  ys,
                  with_link b false ∷ used_cell size requested ∷ [],
                  (
                    record {
                      described = removed';
                      loose = (refl, (refl, tt));
                      some = omega arith;
                      offset = before;
                      size = omega (arith, last);
                      previous = tag;
                    },
                    (
                      elim apart [ inl clash ↦ absurd (ground arith) | inr h ↦ h ],
                      inr (b, (refl, (refl, free))),
                    ),
                  ),
                )
        ]
