-- ===== src/Heap/Trim.antt =====
-- split_block, the stores of trim_block in kernel/memory/heap_core.c: the tail of a used block
-- becomes a free block, with the free block after it if there is one.
use utamo_os.Common.{
  ℕ, ◌+◌, ◌-◌, ◌%◌, ◌≤◌, ◌<◌, ◌≡◌, ◌≢◌, inl, inr, refl, sym, ap, ◌∙◌, Bool, true, false, not, List,
  [], ◌∷◌, ◌++◌, arith, if◌then◌else◌, ◌==◌, Bool-cases, ltb, lt→ltb, ==_iff,
}
use mathlib.Core.Path.{subst}
use utamo_os.Heap.State.{
  Block, Arena, none_offset, with_used, block_size, block_used, put, write_block, fresh_block,
}
use utamo_os.Heap.Segment.{Cell, total, first_linked, last_linked, last_size, header}
use utamo_os.Heap.Cut.{total-append}
use utamo_os.Heap.Blocks.{remove_free, insert_free, following_previous}
use utamo_os.Heap.Run.{split_block, next_is_free}
use utamo_os.Heap.Rewire.{Described, with_link}
use utamo_os.Heap.Unlink.{Described-Placed, remove_free-Described, insert_free-Described}
use utamo_os.Heap.Reshape.{put-at, put-same, Reshaped, Reshaped-Described, Loose}
use utamo_os.Heap.Good.{
  IsCell, AreCells, used_cell, free_cell, head_free, IsCell-free, block_size-header,
  block_used-header,
}

module _ (a : Arena) (offset size : ℕ) where
  pub following_previous-at :
      offset + size < a.mapped_size
      → (following_previous a offset size).blocks (offset + size)
        ≡ record (a.blocks (offset + size)) { prev_size = size }
  unfolding following_previous
  following_previous-at below =
      let t : ltb (offset + size) a.mapped_size ≡ true =
        lt→ltb (offset + size) a.mapped_size below in
      let e : (offset + size == offset + size) ≡ true =
        (==_iff (offset + size) (offset + size)).1 refl in
      rw (t, e) refl

  pub following_previous-same :
      (i : ℕ) → i ≢ offset + size → (following_previous a offset size).blocks i ≡ a.blocks i
  unfolding following_previous
  following_previous-same i other =
      let e : (i == offset + size) ≡ false = ground arith in
      elim (Bool-cases (ltb (offset + size) a.mapped_size)) [
        | inl t ↦ rw (t, e) refl
        | inr t ↦ rw t refl
      ]

  pub following_previous-rest :
      ((following_previous a offset size).base ≡ a.base)
      × ((following_previous a offset size).mapped_size ≡ a.mapped_size)
      × ((following_previous a offset size).free_head ≡ a.free_head)
  unfolding following_previous
  following_previous-rest = elim (Bool-cases (ltb (offset + size) a.mapped_size)) [
    | inl t ↦ rw t (refl, refl, refl)
    | inr t ↦ rw t (refl, refl, refl)
  ]

-- The stores of split_block but for the lists of free blocks
abbrev pub parted : Arena → ℕ → ℕ → ℕ → Arena
parted a offset needed remainder_size =
    let kept = put a offset (record (a.blocks offset) { size_flags = with_used needed }) in
    following_previous (write_block kept (offset + needed) remainder_size needed 0 false)
      (offset + needed) remainder_size

module _ (a : Arena) (pre : List Cell) (size requested needed remainder_size : ℕ)
    (more post : List Cell) where
  parted-Reshaped :
      Described a (pre ++ ((used_cell size requested ∷ more) ++ post))
      → size + total more ≡ needed + remainder_size
      → 1 ≤ needed
      → 1 ≤ remainder_size
      → Reshaped a
          (parted a (total pre) needed remainder_size)
          pre
          (used_cell size requested ∷ more)
          (used_cell needed requested ∷ free_cell remainder_size false ∷ [])
          post
  parted-Reshaped d same some_needed some_left =
      let o = total pre in
      let placed = Described-Placed a pre (used_cell size requested) (more ++ post) d in
      let kept = put a o (record (a.blocks o) { size_flags = with_used needed }) in
      let free = fresh_block a.base (o + needed) remainder_size needed 0 false in
      let written = put kept (o + needed) free in
      let (base, mapped, head) = following_previous-rest written (o + needed) remainder_size in
      let outside =
        λ (i : ℕ) (h : i ≢ o) (h' : i ≢ o + needed) (h'' : i ≢ o + needed + remainder_size).
          following_previous-same written (o + needed) remainder_size i h''
          ∙ put-same kept (o + needed) free i h'
          ∙ put-same a o (record (a.blocks o) { size_flags = with_used needed }) i h in
      let bounds : total pre + (size + total more + total post) ≡ a.mapped_size =
        omega (arith, placed.inside, total-append more post) in
      let at_o : (parted a o needed remainder_size).blocks o
          ≡ header a.base o (last_size 0 pre) (last_linked 0 none_offset pre) (o + needed)
              (used_cell needed requested) =
        following_previous-same written (o + needed) remainder_size o (λ e. omega arith)
        ∙ put-same kept (o + needed) free o (λ e. omega arith)
        ∙ put-at a o (record (a.blocks o) { size_flags = with_used needed })
        ∙ ap {A = Block} (λ b. record b { size_flags = with_used needed }) placed.at in
      let at_free : (parted a o needed remainder_size).blocks (o + needed) ≡ free =
        following_previous-same written (o + needed) remainder_size (o + needed) (λ e. omega arith)
        ∙ put-at kept (o + needed) free in
      let here : o + needed + remainder_size ≡ o + (size + total more) = omega arith in
      let raw_tag : 1 ≤ total post
          → (parted a o needed remainder_size).blocks (o + needed + remainder_size)
            ≡ record (a.blocks (o + needed + remainder_size)) { prev_size = remainder_size } =
        λ some_post.
          following_previous-at written (o + needed) remainder_size (omega arith)
          ∙ ap {A = Block} (λ b. record b { prev_size = remainder_size })
              (put-same kept (o + needed) free (o + needed + remainder_size) (λ e. omega arith)
                ∙ put-same a o (record (a.blocks o) { size_flags = with_used needed })
                    (o + needed + remainder_size) (λ e. omega arith)) in
      record {
        base = base;
        head = head;
        below = λ i low. outside i (λ e. omega arith) (λ e. omega arith) (λ e. omega arith);
        above = λ i low high. outside i (λ e. omega arith) (λ e. omega arith) (λ e. omega arith);
        tag = λ some_post.
            subst
              (λ m.
                (parted a o needed remainder_size).blocks m
                ≡ record (a.blocks m) { prev_size = remainder_size })
              here (raw_tag some_post);
        within = (some_needed, at_o, (some_left, at_free, tt));
      }

pub snoc : (xs : List Cell) (c : Cell) (ys : List Cell) → (xs ++ c ∷ []) ++ ys ≡ xs ++ c ∷ ys
snoc [] c ys = refl
snoc (x ∷ xs) c ys = ap (λ t. x ∷ t) (snoc xs c ys)

pub total-snoc : (xs : List Cell) (c : Cell) → total (xs ++ c ∷ []) ≡ total xs + c.size
total-snoc xs c = omega (arith, total-append xs (c ∷ []))

-- The block after a cell, as the code reads it
pub next-Placed :
    (a : Arena) (pre : List Cell) (c n : Cell) (post : List Cell)
    → Described a (pre ++ c ∷ n ∷ post)
    → IsCell n
    → (total pre + c.size < a.mapped_size)
      × (block_size (a.blocks (total pre + c.size)) ≡ n.size)
      × (block_used (a.blocks (total pre + c.size)) ≡ n.used)
next-Placed a pre c n post d good =
    let here = total-snoc pre c in
    let placed =
      Described-Placed a (pre ++ c ∷ []) n post
        (subst (Described a) (sym (snoc pre c (n ∷ post))) d) in
    let o = total (pre ++ c ∷ []) in
    let large = good.large in
    let next = first_linked (o + n.size) post none_offset in
    let q = last_linked 0 none_offset (pre ++ c ∷ []) in
    let previous = last_size 0 (pre ++ c ∷ []) in
    let inside = placed.inside in
    (
      omega arith,
      ap (λ k. block_size (a.blocks k)) (sym here)
          ∙ ap block_size placed.at
          ∙ block_size-header a.base o previous q next n good.aligned,
      ap (λ k. block_used (a.blocks k)) (sym here)
          ∙ ap block_used placed.at
          ∙ block_used-header a.base o previous q next n good.aligned,
    )

pub next_is_free-head_free :
    (a : Arena) (pre : List Cell) (c : Cell) (post : List Cell) (after_free : Bool)
    → Described a (pre ++ c ∷ post)
    → AreCells after_free post
    → next_is_free a (total pre + c.size) ≡ head_free post
next_is_free-head_free a pre c [] after_free d good =
    let placed = Described-Placed a pre c [] d in
    let inside = placed.inside in
    let stop : ltb (total pre + c.size) a.mapped_size ≡ false = ground arith in rw stop refl
next_is_free-head_free a pre c (n ∷ post) after_free d (good, apart, rest) =
    let (below, size, used) = next-Placed a pre c n post d good in
    let go : ltb (total pre + c.size) a.mapped_size ≡ true =
      lt→ltb (total pre + c.size) a.mapped_size below in
    rw (go, used) refl

not-false : (b : Bool) → not b ≡ false → b ≡ true
not-false b e = ground arith

not-true : (b : Bool) → not b ≡ true → b ≡ false
not-true b e = ground arith

-- What becomes of the `rest` bytes behind a block that is trimmed, and of the cells after it.
abbrev pub absorbed : ℕ → List Cell → List Cell
absorbed rest [] = free_cell rest true ∷ []
absorbed rest (n ∷ post) =
    if n.used then free_cell rest true ∷ n ∷ post else free_cell (rest + n.size) true ∷ post

module _ (rest : ℕ) (n : Cell) (post : List Cell) where
  pub absorbed-used : n.used ≡ true → absorbed rest (n ∷ post) ≡ free_cell rest true ∷ n ∷ post
  absorbed-used =
      ap (λ b. if b then free_cell rest true ∷ n ∷ post else free_cell (rest + n.size) true ∷ post)

  pub absorbed-free :
      n.used ≡ false → absorbed rest (n ∷ post) ≡ free_cell (rest + n.size) true ∷ post
  absorbed-free =
      ap (λ b. if b then free_cell rest true ∷ n ∷ post else free_cell (rest + n.size) true ∷ post)

-- The list of free blocks gets the part that is left.
parted-inserted :
    (a : Arena) (pre : List Cell) (size requested needed remainder_size : ℕ) (more post : List Cell)
    → Described a (pre ++ ((used_cell size requested ∷ more) ++ post))
    → Loose more
    → size + total more ≡ needed + remainder_size
    → 1 ≤ needed
    → 1 ≤ remainder_size
    → Described
        (insert_free (parted a (total pre) needed remainder_size) (total pre + needed))
        (pre ++ used_cell needed requested ∷ free_cell remainder_size true ∷ post)
parted-inserted a pre size requested needed remainder_size more post d loose same some_needed
      some_left =
    let o = total pre in
    let c = used_cell needed requested in
    let kept = put a o (record (a.blocks o) { size_flags = with_used needed }) in
    let written =
      put kept (o + needed) (fresh_block a.base (o + needed) remainder_size needed 0 false) in
    let (base, mapped, head) = following_previous-rest written (o + needed) remainder_size in
    let placed = Described-Placed a pre (used_cell size requested) (more ++ post) d in
    let bounded = d.bounded in
    let whole = placed.inside in
    let d' =
      Reshaped-Described a (parted a o needed remainder_size) pre (used_cell size requested ∷ more)
        (c ∷ free_cell remainder_size false ∷ []) post d (refl, loose) (refl, (refl, tt))
        (inl (omega arith)) (omega (arith, mapped, total-append more post)) (omega (arith, mapped))
        (parted-Reshaped a pre size requested needed remainder_size more post d same some_needed
          some_left) in
    let inserted =
      insert_free-Described (parted a o needed remainder_size) (pre ++ c ∷ [])
        (free_cell remainder_size false) post
        (subst (Described (parted a o needed remainder_size))
          (sym (snoc pre c (free_cell remainder_size false ∷ post))) d')
        refl in
    subst
      (λ k.
        Described (insert_free (parted a o needed remainder_size) k)
          (pre ++ c ∷ free_cell remainder_size true ∷ post))
      (total-snoc pre c)
      (subst (Described (insert_free (parted a o needed remainder_size) (total (pre ++ c ∷ []))))
        (snoc pre c (free_cell remainder_size true ∷ post)) inserted)

abbrev pub split_as : Arena → ℕ → ℕ → ℕ → Bool → Arena
split_as a o needed size merges =
    insert_free
      (parted (if merges then remove_free a (o + size) else a) o needed
        (size - needed + (if merges then block_size (a.blocks (o + size)) else 0)))
      (o + needed)

pub split_block-split_as :
    (a : Arena) (o needed size : ℕ) (merges : Bool)
    → block_size (a.blocks o) ≡ size
    → next_is_free a (o + size) ≡ merges
    → split_block a o needed ≡ split_as a o needed size merges
unfolding split_block
split_block-split_as a o needed size merges e e' =
    ap (λ s. split_as a o needed s (next_is_free a (o + s))) e ∙ ap (split_as a o needed size) e'

split_block-absorbed :
    (a : Arena) (pre : List Cell) (size requested needed : ℕ) (post : List Cell) (merges : Bool)
    → Described a (pre ++ used_cell size requested ∷ post)
    → AreCells false post
    → head_free post ≡ merges
    → 1 ≤ needed
    → needed < size
    → Described
        (split_as a (total pre) needed size merges)
        (pre ++ used_cell needed requested ∷ absorbed (size - needed) post)
split_block-absorbed a pre size requested needed [] true d good e some_needed some_left =
    absurd (ground arith)
split_block-absorbed a pre size requested needed [] false d good e some_needed some_left =
    let r : size - needed + 0 ≡ size - needed = omega arith in
    subst
      (λ k.
        Described (insert_free (parted a (total pre) needed k) (total pre + needed))
          (pre ++ used_cell needed requested ∷ free_cell (size - needed) true ∷ []))
      (sym r)
      (parted-inserted a pre size requested needed (size - needed) [] [] d tt (omega arith)
        some_needed (omega arith))
split_block-absorbed a pre size requested needed (n ∷ post) false d good e some_needed some_left =
    let r : size - needed + 0 ≡ size - needed = omega arith in
    let used : n.used ≡ true = not-false n.used e in
    let cells : absorbed (size - needed) (n ∷ post) ≡ free_cell (size - needed) true ∷ n ∷ post =
      absorbed-used (size - needed) n post used in
    subst
      (λ t.
        Described (split_as a (total pre) needed size false)
          (pre ++ used_cell needed requested ∷ t))
      (sym cells)
      (subst
        (λ k.
          Described (insert_free (parted a (total pre) needed k) (total pre + needed))
            (pre ++ used_cell needed requested ∷ free_cell (size - needed) true ∷ n ∷ post))
        (sym r)
        (parted-inserted a pre size requested needed (size - needed) [] (n ∷ post) d tt
          (omega arith) some_needed (omega arith)))
split_block-absorbed a pre size requested needed (n ∷ post) true d (good, apart, rest) e some_needed
      some_left =
    let free : n.used ≡ false = not-true n.used e in
    let cells : absorbed (size - needed) (n ∷ post)
        ≡ free_cell (size - needed + n.size) true ∷ post =
      absorbed-free (size - needed) n post free in
    let c = used_cell size requested in
    let (below, next_size, next_used) = next-Placed a pre c n post d good in
    let linked : n.linked ≡ true = good.listed ∙ e in
    let removed_cells : with_link n false ≡ free_cell n.size false =
      ap {A = Cell} (λ m. with_link m false) (IsCell-free n good free) in
    let removed = remove_free a (total pre + size) in
    let d' : Described removed (pre ++ c ∷ free_cell n.size false ∷ post) =
      subst (λ k. Described (remove_free a k) (pre ++ c ∷ free_cell n.size false ∷ post))
        (total-snoc pre c)
        (subst (λ m. Described (remove_free a (total (pre ++ c ∷ []))) (pre ++ c ∷ m ∷ post))
          removed_cells
          (subst (Described (remove_free a (total (pre ++ c ∷ []))))
            (snoc pre c (with_link n false ∷ post))
            (remove_free-Described a (pre ++ c ∷ []) n post
              (subst (Described a) (sym (snoc pre c (n ∷ post))) d) linked))) in
    subst
      (λ t.
        Described (split_as a (total pre) needed size true) (pre ++ used_cell needed requested ∷ t))
      (sym cells)
      (subst
        (λ k.
          Described
            (insert_free (parted removed (total pre) needed (size - needed + k))
              (total pre + needed))
            (pre ++ used_cell needed requested ∷ free_cell (size - needed + n.size) true ∷ post))
        (sym next_size)
        (parted-inserted removed pre size requested needed (size - needed + n.size)
          (free_cell n.size false ∷ []) post d' (refl, tt) (omega arith) some_needed (omega arith)))

-- A used block is trimmed: the rest of it is free, with the free block after it.
pub split_block-Described :
    (a : Arena) (pre : List Cell) (size requested needed : ℕ) (post : List Cell)
    → Described a (pre ++ used_cell size requested ∷ post)
    → size % 16 ≡ 0
    → AreCells false post
    → 1 ≤ needed
    → needed < size
    → Described
        (split_block a (total pre) needed)
        (pre ++ used_cell needed requested ∷ absorbed (size - needed) post)
split_block-Described a pre size requested needed post d aligned good some_needed some_left =
    let c = used_cell size requested in
    let placed = Described-Placed a pre c post d in
    let reads : block_size (a.blocks (total pre)) ≡ size =
      ap block_size placed.at
      ∙ block_size-header a.base (total pre) (last_size 0 pre) (last_linked 0 none_offset pre)
          (first_linked (total pre + size) post none_offset) c aligned in
    let merges = next_is_free-head_free a pre c post false d good in
    subst (λ r. Described r (pre ++ used_cell needed requested ∷ absorbed (size - needed) post))
      (sym (split_block-split_as a (total pre) needed size (head_free post) reads merges))
      (split_block-absorbed a pre size requested needed post (head_free post) d good refl
        some_needed some_left)
