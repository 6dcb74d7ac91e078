-- ===== src/Heap/Kept.antt =====
-- What the stores into the headers in kernel/memory/heap_core.c leave as it is: where the arena
-- begins and how much of it is mapped.
use utamo_os.Common.{
  ℕ, ◌+◌, ◌-◌, ◌≡◌, refl, ap, ◌∙◌, Bool, true, false, if◌then◌else◌, Bool-cases, inl, inr, ltb,
}
use utamo_os.Heap.State.{Arena, block_size, min_block, none_offset}
use utamo_os.Heap.Blocks.{
  remove_free, insert_free, following_previous, link_next, link_prev, set_links, find_place,
}
use utamo_os.Heap.Links.{
  link_next-base, link_next-mapped_size, link_prev-base, link_prev-mapped_size, set_links-base,
  set_links-mapped_size,
}
use utamo_os.Heap.Trim.{parted, split_as, split_block-split_as, following_previous-rest}
use utamo_os.Heap.Run.{split_block, next_is_free}

abbrev pub Kept : Arena → Arena → Type 0
Kept a r = (r.base ≡ a.base) × (r.mapped_size ≡ a.mapped_size)

pub Kept-trans : (a b c : Arena) → Kept a b → Kept b c → Kept a c
Kept-trans a b c (e, m) (e', m') = (e' ∙ e, m' ∙ m)

pub remove_free-Kept : (a : Arena) (o : ℕ) → Kept a (remove_free a o)
unfolding remove_free
remove_free-Kept a o =
    let s = link_next a (a.blocks o).free_prev (a.blocks o).free_next in
    let next = (s.blocks o).free_next in
    let prev = (s.blocks o).free_prev in
    let l = link_prev s next prev in
    (
      set_links-base l o none_offset none_offset
          ∙ link_prev-base s next prev
          ∙ link_next-base a (a.blocks o).free_prev (a.blocks o).free_next,
      set_links-mapped_size l o none_offset none_offset
          ∙ link_prev-mapped_size s next prev
          ∙ link_next-mapped_size a (a.blocks o).free_prev (a.blocks o).free_next,
    )

pub insert_free-Kept : (a : Arena) (o : ℕ) → Kept a (insert_free a o)
unfolding insert_free
insert_free-Kept a o =
    let (q, f) = find_place a a.mapped_size o none_offset a.free_head in
    let t = set_links a o q f in
    let s = link_next t q o in
    (
      link_prev-base s f o ∙ link_next-base t q o ∙ set_links-base a o q f,
      link_prev-mapped_size s f o ∙ link_next-mapped_size t q o ∙ set_links-mapped_size a o q f,
    )

pub following_previous-Kept : (a : Arena) (o size : ℕ) → Kept a (following_previous a o size)
following_previous-Kept a o size =
    let (base, mapped, head) = following_previous-rest a o size in (base, mapped)

split_as-Kept :
    (a : Arena) (o needed size : ℕ) (merges : Bool) → Kept a (split_as a o needed size merges)
split_as-Kept a o needed size false =
    let rest = size - needed + 0 in
    let p = parted a o needed rest in
    let (base, mapped) = insert_free-Kept p (o + needed) in
    let (base', mapped', _) = following_previous-rest _ (o + needed) rest in
    (base ∙ base', mapped ∙ mapped')
split_as-Kept a o needed size true =
    let rest = size - needed + block_size (a.blocks (o + size)) in
    let removed = remove_free a (o + size) in
    let (base, mapped) = insert_free-Kept (parted removed o needed rest) (o + needed) in
    let (base', mapped', _) = following_previous-rest _ (o + needed) rest in
    let (base'', mapped'') = remove_free-Kept a (o + size) in
    (base ∙ base' ∙ base'', mapped ∙ mapped' ∙ mapped'')

pub split_block-Kept : (a : Arena) (o needed : ℕ) → Kept a (split_block a o needed)
split_block-Kept a o needed =
    let size = block_size (a.blocks o) in
    let merges = next_is_free a (o + size) in
    let e = split_block-split_as a o needed size merges refl refl in
    let (base, mapped) = split_as-Kept a o needed size merges in
    (ap {A = Arena} (λ r. r.base) e ∙ base, ap {A = Arena} (λ r. r.mapped_size) e ∙ mapped)

-- The arena after trim_block
abbrev pub trimmed_arena : Arena → ℕ → ℕ → Arena
trimmed_arena a o needed =
    if ltb (block_size (a.blocks o) - needed) min_block then a else split_block a o needed

pub trimmed_arena-Kept : (a : Arena) (o needed : ℕ) → Kept a (trimmed_arena a o needed)
trimmed_arena-Kept a o needed =
    elim (Bool-cases (ltb (block_size (a.blocks o) - needed) min_block)) [
      | inl short ↦ rw short (refl, refl)
      | inr long ↦ rw long (split_block-Kept a o needed)
    ]
