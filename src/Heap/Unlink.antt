-- ===== src/Heap/Unlink.antt =====
-- remove_free and insert_free of kernel/memory/heap_core.c take a block out of the list of free
-- blocks and put it in at its place.
use utamo_os.Common.{
  ℕ, zero, suc, ◌+◌, ◌≤◌, ◌<◌, ◌≡◌, ◌≢◌, ◌⊎◌, inl, inr, refl, sym, ap, ◌∙◌, Bool, true, false, not,
  ◌&&◌, List, [], ◌∷◌, ◌++◌, arith, if◌then◌else◌, Bool-cases, ◌==◌, ltb,
}
use mathlib.Core.Path.{subst}
use utamo_os.Heap.State.{Block, Arena, none_offset}
use utamo_os.Heap.Blocks.{remove_free, insert_free, find_place, link_next, link_prev, set_links}
use utamo_os.Heap.Segment.{
  Cell, total, first_linked, last_linked, last_size, header, Segment, Segment-Sized,
  Unlinked-or-Links, first_linked-cases,
}
use utamo_os.Heap.Cut.{total-append, first_linked-append, Segment-split}
use utamo_os.Heap.Rewire.{Described, with_link, Rewired-Described}
use utamo_os.Heap.Links.{unlinked_at, unlinked_at-Rewired, linked_at-Rewired, link_next-same}

-- Where a cell lies between its neighbours in the list
pub record Placed (a : Arena) (pre : List Cell) (c : Cell) (post : List Cell) : Type 0 where
  pub at :
      a.blocks (total pre)
      ≡ header a.base
          (total pre)
          (last_size 0 pre)
          (last_linked 0 none_offset pre)
          (first_linked (total pre + c.size) post none_offset)
          c
  pub positive : 1 ≤ c.size
  pub inside : total pre + c.size + total post ≡ a.mapped_size
  pub before :
      (last_linked 0 none_offset pre ≡ none_offset) ⊎ (last_linked 0 none_offset pre < total pre)
  pub after :
      (first_linked (total pre + c.size) post none_offset ≡ none_offset)
      ⊎ (total pre + c.size ≤ first_linked (total pre + c.size) post none_offset)

pub Described-Placed :
    (a : Arena) (pre : List Cell) (c : Cell) (post : List Cell)
    → Described a (pre ++ c ∷ post)
    → Placed a pre c post
Described-Placed a pre c post d =
    let o = total pre in
    let q = last_linked 0 none_offset pre in
    let (left, (positive, at, right)) =
      Segment-split a.blocks a.base 0 o 0 none_offset pre (c ∷ post) none_offset (omega arith)
        d.holds in
    let sized =
      Segment-Sized a.blocks a.base 0 0 none_offset pre (first_linked o (c ∷ post) none_offset)
        left in
    let sized' =
      Segment-Sized a.blocks a.base (o + c.size) c.size (if c.linked then o else q) post none_offset
        right in
    record {
      at = at;
      positive = positive;
      inside = omega (arith, total-append pre (c ∷ post), d.size);
      before = elim (Unlinked-or-Links 0 none_offset pre sized) [
        | inl (h, _) ↦ inl h
        | inr (low, high, _) ↦ inr (omega arith)
      ];
      after = elim (first_linked-cases (o + c.size) post none_offset sized') [
        | inl h ↦ inl h
        | inr (low, high) ↦ inr low
      ];
    }

module _ (a : Arena) (pre : List Cell) (c : Cell) (post : List Cell) where
  abbrev o : ℕ
  o = total pre

  abbrev q : ℕ
  q = last_linked 0 none_offset pre

  abbrev f : ℕ
  f = first_linked (o + c.size) post none_offset

  apart : Described a (pre ++ c ∷ post) → (q ≢ o) × (f ≢ o) × (q ≡ f → q ≡ none_offset)
  apart d =
      let p = Described-Placed a pre c post d in
      let below = d.bounded in
      let inside = p.inside in
      let positive = p.positive in
      let before = p.before in
      let after = p.after in ((λ e. grind arith), (λ e. grind arith), (λ e. grind arith))

  remove_free-unlinked_at :
      Described a (pre ++ c ∷ post) → c.linked ≡ true → remove_free a o ≡ unlinked_at a o q f
  unfolding remove_free
  remove_free-unlinked_at d linked =
      let p = Described-Placed a pre c post d in
      let block = header a.base o (last_size 0 pre) q f c in
      let prev : block.free_prev ≡ q = rw linked refl in
      let next : block.free_next ≡ f = rw linked refl in
      let read : a.blocks o ≡ block = p.at in
      let again : (link_next a q f).blocks o ≡ block =
        link_next-same a q f o (λ e. (apart d).0 (sym e)) ∙ read in
      let at_of = λ (b : Block).
        set_links (link_prev (link_next a q f) b.free_next b.free_prev) o none_offset none_offset in
      let after_read = λ (x y : ℕ).
        set_links
          (link_prev (link_next a x y) ((link_next a x y).blocks o).free_next
            ((link_next a x y).blocks o).free_prev)
          o none_offset none_offset in
      ap (λ x. after_read x (a.blocks o).free_next) (ap {A = Block} (λ b. b.free_prev) read ∙ prev)
      ∙ ap (λ y. after_read q y) (ap {A = Block} (λ b. b.free_next) read ∙ next)
      ∙ ap at_of again
      ∙ ap
          (λ x. set_links (link_prev (link_next a q f) block.free_next x) o none_offset none_offset)
          prev
      ∙ ap (λ y. set_links (link_prev (link_next a q f) y q) o none_offset none_offset) next

  pub remove_free-Described :
      Described a (pre ++ c ∷ post)
      → c.linked ≡ true
      → Described (remove_free a o) (pre ++ with_link c false ∷ post)
  remove_free-Described d linked =
      let (nq, nf, ap_) = apart d in
      subst (λ r. Described r (pre ++ with_link c false ∷ post))
        (sym (remove_free-unlinked_at d linked))
        (Rewired-Described a (unlinked_at a o q f) pre c post false none_offset none_offset f q d
          refl refl refl (unlinked_at-Rewired a o q f nq nf ap_))

abbrev is_before : ℕ → ℕ → Bool
is_before target current = not (current == none_offset) && ltb current target

find_place-go :
    (a : Arena) (fuel target prior current : ℕ)
    → is_before target current ≡ true
    → find_place a (suc fuel) target prior current
      ≡ find_place a fuel target current (a.blocks current).free_next
unfolding find_place
find_place-go a fuel target prior current h = rw (h, find_place) refl

find_place-stop :
    (a : Arena) (fuel target prior current : ℕ)
    → is_before target current ≡ false
    → find_place a (suc fuel) target prior current ≡ (prior, current)
unfolding find_place
find_place-stop a fuel target prior current h = rw (h, find_place) refl

find_place-none :
    (a : Arena) (target prior current : ℕ)
    → find_place a zero target prior current ≡ (prior, current)
unfolding find_place
find_place-none a target prior current = refl

-- The walk of insert_free passes the free blocks of a segment before the target.
find_place-Segment :
    (a : Arena) (from previous prior target fuel : ℕ) (cs : List Cell) (next : ℕ)
    → Segment a.blocks a.base from previous prior cs next
    → from + total cs ≤ target
    → target < none_offset
    → (next ≡ none_offset) ⊎ (target ≤ next)
    → total cs ≤ fuel
    → find_place a fuel target prior (first_linked from cs next) ≡ (last_linked from prior cs, next)
find_place-Segment a from previous prior target zero [] next s below low place enough =
    find_place-none a target prior next
find_place-Segment a from previous prior target (suc fuel) [] next s below low place enough =
    find_place-stop a fuel target prior next (ground arith)
find_place-Segment a from previous prior target zero (c ∷ cs) next (positive, at, rest) below low
      place enough =
    absurd (omega arith)
find_place-Segment a from previous prior target (suc fuel) (c ∷ cs) next (positive, at, rest) below
      low place enough =
    elim (Bool-cases c.linked) [
      | inl linked ↦
          let later =
            find_place-Segment a (from + c.size) c.size from target fuel cs next
              (subst (λ p. Segment a.blocks a.base (from + c.size) c.size p cs next)
                (ap (λ b. if b then from else prior) linked) rest)
              (omega arith) low place (omega arith) in
          let link : (a.blocks from).free_next ≡ first_linked (from + c.size) cs next =
            ap {A = Block} (λ b. b.free_next) at
            ∙ ap (λ b. if b then first_linked (from + c.size) cs next else none_offset) linked in
          let here : first_linked from (c ∷ cs) next ≡ from =
            ap (λ b. if b then from else first_linked (from + c.size) cs next) linked in
          let there : last_linked from prior (c ∷ cs) ≡ last_linked (from + c.size) from cs =
            ap (λ b. last_linked (from + c.size) (if b then from else prior) cs) linked in
          ap (find_place a (suc fuel) target prior) here
          ∙ find_place-go a fuel target prior from (ground arith)
          ∙ ap (find_place a fuel target from) link
          ∙ later
          ∙ ap (λ l. (l, next)) (sym there)
      | inr unlinked ↦
          let later =
            find_place-Segment a (from + c.size) c.size prior target (suc fuel) cs next
              (subst (λ p. Segment a.blocks a.base (from + c.size) c.size p cs next)
                (ap (λ b. if b then from else prior) unlinked) rest)
              (omega arith) low place (omega arith) in
          let here : first_linked from (c ∷ cs) next ≡ first_linked (from + c.size) cs next =
            ap (λ b. if b then from else first_linked (from + c.size) cs next) unlinked in
          let there : last_linked from prior (c ∷ cs) ≡ last_linked (from + c.size) prior cs =
            ap (λ b. last_linked (from + c.size) (if b then from else prior) cs) unlinked in
          ap (find_place a (suc fuel) target prior) here ∙ later ∙ ap (λ l. (l, next)) (sym there)
    ]

module _ (a : Arena) (pre : List Cell) (c : Cell) (post : List Cell) where
  insert_free-linked :
      Described a (pre ++ c ∷ post)
      → c.linked ≡ false
      → insert_free a (o a pre c post)
        ≡ link_prev
            (link_next
              (set_links a (o a pre c post) (q a pre c post) (f a pre c post))
              (q a pre c post)
              (o a pre c post))
            (f a pre c post)
            (o a pre c post)
  unfolding insert_free
  insert_free-linked d unlinked =
      let p = Described-Placed a pre c post d in
      let inside = p.inside in
      let positive = p.positive in
      let after = p.after in
      let bounded = d.bounded in
      let at_c : first_linked (total pre) (c ∷ post) none_offset ≡ f a pre c post =
        ap (λ b. if b then total pre else f a pre c post) unlinked in
      let (left, right) =
        Segment-split a.blocks a.base 0 (total pre) 0 none_offset pre (c ∷ post) none_offset
          (omega arith) d.holds in
      let head : a.free_head ≡ first_linked 0 pre (f a pre c post) =
        sym d.head
        ∙ first_linked-append 0 (total pre) pre (c ∷ post) none_offset (omega arith)
        ∙ ap (first_linked 0 pre) at_c in
      let place : find_place a a.mapped_size (total pre) none_offset a.free_head
          ≡ (q a pre c post, f a pre c post) =
        ap (find_place a a.mapped_size (total pre) none_offset) head
        ∙ find_place-Segment a 0 0 none_offset (total pre) a.mapped_size pre (f a pre c post)
            (subst (Segment a.blocks a.base 0 0 none_offset pre) at_c left) (omega arith)
            (omega arith) (grind arith) (omega arith) in
      ap
        (λ (pair : ℕ × ℕ).
          link_prev (link_next (set_links a (total pre) pair.0 pair.1) pair.0 (total pre)) pair.1
            (total pre))
        place

  pub insert_free-Described :
      Described a (pre ++ c ∷ post)
      → c.linked ≡ false
      → Described (insert_free a (total pre)) (pre ++ with_link c true ∷ post)
  insert_free-Described d unlinked =
      let (nq, nf, ap_) = apart a pre c post d in
      subst (λ r. Described r (pre ++ with_link c true ∷ post))
        (sym (insert_free-linked d unlinked))
        (Rewired-Described a
          (link_prev
            (link_next (set_links a (o a pre c post) (q a pre c post) (f a pre c post))
              (q a pre c post) (o a pre c post))
            (f a pre c post) (o a pre c post))
          pre c post true (q a pre c post) (f a pre c post) (o a pre c post) (o a pre c post) d refl
          refl refl
          (linked_at-Rewired a (o a pre c post) (q a pre c post) (f a pre c post) nq nf ap_))
