-- ===== src/Heap/Links.antt =====
-- remove_free and insert_free of kernel/memory/heap_core.c take a block out of the list of free
-- blocks and put it in at its place.
use utamo_os.Common.{
  ℕ, ◌≡◌, ◌≢◌, inl, inr, refl, sym, ap, ◌∙◌, true, false, arith, if◌then◌else◌, Bool-cases, ◌==◌,
  ==_iff,
}
use utamo_os.Heap.State.{Block, Arena, none_offset}
use utamo_os.Heap.Blocks.{link_next, link_prev, set_links}
use utamo_os.Heap.Rewire.{Rewired}

module _ (a : Arena) (prior next : ℕ) where
  link_next-head :
      (link_next a prior next).free_head ≡ (if prior == none_offset then next else a.free_head)
  unfolding link_next
  link_next-head = elim (Bool-cases (prior == none_offset)) [
    | inl h ↦ rw h refl
    | inr h ↦ rw h refl
  ]

  pub link_next-base : (link_next a prior next).base ≡ a.base
  unfolding link_next
  link_next-base = elim (Bool-cases (prior == none_offset)) [
    | inl h ↦ rw h refl
    | inr h ↦ rw h refl
  ]

  pub link_next-mapped_size : (link_next a prior next).mapped_size ≡ a.mapped_size
  unfolding link_next
  link_next-mapped_size = elim (Bool-cases (prior == none_offset)) [
    | inl h ↦ rw h refl
    | inr h ↦ rw h refl
  ]

  pub link_next-same : (i : ℕ) → i ≢ prior → (link_next a prior next).blocks i ≡ a.blocks i
  unfolding link_next
  link_next-same i other = elim (Bool-cases (prior == none_offset)) [
    | inl h ↦ rw h refl
    | inr h ↦ let e : (i == prior) ≡ false = ground arith in rw (h, e) refl
  ]

  link_next-at :
      prior ≢ none_offset
      → (link_next a prior next).blocks prior ≡ record (a.blocks prior) { free_next = next }
  unfolding link_next
  link_next-at is_some =
      let h : (prior == none_offset) ≡ false = ground arith in
      let e : (prior == prior) ≡ true = (==_iff prior prior).1 refl in rw (h, e) refl

module _ (a : Arena) (next prior : ℕ) where
  link_prev-head : (link_prev a next prior).free_head ≡ a.free_head
  unfolding link_prev
  link_prev-head = elim (Bool-cases (next == none_offset)) [ inl h ↦ rw h refl | inr h ↦ rw h refl ]

  pub link_prev-base : (link_prev a next prior).base ≡ a.base
  unfolding link_prev
  link_prev-base = elim (Bool-cases (next == none_offset)) [ inl h ↦ rw h refl | inr h ↦ rw h refl ]

  pub link_prev-mapped_size : (link_prev a next prior).mapped_size ≡ a.mapped_size
  unfolding link_prev
  link_prev-mapped_size = elim (Bool-cases (next == none_offset)) [
    | inl h ↦ rw h refl
    | inr h ↦ rw h refl
  ]

  link_prev-same : (i : ℕ) → i ≢ next → (link_prev a next prior).blocks i ≡ a.blocks i
  unfolding link_prev
  link_prev-same i other = elim (Bool-cases (next == none_offset)) [
    | inl h ↦ rw h refl
    | inr h ↦ let e : (i == next) ≡ false = ground arith in rw (h, e) refl
  ]

  link_prev-at :
      next ≢ none_offset
      → (link_prev a next prior).blocks next ≡ record (a.blocks next) { free_prev = prior }
  unfolding link_prev
  link_prev-at is_some =
      let h : (next == none_offset) ≡ false = ground arith in
      let e : (next == next) ≡ true = (==_iff next next).1 refl in rw (h, e) refl

module _ (a : Arena) (o prior next : ℕ) where
  set_links-same : (i : ℕ) → i ≢ o → (set_links a o prior next).blocks i ≡ a.blocks i
  unfolding set_links
  set_links-same i other = let e : (i == o) ≡ false = ground arith in rw e refl

  set_links-at :
      (set_links a o prior next).blocks o
      ≡ record (a.blocks o) { free_prev = prior; free_next = next }
  unfolding set_links
  set_links-at = let e : (o == o) ≡ true = (==_iff o o).1 refl in rw e refl

  set_links-head : (set_links a o prior next).free_head ≡ a.free_head
  unfolding set_links
  set_links-head = refl

  pub set_links-base : (set_links a o prior next).base ≡ a.base
  unfolding set_links
  set_links-base = refl

  pub set_links-mapped_size : (set_links a o prior next).mapped_size ≡ a.mapped_size
  unfolding set_links
  set_links-mapped_size = refl

-- The stores of remove_free, once the block is read
abbrev pub unlinked_at : Arena → ℕ → ℕ → ℕ → Arena
unlinked_at a o q f = set_links (link_prev (link_next a q f) f q) o none_offset none_offset

module _ (a : Arena) (o q f : ℕ) (nq : q ≢ o) (nf : f ≢ o) (apart : q ≡ f → q ≡ none_offset) where
  pub unlinked_at-Rewired : Rewired a (unlinked_at a o q f) o q f none_offset none_offset f q
  unlinked_at-Rewired =
      let s = link_next a q f in
      let l = link_prev s f q in
      record {
        base =
            set_links-base l o none_offset none_offset
            ∙ link_prev-base s f q
            ∙ link_next-base a q f;
        mapped_size =
            set_links-mapped_size l o none_offset none_offset
            ∙ link_prev-mapped_size s f q
            ∙ link_next-mapped_size a q f;
        head =
            set_links-head l o none_offset none_offset
            ∙ link_prev-head s f q
            ∙ link_next-head a q f;
        at =
            set_links-at l o none_offset none_offset
            ∙ ap {A = Block} (λ b. record b { free_prev = none_offset; free_next = none_offset })
                (link_prev-same s f q o (λ e. nf (sym e))
                  ∙ link_next-same a q f o (λ e. nq (sym e)));
        elsewhere = λ i no nq' nf'.
            set_links-same l o none_offset none_offset i no
            ∙ link_prev-same s f q i nf'
            ∙ link_next-same a q f i nq';
        before = λ is_q.
            set_links-same l o none_offset none_offset q nq
            ∙ link_prev-same s f q q (λ e. is_q (apart e))
            ∙ link_next-at a q f is_q;
        after = λ is_f.
            set_links-same l o none_offset none_offset f nf
            ∙ link_prev-at s f q is_f
            ∙ ap {A = Block} (λ b. record b { free_prev = q })
                (link_next-same a q f f (λ e. is_f (e ∙ apart (sym e))));
      }

  -- The stores of insert_free at its place
  pub linked_at-Rewired :
      Rewired a (link_prev (link_next (set_links a o q f) q o) f o) o q f q f o o
  linked_at-Rewired =
      let t = set_links a o q f in
      let s = link_next t q o in
      record {
        base = link_prev-base s f o ∙ link_next-base t q o ∙ set_links-base a o q f;
        mapped_size =
            link_prev-mapped_size s f o
            ∙ link_next-mapped_size t q o
            ∙ set_links-mapped_size a o q f;
        head =
            link_prev-head s f o
            ∙ link_next-head t q o
            ∙ ap (λ h. if q == none_offset then o else h) (set_links-head a o q f);
        at =
            link_prev-same s f o o (λ e. nf (sym e))
            ∙ link_next-same t q o o (λ e. nq (sym e))
            ∙ set_links-at a o q f;
        elsewhere = λ i no nq' nf'.
            link_prev-same s f o i nf' ∙ link_next-same t q o i nq' ∙ set_links-same a o q f i no;
        before = λ is_q.
            link_prev-same s f o q (λ e. is_q (apart e))
            ∙ link_next-at t q o is_q
            ∙ ap {A = Block} (λ b. record b { free_next = o }) (set_links-same a o q f q nq);
        after = λ is_f.
            link_prev-at s f o is_f
            ∙ ap {A = Block} (λ b. record b { free_prev = o })
                (link_next-same t q o f (λ e. is_f (e ∙ apart (sym e)))
                  ∙ set_links-same a o q f f nf);
      }
