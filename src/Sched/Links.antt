-- ===== src/Sched/Links.antt =====
-- Lists of addresses that the links of a store run through.
use utamo_os.Common.{ℕ, ◌≡◌, ◌≢◌, refl, Bool, true, false, ◌||◌, List, [], ◌∷◌, ◌++◌, ◌==◌, arith}

-- Whether a list has an address.
unfoldable pub has : List ℕ → ℕ → Bool
has [] a = false
has (x ∷ xs) a = x == a || has xs a

abbrev pub Distinct : List ℕ → Type 0
Distinct [] = Unit
Distinct (x ∷ xs) = (has xs x ≡ false) × Distinct xs

-- From `head`, the links run through the list, and then to `end`.
abbrev pub Linked : (ℕ → ℕ) → ℕ → List ℕ → ℕ → Type 0
Linked next head [] end = head ≡ end
Linked next head (x ∷ xs) end = (head ≡ x) × (x ≢ 0) × Linked next (next x) xs end

-- The last address, or the default.
abbrev pub last_or : ℕ → List ℕ → ℕ
last_or d [] = d
last_or d (x ∷ xs) = last_or x xs

pub has-append : (xs ys : List ℕ) (a : ℕ) → has (xs ++ ys) a ≡ (has xs a || has ys a)
unfolding has
has-append [] ys a = refl
has-append (x ∷ xs) ys a = ground (arith, has-append xs ys a)

pub Distinct-append :
    (xs ys : List ℕ)
    → Distinct xs
    → Distinct ys
    → ((a : ℕ) → has xs a ≡ true → has ys a ≡ false)
    → Distinct (xs ++ ys)
unfolding has
Distinct-append [] ys hx hy h = hy
Distinct-append (x ∷ xs) ys hx hy h = (
  ground (arith, has-append xs ys x, h x, hx.0),
  Distinct-append xs ys hx.1 hy (λ a e. h a (ground (arith, e))),
)

-- Links that agree on the list run through it too.
pub Linked-frame :
    (next next' : ℕ → ℕ) (head : ℕ) (xs : List ℕ) (end : ℕ)
    → ((a : ℕ) → has xs a ≡ true → next' a ≡ next a)
    → Linked next head xs end
    → Linked next' head xs end
unfolding has
Linked-frame next next' head [] end h l = l
Linked-frame next next' head (x ∷ xs) end h (at, nonzero, rest) = (
  at,
  nonzero,
  rw (h x (ground arith))
      (Linked-frame next next' (next x) xs end (λ a e. h a (ground (arith, e))) rest),
)

pub Linked-append :
    (next : ℕ → ℕ) (head : ℕ) (xs ys : List ℕ) (mid end : ℕ)
    → Linked next head xs mid
    → Linked next mid ys end
    → Linked next head (xs ++ ys) end
Linked-append next head [] ys mid end l m = rw l m
Linked-append next head (x ∷ xs) ys mid end (at, nonzero, rest) m =
    (at, nonzero, Linked-append next (next x) xs ys mid end rest m)

-- The middle of links that run through two lists.
pub Linked-split :
    (next : ℕ → ℕ) (head : ℕ) (xs ys : List ℕ) (end : ℕ)
    → Linked next head (xs ++ ys) end
    → (mid : ℕ) × Linked next head xs mid × Linked next mid ys end
Linked-split next head [] ys end l = (head, refl, l)
Linked-split next head (x ∷ xs) ys end (at, nonzero, rest) =
    let (mid, left, right) = Linked-split next (next x) xs ys end rest in
    (mid, (at, nonzero, left), right)

pub has-last_or : (x : ℕ) (xs : List ℕ) → has (x ∷ xs) (last_or x xs) ≡ true
unfolding has
has-last_or x [] = ground arith
has-last_or x (y ∷ xs) = ground (arith, has-last_or y xs)

-- The last link leads elsewhere.
pub Linked-redirect :
    (next next' : ℕ → ℕ) (head x : ℕ) (xs : List ℕ) (end end' : ℕ)
    → Distinct (x ∷ xs)
    → ((a : ℕ) → has (x ∷ xs) a ≡ true → a ≢ last_or x xs → next' a ≡ next a)
    → next' (last_or x xs) ≡ end'
    → Linked next head (x ∷ xs) end
    → Linked next' head (x ∷ xs) end'
unfolding has
Linked-redirect next next' head x [] end end' d h e (at, nonzero, rest) = (at, nonzero, e)
Linked-redirect next next' head x (y ∷ xs) end end' d h e (at, nonzero, rest) =
    let other : x ≢ last_or y xs = λ e'. ground (arith, e', has-last_or y xs, d.0) in
    (
      at,
      nonzero,
      rw (h x (ground arith) other) (
          Linked-redirect next next' (next x) y xs end end' d.1 (λ a e'. h a (ground (arith, e'))) e
            rest),
    )

pub Linked-last_or :
    (next : ℕ → ℕ) (head x : ℕ) (xs : List ℕ) (end : ℕ)
    → Linked next head (x ∷ xs) end
    → last_or x xs ≢ 0
Linked-last_or next head x [] end (at, nonzero, rest) = nonzero
Linked-last_or next head x (y ∷ xs) end (at, nonzero, rest) =
    Linked-last_or next (next x) y xs end rest
