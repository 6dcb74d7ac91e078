-- ===== src/Memory/Pmm/Count.antt =====
-- Counting frames by a predicate on frame numbers, and how a count changes with a range.
use utamo_os.Common.{
  ℕ, zero, suc, ◌+◌, ◌-◌, ◌≤◌, ◌<◌, ◌≡◌, refl, Bool, true, false, ◌&&◌, arith, ltb, leb, ◌==◌,
  if◌then◌else◌, min, ◌||◌, not,
}

-- how many of the frames below a bound are not in `p`
abbrev pub clear_count : (ℕ → Bool) → ℕ → ℕ
clear_count p zero = 0
clear_count p (suc n) = clear_count p n + (if p n then 0 else 1)

abbrev pub set_count : (ℕ → Bool) → ℕ → ℕ
set_count p zero = 0
set_count p (suc n) = set_count p n + (if p n then 1 else 0)

-- the frame `g` lies among the `k` frames from `f` on
abbrev pub in_range : ℕ → ℕ → ℕ → Bool
in_range f k g = leb f g && ltb g (f + k)

-- When a range of frames that were all clear becomes set, the count drops by its length.
pub clear_count-range :
    (p q : ℕ → Bool) (f k n : ℕ)
    → ((g : ℕ) → g < n → q g ≡ (if in_range f k g then true else p g))
    → ((g : ℕ) → g < n → in_range f k g ≡ true → p g ≡ false)
    → clear_count p n ≡ clear_count q n + (min n (f + k) - f)
clear_count-range p q f k zero h c = omega arith
clear_count-range p q f k (suc n) h c = ground (
  arith,
  clear_count-range p q f k n (λ g l. h g (omega arith)) (λ g l. c g (omega arith)),
  h n (omega arith),
  c n (omega arith),
)

pub clear_count-cong :
    (p q : ℕ → Bool) (n : ℕ) → ((g : ℕ) → g < n → q g ≡ p g) → clear_count q n ≡ clear_count p n
clear_count-cong p q zero h = refl
clear_count-cong p q (suc n) h =
    ground (arith, clear_count-cong p q n (λ g l. h g (omega arith)), h n (omega arith))

-- the same for one frame that becomes clear in a predicate
pub set_count-drop :
    (p q : ℕ → Bool) (f n : ℕ)
    → ((g : ℕ) → g < n → q g ≡ (if f == g then false else p g))
    → set_count q n ≤ set_count p n
set_count-drop p q f zero h = omega arith
set_count-drop p q f (suc n) h =
    ground (arith, set_count-drop p q f n (λ g l. h g (omega arith)), h n (omega arith))

pub set_count-cong :
    (p q : ℕ → Bool) (n : ℕ) → ((g : ℕ) → g < n → q g ≡ p g) → set_count q n ≡ set_count p n
set_count-cong p q zero h = refl
set_count-cong p q (suc n) h =
    ground (arith, set_count-cong p q n (λ g l. h g (omega arith)), h n (omega arith))

-- What is clear in one predicate is set in the other.
pub clear_count-le-set_count :
    (p q : ℕ → Bool) (n : ℕ)
    → ((g : ℕ) → g < n → q g ≡ false → p g ≡ true)
    → clear_count p n ≤ set_count q n
clear_count-le-set_count p q zero h = omega arith
clear_count-le-set_count p q (suc n) h =
    ground (arith, clear_count-le-set_count p q n (λ g l. h g (omega arith)), h n (omega arith))

pub clear_count-le : (p : ℕ → Bool) (n : ℕ) → clear_count p n ≤ n
clear_count-le p zero = omega arith
clear_count-le p (suc n) = ground (arith, clear_count-le p n)

pub set_count-in_range : (f k n : ℕ) → set_count (in_range f k) n ≡ min n (f + k) - f
set_count-in_range f k zero = omega arith
set_count-in_range f k (suc n) = ground (arith, set_count-in_range f k n)

pub set_count-or :
    (p q : ℕ → Bool) (n : ℕ)
    → ((g : ℕ) → g < n → (p g && q g) ≡ false)
    → set_count (λ g. p g || q g) n ≡ set_count p n + set_count q n
set_count-or p q zero h = refl
set_count-or p q (suc n) h =
    ground (arith, set_count-or p q n (λ g l. h g (omega arith)), h n (omega arith))

pub clear_count-not :
    (p q : ℕ → Bool) (n : ℕ) → ((g : ℕ) → g < n → q g ≡ not (p g)) → clear_count q n ≡ set_count p n
clear_count-not p q zero h = refl
clear_count-not p q (suc n) h =
    ground (arith, clear_count-not p q n (λ g l. h g (omega arith)), h n (omega arith))

pub set_count-none : (n : ℕ) → set_count (λ g. false) n ≡ 0
set_count-none zero = refl
set_count-none (suc n) = omega (arith, set_count-none n)
