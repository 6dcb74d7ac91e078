-- ===== src/Net/Packet.antt =====
-- kernel/include/utamo/net_packet.h: numbers in network order in a buffer of bytes. A pointer with
-- its count of bytes is a list, and an output with its capacity is a list of that length.
use utamo_os.Common.{
  ℕ, zero, suc, ◌+◌, ◌*◌, ◌/◌, ◌%◌, ◌^◌, ◌≤◌, ◌<◌, ◌≡◌, refl, ap, ◌∙◌, List, [], ◌∷◌, ◌++◌, get_or,
  set, length, take, drop, All, arith,
}

abbrev pub net_get16 : List ℕ → ℕ → ℕ
net_get16 p i = get_or p i 0 * 256 + get_or p (suc i) 0

abbrev pub net_get32 : List ℕ → ℕ → ℕ
net_get32 p i = net_get16 p i * 2 ^ 16 + net_get16 p (suc (suc i))

abbrev pub net_put16 : List ℕ → ℕ → ℕ → List ℕ
net_put16 p i value = set (set p i (value / 256 % 256)) (suc i) (value % 256)

abbrev pub net_put32 : List ℕ → ℕ → ℕ → List ℕ
net_put32 p i value =
    net_put16 (net_put16 p i (value / 2 ^ 16 % 2 ^ 16)) (suc (suc i)) (value % 2 ^ 16)

-- memcpy(p + i, bytes, length bytes); what is beyond the buffer is dropped.
abbrev pub copy_to : List ℕ → ℕ → List ℕ → List ℕ
copy_to [] i bytes = []
copy_to (x ∷ p) (suc i) bytes = x ∷ copy_to p i bytes
copy_to (x ∷ p) zero [] = x ∷ p
copy_to (x ∷ p) zero (b ∷ bytes) = b ∷ copy_to p zero bytes

abbrev pub IsByte : ℕ → Type 0
IsByte b = b < 256

-- What a pointer to `unsigned char[6]` gives
abbrev pub IsMac : List ℕ → Type 0
IsMac mac = (length mac ≡ 6) × All IsByte mac

pub copy_to-start :
    (p bytes : List ℕ)
    → length bytes ≤ length p
    → copy_to p 0 bytes ≡ bytes ++ drop (length bytes) p
copy_to-start [] [] h = refl
copy_to-start [] (b ∷ bytes) h = absurd (omega arith)
copy_to-start (x ∷ p) [] h = refl
copy_to-start (x ∷ p) (b ∷ bytes) h = ap (λ t. b ∷ t) (copy_to-start p bytes (omega arith))

pub take-length_append : (xs ys : List ℕ) → take (length xs) (xs ++ ys) ≡ xs
take-length_append [] ys = refl
take-length_append (x ∷ xs) ys = ap (λ t. x ∷ t) (take-length_append xs ys)

pub take-exact : (n : ℕ) (xs ys : List ℕ) → n ≡ length xs → take n (xs ++ ys) ≡ xs
take-exact n xs ys e = ap (λ k. take k (xs ++ ys)) e ∙ take-length_append xs ys

pub take-length : (xs : List ℕ) → take (length xs) xs ≡ xs
take-length [] = refl
take-length (x ∷ xs) = ap (λ t. x ∷ t) (take-length xs)

pub length-drop_le : (n : ℕ) (xs : List ℕ) → n ≤ length xs → length (drop n xs) + n ≡ length xs
length-drop_le zero xs h = omega arith
length-drop_le (suc n) [] h = absurd (omega arith)
length-drop_le (suc n) (x ∷ xs) h = omega (arith, length-drop_le n xs (omega arith))

-- A list of six elements, opened.
pub six : (xs : List ℕ) → length xs ≡ 6 → (a b c d e f : ℕ) × (xs ≡ a ∷ b ∷ c ∷ d ∷ e ∷ f ∷ [])
six [] h = absurd (omega arith)
six (a ∷ []) h = absurd (omega arith)
six (a ∷ b ∷ []) h = absurd (omega arith)
six (a ∷ b ∷ c ∷ []) h = absurd (omega arith)
six (a ∷ b ∷ c ∷ d ∷ []) h = absurd (omega arith)
six (a ∷ b ∷ c ∷ d ∷ e ∷ []) h = absurd (omega arith)
six (a ∷ b ∷ c ∷ d ∷ e ∷ f ∷ []) h = (a, b, c, d, e, f, refl)
six (a ∷ b ∷ c ∷ d ∷ e ∷ f ∷ g ∷ xs) h = absurd (omega arith)

-- The first `n` elements of a list, each on its own, so that writes at fixed places compute.
abbrev pub Front : ℕ → Type 0
Front zero = Unit
Front (suc n) = ℕ × Front n

abbrev pub conses : (n : ℕ) → Front n → List ℕ → List ℕ
conses zero f xs = xs
conses (suc n) f xs = f.0 ∷ conses n f.1 xs

pub opened : (n : ℕ) (xs : List ℕ) → n ≤ length xs → (f : Front n) × (xs ≡ conses n f (drop n xs))
opened zero xs h = (tt, refl)
opened (suc n) [] h = absurd (omega arith)
opened (suc n) (x ∷ xs) h = let (f, e) = opened n xs (omega arith) in ((x, f), ap (λ t. x ∷ t) e)

-- Words as bytes, the high one first, and their reading
abbrev pub be16 : ℕ → List ℕ
be16 v = (v / 256 % 256) ∷ (v % 256) ∷ []

abbrev pub be32 : ℕ → List ℕ
be32 v = be16 (v / 2 ^ 16 % 2 ^ 16) ++ be16 (v % 2 ^ 16)

pub get_be16 : (v : ℕ) → v < 2 ^ 16 → v / 256 % 256 * 256 + v % 256 ≡ v
get_be16 v h = omega arith

pub get_be32 :
    (v : ℕ)
    → v < 2 ^ 32
    → (v / 2 ^ 16 % 2 ^ 16 / 256 % 256 * 256 + v / 2 ^ 16 % 2 ^ 16 % 256) * 2 ^ 16
        + (v % 2 ^ 16 / 256 % 256 * 256 + v % 2 ^ 16 % 256)
      ≡ v
get_be32 v h = omega arith

pub be16-bytes : (v : ℕ) → All IsByte (be16 v)
be16-bytes v = (omega arith, (omega arith, tt))

pub be32-bytes : (v : ℕ) → All IsByte (be32 v)
be32-bytes v = (omega arith, (omega arith, (omega arith, (omega arith, tt))))
