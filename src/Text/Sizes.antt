-- ===== src/Text/Sizes.antt =====
-- How long the wire texts are.
use meshlet.Common.{
  ℕ, zero, suc, ◌+◌, ◌*◌, ◌/◌, ◌%◌, ◌≤◌, ◌<◌, ◌≡◌, refl, ap, inl, inr, List, [], ◌∷◌, arith, ltb,
  lt→ltb, Bool-cases, Bytes, length, take, length-append, nat_eq, list_eq, pair_eq,
}
use meshlet.Text.Decimal.{decimal, digits}
use meshlet.Text.Words.{spaced}

abbrev pub ten_to : ℕ → ℕ
ten_to zero = 1
ten_to (suc k) = ten_to k * 10

digits_le : (f k n : ℕ) → n < f → n < ten_to (suc k) → length (digits f n) ≤ suc k
unfolding digits
digits_le zero k n h small = omega arith
digits_le (suc f) zero n h small = rw (lt→ltb n 10 (omega (arith, small)), digits) (omega arith)
digits_le (suc f) (suc k) n h small = elim (Bool-cases (ltb n 10)) [
  | inl one ↦ rw (one, digits) (omega arith)
  | inr more ↦
      rw (more, digits)
        (omega (
          arith,
          length-append (digits f (n / 10)) ((b'0' + n % 10) ∷ []),
          digits_le f k (n / 10) (ground arith) (tenth (ten_to (suc k)) n small),
        ))
]
  where
    tenth : (p n : ℕ) → n < p * 10 → n / 10 < p
    tenth p n h = omega arith

-- A number below a power of ten has that many digits at most.
pub length-decimal : (k n : ℕ) → n < ten_to (suc k) → length (decimal n) ≤ suc k
unfolding decimal
length-decimal k n h = digits_le (suc n) k n (omega arith) h

pub length-spaced :
    (w v : Bytes) (ws : List Bytes)
    → length (spaced (w ∷ v ∷ ws)) ≡ length w + suc (length (spaced (v ∷ ws)))
unfolding spaced
length-spaced w v ws = length-append w (b' ' ∷ spaced (v ∷ ws))

-- The lengths of the fields, with a space behind each.
abbrev pub total_length : List Bytes → ℕ
total_length [] = 0
total_length (w ∷ ws) = suc (length w + total_length ws)

pub length-spaced-le : (ws : List Bytes) → length (spaced ws) ≤ total_length ws
unfolding spaced
length-spaced-le [] = omega arith
length-spaced-le (w ∷ []) = omega arith
length-spaced-le (w ∷ v ∷ ws) = omega (arith, length-spaced w v ws, length-spaced-le (v ∷ ws))

pub take_whole {ℓ} : {A : Type ℓ} (n : ℕ) (xs : List A) → length xs ≤ n → take n xs ≡ xs
take_whole zero [] h = refl
take_whole zero (x ∷ xs) h = absurd (omega arith)
take_whole (suc n) [] h = refl
take_whole (suc n) (x ∷ xs) h = ap (◌∷◌ x) (take_whole n xs (omega arith))
