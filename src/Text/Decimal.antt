-- ===== src/Text/Decimal.antt =====
-- `Display` and `FromStr` of the unsigned integers.
use meshlet.Common.{
  ℕ, zero, suc, ◌+◌, ◌-◌, ◌*◌, ◌/◌, ◌%◌, ◌≤◌, ◌<◌, ◌≡◌, ◌≢◌, refl, ap, All-imp, sym, ◌∙◌, Bool,
  true, false, ◌&&◌, Option, none, some, [], ◌∷◌, ◌++◌, arith, ltb, leb, eqb, if◌then◌else◌, Bytes,
  All, All-append, Bool-cases, inl, inr,
}
use mathlib.Core.List.{append_assoc, append-nil, concat-ne-nil}
use meshlet.Text.Words.{IsWord, is_space}

-- `u8::is_ascii_digit`
abbrev pub is_digit : ℕ → Bool
is_digit c = leb b'0' c && leb c b'9'

-- The digits of `n`, from the front. The fuel is more than the number of digits.
unfoldable pub digits : ℕ → ℕ → Bytes
digits zero n = []
digits (suc f) n = elim (ltb n 10) [
  | true ↦ (b'0' + n) ∷ []
  | false ↦ digits f (n / 10) ++ (b'0' + n % 10) ∷ []
]

unfoldable pub decimal : ℕ → Bytes
unfolding digits
decimal n = digits (suc n) n

-- The loop of `from_str`: it fails at a byte that is no digit, and where the value passes `max`.
unfoldable pub scan : ℕ → Bytes → ℕ → Option ℕ
scan max [] n = some n
scan max (c ∷ s) n =
    let n' = n * 10 + (c - b'0') in
    let rest = scan max s n' in if is_digit c && leb n' max then rest else none

-- `from_str` of the unsigned type whose greatest value is `max`: one plus sign may stand in front.
unfoldable pub parse_unsigned : ℕ → Bytes → Option ℕ
parse_unsigned max [] = none
parse_unsigned max (c ∷ []) = if eqb c b'+' then none else scan max (c ∷ []) 0
parse_unsigned max (c ∷ d ∷ s) = if eqb c b'+' then scan max (d ∷ s) 0 else scan max (c ∷ d ∷ s) 0

abbrev pub max_u8 : ℕ
max_u8 = 255

abbrev pub max_u64 : ℕ
max_u64 = 18_446_744_073_709_551_615

scan-digit :
    (max d n : ℕ) (rest : Bytes)
    → d < 10
    → n * 10 + d ≤ max
    → scan max ((b'0' + d) ∷ rest) n ≡ scan max rest (n * 10 + d)
unfolding scan
scan-digit max d n rest h k = ground arith

scan-digits :
    (f max n : ℕ) (rest : Bytes)
    → n < f
    → n ≤ max
    → scan max (digits f n ++ rest) 0 ≡ scan max rest n
unfolding digits
scan-digits zero max n rest h k = absurd (omega arith)
scan-digits (suc f) max n rest h k = elim (Bool-cases (ltb n 10)) [
  | inl small ↦
      rw (small, digits)
        (scan-digit max n 0 rest (ground arith) (omega arith) ∙ ap (scan max rest) (omega arith))
  | inr large ↦
      rw (large, digits)
        (rw append_assoc (
          scan-digits f max (n / 10) ((b'0' + n % 10) ∷ rest) (ground arith) (omega arith)
          ∙ scan-digit max (n % 10) (n / 10) rest (omega arith) (omega arith)
          ∙ ap (scan max rest) (omega arith)))
]

digits-All : (f n : ℕ) → n < f → All (λ c. is_digit c ≡ true) (digits f n)
unfolding digits
digits-All zero n h = tt
digits-All (suc f) n h = elim (Bool-cases (ltb n 10)) [
  | inl small ↦ rw (small, digits) (ground arith, tt)
  | inr large ↦
      rw (large, digits)
        (All-append _ (digits f (n / 10)) _ (digits-All f (n / 10) (ground arith))
          (ground arith, tt))
]

-- A decimal has nothing but digits.
pub decimal-All : (n : ℕ) → All (λ c. is_digit c ≡ true) (decimal n)
unfolding decimal
decimal-All n = digits-All (suc n) n (omega arith)

digits-ne-nil : (f n : ℕ) → digits (suc f) n ≢ []
unfolding digits
digits-ne-nil f n = elim (Bool-cases (ltb n 10)) [
  | inl small ↦ rw (small, digits) (λ e. cc)
  | inr large ↦ rw (large, digits) (concat-ne-nil (b'0' + n % 10) (digits f (n / 10)))
]

pub decimal-ne-nil : (n : ℕ) → decimal n ≢ []
unfolding decimal
decimal-ne-nil n = digits-ne-nil n n

pub scan-decimal :
    (max n : ℕ) (rest : Bytes) → n ≤ max → scan max (decimal n ++ rest) 0 ≡ scan max rest n
unfolding decimal
scan-decimal max n rest k = scan-digits (suc n) max n rest (omega arith) k

-- Without a sign there is nothing but the loop.
parse_unsigned_digits :
    (max : ℕ) (s : Bytes)
    → s ≢ []
    → All (λ c. is_digit c ≡ true) s
    → parse_unsigned max s ≡ scan max s 0
unfolding parse_unsigned
parse_unsigned_digits max [] ne h = absurd (ne refl)
parse_unsigned_digits max (c ∷ []) ne h = ground arith
parse_unsigned_digits max (c ∷ d ∷ s) ne h = ground arith

-- What is printed is read back, if the type holds it.
pub parse_unsigned-decimal : (max n : ℕ) → n ≤ max → parse_unsigned max (decimal n) ≡ some n
parse_unsigned-decimal max n h =
    parse_unsigned_digits max (decimal n) (decimal-ne-nil n) (decimal-All n)
    ∙ ap (λ s. scan max s 0) (sym (append-nil (decimal n)))
    ∙ scan-decimal max n [] h
    ∙ scan_end max n
  where
    scan_end : (max n : ℕ) → scan max [] n ≡ some n
    scan_end max n = unfold scan in refl

pub scan-le : (max : ℕ) (s : Bytes) (n v : ℕ) → n ≤ max → scan max s n ≡ some v → v ≤ max
unfolding scan
scan-le max [] n v h e = ground arith
scan-le max (c ∷ s) n v h e = ground (arith, scan-le max s (n * 10 + (c - b'0')) v)

parse_plain :
    (max c : ℕ) (s : Bytes) → eqb c b'+' ≡ false → parse_unsigned max (c ∷ s) ≡ scan max (c ∷ s) 0
unfolding parse_unsigned
parse_plain max c [] h = rw (h, parse_unsigned) refl
parse_plain max c (d ∷ s) h = rw (h, parse_unsigned) refl

parse_sign :
    (max c d : ℕ) (s : Bytes)
    → eqb c b'+' ≡ true
    → parse_unsigned max (c ∷ d ∷ s) ≡ scan max (d ∷ s) 0
unfolding parse_unsigned
parse_sign max c d s h = rw (h, parse_unsigned) refl

-- A value read is one of the type.
pub parse_unsigned-le : (max : ℕ) (s : Bytes) (v : ℕ) → parse_unsigned max s ≡ some v → v ≤ max
parse_unsigned-le max [] v e = unfold parse_unsigned in cc
parse_unsigned-le max (c ∷ []) v e = elim (Bool-cases (eqb c b'+')) [
  | inl sign ↦ unfold parse_unsigned in absurd (ground arith)
  | inr plain ↦ scan-le max (c ∷ []) 0 v (omega arith) (sym (parse_plain max c [] plain) ∙ e)
]
parse_unsigned-le max (c ∷ d ∷ s) v e = elim (Bool-cases (eqb c b'+')) [
  | inl sign ↦ scan-le max (d ∷ s) 0 v (omega arith) (sym (parse_sign max c d s sign) ∙ e)
  | inr plain ↦
      scan-le max (c ∷ d ∷ s) 0 v (omega arith) (sym (parse_plain max c (d ∷ s) plain) ∙ e)
]

pub decimal-IsWord : (n : ℕ) → IsWord (decimal n)
decimal-IsWord n = (
  decimal-ne-nil n,
  All-imp (λ c. is_digit c ≡ true) (λ c. is_space c ≡ false) (λ c h. ground arith) (decimal n)
      (decimal-All n),
)
