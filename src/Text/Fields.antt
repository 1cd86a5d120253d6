-- ===== src/Text/Fields.antt =====
-- Fields of the wire texts: words of ASCII, and the texts made of them.
use meshlet.Common.{
  ℕ, ◌<◌, ◌≡◌, ◌≢◌, Bool, true, false, not, ◌&&◌, List, [], ◌∷◌, arith, ltb, Bytes, All, All-append,
  All-imp, nat_eq, list_eq, pair_eq,
}
use meshlet.Text.Decimal.{decimal, decimal-All, decimal-ne-nil, is_digit}
use meshlet.Text.Utf8.{is_utf8, is_utf8-ascii}
use meshlet.Text.Words.{
  IsWord, is_space, spaced, split_ascii_whitespace, split_ascii_whitespace-spaced,
}

-- A byte that may stand in a field.
abbrev pub is_plain : ℕ → Bool
is_plain c = not (is_space c) && ltb c 128

abbrev pub IsField : Bytes → Type 0
IsField w = (w ≢ []) × All (λ c. is_plain c ≡ true) w

unfoldable pub field_test : Bytes → Bool
field_test [] = true
field_test (c ∷ s) = is_plain c && field_test s

field_test-All : (s : Bytes) → field_test s ≡ true → All (λ c. is_plain c ≡ true) s
unfolding field_test
field_test-All [] h = tt
field_test-All (c ∷ s) h = (ground arith, field_test-All s (ground arith))

-- A constant is a field by evaluation.
pub constant-IsField : (c : ℕ) (s : Bytes) → field_test (c ∷ s) ≡ true → IsField (c ∷ s)
constant-IsField c s h = (λ e. cc, field_test-All (c ∷ s) h)

pub decimal-IsField : (n : ℕ) → IsField (decimal n)
decimal-IsField n = (
  decimal-ne-nil n,
  All-imp (λ c. is_digit c ≡ true) (λ c. is_plain c ≡ true) (λ c h. ground arith) (decimal n)
      (decimal-All n),
)

pub IsField-IsWord : (ws : List Bytes) → All IsField ws → All IsWord ws
IsField-IsWord ws h =
    All-imp IsField IsWord
      (λ w k. (k.0, All-imp _ (λ c. is_space c ≡ false) (λ c p. ground arith) w k.1)) ws h

pub spaced-ascii : (ws : List Bytes) → All IsField ws → All (λ c. c < 128) (spaced ws)
unfolding spaced
spaced-ascii [] h = tt
spaced-ascii (w ∷ []) h = All-imp _ (λ c. c < 128) (λ c p. ground arith) w h.0.1
spaced-ascii (w ∷ v ∷ ws) h =
    All-append _ w _ (All-imp _ (λ c. c < 128) (λ c p. ground arith) w h.0.1)
      (omega arith, spaced-ascii (v ∷ ws) h.1)

-- A text of fields is valid UTF-8, and splits into the fields.
pub spaced_fields :
    (ws : List Bytes)
    → All IsField ws
    → (is_utf8 (spaced ws) ≡ true) × (split_ascii_whitespace (spaced ws) ≡ ws)
spaced_fields ws h = (
  is_utf8-ascii (spaced ws) (spaced-ascii ws h),
  split_ascii_whitespace-spaced ws (IsField-IsWord ws h),
)
