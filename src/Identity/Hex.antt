-- ===== src/Identity/Hex.antt =====
-- src/identity.rs: `encode_hex`, `decode_hex_array` and `decode_nibble`.
use mathlib.Core.Path.{subst}
use meshlet.Common.{
  ℕ, zero, suc, ◌+◌, ◌-◌, ◌*◌, ◌/◌, ◌%◌, ◌<◌, ◌≡◌, refl, ap, inl, inr, Bool, true, false, ◌&&◌,
  ◌||◌, [], ◌∷◌, arith, leb, eqb, if◌then◌else◌, eqb_iff, Bool-cases, all_below, all_below_sound,
  Bytes, length, get_or, All, All-imp, nat_eq, list_eq, pair_eq,
}
use meshlet.Common.Result.{Result, ok, err, ensure, ◌>>=◌, ◌>>◌, >>=-eq-ok, ok-injective}
use meshlet.Errors.{Error, hex_length, hex_character}
use meshlet.Text.Words.{IsWord, is_space}
use meshlet.Text.{codes}

unfoldable pub hex_digit : ℕ → ℕ
hex_digit d = get_or (codes "0123456789abcdef") d 0

unfoldable pub encode_hex : Bytes → Bytes
unfolding hex_digit
encode_hex [] = []
encode_hex (byte ∷ bytes) = hex_digit (byte / 16) ∷ hex_digit (byte % 16) ∷ encode_hex bytes

unfoldable pub decode_nibble : ℕ → Result Error ℕ
decode_nibble byte =
    if leb b'0' byte && leb byte b'9'
    then ok (byte - b'0')
    else if leb b'a' byte && leb byte b'f'
    then ok (byte - b'a' + 10)
    else if leb b'A' byte && leb byte b'F'
    then ok (byte - b'A' + 10)
    else err (hex_character byte)

-- The loop over `chunks_exact(2)`, which leaves a last odd byte out.
unfoldable pub decode_pairs : Bytes → Result Error Bytes
unfolding decode_nibble
decode_pairs (h ∷ l ∷ rest) = do
  high ← decode_nibble h
  low ← decode_nibble l
  decoded ← decode_pairs rest
  ok ((high * 16 + low) ∷ decoded)
decode_pairs _ = ok []

unfoldable pub decode_hex_array : ℕ → Bytes → Result Error Bytes
unfolding decode_pairs
decode_hex_array n encoded = do
  ensure (eqb (length encoded) (n * 2)) (hex_length n)
  decode_pairs encoded

-- The bytes of an array `[u8; n]`.
abbrev pub IsArray : ℕ → Bytes → Type 0
IsArray n bytes = (length bytes ≡ n) × All (λ b. b < 256) bytes

hex_table :
    all_below 16 (λ d. elim (decode_nibble (hex_digit d)) [ ok v ↦ eqb v d | err _ ↦ false ]) ≡ true
unfolding all_below decode_nibble hex_digit
hex_table = refl

decode_nibble-hex_digit : (d : ℕ) → d < 16 → decode_nibble (hex_digit d) ≡ ok d
decode_nibble-hex_digit d h =
    from_test (decode_nibble (hex_digit d)) (all_below_sound 16 _ d hex_table h)
  where
    from_test : (r : Result Error ℕ) → (elim r [ ok v ↦ eqb v d | err _ ↦ false ]) ≡ true → r ≡ ok d
    from_test (ok v) e = ap ok ((eqb_iff v d).0 e)
    from_test (err _) e = cc

decode_pairs-encode_hex :
    (bytes : Bytes) → All (λ b. b < 256) bytes → decode_pairs (encode_hex bytes) ≡ ok bytes
unfolding decode_pairs encode_hex
decode_pairs-encode_hex [] h = refl
decode_pairs-encode_hex (b ∷ bytes) h =
    rw
      (
        decode_nibble-hex_digit (b / 16) (omega (arith, h.0)),
        decode_nibble-hex_digit (b % 16) (omega arith),
        decode_pairs-encode_hex bytes h.1,
      )
      (ap (λ t. ok (t ∷ bytes)) (omega arith))

pub length-encode_hex : (bytes : Bytes) → length (encode_hex bytes) ≡ length bytes * 2
unfolding encode_hex
length-encode_hex [] = omega arith
length-encode_hex (b ∷ bytes) = omega (arith, length-encode_hex bytes)

-- Every array of bytes is read back from its hexadecimal text.
pub decode_hex_array-encode_hex :
    (n : ℕ) (bytes : Bytes) → IsArray n bytes → decode_hex_array n (encode_hex bytes) ≡ ok bytes
unfolding decode_hex_array
decode_hex_array-encode_hex n bytes h =
    rw
      ((eqb_iff (length (encode_hex bytes)) (n * 2)).1
        (omega (arith, h.0, length-encode_hex bytes)))
      (decode_pairs-encode_hex bytes h.1)

decode_nibble-lt : (c v : ℕ) → decode_nibble c ≡ ok v → v < 16
unfolding decode_nibble
decode_nibble-lt c v e = ground arith

decode_pairs-IsArray :
    (s bytes : Bytes) (n : ℕ) → length s ≡ n * 2 → decode_pairs s ≡ ok bytes → IsArray n bytes
unfolding decode_pairs
decode_pairs-IsArray (h ∷ l ∷ rest) bytes zero k e = absurd (omega arith)
decode_pairs-IsArray (h ∷ l ∷ rest) bytes (suc n) k e =
    let (high, is_high, e₁) = >>=-eq-ok (decode_nibble h) _ e in
    let (low, is_low, e₂) = >>=-eq-ok (decode_nibble l) _ e₁ in
    let (decoded, others, e₃) = >>=-eq-ok (decode_pairs rest) _ e₂ in
    let (len, small) = decode_pairs-IsArray rest decoded n (omega arith) others in
    subst (IsArray (suc n)) (ok-injective e₃) (
      omega arith,
      (omega (arith, decode_nibble-lt h high is_high, decode_nibble-lt l low is_low), small),
    )
decode_pairs-IsArray (h ∷ []) bytes n k e = absurd (omega arith)
decode_pairs-IsArray [] bytes n k e = subst (IsArray n) (ok-injective e) (omega arith, tt)

-- What is decoded is an array of the length asked for.
pub decode_hex_array-IsArray :
    (n : ℕ) (s bytes : Bytes) → decode_hex_array n s ≡ ok bytes → IsArray n bytes
unfolding decode_hex_array
decode_hex_array-IsArray n s bytes e = elim (Bool-cases (eqb (length s) (n * 2))) [
  | inl even ↦ decode_pairs-IsArray s bytes n ((eqb_iff _ (n * 2)).0 even) (rw even at e)
  | inr odd ↦ cc (rw odd at e)
]

abbrev pub is_hex_digit : ℕ → Bool
is_hex_digit c = leb b'0' c && leb c b'9' || (leb b'a' c && leb c b'f')

digit_table : all_below 16 (λ d. is_hex_digit (hex_digit d)) ≡ true
unfolding all_below hex_digit
digit_table = refl

-- Hexadecimal text has lowercase digits only.
pub encode_hex-All :
    (bytes : Bytes) → All (λ b. b < 256) bytes → All (λ c. is_hex_digit c ≡ true) (encode_hex bytes)
unfolding encode_hex
encode_hex-All [] h = tt
encode_hex-All (b ∷ bytes) h = (
  all_below_sound 16 _ (b / 16) digit_table (omega (arith, h.0)),
  (all_below_sound 16 _ (b % 16) digit_table (omega arith), encode_hex-All bytes h.1),
)

pub encode_hex-IsWord : (n : ℕ) (bytes : Bytes) → IsArray (suc n) bytes → IsWord (encode_hex bytes)
encode_hex-IsWord n bytes h = (
  λ e. absurd (omega (arith, h.0, length-encode_hex bytes, ap length e)),
  All-imp (λ c. is_hex_digit c ≡ true) (λ c. is_space c ≡ false) (λ c k. ground arith)
      (encode_hex bytes) (encode_hex-All bytes h.1),
)
