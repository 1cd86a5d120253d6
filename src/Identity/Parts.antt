-- ===== src/Identity/Parts.antt =====
-- Node IDs, decimals and hexadecimal texts as lines of a signed message: equal messages have equal
-- lines.
use meshlet.Common.{
  ℕ, ◌≤◌, ◌≡◌, sym, ap, ◌∙◌, true, false, Option, some, ◌∷◌, ◌++◌, arith, eqb, Bytes, All, All-imp,
  nat_eq, list_eq, pair_eq,
}
use meshlet.Identity.Hex.{
  IsArray, encode_hex, encode_hex-All, is_hex_digit, decode_hex_array, decode_hex_array-encode_hex,
}
use meshlet.Common.Result.{ok-injective}
use meshlet.Coordinator.NodeId.{valid_node_id, valid_node_id-All, is_id_byte}
use meshlet.Net.Ipv4.{split_once, split_once-append}
use meshlet.Text.Decimal.{
  decimal, decimal-All, is_digit, parse_unsigned, parse_unsigned-decimal, max_u64,
}

-- A part of a line.
abbrev pub IsPart : Bytes → Type 0
IsPart = All (λ c. eqb c b'\n' ≡ false)

-- Equal texts have the same first line and the same rest.
pub line-injective :
    (w w' rest rest' : Bytes)
    → IsPart w
    → IsPart w'
    → w ++ (b'\n' ∷ rest) ≡ w' ++ (b'\n' ∷ rest')
    → (w ≡ w') × (rest ≡ rest')
line-injective w w' rest rest' h k e =
    let cut = split_once-append b'\n' w rest h in
    let cut' = split_once-append b'\n' w' rest' k in
    let same : ◌≡◌ {A = Option (Bytes × Bytes)} (some (w, rest)) (some (w', rest')) =
      sym cut ∙ ap (split_once b'\n') e ∙ cut' in
    (cc, cc)

pub node_id-IsPart : (id : Bytes) → valid_node_id id ≡ true → IsPart id
node_id-IsPart id h =
    All-imp (λ c. is_id_byte c ≡ true) (λ c. eqb c b'\n' ≡ false) (λ c k. ground arith) id
      (valid_node_id-All id h)

pub decimal-IsPart : (n : ℕ) → IsPart (decimal n)
decimal-IsPart n =
    All-imp (λ c. is_digit c ≡ true) (λ c. eqb c b'\n' ≡ false) (λ c k. ground arith) (decimal n)
      (decimal-All n)

pub hex-IsPart : (n : ℕ) (bytes : Bytes) → IsArray n bytes → IsPart (encode_hex bytes)
hex-IsPart n bytes h =
    All-imp (λ c. is_hex_digit c ≡ true) (λ c. eqb c b'\n' ≡ false) (λ c k. ground arith)
      (encode_hex bytes) (encode_hex-All bytes h.1)

pub decimal-injective : (m n : ℕ) → m ≤ max_u64 → n ≤ max_u64 → decimal m ≡ decimal n → m ≡ n
decimal-injective m n h k e =
    let read = parse_unsigned-decimal max_u64 m h in
    let read' = parse_unsigned-decimal max_u64 n k in
    let same : some m ≡ some n = sym read ∙ ap (parse_unsigned max_u64) e ∙ read' in cc

pub encode_hex-injective :
    (n : ℕ) (a b : Bytes) → IsArray n a → IsArray n b → encode_hex a ≡ encode_hex b → a ≡ b
encode_hex-injective n a b h k e = ok-injective (
    sym (decode_hex_array-encode_hex n a h)
    ∙ ap (decode_hex_array n) e
    ∙ decode_hex_array-encode_hex n b k)
