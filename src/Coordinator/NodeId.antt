-- ===== src/Coordinator/NodeId.antt =====
-- src/coordinator.rs: node IDs and leases.
use meshlet.Common.{
  ℕ, ◌≤◌, ◌≡◌, ap, inl, inr, Bool, true, false, not, ◌&&◌, ◌||◌, [], ◌∷◌, arith, leb, eqb,
  Option-cases, Bytes, length, All, All-imp, nat_eq, list_eq, pair_eq, Duration, from_secs,
}
use meshlet.Common.Result.{Result, ok, ensure, ok_or, ◌>>=◌, ◌>>◌}
use meshlet.Errors.{Error, node_id_grammar, lease_not_integer, lease_range}
use meshlet.Text.Decimal.{parse_unsigned, parse_unsigned-decimal, decimal, max_u64}
use meshlet.Text.Words.{IsWord, is_space}

abbrev pub max_node_id_bytes : ℕ
max_node_id_bytes = 64

abbrev pub max_lease_seconds : ℕ
max_lease_seconds = 300

-- `is_ascii_alphanumeric() || matches!(byte, b'-' | b'_' | b'.')`
abbrev pub is_id_byte : ℕ → Bool
is_id_byte c =
    leb b'0' c && leb c b'9'
    || (leb b'A' c && leb c b'Z')
    || (leb b'a' c && leb c b'z')
    || eqb c b'-'
    || eqb c b'_'
    || eqb c b'.'

unfoldable pub all_bytes : (ℕ → Bool) → Bytes → Bool
all_bytes p [] = true
all_bytes p (c ∷ s) = p c && all_bytes p s

unfoldable pub valid_node_id : Bytes → Bool
unfolding all_bytes
valid_node_id node_id =
    not (eqb (length node_id) 0)
    && leb (length node_id) max_node_id_bytes
    && all_bytes is_id_byte node_id

unfoldable pub validate_node_id : Bytes → Result Error (Unit {0})
validate_node_id node_id = ensure (valid_node_id node_id) node_id_grammar

unfoldable pub parse_lease : Bytes → Result Error Duration
parse_lease lease_seconds = do
  seconds ← ok_or (parse_unsigned max_u64 lease_seconds) lease_not_integer
  ensure (leb 1 seconds && leb seconds max_lease_seconds) lease_range
  ok (from_secs seconds)

all_bytes-All : (p : ℕ → Bool) (s : Bytes) → all_bytes p s ≡ true → All (λ c. p c ≡ true) s
unfolding all_bytes
all_bytes-All p [] h = tt
all_bytes-All p (c ∷ s) h = (ground arith, all_bytes-All p s (ground arith))

pub valid_node_id-All : (id : Bytes) → valid_node_id id ≡ true → All (λ c. is_id_byte c ≡ true) id
unfolding valid_node_id
valid_node_id-All id h = all_bytes-All is_id_byte id (ground arith)

pub valid_node_id-IsWord : (id : Bytes) → valid_node_id id ≡ true → IsWord id
valid_node_id-IsWord id h = (
  λ e. unfold valid_node_id in absurd (ground (arith, ap length e)),
  All-imp (λ c. is_id_byte c ≡ true) (λ c. is_space c ≡ false) (λ c k. ground arith) id
      (valid_node_id-All id h),
)

pub parse_lease-decimal :
    (s : ℕ) → 1 ≤ s → s ≤ max_lease_seconds → parse_lease (decimal s) ≡ ok (from_secs s)
unfolding parse_lease
parse_lease-decimal s h k = rw (parse_unsigned-decimal max_u64 s (omega arith)) (ground arith)

-- A lease that is read is a whole number of seconds from 1 to 300.
pub parse_lease_range :
    (t : Bytes) (d : Duration)
    → parse_lease t ≡ ok d
    → (s : ℕ) × (d ≡ from_secs s) × (1 ≤ s) × (s ≤ max_lease_seconds)
unfolding parse_lease
parse_lease_range t d e = elim (Option-cases (parse_unsigned max_u64 t)) [
  | inl no_number ↦ cc (rw no_number at e)
  | inr (s, read) ↦ (s, ground arith, ground arith, ground arith)
]
