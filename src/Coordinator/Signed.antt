-- ===== src/Coordinator/Signed.antt =====
-- src/coordinator.rs: what a signature under a registration stands for.
use meshlet.Common.{
  ◌≡◌, ap, true, [], arith, Bytes, drop, nat_eq, list_eq, pair_eq, Duration, as_secs,
}
use meshlet.Coordinator.Auth.{registration_signing_message}
use meshlet.Coordinator.NodeId.{valid_node_id}
use meshlet.Coordinator.RoundTrip.{IsLease}
use meshlet.Identity.Hex.{IsArray, encode_hex}
use meshlet.Text.Decimal.{decimal}
use meshlet.Identity.Parts.{
  line-injective, node_id-IsPart, decimal-IsPart, hex-IsPart, decimal-injective,
  encode_hex-injective,
}

same_lease :
    (lease lease' : Duration)
    → IsLease lease
    → IsLease lease'
    → decimal (as_secs lease) ≡ decimal (as_secs lease')
    → lease ≡ lease'
same_lease lease lease' (s, p, low, high) (t, q, low', high') e =
    omega (
      arith,
      p,
      q,
      decimal-injective (as_secs lease) (as_secs lease') (omega arith) (omega arith) e,
    )

-- A signed message belongs to one registration: where two messages are the same, so are the node, the
-- lease and the challenge, for valid node IDs, leases of 1 to 300 whole seconds and challenges of 32
-- bytes.
pub registration_signing_message-injective :
    (n n' : Bytes) (lease lease' : Duration) (value value' : Bytes)
    → valid_node_id n ≡ true
    → valid_node_id n' ≡ true
    → IsLease lease
    → IsLease lease'
    → IsArray 32 value
    → IsArray 32 value'
    → registration_signing_message n lease value ≡ registration_signing_message n' lease' value'
    → (n ≡ n') × (lease ≡ lease') × (value ≡ value')
unfolding registration_signing_message
registration_signing_message-injective n n' lease lease' value value' h h' l l' v v' e =
    let after_head = ap (drop 37) e in
    let (same_node, rest) =
      line-injective n n' _ _ (node_id-IsPart n h) (node_id-IsPart n' h') after_head in
    let (same_seconds, rest') =
      line-injective (decimal (as_secs lease)) (decimal (as_secs lease')) _ _ (decimal-IsPart _)
        (decimal-IsPart _) (ap (drop 14) rest) in
    let (same_hex, _) =
      line-injective (encode_hex value) (encode_hex value') [] [] (hex-IsPart 32 value v)
        (hex-IsPart 32 value' v') (ap (drop 10) rest') in
    (
      same_node,
      same_lease lease lease' l l' same_seconds,
      encode_hex-injective 32 value value' v v' same_hex,
    )
