-- ===== src/Coordinator/Sound.antt =====
-- src/coordinator.rs: whatever datagram is parsed, the request is well formed.
use mathlib.Core.Path.{subst}
use meshlet.Common.{
  ◌≡◌, ◌≢◌, Bool, true, false, List, [], ◌∷◌, arith, if◌then◌else◌, Bytes, nat_eq, list_eq, pair_eq,
}
use meshlet.Common.Result.{
  Result, ok, ensure, ok_or, ok_or-eq-ok, ok-injective, >>=-eq-ok, >>-eq-ok,
}
use meshlet.Coordinator.NodeId.{valid_node_id, validate_node_id, parse_lease, parse_lease_range}
use meshlet.Coordinator.Request.{
  Request, parse_request, request_of_fields, other_request, parse_register, parse_lookup,
  parse_advertise_route, parse_route_lookup,
}
use meshlet.Coordinator.RoundTrip.{IsWellFormed}
use meshlet.Errors.{Error, destination_address, request_not_utf8}
use meshlet.Net.Ipv4.{parse_ipv4, parse_ipv4-lt}
use meshlet.Routing.Parse.{parse_prefix-IsCanonical}
use meshlet.Routing.Prefix.{parse_prefix}
use meshlet.Text.Utf8.{is_utf8}
use meshlet.Text.Words.{split_ascii_whitespace}

pub validate_node_id_ok : (id : Bytes) → validate_node_id id ≡ ok tt → valid_node_id id ≡ true
unfolding validate_node_id
validate_node_id_ok id e = ground arith

register_sound : (a b : Bytes) (r : Request) → parse_register a b ≡ ok r → IsWellFormed r
unfolding parse_register
register_sound a b r e =
    let (valid, e₁) = >>-eq-ok (validate_node_id a) _ e in
    let (lease, read, e₂) = >>=-eq-ok (parse_lease b) _ e₁ in
    subst IsWellFormed (ok-injective e₂)
      (validate_node_id_ok a valid, parse_lease_range b lease read)

lookup_sound : (a : Bytes) (r : Request) → parse_lookup a ≡ ok r → IsWellFormed r
unfolding parse_lookup
lookup_sound a r e =
    let (valid, e₁) = >>-eq-ok (validate_node_id a) _ e in
    subst IsWellFormed (ok-injective e₁) (validate_node_id_ok a valid)

advertise_route_sound :
    (a b c : Bytes) (r : Request) → parse_advertise_route a b c ≡ ok r → IsWellFormed r
unfolding parse_advertise_route
advertise_route_sound a b c r e =
    let (valid, e₁) = >>-eq-ok (validate_node_id a) _ e in
    let (prefix, canonical, e₂) = >>=-eq-ok (parse_prefix b) _ e₁ in
    let (lease, read, e₃) = >>=-eq-ok (parse_lease c) _ e₂ in
    subst IsWellFormed (ok-injective e₃) (
      validate_node_id_ok a valid,
      parse_prefix-IsCanonical b prefix canonical,
      parse_lease_range c lease read,
    )

route_lookup_sound : (a : Bytes) (r : Request) → parse_route_lookup a ≡ ok r → IsWellFormed r
unfolding parse_route_lookup
route_lookup_sound a r e =
    let (ip, read, e₁) = >>=-eq-ok (ok_or (parse_ipv4 a) destination_address) _ e in
    subst IsWellFormed (ok-injective e₁)
      (parse_ipv4-lt a ip (ok_or-eq-ok (parse_ipv4 a) destination_address read))

other_request_fails : (fields : List Bytes) (r : Request) → other_request fields ≢ ok r
unfolding other_request
other_request_fails [] r e = cc
other_request_fails (version ∷ rest) r e = ground arith

-- A branch of the `match`: its arm, or a later one.
pub branch :
    {A : Type 0} (P : A → Type 0) (test : Bool) (arm later : Result Error A) (r : A)
    → (arm ≡ ok r → P r)
    → (later ≡ ok r → P r)
    → (if test then arm else later) ≡ ok r
    → P r
branch P true arm later r h k e = h e
branch P false arm later r h k e = k e

fields_sound :
    (fields : List Bytes) (r : Request) → request_of_fields fields ≡ ok r → IsWellFormed r
unfolding request_of_fields
fields_sound [] r e = absurd (other_request_fails [] r e)
fields_sound (v ∷ []) r e = absurd (other_request_fails (v ∷ []) r e)
fields_sound (v ∷ c ∷ []) r e = absurd (other_request_fails (v ∷ c ∷ []) r e)
fields_sound (v ∷ c ∷ x ∷ []) r e =
    branch IsWellFormed _ _ _ r (lookup_sound x r)
      (branch IsWellFormed _ _ _ r (route_lookup_sound x r)
        (λ k. absurd (other_request_fails (v ∷ c ∷ x ∷ []) r k)))
      e
fields_sound (v ∷ c ∷ x ∷ y ∷ []) r e =
    branch IsWellFormed _ _ _ r (register_sound x y r)
      (λ k. absurd (other_request_fails (v ∷ c ∷ x ∷ y ∷ []) r k)) e
fields_sound (v ∷ c ∷ x ∷ y ∷ z ∷ []) r e =
    branch IsWellFormed _ _ _ r (advertise_route_sound x y z r)
      (λ k. absurd (other_request_fails (v ∷ c ∷ x ∷ y ∷ z ∷ []) r k)) e
fields_sound (v ∷ c ∷ x ∷ y ∷ z ∷ w ∷ rest) r e =
    absurd (other_request_fails (v ∷ c ∷ x ∷ y ∷ z ∷ w ∷ rest) r e)

-- Whatever bytes arrive, a request that is parsed from them has a valid node ID, a lease of 1 to 300
-- whole seconds, a canonical prefix, and a 32-bit destination.
pub parse_request-IsWellFormed :
    (message : Bytes) (r : Request) → parse_request message ≡ ok r → IsWellFormed r
unfolding parse_request
parse_request-IsWellFormed message r e =
    let (_, e₁) = >>-eq-ok (ensure (is_utf8 message) request_not_utf8) _ e in
    fields_sound (split_ascii_whitespace message) r e₁
