-- ===== src/Coordinator/AuthSound.antt =====
-- src/coordinator.rs: whatever datagram the authenticated server parses, the request is well formed.
use mathlib.Core.Path.{subst}
use meshlet.Common.{◌≡◌, ◌≢◌, List, [], ◌∷◌, arith, Bytes, nat_eq, list_eq, pair_eq}
use meshlet.Common.Result.{ok, ensure, ok-injective, >>=-eq-ok, >>-eq-ok}
use meshlet.Coordinator.AuthRoundTrip.{IsAuthRequest}
use meshlet.Coordinator.NodeId.{validate_node_id, parse_lease, parse_lease_range}
use meshlet.Coordinator.Request.{
  AuthRequest, challenge_bytes, parse_auth_request, auth_request_of_fields, other_auth_request,
  parse_challenge, parse_auth_register, parse_auth_lookup, to_signature,
}
use meshlet.Coordinator.Sound.{branch, validate_node_id_ok}
use meshlet.Errors.{request_not_utf8}
use meshlet.Identity.Hex.{decode_hex_array, decode_hex_array-IsArray}
use meshlet.Identity.Keys.{Ed25519, Ed25519Laws}
use meshlet.Text.Utf8.{is_utf8}
use meshlet.Text.Words.{split_ascii_whitespace}

module _ {SigningKey VerifyingKey Signature : Type 0}
    (keys : Ed25519 SigningKey VerifyingKey Signature) (laws : Ed25519Laws keys) where
  challenge_sound :
      (a : Bytes) (r : AuthRequest Signature)
      → parse_challenge keys a ≡ ok r
      → IsAuthRequest keys laws r
  unfolding parse_challenge
  challenge_sound a r e =
      let (valid, e₁) = >>-eq-ok (validate_node_id a) _ e in
      subst (IsAuthRequest keys laws) (ok-injective e₁) (validate_node_id_ok a valid)

  lookup_sound :
      (a : Bytes) (r : AuthRequest Signature)
      → parse_auth_lookup keys a ≡ ok r
      → IsAuthRequest keys laws r
  unfolding parse_auth_lookup
  lookup_sound a r e =
      let (valid, e₁) = >>-eq-ok (validate_node_id a) _ e in
      subst (IsAuthRequest keys laws) (ok-injective e₁) (validate_node_id_ok a valid)

  register_sound :
      (a b c d : Bytes) (r : AuthRequest Signature)
      → parse_auth_register keys a b c d ≡ ok r
      → IsAuthRequest keys laws r
  unfolding parse_auth_register
  register_sound a b c d r e =
      let (valid, e₁) = >>-eq-ok (validate_node_id a) _ e in
      let (lease, read, e₂) = >>=-eq-ok (parse_lease b) _ e₁ in
      let (value, decoded, e₃) = >>=-eq-ok (decode_hex_array challenge_bytes c) _ e₂ in
      let (bytes, _, e₄) = >>=-eq-ok (decode_hex_array 64 d) _ e₃ in
      let (signature, _, e₅) = >>=-eq-ok (to_signature keys bytes) _ e₄ in
      subst (IsAuthRequest keys laws) (ok-injective e₅) (
        validate_node_id_ok a valid,
        parse_lease_range b lease read,
        decode_hex_array-IsArray challenge_bytes c value decoded,
      )

  other_request_fails :
      (fields : List Bytes) (r : AuthRequest Signature) → other_auth_request keys fields ≢ ok r
  unfolding other_auth_request
  other_request_fails [] r e = cc
  other_request_fails (version ∷ rest) r e = ground arith

  fields_sound :
      (fields : List Bytes) (r : AuthRequest Signature)
      → auth_request_of_fields keys fields ≡ ok r
      → IsAuthRequest keys laws r
  unfolding auth_request_of_fields
  fields_sound [] r e = absurd (other_request_fails [] r e)
  fields_sound (v ∷ []) r e = absurd (other_request_fails (v ∷ []) r e)
  fields_sound (v ∷ c ∷ []) r e = absurd (other_request_fails (v ∷ c ∷ []) r e)
  fields_sound (v ∷ c ∷ x ∷ []) r e =
      branch (IsAuthRequest keys laws) _ _ _ r (challenge_sound x r)
        (branch (IsAuthRequest keys laws) _ _ _ r (lookup_sound x r)
          (λ k. absurd (other_request_fails (v ∷ c ∷ x ∷ []) r k)))
        e
  fields_sound (v ∷ c ∷ x ∷ y ∷ []) r e = absurd (other_request_fails (v ∷ c ∷ x ∷ y ∷ []) r e)
  fields_sound (v ∷ c ∷ x ∷ y ∷ z ∷ []) r e =
      absurd (other_request_fails (v ∷ c ∷ x ∷ y ∷ z ∷ []) r e)
  fields_sound (v ∷ c ∷ x ∷ y ∷ z ∷ w ∷ []) r e =
      branch (IsAuthRequest keys laws) _ _ _ r (register_sound x y z w r)
        (λ k. absurd (other_request_fails (v ∷ c ∷ x ∷ y ∷ z ∷ w ∷ []) r k)) e
  fields_sound (v ∷ c ∷ x ∷ y ∷ z ∷ w ∷ u ∷ rest) r e =
      absurd (other_request_fails (v ∷ c ∷ x ∷ y ∷ z ∷ w ∷ u ∷ rest) r e)

  -- Whatever bytes arrive, an authenticated request that is parsed from them has a valid node ID, a
  -- lease of 1 to 300 whole seconds, and a challenge of 32 bytes.
  pub parse_auth_request-IsAuthRequest :
      (message : Bytes) (r : AuthRequest Signature)
      → parse_auth_request keys message ≡ ok r
      → IsAuthRequest keys laws r
  unfolding parse_auth_request
  parse_auth_request-IsAuthRequest message r e =
      let (_, e₁) = >>-eq-ok (ensure (is_utf8 message) request_not_utf8) _ e in
      fields_sound (split_ascii_whitespace message) r e₁
