-- ===== src/Coordinator/AuthRoundTrip.antt =====
-- src/coordinator.rs: the authenticated server understands the requests of the clients, and the client
-- the server's challenge.
use meshlet.Common.{
  ◌≡◌, refl, true, List, [], ◌∷◌, Bytes, All, eq_refl, nat_eq, list_beq, list_eq, pair_eq, as_secs,
}
use meshlet.Common.Result.{ok}
use meshlet.Coordinator.NodeId.{valid_node_id}
use meshlet.Coordinator.Request.{
  AuthRequest, challenge, register, lookup, auth_protocol_version, parse_auth_request,
  auth_request_of_fields, parse_challenge, parse_auth_register, parse_auth_lookup, to_signature,
  auth_request_text,
}
use meshlet.Coordinator.Response.{
  AuthResponse, encode_auth, parse_challenge_response, challenge_of_fields,
}
use meshlet.Coordinator.RoundTrip.{IsLease, node_id-IsField, lease_text, validates}
use meshlet.Handshake.HelloTrip.{hex-IsField}
use meshlet.Identity.Hex.{IsArray, encode_hex, decode_hex_array-encode_hex}
use meshlet.Identity.Keys.{Ed25519, Ed25519Laws}
use meshlet.Text.Decimal.{decimal}
use meshlet.Text.Fields.{IsField, field_test, constant-IsField, decimal-IsField, spaced_fields}
use meshlet.Text.Words.{spaced}
use meshlet.Text.{codes}

pub version-IsField : IsField auth_protocol_version
unfolding field_test
version-IsField = constant-IsField _ _ refl

module _ {SigningKey VerifyingKey Signature : Type 0}
    (keys : Ed25519 SigningKey VerifyingKey Signature) (laws : Ed25519Laws keys) where
  -- What a client has to give for the server to act on it.
  abbrev pub IsAuthRequest : AuthRequest Signature → Type 0
  IsAuthRequest (challenge node_id) = valid_node_id node_id ≡ true
  IsAuthRequest (register node_id lease value signature) =
      (valid_node_id node_id ≡ true) × IsLease lease × IsArray 32 value
  IsAuthRequest (lookup node_id) = valid_node_id node_id ≡ true

  abbrev pub fields : AuthRequest Signature → List Bytes
  fields (challenge node_id) = auth_protocol_version ∷ codes "CHALLENGE" ∷ node_id ∷ []
  fields (register node_id lease value signature) =
      auth_protocol_version
      ∷ codes "REGISTER"
      ∷ node_id
      ∷ decimal (as_secs lease)
      ∷ encode_hex value
      ∷ encode_hex (keys.signature_bytes signature)
      ∷ []
  fields (lookup node_id) = auth_protocol_version ∷ codes "LOOKUP" ∷ node_id ∷ []

  pub fields-IsField : (r : AuthRequest Signature) → IsAuthRequest r → All IsField (fields r)
  unfolding field_test
  fields-IsField (challenge node_id) h =
      (version-IsField, (constant-IsField _ _ refl, (node_id-IsField node_id h, tt)))
  fields-IsField (register node_id lease value signature) h = (
    version-IsField,
    (
      constant-IsField _ _ refl,
      (
        node_id-IsField node_id h.0,
        (
          decimal-IsField _,
          (hex-IsField 31 value h.2, (hex-IsField 63 _ (laws.signature_array signature), tt)),
        ),
      ),
    ),
  )
  fields-IsField (lookup node_id) h =
      (version-IsField, (constant-IsField _ _ refl, (node_id-IsField node_id h, tt)))

  to_signature-bytes : (s : Signature) → to_signature keys (keys.signature_bytes s) ≡ ok s
  unfolding to_signature
  to_signature-bytes s = rw (laws.signature_read_back s, to_signature) refl

  request_of_fields :
      (r : AuthRequest Signature) → IsAuthRequest r → auth_request_of_fields keys (fields r) ≡ ok r
  unfolding auth_request_of_fields parse_challenge parse_auth_register parse_auth_lookup list_beq
  request_of_fields (challenge node_id) h = rw (validates node_id h) refl
  request_of_fields (register node_id lease value signature) h =
      rw
        (
          validates node_id h.0,
          lease_text lease h.1,
          decode_hex_array-encode_hex 32 value h.2,
          decode_hex_array-encode_hex 64 (keys.signature_bytes signature)
              (laws.signature_array signature),
          to_signature-bytes signature,
        )
        refl
  request_of_fields (lookup node_id) h = rw (validates node_id h) refl

  pub auth_request_text-fields :
      (r : AuthRequest Signature) → auth_request_text keys r ≡ spaced (fields r)
  unfolding auth_request_text
  auth_request_text-fields (challenge node_id) = refl
  auth_request_text-fields (register node_id lease value signature) = refl
  auth_request_text-fields (lookup node_id) = refl

  -- The authenticated server reads a request back from the text that the client sends for it, if the
  -- node ID is valid, the lease is from 1 to 300 whole seconds and the challenge has 32 bytes.
  pub parse_auth_request-auth_request_text :
      (r : AuthRequest Signature)
      → IsAuthRequest r
      → parse_auth_request keys (auth_request_text keys r) ≡ ok r
  unfolding parse_auth_request
  parse_auth_request-auth_request_text r h =
      let (valid, split) = spaced_fields (fields r) (fields-IsField r h) in
      rw (auth_request_text-fields r, valid, split) (request_of_fields r h)

-- The client takes the challenge out of the server's answer, if the node ID is valid and the
-- challenge has 32 bytes.
pub parse_challenge_response-encode_auth :
    (node_id value : Bytes)
    → valid_node_id node_id ≡ true
    → IsArray 32 value
    → parse_challenge_response (encode_auth (AuthResponse.challenge node_id value)) node_id
      ≡ ok value
unfolding parse_challenge_response challenge_of_fields encode_auth list_beq field_test
parse_challenge_response-encode_auth node_id value h k =
    let (valid, split) =
      spaced_fields (auth_protocol_version ∷ codes "CHALLENGE" ∷ node_id ∷ encode_hex value ∷ []) (
        version-IsField,
        (constant-IsField _ _ refl, (node_id-IsField node_id h, (hex-IsField 31 value k, tt))),
      ) in
    rw (split, eq_refl node_id, decode_hex_array-encode_hex 32 value k) refl
