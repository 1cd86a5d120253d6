-- ===== src/Handshake/HelloTrip.antt =====
-- src/handshake.rs: each side reads the hello of the other back from its text.
use meshlet.Common.{
  ℕ, suc, ◌≡◌, refl, true, List, [], ◌∷◌, arith, Bytes, All, All-imp, eq_refl, nat_eq, list_eq,
  pair_eq,
}
use meshlet.Common.Result.{ok}
use meshlet.Coordinator.NodeId.{valid_node_id}
use meshlet.Coordinator.RoundTrip.{node_id-IsField}
use meshlet.Handshake.Hello.{
  ClientHello, ServerHello, protocol_version, require_version, validate_node_id, require_ids,
  decode_array, parse_signature, encode_client_hello, client_hello_of_fields, parse_client_hello,
  encode_server_hello, server_hello_of_fields, parse_server_hello,
}
use meshlet.Identity.Hex.{
  IsArray, encode_hex, encode_hex-All, encode_hex-IsWord, is_hex_digit, decode_hex_array-encode_hex,
}
use meshlet.Identity.Keys.{Ed25519, Ed25519Laws}
use meshlet.Text.Fields.{IsField, is_plain, field_test, constant-IsField, spaced_fields}
use meshlet.Text.{codes}

pub hex-IsField : (n : ℕ) (bytes : Bytes) → IsArray (suc n) bytes → IsField (encode_hex bytes)
hex-IsField n bytes h = (
  (encode_hex-IsWord n bytes h).0,
  All-imp (λ c. is_hex_digit c ≡ true) (λ c. is_plain c ≡ true) (λ c k. ground arith)
      (encode_hex bytes) (encode_hex-All bytes h.1),
)

version-IsField : IsField protocol_version
unfolding field_test
version-IsField = constant-IsField _ _ refl

decode_array-encode_hex :
    (n : ℕ) (bytes : Bytes) → IsArray n bytes → decode_array n (encode_hex bytes) ≡ ok bytes
unfolding decode_array
decode_array-encode_hex n bytes h = rw (decode_hex_array-encode_hex n bytes h, decode_array) refl

require_ids-ok :
    (i r : Bytes)
    → valid_node_id i ≡ true
    → valid_node_id r ≡ true
    → require_ids protocol_version i r ≡ ok tt
unfolding require_ids require_version validate_node_id
require_ids-ok i r h k = rw (eq_refl protocol_version, h, k) refl

module _ {SigningKey VerifyingKey Signature : Type 0}
    (keys : Ed25519 SigningKey VerifyingKey Signature) where
  abbrev pub IsClientHello : ClientHello Signature → Type 0
  IsClientHello hello =
      (valid_node_id hello.initiator_id ≡ true)
      × (valid_node_id hello.responder_id ≡ true)
      × IsArray 32 hello.exchange_public

  abbrev pub IsServerHello : ServerHello Signature → Type 0
  IsServerHello hello =
      (valid_node_id hello.initiator_id ≡ true)
      × (valid_node_id hello.responder_id ≡ true)
      × IsArray 32 hello.client_exchange_public
      × IsArray 32 hello.server_exchange_public

  module _ (laws : Ed25519Laws keys) where
    signature-IsField : (s : Signature) → IsField (encode_hex (keys.signature_bytes s))
    signature-IsField s = hex-IsField 63 (keys.signature_bytes s) (laws.signature_array s)

    parse_signature-encode :
        (s : Signature) → parse_signature keys (encode_hex (keys.signature_bytes s)) ≡ ok s
    unfolding parse_signature
    parse_signature-encode s =
        rw
          (
            decode_array-encode_hex 64 (keys.signature_bytes s) (laws.signature_array s),
            laws.signature_read_back s,
          )
          refl

    abbrev pub client_fields : ClientHello Signature → List Bytes
    client_fields hello =
        protocol_version
        ∷ codes "CLIENT_HELLO"
        ∷ hello.initiator_id
        ∷ hello.responder_id
        ∷ encode_hex hello.exchange_public
        ∷ encode_hex (keys.signature_bytes hello.signature)
        ∷ []

    abbrev pub server_fields : ServerHello Signature → List Bytes
    server_fields hello =
        protocol_version
        ∷ codes "SERVER_HELLO"
        ∷ hello.initiator_id
        ∷ hello.responder_id
        ∷ encode_hex hello.client_exchange_public
        ∷ encode_hex hello.server_exchange_public
        ∷ encode_hex (keys.signature_bytes hello.signature)
        ∷ []

    pub client_fields-IsField :
        (hello : ClientHello Signature) → IsClientHello hello → All IsField (client_fields hello)
    unfolding field_test
    client_fields-IsField hello (i, r, public) = (
      version-IsField,
      (
        constant-IsField _ _ refl,
        (
          node_id-IsField _ i,
          (node_id-IsField _ r, (hex-IsField 31 _ public, (signature-IsField hello.signature, tt))),
        ),
      ),
    )

    pub server_fields-IsField :
        (hello : ServerHello Signature) → IsServerHello hello → All IsField (server_fields hello)
    unfolding field_test
    server_fields-IsField hello (i, r, client, server) = (
      version-IsField,
      (
        constant-IsField _ _ refl,
        (
          node_id-IsField _ i,
          (
            node_id-IsField _ r,
            (
              hex-IsField 31 _ client,
              (hex-IsField 31 _ server, (signature-IsField hello.signature, tt)),
            ),
          ),
        ),
      ),
    )

    -- The server reads a client hello back from the text of it, if its node IDs are valid and its
    -- exchange key has 32 bytes.
    pub parse_client_hello-encode_client_hello :
        (hello : ClientHello Signature)
        → IsClientHello hello
        → parse_client_hello keys (encode_client_hello keys hello) ≡ ok hello
    unfolding parse_client_hello encode_client_hello client_hello_of_fields
    parse_client_hello-encode_client_hello hello (i, r, public) =
        let (valid, split) =
          spaced_fields (client_fields hello) (client_fields-IsField hello (i, r, public)) in
        rw
          (
            split,
            eq_refl (codes "CLIENT_HELLO"),
            require_ids-ok hello.initiator_id hello.responder_id i r,
            decode_array-encode_hex 32 hello.exchange_public public,
            parse_signature-encode hello.signature,
          )
          refl

    -- The client reads a server hello back from the text of it, if its node IDs are valid and its
    -- exchange keys have 32 bytes.
    pub parse_server_hello-encode_server_hello :
        (hello : ServerHello Signature)
        → IsServerHello hello
        → parse_server_hello keys (encode_server_hello keys hello) ≡ ok hello
    unfolding parse_server_hello encode_server_hello server_hello_of_fields
    parse_server_hello-encode_server_hello hello (i, r, client, server) =
        let (valid, split) =
          spaced_fields (server_fields hello)
            (server_fields-IsField hello (i, r, client, server)) in
        rw
          (
            split,
            eq_refl (codes "SERVER_HELLO"),
            require_ids-ok hello.initiator_id hello.responder_id i r,
            decode_array-encode_hex 32 hello.client_exchange_public client,
            decode_array-encode_hex 32 hello.server_exchange_public server,
            parse_signature-encode hello.signature,
          )
          refl
