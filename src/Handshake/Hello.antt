-- ===== src/Handshake/Hello.antt =====
-- src/handshake.rs: the two hello messages and their texts. A message is the UTF-8 text that the
-- receive functions hand on.
use meshlet.Common.{ℕ, List, [], ◌∷◌, Bytes, ◌==◌, nat_eq, list_eq, pair_eq}
use meshlet.Common.Result.{Result, ok, err, ensure, ◌>>=◌, ◌>>◌}
use meshlet.Coordinator.NodeId.{valid_node_id}
use meshlet.Errors.{Error}
use meshlet.Identity.Hex.{encode_hex, decode_hex_array}
use meshlet.Identity.Keys.{Ed25519}
use meshlet.Text.Words.{split_ascii_whitespace, spaced}
use meshlet.Text.{codes}

abbrev pub protocol_version : Bytes
protocol_version = codes "MESHLET/3"

abbrev pub exchange_key_bytes : ℕ
exchange_key_bytes = 32

abbrev pub signature_length : ℕ
signature_length = 64

pub record ClientHello (Signature : Type 0) : Type 0 where
  pub initiator_id : Bytes
  pub responder_id : Bytes
  pub exchange_public : Bytes
  pub signature : Signature

pub record ServerHello (Signature : Type 0) : Type 0 where
  pub initiator_id : Bytes
  pub responder_id : Bytes
  pub client_exchange_public : Bytes
  pub server_exchange_public : Bytes
  pub signature : Signature

-- The errors of the module, which are texts there.
pub data HandshakeError : Type 0 where
  client_form server_form node_id_grammar : HandshakeError
  unsupported_version : Bytes → HandshakeError
  not_hex : Error → HandshakeError
  signature_encoding : Bytes → HandshakeError
  wrong_target : Bytes → Bytes → HandshakeError
  not_echoed unsafe_secret client_key_failed server_key_failed : HandshakeError
  no_key bad_signature : Bytes → HandshakeError

unfoldable pub require_version : Bytes → Result HandshakeError (Unit {0})
require_version version = ensure (version == protocol_version) (unsupported_version version)

unfoldable pub validate_node_id : Bytes → Result HandshakeError (Unit {0})
validate_node_id node_id = ensure (valid_node_id node_id) node_id_grammar

-- `decode_hex_array(…)?`
unfoldable pub decode_array : ℕ → Bytes → Result HandshakeError Bytes
decode_array n encoded = elim (decode_hex_array n encoded) [ ok b ↦ ok b | err e ↦ err (not_hex e) ]

unfoldable pub require_ids : Bytes → Bytes → Bytes → Result HandshakeError (Unit {0})
require_ids version initiator_id responder_id = do
  require_version version
  validate_node_id initiator_id
  validate_node_id responder_id

module _ {SigningKey VerifyingKey Signature : Type 0}
    (keys : Ed25519 SigningKey VerifyingKey Signature) where
  unfoldable pub parse_signature : Bytes → Result HandshakeError Signature
  parse_signature encoded = do
    bytes ← decode_array signature_length encoded
    elim (keys.signature_from_bytes bytes) [
      | ok signature ↦ ok signature
      | err text ↦ err (signature_encoding text)
    ]

  unfoldable pub encode_client_hello : ClientHello Signature → Bytes
  encode_client_hello hello = spaced (
      protocol_version
      ∷ codes "CLIENT_HELLO"
      ∷ hello.initiator_id
      ∷ hello.responder_id
      ∷ encode_hex hello.exchange_public
      ∷ encode_hex (keys.signature_bytes hello.signature)
      ∷ [])

  unfoldable pub client_hello_of_fields : List Bytes → Result HandshakeError (ClientHello Signature)
  client_hello_of_fields (version ∷ command ∷ i ∷ r ∷ public ∷ signature ∷ []) = do
    ensure (command == codes "CLIENT_HELLO") client_form
    require_ids version i r
    exchange_public ← decode_array exchange_key_bytes public
    signature ← parse_signature signature
    ok (record {
      initiator_id = i;
      responder_id = r;
      exchange_public = exchange_public;
      signature = signature;
    })
  client_hello_of_fields _ = err client_form

  unfoldable pub parse_client_hello : Bytes → Result HandshakeError (ClientHello Signature)
  unfolding client_hello_of_fields
  parse_client_hello message = client_hello_of_fields (split_ascii_whitespace message)

  unfoldable pub encode_server_hello : ServerHello Signature → Bytes
  encode_server_hello hello = spaced (
      protocol_version
      ∷ codes "SERVER_HELLO"
      ∷ hello.initiator_id
      ∷ hello.responder_id
      ∷ encode_hex hello.client_exchange_public
      ∷ encode_hex hello.server_exchange_public
      ∷ encode_hex (keys.signature_bytes hello.signature)
      ∷ [])

  unfoldable pub server_hello_of_fields : List Bytes → Result HandshakeError (ServerHello Signature)
  server_hello_of_fields (version ∷ command ∷ i ∷ r ∷ client ∷ server ∷ signature ∷ []) = do
    ensure (command == codes "SERVER_HELLO") server_form
    require_ids version i r
    client_public ← decode_array exchange_key_bytes client
    server_public ← decode_array exchange_key_bytes server
    signature ← parse_signature signature
    ok (record {
      initiator_id = i;
      responder_id = r;
      client_exchange_public = client_public;
      server_exchange_public = server_public;
      signature = signature;
    })
  server_hello_of_fields _ = err server_form

  unfoldable pub parse_server_hello : Bytes → Result HandshakeError (ServerHello Signature)
  unfolding server_hello_of_fields
  parse_server_hello message = server_hello_of_fields (split_ascii_whitespace message)
