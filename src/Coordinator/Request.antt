-- ===== src/Coordinator/Request.antt =====
-- src/coordinator.rs: the requests of both protocols, their parsers, and the texts that the clients
-- send.
use meshlet.Common.{
  ℕ, ◌&&◌, List, [], ◌∷◌, if◌then◌else◌, Bytes, ◌==◌, nat_eq, list_eq, pair_eq, Duration, as_secs,
}
use meshlet.Common.Result.{Result, ok, err, ensure, ok_or, ◌>>=◌, ◌>>◌}
use meshlet.Coordinator.NodeId.{validate_node_id, parse_lease}
use meshlet.Errors.{
  Error, request_not_utf8, unsupported_version, unexpected_request, destination_address,
  unsupported_auth_version, unexpected_auth_request, signature_encoding,
}
use meshlet.Identity.Hex.{encode_hex, decode_hex_array}
use meshlet.Identity.Keys.{Ed25519}
use meshlet.Net.Ipv4.{Ipv4Addr, display_ipv4, parse_ipv4}
use meshlet.Routing.Prefix.{Ipv4Prefix, display_prefix, parse_prefix}
use meshlet.Text.Decimal.{decimal}
use meshlet.Text.Utf8.{is_utf8}
use meshlet.Text.Words.{split_ascii_whitespace, spaced}
use meshlet.Text.{codes}

abbrev pub protocol_version : Bytes
protocol_version = codes "MESHLET/1"

abbrev pub auth_protocol_version : Bytes
auth_protocol_version = codes "MESHLET/2"

abbrev pub challenge_bytes : ℕ
challenge_bytes = 32

pub data Request : Type 0 where
  register : Bytes → Duration → Request
  lookup : Bytes → Request
  advertise_route : Bytes → Ipv4Prefix → Duration → Request
  route_lookup : Ipv4Addr → Request

pub data AuthRequest (Signature : Type 0) : Type 0 where
  challenge : Bytes → AuthRequest Signature
  register : Bytes → Duration → Bytes → Signature → AuthRequest Signature
  lookup : Bytes → AuthRequest Signature

-- The last two arms of the `match` in `parse_request`: a first field that is another version, or
-- anything else.
unfoldable pub other_request : List Bytes → Result Error Request
other_request [] = err unexpected_request
other_request (version ∷ _) =
    if version == protocol_version
    then err unexpected_request
    else err (unsupported_version version)

unfoldable pub parse_register : Bytes → Bytes → Result Error Request
parse_register node_id lease_seconds = do
  validate_node_id node_id
  lease ← parse_lease lease_seconds
  ok (Request.register node_id lease)

unfoldable pub parse_lookup : Bytes → Result Error Request
parse_lookup node_id = do validate_node_id node_id; ok (Request.lookup node_id)

unfoldable pub parse_advertise_route : Bytes → Bytes → Bytes → Result Error Request
parse_advertise_route node_id prefix lease_seconds = do
  validate_node_id node_id
  prefix' ← parse_prefix prefix
  lease ← parse_lease lease_seconds
  ok (advertise_route node_id prefix' lease)

unfoldable pub parse_route_lookup : Bytes → Result Error Request
parse_route_lookup destination = do
  destination' ← ok_or (parse_ipv4 destination) destination_address
  ok (route_lookup destination')

-- The `match` on the fields.
unfoldable pub request_of_fields : List Bytes → Result Error Request
unfolding other_request
request_of_fields (version ∷ command ∷ a ∷ []) =
    if command == codes "LOOKUP" && version == protocol_version
    then parse_lookup a
    else if command == codes "ROUTE_LOOKUP" && version == protocol_version
    then parse_route_lookup a
    else other_request (version ∷ command ∷ a ∷ [])
request_of_fields (version ∷ command ∷ a ∷ b ∷ []) =
    if command == codes "REGISTER" && version == protocol_version
    then parse_register a b
    else other_request (version ∷ command ∷ a ∷ b ∷ [])
request_of_fields (version ∷ command ∷ a ∷ b ∷ c ∷ []) =
    if command == codes "ADVERTISE_ROUTE" && version == protocol_version
    then parse_advertise_route a b c
    else other_request (version ∷ command ∷ a ∷ b ∷ c ∷ [])
request_of_fields fields = other_request fields

unfoldable pub parse_request : Bytes → Result Error Request
unfolding request_of_fields
parse_request message = do
  ensure (is_utf8 message) request_not_utf8
  request_of_fields (split_ascii_whitespace message)

-- The texts of requests: those that `lookup`, `advertise_route` and `route_lookup` send, and that of
-- `register` for a lease of whole seconds.
unfoldable pub request_text : Request → Bytes
request_text (register node_id lease) =
    spaced (protocol_version ∷ codes "REGISTER" ∷ node_id ∷ decimal (as_secs lease) ∷ [])
request_text (lookup node_id) = spaced (protocol_version ∷ codes "LOOKUP" ∷ node_id ∷ [])
request_text (advertise_route node_id prefix lease) = spaced (
    protocol_version
    ∷ codes "ADVERTISE_ROUTE"
    ∷ node_id
    ∷ display_prefix prefix
    ∷ decimal (as_secs lease)
    ∷ [])
request_text (route_lookup destination) =
    spaced (protocol_version ∷ codes "ROUTE_LOOKUP" ∷ display_ipv4 destination ∷ [])

module _ {SigningKey VerifyingKey Signature : Type 0}
    (keys : Ed25519 SigningKey VerifyingKey Signature) where
  unfoldable pub other_auth_request : List Bytes → Result Error (AuthRequest Signature)
  other_auth_request [] = err unexpected_auth_request
  other_auth_request (version ∷ _) =
      if version == auth_protocol_version
      then err unexpected_auth_request
      else err (unsupported_auth_version version)

  -- `Signature::try_from(bytes).map_err(…)`
  unfoldable pub to_signature : Bytes → Result Error Signature
  to_signature bytes = elim (keys.signature_from_bytes bytes) [
    | ok signature ↦ ok signature
    | err text ↦ err (signature_encoding text)
  ]

  unfoldable pub parse_challenge : Bytes → Result Error (AuthRequest Signature)
  parse_challenge node_id = do validate_node_id node_id; ok (AuthRequest.challenge node_id)

  unfoldable pub parse_auth_register :
      Bytes → Bytes → Bytes → Bytes → Result Error (AuthRequest Signature)
  parse_auth_register node_id lease_seconds challenge_hex signature_hex = do
    validate_node_id node_id
    lease ← parse_lease lease_seconds
    value ← decode_hex_array challenge_bytes challenge_hex
    signature_bytes ← decode_hex_array 64 signature_hex
    signature ← to_signature signature_bytes
    ok (AuthRequest.register node_id lease value signature)

  unfoldable pub parse_auth_lookup : Bytes → Result Error (AuthRequest Signature)
  parse_auth_lookup node_id = do validate_node_id node_id; ok (AuthRequest.lookup node_id)

  unfoldable pub auth_request_of_fields : List Bytes → Result Error (AuthRequest Signature)
  unfolding other_auth_request
  auth_request_of_fields (version ∷ command ∷ a ∷ []) =
      if command == codes "CHALLENGE" && version == auth_protocol_version
      then parse_challenge a
      else if command == codes "LOOKUP" && version == auth_protocol_version
      then parse_auth_lookup a
      else other_auth_request (version ∷ command ∷ a ∷ [])
  auth_request_of_fields (version ∷ command ∷ a ∷ b ∷ c ∷ d ∷ []) =
      if command == codes "REGISTER" && version == auth_protocol_version
      then parse_auth_register a b c d
      else other_auth_request (version ∷ command ∷ a ∷ b ∷ c ∷ d ∷ [])
  auth_request_of_fields fields = other_auth_request fields

  unfoldable pub parse_auth_request : Bytes → Result Error (AuthRequest Signature)
  unfolding auth_request_of_fields
  parse_auth_request message = do
    ensure (is_utf8 message) request_not_utf8
    auth_request_of_fields (split_ascii_whitespace message)

  -- The texts that `register_authenticated` and `lookup_authenticated` send.
  unfoldable pub auth_request_text : AuthRequest Signature → Bytes
  auth_request_text (challenge node_id) =
      spaced (auth_protocol_version ∷ codes "CHALLENGE" ∷ node_id ∷ [])
  auth_request_text (register node_id lease value signature) = spaced (
      auth_protocol_version
      ∷ codes "REGISTER"
      ∷ node_id
      ∷ decimal (as_secs lease)
      ∷ encode_hex value
      ∷ encode_hex (keys.signature_bytes signature)
      ∷ [])
  auth_request_text (lookup node_id) =
      spaced (auth_protocol_version ∷ codes "LOOKUP" ∷ node_id ∷ [])
