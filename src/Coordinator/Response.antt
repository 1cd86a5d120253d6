-- ===== src/Coordinator/Response.antt =====
-- src/coordinator.rs: the responses of both protocols and their texts, and the client's reading of a
-- challenge.
use meshlet.Common.{List, [], ◌∷◌, Bytes, ◌==◌, nat_eq, list_eq, pair_eq, Duration, as_secs}
use meshlet.Common.Result.{Result, err, ensure, ◌>>◌}
use meshlet.Coordinator.Request.{protocol_version, auth_protocol_version, challenge_bytes}
use meshlet.Errors.{Error, message, challenge_response_form, response_version, response_node}
use meshlet.Identity.Hex.{encode_hex, decode_hex_array}
use meshlet.Net.Ipv4.{Ipv4Addr, display_ipv4}
use meshlet.Net.Socket.{SocketAddr, display_socket}
use meshlet.Routing.Prefix.{Ipv4Prefix, display_prefix}
use meshlet.Text.Decimal.{decimal}
use meshlet.Text.Words.{split_ascii_whitespace, spaced}
use meshlet.Text.{codes}

pub data Response : Type 0 where
  registered : Bytes → SocketAddr → Duration → Response
  found : Bytes → SocketAddr → Response
  not_found : Bytes → Response
  route_advertised : Bytes → Ipv4Prefix → Duration → Response
  route_found : Ipv4Addr → Ipv4Prefix → Bytes → Response
  route_not_found : Ipv4Addr → Response
  error : Error → Response

pub data AuthResponse : Type 0 where
  challenge : Bytes → Bytes → AuthResponse
  registered : Bytes → SocketAddr → Duration → AuthResponse
  found : Bytes → SocketAddr → AuthResponse
  not_found : Bytes → AuthResponse
  error : Error → AuthResponse

unfoldable pub encode : Response → Bytes
encode (registered node_id endpoint lease) = spaced (
    protocol_version
    ∷ codes "REGISTERED"
    ∷ node_id
    ∷ display_socket endpoint
    ∷ decimal (as_secs lease)
    ∷ [])
encode (found node_id endpoint) =
    spaced (protocol_version ∷ codes "FOUND" ∷ node_id ∷ display_socket endpoint ∷ [])
encode (not_found node_id) = spaced (protocol_version ∷ codes "NOT_FOUND" ∷ node_id ∷ [])
encode (route_advertised node_id prefix lease) = spaced (
    protocol_version
    ∷ codes "ROUTE_ADVERTISED"
    ∷ node_id
    ∷ display_prefix prefix
    ∷ decimal (as_secs lease)
    ∷ [])
encode (route_found destination prefix node_id) = spaced (
    protocol_version
    ∷ codes "ROUTE_FOUND"
    ∷ display_ipv4 destination
    ∷ display_prefix prefix
    ∷ node_id
    ∷ [])
encode (route_not_found destination) =
    spaced (protocol_version ∷ codes "ROUTE_NOT_FOUND" ∷ display_ipv4 destination ∷ [])
encode (error e) = spaced (protocol_version ∷ codes "ERROR" ∷ message e ∷ [])

unfoldable pub encode_auth : AuthResponse → Bytes
encode_auth (challenge node_id value) =
    spaced (auth_protocol_version ∷ codes "CHALLENGE" ∷ node_id ∷ encode_hex value ∷ [])
encode_auth (registered node_id endpoint lease) = spaced (
    auth_protocol_version
    ∷ codes "REGISTERED"
    ∷ node_id
    ∷ display_socket endpoint
    ∷ decimal (as_secs lease)
    ∷ [])
encode_auth (found node_id endpoint) =
    spaced (auth_protocol_version ∷ codes "FOUND" ∷ node_id ∷ display_socket endpoint ∷ [])
encode_auth (not_found node_id) = spaced (auth_protocol_version ∷ codes "NOT_FOUND" ∷ node_id ∷ [])
encode_auth (error e) = spaced (auth_protocol_version ∷ codes "ERROR" ∷ message e ∷ [])

-- The `let … else` on the fields, and the checks behind it.
unfoldable pub challenge_of_fields : List Bytes → Bytes → Result Error Bytes
challenge_of_fields (version ∷ command ∷ node_id ∷ challenge_hex ∷ []) expected_node_id = do
  ensure (command == codes "CHALLENGE") challenge_response_form
  ensure (version == auth_protocol_version) (response_version version)
  ensure (node_id == expected_node_id) (response_node node_id expected_node_id)
  decode_hex_array challenge_bytes challenge_hex
challenge_of_fields _ expected_node_id = err challenge_response_form

unfoldable pub parse_challenge_response : Bytes → Bytes → Result Error Bytes
unfolding challenge_of_fields
parse_challenge_response response expected_node_id =
    challenge_of_fields (split_ascii_whitespace response) expected_node_id
