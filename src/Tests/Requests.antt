-- ===== src/Tests/Requests.antt =====
-- The theorems on the coordinator's texts and on the registry's lookups at concrete requests.
use meshlet.Common.{
  ◌≡◌, refl, Bool, true, List, [], ◌∷◌, arith, Bytes, nat_eq, list_beq, list_eq, pair_eq,
}
use meshlet.Common.HashMap.{insert, retain}
use meshlet.Common.Outcome.{done}
use meshlet.Common.Result.{ok}
use meshlet.Coordinator.AuthRoundTrip.{parse_auth_request-auth_request_text}
use meshlet.Coordinator.Leases.{Event, after, lookup_answer, handle-lookup}
use meshlet.Coordinator.NodeId.{valid_node_id, validate_node_id, parse_lease}
use meshlet.Coordinator.Registry.{Registry, new, remove_expired, handle_live, handle}
use meshlet.Coordinator.Request.{
  Request, AuthRequest, register, lookup, parse_request, parse_register, request_text,
  parse_auth_request, auth_request_text,
}
use meshlet.Coordinator.RoundTrip.{IsWellFormed, parse_request-request_text}
use meshlet.Coordinator.Sound.{parse_request-IsWellFormed}
use meshlet.Identity.Hex.{decode_hex_array, decode_pairs, decode_nibble}
use meshlet.Net.Socket.{SocketAddr, v4}
use meshlet.Tests.Toys.{toy_keys, toy_keys-Ed25519Laws, toy_exchange-ExchangeLaws, copies}
use meshlet.Text.Decimal.{parse_unsigned, scan}
use meshlet.Text.Utf8.{is_utf8}
use meshlet.Text.Words.{split_ascii_whitespace}
use meshlet.Text.{codes}

abbrev node : Bytes
node = codes "mesh-a"

abbrev request : Request
request = register node 30_000_000_000

node_valid : valid_node_id node ≡ true
unfolding valid_node_id
node_valid = refl

parse_request_run : parse_request (codes "MESHLET/1 REGISTER mesh-a 30\n") ≡ ok request
unfolding parse_request is_utf8 split_ascii_whitespace list_beq parse_register validate_node_id
    valid_node_id parse_lease parse_unsigned scan
parse_request_run = refl

parse_request-IsWellFormed_example : IsWellFormed request
parse_request-IsWellFormed_example =
    parse_request-IsWellFormed (codes "MESHLET/1 REGISTER mesh-a 30\n") request parse_request_run

parse_request-request_text_example : parse_request (request_text request) ≡ ok request
parse_request-request_text_example =
    parse_request-request_text request (node_valid, (30, refl, omega arith, omega arith))

abbrev address : SocketAddr
address = v4 1 40000

abbrev history : List Event
history = record { request = request; source = address; time = 5 } ∷ []

abbrev registry : Registry
registry = record {
  registrations = (node, record { observed_endpoint = address; expires_at = 30_000_000_005 }) ∷ [];
  routes = [];
}

after_run : after history ≡ done registry
unfolding after handle handle_live new remove_expired insert retain
after_run = refl

handle-lookup_example :
    handle registry (lookup node) (v4 2 50000) 30_000_000_004
    ≡ done (lookup_answer node history 30_000_000_004, remove_expired registry 30_000_000_004)
handle-lookup_example =
    handle-lookup history node (v4 2 50000) 30_000_000_004 (omega arith, tt) (omega arith) after_run

abbrev key : Bytes
key = 0 ∷ 171 ∷ 255 ∷ []

decode_hex_run : decode_hex_array 3 (codes "00abff") ≡ ok key
unfolding decode_hex_array decode_pairs decode_nibble
decode_hex_run = refl

abbrev auth_request : AuthRequest Bool
auth_request = AuthRequest.register node 30_000_000_000 (copies 32 9) true

parse_auth_request_example :
    parse_auth_request toy_keys (auth_request_text toy_keys auth_request) ≡ ok auth_request
parse_auth_request_example =
    parse_auth_request-auth_request_text toy_keys toy_keys-Ed25519Laws auth_request
      (node_valid, (30, refl, omega arith, omega arith), toy_exchange-ExchangeLaws.public_array 9)
