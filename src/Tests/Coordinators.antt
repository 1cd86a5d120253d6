-- ===== src/Tests/Coordinators.antt =====
-- The coordinator's theorems at short runs.
use meshlet.Common.{
  ℕ, ◌≡◌, refl, ◌↔◌, false, some, [], ◌∷◌, ◌++◌, Bytes, nat_eq, list_beq, list_eq, pair_beq,
  pair_eq,
}
use meshlet.Common.HashMap.{get, insert, remove, retain, IsMap}
use meshlet.Common.Outcome.{done}
use meshlet.Common.Result.{ok, err}
use meshlet.Coordinator.Auth.{
  PendingChallenge, AuthenticatedCoordinator, registration_signing_message, new, remove_expired,
  issue_challenge, refusal, record_registration, register_node, respond, serve,
}
use meshlet.Coordinator.Challenges.{
  Authorized, taken, register_node-registered, register_node_again,
}
use meshlet.Coordinator.Registry.{Registry, Registration}
use meshlet.Coordinator.Registry as Registries
use meshlet.Coordinator.Request.{
  parse_auth_request, parse_challenge, parse_auth_register, to_signature,
}
use meshlet.Coordinator.NodeId.{valid_node_id, validate_node_id, parse_lease}
use meshlet.Coordinator.Response.{AuthResponse}
use meshlet.Coordinator.Trace.{Event, after, IsBacked, registration-IsBacked}
use meshlet.Errors.{no_challenge}
use meshlet.Identity.Hex.{decode_hex_array, encode_hex}
use meshlet.Identity.Keys.{Authorizations}
use meshlet.Net.Socket.{SocketAddr, v4, socket_beq, socket_eq}
use meshlet.Tests.Toys.{copies, toy_keys}
use meshlet.Text.Decimal.{decimal, parse_unsigned, scan}
use meshlet.Text.Utf8.{is_utf8}
use meshlet.Text.Words.{split_ascii_whitespace}
use meshlet.Text.{codes}

abbrev node : Bytes
node = codes "mesh-a"

abbrev address : SocketAddr
address = v4 1 40000

abbrev authorized : Authorizations ℕ
authorized = (node, 11) ∷ []

abbrev zeros : Bytes
zeros = copies 32 0

abbrev asks : Event
asks = record {
  datagram = codes "MESHLET/2 CHALLENGE mesh-a";
  source = address;
  time = 5;
  random = ok zeros;
}

abbrev registers : Event
registers = record {
  datagram = codes "MESHLET/2 REGISTER mesh-a 30 " ++ (copies 64 48 ++ (32 ∷ copies 128 48));
  source = address;
  time = 6;
  random = err [];
}

abbrev pending : PendingChallenge
pending = record { value = zeros; expires_at = 10_000_000_005 }

abbrev registration : Registration
registration = record { observed_endpoint = address; expires_at = 30_000_000_006 }

abbrev challenged : AuthenticatedCoordinator ℕ
challenged = record {
  registry = record { registrations = []; routes = [] };
  authorizations = authorized;
  challenges = ((node, address), pending) ∷ [];
}

abbrev holding : AuthenticatedCoordinator ℕ
holding = record {
  registry = record { registrations = (node, registration) ∷ []; routes = [] };
  authorizations = authorized;
  challenges = [];
}

challenge_run : after toy_keys authorized (asks ∷ []) ≡ done challenged
unfolding after serve respond new Registries.new parse_auth_request is_utf8 split_ascii_whitespace
    list_beq parse_challenge validate_node_id valid_node_id issue_challenge get remove_expired
    Registries.remove_expired insert retain
challenge_run = refl

register_run : after toy_keys authorized (registers ∷ asks ∷ []) ≡ done holding
unfolding after serve respond new Registries.new parse_auth_request is_utf8 split_ascii_whitespace
    list_beq parse_challenge validate_node_id valid_node_id issue_challenge get remove_expired
    Registries.remove_expired insert retain register_node refusal record_registration remove
    socket_beq parse_auth_register parse_lease parse_unsigned scan decode_hex_array to_signature
    registration_signing_message encode_hex decimal pair_beq
register_run = refl

has_registration : get node holding.registry.registrations ≡ some registration
unfolding get list_beq
has_registration = refl

registration-IsBacked_example :
    IsBacked toy_keys authorized node registration.observed_endpoint (registers ∷ asks ∷ [])
registration-IsBacked_example =
    registration-IsBacked toy_keys authorized (registers ∷ asks ∷ []) node registration register_run
      has_registration

challenged_IsMap : IsMap challenged.challenges
unfolding get
challenged_IsMap = (refl, tt)

abbrev granted : AuthResponse × AuthenticatedCoordinator ℕ
granted = (AuthResponse.registered node address 30_000_000_000, holding)

grant_run :
    register_node toy_keys challenged node 30_000_000_000 zeros false address 6 ≡ done granted
unfolding register_node refusal record_registration remove socket_beq get retain remove_expired
    Registries.remove_expired insert list_beq registration_signing_message encode_hex decimal
    pair_beq
grant_run = refl

register_node-registered_example :
    (granted.0 ≡ AuthResponse.registered node address 30_000_000_000)
    ↔ Authorized toy_keys challenged node 30_000_000_000 zeros false address 6
register_node-registered_example =
    register_node-registered toy_keys challenged node 30_000_000_000 zeros false address 6
      challenged_IsMap grant_run

register_node_again_example :
    register_node toy_keys granted.1 node 30_000_000_000 zeros false address 7
    ≡ done (AuthResponse.error no_challenge, taken toy_keys granted.1 node address 7)
register_node_again_example =
    register_node_again toy_keys challenged node 30_000_000_000 30_000_000_000 zeros zeros false
      false address 6 7 challenged_IsMap grant_run
