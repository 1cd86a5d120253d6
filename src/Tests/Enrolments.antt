-- ===== src/Tests/Enrolments.antt =====
-- The theorems on the coordinator's clients, servers and signed messages at concrete inputs.
use meshlet.Common.{
  ℕ, ◌≡◌, refl, true, eqb, some, List, [], ◌∷◌, arith, Bytes, nat_eq, list_beq, list_eq, pair_eq,
  from_secs,
}
use meshlet.Common.HashMap.{get}
use meshlet.Common.Outcome.{done}
use meshlet.Common.Result.{ok, err}
use meshlet.Coordinator.Auth.{AuthenticatedCoordinator}
use meshlet.Coordinator.Client.{
  register, lookup, converse_open, register_authenticated, lookup_authenticated, converse,
}
use meshlet.Coordinator.Enrolment.{register_authenticated_enrols}
use meshlet.Coordinator.NodeId.{valid_node_id}
use meshlet.Coordinator.NoPanic.{Answers, run_server-Answers, run_authenticated_server-Answers}
use meshlet.Coordinator.Registry.{Registry, Received, run_server}
use meshlet.Coordinator.Response.{Response, encode, AuthResponse, encode_auth}
use meshlet.Coordinator.OpenClients.{register-lookup}
use meshlet.Coordinator.Signed.{registration_signing_message-injective}
use meshlet.Coordinator.Trace.{Event}
use meshlet.Coordinator.AuthServer.{run_authenticated_server}
use meshlet.Net.Calls.{Calls, succeed, reliable}
use meshlet.Identity.Keys.{Authorizations, Identity}
use meshlet.Net.Socket.{SocketAddr, v4}
use meshlet.Tests.Toys.{copies, toy_keys, toy_keys-Ed25519Laws, toy_exchange-ExchangeLaws}
use meshlet.Text.{codes}

abbrev node : Bytes
node = codes "mesh-a"

abbrev address : SocketAddr
address = v4 1 40000

abbrev identity : Identity ℕ
identity = record { node_id = node; signing_key = 11 }

abbrev authorized : Authorizations ℕ
authorized = (node, 11) ∷ []

abbrev started : AuthenticatedCoordinator ℕ
started = record {
  registry = record { registrations = []; routes = [] };
  authorizations = authorized;
  challenges = [];
}

node_valid : valid_node_id node ≡ true
unfolding valid_node_id
node_valid = refl

has_key : get node authorized ≡ some 11
unfolding get list_beq
has_key = refl

register_authenticated_enrols_example :
    (c' c'' : AuthenticatedCoordinator ℕ) × (converse toy_keys started address
        ((5, ok (copies 32 9)) ∷ (7, err []) ∷ [])
        (register_authenticated toy_keys node 30 (ok identity))
      ≡ done (ok (encode_auth (AuthResponse.registered node address (from_secs 30))), c'))
    × (converse toy_keys c'
          (v4 2 50000)
          ((20_000_000_000, err []) ∷ [])
          (lookup_authenticated toy_keys node)
        ≡ done (ok (encode_auth (AuthResponse.found node address)), c''))
register_authenticated_enrols_example =
    register_authenticated_enrols toy_keys toy_keys-Ed25519Laws started identity address 30
      (copies 32 9) 5 (7, err []) (tt, tt) has_key node_valid (omega arith, omega arith)
      (omega arith, omega arith) (toy_exchange-ExchangeLaws.public_array 9) (omega arith)
      (omega arith, omega arith) (v4 2 50000) (20_000_000_000, err []) (omega arith)

abbrev empty : Registry
empty = record { registrations = []; routes = [] }

register-lookup_example :
    (g' g'' : Registry) × (converse_open empty address (5 ∷ []) (register node 30)
      ≡ done (ok (encode (Response.registered node address (from_secs 30))), g'))
    × (converse_open g' (v4 2 50000) (20_000_000_000 ∷ []) (lookup node)
        ≡ done (ok (encode (Response.found node address)), g''))
register-lookup_example =
    register-lookup empty node 30 address (v4 2 50000) 5 20_000_000_000 tt node_valid (omega arith)
      (omega arith) (omega arith, omega arith) (omega arith) (omega arith)

abbrev arrivals : List Received
arrivals =
    record { datagram = codes "MESHLET/1 REGISTER mesh-a 30"; source = address; time = 5 }
    ∷ record { datagram = 255 ∷ []; source = address; time = 6 }
    ∷ []

-- The answer to the second datagram cannot be sent.
abbrev second_fails : Calls
second_fails = record { receives = λ _. true; sends = λ round. eqb round 0 }

run_server-Answers_example :
    Answers
      (succeed second_fails 0 2)
      (address ∷ address ∷ [])
      (run_server second_fails 0 empty arrivals)
run_server-Answers_example =
    run_server-Answers second_fails 0 empty arrivals (omega arith, (omega arith, tt))

abbrev events : List Event
events =
    record {
      datagram = codes "MESHLET/2 CHALLENGE mesh-a";
      source = address;
      time = 5;
      random = ok (copies 32 9);
    }
    ∷ []

run_authenticated_server-Answers_example :
    Answers true (address ∷ []) (run_authenticated_server toy_keys reliable authorized events)
run_authenticated_server-Answers_example =
    run_authenticated_server-Answers toy_keys toy_keys-Ed25519Laws reliable authorized events
      (omega arith, tt)

registration_signing_message-injective_example :
    (node ≡ node) × (from_secs 30 ≡ from_secs 30) × (copies 32 9 ≡ copies 32 9)
registration_signing_message-injective_example =
    registration_signing_message-injective node node (from_secs 30) (from_secs 30) (copies 32 9)
      (copies 32 9) node_valid node_valid (30, refl, omega arith, omega arith)
      (30, refl, omega arith, omega arith) (toy_exchange-ExchangeLaws.public_array 9)
      (toy_exchange-ExchangeLaws.public_array 9) refl
