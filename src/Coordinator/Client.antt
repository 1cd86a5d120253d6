-- ===== src/Coordinator/Client.antt =====
-- src/coordinator.rs: the clients, as dialogues: what a client sends, and how it goes on with what it
-- receives. Binding a socket, a send that fails, and printing are left out; the identity file's contents as
-- `load_identity` reads them are an argument.
use meshlet.Common.{
  ℕ, Bool, true, false, Option, none, some, List, [], ◌∷◌, Bytes, take, ◌==◌, nat_eq, list_eq,
  pair_eq, Instant, Duration,
}
use meshlet.Common.Outcome.{Outcome, done, panic}
use meshlet.Common.Result.{Result, ok, err}
use meshlet.Coordinator.Auth.{AuthenticatedCoordinator, registration_signing_message, serve}
use meshlet.Coordinator.NodeId.{validate_node_id, parse_lease}
use meshlet.Coordinator.Registry.{Registry, max_datagram_bytes, serve as serve_open}
use meshlet.Coordinator.Request.{
  Request, AuthRequest, auth_request_text, request_text, protocol_version,
}
use meshlet.Coordinator.Response.{parse_challenge_response}
use meshlet.Errors.{Error}
use meshlet.Identity.Files.{IdentityError}
use meshlet.Identity.Keys.{Ed25519, Identity, sign}
use meshlet.Net.Ipv4.{parse_ipv4}
use meshlet.Net.Socket.{SocketAddr}
use meshlet.Routing.Prefix.{parse_prefix}
use meshlet.Text.Decimal.{decimal}
use meshlet.Text.Words.{spaced}
use meshlet.Text.{codes}
use meshlet.Text.Utf8.{is_utf8}

-- The panics of the clients.
pub data ClientError : Type 0 where
  no_response response_not_utf8 destination_form : ClientError
  other_identity : Bytes → Bytes → ClientError
  identity_file : IdentityError → ClientError
  invalid_node_id invalid_lease invalid_prefix invalid_challenge : Error → ClientError

-- A datagram that comes too late is none.
pub data Dialogue (A : Type 0) : Type 0 where
  send : Bytes → (Option Bytes → Dialogue A) → Dialogue A
  ended : A → Dialogue A
  failed : ClientError → Dialogue A

infixl 5 ◌>>=◌ ◌>>◌
abbrev pub ◌>>=◌ : {A B : Type 0} → Dialogue A → (A → Dialogue B) → Dialogue B
send text next >>= f = send text (λ received. next received >>= f)
ended a >>= f = f a
failed e >>= f = failed e

abbrev pub ◌>>◌ : {B : Type 0} → Dialogue (Unit {0}) → Dialogue B → Dialogue B
m >> k = m >>= λ _. k

-- `unwrap_or_else(|error| panic!(…))`
abbrev pub or_fail : {E A : Type 0} → (E → ClientError) → Result E A → Dialogue A
or_fail f (ok a) = ended a
or_fail f (err e) = failed (f e)

abbrev pub or_end : {A : Type 0} → ClientError → Option A → Dialogue A
or_end e none = failed e
or_end e (some a) = ended a

abbrev pub must : Bool → ClientError → Dialogue (Unit {0})
must true e = ended tt
must false e = failed e

-- What the socket gives, before it is cut to the buffer.
unfoldable pub receive_connected : Option Bytes → Dialogue Bytes
receive_connected received = do
  datagram ← or_end no_response received
  let response = take max_datagram_bytes datagram
  must (is_utf8 response) response_not_utf8
  ended response

-- The response is printed.
unfoldable pub exchange : Bytes → Dialogue Bytes
unfolding receive_connected
exchange request = send request receive_connected

unfoldable pub register : Bytes → ℕ → Dialogue Bytes
register node_id lease_seconds =
    exchange (spaced (protocol_version ∷ codes "REGISTER" ∷ node_id ∷ decimal lease_seconds ∷ []))

unfoldable pub lookup : Bytes → Dialogue Bytes
lookup node_id = exchange (request_text (Request.lookup node_id))

unfoldable pub advertise_route : Bytes → Bytes → ℕ → Dialogue Bytes
advertise_route node_id prefix lease_seconds = do
  or_fail invalid_node_id (validate_node_id node_id)
  prefix' ← or_fail invalid_prefix (parse_prefix prefix)
  lease ← or_fail invalid_lease (parse_lease (decimal lease_seconds))
  exchange (request_text (Request.advertise_route node_id prefix' lease))

unfoldable pub route_lookup : Bytes → Dialogue Bytes
route_lookup destination = do
  destination' ← or_end destination_form (parse_ipv4 destination)
  exchange (request_text (Request.route_lookup destination'))

-- A client at an address talks to the unauthenticated server, for as many datagrams as there are times.
-- With none left, it waits in vain.
unfoldable pub converse_open :
    {A : Type 0}
    → Registry
    → SocketAddr
    → List Instant
    → Dialogue A
    → Outcome (Result ClientError A × Registry)
converse_open g source times (ended a) = done (ok a, g)
converse_open g source times (failed e) = done (err e, g)
converse_open g source [] (send text next) = converse_open g source [] (next none)
converse_open g source (now ∷ times) (send text next) = elim (serve_open g text source now) [
  | done (answer, g') ↦ converse_open g' source times (next (some answer))
  | panic w ↦ panic w
]

module _ {SigningKey VerifyingKey Signature : Type 0}
    (keys : Ed25519 SigningKey VerifyingKey Signature) where
  -- The steps behind the answer to the challenge request.
  unfoldable pub answer_challenge : Identity SigningKey → Bytes → Duration → Bytes → Dialogue Bytes
  answer_challenge identity node_id lease challenge_response = do
    value ← or_fail invalid_challenge (parse_challenge_response challenge_response node_id)
    let signature = sign keys identity (registration_signing_message node_id lease value)
    send (auth_request_text keys (AuthRequest.register node_id lease value signature))
        receive_connected

  unfoldable pub register_authenticated :
      Bytes → ℕ → Result IdentityError (Identity SigningKey) → Dialogue Bytes
  unfolding answer_challenge receive_connected
  register_authenticated node_id lease_seconds loaded = do
    identity ← or_fail identity_file loaded
    must (identity.node_id == node_id) (other_identity identity.node_id node_id)
    lease ← or_fail invalid_lease (parse_lease (decimal lease_seconds))
    challenge_response ←
        send (auth_request_text keys (AuthRequest.challenge node_id)) receive_connected
    answer_challenge identity node_id lease challenge_response

  unfoldable pub lookup_authenticated : Bytes → Dialogue Bytes
  unfolding exchange
  lookup_authenticated node_id = exchange (auth_request_text keys (AuthRequest.lookup node_id))

  -- What the loop of `run_authenticated_server` reads for one datagram: the clock, and random bytes.
  abbrev pub Round : Type 0
  Round = Instant × Result Bytes Bytes

  -- A client at an address talks to the server, for as many datagrams as there are rounds. With none
  -- left, it waits in vain.
  unfoldable pub converse :
      {A : Type 0}
      → AuthenticatedCoordinator VerifyingKey
      → SocketAddr
      → List Round
      → Dialogue A
      → Outcome (Result ClientError A × AuthenticatedCoordinator VerifyingKey)
  converse c source rounds (ended a) = done (ok a, c)
  converse c source rounds (failed e) = done (err e, c)
  converse c source [] (send text next) = converse c source [] (next none)
  converse c source ((now, random) ∷ rounds) (send text next) =
      elim (serve keys c text source now random) [
        | done (answer, c') ↦ converse c' source rounds (next (some answer))
        | panic w ↦ panic w
      ]
