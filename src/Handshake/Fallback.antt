-- ===== src/Handshake/Fallback.antt =====
-- src/handshake.rs: `establish_client_session` and the choice between the direct path and the relay.
-- What the sockets give is an argument: for each call, its result or the text of its error.
use meshlet.Common.{
  ℕ, ◌≤◌, ◌≡◌, refl, Bool, true, false, not, List, [], ◌∷◌, ltb, if◌then◌else◌, le→ltb, Bytes,
  length, nat_eq, list_eq, pair_eq, Duration, from_secs,
}
use meshlet.Common.Result.{Result, ok, err, ensure, ◌>>=◌, ◌>>◌}
use meshlet.Handshake.Hello.{HandshakeError}
use meshlet.Handshake.Session.{Exchange, SessionKeys, client_hello, accept_hello}
use meshlet.Identity.Keys.{Ed25519, Authorizations, Identity}
use meshlet.Text.Utf8.{is_utf8}

-- The diagnostics, which are texts there.
pub data Diagnostic : Type 0 where
  bind_failed timeout_failed recv_failed : Bytes → Diagnostic
  connect_failed send_failed : Bytes → Diagnostic
  too_long not_utf8 : Diagnostic
  no_server_hello : Bytes → Duration → Diagnostic → Diagnostic
  handshake_failed : HandshakeError → Diagnostic

pub data ClientAttemptError : Type 0 where
  local unreachable rejected : Diagnostic → ClientAttemptError

unfoldable pub message : ClientAttemptError → Diagnostic
message (local d) = d
message (unreachable d) = d
message (rejected d) = d

unfoldable pub permits_fallback : ClientAttemptError → Bool
permits_fallback (unreachable _) = true
permits_fallback _ = false

abbrev pub max_datagram_bytes : ℕ
max_datagram_bytes = 1024

abbrev pub direct_path_timeout : Duration
direct_path_timeout = 250_000_000

abbrev pub response_timeout : Duration
response_timeout = from_secs 2

-- What the socket of one attempt gives.
pub record Attempt : Type 0 where
  pub bind : Result Bytes (Unit {0})
  pub connect : Result Bytes (Unit {0})
  pub set_read_timeout : Result Bytes (Unit {0})
  pub send : Result Bytes (Unit {0})
  pub recv : Result Bytes Bytes

-- `Result::map_err`
abbrev pub map_err {ℓ} : {E F : Type 0} {A : Type ℓ} → Result E A → (E → F) → Result F A
map_err (ok a) f = ok a
map_err (err e) f = err (f e)

-- `try_receive_connected_bytes`
unfoldable pub try_receive_connected_bytes : Result Bytes Bytes → Result Diagnostic Bytes
try_receive_connected_bytes recv = do
  bytes ← map_err recv recv_failed
  ensure (not (ltb max_datagram_bytes (length bytes))) too_long
  ok bytes

unfoldable pub try_receive_connected : Result Bytes Bytes → Result Diagnostic Bytes
try_receive_connected recv = do
  bytes ← try_receive_connected_bytes recv
  ensure (is_utf8 bytes) not_utf8
  ok bytes

-- The calls up to the read timeout.
unfoldable pub open_socket : Attempt → Result ClientAttemptError (Unit {0})
open_socket attempt = do
  map_err attempt.bind (λ e. local (bind_failed e))
  map_err attempt.connect (λ e. unreachable (connect_failed e))
  map_err attempt.set_read_timeout (λ e. local (timeout_failed e))

pub record ClientSession : Type 0 where
  pub authenticated_peer : Bytes
  pub transcript : Bytes
  pub keys : SessionKeys

-- `selected path` and its session, or the panic. The list names the addresses that were tried.
pub data Selection : Type 0 where
  selected : Bytes → ClientSession → Selection
  direct_failed relay_failed : Diagnostic → Selection

module _ {SigningKey VerifyingKey Signature Secret Shared : Type 0}
    (keys : Ed25519 SigningKey VerifyingKey Signature) (x : Exchange Secret Shared) where
  unfoldable pub establish_client_session :
      Attempt
      → Bytes
      → Identity SigningKey
      → Authorizations VerifyingKey
      → Bytes
      → Duration
      → Secret
      → Result ClientAttemptError ClientSession
  unfolding open_socket
  establish_client_session attempt peer_address identity authorizations peer_node_id timeout
        secret =
      do
        open_socket attempt
        let client = client_hello keys x identity peer_node_id secret
        map_err attempt.send (λ e. unreachable (send_failed e))
        text ←
            map_err (try_receive_connected attempt.recv)
              (λ e. unreachable (no_server_hello peer_address timeout e))
        session ←
            map_err (accept_hello keys x authorizations client secret text)
              (λ e. rejected (handshake_failed e))
        ok (record { authenticated_peer = session.0; transcript = session.1; keys = session.2 })

  -- The choice in `run_secure_echo_client_auto`.
  unfoldable pub select_path :
      (Bytes → Attempt)
      → Bytes
      → Bytes
      → Identity SigningKey
      → Authorizations VerifyingKey
      → Bytes
      → Secret
      → Secret
      → List Bytes × Selection
  unfolding permits_fallback message
  select_path network direct relay identity authorizations peer_node_id secret secret' =
      elim (establish_client_session (network direct) direct identity authorizations peer_node_id
        direct_path_timeout secret) [
          | ok session ↦ (direct ∷ [], selected direct session)
          | err e ↦
              if permits_fallback e
              then (
                direct ∷ relay ∷ [],
                elim (establish_client_session (network relay) relay identity authorizations
                    peer_node_id response_timeout secret') [
                      | ok session ↦ selected relay session
                      | err e' ↦ relay_failed (message e')
                    ],
              )
              else (direct ∷ [], direct_failed (message e))
        ]

  pub try_receive_connected-ok :
      (text : Bytes)
      → length text ≤ max_datagram_bytes
      → is_utf8 text ≡ true
      → try_receive_connected (ok text) ≡ ok text
  unfolding try_receive_connected try_receive_connected_bytes
  try_receive_connected-ok text short valid =
      rw (le→ltb max_datagram_bytes (length text) short, valid) refl
