-- ===== src/Coordinator/AuthServer.antt =====
-- src/coordinator.rs: the loop of `run_authenticated_server`, with its calls of the socket.
use meshlet.Common.{ℕ, suc, List, [], ◌∷◌, Bytes}
use meshlet.Common.Outcome.{Outcome, done, ◌>>=◌, ◌>>◌, require, socket_failed}
use meshlet.Coordinator.Auth.{AuthenticatedCoordinator, new, serve}
use meshlet.Coordinator.Trace.{Event}
use meshlet.Identity.Keys.{Ed25519, Authorizations}
use meshlet.Net.Calls.{Calls}
use meshlet.Net.Socket.{SocketAddr}

module _ {SigningKey VerifyingKey Signature : Type 0}
    (keys : Ed25519 SigningKey VerifyingKey Signature) where
  -- One round of the loop.
  unfoldable pub serve_event :
      Calls
      → ℕ
      → AuthenticatedCoordinator VerifyingKey
      → Event
      → Outcome ((Bytes × SocketAddr) × AuthenticatedCoordinator VerifyingKey)
  serve_event calls round c e = do
    require (calls.receives round) socket_failed
    (response, c') ← serve keys c e.datagram e.source e.time e.random
    require (calls.sends round) socket_failed
    done ((response, e.source), c')

  -- The loop from a round on, for as many datagrams as arrive: what is sent, and the state.
  unfoldable pub serve_events :
      Calls
      → ℕ
      → AuthenticatedCoordinator VerifyingKey
      → List Event
      → Outcome (List (Bytes × SocketAddr) × AuthenticatedCoordinator VerifyingKey)
  unfolding serve_event
  serve_events calls round c [] = done ([], c)
  serve_events calls round c (e ∷ es) = do
    (sent, c') ← serve_event calls round c e
    (others, c'') ← serve_events calls (suc round) c' es
    done (sent ∷ others, c'')

  -- The server on a socket that is bound, with the authorizations that are loaded.
  unfoldable pub run_authenticated_server :
      Calls
      → Authorizations VerifyingKey
      → List Event
      → Outcome (List (Bytes × SocketAddr) × AuthenticatedCoordinator VerifyingKey)
  unfolding serve_events
  run_authenticated_server calls authorizations es =
      serve_events calls 0 (new keys authorizations) es
