-- ===== src/Handshake/Attempts.antt =====
-- src/handshake.rs: the attempts of the automatic client where one path is silent and the other
-- answers, and what passes on the way.
use meshlet.Common.{
  ◌≤◌, ◌≡◌, refl, ◌≢◌, true, [], ◌∷◌, if◌then◌else◌, Bytes, length, ◌==◌, eq_refl, ne→eq, nat_eq,
  list_eq, pair_eq,
}
use meshlet.Common.Result.{Result, ok, err}
use meshlet.Handshake.Agreement.{ExchangeLaws}
use meshlet.Handshake.Fallback.{
  recv_failed, no_server_hello, unreachable, direct_path_timeout, response_timeout, Attempt,
  open_socket, selected, establish_client_session, select_path, permits_fallback,
  try_receive_connected, try_receive_connected_bytes, try_receive_connected-ok,
}
use meshlet.Handshake.Programs.{hello_text, hello_sent, hellos}
use meshlet.Handshake.Session.{Exchange, SessionKeys, client_hello, accept_hello}
use meshlet.Identity.Keys.{Ed25519, Ed25519Laws, Authorizations, Identity}
use meshlet.Net.Socket.{socket_eq}
use meshlet.Text.Utf8.{is_utf8}

-- A socket that works, and what it receives first.
abbrev pub opens : Result Bytes Bytes → Attempt
opens recv = record {
  bind = ok tt;
  connect = ok tt;
  set_read_timeout = ok tt;
  send = ok tt;
  recv = recv;
}

-- One address is silent until the timeout, and the others answer.
abbrev pub one_silent : Bytes → Bytes → Bytes → Bytes → Attempt
one_silent direct text reply address =
    if address == direct then opens (err text) else opens (ok reply)

module _ {SigningKey VerifyingKey Signature Secret Shared : Type 0}
    (keys : Ed25519 SigningKey VerifyingKey Signature) (laws : Ed25519Laws keys)
    (x : Exchange Secret Shared) (exchange : ExchangeLaws x) where
  -- The direct path is silent.
  establish_client_session-silent :
      (address : Bytes) (client : Identity SigningKey)
      (authorizations : Authorizations VerifyingKey) (peer : Bytes) (a : Secret) (text : Bytes)
      → establish_client_session keys x
          (opens (err text))
          address
          client
          authorizations
          peer
          direct_path_timeout
          a
        ≡ err (unreachable (no_server_hello address direct_path_timeout (recv_failed text)))
  unfolding establish_client_session open_socket try_receive_connected try_receive_connected_bytes
  establish_client_session-silent address client authorizations peer a text = refl

  -- The relayed path answers.
  pub establish_client_session-ok :
      (address : Bytes) (client : Identity SigningKey)
      (authorizations : Authorizations VerifyingKey) (peer : Bytes) (a : Secret)
      (reply transcript : Bytes) (s : SessionKeys)
      → is_utf8 reply ≡ true
      → length reply ≤ 1024
      → accept_hello keys x authorizations (client_hello keys x client peer a) a reply
        ≡ ok (peer, transcript, s)
      → establish_client_session keys x
          (opens (ok reply))
          address
          client
          authorizations
          peer
          response_timeout
          a
        ≡ ok (record { authenticated_peer = peer; transcript = transcript; keys = s })
  unfolding establish_client_session open_socket
  establish_client_session-ok address client authorizations peer a reply transcript s valid fits e =
      rw (try_receive_connected-ok keys x reply fits valid, e) refl

  pub select_path-relay :
      (direct relay text : Bytes) (client : Identity SigningKey)
      (authorizations : Authorizations VerifyingKey) (peer : Bytes) (a a' : Secret)
      (reply transcript : Bytes) (s : SessionKeys)
      → relay ≢ direct
      → is_utf8 reply ≡ true
      → length reply ≤ 1024
      → accept_hello keys x authorizations (client_hello keys x client peer a') a' reply
        ≡ ok (peer, transcript, s)
      → select_path keys x
          (one_silent direct text reply)
          direct
          relay
          client
          authorizations
          peer
          a
          a'
        ≡ (
          direct ∷ relay ∷ [],
          selected relay (record { authenticated_peer = peer; transcript = transcript; keys = s }),
        )
  unfolding select_path permits_fallback
  select_path-relay direct relay text client authorizations peer a a' reply transcript s ne valid
        fits e =
      let network = one_silent direct text reply in
      let fails : establish_client_session keys x (network direct) direct client authorizations peer
            direct_path_timeout a
          ≡ err (unreachable (no_server_hello direct direct_path_timeout (recv_failed text))) =
        rw (eq_refl direct)
          (establish_client_session-silent direct client authorizations peer a text) in
      let answers : establish_client_session keys x (network relay) relay client authorizations peer
            response_timeout a'
          ≡ ok (record { authenticated_peer = peer; transcript = transcript; keys = s }) =
        rw (ne→eq relay direct ne) (
          establish_client_session-ok relay client authorizations peer a' reply transcript s valid
            fits e) in
      rw (fails, answers, select_path) refl

  pub hellos-relay :
      (direct relay text reply : Bytes) (client : Identity SigningKey) (peer : Bytes)
      (a a' : Secret)
      → relay ≢ direct
      → hellos keys x (one_silent direct text reply) client peer (direct ∷ relay ∷ []) (a ∷ a' ∷ [])
        ≡ (direct, hello_text keys x client peer a) ∷ (relay, hello_text keys x client peer a') ∷ []
  unfolding hellos hello_sent open_socket
  hellos-relay direct relay text reply client peer a a' ne =
      rw (eq_refl direct, ne→eq relay direct ne) refl
