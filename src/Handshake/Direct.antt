-- ===== src/Handshake/Direct.antt =====
-- src/handshake.rs: the client and the echo server without a relay.
use meshlet.Common.{◌≤◌, ◌≡◌, refl, true, some, [], ◌∷◌, Bytes, length, nat_eq, list_eq, pair_eq}
use meshlet.Common.HashMap.{get}
use meshlet.Common.Result.{ok}
use meshlet.Coordinator.NodeId.{valid_node_id}
use meshlet.Handshake.Fits.{handshake_fits}
use meshlet.Handshake.Agreement.{ExchangeLaws}
use meshlet.Handshake.Echo.{learning_message, send_request, accept_response, echo_completes}
use meshlet.Handshake.Hello.{encode_client_hello}
use meshlet.Handshake.Programs.{material, hello_text, require_authorized, run_secure_echo_server}
use meshlet.Handshake.Session.{Exchange, SessionKeys, client_hello, accept_hello}
use meshlet.Identity.Keys.{Ed25519, Ed25519Laws, Authorizations, Identity}
use meshlet.Net.Socket.{SocketAddr, socket_eq}
use meshlet.SecurePacket.Channel.{Aead}
use meshlet.SecurePacket.Delivery.{AeadLaws}
use meshlet.Text.Utf8.{is_utf8}
use meshlet.Handshake.ThroughRelay.{server_run}
use meshlet.Handshake.Programs.{run_secure_echo_client}
use meshlet.Handshake.Attempts.{opens, establish_client_session-ok}
use meshlet.Handshake.Fallback.{open_socket}
use meshlet.Handshake.Programs.{hello_sent}

module _ {SigningKey VerifyingKey Signature Secret Shared : Type 0}
    (keys : Ed25519 SigningKey VerifyingKey Signature) (laws : Ed25519Laws keys)
    (x : Exchange Secret Shared) (exchange : ExchangeLaws x) {Cipher : Type 0} (c : Aead Cipher)
    (aead : AeadLaws c)
    (encrypts : (k : Cipher) (nonce m aad : Bytes)
      → (ct : Bytes) × (c.encrypt k nonce m aad ≡ some ct)) where
  client_run :
      (address : Bytes) (client : Identity SigningKey)
      (authorizations : Authorizations VerifyingKey) (peer : Bytes) (a : Secret)
      (reply transcript request response : Bytes) (s : SessionKeys) {key : VerifyingKey}
      → get peer authorizations ≡ some key
      → is_utf8 reply ≡ true
      → length reply ≤ 1024
      → accept_hello keys x authorizations (client_hello keys x client peer a) a reply
        ≡ ok (peer, transcript, s)
      → send_request c s ≡ ok request
      → accept_response c s response ≡ ok learning_message
      → run_secure_echo_client keys x c
          (material keys x client authorizations)
          address
          peer
          a
          (opens (ok reply))
          (ok response)
        ≡ (hello_text keys x client peer a ∷ request ∷ [], ok learning_message)
  unfolding run_secure_echo_client hello_sent open_socket
  client_run address client authorizations peer a reply transcript request response s known valid
        fits accepted sent echoed =
      let authorized : require_authorized authorizations peer ≡ ok tt =
        rw (known, require_authorized) refl in
      rw
        (
          authorized,
          establish_client_session-ok keys laws x exchange address client authorizations peer a
              reply transcript s valid fits accepted,
          sent,
          echoed,
          run_secure_echo_client,
        )
        refl

  -- Two nodes with valid IDs that authorize each other complete the handshake and the encrypted echo:
  -- the client and the server both end with the learning message, and what each of them sends is what
  -- the other takes. The exchange secrets share a contributory secret, and the cipher encrypts every
  -- message.
  pub secure_echo_direct :
      (client server : Identity SigningKey) (of_client of_server : Authorizations VerifyingKey)
      (address : Bytes) (client_at : SocketAddr) (a b : Secret)
      → valid_node_id client.node_id ≡ true
      → valid_node_id server.node_id ≡ true
      → get server.node_id of_client ≡ some (keys.verifying_key server.signing_key)
      → get client.node_id of_server ≡ some (keys.verifying_key client.signing_key)
      → x.was_contributory (x.diffie_hellman a (x.public_key b)) ≡ true
      → (hello reply request response : Bytes) × (run_secure_echo_client keys x c
            (material keys x client of_client)
            address
            server.node_id
            a
            (opens (ok reply))
            (ok response)
          ≡ (hello ∷ request ∷ [], ok learning_message))
        × (run_secure_echo_server keys x c
              (material keys x server of_server)
              b
              (ok (client_at, hello))
              (ok (client_at, request))
            ≡ ((client_at, reply) ∷ (client_at, response) ∷ [], ok learning_message))
  unfolding hello_text
  secure_echo_direct client server of_client of_server address client_at a b valid valid' has has'
        safe =
      let (reply, transcript, s, served, accepted, hello_fits, reply_fits) =
        handshake_fits keys laws x exchange client server of_client of_server a b valid valid' has
          has' safe in
      let (request, response, sent, echoed, closed) = echo_completes c aead encrypts s client_at in
      let hello = client_hello keys x client server.node_id a in
      (
        encode_client_hello keys hello,
        reply,
        request,
        response,
        client_run address client of_client server.node_id a reply transcript request response s has
            reply_fits.0 reply_fits.1 accepted sent closed,
        server_run keys laws x exchange c aead encrypts server of_server b client_at
            (encode_client_hello keys hello) reply transcript request response s hello_fits.0
            hello_fits.1 served echoed,
      )
