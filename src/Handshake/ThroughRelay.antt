-- ===== src/Handshake/ThroughRelay.antt =====
-- src/handshake.rs and src/relay.rs: the automatic client, the relay and the echo server together.
use meshlet.Common.{
  ◌≤◌, ◌≡◌, refl, ◌≢◌, inl, inr, true, some, [], ◌∷◌, arith, Bytes, length, eq_refl, ne→eq, nat_eq,
  list_eq, pair_eq,
}
use meshlet.Common.HashMap.{get}
use meshlet.Common.Result.{ok}
use meshlet.Coordinator.NodeId.{valid_node_id}
use meshlet.Handshake.Fits.{accept_response-le, handshake_fits, receive_from-ok, serve_echo-le}
use meshlet.Handshake.Agreement.{ExchangeLaws}
use meshlet.Handshake.Echo.{
  learning_message, send_request, serve_echo, accept_response, echo_completes,
}
use meshlet.Handshake.Hello.{encode_client_hello}
use meshlet.Handshake.Programs.{
  material, hello_text, require_authorized, run_secure_echo_server, run_secure_echo_client_auto,
}
use meshlet.Handshake.Session.{Exchange, SessionKeys, client_hello, serve_hello, accept_hello}
use meshlet.Identity.Keys.{Ed25519, Ed25519Laws, Authorizations, Identity}
use meshlet.Net.Calls.{reliable}
use meshlet.Net.Socket.{SocketAddr, socket_eq}
use meshlet.Relay.Forwarding.{session, opposite, run_serves}
use meshlet.Relay.State.{run}
use meshlet.SecurePacket.Channel.{Aead}
use meshlet.SecurePacket.Delivery.{AeadLaws}
use meshlet.Text.Utf8.{is_utf8}
use meshlet.Handshake.Attempts.{one_silent, select_path-relay, hellos-relay}

-- What the relay makes of the four datagrams.
relayed :
    (client_at server_at : SocketAddr) (hello reply request response : Bytes)
    → client_at ≢ server_at
    → length hello ≤ 1024
    → length reply ≤ 1024
    → length request ≤ 1024
    → length response ≤ 1024
    → run reliable server_at (
        (client_at, hello) ∷ (server_at, reply) ∷ (client_at, request) ∷ (server_at, response) ∷ [])
      ≡ ok (
        (server_at, hello) ∷ (client_at, reply) ∷ (server_at, request) ∷ (client_at, response) ∷ [],
        record { upstream = server_at; client = some client_at },
      )
unfolding session opposite
relayed client_at server_at hello reply request response ne h k l m =
    rw
      (
        run_serves reliable server_at client_at hello
            ((server_at, reply) ∷ (client_at, request) ∷ (server_at, response) ∷ []) refl ne
            (inl refl, (inr refl, (inl refl, tt)))
            (omega (arith, h), (omega (arith, k), (omega (arith, l), (omega (arith, m), tt)))),
        ne→eq client_at server_at ne,
        eq_refl server_at,
      )
      refl

module _ {SigningKey VerifyingKey Signature Secret Shared : Type 0}
    (keys : Ed25519 SigningKey VerifyingKey Signature) (laws : Ed25519Laws keys)
    (x : Exchange Secret Shared) (exchange : ExchangeLaws x) where
  module _ {Cipher : Type 0} (c : Aead Cipher) (aead : AeadLaws c)
      (encrypts : (k : Cipher) (nonce m aad : Bytes)
        → (ct : Bytes) × (c.encrypt k nonce m aad ≡ some ct)) where
    pub server_run :
        (server : Identity SigningKey) (authorizations : Authorizations VerifyingKey) (b : Secret)
        (source : SocketAddr) (hello reply transcript request response : Bytes) (s : SessionKeys)
        → is_utf8 hello ≡ true
        → length hello ≤ 1024
        → serve_hello keys x server authorizations b hello ≡ ok (reply, transcript, s)
        → serve_echo c s source source request ≡ ok (learning_message, response)
        → run_secure_echo_server keys x c
            (material keys x server authorizations)
            b
            (ok (source, hello))
            (ok (source, request))
          ≡ ((source, reply) ∷ (source, response) ∷ [], ok learning_message)
    unfolding run_secure_echo_server
    server_run server authorizations b source hello reply transcript request response s valid fits
          served echoed =
        rw (receive_from-ok source hello valid fits, served, echoed) refl

    client_run :
        (direct relay text : Bytes) (client : Identity SigningKey)
        (authorizations : Authorizations VerifyingKey) (peer : Bytes) (a a' : Secret)
        (reply transcript request response : Bytes) (s : SessionKeys) {key : VerifyingKey}
        → relay ≢ direct
        → get peer authorizations ≡ some key
        → is_utf8 reply ≡ true
        → length reply ≤ 1024
        → accept_hello keys x authorizations (client_hello keys x client peer a') a' reply
          ≡ ok (peer, transcript, s)
        → send_request c s ≡ ok request
        → accept_response c s response ≡ ok learning_message
        → run_secure_echo_client_auto keys x c
            (material keys x client authorizations)
            direct
            relay
            peer
            a
            a'
            (one_silent direct text reply)
            (ok response)
          ≡ (
            (direct, hello_text keys x client peer a)
                ∷ (relay, hello_text keys x client peer a')
                ∷ (relay, request)
                ∷ [],
            ok learning_message,
          )
    unfolding run_secure_echo_client_auto
    client_run direct relay text client authorizations peer a a' reply transcript request response s
          ne known valid fits accepted sent echoed =
        let authorized : require_authorized authorizations peer ≡ ok tt =
          rw (known, require_authorized) refl in
        rw
          (
            authorized,
            select_path-relay keys laws x exchange direct relay text client authorizations peer a a'
                reply transcript s ne valid fits accepted,
            hellos-relay keys laws x exchange direct relay text reply client peer a a' ne,
            sent,
            echoed,
            run_secure_echo_client_auto,
          )
          refl

    -- Two nodes with valid IDs that authorize each other complete the encrypted echo through the
    -- relay: where the direct path is silent, the automatic client tries the relay, the relay joins
    -- it with the server, and the client and the server both end with the learning message. What each
    -- of the three sends is what the next one takes. The exchange secrets share a contributory secret,
    -- the cipher encrypts every message, no socket call of the relay fails, and the addresses of the two
    -- paths and of the client and the server differ.
    pub secure_echo_through_relay :
        (client server : Identity SigningKey) (of_client of_server : Authorizations VerifyingKey)
        (direct relay text : Bytes) (client_at relay_at server_at : SocketAddr) (a a' b : Secret)
        → relay ≢ direct
        → client_at ≢ server_at
        → valid_node_id client.node_id ≡ true
        → valid_node_id server.node_id ≡ true
        → get server.node_id of_client ≡ some (keys.verifying_key server.signing_key)
        → get client.node_id of_server ≡ some (keys.verifying_key client.signing_key)
        → x.was_contributory (x.diffie_hellman a' (x.public_key b)) ≡ true
        → (hello reply request response : Bytes) × (run_secure_echo_client_auto keys x c
              (material keys x client of_client)
              direct
              relay
              server.node_id
              a
              a'
              (one_silent direct text reply)
              (ok response)
            ≡ (
              (direct, hello_text keys x client server.node_id a)
                  ∷ (relay, hello)
                  ∷ (relay, request)
                  ∷ [],
              ok learning_message,
            ))
          × (run_secure_echo_server keys x c
                (material keys x server of_server)
                b
                (ok (relay_at, hello))
                (ok (relay_at, request))
              ≡ ((relay_at, reply) ∷ (relay_at, response) ∷ [], ok learning_message))
          × (run reliable server_at (
                (client_at, hello)
                ∷ (server_at, reply)
                ∷ (client_at, request)
                ∷ (server_at, response)
                ∷ [])
              ≡ ok (
                (server_at, hello)
                    ∷ (client_at, reply)
                    ∷ (server_at, request)
                    ∷ (client_at, response)
                    ∷ [],
                record { upstream = server_at; client = some client_at },
              ))
    unfolding hello_text
    secure_echo_through_relay client server of_client of_server direct relay text client_at relay_at
          server_at a a' b other_path other_end valid valid' has has' safe =
        let (reply, transcript, s, served, accepted, hello_fits, reply_fits) =
          handshake_fits keys laws x exchange client server of_client of_server a' b valid valid'
            has has' safe in
        let (request, response, sent, echoed, closed) = echo_completes c aead encrypts s relay_at in
        let hello = client_hello keys x client server.node_id a' in
        (
          encode_client_hello keys hello,
          reply,
          request,
          response,
          client_run direct relay text client of_client server.node_id a a' reply transcript request
              response s other_path has reply_fits.0 reply_fits.1 accepted sent closed,
          server_run server of_server b relay_at (encode_client_hello keys hello) reply transcript
              request response s hello_fits.0 hello_fits.1 served echoed,
          relayed client_at server_at (encode_client_hello keys hello) reply request response
              other_end hello_fits.1 reply_fits.1
              (serve_echo-le c s relay_at relay_at request learning_message response echoed)
              (accept_response-le c s response learning_message closed),
        )
