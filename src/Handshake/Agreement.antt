-- ===== src/Handshake/Agreement.antt =====
-- src/handshake.rs: two honest nodes that authorize each other end the handshake with the same keys.
use meshlet.Common.{◌≡◌, refl, sym, ap, ◌∙◌, true, some, Bytes, eq_refl, nat_eq, list_eq, pair_eq}
use meshlet.Common.HashMap.{get}
use meshlet.Common.Result.{ok}
use meshlet.Handshake.Hello.{
  ClientHello, ServerHello, encode_client_hello, parse_client_hello, encode_server_hello,
  parse_server_hello,
}
use meshlet.Handshake.Session.{
  Exchange, SessionKeys, client_signing_message, server_signing_message, handshake_transcript,
  verify_signature, validate_server_hello, derive_session_keys, client_hello, server_hello,
  check_client, serve_hello, accept_hello,
}
use meshlet.Coordinator.NodeId.{valid_node_id}
use meshlet.Handshake.HelloTrip.{
  parse_client_hello-encode_client_hello, parse_server_hello-encode_server_hello,
}
use meshlet.Identity.Hex.{IsArray}
use meshlet.Identity.Keys.{Ed25519, Ed25519Laws, Authorizations, Identity, sign}
use meshlet.Text.{codes}

-- What the crates document: public keys have 32 bytes, the two sides of an exchange share a secret,
-- and an expansion to 32 bytes does not fail.
pub record ExchangeLaws {Secret Shared : Type 0} (x : Exchange Secret Shared) : Type 0 where
  pub public_array : (a : Secret) → IsArray 32 (x.public_key a)
  pub agrees :
      (a b : Secret) → x.diffie_hellman a (x.public_key b) ≡ x.diffie_hellman b (x.public_key a)
  pub expands :
      (salt : Bytes) (shared : Shared) (info : Bytes)
      → (okm : Bytes) × (x.expand salt shared info ≡ some okm)

module _ {SigningKey VerifyingKey Signature : Type 0}
    (keys : Ed25519 SigningKey VerifyingKey Signature) (laws : Ed25519Laws keys) where
  verify_signature-sign :
      (authorizations : Authorizations VerifyingKey) (node_id m : Bytes) (k : SigningKey)
      → get node_id authorizations ≡ some (keys.verifying_key k)
      → verify_signature keys authorizations node_id m (keys.sign k m) ≡ ok tt
  unfolding verify_signature
  verify_signature-sign authorizations node_id m k h = rw (h, laws.signature_verifies k m) refl

  module _ {Secret Shared : Type 0} (x : Exchange Secret Shared) (exchange : ExchangeLaws x) where
    derive_session_keys-ok :
        (shared : Shared) (transcript : Bytes)
        → x.was_contributory shared ≡ true
        → (session : SessionKeys) × (derive_session_keys keys x shared transcript ≡ ok session)
    unfolding derive_session_keys
    derive_session_keys-ok shared transcript h =
        let salt = x.digest transcript in
        let (a, e) =
          exchange.expands salt shared (codes "MESHLET/3 client-to-server encryption key") in
        let (b, f) =
          exchange.expands salt shared (codes "MESHLET/3 server-to-client encryption key") in
        (record { client_to_server = a; server_to_client = b }, rw (h, e, f) refl)

    client_hello_text :
        (client : Identity SigningKey) (peer : Bytes) (a : Secret)
        → valid_node_id client.node_id ≡ true
        → valid_node_id peer ≡ true
        → parse_client_hello keys (encode_client_hello keys (client_hello keys x client peer a))
          ≡ ok (client_hello keys x client peer a)
    unfolding client_hello
    client_hello_text client peer a h k =
        parse_client_hello-encode_client_hello keys laws (client_hello keys x client peer a)
          (h, k, exchange.public_array a)

    server_hello_text :
        (client server : Identity SigningKey) (a b : Secret)
        → valid_node_id client.node_id ≡ true
        → valid_node_id server.node_id ≡ true
        → parse_server_hello keys (
            encode_server_hello keys
              (server_hello keys x server (client_hello keys x client server.node_id a) b))
          ≡ ok (server_hello keys x server (client_hello keys x client server.node_id a) b)
    unfolding client_hello server_hello
    server_hello_text client server a b h k =
        parse_server_hello-encode_server_hello keys laws
          (server_hello keys x server (client_hello keys x client server.node_id a) b)
          (h, k, exchange.public_array a, exchange.public_array b)

    check_client-client_hello :
        (client server : Identity SigningKey) (authorizations : Authorizations VerifyingKey)
        (a : Secret)
        → get client.node_id authorizations ≡ some (keys.verifying_key client.signing_key)
        → check_client keys x server authorizations (client_hello keys x client server.node_id a)
          ≡ ok tt
    unfolding check_client client_hello sign
    check_client-client_hello client server authorizations a h =
        rw
          (
            eq_refl server.node_id,
            verify_signature-sign authorizations client.node_id
                (client_signing_message client.node_id server.node_id (x.public_key a))
                client.signing_key h,
          )
          refl

    validate_server_hello-server_hello :
        (server : Identity SigningKey) (hello : ClientHello Signature) (b : Secret)
        → validate_server_hello keys (server_hello keys x server hello b) hello ≡ ok tt
    unfolding validate_server_hello server_hello
    validate_server_hello-server_hello server hello b =
        rw (eq_refl hello.initiator_id, eq_refl hello.responder_id, eq_refl hello.exchange_public)
          refl

    verify_signature-server_hello :
        (server : Identity SigningKey) (hello : ClientHello Signature)
        (authorizations : Authorizations VerifyingKey) (b : Secret)
        → get hello.responder_id authorizations ≡ some (keys.verifying_key server.signing_key)
        → verify_signature keys authorizations
            (server_hello keys x server hello b).responder_id
            (server_signing_message keys hello
              (server_hello keys x server hello b).server_exchange_public)
            (server_hello keys x server hello b).signature
          ≡ ok tt
    unfolding server_hello sign
    verify_signature-server_hello server hello authorizations b h =
        verify_signature-sign authorizations hello.responder_id
          (server_signing_message keys hello (x.public_key b)) server.signing_key h

    serve_hello-ok :
        (server : Identity SigningKey) (authorizations : Authorizations VerifyingKey) (b : Secret)
        (message : Bytes) (hello : ClientHello Signature) (session : SessionKeys)
        → parse_client_hello keys message ≡ ok hello
        → check_client keys x server authorizations hello ≡ ok tt
        → derive_session_keys keys x
            (x.diffie_hellman b hello.exchange_public)
            (handshake_transcript keys hello (server_hello keys x server hello b))
          ≡ ok session
        → serve_hello keys x server authorizations b message
          ≡ ok (
            encode_server_hello keys (server_hello keys x server hello b),
            handshake_transcript keys hello (server_hello keys x server hello b),
            session,
          )
    unfolding serve_hello
    serve_hello-ok server authorizations b message hello session parsed checked derived =
        rw (parsed, checked, derived) refl

    accept_hello-ok :
        (authorizations : Authorizations VerifyingKey) (hello : ClientHello Signature) (a : Secret)
        (message : Bytes) (answer : ServerHello Signature) (session : SessionKeys)
        → parse_server_hello keys message ≡ ok answer
        → validate_server_hello keys answer hello ≡ ok tt
        → verify_signature keys authorizations answer.responder_id
            (server_signing_message keys hello answer.server_exchange_public)
            answer.signature
          ≡ ok tt
        → derive_session_keys keys x
            (x.diffie_hellman a answer.server_exchange_public)
            (handshake_transcript keys hello answer)
          ≡ ok session
        → accept_hello keys x authorizations hello a message
          ≡ ok (answer.responder_id, handshake_transcript keys hello answer, session)
    unfolding accept_hello
    accept_hello-ok authorizations hello a message answer session parsed same verified derived =
        rw (parsed, same, verified, derived) refl

    same_secret :
        (client server : Identity SigningKey) (a b : Secret) (hello : ClientHello Signature)
        → hello ≡ client_hello keys x client server.node_id a
        → (x.diffie_hellman b hello.exchange_public
            ≡ x.diffie_hellman a (server_hello keys x server hello b).server_exchange_public)
          × (x.diffie_hellman a (server_hello keys x server hello b).server_exchange_public
              ≡ x.diffie_hellman a (x.public_key b))
          × (hello.responder_id ≡ server.node_id)
    unfolding client_hello server_hello
    same_secret client server a b hello e = rw e (sym (exchange.agrees a b), refl, refl)

    same_peer :
        (client server : Identity SigningKey) (a b : Secret)
        → (server_hello keys x server (client_hello keys x client server.node_id a) b).responder_id
          ≡ server.node_id
    unfolding client_hello server_hello
    same_peer client server a b = refl

    -- Two nodes with valid IDs that authorize each other, over exchange secrets that share a
    -- contributory secret: the server accepts the client's hello, the client accepts the reply, and
    -- both end with the same transcript and the same session keys, the client with the server's ID.
    pub handshake_agrees :
        (client server : Identity SigningKey) (of_client of_server : Authorizations VerifyingKey)
        (a b : Secret)
        → valid_node_id client.node_id ≡ true
        → valid_node_id server.node_id ≡ true
        → get server.node_id of_client ≡ some (keys.verifying_key server.signing_key)
        → get client.node_id of_server ≡ some (keys.verifying_key client.signing_key)
        → x.was_contributory (x.diffie_hellman a (x.public_key b)) ≡ true
        → (reply transcript : Bytes) × (session : SessionKeys) × (serve_hello keys x server
              of_server b
              (encode_client_hello keys (client_hello keys x client server.node_id a))
            ≡ ok (reply, transcript, session))
          × (accept_hello keys x of_client (client_hello keys x client server.node_id a) a reply
              ≡ ok (server.node_id, transcript, session))
    handshake_agrees client server of_client of_server a b valid valid' has has' safe =
        let hello = client_hello keys x client server.node_id a in
        let answer = server_hello keys x server hello b in
        let transcript = handshake_transcript keys hello answer in
        let (secret, secret', target) = same_secret client server a b hello refl in
        let (session, derived) =
          derive_session_keys-ok (x.diffie_hellman a answer.server_exchange_public) transcript
            (ap x.was_contributory secret' ∙ safe) in
        (
          encode_server_hello keys answer,
          transcript,
          session,
          serve_hello-ok server of_server b (encode_client_hello keys hello) hello session
              (client_hello_text client server.node_id a valid valid')
              (check_client-client_hello client server of_server a has')
              (ap (λ s. derive_session_keys keys x s transcript) secret ∙ derived),
          accept_hello-ok of_client hello a (encode_server_hello keys answer) answer session
                (server_hello_text client server a b valid valid')
                (validate_server_hello-server_hello server hello b)
                (verify_signature-server_hello server hello of_client b
                  (ap (λ n. get n of_client) target ∙ has))
                derived
              ∙ ap (λ p. ok (p, transcript, session)) (same_peer client server a b),
        )
