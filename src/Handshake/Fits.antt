-- ===== src/Handshake/Fits.antt =====
-- src/handshake.rs: the texts of a handshake and of the echo fit their datagrams.
use meshlet.Common.{
  ◌≤◌, ◌≡◌, refl, true, some, arith, le→ltb, Bytes, length, nat_eq, list_eq, pair_eq,
}
use meshlet.Common.Result.{ok, >>=-eq-ok, >>-eq-ok}
use meshlet.Coordinator.NodeId.{valid_node_id}
use meshlet.Common.HashMap.{get}
use meshlet.Handshake.Agreement.{ExchangeLaws, handshake_agrees}
use meshlet.Handshake.HelloTexts.{client_hello_fits, server_hello_fits}
use meshlet.Handshake.Echo.{bounded, serve_echo, accept_response}
use meshlet.Handshake.Hello.{ClientHello, encode_client_hello, encode_server_hello}
use meshlet.Handshake.HelloTrip.{
  IsClientHello, IsServerHello, parse_client_hello-encode_client_hello,
}
use meshlet.Handshake.Programs.{receive_from}
use meshlet.Handshake.Session.{
  Exchange, SessionKeys, client_hello, server_hello, check_client, serve_hello, accept_hello,
  derive_session_keys, handshake_transcript,
}
use meshlet.Identity.Keys.{Ed25519, Ed25519Laws, Authorizations, Identity}
use meshlet.Net.Socket.{SocketAddr, socket_eq}
use meshlet.SecurePacket.Channel.{Aead}
use meshlet.Text.Utf8.{is_utf8}

-- A request that the server takes is not longer than a datagram.
pub serve_echo-le :
    {Cipher : Type 0} (a : Aead Cipher) (s : SessionKeys) (source from : SocketAddr)
    (request plaintext response : Bytes)
    → serve_echo a s source from request ≡ ok (plaintext, response)
    → length request ≤ 1024
unfolding serve_echo bounded
serve_echo-le a s source from request plaintext response e =
    let (fits, _) = >>-eq-ok (bounded request) _ e in ground (arith, fits)

pub accept_response-le :
    {Cipher : Type 0} (a : Aead Cipher) (s : SessionKeys) (response plaintext : Bytes)
    → accept_response a s response ≡ ok plaintext
    → length response ≤ 1024
unfolding accept_response bounded
accept_response-le a s response plaintext e =
    let (fits, _) = >>-eq-ok (bounded response) _ e in ground (arith, fits)

pub receive_from-ok :
    (source : SocketAddr) (text : Bytes)
    → is_utf8 text ≡ true
    → length text ≤ 1024
    → receive_from (ok (source, text)) ≡ ok (source, text)
unfolding receive_from
receive_from-ok source text valid fits = rw (le→ltb 1024 (length text) fits, valid) refl

module _ {SigningKey VerifyingKey Signature Secret Shared : Type 0}
    (keys : Ed25519 SigningKey VerifyingKey Signature) (laws : Ed25519Laws keys)
    (x : Exchange Secret Shared) (exchange : ExchangeLaws x) where
  -- The reply that the server sends.
  serve_hello-reply :
      (server : Identity SigningKey) (authorizations : Authorizations VerifyingKey) (b : Secret)
      (hello : ClientHello Signature) (reply transcript : Bytes) (s : SessionKeys)
      → IsClientHello keys hello
      → serve_hello keys x server authorizations b (encode_client_hello keys hello)
        ≡ ok (reply, transcript, s)
      → reply ≡ encode_server_hello keys (server_hello keys x server hello b)
  unfolding serve_hello
  serve_hello-reply server authorizations b hello reply transcript s h e =
      let read = parse_client_hello-encode_client_hello keys laws hello h in
      let (checked, e₁) =
        >>-eq-ok (check_client keys x server authorizations hello) _ (rw read at e) in
      let (derived, _, e₂) =
        >>=-eq-ok
          (derive_session_keys keys x (x.diffie_hellman b hello.exchange_public)
            (handshake_transcript keys hello (server_hello keys x server hello b)))
          _ e₁ in
      cc

  hellos_fit :
      (client server : Identity SigningKey) (a b : Secret)
      → valid_node_id client.node_id ≡ true
      → valid_node_id server.node_id ≡ true
      → IsClientHello keys (client_hello keys x client server.node_id a)
        × IsServerHello keys
            (server_hello keys x server (client_hello keys x client server.node_id a) b)
  unfolding client_hello server_hello
  hellos_fit client server a b h k =
      ((h, k, exchange.public_array a), (h, k, exchange.public_array a, exchange.public_array b))

  -- A handshake of two honest nodes, with texts that fit the datagrams.
  pub handshake_fits :
      (client server : Identity SigningKey) (of_client of_server : Authorizations VerifyingKey)
      (a b : Secret)
      → valid_node_id client.node_id ≡ true
      → valid_node_id server.node_id ≡ true
      → get server.node_id of_client ≡ some (keys.verifying_key server.signing_key)
      → get client.node_id of_server ≡ some (keys.verifying_key client.signing_key)
      → x.was_contributory (x.diffie_hellman a (x.public_key b)) ≡ true
      → (reply transcript : Bytes) × (s : SessionKeys) × (serve_hello keys x server of_server b
            (encode_client_hello keys (client_hello keys x client server.node_id a))
          ≡ ok (reply, transcript, s))
        × (accept_hello keys x of_client (client_hello keys x client server.node_id a) a reply
            ≡ ok (server.node_id, transcript, s))
        × ((is_utf8 (encode_client_hello keys (client_hello keys x client server.node_id a)) ≡ true)
            × (length (encode_client_hello keys (client_hello keys x client server.node_id a))
                ≤ 1024))
        × ((is_utf8 reply ≡ true) × (length reply ≤ 1024))
  handshake_fits client server of_client of_server a b valid valid' has has' safe =
      let (reply, transcript, s, served, accepted) =
        handshake_agrees keys laws x exchange client server of_client of_server a b valid valid' has
          has' safe in
      let hello = client_hello keys x client server.node_id a in
      let (is_hello, is_reply) = hellos_fit client server a b valid valid' in
      let reply_text =
        serve_hello-reply server of_server b hello reply transcript s is_hello served in
      (
        reply,
        transcript,
        s,
        served,
        accepted,
        client_hello_fits keys laws hello is_hello,
        rw reply_text (server_hello_fits keys laws (server_hello keys x server hello b) is_reply),
      )
