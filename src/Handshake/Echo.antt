-- ===== src/Handshake/Echo.antt =====
-- src/handshake.rs: the encrypted echo behind the handshake, `complete_client_exchange` and the end of
-- `run_secure_echo_server`. An error is a panic there.
use meshlet.Common.{
  ◌+◌, ◌≤◌, ◌≡◌, refl, ap, not, some, ◌++◌, arith, ltb, le→ltb, Bytes, length, length-append, ◌==◌,
  eq_refl, nat_eq, list_eq, pair_eq,
}
use meshlet.Common.Result.{Result, ok, ensure, ◌>>=◌, ◌>>◌}
use meshlet.Handshake.Fallback.{max_datagram_bytes, map_err}
use meshlet.Handshake.Session.{SessionKeys}
use meshlet.Net.Socket.{SocketAddr, socket_eq}
use meshlet.SecurePacket.Channel.{Aead, new_sender, new_receiver, seal, sealed, receive}
use meshlet.SecurePacket.Delivery.{AeadLaws, InStep, receive-seal, length-packet_header}
use meshlet.SecurePacket.Wire.{
  Direction, client_to_server, server_to_client, PacketError, packet_header, packet_nonce,
}
use meshlet.Text.{codes}

abbrev pub learning_message : Bytes
learning_message = codes "hello from encrypted meshlet\n"

pub data EchoError : Type 0 where
  too_long mismatch : EchoError
  other_source : SocketAddr → SocketAddr → EchoError
  seal_failed open_failed : PacketError → EchoError

-- The receive functions' limit on a datagram.
unfoldable pub bounded : Bytes → Result EchoError (Unit {0})
bounded datagram = ensure (not (ltb max_datagram_bytes (length datagram))) too_long

module _ {Cipher : Type 0} (a : Aead Cipher) where
  -- The client's first half: the datagram that it sends.
  unfoldable pub send_request : SessionKeys → Result EchoError Bytes
  send_request keys =
      map_err (seal a (new_sender a keys.client_to_server client_to_server) learning_message).0
        seal_failed

  -- The server's part: the plaintext that it prints and the datagram that it sends back. The first
  -- address is that of the handshake.
  unfoldable pub serve_echo :
      SessionKeys → SocketAddr → SocketAddr → Bytes → Result EchoError (Bytes × Bytes)
  serve_echo keys source request_source encrypted_request = do
    bounded encrypted_request
    ensure (request_source == source) (other_source request_source source)
    plaintext ←
        map_err
          (receive a (new_receiver a keys.client_to_server client_to_server) encrypted_request).0
          open_failed
    encrypted_response ←
        map_err (seal a (new_sender a keys.server_to_client server_to_client) plaintext).0
          seal_failed
    ok (plaintext, encrypted_response)

  -- The client's second half.
  unfoldable pub accept_response : SessionKeys → Bytes → Result EchoError Bytes
  accept_response keys encrypted_response = do
    bounded encrypted_response
    plaintext ←
        map_err
          (receive a (new_receiver a keys.server_to_client server_to_client) encrypted_response).0
          open_failed
    ensure (plaintext == learning_message) mismatch
    ok plaintext

  module _ (laws : AeadLaws a)
      (encrypts : (c : Cipher) (nonce m aad : Bytes)
        → (ct : Bytes) × (a.encrypt c nonce m aad ≡ some ct)) where
    seal_run :
        (key : Bytes) (d : Direction) (m ct : Bytes)
        → a.encrypt (a.new_cipher key) (packet_nonce d 0) m (packet_header d 0) ≡ some ct
        → seal a (new_sender a key d) m ≡ (
          ok (packet_header d 0 ++ ct),
          record { cipher = a.new_cipher key; direction = d; next_packet_number = 1 },
        )
    unfolding new_sender seal sealed
    seal_run key d m ct e = rw (e, seal) refl

    in_step : (key : Bytes) (d : Direction) → InStep a (new_sender a key d) (new_receiver a key d)
    unfolding new_sender new_receiver
    in_step key d = record { same_cipher = refl; same_direction = refl; same_number = refl }

    -- A fresh sender seals any message, to a packet that is longer by 29 bytes, and a fresh receiver
    -- with the same key and direction opens it.
    fresh_seal :
        (key : Bytes) (d : Direction) (m : Bytes)
        → (p : Bytes) × ((seal a (new_sender a key d) m).0 ≡ ok p)
          × ((receive a (new_receiver a key d) p).0 ≡ ok m)
          × (length p ≡ 29 + length m)
    fresh_seal key d m =
        let (ct, e) = encrypts (a.new_cipher key) (packet_nonce d 0) m (packet_header d 0) in
        let run = seal_run key d m ct e in
        let (opens, _) =
          receive-seal a laws (new_sender a key d) (new_receiver a key d) m
            (packet_header d 0 ++ ct) _ (in_step key d) run in
        (
          packet_header d 0 ++ ct,
          ap (λ t. t.0) run,
          opens,
          omega (
            arith,
            length-append (packet_header d 0) ct,
            length-packet_header d 0,
            laws.adds_tag (a.new_cipher key) (packet_nonce d 0) m (packet_header d 0) ct e,
          ),
        )

    bounded-ok :
        (datagram : Bytes) → length datagram ≤ max_datagram_bytes → bounded datagram ≡ ok tt
    unfolding bounded
    bounded-ok datagram h = rw (le→ltb max_datagram_bytes (length datagram) h) refl

    -- Two sides with the same session keys complete the echo, if the cipher encrypts every message:
    -- the server opens the client's request, from the address of the handshake, to the learning
    -- message, and the client opens the server's response to the same.
    pub echo_completes :
        (keys : SessionKeys) (source : SocketAddr)
        → (request response : Bytes) × (send_request keys ≡ ok request)
          × (serve_echo keys source source request ≡ ok (learning_message, response))
          × (accept_response keys response ≡ ok learning_message)
    unfolding send_request serve_echo accept_response
    echo_completes keys source =
        let (request, sealed, opened, size) =
          fresh_seal keys.client_to_server client_to_server learning_message in
        let (response, sealed', opened', size') =
          fresh_seal keys.server_to_client server_to_client learning_message in
        (
          request,
          response,
          rw sealed refl,
          rw (bounded-ok request (omega (arith, size)), eq_refl source, opened, sealed') refl,
          rw (bounded-ok response (omega (arith, size')), opened', eq_refl learning_message) refl,
        )
