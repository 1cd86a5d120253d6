-- ===== src/Handshake/HelloTexts.antt =====
-- src/handshake.rs: the hellos fit a datagram of 1024 bytes, as valid UTF-8.
use meshlet.Common.{◌≤◌, ◌≡◌, true, arith, length, nat_eq, list_eq, pair_eq}
use meshlet.Coordinator.ClientTexts.{node_id-le}
use meshlet.Handshake.Hello.{ClientHello, ServerHello, encode_client_hello, encode_server_hello}
use meshlet.Handshake.HelloTrip.{
  IsClientHello, IsServerHello, client_fields, server_fields, client_fields-IsField,
  server_fields-IsField,
}
use meshlet.Identity.Hex.{length-encode_hex}
use meshlet.Identity.Keys.{Ed25519, Ed25519Laws}
use meshlet.Text.Fields.{spaced_fields}
use meshlet.Text.Sizes.{length-spaced-le}
use meshlet.Text.Utf8.{is_utf8}

module _ {SigningKey VerifyingKey Signature : Type 0}
    (keys : Ed25519 SigningKey VerifyingKey Signature) (laws : Ed25519Laws keys) where
  pub client_hello_fits :
      (hello : ClientHello Signature)
      → IsClientHello keys hello
      → (is_utf8 (encode_client_hello keys hello) ≡ true)
        × (length (encode_client_hello keys hello) ≤ 1024)
  unfolding encode_client_hello
  client_hello_fits hello (i, r, public) = (
    (spaced_fields (client_fields keys laws hello)
        (client_fields-IsField keys laws hello (i, r, public))).0,
    omega (
      arith,
      length-spaced-le (client_fields keys laws hello),
      node_id-le hello.initiator_id i,
      node_id-le hello.responder_id r,
      length-encode_hex hello.exchange_public,
      public.0,
      length-encode_hex (keys.signature_bytes hello.signature),
      (laws.signature_array hello.signature).0,
    ),
  )

  pub server_hello_fits :
      (hello : ServerHello Signature)
      → IsServerHello keys hello
      → (is_utf8 (encode_server_hello keys hello) ≡ true)
        × (length (encode_server_hello keys hello) ≤ 1024)
  unfolding encode_server_hello
  server_hello_fits hello (i, r, client, server) = (
    (spaced_fields (server_fields keys laws hello)
        (server_fields-IsField keys laws hello (i, r, client, server))).0,
    omega (
      arith,
      length-spaced-le (server_fields keys laws hello),
      node_id-le hello.initiator_id i,
      node_id-le hello.responder_id r,
      length-encode_hex hello.client_exchange_public,
      client.0,
      length-encode_hex hello.server_exchange_public,
      server.0,
      length-encode_hex (keys.signature_bytes hello.signature),
      (laws.signature_array hello.signature).0,
    ),
  )
