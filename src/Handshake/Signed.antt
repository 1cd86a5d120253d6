-- ===== src/Handshake/Signed.antt =====
-- src/handshake.rs: what the server's signature stands for.
use meshlet.Common.{◌≡◌, sym, ap, ◌∙◌, [], Bytes, drop, nat_eq, list_eq, pair_eq}
use meshlet.Handshake.Hello.{ClientHello}
use meshlet.Handshake.HelloTrip.{IsClientHello}
use meshlet.Common.Result.{ok-injective}
use meshlet.Handshake.Session.{server_signing_message}
use meshlet.Identity.Hex.{IsArray, encode_hex}
use meshlet.Identity.Keys.{Ed25519, Ed25519Laws}
use meshlet.Identity.Parts.{line-injective, node_id-IsPart, hex-IsPart, encode_hex-injective}

module _ {SigningKey VerifyingKey Signature : Type 0}
    (keys : Ed25519 SigningKey VerifyingKey Signature) (laws : Ed25519Laws keys) where
  -- The signature is determined by its bytes.
  signature-injective : (s t : Signature) → keys.signature_bytes s ≡ keys.signature_bytes t → s ≡ t
  signature-injective s t e = ok-injective (
      sym (laws.signature_read_back s)
      ∙ ap keys.signature_from_bytes e
      ∙ laws.signature_read_back t)

  hello-ext :
      (hello hello' : ClientHello Signature)
      → hello.initiator_id ≡ hello'.initiator_id
      → hello.responder_id ≡ hello'.responder_id
      → hello.exchange_public ≡ hello'.exchange_public
      → hello.signature ≡ hello'.signature
      → hello ≡ hello'
  hello-ext hello hello' p q r s = cc

  -- The server's signature belongs to one exchange: where two signed messages are the same, so are the
  -- client hellos, every field of them, and the server's exchange keys, if the node IDs are valid and
  -- the exchange keys have 32 bytes.
  pub server_signing_message-injective :
      (hello hello' : ClientHello Signature) (public public' : Bytes)
      → IsClientHello keys hello
      → IsClientHello keys hello'
      → IsArray 32 public
      → IsArray 32 public'
      → server_signing_message keys hello public ≡ server_signing_message keys hello' public'
      → (hello ≡ hello') × (public ≡ public')
  unfolding server_signing_message
  server_signing_message-injective hello hello' public public' (i, r, p) (i', r', p') k k' e =
      let (initiator, e₁) =
        line-injective hello.initiator_id hello'.initiator_id _ _ (node_id-IsPart _ i)
          (node_id-IsPart _ i') (ap (drop 56) e) in
      let (responder, e₂) =
        line-injective hello.responder_id hello'.responder_id _ _ (node_id-IsPart _ r)
          (node_id-IsPart _ r') (ap (drop 10) e₁) in
      let (client_hex, e₃) =
        line-injective (encode_hex hello.exchange_public) (encode_hex hello'.exchange_public) _ _
          (hex-IsPart 32 _ p) (hex-IsPart 32 _ p') (ap (drop 23) e₂) in
      let (signature_hex, e₄) =
        line-injective (encode_hex (keys.signature_bytes hello.signature))
          (encode_hex (keys.signature_bytes hello'.signature)) _ _
          (hex-IsPart 64 _ (laws.signature_array _)) (hex-IsPart 64 _ (laws.signature_array _))
          (ap (drop 17) e₃) in
      let (server_hex, _) =
        line-injective (encode_hex public) (encode_hex public') [] [] (hex-IsPart 32 _ k)
          (hex-IsPart 32 _ k') (ap (drop 23) e₄) in
      (
        hello-ext hello hello' initiator responder (encode_hex-injective 32 _ _ p p' client_hex) (
            signature-injective _ _ (
              encode_hex-injective 64 _ _ (laws.signature_array _) (laws.signature_array _)
                signature_hex)),
        encode_hex-injective 32 _ _ k k' server_hex,
      )
