-- ===== src/Handshake/Session.antt =====
-- src/handshake.rs: the signatures, the transcript and the session keys, and what each side does with
-- the other's hello. The key exchange is that of the crate `x25519-dalek`, the hash and the
-- expansion those of `sha2` and `hkdf`, and all are a parameter.
use meshlet.Common.{
  Bool, not, ◌||◌, Option, ◌++◌, if◌then◌else◌, Bytes, ◌==◌, nat_eq, list_eq, pair_eq,
}
use meshlet.Common.HashMap.{get}
use meshlet.Common.Result.{Result, ok, err, ensure, ok_or, ◌>>=◌, ◌>>◌}
use meshlet.Handshake.Hello.{
  ClientHello, ServerHello, HandshakeError, wrong_target, not_echoed, unsafe_secret,
  client_key_failed, server_key_failed, no_key, bad_signature, protocol_version, parse_client_hello,
  encode_server_hello, parse_server_hello,
}
use meshlet.Identity.Hex.{encode_hex}
use meshlet.Identity.Keys.{Ed25519, Authorizations, Identity, sign}
use meshlet.Text.{codes}

-- `expand` takes the salt, the input key and the info, and fills 32 bytes.
pub record Exchange (Secret Shared : Type 0) : Type 0 where
  pub public_key : Secret → Bytes
  pub diffie_hellman : Secret → Bytes → Shared
  pub was_contributory : Shared → Bool
  pub digest : Bytes → Bytes
  pub expand : Bytes → Shared → Bytes → Option Bytes

pub record SessionKeys : Type 0 where
  pub client_to_server : Bytes
  pub server_to_client : Bytes

unfoldable pub client_signing_message : Bytes → Bytes → Bytes → Bytes
client_signing_message initiator_id responder_id exchange_public =
    codes "MESHLET-HANDSHAKE-CLIENT/1\nprotocol:"
    ++ (protocol_version
        ++ (codes "\ninitiator:"
            ++ (initiator_id
                ++ (codes "\nresponder:"
                    ++ (responder_id
                        ++ (codes "\nexchange-public:"
                            ++ (encode_hex exchange_public ++ codes "\n")))))))

module _ {SigningKey VerifyingKey Signature : Type 0}
    (keys : Ed25519 SigningKey VerifyingKey Signature) where
  unfoldable pub server_signing_message : ClientHello Signature → Bytes → Bytes
  server_signing_message client server_exchange_public =
      codes "MESHLET-HANDSHAKE-SERVER/1\nprotocol:"
      ++ (protocol_version
          ++ (codes "\ninitiator:"
              ++ (client.initiator_id
                  ++ (codes "\nresponder:"
                      ++ (client.responder_id
                          ++ (codes "\nclient-exchange-public:"
                              ++ (encode_hex client.exchange_public
                                  ++ (codes "\nclient-signature:"
                                      ++ (encode_hex (keys.signature_bytes client.signature)
                                          ++ (codes "\nserver-exchange-public:"
                                              ++ (encode_hex server_exchange_public
                                                  ++ codes "\n")))))))))))

  unfoldable pub handshake_transcript : ClientHello Signature → ServerHello Signature → Bytes
  handshake_transcript client server =
      client_signing_message client.initiator_id client.responder_id client.exchange_public
      ++ (keys.signature_bytes client.signature
          ++ (server_signing_message client server.server_exchange_public
              ++ keys.signature_bytes server.signature))

  unfoldable pub verify_signature :
      Authorizations VerifyingKey → Bytes → Bytes → Signature → Result HandshakeError (Unit {0})
  verify_signature authorizations node_id message signature = do
    public_key ← ok_or (get node_id authorizations) (no_key node_id)
    ensure (keys.verify_strict public_key message signature) (bad_signature node_id)

  unfoldable pub validate_server_hello :
      ServerHello Signature → ClientHello Signature → Result HandshakeError (Unit {0})
  validate_server_hello server client =
      if not (server.initiator_id == client.initiator_id)
        || (not (server.responder_id == client.responder_id)
            || not (server.client_exchange_public == client.exchange_public))
      then err not_echoed
      else ok tt

  module _ {Secret Shared : Type 0} (x : Exchange Secret Shared) where
    unfoldable pub derive_session_keys : Shared → Bytes → Result HandshakeError SessionKeys
    derive_session_keys shared transcript = do
      ensure (x.was_contributory shared) unsafe_secret
      let salt = x.digest transcript
      client_to_server ←
          ok_or (x.expand salt shared (codes "MESHLET/3 client-to-server encryption key"))
            client_key_failed
      server_to_client ←
          ok_or (x.expand salt shared (codes "MESHLET/3 server-to-client encryption key"))
            server_key_failed
      ok (record { client_to_server = client_to_server; server_to_client = server_to_client })

    -- The hello of a client, as `establish_client_session` makes it.
    unfoldable pub client_hello : Identity SigningKey → Bytes → Secret → ClientHello Signature
    client_hello identity peer_node_id secret = record {
      initiator_id = identity.node_id;
      responder_id = peer_node_id;
      exchange_public = x.public_key secret;
      signature =
          sign keys identity
            (client_signing_message identity.node_id peer_node_id (x.public_key secret));
    }

    -- The hello with which `run_secure_echo_server` answers.
    unfoldable pub server_hello :
        Identity SigningKey → ClientHello Signature → Secret → ServerHello Signature
    server_hello identity client secret = record {
      initiator_id = client.initiator_id;
      responder_id = client.responder_id;
      client_exchange_public = client.exchange_public;
      server_exchange_public = x.public_key secret;
      signature = sign keys identity (server_signing_message client (x.public_key secret));
    }

    -- The checks of `run_secure_echo_server` on a client hello. It panics where this is an error.
    unfoldable pub check_client :
        Identity SigningKey
        → Authorizations VerifyingKey
        → ClientHello Signature
        → Result HandshakeError (Unit {0})
    check_client identity authorizations client = do
      ensure (client.responder_id == identity.node_id)
          (wrong_target client.responder_id identity.node_id)
      verify_signature authorizations client.initiator_id
          (client_signing_message client.initiator_id client.responder_id client.exchange_public)
          client.signature

    -- From the received client hello to the one that is sent, and the keys: the server's half.
    unfoldable pub serve_hello :
        Identity SigningKey
        → Authorizations VerifyingKey
        → Secret
        → Bytes
        → Result HandshakeError (Bytes × Bytes × SessionKeys)
    serve_hello identity authorizations secret message = do
      client ← parse_client_hello keys message
      check_client identity authorizations client
      let server = server_hello identity client secret
      let transcript = handshake_transcript client server
      session ← derive_session_keys (x.diffie_hellman secret client.exchange_public) transcript
      ok (encode_server_hello keys server, transcript, session)

    -- What `establish_client_session` makes of the server's hello: the peer, the transcript
    -- and the keys.
    unfoldable pub accept_hello :
        Authorizations VerifyingKey
        → ClientHello Signature
        → Secret
        → Bytes
        → Result HandshakeError (Bytes × Bytes × SessionKeys)
    accept_hello authorizations client secret message = do
      server ← parse_server_hello keys message
      validate_server_hello server client
      verify_signature authorizations server.responder_id
          (server_signing_message client server.server_exchange_public) server.signature
      let transcript = handshake_transcript client server
      session ←
          derive_session_keys (x.diffie_hellman secret server.server_exchange_public) transcript
      ok (server.responder_id, transcript, session)
