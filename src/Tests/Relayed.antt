-- ===== src/Tests/Relayed.antt =====
-- The encrypted echo through the relay, and the server's signed message, under the toy crates.
use meshlet.Common.{
  ℕ, ◌≡◌, refl, ap, ◌≢◌, Bool, true, some, [], ◌∷◌, ◌++◌, arith, Bytes, get_or, nat_eq, list_beq,
  list_eq, pair_eq,
}
use meshlet.Common.HashMap.{get}
use meshlet.Common.Result.{ok}
use meshlet.Coordinator.NodeId.{valid_node_id}
use meshlet.Handshake.Attempts.{opens, one_silent}
use meshlet.Handshake.Direct.{secure_echo_direct}
use meshlet.Handshake.Echo.{learning_message}
use meshlet.Handshake.Hello.{ClientHello}
use meshlet.Handshake.Programs.{
  material, hello_text, run_secure_echo_server, run_secure_echo_client_auto,
}
use meshlet.Handshake.Programs.{run_secure_echo_client}
use meshlet.Handshake.Signed.{server_signing_message-injective}
use meshlet.Handshake.ThroughRelay.{secure_echo_through_relay}
use meshlet.Identity.Keys.{Authorizations, Identity}
use meshlet.Net.Calls.{reliable}
use meshlet.Net.Socket.{SocketAddr, v4}
use meshlet.Relay.State.{run}
use meshlet.Tests.Toys.{
  copies, toy_keys, toy_keys-Ed25519Laws, toy_exchange, toy_exchange-ExchangeLaws, toy_cipher,
  toy_cipher-AeadLaws,
}
use meshlet.Text.{codes}

abbrev client : Identity ℕ
client = record { node_id = codes "mesh-a"; signing_key = 11 }

abbrev server : Identity ℕ
server = record { node_id = codes "mesh-b"; signing_key = 12 }

abbrev both : Authorizations ℕ
both = (codes "mesh-a", 11) ∷ (codes "mesh-b", 12) ∷ []

abbrev direct : Bytes
direct = codes "10.0.0.2:7000"

abbrev relay : Bytes
relay = codes "10.0.0.9:7100"

abbrev client_at : SocketAddr
client_at = v4 1 40000

abbrev relay_at : SocketAddr
relay_at = v4 9 7100

abbrev server_at : SocketAddr
server_at = v4 2 7000

client_valid : valid_node_id client.node_id ≡ true
unfolding valid_node_id
client_valid = refl

server_valid : valid_node_id server.node_id ≡ true
unfolding valid_node_id
server_valid = refl

has_client : get client.node_id both ≡ some 11
unfolding get list_beq
has_client = refl

has_server : get server.node_id both ≡ some 12
unfolding get list_beq
has_server = refl

other_path : relay ≢ direct
other_path e = absurd (omega (arith, ap (λ s. get_or s 7 0) e))

other_end : client_at ≢ server_at
other_end e = cc

secure_echo_through_relay_example :
    (hello reply request response : Bytes) × (run_secure_echo_client_auto toy_keys toy_exchange
        toy_cipher
        (material toy_keys toy_exchange client both)
        direct
        relay
        server.node_id
        3
        4
        (one_silent direct (codes "timed out") reply)
        (ok response)
      ≡ (
        (direct, hello_text toy_keys toy_exchange client server.node_id 3)
            ∷ (relay, hello)
            ∷ (relay, request)
            ∷ [],
        ok learning_message,
      ))
    × (run_secure_echo_server toy_keys toy_exchange toy_cipher
          (material toy_keys toy_exchange server both)
          5
          (ok (relay_at, hello))
          (ok (relay_at, request))
        ≡ ((relay_at, reply) ∷ (relay_at, response) ∷ [], ok learning_message))
    × (run reliable server_at (
          (client_at, hello)
          ∷ (server_at, reply)
          ∷ (client_at, request)
          ∷ (server_at, response)
          ∷ [])
        ≡ ok (
          (server_at, hello)
              ∷ (client_at, reply)
              ∷ (server_at, request)
              ∷ (client_at, response)
              ∷ [],
          record { upstream = server_at; client = some client_at },
        ))
secure_echo_through_relay_example =
    secure_echo_through_relay toy_keys toy_keys-Ed25519Laws toy_exchange toy_exchange-ExchangeLaws
      toy_cipher toy_cipher-AeadLaws (λ c nonce m aad. (m ++ copies 16 0, refl)) client server both
      both direct relay (codes "timed out") client_at relay_at server_at 3 4 5 other_path other_end
      client_valid server_valid has_server has_client refl

secure_echo_direct_example :
    (hello reply request response : Bytes) × (run_secure_echo_client toy_keys toy_exchange
        toy_cipher
        (material toy_keys toy_exchange client both)
        direct
        server.node_id
        3
        (opens (ok reply))
        (ok response)
      ≡ (hello ∷ request ∷ [], ok learning_message))
    × (run_secure_echo_server toy_keys toy_exchange toy_cipher
          (material toy_keys toy_exchange server both)
          5
          (ok (client_at, hello))
          (ok (client_at, request))
        ≡ ((client_at, reply) ∷ (client_at, response) ∷ [], ok learning_message))
secure_echo_direct_example =
    secure_echo_direct toy_keys toy_keys-Ed25519Laws toy_exchange toy_exchange-ExchangeLaws
      toy_cipher toy_cipher-AeadLaws (λ c nonce m aad. (m ++ copies 16 0, refl)) client server both
      both direct client_at 3 5 client_valid server_valid has_server has_client refl

abbrev hello : ClientHello Bool
hello = record {
  initiator_id = client.node_id;
  responder_id = server.node_id;
  exchange_public = copies 32 3;
  signature = true;
}

server_signing_message-injective_example : (hello ≡ hello) × (copies 32 5 ≡ copies 32 5)
server_signing_message-injective_example =
    server_signing_message-injective toy_keys toy_keys-Ed25519Laws hello hello (copies 32 5)
      (copies 32 5) (client_valid, server_valid, toy_exchange-ExchangeLaws.public_array 3)
      (client_valid, server_valid, toy_exchange-ExchangeLaws.public_array 3)
      (toy_exchange-ExchangeLaws.public_array 5) (toy_exchange-ExchangeLaws.public_array 5) refl
