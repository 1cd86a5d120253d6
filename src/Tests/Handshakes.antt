-- ===== src/Tests/Handshakes.antt =====
-- The handshake's theorems between two nodes under the toy crates.
use meshlet.Common.{ℕ, ◌≡◌, refl, true, some, [], ◌∷◌, Bytes, nat_eq, list_beq, list_eq, pair_eq}
use meshlet.Common.HashMap.{get}
use meshlet.Common.Result.{ok}
use meshlet.Coordinator.NodeId.{valid_node_id}
use meshlet.Handshake.Agreement.{handshake_agrees}
use meshlet.Handshake.Fallback.{Attempt}
use meshlet.Handshake.Hello.{encode_client_hello}
use meshlet.Handshake.Session.{SessionKeys, client_hello, serve_hello, accept_hello}
use meshlet.Identity.Keys.{Authorizations, Identity}
use meshlet.Tests.Toys.{toy_keys, toy_keys-Ed25519Laws, toy_exchange, toy_exchange-ExchangeLaws}
use meshlet.Text.{codes}

abbrev client : Identity ℕ
client = record { node_id = codes "mesh-a"; signing_key = 11 }

abbrev server : Identity ℕ
server = record { node_id = codes "mesh-b"; signing_key = 12 }

abbrev both : Authorizations ℕ
both = (codes "mesh-a", 11) ∷ (codes "mesh-b", 12) ∷ []

client_valid : valid_node_id client.node_id ≡ true
unfolding valid_node_id
client_valid = refl

server_valid : valid_node_id server.node_id ≡ true
unfolding valid_node_id
server_valid = refl

has_client : get client.node_id both ≡ some 11
unfolding get list_beq
has_client = refl

has_server : get server.node_id both ≡ some 12
unfolding get list_beq
has_server = refl

handshake_agrees_example :
    (reply transcript : Bytes) × (session : SessionKeys) × (serve_hello toy_keys toy_exchange server
        both 5
        (encode_client_hello toy_keys (client_hello toy_keys toy_exchange client server.node_id 3))
      ≡ ok (reply, transcript, session))
    × (accept_hello toy_keys toy_exchange both
          (client_hello toy_keys toy_exchange client server.node_id 3)
          3
          reply
        ≡ ok (server.node_id, transcript, session))
handshake_agrees_example =
    handshake_agrees toy_keys toy_keys-Ed25519Laws toy_exchange toy_exchange-ExchangeLaws client
      server both both 3 5 client_valid server_valid has_server has_client refl

-- A direct candidate that answers with a text that is no hello.
abbrev network : Bytes → Attempt
network address = record {
  bind = ok tt;
  connect = ok tt;
  set_read_timeout = ok tt;
  send = ok tt;
  recv = ok (codes "no hello");
}
