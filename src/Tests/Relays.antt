-- ===== src/Tests/Relays.antt =====
-- The relay's theorems at a session of four datagrams.
use meshlet.Common.{◌≡◌, refl, ◌≢◌, inl, inr, some, List, [], ◌∷◌, arith, nat_eq, list_eq, pair_eq}
use meshlet.Common.Result.{ok}
use meshlet.Net.Calls.{reliable}
use meshlet.Net.Socket.{SocketAddr, v4, socket_beq}
use meshlet.Relay.Forwarding.{Datagram, Between, session, run-session, run_serves}
use meshlet.Relay.State.{
  new, received, from_client, from_upstream, destination_for, forward, forward_one, forward_all,
  run,
}

abbrev peer : SocketAddr
peer = v4 1 7000

abbrev client : SocketAddr
client = v4 2 40000

abbrev others : List Datagram
others = (peer, 20 ∷ []) ∷ (client, 30 ∷ []) ∷ (peer, 40 ∷ []) ∷ []

not_the_peer : client ≢ peer
not_the_peer e = cc

run_serves_example :
    run reliable peer ((client, 10 ∷ []) ∷ others)
    ≡ ok (
      session peer client ((client, 10 ∷ []) ∷ others),
      record { upstream = peer; client = some client },
    )
run_serves_example =
    run_serves reliable peer client (10 ∷ []) others refl not_the_peer
      (inl refl, (inr refl, (inl refl, tt)))
      (omega arith, (omega arith, (omega arith, (omega arith, tt))))

abbrev sent : List Datagram
sent = (peer, 10 ∷ []) ∷ (client, 20 ∷ []) ∷ (peer, 30 ∷ []) ∷ (client, 40 ∷ []) ∷ []

session_run :
    run reliable peer ((client, 10 ∷ []) ∷ others)
    ≡ ok (sent, record { upstream = peer; client = some client })
unfolding run new received from_client from_upstream destination_for forward forward_one forward_all
    socket_beq
session_run = refl

run-session_example :
    (client ≢ peer)
    × Between peer client others
    × (sent ≡ session peer client ((client, 10 ∷ []) ∷ others))
run-session_example =
    run-session reliable peer client (10 ∷ []) others sent
      (record { upstream = peer; client = some client }) session_run
