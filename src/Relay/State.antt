-- ===== src/Relay/State.antt =====
-- src/relay.rs: `RelayState` and the loop of `run`. What the socket hands over, a datagram and its
-- source, is an argument; what is sent is a result.
use meshlet.Common.{
  ℕ, zero, suc, ◌+◌, not, Option, none, some, List, [], ◌∷◌, ltb, if◌then◌else◌, Bytes, length,
  take, ◌==◌, nat_eq, list_eq, pair_eq,
}
use meshlet.Common.Result.{Result, ok, err, ensure, ◌>>=◌, ◌>>◌}
use meshlet.Net.Calls.{Calls}
use meshlet.Net.Socket.{SocketAddr, socket_eq}

abbrev pub max_datagram_bytes : ℕ
max_datagram_bytes = 2048

abbrev pub datagrams_in_one_secure_echo : ℕ
datagrams_in_one_secure_echo = 4

pub record RelayState : Type 0 where
  pub upstream : SocketAddr
  pub client : Option SocketAddr

-- The first two are the errors of `destination_for`; in `run` each of these is a panic, the last two
-- those of the socket's calls.
pub data RelayError : Type 0 where
  upstream_first : RelayError
  second_client : SocketAddr → SocketAddr → RelayError
  datagram_size receive_failed send_failed : RelayError

unfoldable pub new : SocketAddr → RelayState
new upstream = record { upstream = upstream; client = none }

-- The `match self.client` of `destination_for`, where the source is not the upstream peer.
unfoldable pub from_client :
    RelayState → Option SocketAddr → SocketAddr → Result RelayError SocketAddr × RelayState
from_client s none source = (ok s.upstream, record s { client = some source })
from_client s (some client) source =
    if source == client then (ok s.upstream, s) else (err (second_client client source), s)

-- The reply to the upstream peer: `self.client.ok_or_else(…)`.
unfoldable pub from_upstream : Option SocketAddr → Result RelayError SocketAddr
from_upstream none = err upstream_first
from_upstream (some client) = ok client

unfoldable pub destination_for : RelayState → SocketAddr → Result RelayError SocketAddr × RelayState
unfolding from_client from_upstream
destination_for s source =
    if source == s.upstream then (from_upstream s.client, s) else from_client s s.client source

-- `recv_from` fills a buffer of one byte more than the limit, and drops what does not fit.
unfoldable pub received : Bytes → Bytes
received datagram = take (max_datagram_bytes + 1) datagram

-- What a round computes between its two calls of the socket: the destination, the payload to send
-- there, and the state after it.
unfoldable pub forward :
    RelayState → SocketAddr → Bytes → Result RelayError ((SocketAddr × Bytes) × RelayState)
unfolding destination_for
forward s source datagram = do
  let payload = received datagram
  ensure (not (ltb max_datagram_bytes (length payload))) datagram_size
  let routed = destination_for s source
  destination ← routed.0
  ok ((destination, payload), routed.1)

-- One round of the loop, with its calls of `recv_from` and `send_to`.
unfoldable pub forward_one :
    Calls
    → ℕ
    → RelayState
    → SocketAddr
    → Bytes
    → Result RelayError ((SocketAddr × Bytes) × RelayState)
forward_one calls round s source datagram = do
  ensure (calls.receives round) receive_failed
  forwarded ← forward s source datagram
  ensure (calls.sends round) send_failed
  ok forwarded

-- The loop, from a round on for as many rounds as are left, and with the datagrams that arrive. Where
-- these run out it waits: the result is what has been sent until then.
unfoldable pub forward_all :
    Calls
    → ℕ
    → ℕ
    → RelayState
    → List (SocketAddr × Bytes)
    → Result RelayError (List (SocketAddr × Bytes) × RelayState)
forward_all calls round zero s arrivals = ok ([], s)
forward_all calls round (suc left) s [] = ok ([], s)
forward_all calls round (suc left) s ((source, datagram) ∷ arrivals) = do
  (sent, s') ← forward_one calls round s source datagram
  (rest, s'') ← forward_all calls (suc round) left s' arrivals
  ok (sent ∷ rest, s'')

-- `run`, once the socket is bound.
unfoldable pub run :
    Calls
    → SocketAddr
    → List (SocketAddr × Bytes)
    → Result RelayError (List (SocketAddr × Bytes) × RelayState)
unfolding new forward_all
run calls upstream arrivals =
    forward_all calls 0 datagrams_in_one_secure_echo (new upstream) arrivals
