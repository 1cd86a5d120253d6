-- ===== src/Main/Sockets.antt =====
-- src/main.rs: the socket demonstrations. What the socket calls give is an argument, none for an
-- error, on which they panic, and sends are taken to succeed; the results are what is sent and what is printed as received.
use meshlet.Common.{ℕ, Option, List, [], ◌∷◌, Bytes, take, nat_eq, list_eq, pair_eq}
use meshlet.Common.Outcome.{Outcome, done, ◌>>=◌, expect, socket_failed}
use meshlet.Net.Socket.{SocketAddr}
use meshlet.Text.{codes}

abbrev pub demo_buffer : ℕ
demo_buffer = 1024

-- The datagram before it is cut to the buffer, and its source.
abbrev pub Received : Type 0
Received = Option (Bytes × SocketAddr)

-- What one `read` gives, and the bytes that are written back.
unfoldable pub tcp_server : Option Bytes → Outcome Bytes
tcp_server available = do bytes ← expect available socket_failed; done (take demo_buffer bytes)

-- The bytes that are written, and those that are read up to the end of the stream.
unfoldable pub tcp_client : Option Bytes → Outcome (Bytes × Bytes)
tcp_client stream = do
  response ← expect stream socket_failed
  done (codes "hello from tcp client\n", response)

-- The datagram that is sent back, with its destination.
unfoldable pub udp_server : Received → Outcome (Bytes × SocketAddr)
udp_server received = do
  (datagram, remote_addr) ← expect received socket_failed
  done (take demo_buffer datagram, remote_addr)

unfoldable pub udp_client : Received → Outcome (Bytes × (Bytes × SocketAddr))
udp_client received = do
  (datagram, remote_addr) ← expect received socket_failed
  done (codes "hello from udp client\n", (take demo_buffer datagram, remote_addr))

abbrev pub bench_buffer : ℕ
bench_buffer = 2048

-- One round of the loop of `udp_bench_server`.
unfoldable pub bench_echo : Bytes × SocketAddr → Bytes × SocketAddr
bench_echo (datagram, remote_addr) = (take bench_buffer datagram, remote_addr)

-- The loop, for as many datagrams as are received.
unfoldable pub udp_bench_server : List (Bytes × SocketAddr) → List (Bytes × SocketAddr)
unfolding bench_echo
udp_bench_server [] = []
udp_bench_server (received ∷ rest) = bench_echo received ∷ udp_bench_server rest
