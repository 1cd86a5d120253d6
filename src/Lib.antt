-- ===== src/Lib.antt =====
-- Meshlet, a small mesh VPN over UDP: a model of the Rust crate and the theorems that make it
-- correct. Paths are from the repository's root.
--
-- The parts and how they interact. A node registers with a coordinator (src/coordinator.rs), either
-- openly or with a signature over a challenge (keys in src/identity.rs), and learns from it where
-- the other nodes are and which of them leads to an address (src/routing.rs). Two nodes agree on keys
-- (src/handshake.rs), on a direct path or through a relay (src/relay.rs), and exchange encrypted
-- packets (src/secure_packet.rs). A bridge carries IPv4 packets between a TUN interface and UDP
-- (src/tun.rs), and a table of flows lets replies in (src/firewall.rs).
--
-- Which file models which part:
--   Firewall        src/firewall.rs: Flow the keys, Table the state of `Firewall` and its methods,
--                   Replies its verdicts over a history of traffic
--   SecurePacket    src/secure_packet.rs: Wire the header and the nonce, Channel `PacketSender` and
--                   `PacketReceiver` (`receive` is `open`), Delivery and Replay the theorems
--   Relay           src/relay.rs: State `RelayState` and the loop of `run`, Forwarding the theorems
--   Routing         src/routing.rs: Prefix `Ipv4Prefix`, Registry `RouteRegistry`; Mask, Parse,
--                   Selection and Leases the theorems
--   Coordinator     src/coordinator.rs: NodeId, Request and Response the texts, Registry the open
--                   coordinator, Auth the authenticated one (`register_node` and `lookup_node` are
--                   `register` and `lookup`), AuthServer its loop; Client the clients, as dialogues
--                   of what is sent and what is received; RoundTrip, AuthRoundTrip, Sound, AuthSound,
--                   ClientTexts, Leases, Challenges, Holds, Trace, NoPanic, Signed, Serving,
--                   Enrolment and OpenClients the theorems
--   Identity        src/identity.rs: Hex the hexadecimal coding, Keys identities and signing,
--                   Files and Authorized the contents of the two kinds of files, Generate
--                   `generate` and `write_new`; FileTrip, Listed, Generated, Loaded and Parts the
--                   theorems
--   Handshake       src/handshake.rs: Hello the two messages, Session the checks, the transcript and
--                   the keys, Fallback the client's attempts, Echo the encrypted echo behind
--                   them, Programs `run_secure_echo_server` and the two clients as a whole;
--                   HelloTrip, HelloTexts, Agreement, Signed, Fits, Attempts, Answered, ThroughRelay
--                   and Direct the theorems
--   Tun             src/tun.rs: the checks on packets and the two workers, Interface `open_tun` and
--                   the exchange as a whole; Transparent the theorems
--   Main            src/main.rs: Command the dispatch on the arguments, FirewallDemo, Latency and
--                   Sockets the demonstrations; Dispatch, Ranks, Sorting and RoundTrips the
--                   theorems
--   Errors          the errors of the parsers and of the coordinator, and their texts
--   Common, Text, Net  what the program takes from Rust's standard library: `HashMap`, `Instant`,
--                   `Result`, panics, texts and numbers, socket addresses, and the calls of a socket
--   Tests           runs on concrete inputs, and each theorem at an input that meets its hypotheses
--
-- State is passed explicitly: a method that changes `self` returns the state after it. A panic is a
-- value, `panic` of `Outcome` where the state would be lost, or an error where the caller panics with
-- it. Texts and packets are lists of bytes. An `Instant` is a number of nanoseconds, with the
-- limit of the monotonic clock of 64-bit Linux, seconds in an `i64`. A `HashMap` is an association
-- list in which no key stands twice. Byte counts, ports and sizes are unbounded numbers where the
-- code does not compute with them; the packet number keeps its bound of 64 bits and the mask its
-- shift in 32 bits. There is no fuel: the server loops and the worker's loop are recursive on the
-- list of what arrives, and the relay's loop on its four rounds.
--
-- Code of other crates is a parameter: Ed25519 (`Ed25519`, with its laws in `Ed25519Laws`), X25519,
-- SHA-256 and HKDF (`Exchange`, `ExchangeLaws`), ChaCha20-Poly1305 (`Aead`, `AeadLaws`), and the
-- random bytes of the operating system, which are arguments. The laws say that these work, not that
-- they are secure.
--
-- The file system (`FileSystem`, `FileLaws`) and the TUN device (`Device`) of the operating system
-- are parameters too.
--
-- The calls of sockets are arguments as well: what they receive, and whether they succeed. In the
-- loops of the relay and of the two coordinator servers (`Calls` in Net), each round has its own
-- results of `recv_from` and `send_to`, and a failure is the panic of its `expect`. Elsewhere,
-- but for the attempts of a handshake's client, sends and the TUN workers' reads and writes are taken
-- to succeed: where one fails, the source panics.
--
-- Not modelled: sockets and threads themselves; binding the sockets of these loops; printing, timing
-- and the text of the usage; and the host's script firewall-setup/firewall-setup.sh.
pub mod Common
pub mod Firewall
pub mod Text
pub mod Net
pub mod SecurePacket
pub mod Relay
pub mod Errors
pub mod Routing
pub mod Identity
pub mod Coordinator
pub mod Handshake
pub mod Tun
pub mod Main
pub mod Tests
