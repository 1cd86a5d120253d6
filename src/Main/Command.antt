-- ===== src/Main/Command.antt =====
-- src/main.rs: `main`, up to the call of the mechanism that a command names. The arguments are those
-- behind the program's name; `env::args` has checked that they are text.
use meshlet.Common.{
  ℕ, Option, none, some, List, [], ◌∷◌, ◌++◌, if◌then◌else◌, Bytes, get_elem?, get_or, ◌==◌, nat_eq,
  list_eq, pair_eq,
}
use meshlet.Common.Result.{Result, ok, ok_or, ◌>>=◌}
use meshlet.Text.Decimal.{parse_unsigned, max_u64}
use meshlet.Text.{codes}

abbrev pub default_rtt_samples : ℕ
default_rtt_samples = 10_000

-- The calls that `main` makes, with their arguments.
pub data Command : Type 0 where
  tcp_server tcp_client udp_server udp_bench_server : Bytes → Command
  udp_client : Bytes → Bytes → Command
  udp_rtt_client : Bytes → Bytes → ℕ → Command
  firewall_demo : Command
  identity_generate : Bytes → Bytes → Bytes → Command
  run_server : Bytes → Command
  register : Bytes → Bytes → Bytes → ℕ → Command
  lookup : Bytes → Bytes → Bytes → Command
  run_authenticated_server : Bytes → Bytes → Command
  register_authenticated : Bytes → Bytes → Bytes → ℕ → Bytes → Command
  lookup_authenticated : Bytes → Bytes → Bytes → Command
  advertise_route : Bytes → Bytes → Bytes → Bytes → ℕ → Command
  route_lookup : Bytes → Bytes → Bytes → Command
  run_secure_echo_server : Bytes → Bytes → Bytes → Command
  run_secure_echo_client : Bytes → Bytes → Bytes → Bytes → Bytes → Command
  run_secure_echo_client_auto : Bytes → Bytes → Bytes → Bytes → Bytes → Bytes → Command
  relay_run : Bytes → Bytes → Command
  run_one_exchange : Bytes → Bytes → Bytes → Command
  print_usage : Command

-- The two texts of a panic on a number.
pub data CommandError : Type 0 where
  samples_not_integer lease_not_integer : CommandError

-- `args.next().unwrap_or_else(…)`, for the argument at a place.
abbrev pub next_or : List Bytes → ℕ → Bytes → Bytes
next_or args i default = get_or args i default

-- `args.next().map(|value| value.parse().expect(…)).unwrap_or(…)`, on 64-bit numbers.
unfoldable pub number_or : List Bytes → ℕ → CommandError → ℕ → Result CommandError ℕ
number_or args i e default = elim (get_elem? args i) [
  | none ↦ ok default
  | some value ↦ ok_or (parse_unsigned max_u64 value) e
]

abbrev pub default_bind : Bytes
default_bind = codes "127.0.0.1:0"

abbrev pub default_server : Bytes
default_server = codes "127.0.0.1:9000"

-- The path of a node's key file.
abbrev pub key_path : Bytes → Bytes → Bytes
key_path node_id suffix = codes ".meshlet/keys/" ++ (node_id ++ suffix)

-- The socket demonstrations, the firewall's and `identity-generate`.
unfoldable pub demo_command : Bytes → List Bytes → Option (Result CommandError Command)
demo_command mode args =
    if mode == codes "tcp-server"
    then some (ok (tcp_server (next_or args 0 (codes "127.0.0.1:8000"))))
    else if mode == codes "tcp-client"
    then some (ok (tcp_client (next_or args 0 (codes "127.0.0.1:8000"))))
    else if mode == codes "udp-server"
    then some (ok (udp_server (next_or args 0 (codes "127.0.0.1:8000"))))
    else if mode == codes "udp-client"
    then some
        (ok (udp_client (next_or args 0 default_bind) (next_or args 1 (codes "127.0.0.1:8000"))))
    else if mode == codes "udp-bench-server"
    then some (ok (udp_bench_server (next_or args 0 (codes "127.0.0.1:8000"))))
    else if mode == codes "udp-rtt-client"
    then some (do
      samples ← number_or args 2 samples_not_integer default_rtt_samples
      ok (
          udp_rtt_client (next_or args 0 default_bind) (next_or args 1 (codes "127.0.0.1:8000"))
            samples))
    else if mode == codes "firewall-demo"
    then some (ok firewall_demo)
    else if mode == codes "identity-generate"
    then some (
        ok (
          identity_generate (next_or args 0 (codes "mesh-a"))
            (next_or args 1 (key_path (next_or args 0 (codes "mesh-a")) (codes ".identity")))
            (next_or args 2 (key_path (next_or args 0 (codes "mesh-a")) (codes ".authorization")))))
    else none

-- The coordinator's servers and clients.
unfoldable pub coordinator_command : Bytes → List Bytes → Option (Result CommandError Command)
coordinator_command mode args =
    if mode == codes "coordinator-server"
    then some (ok (run_server (next_or args 0 default_server)))
    else if mode == codes "coordinator-register"
    then some (do
      lease_seconds ← number_or args 3 lease_not_integer 30
      ok (
          register (next_or args 0 default_bind) (next_or args 1 default_server)
            (next_or args 2 (codes "mesh-a")) lease_seconds))
    else if mode == codes "coordinator-lookup"
    then some (
        ok (
          lookup (next_or args 0 default_bind) (next_or args 1 default_server)
            (next_or args 2 (codes "mesh-a"))))
    else if mode == codes "coordinator-server-auth"
    then some (
        ok (
          run_authenticated_server (next_or args 0 default_server)
            (next_or args 1 (codes ".meshlet/keys/authorized-nodes"))))
    else if mode == codes "coordinator-route-server"
    then some (ok (run_server (next_or args 0 default_server)))
    else if mode == codes "coordinator-register-auth"
    then some (do
      lease_seconds ← number_or args 3 lease_not_integer 30
      ok (
          register_authenticated (next_or args 0 default_bind) (next_or args 1 default_server)
            (next_or args 2 (codes "mesh-a")) lease_seconds
            (next_or args 4 (key_path (next_or args 2 (codes "mesh-a")) (codes ".identity")))))
    else if mode == codes "coordinator-lookup-auth"
    then some (
        ok (
          lookup_authenticated (next_or args 0 default_bind) (next_or args 1 default_server)
            (next_or args 2 (codes "mesh-a"))))
    else if mode == codes "coordinator-advertise-route"
    then some (do
      lease_seconds ← number_or args 4 lease_not_integer 120
      ok (
          advertise_route (next_or args 0 default_bind) (next_or args 1 default_server)
            (next_or args 2 (codes "mesh-b")) (next_or args 3 (codes "10.30.0.0/24"))
            lease_seconds))
    else if mode == codes "coordinator-route-lookup"
    then some (
        ok (
          route_lookup (next_or args 0 default_bind) (next_or args 1 default_server)
            (next_or args 2 (codes "10.30.0.2"))))
    else none

-- The handshake, the relay and the tunnel.
unfoldable pub secure_command : Bytes → List Bytes → Option (Result CommandError Command)
secure_command mode args =
    if mode == codes "secure-echo-server"
    then some (
        ok (
          run_secure_echo_server (next_or args 0 (codes "127.0.0.1:7000"))
            (next_or args 1 (codes ".meshlet/keys/mesh-b.identity"))
            (next_or args 2 (codes ".meshlet/keys/authorized-nodes"))))
    else if mode == codes "secure-echo-client"
    then some (
        ok (
          run_secure_echo_client (next_or args 0 default_bind)
            (next_or args 1 (codes "127.0.0.1:7000"))
            (next_or args 2 (codes ".meshlet/keys/mesh-a.identity"))
            (next_or args 3 (codes "mesh-b"))
            (next_or args 4 (codes ".meshlet/keys/mesh-b.authorization"))))
    else if mode == codes "secure-echo-client-auto"
    then some (
        ok (
          run_secure_echo_client_auto (next_or args 0 default_bind)
            (next_or args 1 (codes "127.0.0.1:7000")) (next_or args 2 (codes "127.0.0.1:7100"))
            (next_or args 3 (codes ".meshlet/keys/mesh-a.identity"))
            (next_or args 4 (codes "mesh-b"))
            (next_or args 5 (codes ".meshlet/keys/mesh-b.authorization"))))
    else if mode == codes "udp-relay"
    then some (
        ok (
          relay_run (next_or args 0 (codes "127.0.0.1:7100"))
            (next_or args 1 (codes "127.0.0.1:7000"))))
    else if mode == codes "tun-udp-one"
    then some (
        ok (
          run_one_exchange (next_or args 0 (codes "meshlet0"))
            (next_or args 1 (codes "127.0.0.1:7200")) (next_or args 2 (codes "127.0.0.1:7201"))))
    else none

abbrev or_else {ℓ} : {A : Type ℓ} → Option A → Option A → Option A
or_else none o = o
or_else (some a) o = some a

abbrev or_usage : Option (Result CommandError Command) → Result CommandError Command
or_usage none = ok print_usage
or_usage (some r) = r

unfoldable pub dispatch : List Bytes → Result CommandError Command
unfolding demo_command coordinator_command secure_command
dispatch [] = ok print_usage
dispatch (mode ∷ args) = or_usage (
    or_else (demo_command mode args)
      (or_else (coordinator_command mode args) (secure_command mode args)))
