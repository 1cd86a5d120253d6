-- ===== src/Main/Dispatch.antt =====
-- src/main.rs: every call that `main` can make is made by some command line.
use meshlet.Common.{
  ℕ, ◌≤◌, ◌≡◌, refl, some, List, [], ◌∷◌, Bytes, get_elem?, nat_eq, list_beq, list_eq, pair_eq,
}
use meshlet.Common.Result.{ok}
use meshlet.Main.Command.{
  Command, tcp_server, tcp_client, udp_server, udp_client, udp_bench_server, udp_rtt_client,
  firewall_demo, identity_generate, run_server, register, lookup, run_authenticated_server,
  register_authenticated, lookup_authenticated, advertise_route, route_lookup,
  run_secure_echo_server, run_secure_echo_client, run_secure_echo_client_auto, relay_run,
  run_one_exchange, print_usage, CommandError, number_or, demo_command, coordinator_command,
  secure_command, dispatch,
}
use meshlet.Text.Decimal.{decimal, max_u64, parse_unsigned-decimal}
use meshlet.Text.{codes}

-- The command line with every argument written out.
unfoldable pub command_line : Command → List Bytes
command_line (tcp_server a) = codes "tcp-server" ∷ a ∷ []
command_line (tcp_client a) = codes "tcp-client" ∷ a ∷ []
command_line (udp_server a) = codes "udp-server" ∷ a ∷ []
command_line (udp_bench_server a) = codes "udp-bench-server" ∷ a ∷ []
command_line (udp_client a b) = codes "udp-client" ∷ a ∷ b ∷ []
command_line (udp_rtt_client a b n) = codes "udp-rtt-client" ∷ a ∷ b ∷ decimal n ∷ []
command_line firewall_demo = codes "firewall-demo" ∷ []
command_line (identity_generate a b c) = codes "identity-generate" ∷ a ∷ b ∷ c ∷ []
command_line (run_server a) = codes "coordinator-server" ∷ a ∷ []
command_line (register a b c n) = codes "coordinator-register" ∷ a ∷ b ∷ c ∷ decimal n ∷ []
command_line (lookup a b c) = codes "coordinator-lookup" ∷ a ∷ b ∷ c ∷ []
command_line (run_authenticated_server a b) = codes "coordinator-server-auth" ∷ a ∷ b ∷ []
command_line (register_authenticated a b c n d) =
    codes "coordinator-register-auth" ∷ a ∷ b ∷ c ∷ decimal n ∷ d ∷ []
command_line (lookup_authenticated a b c) = codes "coordinator-lookup-auth" ∷ a ∷ b ∷ c ∷ []
command_line (advertise_route a b c d n) =
    codes "coordinator-advertise-route" ∷ a ∷ b ∷ c ∷ d ∷ decimal n ∷ []
command_line (route_lookup a b c) = codes "coordinator-route-lookup" ∷ a ∷ b ∷ c ∷ []
command_line (run_secure_echo_server a b c) = codes "secure-echo-server" ∷ a ∷ b ∷ c ∷ []
command_line (run_secure_echo_client a b c d e) =
    codes "secure-echo-client" ∷ a ∷ b ∷ c ∷ d ∷ e ∷ []
command_line (run_secure_echo_client_auto a b c d e f) =
    codes "secure-echo-client-auto" ∷ a ∷ b ∷ c ∷ d ∷ e ∷ f ∷ []
command_line (relay_run a b) = codes "udp-relay" ∷ a ∷ b ∷ []
command_line (run_one_exchange a b c) = codes "tun-udp-one" ∷ a ∷ b ∷ c ∷ []
command_line print_usage = []

-- The numbers of a call have 64 bits.
abbrev pub HasNumbers : Command → Type 0
HasNumbers (udp_rtt_client _ _ n) = n ≤ max_u64
HasNumbers (register _ _ _ n) = n ≤ max_u64
HasNumbers (register_authenticated _ _ _ n _) = n ≤ max_u64
HasNumbers (advertise_route _ _ _ _ n) = n ≤ max_u64
HasNumbers _ = Unit

number_or-decimal :
    (args : List Bytes) (i n default : ℕ) (e : CommandError)
    → get_elem? args i ≡ some (decimal n)
    → n ≤ max_u64
    → number_or args i e default ≡ ok n
unfolding number_or
number_or-decimal args i n default e at_i h =
    rw (at_i, number_or) (rw (parse_unsigned-decimal max_u64 n h) refl)

-- `main` makes each of its calls, with any arguments and any numbers of 64 bits, on the command line
-- that writes the arguments out in their order.
pub dispatch-command_line : (c : Command) → HasNumbers c → dispatch (command_line c) ≡ ok c
unfolding dispatch command_line demo_command coordinator_command secure_command list_beq
dispatch-command_line (tcp_server a) h = refl
dispatch-command_line (tcp_client a) h = refl
dispatch-command_line (udp_server a) h = refl
dispatch-command_line (udp_bench_server a) h = refl
dispatch-command_line (udp_client a b) h = refl
dispatch-command_line (udp_rtt_client a b n) h =
    rw (number_or-decimal (a ∷ b ∷ decimal n ∷ []) 2 n _ _ refl h) refl
dispatch-command_line firewall_demo h = refl
dispatch-command_line (identity_generate a b c) h = refl
dispatch-command_line (run_server a) h = refl
dispatch-command_line (register a b c n) h =
    rw (number_or-decimal (a ∷ b ∷ c ∷ decimal n ∷ []) 3 n _ _ refl h) refl
dispatch-command_line (lookup a b c) h = refl
dispatch-command_line (run_authenticated_server a b) h = refl
dispatch-command_line (register_authenticated a b c n d) h =
    rw (number_or-decimal (a ∷ b ∷ c ∷ decimal n ∷ d ∷ []) 3 n _ _ refl h) refl
dispatch-command_line (lookup_authenticated a b c) h = refl
dispatch-command_line (advertise_route a b c d n) h =
    rw (number_or-decimal (a ∷ b ∷ c ∷ d ∷ decimal n ∷ []) 4 n _ _ refl h) refl
dispatch-command_line (route_lookup a b c) h = refl
dispatch-command_line (run_secure_echo_server a b c) h = refl
dispatch-command_line (run_secure_echo_client a b c d e) h = refl
dispatch-command_line (run_secure_echo_client_auto a b c d e f) h = refl
dispatch-command_line (relay_run a b) h = refl
dispatch-command_line (run_one_exchange a b c) h = refl
dispatch-command_line print_usage h = refl
