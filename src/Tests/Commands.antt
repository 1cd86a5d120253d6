-- ===== src/Tests/Commands.antt =====
-- The theorems on the command line and on the demonstrations at concrete inputs.
use meshlet.Common.{
  ◌≡◌, refl, List, [], ◌∷◌, ◌++◌, arith, drop, nat_eq, list_beq, list_eq, pair_eq, Duration,
}
use meshlet.Common.Outcome.{done}
use meshlet.Common.Result.{ok}
use meshlet.Main.Command.{number_or, Command, register_authenticated, dispatch}
use meshlet.Main.Dispatch.{command_line, dispatch-command_line}
use meshlet.Main.Latency.{Summary, udp_rtt_client}
use meshlet.Main.Sockets.{udp_bench_server}
use meshlet.Net.Socket.{v4}
use meshlet.Main.Ranks.{IsPlaced}
use meshlet.Main.RoundTrips.{requests, answers, udp_rtt_client_reports}
use meshlet.Tests.Toys.{copies}
use meshlet.Text.{codes}

abbrev command : Command
command =
    register_authenticated (codes "127.0.0.1:0") (codes "127.0.0.1:9000") (codes "mesh-a") 30
      (codes "a.identity")

dispatch-command_line_example : dispatch (command_line command) ≡ ok command
dispatch-command_line_example = dispatch-command_line command (omega arith)

default_run :
    dispatch (codes "coordinator-register-auth" ∷ codes "h:1" ∷ codes "h:2" ∷ codes "mesh-b" ∷ [])
    ≡ ok (
        register_authenticated
          (codes "h:1")
          (codes "h:2")
          (codes "mesh-b")
          30
          (codes ".meshlet/keys/mesh-b.identity"))
unfolding dispatch list_beq number_or
default_run = refl

abbrev times : List Duration
times = copies 100 500 ++ (9 ∷ 7 ∷ 8 ∷ [])

udp_rtt_client_reports_example :
    (r : Summary) × (udp_rtt_client 3
        (answers times (udp_bench_server (requests (v4 1 40000) 0 103)))
      ≡ done r)
    × IsPlaced 0 r.min (drop 100 times)
    × IsPlaced 1 r.p50 (drop 100 times)
    × IsPlaced 2 r.p99 (drop 100 times)
    × IsPlaced 2 r.max (drop 100 times)
udp_rtt_client_reports_example =
    udp_rtt_client_reports (v4 1 40000) 3 times (omega arith) (omega arith) refl
