-- ===== src/Main/FirewallDemo.antt =====
-- src/main.rs: `firewall_demo`, with `verdict`: the flows that it shows, the decisions and the two
-- counts that it prints.
use meshlet.Common.{
  ℕ, ◌+◌, ◌<◌, ◌≡◌, Bool, List, [], ◌∷◌, arith, if◌then◌else◌, Bytes, nat_eq, list_eq, pair_eq,
  Instant, Duration, instant_limit, from_secs, checked_add,
}
use meshlet.Common.Outcome.{Outcome, done, ◌>>=◌, expect, instant_addition}
use meshlet.Common.HashMap.{get, insert, retain}
use meshlet.Firewall.Flow.{
  tcp, udp, Endpoint, FlowKey, reverse, flow_eq, flow_beq, endpoint_beq, protocol_beq,
}
use meshlet.Firewall.Table.{
  new, remove_expired, observe_outbound, allow_inbound, tracked_reply_flows,
}
use meshlet.Net.Ipv4.{new as new_address}
use meshlet.Text.{codes}

unfoldable pub verdict : Bool → Bytes
verdict allowed = if allowed then codes "ALLOW" else codes "DENY"

abbrev pub demo_timeout : Duration
demo_timeout = from_secs 30

abbrev pub client : Endpoint
client = record { address = new_address 10 10 0 2; port = 50_000 }

abbrev pub server : Endpoint
server = record { address = new_address 192 0 2 20; port = 8_000 }

abbrev pub outbound : FlowKey
outbound = record { protocol = udp; source = client; destination = server }

abbrev pub wrong_port_reply : FlowKey
wrong_port_reply = record {
  protocol = udp;
  source = record { address = new_address 192 0 2 20; port = 8_001 };
  destination = client;
}

abbrev pub tcp_reply : FlowKey
tcp_reply = record { protocol = tcp; source = server; destination = client }

-- What is printed: the decision on each flow, and how many flows are tracked behind the second step
-- and the last.
pub record Demo : Type 0 where
  pub decisions : List (FlowKey × Bytes)
  pub tracked_once_sent : ℕ
  pub tracked_at_end : ℕ

unfoldable pub firewall_demo : Instant → Outcome Demo
firewall_demo now = do
  let matching_reply = reverse outbound
  firewall ← new demo_timeout
  let (unsolicited, firewall1) = allow_inbound firewall matching_reply now
  firewall2 ← observe_outbound firewall1 outbound now
  let (reply, firewall3) = allow_inbound firewall2 matching_reply now
  let (wrong_port, firewall4) = allow_inbound firewall3 wrong_port_reply now
  let (wrong_protocol, firewall5) = allow_inbound firewall4 tcp_reply now
  later ← expect (checked_add now demo_timeout) instant_addition
  let (expired, firewall6) = allow_inbound firewall5 matching_reply later
  done (record {
    decisions =
        (matching_reply, verdict unsolicited)
        ∷ (outbound, codes "ALLOW")
        ∷ (matching_reply, verdict reply)
        ∷ (wrong_port_reply, verdict wrong_port)
        ∷ (tcp_reply, verdict wrong_protocol)
        ∷ (matching_reply, verdict expired)
        ∷ [];
    tracked_once_sent = tracked_reply_flows firewall2;
    tracked_at_end = tracked_reply_flows firewall6;
  })

-- The firewall lets in exactly one of the five inbound flows of the demonstration, the reply to the
-- flow that went out: not before the flow, nor from another port, nor under TCP, nor 30 seconds after
-- it. One flow is tracked once it went out, and none at the end. The clock is one that has 30 seconds
-- left.
pub firewall_demo_decides :
    (now : Instant)
    → now + demo_timeout < instant_limit
    → firewall_demo now
      ≡ done (record {
        decisions =
            (reverse outbound, codes "DENY")
            ∷ (outbound, codes "ALLOW")
            ∷ (reverse outbound, codes "ALLOW")
            ∷ (wrong_port_reply, codes "DENY")
            ∷ (tcp_reply, codes "DENY")
            ∷ (reverse outbound, codes "DENY")
            ∷ [];
        tracked_once_sent = 1;
        tracked_at_end = 0;
      })
unfolding firewall_demo new allow_inbound observe_outbound remove_expired tracked_reply_flows
    verdict reverse flow_beq endpoint_beq protocol_beq get insert retain
firewall_demo_decides now room = ground arith
