-- ===== src/Tests/Firewalls.antt =====
-- The firewall's theorems at a short history of traffic.
use meshlet.Common.{◌≡◌, refl, true, false, List, [], ◌∷◌, arith, nat_eq, list_eq, pair_eq}
use meshlet.Common.HashMap.{insert, retain}
use meshlet.Common.Outcome.{done}
use meshlet.Firewall.Flow.{FlowKey, udp, reverse, flow_eq, flow_beq, endpoint_beq, protocol_beq}
use meshlet.Firewall.Replies.{
  Event, outbound, inbound, step, after, is_recent, last_outbound, allow_inbound-eq-is_recent,
  after_total,
}
use meshlet.Firewall.Table.{Firewall, new, remove_expired, observe_outbound, allow_inbound}

abbrev request : FlowKey
request = record {
  protocol = udp;
  source = record { address = 1; port = 40000 };
  destination = record { address = 2; port = 53 };
}

abbrev reply : FlowKey
reply = record {
  protocol = udp;
  source = record { address = 2; port = 53 };
  destination = record { address = 1; port = 40000 };
}

abbrev history : List Event
history = inbound request 7 ∷ outbound request 5 ∷ []

abbrev table : Firewall
table = record { flow_timeout = 10; allowed_replies = (reply, 15) ∷ [] }

history_run : after 10 history ≡ done table
unfolding after step new observe_outbound allow_inbound remove_expired insert retain reverse
history_run = refl

allow_inbound_example : (allow_inbound table reply 14).0 ≡ is_recent 10 reply history 14
allow_inbound_example =
    allow_inbound-eq-is_recent 10 history reply 14 (omega arith, (omega arith, tt)) (omega arith)
      history_run

verdicts_of_the_run :
    (is_recent 10 reply history 14 ≡ true)
    × (is_recent 10 reply history 15 ≡ false)
    × (is_recent 10 request history 14 ≡ false)
unfolding is_recent last_outbound reverse flow_beq protocol_beq endpoint_beq
verdicts_of_the_run = (refl, refl, refl)

after_example : (fw : Firewall) × (after 10 history ≡ done fw) × (fw.flow_timeout ≡ 10)
after_example = after_total 10 history (omega arith) (omega arith, (omega arith, tt))
