-- ===== src/Firewall/Flow.antt =====
-- src/firewall.rs: `TransportProtocol`, `Endpoint` and `FlowKey`.
use meshlet.Common.{ℕ, Bool, true, false, ◌&&◌, ◌≡◌, refl, ◌↔◌, arith, Eq, ◌==◌, nat_eq}

pub data TransportProtocol : Type 0 where
  tcp udp : TransportProtocol

-- The address is the 32-bit value of the `Ipv4Addr`.
pub record Endpoint : Type 0 where
  pub address : ℕ
  pub port : ℕ

pub record FlowKey : Type 0 where
  pub protocol : TransportProtocol
  pub source : Endpoint
  pub destination : Endpoint

unfoldable pub reverse : FlowKey → FlowKey
reverse f = record { protocol = f.protocol; source = f.destination; destination = f.source }

unfoldable pub protocol_beq : TransportProtocol → TransportProtocol → Bool
protocol_beq tcp tcp = true
protocol_beq udp udp = true
protocol_beq _ _ = false

protocol_beq_iff : (p q : TransportProtocol) → (protocol_beq p q ≡ true) ↔ (p ≡ q)
unfolding protocol_beq
protocol_beq_iff tcp q = ground arith
protocol_beq_iff udp q = ground arith

unfoldable pub endpoint_beq : Endpoint → Endpoint → Bool
endpoint_beq a b = a.address == b.address && a.port == b.port

endpoint_beq_iff : (a b : Endpoint) → (endpoint_beq a b ≡ true) ↔ (a ≡ b)
unfolding endpoint_beq
endpoint_beq_iff a b = ground arith

-- The derived `Eq` of `FlowKey`.
unfoldable pub flow_beq : FlowKey → FlowKey → Bool
unfolding protocol_beq endpoint_beq
flow_beq f g =
    protocol_beq f.protocol g.protocol
    && endpoint_beq f.source g.source
    && endpoint_beq f.destination g.destination

pub flow_beq_iff : (f g : FlowKey) → (flow_beq f g ≡ true) ↔ (f ≡ g)
flow_beq_iff f g =
    unfold flow_beq in
    ground (
      arith,
      protocol_beq_iff f.protocol g.protocol,
      endpoint_beq_iff f.source g.source,
      endpoint_beq_iff f.destination g.destination,
    )

instance abbrev pub flow_eq : Eq FlowKey
flow_eq = record { beq = flow_beq; beq_iff = flow_beq_iff }

pub reverse-reverse : (f : FlowKey) → reverse (reverse f) ≡ f
unfolding reverse
reverse-reverse f = refl
