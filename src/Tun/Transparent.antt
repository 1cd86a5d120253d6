-- ===== src/Tun/Transparent.antt =====
-- src/tun.rs: what one side sends, the other side writes unchanged.
use meshlet.Common.{
  ◌/◌, ◌≤◌, ◌≡◌, inl, inr, List, [], ◌∷◌, arith, Bytes, length, nat_eq, list_eq, pair_eq,
}
use meshlet.Common.Result.{ok, Result-cases}
use meshlet.Tun.{
  Ipv4Summary, require_transportable_packet, parse_ipv4, header_length_of, sent, outbound, inbound,
  max_udp_payload_bytes, byte,
}

-- Whatever the interface gives, a packet that the one worker sends is written by the other worker of
-- the peer unchanged, and both report the same addresses, protocol and length.
pub inbound-outbound :
    (packets : List Bytes) (packet : Bytes) (summary : Ipv4Summary)
    → outbound packets ≡ sent packet summary
    → inbound packet ≡ ok (packet, summary)
unfolding outbound inbound
inbound-outbound [] packet summary h = cc
inbound-outbound (p ∷ packets) packet summary h =
    let later = inbound-outbound packets packet summary in
    elim (Result-cases (require_transportable_packet p)) [
      | inl (e, q) ↦ ground (arith, q, h)
      | inr (_, q) ↦ elim (Result-cases (parse_ipv4 p)) [
        | inl (e, r) ↦ ground (arith, later, q, r, h)
        | inr (s, r) ↦ ground (arith, q, r, h)
      ]
    ]

-- A packet that is written to the interface has at most 65507 bytes, is of version 4, and its header
-- and total lengths fit it: the header has at least 20 bytes and lies inside, and the total is all.
pub inbound-ok :
    (packet written : Bytes) (summary : Ipv4Summary)
    → inbound packet ≡ ok (written, summary)
    → (written ≡ packet)
      × (length packet ≤ max_udp_payload_bytes)
      × (byte packet 0 / 16 ≡ 4)
      × (20 ≤ header_length_of packet)
      × (header_length_of packet ≤ length packet)
      × (summary.total_length ≡ length packet)
unfolding inbound require_transportable_packet parse_ipv4
inbound-ok packet written summary h = ground (arith, h)
