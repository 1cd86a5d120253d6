-- ===== src/Tun.antt =====
-- src/tun.rs: which packets pass between the TUN interface and the UDP socket: the checks and the two
-- workers. The threads are not modelled: each worker is a function of what it is given.
pub mod Transparent
pub mod Interface
use meshlet.Common.{
  ℕ, zero, suc, ◌+◌, ◌-◌, ◌*◌, ◌/◌, ◌%◌, ◌^◌, ◌≤◌, ◌<◌, ◌≡◌, refl, sym, ap, ◌∙◌, ◌≢◌, ◌↔◌, ◌⊎◌, inl,
  inr, Bool, true, false, not, ◌&&◌, ◌||◌, Option, none, some, List, [], ◌∷◌, ◌++◌, map, arith, ltb,
  leb, eqb, if◌then◌else◌, ltb→lt, lt→ltb, le→ltb, leb→le, eqb_iff, Bool-cases, Option-cases,
  all_below, all_below_sound, Bytes, length, get_elem?, get_or, take, drop, All, length-append,
  All-append, All-imp, take-append, drop-append, List-cases, Eq, ◌==◌, eq_refl, ne→eq, nat_eq,
  list_beq, list_beq_iff, list_eq, pair_beq, pair_beq_iff, pair_eq, Instant, Duration,
  nanos_per_sec, instant_limit, from_secs, as_secs, checked_add, to_be_bytes, be_onto,
  from_be_bytes, length-to_be_bytes, from_be_bytes-to_be_bytes,
}
use meshlet.Common.Result.{Result, ok, err, ensure, ◌>>=◌, ◌>>◌}
use meshlet.Net.Ipv4.{Ipv4Addr}

abbrev pub max_udp_payload_bytes : ℕ
max_udp_payload_bytes = 65_507

pub data PacketError : Type 0 where
  too_large too_short not_ipv4 header_length : PacketError
  total_length : ℕ → ℕ → PacketError

pub record Ipv4Summary : Type 0 where
  pub source : Ipv4Addr
  pub destination : Ipv4Addr
  pub protocol : ℕ
  pub total_length : ℕ

-- The packet's byte at a place: the places that `parse_ipv4` reads are inside.
abbrev pub byte : Bytes → ℕ → ℕ
byte packet i = get_or packet i 0

-- The four bytes from a place on, as an address.
abbrev pub address_at : Bytes → ℕ → Ipv4Addr
address_at packet i = from_be_bytes (take 4 (drop i packet))

unfoldable pub require_transportable_packet : Bytes → Result PacketError (Unit {0})
require_transportable_packet packet =
    ensure (not (ltb max_udp_payload_bytes (length packet))) too_large

-- `usize::from(packet[0] & 0x0f) * 4`
abbrev pub header_length_of : Bytes → ℕ
header_length_of packet = byte packet 0 % 16 * 4

-- `u16::from_be_bytes([packet[2], packet[3]])`
abbrev pub total_length_of : Bytes → ℕ
total_length_of packet = byte packet 2 * 256 + byte packet 3

unfoldable pub parse_ipv4 : Bytes → Result PacketError Ipv4Summary
parse_ipv4 packet = do
  ensure (not (ltb (length packet) 20)) too_short
  ensure (eqb (byte packet 0 / 16) 4) not_ipv4
  ensure (not (ltb (header_length_of packet) 20 || ltb (length packet) (header_length_of packet)))
      header_length
  ensure
      (not (
        ltb (total_length_of packet) (header_length_of packet)
        || not (eqb (total_length_of packet) (length packet))))
      (total_length (total_length_of packet) (length packet))
  ok (record {
    source = address_at packet 12;
    destination = address_at packet 16;
    protocol = byte packet 9;
    total_length = total_length_of packet;
  })

-- How the worker from TUN to UDP ends.
pub data Outbound : Type 0 where
  sent : Bytes → Ipv4Summary → Outbound
  cannot_transport invalid : PacketError → Outbound
  -- no packet is left, and the worker goes on waiting
  waiting : Outbound

-- `packet.first().is_some_and(|byte| byte >> 4 != 4)`: the buffer is never empty. Where nothing was
-- read, its first byte is zero or that of a packet that was ignored, so never of version 4.
abbrev pub is_other_version : Bytes → Bool
is_other_version packet = not (eqb (byte packet 0 / 16) 4)

-- The loop over the packets that the interface gives.
unfoldable pub outbound : List Bytes → Outbound
unfolding require_transportable_packet
outbound [] = waiting
outbound (packet ∷ packets) =
    let rest = outbound packets in
    elim (require_transportable_packet packet) [
      | err e ↦ cannot_transport e
      | ok _ ↦ elim (parse_ipv4 packet) [
        | ok summary ↦ sent packet summary
        | err e ↦ if is_other_version packet then rest else invalid e
      ]
    ]

-- The worker from UDP to TUN, on the payload received: what it writes, or its panic.
unfoldable pub inbound : Bytes → Result PacketError (Bytes × Ipv4Summary)
inbound packet = do
  require_transportable_packet packet
  summary ← parse_ipv4 packet
  ok (packet, summary)
