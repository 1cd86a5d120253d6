-- ===== src/Tests/Tunnels.antt =====
-- The tunnel's theorems at a packet of twenty bytes behind one of version 6.
use meshlet.Common.{
  ℕ, ◌/◌, ◌≤◌, ◌<◌, ◌≡◌, refl, [], ◌∷◌, ◌++◌, Bytes, length, nat_eq, list_eq, pair_eq, be_onto,
  from_be_bytes,
}
use meshlet.Common.Result.{ok}
use meshlet.Tests.Toys.{copies}
use meshlet.Tun.{
  Ipv4Summary, require_transportable_packet, parse_ipv4, header_length_of, sent, outbound, inbound,
  max_udp_payload_bytes, byte,
}
use meshlet.Tun.Interface.{
  Device, tun_device_path, tunsetiff, zeros, is_ascii, request, open_tun, run_one_exchange,
  open_tun-ok, run_one_exchange-both,
}
use meshlet.Text.{codes}
use meshlet.Tun.Transparent.{inbound-ok}

-- From 10.0.0.1 to 10.0.0.2, of protocol 17.
abbrev packet : Bytes
packet = 0x45 ∷ 0 ∷ 0 ∷ 20 ∷ 0 ∷ 0 ∷ 0 ∷ 0 ∷ 64 ∷ 17 ∷ 0 ∷ 0 ∷ 10 ∷ 0 ∷ 0 ∷ 1 ∷ 10 ∷ 0 ∷ 0 ∷ 2 ∷ []

abbrev other_packet : Bytes
other_packet = 0x60 ∷ copies 39 0

abbrev summary : Ipv4Summary
summary = record {
  source = 167_772_161;
  destination = 167_772_162;
  protocol = 17;
  total_length = 20;
}

outbound_run : outbound (other_packet ∷ packet ∷ []) ≡ sent packet summary
unfolding outbound require_transportable_packet parse_ipv4 from_be_bytes be_onto
outbound_run = refl

inbound_run : inbound packet ≡ ok (packet, summary)
unfolding inbound require_transportable_packet parse_ipv4 from_be_bytes be_onto
inbound_run = refl

-- A device that refuses nothing, with names of 16 bytes.
abbrev device : Device ℕ
device = record { open_options = λ path. ok 3; ioctl = λ file number ifreq. ok tt }

open_run : open_tun 16 device (codes "meshlet0") ≡ ok 3
unfolding open_tun is_ascii
open_run = refl

open_tun-ok_example :
    (1 ≤ 8)
    × (8 < 16)
    × (device.open_options tun_device_path ≡ ok 3)
    × (device.ioctl 3 tunsetiff (request 16 (codes "meshlet0")) ≡ ok tt)
    × ((request 16 (codes "meshlet0")).ifr_name ≡ codes "meshlet0" ++ zeros 8)
    × (length (request 16 (codes "meshlet0")).ifr_name ≡ 16)
open_tun-ok_example = open_tun-ok 16 device (codes "meshlet0") 3 open_run

run_one_exchange-both_example :
    (run_one_exchange 16 device (codes "meshlet0") (other_packet ∷ packet ∷ []) packet
      ≡ ok (sent packet summary, ok (packet, summary)))
    × (run_one_exchange 16 device (codes "meshlet0") (other_packet ∷ packet ∷ []) packet
        ≡ ok (sent packet summary, ok (packet, summary)))
run_one_exchange-both_example =
    run_one_exchange-both 16 device device (codes "meshlet0") (codes "meshlet0") 3 3
      (other_packet ∷ packet ∷ []) (other_packet ∷ packet ∷ []) packet packet summary summary
      open_run open_run outbound_run outbound_run

inbound-ok_example :
    (packet ≡ packet)
    × (length packet ≤ max_udp_payload_bytes)
    × (byte packet 0 / 16 ≡ 4)
    × (20 ≤ header_length_of packet)
    × (header_length_of packet ≤ length packet)
    × (summary.total_length ≡ length packet)
inbound-ok_example = inbound-ok packet packet summary inbound_run
