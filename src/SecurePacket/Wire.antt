-- ===== src/SecurePacket/Wire.antt =====
-- src/secure_packet.rs: directions, headers and nonces.
use meshlet.Common.{
  ℕ, ◌≡◌, refl, Bool, true, false, ◌∷◌, ◌++◌, Bytes, to_be_bytes, eqb, if◌then◌else◌,
}
use meshlet.Common.Result.{Result, ok, err}
use meshlet.Text.{codes}

abbrev pub magic : Bytes
magic = codes "MSH3"

abbrev pub header_bytes : ℕ
header_bytes = 13

abbrev pub authentication_tag_bytes : ℕ
authentication_tag_bytes = 16

pub data Direction : Type 0 where
  client_to_server server_to_client : Direction

-- The errors of `seal` and `open`.
pub data PacketError : Type 0 where
  outbound_exhausted inbound_exhausted encrypt_failed : PacketError
  too_short wrong_marker authentication_failed : PacketError
  unknown_direction : ℕ → PacketError
  wrong_direction : Direction → Direction → PacketError
  wrong_number : ℕ → ℕ → PacketError

unfoldable pub wire_value : Direction → ℕ
wire_value client_to_server = 0
wire_value server_to_client = 1

unfoldable pub from_wire : ℕ → Result PacketError Direction
from_wire value =
    if eqb value 0
    then ok client_to_server
    else if eqb value 1
    then ok server_to_client
    else err (unknown_direction value)

-- The derived `PartialEq`.
unfoldable pub same_direction : Direction → Direction → Bool
same_direction client_to_server client_to_server = true
same_direction server_to_client server_to_client = true
same_direction _ _ = false

unfoldable pub packet_header : Direction → ℕ → Bytes
packet_header direction packet_number =
    magic ++ (wire_value direction ∷ to_be_bytes 8 packet_number)

unfoldable pub packet_nonce : Direction → ℕ → Bytes
packet_nonce direction packet_number =
    wire_value direction ∷ 0 ∷ 0 ∷ 0 ∷ to_be_bytes 8 packet_number

pub from_wire-wire_value : (d : Direction) → from_wire (wire_value d) ≡ ok d
unfolding from_wire wire_value
from_wire-wire_value client_to_server = refl
from_wire-wire_value server_to_client = refl

pub same_direction_refl : (d : Direction) → same_direction d d ≡ true
unfolding same_direction
same_direction_refl client_to_server = refl
same_direction_refl server_to_client = refl
