-- ===== src/SecurePacket/Channel.antt =====
-- src/secure_packet.rs: `PacketSender` and `PacketReceiver`. The cipher is that of the crate
-- `chacha20poly1305`, and a parameter.
use meshlet.Common.{
  ℕ, ◌+◌, not, Option, none, some, ◌++◌, ltb, eqb, Bytes, length, take, drop, get_or, from_be_bytes,
  ◌==◌, list_eq, nat_eq, if◌then◌else◌,
}
use meshlet.Common.Result.{Result, ok, err, ensure, ok_or, ◌>>=◌, ◌>>◌}
use meshlet.SecurePacket.Wire.{
  Direction, PacketError, outbound_exhausted, inbound_exhausted, encrypt_failed, too_short,
  wrong_marker, authentication_failed, wrong_direction, wrong_number, magic, header_bytes,
  authentication_tag_bytes, from_wire, same_direction, packet_header, packet_nonce,
}
use meshlet.Text.Decimal.{max_u64}

-- `encrypt` and `decrypt` take the nonce, the message and the additional data.
pub record Aead (Cipher : Type 0) : Type 0 where
  pub new_cipher : Bytes → Cipher
  pub encrypt : Cipher → Bytes → Bytes → Bytes → Option Bytes
  pub decrypt : Cipher → Bytes → Bytes → Bytes → Option Bytes

-- `u64::checked_add(1)`
abbrev pub next_number : ℕ → Option ℕ
next_number n = if ltb n max_u64 then some (n + 1) else none

pub record PacketSender (Cipher : Type 0) : Type 0 where
  pub cipher : Cipher
  pub direction : Direction
  pub next_packet_number : ℕ

pub record PacketReceiver (Cipher : Type 0) : Type 0 where
  pub cipher : Cipher
  pub direction : Direction
  pub next_packet_number : ℕ

module _ {Cipher : Type 0} (a : Aead Cipher) where
  open a use {new_cipher, encrypt, decrypt}

  unfoldable pub new_sender : Bytes → Direction → PacketSender Cipher
  new_sender key direction = record {
    cipher = new_cipher key;
    direction = direction;
    next_packet_number = 0;
  }

  unfoldable pub new_receiver : Bytes → Direction → PacketReceiver Cipher
  new_receiver key direction = record {
    cipher = new_cipher key;
    direction = direction;
    next_packet_number = 0;
  }

  -- What `seal` computes before it changes the sender: the packet and the next number.
  unfoldable pub sealed : PacketSender Cipher → Bytes → Result PacketError (Bytes × ℕ)
  sealed s plaintext = do
    let packet_number = s.next_packet_number
    next_packet_number ← ok_or (next_number packet_number) outbound_exhausted
    let header = packet_header s.direction packet_number
    let nonce = packet_nonce s.direction packet_number
    ciphertext ← ok_or (encrypt s.cipher nonce plaintext header) encrypt_failed
    ok (header ++ ciphertext, next_packet_number)

  unfoldable pub seal : PacketSender Cipher → Bytes → Result PacketError Bytes × PacketSender Cipher
  seal s plaintext = elim (sealed s plaintext) [
    | ok (packet, next) ↦ (ok packet, record s { next_packet_number = next })
    | err e ↦ (err e, s)
  ]

  -- The first checks of `open`, up to the packet number that the header shows.
  unfoldable pub shown_number : PacketReceiver Cipher → Bytes → Result PacketError ℕ
  shown_number r packet = do
    ensure (not (ltb (length packet) (header_bytes + authentication_tag_bytes))) too_short
    ensure (take 4 packet == magic) wrong_marker
    direction ← from_wire (get_or packet 4 0)
    ensure (same_direction direction r.direction) (wrong_direction r.direction direction)
    ok (from_be_bytes (take 8 (drop 5 packet)))

  -- What `open` computes before it changes the receiver: the plaintext and the next number. The
  -- nonce's direction has just been found equal to the receiver's.
  unfoldable pub opened : PacketReceiver Cipher → Bytes → Result PacketError (Bytes × ℕ)
  opened r packet = do
    packet_number ← shown_number r packet
    ensure (eqb packet_number r.next_packet_number)
        (wrong_number r.next_packet_number packet_number)
    next_packet_number ← ok_or (next_number packet_number) inbound_exhausted
    let nonce = packet_nonce r.direction packet_number
    plaintext ←
        ok_or (decrypt r.cipher nonce (drop header_bytes packet) (take header_bytes packet))
          authentication_failed
    ok (plaintext, next_packet_number)

  unfoldable pub receive :
      PacketReceiver Cipher → Bytes → Result PacketError Bytes × PacketReceiver Cipher
  receive r packet = elim (opened r packet) [
    | ok (plaintext, next) ↦ (ok plaintext, record r { next_packet_number = next })
    | err e ↦ (err e, r)
  ]
