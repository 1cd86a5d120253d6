-- ===== src/Tests/Packets.antt =====
-- The theorems on encrypted packets at two packets under the toy cipher.
use meshlet.Common.{
  ℕ, ◌<◌, ◌≡◌, refl, ◌≢◌, ◌⊎◌, some, [], ◌∷◌, ◌++◌, Bytes, nat_eq, list_beq, list_eq, pair_eq,
  to_be_bytes, be_onto, from_be_bytes,
}
use meshlet.Common.Result.{ok, err}
use meshlet.SecurePacket.Channel.{
  PacketSender, PacketReceiver, sealed, seal, shown_number, opened, receive,
}
use meshlet.SecurePacket.Delivery.{InStep, seal_all, receive_all, receive_all-seal_all}
use meshlet.SecurePacket.Replay.{
  receives, seals, receive_cases, receive_replayed, used_nonce, nonce_used_once,
}
use meshlet.SecurePacket.Wire.{
  PacketError, client_to_server, wire_value, from_wire, same_direction, packet_header, wrong_number,
}
use meshlet.Text.Decimal.{max_u64}
use meshlet.Tests.Toys.{copies, toy_cipher, toy_cipher-AeadLaws}
use meshlet.Text.{codes}

abbrev key : Bytes
key = 7 ∷ []

abbrev sender : PacketSender Bytes
sender = record { cipher = key; direction = client_to_server; next_packet_number = 0 }

abbrev receiver : PacketReceiver Bytes
receiver = record { cipher = key; direction = client_to_server; next_packet_number = 0 }

abbrev plaintext : Bytes
plaintext = codes "ping"

abbrev packet : Bytes
packet = codes "MSH3" ++ (copies 9 0 ++ (plaintext ++ copies 16 0))

abbrev next_packet : Bytes
next_packet = codes "MSH3" ++ (copies 8 0 ++ (1 ∷ (plaintext ++ copies 16 0)))

abbrev third_packet : Bytes
third_packet = codes "MSH3" ++ (copies 8 0 ++ (2 ∷ (plaintext ++ copies 16 0)))

abbrev sender_after : ℕ → PacketSender Bytes
sender_after n = record { cipher = key; direction = client_to_server; next_packet_number = n }

abbrev receiver_after : ℕ → PacketReceiver Bytes
receiver_after n = record { cipher = key; direction = client_to_server; next_packet_number = n }

in_step : InStep toy_cipher sender receiver
in_step = record { same_cipher = refl; same_direction = refl; same_number = refl }

seal_run : seal toy_cipher sender plaintext ≡ (ok packet, sender_after 1)
unfolding seal sealed packet_header wire_value to_be_bytes
seal_run = refl

seal_all_run :
    seal_all toy_cipher sender (plaintext ∷ plaintext ∷ [])
    ≡ ok (packet ∷ next_packet ∷ [], sender_after 2)
unfolding seal_all seal sealed packet_header wire_value to_be_bytes
seal_all_run = refl

receive_run : (receive toy_cipher receiver packet).0 ≡ ok plaintext
unfolding receive opened shown_number from_wire same_direction from_be_bytes be_onto list_beq
receive_run = refl

receive_all-seal_all_example :
    (r' : PacketReceiver Bytes) × (receive_all toy_cipher receiver (packet ∷ next_packet ∷ [])
      ≡ ok (plaintext ∷ plaintext ∷ [], r'))
    × InStep toy_cipher (sender_after 2) r'
receive_all-seal_all_example =
    receive_all-seal_all toy_cipher toy_cipher-AeadLaws (plaintext ∷ plaintext ∷ [])
      (packet ∷ next_packet ∷ []) sender receiver (sender_after 2) in_step seal_all_run

receive_cases_example :
    ((e : PacketError) × (receive toy_cipher receiver next_packet ≡ (err e, receiver)))
    ⊎ ((m : Bytes) × (receive toy_cipher receiver next_packet ≡ (ok m, receiver_after 1))
        × (shown_number toy_cipher receiver next_packet ≡ ok 0)
        × (0 < max_u64))
receive_cases_example = receive_cases toy_cipher receiver next_packet

receive_replayed_example :
    receive toy_cipher
      (receives toy_cipher (receive toy_cipher receiver packet).1 (next_packet ∷ packet ∷ []))
      packet
    ≡ (
      err (
          wrong_number
            (receives toy_cipher
              (receive toy_cipher receiver packet).1
              (next_packet ∷ packet ∷ [])).next_packet_number
            0),
      receives toy_cipher (receive toy_cipher receiver packet).1 (next_packet ∷ packet ∷ []),
    )
receive_replayed_example =
    receive_replayed toy_cipher receiver packet plaintext (next_packet ∷ packet ∷ []) receive_run

second_seal :
    seal toy_cipher (seals toy_cipher (sender_after 1) (plaintext ∷ [])) plaintext
    ≡ (ok third_packet, sender_after 3)
unfolding seals seal sealed packet_header wire_value to_be_bytes
second_seal = refl

nonce_used_once_example :
    (n : Bytes) × (n' : Bytes) × (used_nonce toy_cipher sender plaintext ≡ some n)
    × (used_nonce toy_cipher (seals toy_cipher (sender_after 1) (plaintext ∷ [])) plaintext
        ≡ some n')
    × (n ≢ n')
nonce_used_once_example =
    nonce_used_once toy_cipher sender (sender_after 1) (sender_after 3) plaintext plaintext packet
      third_packet (plaintext ∷ []) seal_run second_seal
