-- ===== src/SecurePacket/Replay.antt =====
-- src/secure_packet.rs: no packet is opened twice, and no nonce is used twice.
use meshlet.Common.{
  ℕ, ◌+◌, ◌≤◌, ◌<◌, ◌≡◌, refl, sym, ap, ◌∙◌, ◌≢◌, ◌⊎◌, inl, inr, Option, none, some, List, [], ◌∷◌,
  ◌++◌, arith, Bytes, drop, take, length, take-append, drop-append, length-to_be_bytes, lt→ltb,
  ne→eq, nat_eq, list_eq, pair_eq, from_be_bytes, from_be_bytes-to_be_bytes,
}
use meshlet.Common.Result.{ok, err, Result-cases}
use meshlet.SecurePacket.Channel.{
  Aead, PacketSender, PacketReceiver, sealed, seal, shown_number, opened, receive,
}
use meshlet.SecurePacket.Delivery.{seal_inv, length-packet_header}
use meshlet.SecurePacket.Wire.{
  Direction, PacketError, packet_header, packet_nonce, wire_value, wrong_number,
}
use meshlet.Text.Decimal.{max_u64}

-- A nonce tells the direction and the number.
pub packet_nonce_injective :
    (d d' : Direction) (n n' : ℕ)
    → n ≤ max_u64
    → n' ≤ max_u64
    → packet_nonce d n ≡ packet_nonce d' n'
    → (d ≡ d') × (n ≡ n')
unfolding packet_nonce wire_value
packet_nonce_injective d d' n n' h h' e = (
  ground arith,
  sym (from_be_bytes-to_be_bytes 8 n (omega arith))
      ∙ ap (λ t. from_be_bytes (drop 4 t)) e
      ∙ from_be_bytes-to_be_bytes 8 n' (omega arith),
)

length-packet_nonce : (d : Direction) (n : ℕ) → length (packet_nonce d n) ≡ 12
unfolding packet_nonce
length-packet_nonce d n = omega (arith, length-to_be_bytes 8 n)

module _ {Cipher : Type 0} (a : Aead Cipher) where
  opened_ok :
      (r : PacketReceiver Cipher) (p m : Bytes) (n : ℕ)
      → opened a r p ≡ ok (m, n)
      → (shown_number a r p ≡ ok r.next_packet_number)
        × (n ≡ r.next_packet_number + 1)
        × (r.next_packet_number < max_u64)
  unfolding opened
  opened_ok r p m n e = ground arith

  -- A packet that is refused changes nothing; one that is opened showed the number expected, and
  -- the receiver then expects the next.
  pub receive_cases :
      (r : PacketReceiver Cipher) (p : Bytes)
      → ((e : PacketError) × (receive a r p ≡ (err e, r)))
        ⊎ ((m : Bytes) × (receive a r p
              ≡ (ok m, record r { next_packet_number = r.next_packet_number + 1 }))
            × (shown_number a r p ≡ ok r.next_packet_number)
            × (r.next_packet_number < max_u64))
  unfolding receive
  receive_cases r p = elim (Result-cases (opened a r p)) [
    | inl (e, refused) ↦ inl (e, rw (refused, receive) refl)
    | inr ((m, n), opens) ↦
        let (shown, next, room) = opened_ok r p m n opens in
        inr (m, rw (opens, receive) (ground arith), shown, room)
  ]

  -- Any number of packets, whatever they are, opened or refused.
  unfoldable pub receives : PacketReceiver Cipher → List Bytes → PacketReceiver Cipher
  receives r [] = r
  receives r (p ∷ ps) = receives (receive a r p).1 ps

  receive_grows :
      (r : PacketReceiver Cipher) (p : Bytes)
      → ((receive a r p).1.direction ≡ r.direction)
        × (r.next_packet_number ≤ (receive a r p).1.next_packet_number)
  receive_grows r p = elim (receive_cases r p) [
    | inl (e, refused) ↦ rw refused (refl, omega arith)
    | inr (m, opens, _, _) ↦ rw opens (refl, omega arith)
  ]

  receives_grow :
      (ps : List Bytes) (r : PacketReceiver Cipher)
      → ((receives r ps).direction ≡ r.direction)
        × (r.next_packet_number ≤ (receives r ps).next_packet_number)
  unfolding receives
  receives_grow [] r = (refl, omega arith)
  receives_grow (p ∷ ps) r =
      let (same, more) = receives_grow ps (receive a r p).1 in
      let (same', more') = receive_grows r p in (same ∙ same', omega arith)

  shown_number_ext :
      (r r' : PacketReceiver Cipher) (p : Bytes)
      → r'.direction ≡ r.direction
      → shown_number a r' p ≡ shown_number a r p
  unfolding shown_number
  shown_number_ext r r' p e = simp e

  receive_wrong_number :
      (r : PacketReceiver Cipher) (p : Bytes) (n : ℕ)
      → shown_number a r p ≡ ok n
      → n ≢ r.next_packet_number
      → receive a r p ≡ (err (wrong_number r.next_packet_number n), r)
  unfolding receive opened
  receive_wrong_number r p n shown ne = ground (arith, ne→eq n r.next_packet_number ne)

  -- A packet that was opened once is refused for its number ever after, whatever other packets
  -- come between.
  pub receive_replayed :
      (r : PacketReceiver Cipher) (p m : Bytes) (ps : List Bytes)
      → (receive a r p).0 ≡ ok m
      → let later = receives (receive a r p).1 ps in
        receive a later p
        ≡ (err (wrong_number later.next_packet_number r.next_packet_number), later)
  receive_replayed r p m ps e = elim (receive_cases r p) [
    | inl (why, refused) ↦ cc (sym (ap (λ t. t.0) refused) ∙ e)
    | inr (m', opens, shown, room) ↦
        let r' = (receive a r p).1 in
        let (same, more) = receives_grow ps r' in
        let next : r'.next_packet_number ≡ r.next_packet_number + 1 =
          ap (λ t. t.1.next_packet_number) opens in
        receive_wrong_number (receives r' ps) p r.next_packet_number
          (shown_number_ext r (receives r' ps) p (same ∙ ap (λ t. t.1.direction) opens) ∙ shown)
          (omega arith)
  ]

  -- Any number of plaintexts, sealed or refused.
  unfoldable pub seals : PacketSender Cipher → List Bytes → PacketSender Cipher
  seals s [] = s
  seals s (m ∷ ms) = seals (seal a s m).1 ms

  seal_grows :
      (s : PacketSender Cipher) (m : Bytes)
      → s.next_packet_number ≤ max_u64
      → ((seal a s m).1.direction ≡ s.direction)
        × (s.next_packet_number ≤ (seal a s m).1.next_packet_number)
        × ((seal a s m).1.next_packet_number ≤ max_u64)
  unfolding seal sealed
  seal_grows s m h = (ground arith, ground arith, ground arith)

  seals_grow :
      (ms : List Bytes) (s : PacketSender Cipher)
      → s.next_packet_number ≤ max_u64
      → ((seals s ms).direction ≡ s.direction)
        × (s.next_packet_number ≤ (seals s ms).next_packet_number)
        × ((seals s ms).next_packet_number ≤ max_u64)
  unfolding seals
  seals_grow [] s h = (refl, omega arith, h)
  seals_grow (m ∷ ms) s h =
      let (same, more, bound) = seal_grows s m h in
      let (same', more', bound') = seals_grow ms (seal a s m).1 bound in
      (same' ∙ same, omega arith, bound')

-- The same cipher, which also writes the nonce that it is given in front of the ciphertext.
unfoldable pub recording : {Cipher : Type 0} → Aead Cipher → Aead Cipher
recording a = record a {
  encrypt = λ c nonce msg aad. elim (a.encrypt c nonce msg aad) [
    | some ciphertext ↦ some (nonce ++ ciphertext)
    | none ↦ none
  ];
}

module _ {Cipher : Type 0} (a : Aead Cipher) where
  -- The nonce that `seal` hands to the cipher, where it gives a packet.
  unfoldable pub used_nonce : PacketSender Cipher → Bytes → Option Bytes
  unfolding recording
  used_nonce s m = elim (seal (recording a) s m).0 [
    | ok p ↦ some (take 12 (drop 13 p))
    | err _ ↦ none
  ]

  recorded :
      (s s' : PacketSender Cipher) (m p : Bytes)
      → seal a s m ≡ (ok p, s')
      → (ct : Bytes) × (sealed (recording a) s m
          ≡ ok (
            packet_header s.direction s.next_packet_number
                ++ (packet_nonce s.direction s.next_packet_number ++ ct),
            s.next_packet_number + 1,
          ))
  unfolding sealed recording
  recorded s s' m p e =
      let (ct, encrypted, _, room, _) = seal_inv a s m p s' e in
      (ct, rw (lt→ltb s.next_packet_number max_u64 room, encrypted) refl)

  used_nonce-packet_nonce :
      (s s' : PacketSender Cipher) (m p : Bytes)
      → seal a s m ≡ (ok p, s')
      → used_nonce s m ≡ some (packet_nonce s.direction s.next_packet_number)
  unfolding used_nonce seal packet_nonce
  used_nonce-packet_nonce s s' m p e =
      let (ct, same) = recorded s s' m p e in
      let nonce = packet_nonce s.direction s.next_packet_number in
      let header = packet_header s.direction s.next_packet_number in
      rw
        (
          same,
          seal,
          used_nonce,
          drop-append 13 header (nonce ++ ct)
              (length-packet_header s.direction s.next_packet_number),
          take-append 12 nonce ct (length-packet_nonce s.direction s.next_packet_number),
        )
        refl

  -- Whatever is sealed between two packets, the nonces that `seal` hands to the cipher for the two
  -- differ. They are read off a cipher that does the same and records its nonce.
  pub nonce_used_once :
      (s s' s'' : PacketSender Cipher) (m m' p p' : Bytes) (ms : List Bytes)
      → seal a s m ≡ (ok p, s')
      → seal a (seals a s' ms) m' ≡ (ok p', s'')
      → (n : Bytes) × (n' : Bytes) × (used_nonce s m ≡ some n)
        × (used_nonce (seals a s' ms) m' ≡ some n')
        × (n ≢ n')
  nonce_used_once s s' s'' m m' p p' ms e e' =
      let (_, _, _, room, next) = seal_inv a s m p s' e in
      let number = ap (λ t. t.next_packet_number) next in
      let (_, more, bound) = seals_grow a ms s' (omega arith) in
      (
        _,
        _,
        used_nonce-packet_nonce s s' m p e,
        used_nonce-packet_nonce (seals a s' ms) s'' m' p' e',
        λ same.
            let (_, equal) = packet_nonce_injective _ _ _ _ (omega arith) bound same in
            absurd (omega arith),
      )
