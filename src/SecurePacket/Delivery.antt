-- ===== src/SecurePacket/Delivery.antt =====
-- src/secure_packet.rs: what a sender seals, a receiver in step with it opens, once.
use meshlet.Common.{
  ℕ, ◌+◌, ◌≤◌, ◌<◌, ◌≡◌, refl, inl, inr, some, List, [], ◌∷◌, ◌++◌, arith, lt→ltb, le→ltb,
  Option-cases, Bytes, length, length-append, take-append, drop-append, eq_refl, nat_eq, list_eq,
  pair_eq, to_be_bytes, length-to_be_bytes, from_be_bytes-to_be_bytes,
}
use meshlet.Common.Result.{Result, ok, ◌>>=◌, >>=-eq-ok}
use meshlet.SecurePacket.Channel.{
  Aead, PacketSender, PacketReceiver, sealed, seal, shown_number, opened, receive,
}
use meshlet.SecurePacket.Wire.{
  Direction, magic, packet_header, packet_nonce, same_direction_refl, from_wire-wire_value,
  PacketError,
}
use meshlet.Text.Decimal.{max_u64}

-- What the crate documents: decryption undoes encryption, which adds a tag of sixteen bytes.
pub record AeadLaws {Cipher : Type 0} (a : Aead Cipher) : Type 0 where
  pub decrypts :
      (c : Cipher) (nonce msg aad ciphertext : Bytes)
      → a.encrypt c nonce msg aad ≡ some ciphertext
      → a.decrypt c nonce ciphertext aad ≡ some msg
  pub adds_tag :
      (c : Cipher) (nonce msg aad ciphertext : Bytes)
      → a.encrypt c nonce msg aad ≡ some ciphertext
      → length ciphertext ≡ length msg + 16

pub length-packet_header : (d : Direction) (n : ℕ) → length (packet_header d n) ≡ 13
unfolding packet_header
length-packet_header d n = omega (arith, length-to_be_bytes 8 n)

module _ {Cipher : Type 0} (a : Aead Cipher) where
  shown_number-packet :
      (r : PacketReceiver Cipher) (n : ℕ) (body : Bytes)
      → n ≤ max_u64
      → 16 ≤ length body
      → shown_number a r (packet_header r.direction n ++ body) ≡ ok n
  unfolding shown_number packet_header
  shown_number-packet r n body h k = rw (
    le→ltb (length (packet_header r.direction n ++ body)) 29 long,
    eq_refl magic,
    from_wire-wire_value r.direction,
    same_direction_refl r.direction,
    take-append 8 (to_be_bytes 8 n) body (length-to_be_bytes 8 n),
    from_be_bytes-to_be_bytes 8 n (omega arith),
  )
    where
      long : 29 ≤ length (packet_header r.direction n ++ body)
      long = omega (arith, length-append (to_be_bytes 8 n) body, length-to_be_bytes 8 n)

  pub seal_inv :
      (s : PacketSender Cipher) (m p : Bytes) (s' : PacketSender Cipher)
      → seal a s m ≡ (ok p, s')
      → (ct : Bytes) × (a.encrypt s.cipher
            (packet_nonce s.direction s.next_packet_number)
            m
            (packet_header s.direction s.next_packet_number)
          ≡ some ct)
        × (p ≡ packet_header s.direction s.next_packet_number ++ ct)
        × (s.next_packet_number < max_u64)
        × (s' ≡ record s { next_packet_number = s.next_packet_number + 1 })
  unfolding seal sealed
  seal_inv s m p s' e = elim (Option-cases (a.encrypt s.cipher nonce m header)) [
    | inl none_yet ↦ absurd (ground arith)
    | inr (ct, given) ↦ (ct, given, ground arith, ground arith, ground arith)
  ]
    where
      header : Bytes
      header = packet_header s.direction s.next_packet_number

      nonce : Bytes
      nonce = packet_nonce s.direction s.next_packet_number

  -- A receiver with the sender's cipher and direction, that expects the sender's next packet.
  pub record InStep (s : PacketSender Cipher) (r : PacketReceiver Cipher) : Type 0 where
    pub same_cipher : r.cipher ≡ s.cipher
    pub same_direction : r.direction ≡ s.direction
    pub same_number : r.next_packet_number ≡ s.next_packet_number

  module _ (laws : AeadLaws a) where
    opened_sealed :
        (r : PacketReceiver Cipher) (m ct : Bytes)
        → r.next_packet_number < max_u64
        → a.encrypt r.cipher
            (packet_nonce r.direction r.next_packet_number)
            m
            (packet_header r.direction r.next_packet_number)
          ≡ some ct
        → opened a r (packet_header r.direction r.next_packet_number ++ ct)
          ≡ ok (m, r.next_packet_number + 1)
    unfolding opened
    opened_sealed r m ct h e = rw (
      shown_number-packet r n ct (omega arith)
          (omega (arith, laws.adds_tag r.cipher nonce m header ct e)),
      eq_refl n,
      lt→ltb n max_u64 h,
      take-append 13 header ct (length-packet_header r.direction n),
      drop-append 13 header ct (length-packet_header r.direction n),
      laws.decrypts r.cipher nonce m header ct e,
    )
      where
        n : ℕ
        n = r.next_packet_number

        header : Bytes
        header = packet_header r.direction n

        nonce : Bytes
        nonce = packet_nonce r.direction n

    -- A packet that the sender seals, a receiver in step opens to the same plaintext, and the two
    -- stay in step.
    pub receive-seal :
        (s : PacketSender Cipher) (r : PacketReceiver Cipher) (m p : Bytes)
        (s' : PacketSender Cipher)
        → InStep s r
        → seal a s m ≡ (ok p, s')
        → ((receive a r p).0 ≡ ok m) × InStep s' (receive a r p).1
    unfolding receive
    receive-seal s r m p s' i e =
        let (ct, given, is_packet, room, next) = seal_inv s m p s' e in
        let number = i.same_number in
        let room' : r.next_packet_number < max_u64 = omega arith in
        let given' : a.encrypt r.cipher (packet_nonce r.direction r.next_packet_number) m
              (packet_header r.direction r.next_packet_number)
            ≡ some ct =
          simp (i.same_cipher, i.same_direction, i.same_number) given in
        let opens = opened_sealed r m ct room' given' in
        let same : p ≡ packet_header r.direction r.next_packet_number ++ ct =
          simp (i.same_direction, i.same_number) is_packet in
        rw (same, opens, receive)
          (
            refl,
            record {
              same_cipher = ground arith;
              same_direction = ground arith;
              same_number = ground arith;
            },
          )

  -- `seal` for each plaintext in turn, up to the first error.
  unfoldable pub seal_all :
      PacketSender Cipher → List Bytes → Result PacketError (List Bytes × PacketSender Cipher)
  seal_all s [] = ok ([], s)
  seal_all s (m ∷ ms) =
      let (first, s') = seal a s m in do p ← first; (ps, s'') ← seal_all s' ms; ok (p ∷ ps, s'')

  -- `open` for each packet in turn, up to the first error.
  unfoldable pub receive_all :
      PacketReceiver Cipher → List Bytes → Result PacketError (List Bytes × PacketReceiver Cipher)
  receive_all r [] = ok ([], r)
  receive_all r (p ∷ ps) =
      let (first, r') = receive a r p in
      do m ← first; (ms, r'') ← receive_all r' ps; ok (m ∷ ms, r'')

  seal_all_inv :
      (s : PacketSender Cipher) (m : Bytes) (ms ps : List Bytes) (s' : PacketSender Cipher)
      → seal_all s (m ∷ ms) ≡ ok (ps, s')
      → (p : Bytes) × (qs : List Bytes) × (s₁ : PacketSender Cipher) × (seal a s m ≡ (ok p, s₁))
        × (seal_all s₁ ms ≡ ok (qs, s'))
        × (ps ≡ p ∷ qs)
  unfolding seal_all
  seal_all_inv s m ms ps s' e =
      let (p, first, e₁) = >>=-eq-ok (seal a s m).0 _ e in
      let ((qs, s''), rest, last) = >>=-eq-ok (seal_all (seal a s m).1 ms) _ e₁ in
      (p, qs, (seal a s m).1, ground arith, ground arith, ground arith)

  module _ (laws : AeadLaws a) where
    -- Packets that are sealed one after the other and opened in the same order give back the
    -- plaintexts, whatever these are and however many.
    pub receive_all-seal_all :
        (ms ps : List Bytes) (s : PacketSender Cipher) (r : PacketReceiver Cipher)
        (s' : PacketSender Cipher)
        → InStep s r
        → seal_all s ms ≡ ok (ps, s')
        → (r' : PacketReceiver Cipher) × (receive_all r ps ≡ ok (ms, r')) × InStep s' r'
    unfolding seal_all receive_all
    receive_all-seal_all [] ps s r s' i e = (
      r,
      ground arith,
      record {
        same_cipher = ground (arith, i.same_cipher);
        same_direction = ground (arith, i.same_direction);
        same_number = ground (arith, i.same_number);
      },
    )
    receive_all-seal_all (m ∷ ms) ps s r s' i e =
        let (p, qs, s₁, first, rest, is_all) = seal_all_inv s m ms ps s' e in
        let (opens, j) = receive-seal laws s r m p s₁ i first in
        let (r', others, k) = receive_all-seal_all ms qs s₁ (receive a r p).1 s' j rest in
        (r', rw (is_all, receive_all) (rw (opens, others)), k)
