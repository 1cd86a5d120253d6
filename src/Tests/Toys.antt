-- ===== src/Tests/Toys.antt =====
-- Small functions in the place of the cryptographic crates, which keep the laws that the theorems
-- assume of them.
use meshlet.Common.{
  ℕ, zero, suc, ◌+◌, ◌-◌, ◌*◌, ◌%◌, ◌<◌, ◌≡◌, refl, sym, ap, Bool, true, false, not, some, [], ◌∷◌,
  ◌++◌, arith, eqb, if◌then◌else◌, Bytes, length, get_or, take, All, length-append, take-append,
  nat_eq, list_eq, pair_eq, to_be_bytes, from_be_bytes,
}
use meshlet.Common.Result.{Result, ok}
use meshlet.Handshake.Agreement.{ExchangeLaws}
use meshlet.Handshake.Session.{Exchange}
use meshlet.Identity.Keys.{Ed25519, Ed25519Laws}
use meshlet.SecurePacket.Channel.{Aead}
use meshlet.SecurePacket.Delivery.{AeadLaws}

abbrev pub copies : ℕ → ℕ → Bytes
copies zero b = []
copies (suc n) b = b ∷ copies n b

length-copies : (n b : ℕ) → length (copies n b) ≡ n
length-copies zero b = refl
length-copies (suc n) b = omega (arith, length-copies n b)

copies-All : (n b : ℕ) → b < 256 → All (λ c. c < 256) (copies n b)
copies-All zero b h = tt
copies-All (suc n) b h = (h, copies-All n b h)

-- The plaintext with a tag of zeros.
abbrev pub toy_cipher : Aead Bytes
toy_cipher = record {
  new_cipher = λ key. key;
  encrypt = λ key nonce text header. some (text ++ copies 16 0);
  decrypt = λ key nonce ciphertext header. some (take (length ciphertext - 16) ciphertext);
}

pub toy_cipher-AeadLaws : AeadLaws toy_cipher
toy_cipher-AeadLaws = record {
  decrypts = λ c nonce m aad ciphertext e. rw (sym (some-injective e)) (ap some (whole m));
  adds_tag =
      λ c nonce m aad ciphertext e. rw (sym (some-injective e)) (length-append m (copies 16 0));
}
  where
    some-injective : {x y : Bytes} → some x ≡ some y → x ≡ y
    some-injective e = cc

    whole : (m : Bytes) → take (length (m ++ copies 16 0) - 16) (m ++ copies 16 0) ≡ m
    whole m =
        take-append (length (m ++ copies 16 0) - 16) m (copies 16 0)
          (omega (arith, length-append m (copies 16 0)))

abbrev same : Bool → Bool → Bool
same true b = b
same false b = not b

-- A key is a number, and a signature the parity of the key and the length of the message.
abbrev pub toy_keys : Ed25519 ℕ ℕ Bool
toy_keys = record {
  sign = λ key text. eqb ((key + length text) % 2) 0;
  verify_strict = λ key text signature. same signature (eqb ((key + length text) % 2) 0);
  verifying_key = λ key. key;
  signing_key_from_bytes = λ bytes. from_be_bytes bytes;
  verifying_key_from_bytes = λ bytes. ok (from_be_bytes bytes);
  verifying_key_bytes = λ key. to_be_bytes 32 key;
  signature_from_bytes = λ bytes. ok (eqb (get_or bytes 0 0) 1);
  signature_bytes = λ signature. copies 64 (if signature then 1 else 0);
}

pub toy_keys-Ed25519Laws : Ed25519Laws toy_keys
toy_keys-Ed25519Laws = record {
  signature_array = λ s.
      (length-copies 64 (if s then 1 else 0), copies-All 64 (if s then 1 else 0) (ground arith));
  signature_read_back = λ s. read s;
  signature_verifies = λ k m. ground arith;
}
  where
    read : (s : Bool) → ◌≡◌ {A = Result Bytes Bool} (ok (eqb (if s then 1 else 0) 1)) (ok s)
    read true = refl
    read false = refl

-- The shared secret is the product of the public numbers.
abbrev pub toy_exchange : Exchange ℕ ℕ
toy_exchange = record {
  public_key = λ a. copies 32 (a % 256);
  diffie_hellman = λ a public. (a % 256) * get_or public 0 0;
  was_contributory = λ shared. not (eqb shared 0);
  digest = λ text. copies 32 (length text % 256);
  expand = λ salt shared info. some (copies 32 (shared % 256));
}

pub toy_exchange-ExchangeLaws : ExchangeLaws toy_exchange
toy_exchange-ExchangeLaws = record {
  public_array = λ a. (length-copies 32 (a % 256), copies-All 32 (a % 256) (omega arith));
  agrees = λ a b. product_comm (a % 256) (b % 256);
  expands = λ salt shared info. (copies 32 (shared % 256), refl);
}
  where
    product_comm : (a b : ℕ) → a * b ≡ b * a
    product_comm a b = grind arith
