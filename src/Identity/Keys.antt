-- ===== src/Identity/Keys.antt =====
-- src/identity.rs: identities and authorizations. The keys and signatures are those of the crate
-- `ed25519-dalek`, and a parameter.
use meshlet.Common.{◌<◌, ◌≡◌, Bool, true, Bytes, length, All, nat_eq, list_eq, pair_eq}
use meshlet.Common.HashMap.{HashMap}
use meshlet.Common.Result.{Result, ok}

-- The errors are the texts that the crate gives.
pub record Ed25519 (SigningKey VerifyingKey Signature : Type 0) : Type 0 where
  pub sign : SigningKey → Bytes → Signature
  pub verify_strict : VerifyingKey → Bytes → Signature → Bool
  pub verifying_key : SigningKey → VerifyingKey
  pub signing_key_from_bytes : Bytes → SigningKey
  pub verifying_key_from_bytes : Bytes → Result Bytes VerifyingKey
  pub verifying_key_bytes : VerifyingKey → Bytes
  pub signature_from_bytes : Bytes → Result Bytes Signature
  pub signature_bytes : Signature → Bytes

-- `Authorizations`: the key of each authorized node.
abbrev pub Authorizations : Type 0 → Type 0
Authorizations VerifyingKey = HashMap Bytes VerifyingKey

-- `Identity`: a node's name and its private key.
pub record Identity (SigningKey : Type 0) : Type 0 where
  pub node_id : Bytes
  pub signing_key : SigningKey

module _ {SigningKey VerifyingKey Signature : Type 0}
    (keys : Ed25519 SigningKey VerifyingKey Signature) where
  -- `Identity::sign`
  unfoldable pub sign : Identity SigningKey → Bytes → Signature
  sign identity message = keys.sign identity.signing_key message

  -- What the crate documents: a signature has 64 bytes, is read back from them, and verifies under
  -- the key of the signer.
  pub record Ed25519Laws : Type 0 where
    pub signature_array :
        (s : Signature)
        → (length (keys.signature_bytes s) ≡ 64) × All (λ b. b < 256) (keys.signature_bytes s)
    pub signature_read_back :
        (s : Signature) → keys.signature_from_bytes (keys.signature_bytes s) ≡ ok s
    pub signature_verifies :
        (k : SigningKey) (m : Bytes)
        → keys.verify_strict (keys.verifying_key k) m (keys.sign k m) ≡ true
