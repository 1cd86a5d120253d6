-- ===== src/Identity/Loaded.antt =====
-- src/identity.rs: what `generate` has written is loaded back.
use meshlet.Common.{◌≡◌, nat_eq, list_eq, pair_eq}
use meshlet.Common.Result.{ok}
use meshlet.Identity.Hex.{IsArray}
use meshlet.Identity.Keys.{Ed25519}

-- What the crate documents: the key of a signer has 32 bytes, and is read back from them.
pub record KeyLaws {SigningKey VerifyingKey Signature : Type 0}
    (keys : Ed25519 SigningKey VerifyingKey Signature) : Type 0 where
  pub key_array : (k : SigningKey) → IsArray 32 (keys.verifying_key_bytes (keys.verifying_key k))
  pub key_read_back :
      (k : SigningKey)
      → keys.verifying_key_from_bytes (keys.verifying_key_bytes (keys.verifying_key k))
        ≡ ok (keys.verifying_key k)
