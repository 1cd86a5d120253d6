-- ===== src/Identity/FileTrip.antt =====
-- src/identity.rs: a generated identity file is loaded back.
use meshlet.Common.{◌≡◌, refl, ◌∙◌, true, [], ◌∷◌, Bytes, eq_refl, nat_eq, list_eq, pair_eq}
use meshlet.Common.Result.{ok}
use meshlet.Coordinator.NodeId.{valid_node_id, valid_node_id-IsWord}
use meshlet.Identity.Files.{
  private_file_version, private_contents, identity_of_fields, load_identity,
}
use meshlet.Identity.Hex.{IsArray, encode_hex, encode_hex-IsWord, decode_hex_array-encode_hex}
use meshlet.Identity.Keys.{Ed25519}
use meshlet.Text.Fields.{field_test, constant-IsField, IsField-IsWord}
use meshlet.Text.Words.{
  IsWord, split_ascii_whitespace-spaced, split_ascii_whitespace-newline, spaced,
}

version-IsWord : IsWord private_file_version
unfolding field_test
version-IsWord = (IsField-IsWord (private_file_version ∷ []) (constant-IsField _ _ refl, tt)).0

module _ {SigningKey VerifyingKey Signature : Type 0}
    (keys : Ed25519 SigningKey VerifyingKey Signature) where
  -- The file that is written for a valid node ID and a secret of 32 bytes is loaded as an identity
  -- with that ID and the key of that secret.
  pub load_identity-private_contents :
      (node_id secret : Bytes)
      → valid_node_id node_id ≡ true
      → IsArray 32 secret
      → load_identity keys (private_contents node_id secret)
        ≡ ok (record { node_id = node_id; signing_key = keys.signing_key_from_bytes secret })
  unfolding load_identity private_contents identity_of_fields
  load_identity-private_contents node_id secret valid array =
      let ws = private_file_version ∷ node_id ∷ encode_hex secret ∷ [] in
      let split =
        split_ascii_whitespace-newline (spaced ws)
        ∙ split_ascii_whitespace-spaced ws (
          version-IsWord,
          (valid_node_id-IsWord node_id valid, (encode_hex-IsWord 31 secret array, tt)),
        ) in
      rw (split, eq_refl private_file_version, valid, decode_hex_array-encode_hex 32 secret array)
        refl
