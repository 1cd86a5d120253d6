-- ===== src/Identity/Files.antt =====
-- src/identity.rs: the text of a private identity file, as `generate` writes it and `load_identity`
-- reads it. The contents of the file are an argument.
use meshlet.Common.{List, [], ◌∷◌, ◌++◌, Bytes, ◌==◌, nat_eq, list_eq, pair_eq}
use meshlet.Common.Result.{Result, ok, err, ensure, ◌>>=◌, ◌>>◌}
use meshlet.Coordinator.NodeId.{valid_node_id}
use meshlet.Errors.{Error}
use meshlet.Identity.Hex.{encode_hex, decode_hex_array}
use meshlet.Identity.Keys.{Ed25519, Identity}
use meshlet.Text.Words.{split_ascii_whitespace, spaced}
use meshlet.Text.{codes}

abbrev pub private_file_version : Bytes
private_file_version = codes "MESHLET-IDENTITY/1"

pub data IdentityError : Type 0 where
  file_form file_node_id : IdentityError
  file_version : Bytes → IdentityError
  secret_hex : Error → IdentityError

-- `private_contents` in `generate`; the second argument is `signing_key.as_bytes()`.
unfoldable pub private_contents : Bytes → Bytes → Bytes
private_contents node_id secret =
    spaced (private_file_version ∷ node_id ∷ encode_hex secret ∷ []) ++ b'\n' ∷ []

module _ {SigningKey VerifyingKey Signature : Type 0}
    (keys : Ed25519 SigningKey VerifyingKey Signature) where
  unfoldable pub identity_of_fields : List Bytes → Result IdentityError (Identity SigningKey)
  identity_of_fields (version ∷ node_id ∷ encoded ∷ []) = do
    ensure (version == private_file_version) (file_version version)
    ensure (valid_node_id node_id) file_node_id
    secret ← elim (decode_hex_array 32 encoded) [ ok b ↦ ok b | err e ↦ err (secret_hex e) ]
    ok (record { node_id = node_id; signing_key = keys.signing_key_from_bytes secret })
  identity_of_fields _ = err file_form

  unfoldable pub load_identity : Bytes → Result IdentityError (Identity SigningKey)
  unfolding identity_of_fields
  load_identity contents = identity_of_fields (split_ascii_whitespace contents)
