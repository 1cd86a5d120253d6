-- ===== src/Identity/Authorized.antt =====
-- src/identity.rs: `Authorizations::load` on the contents of the file, which are an argument.
use meshlet.Common.{
  ℕ, suc, ◌≤◌, ◌≡◌, sym, ap, ◌∙◌, inl, inr, Bool, true, not, none, some, List, [], ◌∷◌, arith, eqb,
  if◌then◌else◌, Bytes, length, ◌==◌, nat_eq, list_eq, pair_eq,
}
use meshlet.Common.HashMap.{get, insert, IsMap, insert-IsMap, get-insert-some}
use meshlet.Common.Result.{Result, ok, err, ensure, ◌>>=◌, ◌>>◌, >>=-eq-ok, >>-eq-ok, ok-injective}
use meshlet.Coordinator.NodeId.{valid_node_id}
use meshlet.Errors.{Error}
use meshlet.Identity.Hex.{decode_hex_array}
use meshlet.Identity.Keys.{Ed25519, Authorizations}
use meshlet.Text.Lines.{lines, trim}
use meshlet.Text.Words.{split_ascii_whitespace}
use meshlet.Text.{codes}

abbrev pub public_file_version : Bytes
public_file_version = codes "MESHLET-AUTHORIZATION/1"

-- The first number is that of the line.
pub data AuthorizationError : Type 0 where
  no_keys : AuthorizationError
  line_form line_node_id : ℕ → AuthorizationError
  line_version : ℕ → Bytes → AuthorizationError
  line_hex : ℕ → Error → AuthorizationError
  line_key : ℕ → Bytes → AuthorizationError
  duplicate : Bytes → AuthorizationError

-- `line.is_empty() || line.starts_with('#')`
unfoldable pub is_skipped : Bytes → Bool
is_skipped [] = true
is_skipped (c ∷ s) = eqb c b'#'

module _ {SigningKey VerifyingKey Signature : Type 0}
    (keys : Ed25519 SigningKey VerifyingKey Signature) where
  -- The key of one line.
  unfoldable pub read_key : ℕ → Bytes → Result AuthorizationError VerifyingKey
  read_key number public_hex = do
    bytes ← elim (decode_hex_array 32 public_hex) [ ok b ↦ ok b | err e ↦ err (line_hex number e) ]
    elim (keys.verifying_key_from_bytes bytes) [
      | ok key ↦ ok key
      | err text ↦ err (line_key number text)
    ]

  -- `keys.insert(…).is_some()` is an error.
  unfoldable pub insert_new :
      Authorizations VerifyingKey
      → Bytes
      → VerifyingKey
      → Result AuthorizationError (Authorizations VerifyingKey)
  insert_new table node_id key = elim (get node_id table) [
    | some _ ↦ err (duplicate node_id)
    | none ↦ ok (insert node_id key table)
  ]

  unfoldable pub add_fields :
      Authorizations VerifyingKey
      → ℕ
      → List Bytes
      → Result AuthorizationError (Authorizations VerifyingKey)
  add_fields table number (version ∷ node_id ∷ public_hex ∷ []) = do
    ensure (version == public_file_version) (line_version number version)
    ensure (valid_node_id node_id) (line_node_id number)
    key ← read_key number public_hex
    insert_new table node_id key
  add_fields table number _ = err (line_form number)

  unfoldable pub add_line :
      Authorizations VerifyingKey
      → ℕ
      → Bytes
      → Result AuthorizationError (Authorizations VerifyingKey)
  add_line table number line =
      if is_skipped (trim line)
      then ok table
      else add_fields table number (split_ascii_whitespace (trim line))

  unfoldable pub add_lines :
      Authorizations VerifyingKey
      → ℕ
      → List Bytes
      → Result AuthorizationError (Authorizations VerifyingKey)
  add_lines table number [] = ok table
  add_lines table number (line ∷ rest) = do
    table' ← add_line table number line
    add_lines table' (suc number) rest

  unfoldable pub load : Bytes → Result AuthorizationError (Authorizations VerifyingKey)
  unfolding add_lines
  load contents = do
    table ← add_lines [] 1 (lines contents)
    ensure (not (eqb (length table) 0)) no_keys
    ok table

  -- A table that holds each node once, under a valid ID.
  abbrev Good : Authorizations VerifyingKey → Type 0
  Good table =
      IsMap table × ((n : Bytes) (k : VerifyingKey) → get n table ≡ some k → valid_node_id n ≡ true)

  insert_new-Good :
      (table table' : Authorizations VerifyingKey) (n : Bytes) (k : VerifyingKey)
      → Good table
      → valid_node_id n ≡ true
      → insert_new table n k ≡ ok table'
      → Good table'
  unfolding insert_new
  insert_new-Good table table' n k good valid e = (
    ground (arith, insert-IsMap n k table good.0, e),
    λ j v h. elim (get-insert-some j n k table (into j v h)) [
      | inl (same, _) ↦ ap valid_node_id (sym same) ∙ valid
      | inr older ↦ good.1 j v older
    ],
  )
    where
      into :
          (j : Bytes) (v : VerifyingKey) → get j table' ≡ some v → get j (insert n k table) ≡ some v
      into j v h = ground (arith, h, e)

  add_fields-Good :
      (table table' : Authorizations VerifyingKey) (number : ℕ) (fields : List Bytes)
      → Good table
      → add_fields table number fields ≡ ok table'
      → Good table'
  unfolding add_fields
  add_fields-Good table table' number (version ∷ n ∷ hex ∷ []) good e =
      let (_, e₁) = >>-eq-ok (ensure (version == public_file_version) _) _ e in
      let (valid, e₂) = >>-eq-ok (ensure (valid_node_id n) (line_node_id number)) _ e₁ in
      let (key, _, e₃) = >>=-eq-ok (read_key number hex) _ e₂ in
      insert_new-Good table table' n key good (ground (arith, valid)) e₃
  add_fields-Good table table' number _ good e = cc

  add_lines-Good :
      (table table' : Authorizations VerifyingKey) (number : ℕ) (rest : List Bytes)
      → Good table
      → add_lines table number rest ≡ ok table'
      → Good table'
  unfolding add_lines add_line
  add_lines-Good table table' number [] good e = rw (ok-injective (sym e)) good
  add_lines-Good table table' number (line ∷ rest) good e =
      let (between, e₁, e₂) = >>=-eq-ok (add_line table number line) _ e in
      let added = add_fields-Good table between number (split_ascii_whitespace (trim line)) good in
      add_lines-Good between table' (suc number) rest (ground (arith, added, good, e₁)) e₂

  -- An accepted file gives at least one node, and valid node IDs.
  pub load-valid :
      (contents : Bytes) (table : Authorizations VerifyingKey)
      → load contents ≡ ok table
      → (1 ≤ length table)
        × ((n : Bytes) (k : VerifyingKey) → get n table ≡ some k → valid_node_id n ≡ true)
  unfolding load
  load-valid contents table e =
      let (between, read, e₁) = >>=-eq-ok (add_lines [] 1 (lines contents)) _ e in
      let (some_key, e₂) = >>-eq-ok (ensure (not (eqb (length between) 0)) no_keys) _ e₁ in
      let good = add_lines-Good [] between 1 (lines contents) nothing read in
      (ground (arith, some_key, e₂), ground (arith, good, e₂))
    where
      nothing : Good []
      nothing = unfold get in (tt, λ n k h. cc)
