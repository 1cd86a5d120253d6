-- ===== src/Identity/Listed.antt =====
-- src/identity.rs: the table that `Authorizations::load` makes, entry by entry.
use meshlet.Common.{
  ℕ, not, eqb, suc, ◌+◌, ◌≤◌, ◌≡◌, refl, sym, ap, ◌∙◌, ◌≢◌, inl, inr, true, none, some, List, [],
  ◌∷◌, arith, if◌then◌else◌, Bool-cases, Bytes, length, All, All-imp, eq_refl, list_beq_iff, ◌==◌,
  nat_eq, list_eq, pair_eq,
}
use meshlet.Common.HashMap.{HashMap, get, insert, get-insert}
use meshlet.Common.Result.{ok, Result-cases, ensure, >>=-eq-ok, >>-eq-ok, ok-injective}
use meshlet.Coordinator.NodeId.{valid_node_id}
use meshlet.Identity.Authorized.{
  is_skipped, read_key, insert_new, add_fields, add_line, add_lines, load, load-valid, line_version,
  line_node_id, no_keys, public_file_version,
}
use meshlet.Identity.Hex.{decode_hex_array}
use meshlet.Identity.Keys.{Ed25519, Authorizations}
use meshlet.Text.Lines.{lines, trim}
use meshlet.Text.Words.{split_ascii_whitespace}

-- The node ID and the key on a line of the file.
abbrev pub entry : List Bytes → Bytes × Bytes
entry (version ∷ node_id ∷ public_hex ∷ []) = (node_id, public_hex)
entry _ = ([], [])

-- Those of all lines but the empty ones and the comments.
unfoldable pub listed : List Bytes → List (Bytes × Bytes)
listed [] = []
listed (line ∷ rest) =
    let others = listed rest in
    if is_skipped (trim line) then others else entry (split_ascii_whitespace (trim line)) ∷ others

-- No node is listed twice.
abbrev pub Distinct : List (Bytes × Bytes) → Type 0
Distinct [] = Unit
Distinct (e ∷ es) = All (λ (d : Bytes × Bytes). d.0 ≢ e.0) es × Distinct es

length-insert :
    {V : Type 0} (k : Bytes) (v : V) (m : HashMap Bytes V)
    → get k m ≡ none
    → length (insert k v m) ≡ suc (length m)
unfolding get insert
length-insert k v [] h = refl
length-insert k v ((j, w) ∷ m) h = elim (Bool-cases (j == k)) [
  | inl same ↦ absurd (ground (arith, same, h))
  | inr other ↦ ground (arith, other, h, length-insert k v m)
]

module _ {SigningKey VerifyingKey Signature : Type 0}
    (keys : Ed25519 SigningKey VerifyingKey Signature) where
  -- The node is in the table with the key that its line spells.
  abbrev pub HasKey : Authorizations VerifyingKey → Bytes × Bytes → Type 0
  HasKey table e =
      (bytes : Bytes) × (key : VerifyingKey) × (decode_hex_array 32 e.1 ≡ ok bytes)
      × (keys.verifying_key_from_bytes bytes ≡ ok key)
      × (get e.0 table ≡ some key)

  read_key-ok :
      (number : ℕ) (hex : Bytes) (key : VerifyingKey)
      → read_key keys number hex ≡ ok key
      → (bytes : Bytes) × (decode_hex_array 32 hex ≡ ok bytes)
        × (keys.verifying_key_from_bytes bytes ≡ ok key)
  unfolding read_key
  read_key-ok number hex key e = elim (Result-cases (decode_hex_array 32 hex)) [
    | inl (w, q) ↦ absurd (ground (arith, q, e))
    | inr (bytes, q) ↦ (bytes, q, ground (arith, q, e))
  ]

  -- A line that is read adds its node, which was not there.
  add_fields-ok :
      (table table' : Authorizations VerifyingKey) (number : ℕ) (fields : List Bytes)
      → add_fields keys table number fields ≡ ok table'
      → (bytes : Bytes) × (key : VerifyingKey) × (decode_hex_array 32 (entry fields).1 ≡ ok bytes)
        × (keys.verifying_key_from_bytes bytes ≡ ok key)
        × (get (entry fields).0 table ≡ none)
        × (table' ≡ insert (entry fields).0 key table)
  unfolding add_fields insert_new
  add_fields-ok table table' number (version ∷ n ∷ hex ∷ []) e =
      let (_, e₁) =
        >>-eq-ok (ensure (version == public_file_version) (line_version number version)) _ e in
      let (_, e₂) = >>-eq-ok (ensure (valid_node_id n) (line_node_id number)) _ e₁ in
      let (key, read, e₃) = >>=-eq-ok (read_key keys number hex) _ e₂ in
      let (bytes, decoded, accepted) = read_key-ok number hex key read in
      (bytes, key, decoded, accepted, ground (arith, e₃), ground (arith, e₃))
  add_fields-ok table table' number _ e = cc

  -- What an insertion of a new node leaves.
  get-insert-kept :
      (table : Authorizations VerifyingKey) (n : Bytes) (key : VerifyingKey)
      → get n table ≡ none
      → (m : Bytes) (k : VerifyingKey) → get m table ≡ some k
      → get m (insert n key table) ≡ some k
  get-insert-kept table n key new m k h =
      ground (arith, get-insert m n key table, list_beq_iff n m, new, h)

  get-insert-none :
      (table : Authorizations VerifyingKey) (n m : Bytes) (key : VerifyingKey)
      → get m (insert n key table) ≡ none
      → (m ≢ n) × (get m table ≡ none)
  get-insert-none table n m key h = (
    λ same. ground (arith, get-insert m n key table, list_beq_iff n m, same, h),
    ground (arith, get-insert m n key table, h),
  )

  record Added (table table' : Authorizations VerifyingKey) (es : List (Bytes × Bytes))
      : Type 0 where
    distinct : Distinct es
    fresh : All (λ (e : Bytes × Bytes). get e.0 table ≡ none) es
    present : All (HasKey table') es
    size : length table' ≡ length table + length es
    kept : (n : Bytes) (k : VerifyingKey) → get n table ≡ some k → get n table' ≡ some k

  Added-cons :
      (table table' : Authorizations VerifyingKey) (e : Bytes × Bytes) (es : List (Bytes × Bytes))
      (bytes : Bytes) (key : VerifyingKey)
      → decode_hex_array 32 e.1 ≡ ok bytes
      → keys.verifying_key_from_bytes bytes ≡ ok key
      → get e.0 table ≡ none
      → Added (insert e.0 key table) table' es
      → Added table table' (e ∷ es)
  Added-cons table table' e es bytes key decoded accepted new added = record {
    distinct = (
      All-imp _ (λ (d : Bytes × Bytes). d.0 ≢ e.0) (λ d h. (get-insert-none table e.0 d.0 key h).0)
          es added.fresh,
      added.distinct,
    );
    fresh = (
      new,
      All-imp _ (λ (d : Bytes × Bytes). get d.0 table ≡ none)
          (λ d h. (get-insert-none table e.0 d.0 key h).1) es added.fresh,
    );
    present = (
      (
        bytes,
        key,
        decoded,
        accepted,
        added.kept e.0 key (
            get-insert e.0 e.0 key table
            ∙ ap (λ b. if b then some key else get e.0 table) (eq_refl e.0)),
      ),
      added.present,
    );
    size = omega (arith, added.size, length-insert e.0 key table new);
    kept = λ n k h. added.kept n k (get-insert-kept table e.0 key new n k h);
  }

  add_lines-Added :
      (table table' : Authorizations VerifyingKey) (number : ℕ) (rest : List Bytes)
      → add_lines keys table number rest ≡ ok table'
      → Added table table' (listed rest)
  unfolding add_lines add_line listed
  add_lines-Added table table' number [] e =
      rw (ok-injective (sym e))
        (record { distinct = tt; fresh = tt; present = tt; size = omega arith; kept = λ n k h. h })
  add_lines-Added table table' number (line ∷ rest) e =
      let (between, e₁, e₂) = >>=-eq-ok (add_line keys table number line) _ e in
      let added = add_lines-Added between table' (suc number) rest e₂ in
      elim (Bool-cases (is_skipped (trim line))) [
        | inl skipped ↦
            let same : table ≡ between = ground (arith, skipped, e₁) in rw (skipped, same) added
        | inr read ↦
            let fields = split_ascii_whitespace (trim line) in
            let (bytes, key, decoded, accepted, new, inserted) =
              add_fields-ok table between number fields (ground (arith, read, e₁)) in
            rw read (
              Added-cons table table' (entry fields) (listed rest) bytes key decoded accepted new
                (rw inserted at added))
      ]

  -- A file is accepted only if it lists no node twice. The table then has as many nodes as the file
  -- lists, at least one, each with the key that its line spells, and all of them are valid node IDs.
  pub load-listed :
      (contents : Bytes) (table : Authorizations VerifyingKey)
      → load keys contents ≡ ok table
      → Distinct (listed (lines contents))
        × All (HasKey table) (listed (lines contents))
        × (length table ≡ length (listed (lines contents)))
        × (1 ≤ length table)
        × ((n : Bytes) (k : VerifyingKey) → get n table ≡ some k → valid_node_id n ≡ true)
  unfolding load
  load-listed contents table e =
      let (between, read, e₁) = >>=-eq-ok (add_lines keys [] 1 (lines contents)) _ e in
      let (_, e₂) = >>-eq-ok (ensure (not (eqb (length between) 0)) no_keys) _ e₁ in
      let same : between ≡ table = ok-injective e₂ in
      let added = rw same at (add_lines-Added [] between 1 (lines contents) read) in
      let (some_key, valid) = load-valid keys contents table e in
      (added.distinct, added.present, omega (arith, added.size), some_key, valid)
