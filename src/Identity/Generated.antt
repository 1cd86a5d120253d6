-- ===== src/Identity/Generated.antt =====
-- src/identity.rs: `generate` leaves every older file as it was, and what it writes is loaded back.
use mathlib.Core.Path.{subst}
use meshlet.Common.{ℕ, ◌≡◌, refl, ap, inl, inr, true, Bool-cases, Bytes, nat_eq, list_eq, pair_eq}
use meshlet.Common.Result.{Result, ok, err, Result-cases}
use meshlet.Coordinator.NodeId.{valid_node_id}
use meshlet.Identity.Files.{private_contents}
use meshlet.Identity.Generate.{
  FileSystem, GenerateError, refused, not_written, not_synced, same_path, or_return, noting_private,
  then_public, write_new, write_files, generate, public_contents,
}
use meshlet.Identity.Keys.{Ed25519}
use meshlet.Text.Utf8.{is_utf8}

-- What the operating system documents: a new file is created only where there is none, so that
-- neither this nor what is written to it changes a file that was there; and a file that was written
-- and synchronized is read back.
pub record FileLaws {State : Type 0} (fs : FileSystem State) : Type 0 where
  pub read_back :
      (s s₁ s₂ s₃ : State) (path contents : Bytes) (mode : ℕ)
      → fs.create_new s path mode ≡ (ok tt, s₁)
      → fs.write_all s₁ path contents ≡ (ok tt, s₂)
      → fs.sync_all s₂ path ≡ (ok tt, s₃)
      → is_utf8 contents ≡ true
      → fs.read_to_string s₃ path ≡ ok contents
  pub kept_by_create :
      (s : State) (path other contents : Bytes) (mode : ℕ)
      → fs.read_to_string s other ≡ ok contents
      → fs.read_to_string (fs.create_new s path mode).1 other ≡ ok contents
  pub kept_by_write :
      (s s₁ : State) (path other contents written : Bytes) (mode : ℕ)
      → fs.create_new s path mode ≡ (ok tt, s₁)
      → fs.read_to_string s other ≡ ok contents
      → fs.read_to_string (fs.write_all s₁ path written).1 other ≡ ok contents
  pub kept_by_sync :
      (s : State) (path other contents : Bytes)
      → fs.read_to_string s other ≡ ok contents
      → fs.read_to_string (fs.sync_all s path).1 other ≡ ok contents

module _ {State : Type 0} (fs : FileSystem State) (laws : FileLaws fs) where
  or_return_keeps :
      (P : State → Type 0) (r : Result Bytes (Unit {0}) × State) (f : Bytes → GenerateError)
      (next : State → Result GenerateError (Unit {0}) × State)
      → P r.1
      → ((s : State) → r ≡ (ok tt, s) → P (next s).1)
      → P (or_return fs r f next).1
  or_return_keeps P (ok tt, s) f next h k = k s refl
  or_return_keeps P (err e, s) f next h k = h

  pub write_new_keeps :
      (s : State) (path contents other old : Bytes) (mode : ℕ)
      → fs.read_to_string s other ≡ ok old
      → fs.read_to_string (write_new fs s path contents mode).1 other ≡ ok old
  unfolding write_new
  write_new_keeps s path contents other old mode h =
      let Keeps : State → Type 0 = λ s. fs.read_to_string s other ≡ ok old in
      let synced_state : State → Result GenerateError (Unit {0}) × State =
        λ synced. (ok tt, synced) in
      let sync : State → Result GenerateError (Unit {0}) × State =
        λ written. or_return fs (fs.sync_all written path) (not_synced path) synced_state in
      or_return_keeps Keeps _ _ _ (laws.kept_by_create s path other old mode h) (λ s₁ created.
        let kept = laws.kept_by_write s s₁ path other old contents mode created h in
        or_return_keeps Keeps (fs.write_all s₁ path contents) (not_written path) sync kept
          (λ s₂ written.
            let kept' =
              laws.kept_by_sync s₂ path other old (subst Keeps (ap (λ r. r.1) written) kept) in
            or_return_keeps Keeps (fs.sync_all s₂ path) (not_synced path) synced_state kept'
              (λ s₃ synced. subst Keeps (ap (λ r. r.1) synced) kept')))

  -- A successful `write_new` is a file that is read back.
  or_return-eq-ok :
      (r : Result Bytes (Unit {0}) × State) (f : Bytes → GenerateError)
      (next : State → Result GenerateError (Unit {0}) × State) {last : State}
      → or_return fs r f next ≡ (ok tt, last)
      → (s : State) × (r ≡ (ok tt, s)) × (next s ≡ (ok tt, last))
  or_return-eq-ok (ok tt, s) f next e = (s, refl, e)
  or_return-eq-ok (err w, s) f next e = cc

  pub write_new_reads :
      (s : State) (path contents : Bytes) (mode : ℕ) {last : State}
      → is_utf8 contents ≡ true
      → write_new fs s path contents mode ≡ (ok tt, last)
      → fs.read_to_string last path ≡ ok contents
  unfolding write_new
  write_new_reads s path contents mode valid e =
      let synced_state : State → Result GenerateError (Unit {0}) × State =
        λ synced. (ok tt, synced) in
      let sync : State → Result GenerateError (Unit {0}) × State =
        λ written. or_return fs (fs.sync_all written path) (not_synced path) synced_state in
      let (s₁, created, e₁) = or_return-eq-ok _ (refused path) _ e in
      let (s₂, written, e₂) =
        or_return-eq-ok (fs.write_all s₁ path contents) (not_written path) sync e₁ in
      let (s₃, synced, e₃) =
        or_return-eq-ok (fs.sync_all s₂ path) (not_synced path) synced_state e₂ in
      subst (λ s. fs.read_to_string s path ≡ ok contents) (ap (λ r. r.1) e₃)
        (laws.read_back s s₁ s₂ s₃ path contents mode created written synced valid)

  noting_private_state :
      (path : Bytes) (r : Result GenerateError (Unit {0}) × State)
      → (noting_private fs path r).1 ≡ r.1
  noting_private_state path (ok tt, s) = refl
  noting_private_state path (err e, s) = refl

  then_public_keeps :
      (P : State → Type 0) (r : Result GenerateError (Unit {0}) × State)
      (next : State → Result GenerateError (Unit {0}) × State)
      → P r.1
      → ((s : State) → P s → P (next s).1)
      → P (then_public fs r next).1
  then_public_keeps P (ok tt, s) next h k = k s h
  then_public_keeps P (err e, s) next h k = h

  then_public-eq-ok :
      (r : Result GenerateError (Unit {0}) × State)
      (next : State → Result GenerateError (Unit {0}) × State) {last : State}
      → then_public fs r next ≡ (ok tt, last)
      → (s : State) × (r ≡ (ok tt, s)) × (next s ≡ (ok tt, last))
  then_public-eq-ok (ok tt, s) next e = (s, refl, e)
  then_public-eq-ok (err w, s) next e = cc

  noting_private-eq-ok :
      (path : Bytes) (r : Result GenerateError (Unit {0}) × State) {last : State}
      → noting_private fs path r ≡ (ok tt, last)
      → r ≡ (ok tt, last)
  noting_private-eq-ok path (ok tt, s) e = e
  noting_private-eq-ok path (err w, s) e = cc

  module _ {SigningKey VerifyingKey Signature : Type 0}
      (keys : Ed25519 SigningKey VerifyingKey Signature) where
    write_files_keeps :
        (s : State) (node_id private_path public_path secret other old : Bytes)
        → fs.read_to_string s other ≡ ok old
        → fs.read_to_string (write_files fs keys s node_id private_path public_path secret).1 other
          ≡ ok old
    unfolding write_files
    write_files_keeps s node_id private_path public_path secret other old h =
        let public_key = keys.verifying_key (keys.signing_key_from_bytes secret) in
        let contents = public_contents node_id (keys.verifying_key_bytes public_key) in
        then_public_keeps (λ s. fs.read_to_string s other ≡ ok old)
          (write_new fs s private_path (private_contents node_id secret) 0o600)
          (λ s'. noting_private fs private_path (write_new fs s' public_path contents 0o644))
          (write_new_keeps s private_path (private_contents node_id secret) other old 0o600 h)
          (λ s' k.
            rw (noting_private_state private_path (write_new fs s' public_path contents 0o644))
              (write_new_keeps s' public_path contents other old 0o644 k))

    -- Generating an identity changes no file that was there, whatever it comes to: neither where a
    -- path is in use already, nor where a call of the system fails.
    pub generate_keeps :
        (s : State) (node_id private_path public_path : Bytes) (random : Result Bytes Bytes)
        (other old : Bytes)
        → fs.read_to_string s other ≡ ok old
        → fs.read_to_string (generate fs keys s node_id private_path public_path random).1 other
          ≡ ok old
    unfolding generate write_files
    generate_keeps s node_id private_path public_path random other old h =
        elim (Bool-cases (valid_node_id node_id)) [
          | inr invalid ↦ rw invalid h
          | inl valid ↦ rw valid (elim (Bool-cases (same_path private_path public_path)) [
            | inl same ↦ rw same h
            | inr different ↦ rw different (elim (Result-cases random) [
              | inl (text, q) ↦ rw q h
              | inr (secret, q) ↦
                  rw q (write_files_keeps s node_id private_path public_path secret other old h)
            ])
          ])
        ]

    -- What `generate` goes through where it ends well.
    pub write_files-eq-ok :
        (s last : State) (node_id private_path public_path secret : Bytes)
        → write_files fs keys s node_id private_path public_path secret ≡ (ok tt, last)
        → (s' : State) × (write_new fs s private_path (private_contents node_id secret) 0o600
            ≡ (ok tt, s'))
          × (write_new fs s' public_path
                (public_contents node_id (
                  keys.verifying_key_bytes
                    (keys.verifying_key (keys.signing_key_from_bytes secret))))
                0o644
              ≡ (ok tt, last))
    unfolding write_files
    write_files-eq-ok s last node_id private_path public_path secret e =
        let (s', first, rest) =
          then_public-eq-ok (write_new fs s private_path (private_contents node_id secret) 0o600) _
            e in
        (s', first, noting_private-eq-ok private_path _ rest)
