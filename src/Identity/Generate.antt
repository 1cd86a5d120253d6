-- ===== src/Identity/Generate.antt =====
-- src/identity.rs: `generate` and `write_new`, with the equality of paths that they use. The file
-- system is that of the operating system, and a parameter; the random bytes are an argument.
use meshlet.Common.{
  ℕ, Bool, true, false, not, ◌&&◌, ◌||◌, List, [], ◌∷◌, ◌++◌, eqb, if◌then◌else◌, Bytes, ◌==◌,
  nat_eq, list_beq, list_eq, pair_eq,
}
use meshlet.Common.Result.{Result, ok, err}
use meshlet.Coordinator.NodeId.{valid_node_id}
use meshlet.Identity.Authorized.{public_file_version}
use meshlet.Identity.Files.{private_contents}
use meshlet.Identity.Hex.{encode_hex}
use meshlet.Identity.Keys.{Ed25519}
use meshlet.Text.Words.{spaced}
use meshlet.Text.{codes}

-- A path up to its first slash, and the rest behind it.
unfoldable pub pieces_onto : Bytes → Bytes → List Bytes
pieces_onto piece [] = piece ∷ []
pieces_onto piece (c ∷ s) = elim (eqb c b'/') [
  | true ↦ piece ∷ pieces_onto [] s
  | false ↦ pieces_onto (piece ++ c ∷ []) s
]

abbrev is_current : Bytes → Bool
is_current piece = list_beq piece [] || list_beq piece (codes ".")

unfoldable pub named : List Bytes → List Bytes
named [] = []
named (piece ∷ rest) =
    let others = named rest in if is_current piece then others else piece ∷ others

abbrev current_first : Bytes → List Bytes
current_first piece = if list_beq piece (codes ".") then codes "." ∷ [] else []

-- `Path::components`: an empty piece and a `.` stand for nothing, but for a `.` at the start, and for
-- the root, which is the empty piece before a first slash.
unfoldable pub components : Bytes → Bool × List Bytes
components [] = (false, [])
components (c ∷ s) = elim (eqb c b'/') [
  | true ↦ (true, named (pieces_onto [] s))
  | false ↦ (
    false,
    elim (pieces_onto [] (c ∷ s)) [
      | [] ↦ []
      | piece ∷ rest ↦ current_first piece ++ (named (piece ∷ rest))
    ],
  )
]

abbrev same_bool : Bool → Bool → Bool
same_bool true b = b
same_bool false b = not b

-- `Path::new(a) == Path::new(b)`
unfoldable pub same_path : Bytes → Bytes → Bool
unfolding components
same_path a b = same_bool (components a).0 (components b).0 && (components a).1 == (components b).1

-- The calls on a new file, known by its path, and the reading of a file. An error is its text.
pub record FileSystem (State : Type 0) : Type 0 where
  pub create_new : State → Bytes → ℕ → Result Bytes (Unit {0}) × State
  pub write_all : State → Bytes → Bytes → Result Bytes (Unit {0}) × State
  pub sync_all : State → Bytes → Result Bytes (Unit {0}) × State
  pub read_to_string : State → Bytes → Result Bytes Bytes

pub data GenerateError : Type 0 where
  node_id_grammar same_paths : GenerateError
  no_random : Bytes → GenerateError
  refused not_written not_synced : Bytes → Bytes → GenerateError
  -- and the private key was not removed
  private_left : GenerateError → Bytes → GenerateError

unfoldable pub public_contents : Bytes → Bytes → Bytes
public_contents node_id public =
    spaced (public_file_version ∷ node_id ∷ encode_hex public ∷ []) ++ b'\n' ∷ []

module _ {State : Type 0} (fs : FileSystem State) where
  -- `map_err(…)?` on a call that changes the files
  abbrev pub or_return :
      Result Bytes (Unit {0}) × State
      → (Bytes → GenerateError)
      → (State → Result GenerateError (Unit {0}) × State)
      → Result GenerateError (Unit {0}) × State
  or_return (ok _, s) f next = next s
  or_return (err text, s) f next = (err (f text), s)

  unfoldable pub write_new : State → Bytes → Bytes → ℕ → Result GenerateError (Unit {0}) × State
  write_new s path contents mode = or_return (fs.create_new s path mode) (refused path) (λ created.
      or_return (fs.write_all created path contents) (not_written path) (λ written.
        or_return (fs.sync_all written path) (not_synced path) (λ synced. (ok tt, synced))))

  -- The error of the second file names the first one.
  abbrev pub noting_private :
      Bytes → Result GenerateError (Unit {0}) × State → Result GenerateError (Unit {0}) × State
  noting_private private_path (ok _, s) = (ok tt, s)
  noting_private private_path (err e, s) = (err (private_left e private_path), s)

  abbrev pub then_public :
      Result GenerateError (Unit {0}) × State
      → (State → Result GenerateError (Unit {0}) × State)
      → Result GenerateError (Unit {0}) × State
  then_public (err e, s) next = (err e, s)
  then_public (ok _, s) next = next s

  module _ {SigningKey VerifyingKey Signature : Type 0}
      (keys : Ed25519 SigningKey VerifyingKey Signature) where
    -- The two files of a secret.
    unfoldable pub write_files :
        State → Bytes → Bytes → Bytes → Bytes → Result GenerateError (Unit {0}) × State
    unfolding write_new
    write_files s node_id private_path public_path secret =
        let public_key = keys.verifying_key (keys.signing_key_from_bytes secret) in
        then_public (write_new s private_path (private_contents node_id secret) 0o600) (λ s'.
          noting_private private_path (
            write_new s' public_path (public_contents node_id (keys.verifying_key_bytes public_key))
              0o644))

    -- `signing_key.as_bytes()` are the secret bytes that the key is made from.
    unfoldable pub generate :
        State → Bytes → Bytes → Bytes → Result Bytes Bytes → Result GenerateError (Unit {0}) × State
    unfolding write_files
    generate s node_id private_path public_path random =
        if not (valid_node_id node_id)
        then (err node_id_grammar, s)
        else if same_path private_path public_path
        then (err same_paths, s)
        else elim random [
          | err text ↦ (err (no_random text), s)
          | ok secret ↦ write_files s node_id private_path public_path secret
        ]
