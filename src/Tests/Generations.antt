-- ===== src/Tests/Generations.antt =====
-- Generating an identity on a small file system, under keys of one bit.
use meshlet.Common.{
  ◌≡◌, refl, Bool, true, false, not, ◌||◌, none, some, [], ◌∷◌, arith, eqb, if◌then◌else◌, Bytes,
  get_or, nat_eq, list_beq, list_beq_iff, list_eq, pair_eq,
}
use meshlet.Common.HashMap.{HashMap, get, insert, get-insert}
use meshlet.Common.Result.{Result, ok, err}
use meshlet.Identity.Generate.{
  GenerateError, FileSystem, same_path, generate, pieces_onto, named, components,
}
use meshlet.Identity.Generated.{FileLaws, generate_keeps}
use meshlet.Identity.Keys.{Ed25519}
use meshlet.Tests.Toys.{copies}
use meshlet.Text.{codes}

abbrev Files : Type 0
Files = HashMap Bytes Bytes

abbrev toy_files : FileSystem Files
toy_files = record {
  create_new = λ s path mode. elim (get path s) [
    | some _ ↦ (err (codes "exists"), s)
    | none ↦ (ok tt, insert path [] s)
  ];
  write_all = λ s path contents. (ok tt, insert path contents s);
  sync_all = λ s path. (ok tt, s);
  read_to_string = λ s path. elim (get path s) [
    | some contents ↦ ok contents
    | none ↦ err (codes "no such file")
  ];
}

toy_files-FileLaws : FileLaws toy_files
toy_files-FileLaws = record {
  read_back = λ s s₁ s₂ s₃ path contents mode p q r valid.
      ground (arith, p, q, r, get-insert path path contents s₁, list_beq_iff path path);
  kept_by_create = λ s path other contents mode h.
      ground (arith, h, get-insert other path [] s, list_beq_iff path other);
  kept_by_write = λ s s₁ path other contents written mode p h. ground (
    arith,
    p,
    h,
    get-insert other path [] s,
    get-insert other path written s₁,
    list_beq_iff path other,
  );
  kept_by_sync = λ s path other contents h. h;
}

abbrev flag : Bytes → Bool
flag bytes = eqb (get_or bytes 0 0) 1

abbrev flag_bytes : Bool → Bytes
flag_bytes b = copies 32 (if b then 1 else 0)

abbrev flag_keys : Ed25519 Bool Bool Bool
flag_keys = record {
  sign = λ key text. key;
  verify_strict = λ key text signature. not key || signature;
  verifying_key = λ key. key;
  signing_key_from_bytes = λ bytes. flag bytes;
  verifying_key_from_bytes = λ bytes. ok (flag bytes);
  verifying_key_bytes = λ key. flag_bytes key;
  signature_from_bytes = λ bytes. ok (flag bytes);
  signature_bytes = λ signature. flag_bytes signature;
}

abbrev before : Files
before = (codes "a.authorization", codes "older") ∷ []

abbrev outcome : Bytes → Result GenerateError (Unit {0}) × Files
outcome public_path =
    generate toy_files flag_keys before (codes "mesh-a") (codes "a.identity") public_path
      (ok (copies 32 1))

has_older : toy_files.read_to_string before (codes "a.authorization") ≡ ok (codes "older")
unfolding get list_beq
has_older = refl

-- The public path is in use: the file there stays, and the private one has been made.
generate_keeps_example :
    toy_files.read_to_string (outcome (codes "a.authorization")).1 (codes "a.authorization")
    ≡ ok (codes "older")
generate_keeps_example =
    generate_keeps toy_files toy_files-FileLaws flag_keys before (codes "mesh-a")
      (codes "a.identity") (codes "a.authorization") (ok (copies 32 1)) (codes "a.authorization")
      (codes "older") has_older

-- `Path` equality.
same_path_runs :
    (same_path (codes "keys//a/./b/") (codes "keys/a/b") ≡ true)
    × (same_path (codes "./a") (codes "a") ≡ false)
    × (same_path (codes "/a") (codes "a") ≡ false)
unfolding same_path components pieces_onto named list_beq
same_path_runs = (refl, refl, refl)
