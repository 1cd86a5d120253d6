-- ===== src/Tests/Identities.antt =====
-- The theorems on the files of identities and authorizations at small files.
use meshlet.Common.{
  ℕ, All, ◌≤◌, ◌≡◌, refl, true, some, [], ◌∷◌, ◌++◌, Bytes, length, nat_eq, list_beq, list_eq,
  pair_eq, be_onto, from_be_bytes,
}
use meshlet.Common.HashMap.{get, insert}
use meshlet.Common.Result.{ok}
use meshlet.Coordinator.NodeId.{valid_node_id}
use meshlet.Identity.Authorized.{is_skipped, read_key, insert_new, add_fields, add_line, load}
use meshlet.Identity.Hex.{decode_hex_array}
use meshlet.Identity.Keys.{Authorizations}
use meshlet.Identity.Listed.{listed, Distinct, HasKey, load-listed}
use meshlet.Tests.Toys.{copies, toy_keys}
use meshlet.Text.Lines.{lines, trim}
use meshlet.Text.Words.{split_ascii_whitespace}
use meshlet.Text.{codes}

abbrev node : Bytes
node = codes "mesh-a"

node_valid : valid_node_id node ≡ true
unfolding valid_node_id
node_valid = refl

abbrev contents : Bytes
contents = codes "# keys\n  MESHLET-AUTHORIZATION/1 mesh-a " ++ (copies 64 48 ++ (13 ∷ 10 ∷ []))

abbrev table : Authorizations ℕ
table = (node, 0) ∷ []

load_run : load toy_keys contents ≡ ok table
unfolding load lines add_line is_skipped trim add_fields split_ascii_whitespace list_beq
    valid_node_id read_key decode_hex_array insert_new get insert from_be_bytes be_onto
load_run = refl

load-listed_example :
    Distinct (listed (lines contents))
    × All (HasKey toy_keys table) (listed (lines contents))
    × (1 ≡ length (listed (lines contents)))
    × (1 ≤ length table)
    × ((n : Bytes) (k : ℕ) → get n table ≡ some k → valid_node_id n ≡ true)
load-listed_example = load-listed toy_keys contents table load_run
