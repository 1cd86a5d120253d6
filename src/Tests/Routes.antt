-- ===== src/Tests/Routes.antt =====
-- The route table's theorems at two overlapping prefixes.
use meshlet.Common.{
  ℕ, ◌+◌, ◌≤◌, ◌<◌, ◌≡◌, refl, ◌≢◌, ◌↔◌, ◌⊎◌, true, some, [], ◌∷◌, arith, Bytes, nat_eq, list_beq,
  list_eq, pair_eq,
}
use meshlet.Common.Outcome.{done}
use meshlet.Common.Result.{ok}
use meshlet.Routing.Leases.{entry, In-advertise_iff, lookup-advertise, lookup-advertise_expired}
use meshlet.Routing.Mask.{IsCanonical, block, contains_iff}
use meshlet.Routing.Parse.{parse_prefix-IsCanonical, parse_prefix-display_prefix}
use meshlet.Routing.Prefix.{
  Ipv4Prefix, contains, prefix_mask, display_prefix, parse_prefix, checked_prefix, prefix_beq,
}
use meshlet.Routing.Registry.{
  SelectedRoute, RouteRegistry, retain, max_by_key, max_from, remove_expired, is_same, advertise,
  lookup,
}
use meshlet.Routing.Selection.{In, Selects, lookup-Selects}
use meshlet.Net.Ipv4.{split_once, parse_ipv4, four_octets, octet}
use meshlet.Text.Decimal.{parse_unsigned, scan}
use meshlet.Text.{codes}

-- 10.0.0.0/8 and 10.30.0.0/16
abbrev wide : Ipv4Prefix
wide = record { network = 167_772_160; length = 8 }

abbrev narrow : Ipv4Prefix
narrow = record { network = 169_738_240; length = 16 }

abbrev node : Bytes
node = codes "mesh-a"

abbrev table : RouteRegistry
table = entry node wide 100 ∷ []

abbrev longer_table : RouteRegistry
longer_table = entry node wide 100 ∷ entry node narrow 60 ∷ []

-- 10.30.0.2
abbrev destination : ℕ
destination = 169_738_242

advertise_run : advertise table node narrow 50 10 ≡ done longer_table
unfolding advertise remove_expired retain is_same list_beq prefix_beq
advertise_run = refl

narrow-IsCanonical : IsCanonical narrow
narrow-IsCanonical = record {
  length_le = omega arith;
  network_lt = omega arith;
  no_host_bits = refl;
}

contains-narrow : contains narrow destination ≡ true
unfolding contains prefix_mask
contains-narrow = refl

lookup-Selects_example : Selects longer_table destination 20 (lookup longer_table destination 20).0
lookup-Selects_example = lookup-Selects longer_table destination 20

selected_run :
    (lookup longer_table destination 20).0 ≡ some (record { prefix = narrow; node_id = node })
unfolding lookup remove_expired retain contains prefix_mask max_by_key max_from
selected_run = refl

lookup-advertise_example :
    (route : SelectedRoute) × ((lookup longer_table destination 59).0 ≡ some route)
    × (16 ≤ route.prefix.length)
lookup-advertise_example =
    lookup-advertise table longer_table node narrow 50 10 59 destination advertise_run (omega arith)
      contains-narrow

lookup-advertise_expired_example :
    (lookup longer_table destination 60).0 ≢ some (record { prefix = narrow; node_id = node })
lookup-advertise_expired_example =
    lookup-advertise_expired table longer_table node narrow 50 10 60 destination advertise_run
      (omega arith)

In-advertise_example : In (entry node wide 100) longer_table ↔ (
    (entry node wide 100 ≡ entry node narrow (10 + 50))
    ⊎ (In (entry node wide 100) table × (10 < 100) × ¬ ((node ≡ node) × (wide ≡ narrow))))
In-advertise_example =
    In-advertise_iff table longer_table node narrow 50 10 (entry node wide 100) advertise_run

contains_example :
    (contains narrow destination ≡ true)
    ↔ ((narrow.network ≤ destination) × (destination < narrow.network + block 16))
contains_example = contains_iff narrow destination narrow-IsCanonical (omega arith)

parse_prefix_run : parse_prefix (codes "10.30.0.0/16") ≡ ok narrow
unfolding parse_prefix checked_prefix parse_ipv4 four_octets split_once octet parse_unsigned scan
    prefix_mask
parse_prefix_run = refl

parse_prefix-IsCanonical_example : IsCanonical narrow
parse_prefix-IsCanonical_example =
    parse_prefix-IsCanonical (codes "10.30.0.0/16") narrow parse_prefix_run

parse_prefix-display_prefix_example : parse_prefix (display_prefix narrow) ≡ ok narrow
parse_prefix-display_prefix_example = parse_prefix-display_prefix narrow narrow-IsCanonical
