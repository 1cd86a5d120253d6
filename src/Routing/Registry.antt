-- ===== src/Routing/Registry.antt =====
-- src/routing.rs: `RouteRegistry`, the table of leased advertisements, in the order of insertion.
use mathlib.Core.Option
use meshlet.Common.{
  ℕ, Bool, not, ◌&&◌, Option, none, some, List, [], ◌∷◌, ◌++◌, ltb, leb, if◌then◌else◌, Bytes, ◌==◌,
  nat_eq, list_eq, pair_eq, Instant, Duration, checked_add,
}
use meshlet.Common.Outcome.{Outcome, done, ◌>>=◌, expect, route_expiration}
use meshlet.Net.Ipv4.{Ipv4Addr}
use meshlet.Routing.Prefix.{Ipv4Prefix, contains, prefix_eq}

pub record SelectedRoute : Type 0 where
  pub prefix : Ipv4Prefix
  pub node_id : Bytes

pub record Advertisement : Type 0 where
  pub route : SelectedRoute
  pub open route use *
  pub expires_at : Instant

abbrev pub RouteRegistry : Type 0
RouteRegistry = List Advertisement

module _ {A : Type 0} where
  -- `Vec::retain`, and `Iterator::filter`
  unfoldable pub retain : (A → Bool) → List A → List A
  retain p [] = []
  retain p (x ∷ xs) = let rest = retain p xs in if p x then x ∷ rest else rest

  -- The loop of `Iterator::max_by_key`: of equal keys the later wins.
  unfoldable pub max_from : (A → ℕ) → A → List A → A
  max_from key best [] = best
  max_from key best (x ∷ xs) = max_from key (if leb (key best) (key x) then x else best) xs

  unfoldable pub max_by_key : (A → ℕ) → List A → Option A
  unfolding max_from
  max_by_key key [] = none
  max_by_key key (x ∷ xs) = some (max_from key x xs)

unfoldable pub remove_expired : RouteRegistry → Instant → RouteRegistry
remove_expired r now = retain (λ a. ltb now a.expires_at) r

-- The entry that an advertisement of `node_id` and `prefix` replaces.
unfoldable pub is_same : Bytes → Ipv4Prefix → Advertisement → Bool
is_same node_id prefix a = a.node_id == node_id && a.prefix == prefix

unfoldable pub advertise :
    RouteRegistry → Bytes → Ipv4Prefix → Duration → Instant → Outcome RouteRegistry
advertise r node_id prefix lease now = do
  let live = remove_expired r now
  expires_at ← expect (checked_add now lease) route_expiration
  let entry : Advertisement = record {
    route = record { prefix = prefix; node_id = node_id };
    expires_at = expires_at;
  }
  done (retain (λ a. not (is_same node_id prefix a)) live ++ entry ∷ [])

unfoldable pub lookup : RouteRegistry → Ipv4Addr → Instant → Option SelectedRoute × RouteRegistry
lookup r destination now =
    let live = remove_expired r now in
    let candidates = retain (λ a. contains a.prefix destination) live in
    (Option.map (λ a. a.route) (max_by_key (λ a. a.prefix.length) candidates), live)
