-- ===== src/Routing/Leases.antt =====
-- src/routing.rs: an advertisement replaces the node's earlier one for the prefix, and lasts for its
-- lease.
use mathlib.Core.Path.{subst}
use meshlet.Common.{
  ◌+◌, ◌≤◌, ◌<◌, ◌≡◌, refl, sym, ap, ◌≢◌, ◌↔◌, ◌⊎◌, inl, inr, true, false, not, some, List, [], ◌∷◌,
  ◌++◌, arith, ltb, ltb→lt, lt→ltb, Bool-cases, Option-cases, Bytes, nat_eq, list_beq_iff, list_eq,
  pair_eq, Instant, Duration, instant_limit,
}
use meshlet.Common.Outcome.{done, done-injective}
use meshlet.Net.Ipv4.{Ipv4Addr}
use meshlet.Routing.Prefix.{Ipv4Prefix, contains, prefix_beq_iff, prefix_eq}
use meshlet.Routing.Registry.{
  SelectedRoute, Advertisement, RouteRegistry, retain, remove_expired, is_same, advertise, lookup,
}
use meshlet.Routing.Selection.{In, In-retain, retain-In, Matches, Selects, lookup-Selects}

abbrev pub entry : Bytes → Ipv4Prefix → Instant → Advertisement
entry node_id prefix deadline = record {
  route = record { prefix = prefix; node_id = node_id };
  expires_at = deadline;
}

In-concat : {A : Type 0} (a x : A) (xs : List A) → In a (xs ++ x ∷ []) ↔ (In a xs ⊎ (a ≡ x))
In-concat a x [] = ground arith
In-concat a x (y ∷ ys) = ground (arith, In-concat a x ys)

is_same_iff :
    (n : Bytes) (p : Ipv4Prefix) (a : Advertisement)
    → (is_same n p a ≡ true) ↔ ((a.node_id ≡ n) × (a.prefix ≡ p))
unfolding is_same
is_same_iff n p a = ground (arith, list_beq_iff a.node_id n, prefix_beq_iff a.prefix p)

-- The entries that an advertisement keeps.
abbrev kept : RouteRegistry → Bytes → Ipv4Prefix → Instant → List Advertisement
kept r n p now = retain (λ a. not (is_same n p a)) (retain (λ a. ltb now a.expires_at) r)

advertise_inv :
    (r r' : RouteRegistry) (n : Bytes) (p : Ipv4Prefix) (lease : Duration) (now : Instant)
    → advertise r n p lease now ≡ done r'
    → r' ≡ kept r n p now ++ entry n p (now + lease) ∷ []
unfolding advertise remove_expired
advertise_inv r r' n p lease now e = elim (Bool-cases (ltb (now + lease) instant_limit)) [
  | inl room ↦ done-injective (sym (rw room at e))
  | inr late ↦ cc (rw late at e)
]

In-kept_iff :
    (r : RouteRegistry) (n : Bytes) (p : Ipv4Prefix) (now : Instant) (b : Advertisement)
    → In b (kept r n p now) ↔ (In b r × (now < b.expires_at) × ¬ ((b.node_id ≡ n) × (b.prefix ≡ p)))
In-kept_iff r n p now b = (
  λ h.
      let (live, other) = In-retain (λ a. not (is_same n p a)) b _ h in
      let (m, unexpired) = In-retain (λ a. ltb now a.expires_at) b r live in
      (m, ltb→lt now b.expires_at unexpired, λ same. cc (other, (is_same_iff n p b).1 same)),
  λ h.
      retain-In (λ a. not (is_same n p a)) b _
        (retain-In (λ a. ltb now a.expires_at) b r h.0 (lt→ltb now b.expires_at h.1))
        (other (Bool-cases (is_same n p b)) h.2),
)
  where
    other :
        (is_same n p b ≡ true) ⊎ (is_same n p b ≡ false)
        → ¬ ((b.node_id ≡ n) × (b.prefix ≡ p))
        → not (is_same n p b) ≡ true
    other (inl same) no_match = absurd (no_match ((is_same_iff n p b).0 same))
    other (inr differs) no_match = ap not differs

-- What stands in the table after an advertisement: the new entry, and each earlier one that is
-- unexpired and of another node or prefix.
pub In-advertise_iff :
    (r r' : RouteRegistry) (n : Bytes) (p : Ipv4Prefix) (lease : Duration) (now : Instant)
    (b : Advertisement)
    → advertise r n p lease now ≡ done r'
    → In b r' ↔ (
        (b ≡ entry n p (now + lease))
        ⊎ (In b r × (now < b.expires_at) × ¬ ((b.node_id ≡ n) × (b.prefix ≡ p))))
In-advertise_iff r r' n p lease now b e =
    let table = advertise_inv r r' n p lease now e in
    let split = In-concat b (entry n p (now + lease)) (kept r n p now) in
    let old = In-kept_iff r n p now b in
    rw table (
      λ h. elim (split.0 h) [ inl m ↦ inr (old.0 m) | inr new ↦ inl new ],
      λ h. elim h [ inl new ↦ split.1 (inr new) | inr m ↦ split.1 (inl (old.1 m)) ],
    )

-- Until its deadline, and from the time it was made, a route to every address of the prefix is
-- found, and it is at least as specific.
pub lookup-advertise :
    (r r' : RouteRegistry) (n : Bytes) (p : Ipv4Prefix) (lease : Duration) (now t : Instant)
    (destination : Ipv4Addr)
    → advertise r n p lease now ≡ done r'
    → t < now + lease
    → contains p destination ≡ true
    → (route : SelectedRoute) × ((lookup r' destination t).0 ≡ some route)
      × (p.length ≤ route.prefix.length)
lookup-advertise r r' n p lease now t destination e before within =
    elim (Option-cases (lookup r' destination t).0) [
      | inl nothing ↦ absurd (
          subst (Selects r' destination t) nothing (lookup-Selects r' destination t) new there
            fresh)
      | inr (route, found) ↦ (
        route,
        found,
        (subst (Selects r' destination t) found (lookup-Selects r' destination t)).4 new there
            fresh,
      )
    ]
  where
    new : Advertisement
    new = entry n p (now + lease)

    there : In new r'
    there = (In-advertise_iff r r' n p lease now new e).1 (inl refl)

    fresh : Matches destination t new
    fresh = (before, within)

-- From its deadline on the route is no longer selected, even if the node had advertised the same
-- prefix before with a later deadline.
pub lookup-advertise_expired :
    (r r' : RouteRegistry) (n : Bytes) (p : Ipv4Prefix) (lease : Duration) (now t : Instant)
    (destination : Ipv4Addr)
    → advertise r n p lease now ≡ done r'
    → now + lease ≤ t
    → (lookup r' destination t).0 ≢ some (record { prefix = p; node_id = n })
lookup-advertise_expired r r' n p lease now t destination e after found =
    let (a, there, is_route, fresh, _) =
      subst (Selects r' destination t) found (lookup-Selects r' destination t) in
    elim ((In-advertise_iff r r' n p lease now a e).0 there) [
      | inl new ↦
          let late = ap (λ (x : Advertisement). x.expires_at) new in absurd (omega (arith, fresh.0))
      | inr (_, _, other) ↦ other (ap (λ x. x.node_id) is_route, ap (λ x. x.prefix) is_route)
    ]
