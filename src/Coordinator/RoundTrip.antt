-- ===== src/Coordinator/RoundTrip.antt =====
-- src/coordinator.rs: the servers understand exactly the well-formed requests of the clients.
use meshlet.Common.{
  ℕ, ◌^◌, ◌≤◌, ◌<◌, ◌≡◌, refl, ◌≢◌, true, List, [], ◌∷◌, ◌++◌, arith, Bytes, All, All-append,
  All-imp, nat_eq, list_beq, list_eq, pair_eq, Duration, from_secs, as_secs,
}
use meshlet.Common.Result.{ok}
use meshlet.Coordinator.NodeId.{
  valid_node_id, valid_node_id-All, valid_node_id-IsWord, validate_node_id, is_id_byte, parse_lease,
  parse_lease-decimal,
}
use meshlet.Coordinator.Request.{
  Request, register, lookup, advertise_route, route_lookup, protocol_version, parse_request,
  request_of_fields, parse_register, parse_lookup, parse_advertise_route, parse_route_lookup,
  request_text,
}
use meshlet.Net.Ipv4.{
  Ipv4Addr, display_ipv4, display_ipv4-All, display_ipv4-ne-nil, is_address_byte,
  parse_ipv4-display_ipv4,
}
use meshlet.Routing.Mask.{IsCanonical}
use meshlet.Routing.Parse.{parse_prefix-display_prefix}
use meshlet.Routing.Prefix.{Ipv4Prefix, display_prefix}
use meshlet.Text.Decimal.{decimal}
use meshlet.Text.Fields.{
  IsField, is_plain, field_test, constant-IsField, decimal-IsField, spaced_fields,
}
use meshlet.Text.Words.{spaced}
use meshlet.Text.{codes}

abbrev pub IsLease : Duration → Type 0
IsLease lease = (s : ℕ) × (lease ≡ from_secs s) × (1 ≤ s) × (s ≤ 300)

-- What a request has to be for the server to act on it.
abbrev pub IsWellFormed : Request → Type 0
IsWellFormed (register node_id lease) = (valid_node_id node_id ≡ true) × IsLease lease
IsWellFormed (lookup node_id) = valid_node_id node_id ≡ true
IsWellFormed (advertise_route node_id prefix lease) =
    (valid_node_id node_id ≡ true) × IsCanonical prefix × IsLease lease
IsWellFormed (route_lookup destination) = destination < 2 ^ 32

pub node_id-IsField : (id : Bytes) → valid_node_id id ≡ true → IsField id
node_id-IsField id h = (
  (valid_node_id-IsWord id h).0,
  All-imp (λ c. is_id_byte c ≡ true) (λ c. is_plain c ≡ true) (λ c k. ground arith) id
      (valid_node_id-All id h),
)

pub address_plain : (ip : Ipv4Addr) → All (λ c. is_plain c ≡ true) (display_ipv4 ip)
address_plain ip =
    All-imp (λ c. is_address_byte c ≡ true) (λ c. is_plain c ≡ true) (λ c k. ground arith)
      (display_ipv4 ip) (display_ipv4-All ip)

pub address-IsField : (ip : Ipv4Addr) → IsField (display_ipv4 ip)
address-IsField ip = (display_ipv4-ne-nil ip, address_plain ip)

prefix-IsField : (p : Ipv4Prefix) → IsField (display_prefix p)
unfolding display_prefix
prefix-IsField p = (
  append_ne_nil (display_ipv4 p.network) _ (display_ipv4-ne-nil p.network),
  All-append _ (display_ipv4 p.network) _ (address_plain p.network)
      (refl, (decimal-IsField p.length).1),
)
  where
    append_ne_nil : (s t : Bytes) → s ≢ [] → s ++ t ≢ []
    append_ne_nil [] t h e = h refl
    append_ne_nil (c ∷ s) t h e = cc

pub version-IsField : IsField protocol_version
unfolding field_test
version-IsField = constant-IsField _ _ refl

as_secs-from_secs : (s : ℕ) → as_secs (from_secs s) ≡ s
as_secs-from_secs s = omega arith

pub lease_text :
    (lease : Duration) → IsLease lease → parse_lease (decimal (as_secs lease)) ≡ ok lease
lease_text lease (s, e, low, high) = rw (e, as_secs-from_secs s) (parse_lease-decimal s low high)

pub validates : (id : Bytes) → valid_node_id id ≡ true → validate_node_id id ≡ ok tt
unfolding validate_node_id
validates id h = rw h

-- The fields of a request are read back.
abbrev fields : Request → List Bytes
fields (register node_id lease) =
    protocol_version ∷ codes "REGISTER" ∷ node_id ∷ decimal (as_secs lease) ∷ []
fields (lookup node_id) = protocol_version ∷ codes "LOOKUP" ∷ node_id ∷ []
fields (advertise_route node_id prefix lease) =
    protocol_version
    ∷ codes "ADVERTISE_ROUTE"
    ∷ node_id
    ∷ display_prefix prefix
    ∷ decimal (as_secs lease)
    ∷ []
fields (route_lookup destination) =
    protocol_version ∷ codes "ROUTE_LOOKUP" ∷ display_ipv4 destination ∷ []

fields-IsField : (r : Request) → IsWellFormed r → All IsField (fields r)
unfolding field_test
fields-IsField (register node_id lease) h = (
  version-IsField,
  (constant-IsField _ _ refl, (node_id-IsField node_id h.0, (decimal-IsField _, tt))),
)
fields-IsField (lookup node_id) h =
    (version-IsField, (constant-IsField _ _ refl, (node_id-IsField node_id h, tt)))
fields-IsField (advertise_route node_id prefix lease) h = (
  version-IsField,
  (
    constant-IsField _ _ refl,
    (node_id-IsField node_id h.0, (prefix-IsField prefix, (decimal-IsField _, tt))),
  ),
)
fields-IsField (route_lookup destination) h =
    (version-IsField, (constant-IsField _ _ refl, (address-IsField destination, tt)))

request_of_fields-fields : (r : Request) → IsWellFormed r → request_of_fields (fields r) ≡ ok r
unfolding request_of_fields parse_register parse_lookup parse_advertise_route parse_route_lookup
    list_beq
request_of_fields-fields (register node_id lease) h =
    rw (validates node_id h.0, lease_text lease h.1)
request_of_fields-fields (lookup node_id) h = rw (validates node_id h)
request_of_fields-fields (advertise_route node_id prefix lease) h =
    rw (validates node_id h.0, parse_prefix-display_prefix prefix h.1, lease_text lease h.2)
request_of_fields-fields (route_lookup destination) h = rw (parse_ipv4-display_ipv4 destination h)

request_text-fields : (r : Request) → request_text r ≡ spaced (fields r)
unfolding request_text
request_text-fields (register node_id lease) = refl
request_text-fields (lookup node_id) = refl
request_text-fields (advertise_route node_id prefix lease) = refl
request_text-fields (route_lookup destination) = refl

-- The server reads every well-formed request back from the text that the client sends for it.
pub parse_request-request_text :
    (r : Request) → IsWellFormed r → parse_request (request_text r) ≡ ok r
unfolding parse_request
parse_request-request_text r h =
    let (valid, split) = spaced_fields (fields r) (fields-IsField r h) in
    rw (request_text-fields r, valid, split) (request_of_fields-fields r h)
