-- ===== src/Coordinator/OpenClients.antt =====
-- src/coordinator.rs: a client registers with the unauthenticated server, and is found.
use meshlet.Common.{
  ℕ, ◌+◌, ◌≤◌, ◌<◌, ◌≡◌, refl, ◌⊎◌, inl, inr, true, Option, some, [], ◌∷◌, arith, ltb, lt→ltb,
  le→ltb, Bytes, length, eq_refl, nat_eq, list_eq, pair_eq, Instant, Duration, instant_limit,
  from_secs, as_secs,
}
use meshlet.Common.HashMap.{
  get, insert, retain, IsMap, get-insert, get-retain, insert-IsMap, retain-IsMap,
}
use meshlet.Common.Outcome.{done}
use meshlet.Common.Result.{ok}
use meshlet.Coordinator.Client.{
  Dialogue, send, receive_connected, ended, exchange, register, lookup, converse_open,
}
use meshlet.Coordinator.ClientTexts.{
  IsV4, receives, node_id-le, lease-le, socket-le, socket-IsField,
}
use meshlet.Coordinator.NodeId.{valid_node_id}
use meshlet.Coordinator.Registry.{
  Registry, Registration, remove_expired, handle, handle_live, serve,
}
use meshlet.Coordinator.Request.{Request, protocol_version, request_text}
use meshlet.Coordinator.Response.{Response, encode}
use meshlet.Coordinator.RoundTrip.{
  IsLease, IsWellFormed, version-IsField, node_id-IsField, parse_request-request_text,
}
use meshlet.Net.Socket.{SocketAddr, display_socket}
use meshlet.Text.Decimal.{decimal}
use meshlet.Text.Fields.{field_test, constant-IsField, decimal-IsField}
use meshlet.Text.Sizes.{length-spaced-le}
use meshlet.Text.{codes}

-- The registration client's text, for a lease of whole seconds.
register_text :
    (node_id : Bytes) (seconds : ℕ)
    → register node_id seconds
      ≡ send (request_text (Request.register node_id (from_secs seconds))) receive_connected
unfolding register exchange request_text
register_text node_id seconds =
    let same : as_secs (from_secs seconds) ≡ seconds = omega arith in rw same refl

short :
    (r : Request) (node_id : Bytes)
    → (r ≡ Request.lookup node_id)
      ⊎ ((lease : Duration) × (r ≡ Request.register node_id lease) × IsLease lease)
    → valid_node_id node_id ≡ true
    → length (request_text r) ≤ 1024
unfolding request_text
short r node_id (inl e) h =
    let ws = protocol_version ∷ codes "LOOKUP" ∷ node_id ∷ [] in
    rw e (omega (arith, length-spaced-le ws, node_id-le node_id h))
short r node_id (inr (lease, e, l)) h =
    let ws = protocol_version ∷ codes "REGISTER" ∷ node_id ∷ decimal (as_secs lease) ∷ [] in
    rw e (omega (arith, length-spaced-le ws, node_id-le node_id h, lease-le lease l))

serve-request_text :
    (g g' : Registry) (r : Request) (source : SocketAddr) (now : Instant) (response : Response)
    → IsWellFormed r
    → length (request_text r) ≤ 1024
    → handle g r source now ≡ done (response, g')
    → serve g (request_text r) source now ≡ done (encode response, g')
unfolding serve
serve-request_text g g' r source now response h fits e =
    rw (le→ltb _ _ fits, parse_request-request_text r h, e) refl

converse_open-send :
    {A : Type 0} (g g' : Registry) (source : SocketAddr) (now : Instant) (text answer : Bytes)
    (next : Option Bytes → Dialogue A)
    → serve g text source now ≡ done (answer, g')
    → converse_open g source (now ∷ []) (send text next)
      ≡ converse_open g' source [] (next (some answer))
unfolding converse_open
converse_open-send g g' source now text answer next e = rw (e, converse_open) refl

receives-registered :
    (node_id : Bytes) (source : SocketAddr) (lease : Duration)
    → valid_node_id node_id ≡ true
    → IsV4 source
    → IsLease lease
    → receive_connected (some (encode (Response.registered node_id source lease)))
      ≡ ended (encode (Response.registered node_id source lease))
unfolding encode field_test
receives-registered node_id source lease h k l =
    let ws =
      protocol_version
      ∷ codes "REGISTERED"
      ∷ node_id
      ∷ display_socket source
      ∷ decimal (as_secs lease)
      ∷ [] in
    receives ws
      (
        version-IsField,
        (
          constant-IsField _ _ refl,
          (node_id-IsField node_id h, (socket-IsField source k, (decimal-IsField _, tt))),
        ),
      )
      (omega
        (arith, length-spaced-le ws, node_id-le node_id h, socket-le source k, lease-le lease l))

receives-found :
    (node_id : Bytes) (source : SocketAddr)
    → valid_node_id node_id ≡ true
    → IsV4 source
    → receive_connected (some (encode (Response.found node_id source)))
      ≡ ended (encode (Response.found node_id source))
unfolding encode field_test
receives-found node_id source h k =
    let ws = protocol_version ∷ codes "FOUND" ∷ node_id ∷ display_socket source ∷ [] in
    receives ws
      (
        version-IsField,
        (constant-IsField _ _ refl, (node_id-IsField node_id h, (socket-IsField source k, tt))),
      )
      (omega (arith, length-spaced-le ws, node_id-le node_id h, socket-le source k))

-- The state behind a registration.
unfoldable recorded : Registry → Bytes → Duration → SocketAddr → Instant → Registry
recorded g node_id lease source now =
    let entry : Registration = record { observed_endpoint = source; expires_at = now + lease } in
    record (remove_expired g now) {
      registrations = insert node_id entry (remove_expired g now).registrations;
    }

handle-register :
    (g : Registry) (node_id : Bytes) (lease : Duration) (source : SocketAddr) (now : Instant)
    → now + lease < instant_limit
    → handle g (Request.register node_id lease) source now
      ≡ done (Response.registered node_id source lease, recorded g node_id lease source now)
unfolding handle handle_live recorded
handle-register g node_id lease source now room = ground (arith, room)

handle-recorded :
    (g : Registry) (node_id : Bytes) (lease : Duration) (source reader : SocketAddr)
    (now later : Instant)
    → IsMap g.registrations
    → later < now + lease
    → handle (recorded g node_id lease source now) (Request.lookup node_id) reader later
      ≡ done (
        Response.found node_id source,
        remove_expired (recorded g node_id lease source now) later,
      )
unfolding handle handle_live
handle-recorded g node_id lease source reader now later m h =
    let entry : Registration = record { observed_endpoint = source; expires_at = now + lease } in
    let table = retain (λ (r : Registration). ltb now r.expires_at) g.registrations in
    let distinct : IsMap table = retain-IsMap (λ (r : Registration). ltb now r.expires_at) _ m in
    let kept : get node_id
          (remove_expired (recorded g node_id lease source now) later).registrations
        ≡ some entry =
      unfold remove_expired recorded in
      rw
        (
          get-retain node_id (λ (r : Registration). ltb later r.expires_at)
              (insert node_id entry table) (insert-IsMap node_id entry table distinct),
          get-insert node_id node_id entry table,
          eq_refl node_id,
          lt→ltb later _ h,
        )
        refl in
    rw kept refl

-- A node registers with the unauthenticated server: its client ends with the response `REGISTERED`, and
-- a client at any address that asks for the node before the lease ends is told the address that the
-- node registered from. The node ID is valid, the lease is from 1 to 300 seconds, the address is an
-- IPv4 one, the deadline is within the clock's range, and the server's table has no key twice.
pub register-lookup :
    (g : Registry) (node_id : Bytes) (seconds : ℕ) (source reader : SocketAddr)
    (now later : Instant)
    → IsMap g.registrations
    → valid_node_id node_id ≡ true
    → 1 ≤ seconds
    → seconds ≤ 300
    → IsV4 source
    → now + from_secs seconds < instant_limit
    → later < now + from_secs seconds
    → (g' g'' : Registry) × (converse_open g source (now ∷ []) (register node_id seconds)
        ≡ done (ok (encode (Response.registered node_id source (from_secs seconds))), g'))
      × (converse_open g' reader (later ∷ []) (lookup node_id)
          ≡ done (ok (encode (Response.found node_id source)), g''))
unfolding lookup exchange converse_open
register-lookup g node_id seconds source reader now later m valid low high at room in_time =
    let lease = from_secs seconds in
    let is_lease : IsLease lease = (seconds, refl, low, high) in
    let g' = recorded g node_id lease source now in
    (
      g',
      remove_expired g' later,
      rw
          (
            register_text node_id seconds,
            converse_open-send g g' source now _ _ receive_connected (
                serve-request_text g g' (Request.register node_id lease) source now _
                  (valid, is_lease)
                  (short (Request.register node_id lease) node_id (inr (lease, refl, is_lease))
                    valid)
                  (handle-register g node_id lease source now room)),
            receives-registered node_id source lease valid at is_lease,
          )
          refl,
      rw
          (
            converse_open-send g' (remove_expired g' later) reader later _ _ receive_connected (
                serve-request_text g' (remove_expired g' later) (Request.lookup node_id) reader
                  later _ valid (short (Request.lookup node_id) node_id (inl refl) valid)
                  (handle-recorded g node_id lease source reader now later m in_time)),
            receives-found node_id source valid at,
          )
          refl,
    )
