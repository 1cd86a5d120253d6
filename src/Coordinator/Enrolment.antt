-- ===== src/Coordinator/Enrolment.antt =====
-- src/coordinator.rs: an authenticated client registers with the authenticated server, and is found.
use meshlet.Common.{
  ℕ, ◌+◌, ◌≤◌, ◌<◌, ◌≡◌, refl, true, some, [], ◌∷◌, ltb, lt→ltb, Bytes, eq_refl, nat_eq, list_eq,
  pair_eq, Instant, instant_limit, from_secs,
}
use meshlet.Common.HashMap.{
  get, insert, retain, IsMap, get-insert, get-retain, insert-IsMap, retain-IsMap,
}
use meshlet.Common.Outcome.{done}
use meshlet.Common.Result.{ok}
use meshlet.Coordinator.Auth.{
  challenge_lifetime, registration_signing_message, remove_expired, lookup_node,
}
use meshlet.Coordinator.AuthRoundTrip.{parse_challenge_response-encode_auth}
use meshlet.Coordinator.Challenges.{Authorized, taken}
use meshlet.Coordinator.Client.{
  ◌>>=◌, send, receive_connected, Round, exchange, answer_challenge, register_authenticated,
  lookup_authenticated, converse,
}
use meshlet.Coordinator.ClientTexts.{IsV4, receives-registered, receives-found, receives-challenge}
use meshlet.Coordinator.NodeId.{valid_node_id, parse_lease-decimal}
use meshlet.Coordinator.Registry.{Registry, Registration}
use meshlet.Coordinator.Registry as Registries
use meshlet.Coordinator.Request.{AuthRequest, auth_request_text}
use meshlet.Coordinator.Response.{AuthResponse, encode_auth}
use meshlet.Coordinator.RoundTrip.{IsLease}
use meshlet.Identity.Hex.{IsArray}
use meshlet.Identity.Keys.{Ed25519, Ed25519Laws, Identity, sign}
use meshlet.Net.Socket.{SocketAddr, socket_eq}
use meshlet.Coordinator.Serving.{
  Coordinator, challenged, recorded, converse-send, serve-challenge, serve-register, serve-lookup,
}

module _ {SigningKey VerifyingKey Signature : Type 0}
    (keys : Ed25519 SigningKey VerifyingKey Signature) (laws : Ed25519Laws keys) where
  module _ (c : Coordinator keys laws) (identity : Identity SigningKey) (source : SocketAddr)
      (seconds : ℕ) (value : Bytes) (asked : Instant) (granted : Round keys)
      (distinct : IsMap c.challenges × IsMap c.registry.registrations)
      (known : get identity.node_id c.authorizations
        ≡ some (keys.verifying_key identity.signing_key))
      (valid : valid_node_id identity.node_id ≡ true) (at : IsV4 source)
      (lease : (1 ≤ seconds) × (seconds ≤ 300)) (fresh : IsArray 32 value)
      (in_time : granted.0 < asked + challenge_lifetime)
      (room : (asked + challenge_lifetime < instant_limit)
        × (granted.0 + from_secs seconds < instant_limit)) where
    abbrev node : Bytes
    node = identity.node_id

    abbrev pending_state : Coordinator keys laws
    pending_state = challenged keys laws c node source asked value

    abbrev signature : Signature
    signature = sign keys identity (registration_signing_message node (from_secs seconds) value)

    abbrev enrolled : Coordinator keys laws
    enrolled =
        recorded keys laws (taken keys pending_state node source granted.0) node (from_secs seconds)
          source granted.0

    pending-IsMap : IsMap pending_state.challenges
    unfolding challenged remove_expired
    pending-IsMap = insert-IsMap (node, source) _ _ (retain-IsMap _ c.challenges distinct.0)

    is_Authorized :
        Authorized keys pending_state node (from_secs seconds) value signature source granted.0
    unfolding challenged remove_expired sign
    is_Authorized = record {
      pending = record { value = value; expires_at = asked + challenge_lifetime };
      is_pending =
          rw
            (
              get-insert {K = Bytes × SocketAddr} (node, source) (node, source) _ _,
              eq_refl {A = Bytes × SocketAddr} (node, source),
            )
            refl;
      unexpired = lt→ltb _ _ in_time;
      same_value = refl;
      key = keys.verifying_key identity.signing_key;
      has_key = known;
      verified = laws.signature_verifies identity.signing_key _;
    }

    is_lease : IsLease (from_secs seconds)
    is_lease = (seconds, refl, lease.0, lease.1)

    -- The dialogue is the challenge request, and what follows.
    asks :
        register_authenticated keys node seconds (ok identity)
        ≡ send (auth_request_text keys (AuthRequest.challenge node)) (λ received.
          receive_connected received >>= answer_challenge keys identity node (from_secs seconds))
    unfolding register_authenticated
    asks = rw (eq_refl node, parse_lease-decimal seconds lease.0 lease.1) refl

    answers :
        (receive_connected (some (encode_auth (AuthResponse.challenge node value)))
          >>= answer_challenge keys identity node (from_secs seconds))
        ≡ send
            (auth_request_text keys (AuthRequest.register node (from_secs seconds) value signature))
            receive_connected
    unfolding answer_challenge
    answers =
        rw
          (
            receives-challenge node value valid fresh,
            parse_challenge_response-encode_auth node value valid fresh,
          )
          refl

    enrols :
        converse keys c source
          ((asked, ok value) ∷ granted ∷ [])
          (register_authenticated keys node seconds (ok identity))
        ≡ done
            (ok (encode_auth (AuthResponse.registered node source (from_secs seconds))), enrolled)
    unfolding converse
    enrols =
        rw
          (
            asks,
            converse-send keys laws c source (asked, ok value) (granted ∷ []) _
                (λ received.
                  receive_connected received
                  >>= answer_challenge keys identity node (from_secs seconds))
                (serve-challenge keys laws c node source asked value valid known room.0),
            answers,
            converse-send keys laws pending_state source granted [] _ receive_connected (
                serve-register keys laws pending_state node (from_secs seconds) value signature
                  source granted (valid, is_lease, fresh) pending-IsMap is_Authorized room.1),
            receives-registered node source (from_secs seconds) valid at is_lease,
          )
          refl

    enrolled-lookup :
        (now : Instant)
        → now < granted.0 + from_secs seconds
        → (lookup_node keys enrolled node now).0 ≡ AuthResponse.found node source
    unfolding lookup_node
    enrolled-lookup now h =
        let entry : Registration = record {
          observed_endpoint = source;
          expires_at = granted.0 + from_secs seconds;
        } in
        let table =
          retain (λ (r : Registration). ltb granted.0 r.expires_at)
            (retain (λ (r : Registration). ltb asked r.expires_at) c.registry.registrations) in
        let distinct_table : IsMap table =
          retain-IsMap (λ (r : Registration). ltb granted.0 r.expires_at) _
            (retain-IsMap (λ (r : Registration). ltb asked r.expires_at) c.registry.registrations
              distinct.1) in
        let kept : get node (remove_expired keys enrolled now).registry.registrations ≡ some entry =
          unfold remove_expired Registries.remove_expired recorded taken challenged in
          rw
            (
              get-retain node (λ (r : Registration). ltb now r.expires_at) (insert node entry table)
                  (insert-IsMap node entry table distinct_table),
              get-insert node node entry table,
              eq_refl node,
              lt→ltb now _ h,
            )
            refl in
        rw (kept, lookup_node) refl

    -- A node that is authorized under its own key registers with the server: the two rounds of the
    -- client end with the response `REGISTERED`, and a client at any address that asks for the node
    -- before the lease ends is told the address that the node registered from. The node ID is valid,
    -- the lease is from 1 to 300 seconds, the address is an IPv4 one, the challenge has 32 bytes and is
    -- answered within 10 seconds, the deadlines are within the clock's range, and the server's tables
    -- have no key twice.
    pub register_authenticated_enrols :
        (reader : SocketAddr) (later : Round keys)
        → later.0 < granted.0 + from_secs seconds
        → (c' c'' : Coordinator keys laws) × (converse keys c source
              ((asked, ok value) ∷ granted ∷ [])
              (register_authenticated keys node seconds (ok identity))
            ≡ done (ok (encode_auth (AuthResponse.registered node source (from_secs seconds))), c'))
          × (converse keys c' reader (later ∷ []) (lookup_authenticated keys node)
              ≡ done (ok (encode_auth (AuthResponse.found node source)), c''))
    unfolding lookup_authenticated exchange converse
    register_authenticated_enrols reader later h = (
      enrolled,
      (lookup_node keys enrolled node later.0).1,
      enrols,
      rw
          (
            converse-send keys laws enrolled reader later [] _ receive_connected
                (serve-lookup keys laws enrolled node reader later valid),
            enrolled-lookup later.0 h,
            receives-found node source valid at,
          )
          refl,
    )
