-- ===== src/Coordinator/NoPanic.antt =====
-- src/coordinator.rs: `run_server` and `run_authenticated_server` answer any datagrams, while the clock
-- has room for the longest lease.
use meshlet.Common.{
  ℕ, suc, Bool, true, false, map, ◌⊎◌, ◌+◌, ◌<◌, ◌≡◌, refl, ap, inl, inr, some, List, [], ◌∷◌,
  arith, ltb, lt→ltb, Bool-cases, Option-cases, Bytes, length, nat_eq, list_eq, pair_eq, Instant,
  Duration, instant_limit, from_secs, checked_add,
}
use meshlet.Common.HashMap.{get}
use meshlet.Common.Outcome.{
  Outcome, done, panic, socket_failed, Finishes, bind-Finishes, expect-Finishes,
}
use meshlet.Common.Result.{Result, Result-cases}
use meshlet.Coordinator.Auth.{
  AuthenticatedCoordinator, challenge_lifetime, remove_expired, issue_live, issue_challenge,
  refusal, record_registration, register_node, respond, serve, new,
}
use meshlet.Coordinator.AuthServer.{serve_event, serve_events, run_authenticated_server}
use meshlet.Coordinator.AuthSound.{parse_auth_request-IsAuthRequest}
use meshlet.Coordinator.Response.{encode_auth}
use meshlet.Coordinator.Registry.{Registry, handle, handle_live}
use meshlet.Coordinator.Registry as Registries
use meshlet.Coordinator.Request.{
  Request, challenge, register, lookup, advertise_route, route_lookup, parse_request,
  parse_auth_request,
}
use meshlet.Coordinator.RoundTrip.{IsLease, IsWellFormed}
use meshlet.Coordinator.Sound.{parse_request-IsWellFormed}
use meshlet.Coordinator.Trace.{Event}
use meshlet.Net.Calls.{Calls, succeed}
use meshlet.Identity.Keys.{Ed25519, Ed25519Laws, Authorizations}
use meshlet.Net.Socket.{SocketAddr, socket_eq}
use meshlet.Routing.Registry as Routes

-- Room for a lease of 300 seconds.
abbrev pub HasRoom : Instant → Type 0
HasRoom now = now + from_secs 300 < instant_limit

deadline_lt :
    (now : Instant) (lease : Duration) → HasRoom now → IsLease lease → now + lease < instant_limit
deadline_lt now lease room (s, e, low, high) = omega (arith, room, e, high)

-- Room at each datagram.
abbrev pub HaveRoom : List Registries.Received → Type 0
HaveRoom [] = Unit
HaveRoom (d ∷ ds) = HasRoom d.time × HaveRoom ds

-- `checked_add` has room.
added :
    (now : Instant) (d : Duration) → now + d < instant_limit → checked_add now d ≡ some (now + d)
added now d h = rw (lt→ltb _ _ h) refl

-- The unauthenticated server.
handle_live-Finishes :
    (g : Registry) (r : Request) (source : SocketAddr) (now : Instant)
    → HasRoom now
    → IsWellFormed r
    → Finishes (handle_live g r source now)
unfolding handle_live Routes.advertise
handle_live-Finishes g (register n lease) source now room h =
    bind-Finishes _ _ (expect-Finishes _ _ _ (added now lease (deadline_lt now lease room h.1)))
      (λ a. (_, refl))
handle_live-Finishes g (lookup n) source now room h = (_, refl)
handle_live-Finishes g (advertise_route n prefix lease) source now room h =
    bind-Finishes _ _
      (bind-Finishes _ _ (expect-Finishes _ _ _ (added now lease (deadline_lt now lease room h.2)))
        (λ a. (_, refl)))
      (λ a. (_, refl))
handle_live-Finishes g (route_lookup d) source now room h = (_, refl)

serve-Finishes :
    (g : Registry) (datagram : Bytes) (source : SocketAddr) (now : Instant)
    → HasRoom now
    → Finishes (Registries.serve g datagram source now)
unfolding Registries.serve handle
serve-Finishes g datagram source now room = elim (Bool-cases (ltb 1024 (length datagram))) [
  | inl large ↦ rw large (_, refl)
  | inr small ↦ rw small (elim (Result-cases (parse_request datagram)) [
    | inl (e, q) ↦ rw q (_, refl)
    | inr (r, q) ↦ rw q (
        bind-Finishes _ _
          (handle_live-Finishes (Registries.remove_expired g now) r source now room
            (parse_request-IsWellFormed datagram r q))
          (λ a. (_, refl)))
  ])
]

-- A server comes to an end with one message to each source in turn, or with the panic on a call of the
-- socket, according to whether one of these calls fails.
abbrev pub Answers :
    {A : Type 0} → Bool → List SocketAddr → Outcome (List (Bytes × SocketAddr) × A) → Type 0
Answers {A} works sources run =
    ((works ≡ true)
      × (sent : List (Bytes × SocketAddr)) × (state : A) × (run ≡ done (sent, state))
      × (map (λ a. a.1) sent ≡ sources))
    ⊎ ((works ≡ false) × (run ≡ panic socket_failed))

-- While 300 seconds are left on the clock, the unauthenticated server sends one answer to the source of
-- each datagram, in the order in which they arrive and whatever their bytes are. It panics only on its
-- calls of the socket: exactly when one of them fails.
pub run_server-Answers :
    (calls : Calls) (round : ℕ) (g : Registry) (ds : List Registries.Received)
    → HaveRoom ds
    → Answers
        (succeed calls round (length ds))
        (map (λ d. d.source) ds)
        (Registries.run_server calls round g ds)
unfolding Registries.run_server Registries.serve_one
run_server-Answers calls round g [] room = inl (refl, [], g, refl, refl)
run_server-Answers calls round g (d ∷ ds) room =
    let ((response, g'), first) = serve-Finishes g d.datagram d.source d.time room.0 in
    elim (Bool-cases (calls.receives round)) [
      | inr lost ↦ rw lost (inr (refl, refl))
      | inl received ↦
          rw (received, first)
            (elim (Bool-cases (calls.sends round)) [
              | inr lost ↦ rw lost (inr (refl, refl))
              | inl sent ↦ rw sent (elim (run_server-Answers calls (suc round) g' ds room.1) [
                | inl (works, others, g'', rest, same) ↦ inl (
                  works,
                  (response, d.source) ∷ others,
                  g'',
                  rw rest refl,
                  ap (◌∷◌ d.source) same,
                )
                | inr (fails, rest) ↦ inr (fails, rw rest refl)
              ])
            ])
    ]

module _ {SigningKey VerifyingKey Signature : Type 0}
    (keys : Ed25519 SigningKey VerifyingKey Signature) (laws : Ed25519Laws keys) where
  issue_challenge-Finishes :
      (c : AuthenticatedCoordinator VerifyingKey) (n : Bytes) (source : SocketAddr) (now : Instant)
      (value : Bytes)
      → HasRoom now
      → Finishes (issue_challenge keys c n source now value)
  unfolding issue_challenge remove_expired
  issue_challenge-Finishes c n source now value room =
      elim (Option-cases (get n c.authorizations)) [
        | inl unknown ↦ rw (unknown, issue_live) (_, refl)
        | inr (key, known) ↦
            rw (known, issue_live)
              (bind-Finishes _ _
                (expect-Finishes _ _ _ (added now challenge_lifetime (omega (arith, room))))
                (λ a. (_, refl)))
      ]

  register_node-Finishes :
      (c : AuthenticatedCoordinator VerifyingKey) (n : Bytes) (lease : Duration) (value : Bytes)
      (signature : Signature) (source : SocketAddr) (now : Instant)
      → now + lease < instant_limit
      → Finishes (register_node keys c n lease value signature source now)
  unfolding register_node record_registration
  register_node-Finishes c n lease value signature source now room =
      let live = remove_expired keys c now in
      elim (Option-cases (
        refusal keys live.authorizations (get (n, source) live.challenges) n lease value
          signature)) [
            | inr (e, refused) ↦ rw (refused, register_node) (_, refl)
            | inl passed ↦
                rw (passed, register_node)
                  (bind-Finishes _ _ (expect-Finishes _ _ _ (added now lease room))
                    (λ a. (_, refl)))
          ]

  request-Finishes :
      (c : AuthenticatedCoordinator VerifyingKey) (datagram : Bytes) (source : SocketAddr)
      (now : Instant) (random : Result Bytes Bytes)
      → HasRoom now
      → Finishes (respond keys c datagram source now random)
  unfolding respond
  request-Finishes c datagram source now random room =
      elim (Bool-cases (ltb 1024 (length datagram))) [
        | inl large ↦ rw large (_, refl)
        | inr small ↦ rw small (elim (Result-cases (parse_auth_request keys datagram)) [
          | inl (e, q) ↦ rw q (_, refl)
          | inr (challenge n, q) ↦ rw q (elim (Result-cases random) [
            | inl (text, p) ↦ rw p (_, refl)
            | inr (value, p) ↦ rw p (issue_challenge-Finishes c n source now value room)
          ])
          | inr (register n lease value signature, q) ↦ rw q (
              register_node-Finishes c n lease value signature source now (
                deadline_lt now lease room
                  (parse_auth_request-IsAuthRequest keys laws datagram _ q).1))
          | inr (lookup n, q) ↦ rw q (_, refl)
        ])
      ]

  abbrev pub HaveRooms : List Event → Type 0
  HaveRooms [] = Unit
  HaveRooms (e ∷ h) = HasRoom e.time × HaveRooms h

  serve_events-Answers :
      (calls : Calls) (round : ℕ) (c : AuthenticatedCoordinator VerifyingKey) (es : List Event)
      → HaveRooms es
      → Answers
          (succeed calls round (length es))
          (map (λ e. e.source) es)
          (serve_events keys calls round c es)
  unfolding serve_events serve_event serve
  serve_events-Answers calls round c [] room = inl (refl, [], c, refl, refl)
  serve_events-Answers calls round c (e ∷ es) room =
      let ((response, c'), first) = request-Finishes c e.datagram e.source e.time e.random room.0 in
      elim (Bool-cases (calls.receives round)) [
        | inr lost ↦ rw lost (inr (refl, refl))
        | inl received ↦
            rw (received, first)
              (elim (Bool-cases (calls.sends round)) [
                | inr lost ↦ rw lost (inr (refl, refl))
                | inl sent ↦ rw sent (elim (serve_events-Answers calls (suc round) c' es room.1) [
                  | inl (works, others, c'', rest, same) ↦ inl (
                    works,
                    (encode_auth response, e.source) ∷ others,
                    c'',
                    rw rest refl,
                    ap (◌∷◌ e.source) same,
                  )
                  | inr (fails, rest) ↦ inr (fails, rw rest refl)
                ])
              ])
      ]

  -- While 300 seconds are left on the clock, the authenticated server sends one answer to the source
  -- of each datagram, in the order in which they arrive, whatever their bytes are and whatever the
  -- random source gives. It panics only on its calls of the socket: exactly when one of them fails.
  pub run_authenticated_server-Answers :
      (calls : Calls) (authorizations : Authorizations VerifyingKey) (es : List Event)
      → HaveRooms es
      → Answers
          (succeed calls 0 (length es))
          (map (λ e. e.source) es)
          (run_authenticated_server keys calls authorizations es)
  unfolding run_authenticated_server
  run_authenticated_server-Answers calls authorizations es room =
      serve_events-Answers calls 0 (new keys authorizations) es room
