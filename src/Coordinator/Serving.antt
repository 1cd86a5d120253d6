-- ===== src/Coordinator/Serving.antt =====
-- src/coordinator.rs: what the authenticated server does with the texts of the clients, and a round of
-- a dialogue with it.
use meshlet.Common.{
  ◌+◌, ◌<◌, ◌≡◌, refl, true, Option, some, List, ◌∷◌, arith, le→ltb, Bytes, nat_eq, list_eq,
  pair_eq, Instant, Duration, instant_limit,
}
use meshlet.Common.HashMap.{get, insert, IsMap}
use meshlet.Common.Outcome.{done}
use meshlet.Common.Result.{ok}
use meshlet.Coordinator.Auth.{
  AuthenticatedCoordinator, PendingChallenge, challenge_lifetime, remove_expired, issue_challenge,
  record_registration, register_node, lookup_node, respond, serve,
}
use meshlet.Coordinator.AuthRoundTrip.{IsAuthRequest, parse_auth_request-auth_request_text}
use meshlet.Coordinator.Challenges.{Authorized, Authorized-refusal, taken}
use meshlet.Coordinator.Client.{Dialogue, send, Round, converse}
use meshlet.Coordinator.ClientTexts.{auth_request_text-le}
use meshlet.Coordinator.NodeId.{valid_node_id}
use meshlet.Coordinator.Registry.{Registry, Registration}
use meshlet.Coordinator.Request.{AuthRequest, auth_request_text}
use meshlet.Coordinator.Response.{AuthResponse, encode_auth}
use meshlet.Identity.Keys.{Ed25519, Ed25519Laws}
use meshlet.Net.Socket.{SocketAddr, socket_eq}

module _ {SigningKey VerifyingKey Signature : Type 0}
    (keys : Ed25519 SigningKey VerifyingKey Signature) (laws : Ed25519Laws keys) where
  abbrev pub Coordinator : Type 0
  Coordinator = AuthenticatedCoordinator VerifyingKey

  -- The state behind a challenge.
  unfoldable pub challenged : Coordinator → Bytes → SocketAddr → Instant → Bytes → Coordinator
  challenged c node_id source now value =
      let pending : PendingChallenge = record {
        value = value;
        expires_at = now + challenge_lifetime;
      } in
      record (remove_expired keys c now) {
        challenges = insert (node_id, source) pending (remove_expired keys c now).challenges;
      }

  -- The state behind a granted registration.
  unfoldable pub recorded : Coordinator → Bytes → Duration → SocketAddr → Instant → Coordinator
  recorded c node_id lease source now =
      let entry : Registration = record { observed_endpoint = source; expires_at = now + lease } in
      let registry : Registry = record (c.registry) {
        registrations = insert node_id entry c.registry.registrations;
      } in
      record c { registry = registry }

  issue_challenge-known :
      (c : Coordinator) (node_id : Bytes) (source : SocketAddr) (now : Instant) (value : Bytes)
      {key : VerifyingKey}
      → get node_id c.authorizations ≡ some key
      → now + challenge_lifetime < instant_limit
      → issue_challenge keys c node_id source now value
        ≡ done (AuthResponse.challenge node_id value, challenged c node_id source now value)
  unfolding issue_challenge challenged remove_expired
  issue_challenge-known c node_id source now value known room = ground (arith, known, room)

  register_node-Authorized :
      (c : Coordinator) (node_id : Bytes) (lease : Duration) (value : Bytes) (signature : Signature)
      (source : SocketAddr) (now : Instant)
      → IsMap c.challenges
      → Authorized keys c node_id lease value signature source now
      → now + lease < instant_limit
      → register_node keys c node_id lease value signature source now
        ≡ done (
          AuthResponse.registered node_id source lease,
          recorded (taken keys c node_id source now) node_id lease source now,
        )
  unfolding register_node record_registration recorded taken
  register_node-Authorized c node_id lease value signature source now m a room =
      ground (arith, Authorized-refusal keys c node_id lease value signature source now m a, room)

  -- One round of a dialogue.
  pub converse-send :
      {A : Type 0} (c : Coordinator) (source : SocketAddr) (round : Round keys)
      (rounds : List (Round keys)) (text : Bytes) (next : Option Bytes → Dialogue A)
      {answer : Bytes} {c' : Coordinator}
      → serve keys c text source round.0 round.1 ≡ done (answer, c')
      → converse keys c source (round ∷ rounds) (send text next)
        ≡ converse keys c' source rounds (next (some answer))
  unfolding converse
  converse-send c source (now, random) rounds text next e = rw (e, converse) refl

  pub serve-challenge :
      (c : Coordinator) (node_id : Bytes) (source : SocketAddr) (now : Instant) (value : Bytes)
      {key : VerifyingKey}
      → valid_node_id node_id ≡ true
      → get node_id c.authorizations ≡ some key
      → now + challenge_lifetime < instant_limit
      → serve keys c (auth_request_text keys (AuthRequest.challenge node_id)) source now (ok value)
        ≡ done (
          encode_auth (AuthResponse.challenge node_id value),
          challenged c node_id source now value,
        )
  unfolding serve respond
  serve-challenge c node_id source now value h known room =
      let r : AuthRequest Signature = AuthRequest.challenge node_id in
      rw
        (
          le→ltb _ _ (auth_request_text-le keys laws r h),
          parse_auth_request-auth_request_text keys laws r h,
          issue_challenge-known c node_id source now value known room,
        )
        refl

  pub serve-register :
      (c : Coordinator) (node_id : Bytes) (lease : Duration) (value : Bytes) (signature : Signature)
      (source : SocketAddr) (round : Round keys)
      → IsAuthRequest keys laws (AuthRequest.register node_id lease value signature)
      → IsMap c.challenges
      → Authorized keys c node_id lease value signature source round.0
      → round.0 + lease < instant_limit
      → serve keys c
          (auth_request_text keys (AuthRequest.register node_id lease value signature))
          source
          round.0
          round.1
        ≡ done (
          encode_auth (AuthResponse.registered node_id source lease),
          recorded (taken keys c node_id source round.0) node_id lease source round.0,
        )
  unfolding serve respond
  serve-register c node_id lease value signature source (now, random) h m a room =
      let r : AuthRequest Signature = AuthRequest.register node_id lease value signature in
      rw
        (
          le→ltb _ _ (auth_request_text-le keys laws r h),
          parse_auth_request-auth_request_text keys laws r h,
          register_node-Authorized c node_id lease value signature source now m a room,
        )
        refl

  pub serve-lookup :
      (c : Coordinator) (node_id : Bytes) (source : SocketAddr) (round : Round keys)
      → valid_node_id node_id ≡ true
      → serve keys c (auth_request_text keys (AuthRequest.lookup node_id)) source round.0 round.1
        ≡ done (
          encode_auth (lookup_node keys c node_id round.0).0,
          (lookup_node keys c node_id round.0).1,
        )
  unfolding serve respond
  serve-lookup c node_id source (now, random) h =
      let r : AuthRequest Signature = AuthRequest.lookup node_id in
      rw
        (
          le→ltb _ _ (auth_request_text-le keys laws r h),
          parse_auth_request-auth_request_text keys laws r h,
        )
        refl
