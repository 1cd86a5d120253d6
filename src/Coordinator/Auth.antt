-- ===== src/Coordinator/Auth.antt =====
-- src/coordinator.rs: `AuthenticatedCoordinator` and the loop of the authenticated server. Random
-- challenges come from the operating system, and are arguments.
use meshlet.Common.{
  not, Option, none, some, [], ◌++◌, ltb, if◌then◌else◌, Bytes, length, ◌==◌, nat_eq, list_eq,
  pair_eq, Instant, Duration, from_secs, as_secs, checked_add,
}
use meshlet.Common.HashMap.{HashMap, get, insert, remove, retain}
use meshlet.Common.Outcome.{
  Outcome, done, ◌>>=◌, expect, registration_expiration, challenge_expiration,
}
use meshlet.Common.Result.{Result, ok, err}
use meshlet.Coordinator.Registry.{Registry, Registration, max_datagram_bytes}
use meshlet.Coordinator.Registry as Registries
use meshlet.Coordinator.Request.{challenge, register, lookup, parse_auth_request}
use meshlet.Coordinator.Response.{AuthResponse, encode_auth}
use meshlet.Errors.{
  Error, not_authorized, no_challenge, wrong_challenge, bad_signature, challenge_random,
  request_size,
}
use meshlet.Identity.Hex.{encode_hex}
use meshlet.Identity.Keys.{Ed25519, Authorizations}
use meshlet.Net.Socket.{SocketAddr, socket_eq}
use meshlet.Text.Decimal.{decimal}
use meshlet.Text.{codes}

abbrev pub challenge_lifetime : Duration
challenge_lifetime = from_secs 10

pub record PendingChallenge : Type 0 where
  pub value : Bytes
  pub expires_at : Instant

pub record AuthenticatedCoordinator (VerifyingKey : Type 0) : Type 0 where
  pub registry : Registry
  pub authorizations : Authorizations VerifyingKey
  pub challenges : HashMap (Bytes × SocketAddr) PendingChallenge

-- The bytes under a registration's signature.
unfoldable pub registration_signing_message : Bytes → Duration → Bytes → Bytes
registration_signing_message node_id lease value =
    codes "MESHLET-REGISTER-SIGNATURE/2\nnode-id:"
    ++ (node_id
        ++ (codes "\nlease-seconds:"
            ++ (decimal (as_secs lease)
                ++ (codes "\nchallenge:" ++ (encode_hex value ++ codes "\n")))))

module _ {SigningKey VerifyingKey Signature : Type 0}
    (keys : Ed25519 SigningKey VerifyingKey Signature) where
  abbrev pub Coordinator : Type 0
  Coordinator = AuthenticatedCoordinator VerifyingKey

  unfoldable pub new : Authorizations VerifyingKey → Coordinator
  new authorizations = record {
    registry = Registries.new;
    authorizations = authorizations;
    challenges = [];
  }

  unfoldable pub remove_expired : Coordinator → Instant → Coordinator
  remove_expired c now = record c {
    registry = Registries.remove_expired c.registry now;
    challenges = retain (λ (p : PendingChallenge). ltb now p.expires_at) c.challenges;
  }

  -- Behind the call of `remove_expired`.
  unfoldable pub issue_live :
      Coordinator → Bytes → SocketAddr → Instant → Bytes → Outcome (AuthResponse × Coordinator)
  issue_live c node_id source now value = elim (get node_id c.authorizations) [
    | none ↦ done (AuthResponse.error not_authorized, c)
    | some _ ↦ (do
      expires_at ← expect (checked_add now challenge_lifetime) challenge_expiration
      let pending : PendingChallenge = record { value = value; expires_at = expires_at }
      done (
        AuthResponse.challenge node_id value,
        record c { challenges = insert (node_id, source) pending c.challenges },
      ))
  ]

  unfoldable pub issue_challenge :
      Coordinator → Bytes → SocketAddr → Instant → Bytes → Outcome (AuthResponse × Coordinator)
  unfolding issue_live
  issue_challenge c node_id source now value =
      issue_live (remove_expired c now) node_id source now value

  -- The checks of `register` on the challenge that it took out: the error, or none.
  unfoldable pub refusal :
      Authorizations VerifyingKey
      → Option PendingChallenge
      → Bytes
      → Duration
      → Bytes
      → Signature
      → Option Error
  refusal authorizations none node_id lease value signature = some no_challenge
  refusal authorizations (some pending) node_id lease value signature =
      if not (pending.value == value)
      then some wrong_challenge
      else elim (get node_id authorizations) [
        | none ↦ some not_authorized
        | some key ↦
            if keys.verify_strict key (registration_signing_message node_id lease value) signature
            then none
            else some bad_signature
      ]

  -- What is left to do once the checks have passed.
  unfoldable pub record_registration :
      Coordinator → Bytes → Duration → SocketAddr → Instant → Outcome (AuthResponse × Coordinator)
  record_registration c node_id lease source now = do
    expires_at ← expect (checked_add now lease) registration_expiration
    let entry : Registration = record { observed_endpoint = source; expires_at = expires_at }
    let registry : Registry = record (c.registry) {
      registrations = insert node_id entry c.registry.registrations;
    }
    done (AuthResponse.registered node_id source lease, record c { registry = registry })

  -- `register`: the challenge is taken out before anything is checked.
  unfoldable pub register_node :
      Coordinator
      → Bytes
      → Duration
      → Bytes
      → Signature
      → SocketAddr
      → Instant
      → Outcome (AuthResponse × Coordinator)
  register_node c node_id lease value signature source now =
      let live = remove_expired c now in
      let taken = record live { challenges = remove (node_id, source) live.challenges } in
      elim (refusal live.authorizations (get (node_id, source) live.challenges) node_id lease value
        signature) [
          | some e ↦ done (AuthResponse.error e, taken)
          | none ↦ record_registration taken node_id lease source now
        ]

  unfoldable pub lookup_node : Coordinator → Bytes → Instant → AuthResponse × Coordinator
  lookup_node c node_id now =
      let live = remove_expired c now in
      (
        elim (get node_id live.registry.registrations) [
          | some r ↦ AuthResponse.found node_id r.observed_endpoint
          | none ↦ AuthResponse.not_found node_id
        ],
        live,
      )

  -- The response to one datagram in the loop of `run_authenticated_server`. `random` is what `getrandom::fill` gives:
  -- bytes, or the text of an error.
  unfoldable pub respond :
      Coordinator
      → Bytes
      → SocketAddr
      → Instant
      → Result Bytes Bytes
      → Outcome (AuthResponse × Coordinator)
  respond c datagram source now random =
      if ltb max_datagram_bytes (length datagram)
      then done (AuthResponse.error request_size, c)
      else elim (parse_auth_request keys datagram) [
        | err e ↦ done (AuthResponse.error e, c)
        | ok request ↦ elim request [
          | challenge node_id ↦ elim random [
            | ok value ↦ issue_challenge c node_id source now value
            | err text ↦ done (AuthResponse.error (challenge_random text), c)
          ]
          | register node_id lease value signature ↦
              register_node c node_id lease value signature source now
          | lookup node_id ↦ done (lookup_node c node_id now)
        ]
      ]

  -- What the loop computes between its two calls of the socket: the text to send back to the source,
  -- and the state.
  unfoldable pub serve :
      Coordinator
      → Bytes
      → SocketAddr
      → Instant
      → Result Bytes Bytes
      → Outcome (Bytes × Coordinator)
  unfolding respond
  serve c datagram source now random = do
    (response, c') ← respond c datagram source now random
    done (encode_auth response, c')
