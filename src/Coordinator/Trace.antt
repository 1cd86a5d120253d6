-- ===== src/Coordinator/Trace.antt =====
-- src/coordinator.rs: what must have come to the authenticated coordinator before it holds a
-- registration. A history is a run of the loop of `run_authenticated_server`, its newest datagram
-- first.
use meshlet.Common.{
  ◌+◌, ◌≡◌, refl, sym, ap, ◌∙◌, ◌⊎◌, inl, inr, true, some, List, [], ◌∷◌, arith, Option-cases,
  Bytes, nat_eq, list_eq, pair_eq, Instant, Duration,
}
use meshlet.Common.HashMap.{get}
use meshlet.Common.Outcome.{Outcome, done, ◌>>=◌, done-injective, >>=-eq-done}
use meshlet.Common.Result.{Result, ok, Result-cases}
use meshlet.Coordinator.Auth.{
  challenge_lifetime, AuthenticatedCoordinator, registration_signing_message, new, remove_expired,
  issue_live, issue_challenge, record_registration, register_node, lookup_node, respond, serve,
}
use meshlet.Coordinator.Challenges.{Authorized, taken, register_node_cases}
use meshlet.Coordinator.Holds.{
  Holds, Holds-map, Holds-remove_expired, Holds-remove, Holds-insert, Holds-register,
}
use meshlet.Coordinator.Registry.{Registration}
use meshlet.Coordinator.Registry as Registries
use meshlet.Coordinator.Request.{AuthRequest, challenge, register, lookup, parse_auth_request}
use meshlet.Coordinator.Response.{AuthResponse}
use meshlet.Identity.Keys.{Ed25519, Authorizations}
use meshlet.Net.Socket.{SocketAddr, socket_eq}

pub record Event : Type 0 where
  pub datagram : Bytes
  pub source : SocketAddr
  pub time : Instant
  pub random : Result Bytes Bytes

module _ {SigningKey VerifyingKey Signature : Type 0}
    (keys : Ed25519 SigningKey VerifyingKey Signature) where
  -- Some datagram of the history asked for a challenge for this node from this address, and got this
  -- one from the random source.
  abbrev pub WasIssued : Bytes → SocketAddr → Bytes → List Event → Type 0
  WasIssued n s v [] = ⊥
  WasIssued n s v (e ∷ h) =
      ((parse_auth_request keys e.datagram ≡ ok (challenge n)) × (e.source ≡ s) × (e.random ≡ ok v))
      ⊎ WasIssued n s v h

  -- A datagram that registers this node from this address, signed over a challenge by the key that
  -- the node is authorized with.
  pub record Registers (authorizations : Authorizations VerifyingKey) (n : Bytes) (s : SocketAddr)
      (v : Bytes) (e : Event) : Type 0 where
    pub lease : Duration
    pub signature : Signature
    pub key : VerifyingKey
    pub parsed : parse_auth_request keys e.datagram ≡ ok (register n lease v signature)
    pub same_source : e.source ≡ s
    pub has_key : get n authorizations ≡ some key
    pub verified : keys.verify_strict key (registration_signing_message n lease v) signature ≡ true

  -- Such a datagram, over a challenge that was issued to the node at this address before it.
  abbrev pub IsBacked : Authorizations VerifyingKey → Bytes → SocketAddr → List Event → Type 0
  IsBacked authorizations n s [] = ⊥
  IsBacked authorizations n s (e ∷ h) =
      ((v : Bytes) × Registers authorizations n s v e × WasIssued n s v h)
      ⊎ IsBacked authorizations n s h

  unfoldable pub after :
      Authorizations VerifyingKey → List Event → Outcome (AuthenticatedCoordinator VerifyingKey)
  unfolding serve
  after authorizations [] = done (new keys authorizations)
  after authorizations (e ∷ h) = do
    c ← after authorizations h
    (text, c') ← serve keys c e.datagram e.source e.time e.random
    done c'

  abbrev Good :
      Authorizations VerifyingKey → List Event → AuthenticatedCoordinator VerifyingKey → Type 0
  Good authorizations h c =
      Holds keys authorizations (λ n s v. WasIssued n s v h) (λ n s. IsBacked authorizations n s h)
        c

  new-Good :
      (authorizations : Authorizations VerifyingKey)
      → Good authorizations [] (new keys authorizations)
  unfolding new Registries.new get
  new-Good authorizations = record {
    same_authorizations = refl;
    challenges_IsMap = tt;
    registrations_IsMap = tt;
    each_challenge = λ n s p h. cc;
    each_registration = λ n r h. cc;
  }

  module _ {authorizations : Authorizations VerifyingKey} (h : List Event)
      {c : AuthenticatedCoordinator VerifyingKey} (a : Good authorizations h c) (e : Event) where
    older-Good : Good authorizations (e ∷ h) c
    older-Good = Holds-map keys a (λ n s v. inr) (λ n s. inr)

    issue_challenge-Good :
        (n v : Bytes) {answer : AuthResponse × AuthenticatedCoordinator VerifyingKey}
        → parse_auth_request keys e.datagram ≡ ok (challenge n)
        → e.random ≡ ok v
        → issue_challenge keys c n e.source e.time v ≡ done answer
        → Good authorizations (e ∷ h) answer.1
    unfolding issue_challenge issue_live
    issue_challenge-Good n v {answer} p q m =
        let live = Holds-remove_expired keys older-Good e.time in
        elim (Option-cases (get n (remove_expired keys c e.time).authorizations)) [
          | inl w ↦ ground (arith, live, w, m)
          | inr (key, w) ↦ ground (
            arith,
            Holds-insert keys live n e.source
                (record { value = v; expires_at = e.time + challenge_lifetime }) (inl (p, refl, q)),
            w,
            m,
          )
        ]

    register_node-Good :
        (n : Bytes) (lease : Duration) (v : Bytes) (signature : Signature)
        {answer : AuthResponse × AuthenticatedCoordinator VerifyingKey}
        → parse_auth_request keys e.datagram ≡ ok (register n lease v signature)
        → register_node keys c n lease v signature e.source e.time ≡ done answer
        → Good authorizations (e ∷ h) answer.1
    unfolding taken record_registration
    register_node-Good n lease v signature {answer} p m =
        let gone = Holds-remove keys (Holds-remove_expired keys older-Good e.time) n e.source in
        elim (register_node_cases keys c n lease v signature e.source e.time a.challenges_IsMap m) [
          | inl (w, q) ↦ rw q gone
          | inr (auth, q) ↦ ground (
            arith,
            Holds-register keys gone n
                (record { observed_endpoint = e.source; expires_at = e.time + lease })
                (inl (v, registers auth, outstanding auth)),
            q,
          )
        ]
      where
        registers :
            Authorized keys c n lease v signature e.source e.time
            → Registers authorizations n e.source v e
        registers auth = record {
          lease = lease;
          signature = signature;
          key = auth.key;
          parsed = p;
          same_source = refl;
          has_key = sym (ap (get n) a.same_authorizations) ∙ auth.has_key;
          verified = auth.verified;
        }

        outstanding :
            Authorized keys c n lease v signature e.source e.time → WasIssued n e.source v h
        outstanding auth =
            rw (sym auth.same_value) (a.each_challenge n e.source auth.pending auth.is_pending)

    lookup_node-Good : (n : Bytes) → Good authorizations (e ∷ h) (lookup_node keys c n e.time).1
    unfolding lookup_node
    lookup_node-Good n = Holds-remove_expired keys older-Good e.time

    request-Good :
        (request : AuthRequest Signature)
        {answer : AuthResponse × AuthenticatedCoordinator VerifyingKey}
        → parse_auth_request keys e.datagram ≡ ok request
        → respond keys c e.datagram e.source e.time e.random ≡ done answer
        → Good authorizations (e ∷ h) answer.1
    unfolding respond
    request-Good (challenge n) {answer} p m = elim (Result-cases e.random) [
      | inl (t, q) ↦ ground (arith, older-Good, p, q, m)
      | inr (v, q) ↦
          ground (arith, older-Good, issue_challenge-Good n v {answer = answer} p q, p, q, m)
    ]
    request-Good (register n lease v signature) {answer} p m =
        ground (arith, older-Good, register_node-Good n lease v signature {answer = answer} p, p, m)
    request-Good (lookup n) {answer} p m = ground (arith, older-Good, lookup_node-Good n, p, m)

    respond-Good :
        {answer : AuthResponse × AuthenticatedCoordinator VerifyingKey}
        → respond keys c e.datagram e.source e.time e.random ≡ done answer
        → Good authorizations (e ∷ h) answer.1
    unfolding respond
    respond-Good {answer} m = elim (Result-cases (parse_auth_request keys e.datagram)) [
      | inl (t, q) ↦ ground (arith, older-Good, q, m)
      | inr (request, q) ↦ request-Good request q m
    ]

  after-Good :
      (authorizations : Authorizations VerifyingKey) (h : List Event)
      {c : AuthenticatedCoordinator VerifyingKey}
      → after authorizations h ≡ done c
      → Good authorizations h c
  unfolding after serve
  after-Good authorizations [] m = rw (sym (done-injective m)) (new-Good authorizations)
  after-Good authorizations (e ∷ h) m =
      let (old, before, rest) = >>=-eq-done (after authorizations h) _ m in
      let (answer, now, last) =
        >>=-eq-done (serve keys old e.datagram e.source e.time e.random) _ rest in
      let (answer', now', last') =
        >>=-eq-done (respond keys old e.datagram e.source e.time e.random) _ now in
      ground (arith, respond-Good h (after-Good authorizations h before) e now', last, last')

  -- Whatever datagrams came in, as long as the server has not panicked: a node that the table has
  -- registered at an address is backed by a datagram from that address which registered it, with a
  -- signature that verifies under the key that the node is authorized with, over a challenge that
  -- was issued before to this node at this address.
  pub registration-IsBacked :
      (authorizations : Authorizations VerifyingKey) (h : List Event) (n : Bytes) (r : Registration)
      {c : AuthenticatedCoordinator VerifyingKey}
      → after authorizations h ≡ done c
      → get n c.registry.registrations ≡ some r
      → IsBacked authorizations n r.observed_endpoint h
  registration-IsBacked authorizations h n r m q =
      (after-Good authorizations h m).each_registration n r q
