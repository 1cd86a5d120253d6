-- ===== src/Coordinator/Challenges.antt =====
-- src/coordinator.rs: what a registration with the authenticated coordinator takes, and that it takes
-- the challenge out.
use meshlet.Common.{
  ◌≡◌, refl, sym, ◌∙◌, ◌↔◌, ◌⊎◌, inl, inr, true, Option, none, some, arith, ltb, Option-cases,
  Bytes, eq_refl, nat_eq, list_beq_iff, list_eq, pair_eq, Instant, Duration,
}
use meshlet.Common.HashMap.{
  get, remove, keep-some, IsMap, get-remove, get-retain, remove-IsMap, retain-IsMap,
}
use meshlet.Common.Outcome.{done}
use meshlet.Coordinator.Auth.{
  PendingChallenge, AuthenticatedCoordinator, registration_signing_message, remove_expired, refusal,
  record_registration, register_node,
}
use meshlet.Coordinator.Response.{AuthResponse}
use meshlet.Errors.{Error, no_challenge}
use meshlet.Identity.Keys.{Ed25519, Authorizations}
use meshlet.Net.Socket.{SocketAddr, socket_eq}

module _ {SigningKey VerifyingKey Signature : Type 0}
    (keys : Ed25519 SigningKey VerifyingKey Signature) where
  -- What a registration takes: a challenge that was issued to this node at this address, has not
  -- expired and stands in the request, and a signature over the request by the key of the node.
  pub record Authorized (c : AuthenticatedCoordinator VerifyingKey) (node_id : Bytes)
      (lease : Duration) (value : Bytes) (signature : Signature) (source : SocketAddr)
      (now : Instant) : Type 0 where
    pub pending : PendingChallenge
    pub is_pending : get (node_id, source) c.challenges ≡ some pending
    pub unexpired : ltb now pending.expires_at ≡ true
    pub same_value : pending.value ≡ value
    pub key : VerifyingKey
    pub has_key : get node_id c.authorizations ≡ some key
    pub verified :
        keys.verify_strict key (registration_signing_message node_id lease value) signature ≡ true

  refusal-none :
      (authorizations : Authorizations VerifyingKey) (o : Option PendingChallenge) (node_id : Bytes)
      (lease : Duration) (value : Bytes) (signature : Signature)
      → refusal keys authorizations o node_id lease value signature ≡ none
      → (p : PendingChallenge) × (key : VerifyingKey) × (o ≡ some p)
        × (p.value ≡ value)
        × (get node_id authorizations ≡ some key)
        × (keys.verify_strict key (registration_signing_message node_id lease value) signature
            ≡ true)
  unfolding refusal
  refusal-none authorizations none node_id lease value signature e = cc
  refusal-none authorizations (some p) node_id lease value signature e =
      elim (Option-cases (get node_id authorizations)) [
        | inl q ↦ ground (arith, q)
        | inr (key, q) ↦
            (p, key, refl, ground (arith, list_beq_iff p.value value), q, ground (arith, q))
      ]

  -- The state in which `register` checks the request: the challenge is out.
  unfoldable pub taken :
      AuthenticatedCoordinator VerifyingKey
      → Bytes
      → SocketAddr
      → Instant
      → AuthenticatedCoordinator VerifyingKey
  taken c node_id source now = record (remove_expired keys c now) {
    challenges = remove (node_id, source) (remove_expired keys c now).challenges;
  }

  pub register_node_cases :
      (c : AuthenticatedCoordinator VerifyingKey) (node_id : Bytes) (lease : Duration)
      (value : Bytes) (signature : Signature) (source : SocketAddr) (now : Instant)
      {answer : AuthResponse × AuthenticatedCoordinator VerifyingKey}
      → IsMap c.challenges
      → register_node keys c node_id lease value signature source now ≡ done answer
      → ((e : Error) × (answer ≡ (AuthResponse.error e, taken c node_id source now)))
        ⊎ (Authorized c node_id lease value signature source now
            × (record_registration keys (taken c node_id source now) node_id lease source now
                ≡ done answer))
  unfolding register_node taken remove_expired
  register_node_cases c node_id lease value signature source now m e =
      let live = remove_expired keys c now in
      elim (Option-cases (
        refusal keys live.authorizations (get (node_id, source) live.challenges) node_id lease value
          signature)) [
            | inr (w, q) ↦ inl (w, ground (arith, q, e))
            | inl q ↦
                let (p, key, found, same, has, ok) =
                  refusal-none live.authorizations (get (node_id, source) live.challenges) node_id
                    lease value signature q in
                let (was, fresh) =
                  keep-some (λ (p : PendingChallenge). ltb now p.expires_at)
                    (get (node_id, source) c.challenges)
                    (sym (
                        get-retain (node_id, source)
                          (λ (p : PendingChallenge). ltb now p.expires_at) c.challenges m)
                      ∙ found) in
                inr (
                  record {
                    pending = p;
                    is_pending = was;
                    unexpired = fresh;
                    same_value = same;
                    key = key;
                    has_key = has;
                    verified = ok;
                  },
                  ground (arith, q, e),
                )
          ]

  pub Authorized-refusal :
      (c : AuthenticatedCoordinator VerifyingKey) (node_id : Bytes) (lease : Duration)
      (value : Bytes) (signature : Signature) (source : SocketAddr) (now : Instant)
      → IsMap c.challenges
      → Authorized c node_id lease value signature source now
      → refusal keys
          (remove_expired keys c now).authorizations
          (get (node_id, source) (remove_expired keys c now).challenges)
          node_id
          lease
          value
          signature
        ≡ none
  unfolding refusal remove_expired
  Authorized-refusal c node_id lease value signature source now m a =
      rw
        (
          get-retain (node_id, source) (λ (p : PendingChallenge). ltb now p.expires_at) c.challenges
              m,
          a.is_pending,
          a.unexpired,
          (list_beq_iff a.pending.value value).1 a.same_value,
          a.has_key,
          a.verified,
        )
        refl

  -- A registration that does not panic is granted exactly when a challenge that was issued to this
  -- node at this address has not expired and stands in the request, and the signature over the
  -- request verifies under the key that the node is authorized with; if the table of challenges has
  -- no key twice.
  pub register_node-registered :
      (c : AuthenticatedCoordinator VerifyingKey) (node_id : Bytes) (lease : Duration)
      (value : Bytes) (signature : Signature) (source : SocketAddr) (now : Instant)
      {answer : AuthResponse × AuthenticatedCoordinator VerifyingKey}
      → IsMap c.challenges
      → register_node keys c node_id lease value signature source now ≡ done answer
      → (answer.0 ≡ AuthResponse.registered node_id source lease)
        ↔ Authorized c node_id lease value signature source now
  unfolding register_node record_registration
  register_node-registered c node_id lease value signature source now {answer} m e = (
    λ granted. elim (register_node_cases c node_id lease value signature source now m e) [
      | inl (w, q) ↦ cc
      | inr (a, _) ↦ a
    ],
    λ a.
        let q = Authorized-refusal c node_id lease value signature source now m a in
        ground (arith, q, e),
  )

  taken-challenges :
      (c : AuthenticatedCoordinator VerifyingKey) (node_id : Bytes) (source : SocketAddr)
      (now : Instant)
      → IsMap c.challenges
      → IsMap (taken c node_id source now).challenges
        × (get (node_id, source) (taken c node_id source now).challenges ≡ none)
  unfolding taken remove_expired
  taken-challenges c node_id source now m =
      let fresh = retain-IsMap (λ (p : PendingChallenge). ltb now p.expires_at) c.challenges m in
      (
        remove-IsMap (node_id, source) _ fresh,
        rw
            (
              get-remove (node_id, source) (node_id, source) _ fresh,
              eq_refl {A = Bytes × SocketAddr} (node_id, source),
            )
            refl,
      )

  record_registration-challenges :
      (c : AuthenticatedCoordinator VerifyingKey) (node_id : Bytes) (lease : Duration)
      (source : SocketAddr) (now : Instant)
      {answer : AuthResponse × AuthenticatedCoordinator VerifyingKey}
      → record_registration keys c node_id lease source now ≡ done answer
      → answer.1.challenges ≡ c.challenges
  unfolding record_registration
  record_registration-challenges c node_id lease source now {answer} e = ground (arith, e)

  register_node-none :
      (c : AuthenticatedCoordinator VerifyingKey) (node_id : Bytes) (lease : Duration)
      (value : Bytes) (signature : Signature) (source : SocketAddr) (now : Instant)
      → IsMap c.challenges
      → get (node_id, source) c.challenges ≡ none
      → register_node keys c node_id lease value signature source now
        ≡ done (AuthResponse.error no_challenge, taken c node_id source now)
  unfolding register_node refusal taken remove_expired
  register_node-none c node_id lease value signature source now m q =
      let gone =
        get-retain (node_id, source) (λ (p : PendingChallenge). ltb now p.expires_at) c.challenges
          m in
      ground (arith, gone, q)

  -- Whatever a registration comes to, unless it panics, its challenge is spent: the next one of the
  -- node from this address, at any time and with any challenge and signature, is answered with
  -- `no_challenge`; if the table of challenges has no key twice.
  pub register_node_again :
      (c : AuthenticatedCoordinator VerifyingKey) (node_id : Bytes) (lease lease' : Duration)
      (value value' : Bytes) (signature signature' : Signature) (source : SocketAddr)
      (now now' : Instant) {answer : AuthResponse × AuthenticatedCoordinator VerifyingKey}
      → IsMap c.challenges
      → register_node keys c node_id lease value signature source now ≡ done answer
      → register_node keys answer.1 node_id lease' value' signature' source now'
        ≡ done (AuthResponse.error no_challenge, taken answer.1 node_id source now')
  register_node_again c node_id lease lease' value value' signature signature' source now now'
        {answer} m e =
      register_node-none answer.1 node_id lease' value' signature' source now' left.0 left.1
    where
      left : IsMap answer.1.challenges × (get (node_id, source) answer.1.challenges ≡ none)
      left =
          let before = taken-challenges c node_id source now m in
          elim (register_node_cases c node_id lease value signature source now m e) [
            | inl (w, q) ↦ rw q before
            | inr (_, q) ↦
                rw
                  (record_registration-challenges (taken c node_id source now) node_id lease source
                    now q)
                  before
          ]
