-- ===== src/Coordinator/Holds.antt =====
-- src/coordinator.rs: predicates on the pending challenges and on the registrations, and the changes of
-- the tables that keep them.
use mathlib.Core.Path.{subst}
use meshlet.Common.{
  ◌≡◌, sym, ◌∙◌, inl, inr, some, arith, ltb, Bytes, nat_eq, list_eq, pair_eq, Instant,
}
use meshlet.Common.HashMap.{
  get, insert, remove, keep-some, IsMap, get-insert-some, get-remove, get-retain, insert-IsMap,
  remove-IsMap, retain-IsMap,
}
use meshlet.Coordinator.Auth.{PendingChallenge, AuthenticatedCoordinator, remove_expired}
use meshlet.Coordinator.Registry.{Registration}
use meshlet.Coordinator.Registry as Registries
use meshlet.Identity.Keys.{Ed25519, Authorizations}
use meshlet.Net.Socket.{SocketAddr, socket_eq}

module _ {SigningKey VerifyingKey Signature : Type 0}
    (keys : Ed25519 SigningKey VerifyingKey Signature) where
  -- What holds of each pending challenge and of each registration.
  pub record Holds (authorizations : Authorizations VerifyingKey)
      (P : Bytes → SocketAddr → Bytes → Type 0) (Q : Bytes → SocketAddr → Type 0)
      (c : AuthenticatedCoordinator VerifyingKey) : Type 0 where
    pub same_authorizations : c.authorizations ≡ authorizations
    pub challenges_IsMap : IsMap c.challenges
    pub registrations_IsMap : IsMap c.registry.registrations
    pub each_challenge :
        (n : Bytes) (s : SocketAddr) (p : PendingChallenge)
        → get (n, s) c.challenges ≡ some p
        → P n s p.value
    pub each_registration :
        (n : Bytes) (r : Registration)
        → get n c.registry.registrations ≡ some r
        → Q n r.observed_endpoint

  module _ {authorizations : Authorizations VerifyingKey} {P : Bytes → SocketAddr → Bytes → Type 0}
      {Q : Bytes → SocketAddr → Type 0} {c : AuthenticatedCoordinator VerifyingKey}
      (a : Holds authorizations P Q c) where
    pub Holds-map :
        {P' : Bytes → SocketAddr → Bytes → Type 0} {Q' : Bytes → SocketAddr → Type 0}
        → ((n : Bytes) (s : SocketAddr) (v : Bytes) → P n s v → P' n s v)
        → ((n : Bytes) (s : SocketAddr) → Q n s → Q' n s)
        → Holds authorizations P' Q' c
    Holds-map f g = record {
      same_authorizations = a.same_authorizations;
      challenges_IsMap = a.challenges_IsMap;
      registrations_IsMap = a.registrations_IsMap;
      each_challenge = λ n s p h. f n s p.value (a.each_challenge n s p h);
      each_registration = λ n r h. g n r.observed_endpoint (a.each_registration n r h);
    }

    pub Holds-remove_expired :
        (now : Instant) → Holds authorizations P Q (remove_expired keys c now)
    unfolding remove_expired Registries.remove_expired
    Holds-remove_expired now = record {
      same_authorizations = a.same_authorizations;
      challenges_IsMap =
          retain-IsMap (λ (p : PendingChallenge). ltb now p.expires_at) c.challenges
            a.challenges_IsMap;
      registrations_IsMap =
          retain-IsMap (λ (r : Registration). ltb now r.expires_at) c.registry.registrations
            a.registrations_IsMap;
      each_challenge = λ n s p h.
          a.each_challenge n s p
            (keep-some (λ (p : PendingChallenge). ltb now p.expires_at) (get (n, s) c.challenges)
              (sym (
                  get-retain (n, s) (λ (p : PendingChallenge). ltb now p.expires_at) c.challenges
                    a.challenges_IsMap)
                ∙ h)).0;
      each_registration = λ n r h.
          a.each_registration n r
            (keep-some (λ (r : Registration). ltb now r.expires_at) (get n c.registry.registrations)
              (sym (
                  get-retain n (λ (r : Registration). ltb now r.expires_at) c.registry.registrations
                    a.registrations_IsMap)
                ∙ h)).0;
    }

    pub Holds-remove :
        (n : Bytes) (s : SocketAddr)
        → Holds authorizations P Q (record c { challenges = remove (n, s) c.challenges })
    Holds-remove n s = record {
      same_authorizations = a.same_authorizations;
      challenges_IsMap = remove-IsMap (n, s) c.challenges a.challenges_IsMap;
      registrations_IsMap = a.registrations_IsMap;
      each_challenge = λ n' s' p h.
          a.each_challenge n' s' p
            (ground (arith, get-remove (n', s') (n, s) c.challenges a.challenges_IsMap, h));
      each_registration = a.each_registration;
    }

    pub Holds-insert :
        (n : Bytes) (s : SocketAddr) (p : PendingChallenge)
        → P n s p.value
        → Holds authorizations P Q (record c { challenges = insert (n, s) p c.challenges })
    Holds-insert n s p good = record {
      same_authorizations = a.same_authorizations;
      challenges_IsMap = insert-IsMap (n, s) p c.challenges a.challenges_IsMap;
      registrations_IsMap = a.registrations_IsMap;
      each_challenge = λ n' s' p' h. elim (get-insert-some (n', s') (n, s) p c.challenges h) [
        | inl (same, q) ↦ subst (λ k. P k.0 k.1 p'.value) same (rw (sym q) good)
        | inr q ↦ a.each_challenge n' s' p' q
      ];
      each_registration = a.each_registration;
    }

    pub Holds-register :
        (n : Bytes) (r : Registration)
        → Q n r.observed_endpoint
        → Holds authorizations P Q (record c {
          registry = record (c.registry) { registrations = insert n r c.registry.registrations };
        })
    Holds-register n r good = record {
      same_authorizations = a.same_authorizations;
      challenges_IsMap = a.challenges_IsMap;
      registrations_IsMap = insert-IsMap n r c.registry.registrations a.registrations_IsMap;
      each_challenge = a.each_challenge;
      each_registration = λ n' r' h. elim (get-insert-some n' n r c.registry.registrations h) [
        | inl (same, q) ↦ subst (λ k. Q k r'.observed_endpoint) same (rw (sym q) good)
        | inr q ↦ a.each_registration n' r' q
      ];
    }
