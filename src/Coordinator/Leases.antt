-- ===== src/Coordinator/Leases.antt =====
-- src/coordinator.rs: what `Registry::handle` answers to a lookup after a history of requests. The
-- newest request stands first.
use meshlet.Common.{
  ◌+◌, ◌≤◌, ◌≡◌, refl, sym, ◌∙◌, Option, none, some, List, [], ◌∷◌, arith, ltb, if◌then◌else◌,
  Bytes, ◌==◌, nat_eq, list_eq, pair_eq, Instant, Duration,
}
use meshlet.Common.HashMap.{IsMap, keep, get, get-insert, get-retain, insert-IsMap, retain-IsMap}
use meshlet.Common.Outcome.{>>=-eq-done, Outcome, done, ◌>>=◌, done-injective}
use meshlet.Coordinator.Registry.{
  Registry, Registration, new, remove_expired, handle_live, handle, found_response,
}
use meshlet.Coordinator.Request.{Request, register, lookup, advertise_route, route_lookup}
use meshlet.Coordinator.Response.{Response}
use meshlet.Net.Socket.{SocketAddr}
use meshlet.Routing.Registry as Routes

pub record Event : Type 0 where
  pub request : Request
  pub source : SocketAddr
  pub time : Instant

unfoldable pub after : List Event → Outcome Registry
unfolding handle
after [] = done new
after (e ∷ h) = do g ← after h; (response, g') ← handle g e.request e.source e.time; done g'

abbrev pub clock : List Event → Instant
clock [] = 0
clock (e ∷ h) = e.time

-- `Instant` is monotonic.
abbrev pub IsOrdered : List Event → Type 0
IsOrdered [] = Unit
IsOrdered (e ∷ h) = (clock h ≤ e.time) × IsOrdered h

-- What a request registers: the observed source, until the end of the lease that it asks for.
abbrev pub entry : Event → Duration → Registration
entry e lease = record { observed_endpoint = e.source; expires_at = e.time + lease }

-- The registration that a request makes of `node_id`, if it makes one.
unfoldable pub made : Bytes → Event → Request → Option Registration → Option Registration
made node_id e (register n lease) older = if n == node_id then some (entry e lease) else older
made node_id e (lookup _) older = older
made node_id e (advertise_route _ _ _) older = older
made node_id e (route_lookup _) older = older

unfoldable pub last_registration : Bytes → List Event → Option Registration
unfolding made
last_registration node_id [] = none
last_registration node_id (e ∷ h) = made node_id e e.request (last_registration node_id h)

abbrev unexpired : Instant → Option Registration → Option Registration
unexpired now o = keep (λ (r : Registration). ltb now r.expires_at) o

unexpired-unexpired :
    (t now : Instant) (o : Option Registration)
    → t ≤ now
    → unexpired now (unexpired t o) ≡ unexpired now o
unexpired-unexpired t now none h = refl
unexpired-unexpired t now (some r) h = ground arith

record Agrees (h : List Event) (g : Registry) : Type 0 where
  distinct : IsMap g.registrations
  unexpired_entries :
      (k : Bytes) (now : Instant)
      → clock h ≤ now
      → unexpired now (get k g.registrations) ≡ unexpired now (last_registration k h)

new-Agrees : Agrees [] new
unfolding new get last_registration
new-Agrees = record { distinct = tt; unexpired_entries = λ k now p. refl }

module _ {h : List Event} {g : Registry} (a : Agrees h g) (e : Event) (p : clock h ≤ e.time) where
  pruned-IsMap : IsMap (remove_expired g e.time).registrations
  unfolding remove_expired
  pruned-IsMap =
      retain-IsMap (λ (r : Registration). ltb e.time r.expires_at) g.registrations a.distinct

  pruned_entries :
      (k : Bytes) (now : Instant)
      → e.time ≤ now
      → unexpired now (get k (remove_expired g e.time).registrations)
        ≡ unexpired now (last_registration k h)
  unfolding remove_expired
  pruned_entries k now q =
      rw (get-retain k (λ (r : Registration). ltb e.time r.expires_at) g.registrations a.distinct) (
        unexpired-unexpired e.time now (get k g.registrations) q
        ∙ a.unexpired_entries k now (omega arith))

  live-Agrees :
      (r : Request) {answer : Response × Registry}
      → handle_live (remove_expired g e.time) r e.source e.time ≡ done answer
      → IsMap answer.1.registrations
        × ((k : Bytes) (now : Instant)
            → e.time ≤ now
            → unexpired now (get k answer.1.registrations)
              ≡ unexpired now (made k e r (last_registration k h)))
  unfolding handle_live made
  live-Agrees (register n lease) {answer} m = (
    ground (
      arith,
      insert-IsMap n (entry e lease) (remove_expired g e.time).registrations pruned-IsMap,
    ),
    λ k now q. ground (
      arith,
      pruned_entries k now q,
      get-insert k n (entry e lease) (remove_expired g e.time).registrations,
    ),
  )
  live-Agrees (lookup n) {answer} m =
      (ground (arith, pruned-IsMap), λ k now q. ground (arith, pruned_entries k now q))
  live-Agrees (advertise_route n prefix lease) {answer} m =
      let (routes, before, last) =
        >>=-eq-done (Routes.advertise (remove_expired g e.time).routes n prefix lease e.time) _ m in
      (ground (arith, pruned-IsMap), λ k now q. ground (arith, pruned_entries k now q))
  live-Agrees (route_lookup d) {answer} m =
      (ground (arith, pruned-IsMap), λ k now q. ground (arith, pruned_entries k now q))

after-Agrees : (h : List Event) {g : Registry} → IsOrdered h → after h ≡ done g → Agrees h g
unfolding after handle last_registration
after-Agrees [] o m = rw (done-injective (sym m)) new-Agrees
after-Agrees (e ∷ h) {g} o m =
    let (old, before, rest) = >>=-eq-done (after h) _ m in
    let (answer, now, last) = >>=-eq-done (handle old e.request e.source e.time) _ rest in
    let (distinct, entries) = live-Agrees (after-Agrees h o.1 before) e o.0 e.request now in
    rw (sym (done-injective last)) (record { distinct = distinct; unexpired_entries = entries })

-- The specification of a lookup: the newest registration of the node, unless it has expired.
unfoldable pub lookup_answer : Bytes → List Event → Instant → Response
lookup_answer node_id h now = found_response node_id (unexpired now (last_registration node_id h))

-- After any history of requests in the order of time that does not panic, a lookup is answered with
-- the source of the newest registration of the node, if that has not expired, and with
-- `not_found` otherwise, whatever the other requests were.
pub handle-lookup :
    (h : List Event) (node_id : Bytes) (source : SocketAddr) (now : Instant) {g : Registry}
    → IsOrdered h
    → clock h ≤ now
    → after h ≡ done g
    → handle g (lookup node_id) source now
      ≡ done (lookup_answer node_id h now, remove_expired g now)
unfolding handle handle_live lookup_answer remove_expired
handle-lookup h node_id source now {g} o p m =
    let a = after-Agrees h o m in
    ground (
      arith,
      get-retain node_id (λ (r : Registration). ltb now r.expires_at) g.registrations a.distinct,
      a.unexpired_entries node_id now p,
    )
