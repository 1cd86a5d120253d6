-- ===== src/Coordinator/Registry.antt =====
-- src/coordinator.rs: `Registry` and the loop of the unauthenticated server.
use meshlet.Common.{
  ℕ, suc, Option, none, some, List, [], ◌∷◌, ltb, if◌then◌else◌, Bytes, length, nat_eq, list_eq,
  pair_eq, Instant, checked_add,
}
use meshlet.Common.HashMap.{HashMap, get, insert, retain}
use meshlet.Common.Outcome.{
  Outcome, done, ◌>>=◌, ◌>>◌, expect, require, registration_expiration, socket_failed,
}
use meshlet.Common.Result.{ok, err}
use meshlet.Coordinator.Request.{
  Request, register, lookup, advertise_route, route_lookup, parse_request,
}
use meshlet.Coordinator.Response.{
  Response, registered, found, not_found, route_advertised, route_found, route_not_found, error,
  encode,
}
use meshlet.Errors.{request_size}
use meshlet.Net.Calls.{Calls}
use meshlet.Net.Socket.{SocketAddr}
use meshlet.Routing.Registry.{RouteRegistry, SelectedRoute}
use meshlet.Routing.Registry as Routes

abbrev pub max_datagram_bytes : ℕ
max_datagram_bytes = 1024

pub record Registration : Type 0 where
  pub observed_endpoint : SocketAddr
  pub expires_at : Instant

pub record Registry : Type 0 where
  pub registrations : HashMap Bytes Registration
  pub routes : RouteRegistry

-- `Registry::default()`
unfoldable pub new : Registry
new = record { registrations = []; routes = [] }

unfoldable pub remove_expired : Registry → Instant → Registry
remove_expired g now = record g {
  registrations = retain (λ (r : Registration). ltb now r.expires_at) g.registrations;
}

-- The response to a node lookup, from what the table has.
abbrev pub found_response : Bytes → Option Registration → Response
found_response node_id none = not_found node_id
found_response node_id (some r) = found node_id r.observed_endpoint

-- The response to a route lookup.
abbrev pub route_response : ℕ → Option SelectedRoute → Response
route_response destination none = route_not_found destination
route_response destination (some r) = route_found destination r.prefix r.node_id

-- `handle`, behind its call of `remove_expired`.
unfoldable pub handle_live :
    Registry → Request → SocketAddr → Instant → Outcome (Response × Registry)
handle_live g (register node_id lease) source now = do
  expires_at ← expect (checked_add now lease) registration_expiration
  let entry : Registration = record { observed_endpoint = source; expires_at = expires_at }
  done (
    registered node_id source lease,
    record g { registrations = insert node_id entry g.registrations },
  )
handle_live g (lookup node_id) source now =
    done (found_response node_id (get node_id g.registrations), g)
handle_live g (advertise_route node_id prefix lease) source now = do
  routes ← Routes.advertise g.routes node_id prefix lease now
  done (route_advertised node_id prefix lease, record g { routes = routes })
handle_live g (route_lookup destination) source now =
    let (route, routes) = Routes.lookup g.routes destination now in
    done (route_response destination route, record g { routes = routes })

unfoldable pub handle : Registry → Request → SocketAddr → Instant → Outcome (Response × Registry)
unfolding handle_live
handle g request source now = handle_live (remove_expired g now) request source now

-- What the loop of `run_server` computes between its two calls of the socket: the text to send back
-- to the source, and the state.
unfoldable pub serve : Registry → Bytes → SocketAddr → Instant → Outcome (Bytes × Registry)
serve g datagram source now =
    if ltb max_datagram_bytes (length datagram)
    then done (encode (error request_size), g)
    else elim (parse_request datagram) [
      | ok request ↦ (do (response, g') ← handle g request source now; done (encode response, g'))
      | err e ↦ done (encode (error e), g)
    ]

pub record Received : Type 0 where
  pub datagram : Bytes
  pub source : SocketAddr
  pub time : Instant

-- One round of the loop, with its calls of `recv_from` and `send_to`.
unfoldable pub serve_one :
    Calls → ℕ → Registry → Received → Outcome ((Bytes × SocketAddr) × Registry)
serve_one calls round g d = do
  require (calls.receives round) socket_failed
  (response, g') ← serve g d.datagram d.source d.time
  require (calls.sends round) socket_failed
  done ((response, d.source), g')

-- The loop from a round on, for as many datagrams as arrive: what is sent, in the same order and with
-- its destination, and the state.
unfoldable pub run_server :
    Calls → ℕ → Registry → List Received → Outcome (List (Bytes × SocketAddr) × Registry)
unfolding serve serve_one
run_server calls round g [] = done ([], g)
run_server calls round g (d ∷ ds) = do
  (sent, g') ← serve_one calls round g d
  (others, g'') ← run_server calls (suc round) g' ds
  done (sent ∷ others, g'')
