-- ===== src/Relay/Forwarding.antt =====
-- src/relay.rs: the relay joins the upstream peer with the first client, and nobody else.
use meshlet.Common.{
  ℕ, zero, suc, ◌≤◌, ◌≡◌, refl, sym, ap, ◌∙◌, ◌≢◌, ◌⊎◌, true, none, some, List, [], ◌∷◌, arith,
  if◌then◌else◌, le→ltb, Bytes, length, take, All, ◌==◌, ne→eq, nat_eq, list_eq, pair_eq,
}
use meshlet.Common.Result.{ok, ensure, >>=-eq-ok, >>-eq-ok}
use meshlet.Net.Calls.{Calls, succeed}
use meshlet.Net.Socket.{SocketAddr, socket_eq, socket_beq_iff}
use meshlet.Relay.State.{
  RelayState, new, received, forward, forward_one, forward_all, run, max_datagram_bytes,
}

-- The opposite end of a session between two addresses.
unfoldable pub opposite : SocketAddr → SocketAddr → SocketAddr → SocketAddr
opposite upstream client source = if source == upstream then client else upstream

abbrev pub Datagram : Type 0
Datagram = SocketAddr × Bytes

-- Every datagram came from one of two addresses.
abbrev pub Between : SocketAddr → SocketAddr → List Datagram → Type 0
Between upstream client = All (λ a. (a.0 ≡ upstream) ⊎ (a.0 ≡ client))

-- What a perfect wire between the two would deliver.
unfoldable pub session : SocketAddr → SocketAddr → List Datagram → List Datagram
unfolding opposite
session upstream client [] = []
session upstream client ((source, datagram) ∷ arrivals) =
    (opposite upstream client source, datagram) ∷ session upstream client arrivals

take_all : (n : ℕ) (xs : Bytes) → length (take (suc n) xs) ≤ n → take (suc n) xs ≡ xs
take_all n [] h = refl
take_all zero (x ∷ xs) h = absurd (omega arith)
take_all (suc n) (x ∷ xs) h = ap (◌∷◌ x) (take_all n xs (omega arith))

received_whole :
    (datagram : Bytes)
    → length (received datagram) ≤ max_datagram_bytes
    → received datagram ≡ datagram
unfolding received
received_whole datagram h = take_all max_datagram_bytes datagram h

-- A round with the client known.
forward_known :
    (s : RelayState) (client source : SocketAddr) (datagram : Bytes) (d : SocketAddr)
    (payload : Bytes) (s' : RelayState)
    → s.client ≡ some client
    → forward s source datagram ≡ ok ((d, payload), s')
    → ((source ≡ s.upstream) ⊎ (source ≡ client))
      × (d ≡ opposite s.upstream client source)
      × (payload ≡ datagram)
      × (s' ≡ s)
unfolding forward opposite
forward_known s client source datagram d payload s' k e = (
  ground (arith, socket_beq_iff source s.upstream, socket_beq_iff source client),
  ground (arith, socket_beq_iff source s.upstream, socket_beq_iff source client),
  ground (arith, received_whole datagram),
  ground (arith, socket_beq_iff source s.upstream, socket_beq_iff source client),
)

-- The first round: only a client gets through, and is remembered.
forward_first :
    (s : RelayState) (source : SocketAddr) (datagram : Bytes) (d : SocketAddr) (payload : Bytes)
    (s' : RelayState)
    → s.client ≡ none
    → forward s source datagram ≡ ok ((d, payload), s')
    → (source ≢ s.upstream)
      × (d ≡ opposite s.upstream source source)
      × (payload ≡ datagram)
      × (s' ≡ record s { client = some source })
unfolding forward opposite
forward_first s source datagram d payload s' k e = (
  ground (arith, socket_beq_iff source s.upstream),
  ground (arith, socket_beq_iff source s.upstream),
  ground (arith, received_whole datagram),
  ground (arith, socket_beq_iff source s.upstream),
)

-- What a loop that goes on sends: one datagram for the first that arrived, and then the rest.
forward_all_inv :
    (calls : Calls) (round left : ℕ) (s : RelayState) (source : SocketAddr) (datagram : Bytes)
    (arrivals sent : List (SocketAddr × Bytes)) (s' : RelayState)
    → forward_all calls round (suc left) s ((source, datagram) ∷ arrivals) ≡ ok (sent, s')
    → (d : SocketAddr) × (payload : Bytes) × (s₁ : RelayState) × (rest : List (SocketAddr × Bytes))
      × (forward s source datagram ≡ ok ((d, payload), s₁))
      × (forward_all calls (suc round) left s₁ arrivals ≡ ok (rest, s'))
      × (sent ≡ (d, payload) ∷ rest)
unfolding forward_all forward_one
forward_all_inv calls round left s source datagram arrivals sent s' e =
    let (((d, payload), s₁), one, e₁) = >>=-eq-ok (forward_one calls round s source datagram) _ e in
    let (_, e₂) = >>-eq-ok (ensure (calls.receives round) _) _ one in
    let (((d', payload'), s₂), first, e₃) = >>=-eq-ok (forward s source datagram) _ e₂ in
    let (_, e₄) = >>-eq-ok (ensure (calls.sends round) _) _ e₃ in
    let ((rest, s₃), others, last) =
      >>=-eq-ok (forward_all calls (suc round) left s₁ arrivals) _ e₁ in
    (d, payload, s₁, rest, first ∙ e₄, ground arith, ground arith)

session_known :
    (calls : Calls) (round left : ℕ) (s : RelayState) (client : SocketAddr)
    (arrivals sent : List Datagram) (s' : RelayState)
    → s.client ≡ some client
    → forward_all calls round left s arrivals ≡ ok (sent, s')
    → Between s.upstream client (take left arrivals)
      × (sent ≡ session s.upstream client (take left arrivals))
unfolding forward_all session
session_known calls round zero s client arrivals sent s' k e = (tt, ground arith)
session_known calls round (suc left) s client [] sent s' k e = (tt, ground arith)
session_known calls round (suc left) s client ((source, datagram) ∷ arrivals) sent s' k e =
    let (d, payload, s₁, rest, first, others, whole) =
      forward_all_inv calls round left s source datagram arrivals sent s' e in
    let (from, to, same, kept) = forward_known s client source datagram d payload s₁ k first in
    let (from', same') =
      session_known calls (suc round) left s client arrivals rest s' k
        (sym (ap (λ t. forward_all calls (suc round) left t arrivals) kept) ∙ others) in
    ((from, from'), ground arith)

-- Whether calls of the socket fail or not, the relay panics, or it passes every one of the first four
-- datagrams unchanged from one to the other of two addresses, the upstream peer and the sender of the
-- first datagram, which is not the peer. Nothing goes to a third address.
pub run-session :
    (calls : Calls) (upstream source : SocketAddr) (datagram : Bytes)
    (arrivals sent : List Datagram) (s' : RelayState)
    → run calls upstream ((source, datagram) ∷ arrivals) ≡ ok (sent, s')
    → (source ≢ upstream)
      × Between upstream source (take 3 arrivals)
      × (sent ≡ session upstream source ((source, datagram) ∷ take 3 arrivals))
unfolding run
run-session calls upstream source datagram arrivals sent s' e =
    let (d, payload, s₁, rest, first, others, whole) =
      forward_all_inv calls 0 3 (new upstream) source datagram arrivals sent s' e in
    let (ne, to, same, learnt) =
      forward_first (new upstream) source datagram d payload s₁ fresh first in
    let (from, same') =
      session_known calls 1 3 (record { upstream = upstream; client = some source }) source arrivals
        rest s' refl (sym (ap (λ t. forward_all calls 1 3 t arrivals) learnt) ∙ others) in
    (ne, from, unfold session in ground arith)
  where
    fresh : (new upstream).client ≡ none
    fresh = unfold new in refl

received_fits :
    (datagram : Bytes) → length datagram ≤ max_datagram_bytes → received datagram ≡ datagram
unfolding received
received_fits datagram h = take_all_fits max_datagram_bytes datagram h
  where
    take_all_fits : (n : ℕ) (xs : Bytes) → length xs ≤ n → take (suc n) xs ≡ xs
    take_all_fits n [] k = refl
    take_all_fits zero (x ∷ xs) k = absurd (omega arith)
    take_all_fits (suc n) (x ∷ xs) k = ap (◌∷◌ x) (take_all_fits n xs (omega arith))

abbrev pub Fits : List Datagram → Type 0
Fits = All (λ a. length a.1 ≤ max_datagram_bytes)

forward_serves :
    (s : RelayState) (client source : SocketAddr) (datagram : Bytes)
    → s.client ≡ some client
    → length datagram ≤ max_datagram_bytes
    → (source ≡ s.upstream) ⊎ (source ≡ client)
    → forward s source datagram ≡ ok ((opposite s.upstream client source, datagram), s)
unfolding forward opposite
forward_serves s client source datagram k fits from =
    ground (
      arith,
      received_fits datagram,
      socket_beq_iff source s.upstream,
      socket_beq_iff source client,
    )

forward_first_serves :
    (upstream source : SocketAddr) (datagram : Bytes)
    → source ≢ upstream
    → length datagram ≤ max_datagram_bytes
    → forward (new upstream) source datagram
      ≡ ok (
        (opposite upstream source source, datagram),
        record { upstream = upstream; client = some source },
      )
unfolding forward opposite new
forward_first_serves upstream source datagram ne fits =
    rw
      (
        received_fits datagram fits,
        le→ltb max_datagram_bytes (length datagram) fits,
        ne→eq source upstream ne,
      )
      refl

forward_one_lem :
    (calls : Calls) (round : ℕ) (s : RelayState) (source : SocketAddr) (datagram : Bytes)
    {forwarded : (SocketAddr × Bytes) × RelayState}
    → calls.receives round ≡ true
    → calls.sends round ≡ true
    → forward s source datagram ≡ ok forwarded
    → forward_one calls round s source datagram ≡ ok forwarded
unfolding forward_one
forward_one_lem calls round s source datagram receives sends e = rw (receives, e, sends) refl

-- A round that does not fail is followed by the rest.
forward_all_cons :
    (calls : Calls) (round left : ℕ) (s s₁ s' : RelayState) (source : SocketAddr) (datagram : Bytes)
    (arrivals sent : List Datagram) (one : Datagram)
    → succeed calls round (suc left) ≡ true
    → forward s source datagram ≡ ok (one, s₁)
    → forward_all calls (suc round) left s₁ arrivals ≡ ok (sent, s')
    → forward_all calls round (suc left) s ((source, datagram) ∷ arrivals) ≡ ok (one ∷ sent, s')
unfolding forward_all
forward_all_cons calls round left s s₁ s' source datagram arrivals sent one works e rest =
    rw
      (
        forward_one_lem calls round s source datagram (ground (arith, works))
            (ground (arith, works)) e,
        rest,
      )
      refl

forward_all_serves :
    (calls : Calls) (round left : ℕ) (s : RelayState) (client : SocketAddr)
    (arrivals : List Datagram)
    → succeed calls round left ≡ true
    → s.client ≡ some client
    → Fits (take left arrivals)
    → Between s.upstream client (take left arrivals)
    → forward_all calls round left s arrivals
      ≡ ok (session s.upstream client (take left arrivals), s)
unfolding forward_all session
forward_all_serves calls round zero s client arrivals works k fits from = refl
forward_all_serves calls round (suc left) s client [] works k fits from = refl
forward_all_serves calls round (suc left) s client ((source, datagram) ∷ arrivals) works k fits
      from =
    forward_all_cons calls round left s s s source datagram arrivals _ _ works
      (forward_serves s client source datagram k fits.0 from.0)
      (forward_all_serves calls (suc round) left s client arrivals (ground (arith, works)) k fits.1
        from.1)

-- Where no call of the socket fails in its four rounds, the relay serves a session without panic,
-- whenever its first datagram is not from the upstream peer, all four come from one client or the
-- peer, and none is longer than 2048 bytes.
pub run_serves :
    (calls : Calls) (upstream source : SocketAddr) (datagram : Bytes) (arrivals : List Datagram)
    → succeed calls 0 4 ≡ true
    → source ≢ upstream
    → Between upstream source (take 3 arrivals)
    → Fits ((source, datagram) ∷ take 3 arrivals)
    → run calls upstream ((source, datagram) ∷ arrivals)
      ≡ ok (
        session upstream source ((source, datagram) ∷ take 3 arrivals),
        record { upstream = upstream; client = some source },
      )
unfolding run session
run_serves calls upstream source datagram arrivals works ne from fits =
    forward_all_cons calls 0 3 (new upstream) _ _ source datagram arrivals _ _ works
      (forward_first_serves upstream source datagram ne fits.0)
      (forward_all_serves calls 1 3 (record { upstream = upstream; client = some source }) source
        arrivals (ground (arith, works)) refl fits.1 from)
