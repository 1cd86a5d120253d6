-- ===== src/Handshake/Programs.antt =====
-- src/handshake.rs: `run_secure_echo_server`, `run_secure_echo_client` and
-- `run_secure_echo_client_auto` as a whole. What the files and the sockets give is an argument; a
-- program's result is what it has sent, and its end. A send outside the client's attempts is taken to
-- succeed; where it fails the source panics. Timing and printing are left out.
use meshlet.Common.{
  none, some, List, [], ◌∷◌, ◌++◌, map, ltb, if◌then◌else◌, Bytes, length, nat_eq, list_eq, pair_eq,
}
use meshlet.Common.HashMap.{get}
use meshlet.Common.Result.{Result, ok, err}
use meshlet.Handshake.Echo.{EchoError, send_request, serve_echo, accept_response}
use meshlet.Handshake.Fallback.{
  Diagnostic, recv_failed, too_long, not_utf8, max_datagram_bytes, response_timeout, Attempt,
  map_err, open_socket, ClientSession, Selection, selected, direct_failed, relay_failed,
  establish_client_session, select_path, message,
}
use meshlet.Handshake.Hello.{HandshakeError, encode_client_hello}
use meshlet.Handshake.Session.{Exchange, client_hello, serve_hello}
use meshlet.Identity.Authorized.{AuthorizationError}
use meshlet.Identity.Files.{IdentityError}
use meshlet.Identity.Keys.{Ed25519, Authorizations, Identity}
use meshlet.Net.Socket.{SocketAddr, socket_eq}
use meshlet.SecurePacket.Channel.{Aead}
use meshlet.Text.Utf8.{is_utf8}

-- The panics of the programs.
pub data ProgramError : Type 0 where
  identity_failed : IdentityError → ProgramError
  authorizations_failed : AuthorizationError → ProgramError
  no_authorized_key : Bytes → ProgramError
  receive_failed session_failed no_relay_tried no_relay_session : Diagnostic → ProgramError
  hello_failed : HandshakeError → ProgramError
  echo_failed : EchoError → ProgramError

-- What has been sent, in order, and the plaintext that is printed at the end, or the panic.
abbrev pub Run : Type 0 → Type 0
Run Sent = List Sent × Result ProgramError Bytes

module _ {Sent : Type 0} where
  abbrev pub ended : Bytes → Run Sent
  ended plaintext = ([], ok plaintext)

  abbrev pub sending : List Sent → Run Sent → Run Sent
  sending sent rest = (sent ++ rest.0, rest.1)

  infixl 5 ◌>>=◌
  abbrev pub ◌>>=◌ : {A : Type 0} → Result ProgramError A → (A → Run Sent) → Run Sent
  ok a >>= f = f a
  err e >>= f = ([], err e)

-- What one `recv_from` gives: the source and the datagram, or the text of an error.
abbrev pub Arrival : Type 0
Arrival = Result Bytes (SocketAddr × Bytes)

-- The checks of `receive_from` on the datagram.
abbrev pub checked_text : SocketAddr × Bytes → Result Diagnostic (SocketAddr × Bytes)
checked_text (source, datagram) =
    if ltb max_datagram_bytes (length datagram)
    then err too_long
    else if is_utf8 datagram
    then ok (source, datagram)
    else err not_utf8

unfoldable pub receive_from : Arrival → Result Diagnostic (SocketAddr × Bytes)
receive_from (err text) = err (recv_failed text)
receive_from (ok arrival) = checked_text arrival

unfoldable pub require_authorized :
    {VerifyingKey : Type 0} → Authorizations VerifyingKey → Bytes → Result ProgramError (Unit {0})
require_authorized authorizations node_id = elim (get node_id authorizations) [
  | some _ ↦ ok tt
  | none ↦ err (no_authorized_key node_id)
]

-- The hello leaves if the socket opens and sends.
unfoldable pub hello_sent : Attempt → Bytes → List Bytes
hello_sent attempt hello = elim (open_socket attempt) [
  | err _ ↦ []
  | ok _ ↦ elim attempt.send [ ok _ ↦ hello ∷ [] | err _ ↦ [] ]
]

module _ {SigningKey VerifyingKey Signature Secret Shared : Type 0}
    (keys : Ed25519 SigningKey VerifyingKey Signature) (x : Exchange Secret Shared) where
  -- The two files, as `load_identity` and `Authorizations::load` read them.
  pub record Material : Type 0 where
    pub identity : Result IdentityError (Identity SigningKey)
    pub authorizations : Result AuthorizationError (Authorizations VerifyingKey)

  -- Files that are read without an error.
  abbrev pub material : Identity SigningKey → Authorizations VerifyingKey → Material
  material identity authorizations = record {
    identity = ok identity;
    authorizations = ok authorizations;
  }

  unfoldable pub hello_text : Identity SigningKey → Bytes → Secret → Bytes
  hello_text identity peer_node_id secret =
      encode_client_hello keys (client_hello keys x identity peer_node_id secret)

  -- The hellos to the addresses that were tried, each over a secret of its own.
  unfoldable pub hellos :
      (Bytes → Attempt)
      → Identity SigningKey
      → Bytes
      → List Bytes
      → List Secret
      → List (Bytes × Bytes)
  unfolding hello_sent
  hellos network identity peer_node_id (path ∷ paths) (secret ∷ secrets) =
      map (λ d. (path, d)) (hello_sent (network path) (hello_text identity peer_node_id secret))
      ++ hellos network identity peer_node_id paths secrets
  hellos network identity peer_node_id _ _ = []

  module _ {Cipher : Type 0} (a : Aead Cipher) where
    unfoldable pub run_secure_echo_server :
        Material → Secret → Arrival → Arrival → Run (SocketAddr × Bytes)
    unfolding receive_from
    run_secure_echo_server files secret first second = do
      identity ← map_err files.identity identity_failed
      authorizations ← map_err files.authorizations authorizations_failed
      (source, hello) ← map_err (receive_from first) receive_failed
      (reply, _, session) ←
          map_err (serve_hello keys x identity authorizations secret hello) hello_failed
      sending ((source, reply) ∷ []) (do
        (request_source, request) ← map_err second (λ e. receive_failed (recv_failed e))
        (plaintext, response) ←
            map_err (serve_echo a session source request_source request) echo_failed
        sending ((source, response) ∷ []) (ended plaintext))

    -- The second argument is what the connected socket gives next.
    unfoldable pub complete_client_exchange : ClientSession → Result Bytes Bytes → Run Bytes
    complete_client_exchange session echo = do
      request ← map_err (send_request a session.keys) echo_failed
      sending (request ∷ []) (do
        response ← map_err echo (λ e. receive_failed (recv_failed e))
        plaintext ← map_err (accept_response a session.keys response) echo_failed
        ended plaintext)

    unfoldable pub run_secure_echo_client :
        Material → Bytes → Bytes → Secret → Attempt → Result Bytes Bytes → Run Bytes
    unfolding require_authorized complete_client_exchange
    run_secure_echo_client files server_address peer_node_id secret attempt echo = do
      identity ← map_err files.identity identity_failed
      authorizations ← map_err files.authorizations authorizations_failed
      _ ← require_authorized authorizations peer_node_id
      sending (hello_sent attempt (hello_text identity peer_node_id secret)) (do
        session ←
            map_err
              (establish_client_session keys x attempt server_address identity authorizations
                peer_node_id response_timeout secret)
              (λ e. session_failed (message e))
        complete_client_exchange session echo)

    -- Behind the choice of the path.
    unfoldable pub finish : Selection → Result Bytes Bytes → Run (Bytes × Bytes)
    unfolding complete_client_exchange
    finish (selected path session) echo =
        let run = complete_client_exchange session echo in (map (λ d. (path, d)) run.0, run.1)
    finish (direct_failed d) echo = ([], err (no_relay_tried d))
    finish (relay_failed d) echo = ([], err (no_relay_session d))

    unfoldable pub run_secure_echo_client_auto :
        Material
        → Bytes
        → Bytes
        → Bytes
        → Secret
        → Secret
        → (Bytes → Attempt)
        → Result Bytes Bytes
        → Run (Bytes × Bytes)
    unfolding require_authorized finish hellos
    run_secure_echo_client_auto files direct relay peer_node_id secret secret' network echo = do
      identity ← map_err files.identity identity_failed
      authorizations ← map_err files.authorizations authorizations_failed
      _ ← require_authorized authorizations peer_node_id
      let choice =
          select_path keys x network direct relay identity authorizations peer_node_id secret
            secret'
      sending (hellos network identity peer_node_id choice.0 (secret ∷ secret' ∷ []))
          (finish choice.1 echo)
