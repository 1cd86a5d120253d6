-- ===== src/Handshake/Answered.antt =====
-- src/handshake.rs: no fallback once the direct candidate has answered.
use meshlet.Common.{◌≡◌, List, [], ◌∷◌, Bytes, ◌⊎◌, nat_eq, list_eq, pair_eq}
use meshlet.Common.Result.{Result, ok, err}
use meshlet.Handshake.Fallback.{
  Diagnostic, ClientAttemptError, local, rejected, handshake_failed, Attempt, open_socket,
  ClientSession, Selection, selected, direct_failed,
}
use meshlet.Handshake.Hello.{HandshakeError}
use meshlet.Handshake.Session.{Exchange, SessionKeys}
use meshlet.Identity.Keys.{Ed25519, Identity}

-- The addresses that were tried and the selection, where the direct candidate answers: by its socket,
-- and by what `accept_hello` makes of the text.
abbrev pub Ends :
    Bytes
    → Attempt
    → Result HandshakeError (Bytes × Bytes × SessionKeys)
    → List Bytes × Selection
    → Type 0
Ends direct attempt accepted (tried, selection) =
    (tried ≡ direct ∷ [])
    × (((d : Diagnostic) × (open_socket attempt ≡ err (local d)) × (selection ≡ direct_failed d))
        ⊎ ((w : HandshakeError) × (accepted ≡ err w)
            × (selection ≡ direct_failed (handshake_failed w)))
        ⊎ ((peer : Bytes) × (transcript : Bytes) × (session : SessionKeys) × (accepted
              ≡ ok (peer, transcript, session))
            × (selection
                ≡ selected direct (record {
                  authenticated_peer = peer;
                  transcript = transcript;
                  keys = session;
                }))))

module _ {SigningKey VerifyingKey Signature Secret Shared : Type 0}
    (keys : Ed25519 SigningKey VerifyingKey Signature) (x : Exchange Secret Shared) where
  -- What an attempt comes to whose request is answered by a text.
  abbrev AttemptResult :
      Attempt
      → Result HandshakeError (Bytes × Bytes × SessionKeys)
      → Result ClientAttemptError ClientSession
      → Type 0
  AttemptResult attempt accepted result =
      ((d : Diagnostic) × (open_socket attempt ≡ err (local d)) × (result ≡ err (local d)))
      ⊎ ((w : HandshakeError) × (accepted ≡ err w) × (result ≡ err (rejected (handshake_failed w))))
      ⊎ ((peer : Bytes) × (transcript : Bytes) × (session : SessionKeys) × (accepted
            ≡ ok (peer, transcript, session))
          × (result
              ≡ ok (record { authenticated_peer = peer; transcript = transcript; keys = session })))
