-- ===== src/Coordinator/ClientTexts.antt =====
-- src/coordinator.rs: the texts of authenticated requests and responses fit the buffers, and what is
-- received is read as it was sent.
use meshlet.Common.{
  ◌/◌, ◌%◌, ◌^◌, ◌≤◌, ◌<◌, ◌≡◌, refl, ap, inl, inr, true, some, List, [], ◌∷◌, ◌++◌, arith, Bytes,
  length, All, length-append, All-append, List-cases, nat_eq, list_eq, pair_eq, Duration, as_secs,
}
use meshlet.Coordinator.AuthRoundTrip.{
  IsAuthRequest, fields, auth_request_text-fields, version-IsField,
}
use meshlet.Coordinator.Client.{ended, receive_connected}
use meshlet.Coordinator.NodeId.{valid_node_id}
use meshlet.Coordinator.RoundTrip.{IsLease, node_id-IsField, address-IsField, address_plain}
use meshlet.Coordinator.Request.{
  AuthRequest, challenge, register, lookup, auth_request_text, auth_protocol_version,
}
use meshlet.Coordinator.Response.{AuthResponse, encode_auth}
use meshlet.Handshake.HelloTrip.{hex-IsField}
use meshlet.Identity.Hex.{encode_hex, IsArray, length-encode_hex}
use meshlet.Identity.Keys.{Ed25519, Ed25519Laws}
use meshlet.Net.Ipv4.{Ipv4Addr, display_ipv4}
use meshlet.Net.Socket.{SocketAddr, v4, v6, display_socket}
use meshlet.Text.Decimal.{decimal}
use meshlet.Text.Fields.{IsField, field_test, constant-IsField, decimal-IsField, spaced_fields}
use meshlet.Text.Sizes.{length-decimal, length-spaced-le, total_length, take_whole}
use meshlet.Text.Words.{spaced}
use meshlet.Text.{codes}

pub node_id-le : (id : Bytes) → valid_node_id id ≡ true → length id ≤ 64
unfolding valid_node_id
node_id-le id h = ground arith

pub lease-le : (lease : Duration) → IsLease lease → length (decimal (as_secs lease)) ≤ 3
lease-le lease (s, e, low, high) = length-decimal 2 (as_secs lease) (omega arith)

-- The servers and the clients of this file have IPv4 addresses.
abbrev pub IsV4 : SocketAddr → Type 0
IsV4 (v4 ip port) = (ip < 2 ^ 32) × (port < 2 ^ 16)
IsV4 (v6 _ _ _ _) = ⊥

pub receives :
    (ws : List Bytes)
    → All IsField ws
    → length (spaced ws) ≤ 1024
    → receive_connected (some (spaced ws)) ≡ ended (spaced ws)
unfolding receive_connected
receives ws h fits =
    let (valid, _) = spaced_fields ws h in rw (take_whole 1024 (spaced ws) fits, valid) refl

address-le : (ip : Ipv4Addr) → ip < 2 ^ 32 → length (display_ipv4 ip) ≤ 15
unfolding display_ipv4
address-le ip h = omega (
  arith,
  length-append (decimal (ip / 16_777_216)) _,
  length-append (decimal (ip / 65_536 % 256)) _,
  length-append (decimal (ip / 256 % 256)) (b'.' ∷ decimal (ip % 256)),
  length-decimal 2 (ip / 16_777_216) (omega arith),
  length-decimal 2 (ip / 65_536 % 256) (omega arith),
  length-decimal 2 (ip / 256 % 256) (omega arith),
  length-decimal 2 (ip % 256) (omega arith),
)

pub socket-le : (a : SocketAddr) → IsV4 a → length (display_socket a) ≤ 21
unfolding display_socket
socket-le (v4 ip port) h = omega (
  arith,
  length-append (display_ipv4 ip) (b':' ∷ decimal port),
  address-le ip h.0,
  length-decimal 4 port (omega (arith, h.1)),
)
socket-le (v6 a p f s) h = absurd h

pub socket-IsField : (a : SocketAddr) → IsV4 a → IsField (display_socket a)
unfolding display_socket
socket-IsField (v4 ip port) h = (
  λ e. (address-IsField ip).0 (front e),
  All-append _ (display_ipv4 ip) _ (address_plain ip) (refl, (decimal-IsField port).1),
)
  where
    front : display_ipv4 ip ++ (b':' ∷ decimal port) ≡ [] → display_ipv4 ip ≡ []
    front e = elim (List-cases (display_ipv4 ip)) [
      | inl empty ↦ empty
      | inr (c, s, q) ↦
          absurd (omega (arith, ap length e, length-append (display_ipv4 ip) (b':' ∷ decimal port)))
    ]
socket-IsField (v6 a p f s) h = absurd h

-- The two responses that name an address.
pub receives-registered :
    (node_id : Bytes) (source : SocketAddr) (lease : Duration)
    → valid_node_id node_id ≡ true
    → IsV4 source
    → IsLease lease
    → receive_connected (some (encode_auth (AuthResponse.registered node_id source lease)))
      ≡ ended (encode_auth (AuthResponse.registered node_id source lease))
unfolding encode_auth field_test
receives-registered node_id source lease h k l =
    let ws =
      auth_protocol_version
      ∷ codes "REGISTERED"
      ∷ node_id
      ∷ display_socket source
      ∷ decimal (as_secs lease)
      ∷ [] in
    receives ws
      (
        version-IsField,
        (
          constant-IsField _ _ refl,
          (node_id-IsField node_id h, (socket-IsField source k, (decimal-IsField _, tt))),
        ),
      )
      (omega
        (arith, length-spaced-le ws, node_id-le node_id h, socket-le source k, lease-le lease l))

pub receives-found :
    (node_id : Bytes) (source : SocketAddr)
    → valid_node_id node_id ≡ true
    → IsV4 source
    → receive_connected (some (encode_auth (AuthResponse.found node_id source)))
      ≡ ended (encode_auth (AuthResponse.found node_id source))
unfolding encode_auth field_test
receives-found node_id source h k =
    let ws = auth_protocol_version ∷ codes "FOUND" ∷ node_id ∷ display_socket source ∷ [] in
    receives ws
      (
        version-IsField,
        (constant-IsField _ _ refl, (node_id-IsField node_id h, (socket-IsField source k, tt))),
      )
      (omega (arith, length-spaced-le ws, node_id-le node_id h, socket-le source k))

pub receives-challenge :
    (node_id value : Bytes)
    → valid_node_id node_id ≡ true
    → IsArray 32 value
    → receive_connected (some (encode_auth (AuthResponse.challenge node_id value)))
      ≡ ended (encode_auth (AuthResponse.challenge node_id value))
unfolding encode_auth field_test
receives-challenge node_id value h k =
    let ws = auth_protocol_version ∷ codes "CHALLENGE" ∷ node_id ∷ encode_hex value ∷ [] in
    receives ws
      (
        version-IsField,
        (constant-IsField _ _ refl, (node_id-IsField node_id h, (hex-IsField 31 value k, tt))),
      )
      (omega (arith, length-spaced-le ws, node_id-le node_id h, length-encode_hex value, k.0))

module _ {SigningKey VerifyingKey Signature : Type 0}
    (keys : Ed25519 SigningKey VerifyingKey Signature) (laws : Ed25519Laws keys) where
  fields-le :
      (r : AuthRequest Signature)
      → IsAuthRequest keys laws r
      → total_length (fields keys laws r) ≤ 1024
  fields-le (challenge node_id) h = omega (arith, node_id-le node_id h)
  fields-le (register node_id lease value signature) h = omega (
    arith,
    node_id-le node_id h.0,
    lease-le lease h.1,
    length-encode_hex value,
    h.2.0,
    length-encode_hex (keys.signature_bytes signature),
    (laws.signature_array signature).0,
  )
  fields-le (lookup node_id) h = omega (arith, node_id-le node_id h)

  -- A request of a client is not longer than the server's datagrams.
  pub auth_request_text-le :
      (r : AuthRequest Signature)
      → IsAuthRequest keys laws r
      → length (auth_request_text keys r) ≤ 1024
  auth_request_text-le r h =
      rw (auth_request_text-fields keys laws r)
        (omega (arith, length-spaced-le (fields keys laws r), fields-le r h))
