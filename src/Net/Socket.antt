-- ===== src/Net/Socket.antt =====
-- `SocketAddr`, its equality and its `Display`.
use meshlet.Common.{
  ℕ, ◌≡◌, ◌↔◌, Bool, true, false, ◌&&◌, [], ◌∷◌, ◌++◌, arith, eqb, if◌then◌else◌, Bytes, Eq, ◌==◌,
  nat_eq, list_eq, list_beq_iff,
}
use meshlet.Net.Ipv4.{Ipv4Addr, display_ipv4}
use meshlet.Net.Ipv6.{Ipv6Addr, display_ipv6}
use meshlet.Text.Decimal.{decimal}

-- The numbers are the port, and for the second kind the flow information and the scope.
pub data SocketAddr : Type 0 where
  v4 : Ipv4Addr → ℕ → SocketAddr
  v6 : Ipv6Addr → ℕ → ℕ → ℕ → SocketAddr

unfoldable pub socket_beq : SocketAddr → SocketAddr → Bool
socket_beq (v4 a p) (v4 b q) = a == b && p == q
socket_beq (v6 a p f s) (v6 b q g t) = a == b && p == q && f == g && s == t
socket_beq _ _ = false

pub socket_beq_iff : (a b : SocketAddr) → (socket_beq a b ≡ true) ↔ (a ≡ b)
unfolding socket_beq
socket_beq_iff (v4 a p) (v4 b q) = ground arith
socket_beq_iff (v6 a p f s) (v6 b q g t) = ground (arith, list_beq_iff a b)
socket_beq_iff _ _ = ground arith

instance abbrev pub socket_eq : Eq SocketAddr
socket_eq = record { beq = socket_beq; beq_iff = socket_beq_iff }

unfoldable pub display_socket : SocketAddr → Bytes
display_socket (v4 ip port) = display_ipv4 ip ++ (b':' ∷ decimal port)
display_socket (v6 ip port flow scope) =
    let zone = if eqb scope 0 then [] else b'%' ∷ decimal scope in
    b'[' ∷ (display_ipv6 ip ++ (zone ++ (b']' ∷ b':' ∷ decimal port)))
