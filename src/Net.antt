-- ===== src/Net.antt =====
-- What the program takes from `std::net`: addresses, their texts, and socket addresses.
pub mod Ipv4
pub mod Ipv6
pub mod Socket
pub mod Calls
