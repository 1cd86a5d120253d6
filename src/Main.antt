-- ===== src/Main.antt =====
-- src/main.rs: the commands, and the demonstrations that it contains itself.
pub mod Command
pub mod Dispatch
pub mod FirewallDemo
pub mod Latency
pub mod Ranks
pub mod Sockets
pub mod Sorting
pub mod RoundTrips
