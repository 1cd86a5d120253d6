-- ===== src/Routing.antt =====
-- src/routing.rs: IPv4 prefixes and the table of route advertisements.
pub mod Prefix
pub mod Mask
pub mod Parse
pub mod Registry
pub mod Selection
pub mod Leases
