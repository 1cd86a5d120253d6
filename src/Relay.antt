-- ===== src/Relay.antt =====
-- src/relay.rs: the one-client UDP relay.
pub mod State
pub mod Forwarding
