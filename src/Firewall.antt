-- ===== src/Firewall.antt =====
-- src/firewall.rs: the stateful firewall model, with its flows.
pub mod Flow
pub mod Table
pub mod Replies
