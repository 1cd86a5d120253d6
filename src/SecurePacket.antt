-- ===== src/SecurePacket.antt =====
-- src/secure_packet.rs: the encrypted data packets that follow a handshake.
pub mod Wire
pub mod Channel
pub mod Delivery
pub mod Replay
