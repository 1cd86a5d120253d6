-- ===== src/Handshake.antt =====
-- src/handshake.rs: the mutually authenticated key exchange.
pub mod Hello
pub mod Session
pub mod HelloTrip
pub mod Agreement
pub mod Signed
pub mod Echo
pub mod Fallback
pub mod HelloTexts
pub mod Programs
pub mod Fits
pub mod Attempts
pub mod ThroughRelay
pub mod Direct
pub mod Answered
