-- ===== src/Identity.antt =====
-- src/identity.rs: hexadecimal text, keys, identity and authorization files.
pub mod Hex
pub mod Parts
pub mod Keys
pub mod Files
pub mod FileTrip
pub mod Authorized
pub mod Generate
pub mod Generated
pub mod Loaded
pub mod Listed
