-- ===== src/Coordinator.antt =====
-- src/coordinator.rs: the UDP control plane.
pub mod NodeId
pub mod Request
pub mod Response
pub mod RoundTrip
pub mod Sound
pub mod AuthSound
pub mod NoPanic
pub mod Registry
pub mod Auth
pub mod Leases
pub mod Challenges
pub mod Client
pub mod ClientTexts
pub mod Holds
pub mod Trace
pub mod AuthRoundTrip
pub mod Signed
pub mod Serving
pub mod Enrolment
pub mod OpenClients
pub mod AuthServer
