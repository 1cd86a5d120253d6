-- ===== src/Tests.antt =====
-- Runs on concrete inputs, and the theorems at inputs that meet their hypotheses.
mod Texts
mod Firewalls
mod Routes
mod Relays
mod Toys
mod Packets
mod Handshakes
mod Coordinators
mod Tunnels
mod Requests
mod Identities
mod Commands
mod Enrolments
mod Relayed
mod Generations
