-- ===== src/Transit.antt =====
-- keysas-core/src/keysas-transit/main.rs: the daemon that checks each file it receives from keysas-in
-- and passes it on, with what the checks found, to keysas-out.
pub mod Metadata
pub mod Peers
pub mod FileType
pub mod Sample
pub mod Check
pub mod Stages
pub mod Verdict
pub mod Relay
pub mod Loop
pub mod FailOpen
pub mod Examples
