-- ===== src/Backend.antt =====
-- keysas-backend/src/main.rs: what the screen of the station shows of the files that go in and come out.
pub mod Json
pub mod Krp
pub mod Listing
pub mod Reasons
pub mod Present
mod Examples
