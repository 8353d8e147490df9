-- ===== src/Tests.antt =====
-- The theorems at concrete inputs, and the data that they share.
pub mod Parts
pub mod Routing
pub mod Calls
pub mod Memory
pub mod Bridge
pub mod Sessions
pub mod Rows
pub mod Expiry
pub mod Schema
pub mod Stored
pub mod Services
pub mod Actors
pub mod Starting
