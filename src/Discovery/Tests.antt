-- ===== src/Discovery/Tests.antt =====
-- native/iroh_discovery/src/lib.rs at concrete inputs: the theorems of Discovery, applied.
pub mod Samples
pub mod Codec
mod Stores
mod Secrets
pub mod Receive
mod Leave
mod Queries
