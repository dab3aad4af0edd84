-- ===== src/Dist.antt =====
-- native/iroh_discovery/src/dist.rs: streams of the Erlang distribution over iroh.
pub mod Header
pub mod Streams
mod Tests
