-- ===== src/Port.antt =====
-- native/iroh_discovery/src/bin/iroh_discovery_port.rs: the program behind the port.
pub mod Values
pub mod Frames
pub mod Requests
pub mod State
pub mod Json
pub mod Handle
pub mod Main
mod Tests
