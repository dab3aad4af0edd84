-- ===== src/Bridge.antt =====
-- native/p2p_bridge/src: the native bridge to libp2p.
pub mod DhtState
pub mod Net
pub mod Commands
pub mod Terms
pub mod Events
pub mod Swarm
pub mod Node
pub mod Config
pub mod Errors
pub mod Nif
mod Tests
