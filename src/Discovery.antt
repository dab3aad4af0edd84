-- ===== src/Discovery.antt =====
-- native/iroh_discovery/src/lib.rs: signed capability records, their wire format, the sequence
-- stores, the authorization table and the registry. The children hold one part each.
pub mod Types
pub mod Validate
pub mod Encode
pub mod Reader
pub mod Decode
pub mod Codec
pub mod Store
pub mod Authorization
pub mod Registry
pub mod Sign
pub mod Secret
pub mod Transport
pub mod Tests
