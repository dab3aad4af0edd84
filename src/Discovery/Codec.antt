-- ===== src/Discovery/Codec.antt =====
-- The wire format of native/iroh_discovery/src/lib.rs, proved: what the encoder writes the reader
-- reads back, and what the decoder accepts is canonical.
pub mod Reads
pub mod Head
pub mod Strings
pub mod Sorting
pub mod Values
pub mod Maps
pub mod Layout
pub mod Message
pub mod Announcements
pub mod Withdrawals
pub mod Envelope
pub mod Canonical
