-- ===== src/Discovery/Decode.antt =====
-- native/iroh_discovery/src/lib.rs: `decode_envelope`, `decode_message`, `decode_load` and
-- `decode_capabilities`. Each loop `for _ in 0..len` recurs on the rounds left; a round that fails
-- ends it.
mod Message
mod Parts
unfoldable pub use Parts.*
unfoldable pub use Message.*
