-- ===== src/Discovery/Store/Memory.antt =====
-- native/iroh_discovery/src/lib.rs: `MemorySequenceStore`, and that it keeps the laws.
use nerves_p2p.Prelude.{
  ℕ, ◌<◌, ◌≡◌, refl, ◌≢◌, Result, ok, err, leb, if◌then◌else◌, unwrap_or, arith,
}
use nerves_p2p.Prelude.Bytes.{Eq_bytes, bytes_eq_iff}
use nerves_p2p.Prelude.HashMap.{HashMap, get, insert, get-insert}
use nerves_p2p.Discovery.Types.{Error, EndpointId}
use nerves_p2p.Discovery.Store.{SequenceStore, StoreLaws}

abbrev pub MemorySequenceStore : Type 0
MemorySequenceStore = HashMap EndpointId ℕ

unfoldable pub load : MemorySequenceStore → EndpointId → Result ℕ Error
load s e = ok (unwrap_or (get s e) 0)

unfoldable pub advance :
    MemorySequenceStore → EndpointId → ℕ → Result (Unit {0}) Error × MemorySequenceStore
advance s e n =
    if leb n (unwrap_or (get s e) 0) then (err Error.stale_sequence, s) else (ok tt, insert s e n)

abbrev pub memory_store : SequenceStore MemorySequenceStore
memory_store = record { load = load; advance = advance }

memory_grows :
    (s : MemorySequenceStore) (e : EndpointId) (n m : ℕ)
    → (advance s e n).0 ≡ ok tt
    → load s e ≡ ok m
    → m < n
unfolding advance load
memory_grows s e n m h l = ground arith

memory_stored :
    (s : MemorySequenceStore) (e : EndpointId) (n : ℕ)
    → (advance s e n).0 ≡ ok tt
    → load (advance s e n).1 e ≡ ok n
unfolding advance load
memory_stored s e n h = ground (arith, get-insert s e n e, bytes_eq_iff e e)

memory_others :
    (s : MemorySequenceStore) (e i : EndpointId) (n : ℕ)
    → e ≢ i
    → load (advance s e n).1 i ≡ load s i
unfolding advance load
memory_others s e i n ne = ground (arith, get-insert s e n i, bytes_eq_iff e i)

memory_refused :
    (s : MemorySequenceStore) (e : EndpointId) (n : ℕ) (x : Error)
    → (advance s e n).0 ≡ err x
    → load (advance s e n).1 e ≡ load s e
unfolding advance load
memory_refused s e n x h = ground arith

memory_readable : (s : MemorySequenceStore) (e : EndpointId) → (n : ℕ) × (load s e ≡ ok n)
unfolding load
memory_readable s e = (unwrap_or (get s e) 0, refl)

-- The in-memory store keeps every law of the trait.
pub memory_store-StoreLaws : StoreLaws memory_store
memory_store-StoreLaws = record {
  grows = memory_grows;
  stored = memory_stored;
  others = memory_others;
  refused = memory_refused;
  readable = memory_readable;
}
