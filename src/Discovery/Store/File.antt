-- ===== src/Discovery/Store/File.antt =====
-- native/iroh_discovery/src/lib.rs: `atomic_write` and `FileSequenceStore`. The disk is a map from
-- paths to contents. What the operating system does to each call of `atomic_write` is an oracle:
-- the step that fails, if one does. Directories are not modelled but for the failure to make or to
-- sync one, and the removal of the temporary file, whose error the code drops, succeeds.
pub mod Laws
pub mod Atomic
pub mod Durable
use nerves_p2p.Prelude.{
  ℕ, zero, suc, ◌+◌, ◌*◌, ◌/◌, ◌%◌, Bool, true, false, not, ◌&&◌, ◌||◌, List, [], ◌∷◌, ◌++◌, length,
  take, drop, leb, ltb, nat_eq, if◌then◌else◌, Option, none, some, is_some, unwrap_or, Result, ok,
  err,
}
use nerves_p2p.Prelude.Results
use nerves_p2p.Prelude.Bytes.{Bytes, Eq_bytes, be_bytes, from_be, text}
use nerves_p2p.Prelude.HashMap
use nerves_p2p.Prelude.HashMap.{HashMap}
use nerves_p2p.Prelude.BTreeMap.{BTreeMap, get, insert, remove}
use nerves_p2p.Discovery.Types.{Error, EndpointId, Keys, max_authorized}
use nerves_p2p.Discovery.Store.{SequenceStore}

abbrev pub Disk : Type 0
Disk = HashMap Bytes Bytes

-- The step of `atomic_write` that fails. A failed write has left the first `n` bytes.
pub data Fault : Type 0 where
  no_fault create_dir_fails open_fails sync_fails rename_fails sync_dir_fails : Fault
  write_fails : ℕ → Fault

abbrev pub temporary : Bytes → Bytes → Bytes
temporary pid path = path ++ (text ".tmp-" ++ pid)

-- The disk when the closure ends, and whether it succeeded.
unfoldable pub write_steps : Bytes → Bytes → Bytes → Fault → Disk → Bool × Disk
write_steps tmp path bytes Fault.no_fault d =
    (true, HashMap.insert (HashMap.remove d tmp) path bytes)
write_steps tmp path bytes Fault.create_dir_fails d = (false, d)
write_steps tmp path bytes Fault.open_fails d = (false, d)
write_steps tmp path bytes (Fault.write_fails n) d = (false, HashMap.insert d tmp (take n bytes))
write_steps tmp path bytes Fault.sync_fails d = (false, HashMap.insert d tmp bytes)
write_steps tmp path bytes Fault.rename_fails d = (false, HashMap.insert d tmp bytes)
write_steps tmp path bytes Fault.sync_dir_fails d =
    (false, HashMap.insert (HashMap.remove d tmp) path bytes)

-- A failed `create_dir_all` returns at once; a failed closure removes the temporary file.
unfoldable pub atomic_write : Bytes → Bytes → Bytes → Fault → Disk → Bool × Disk
unfolding write_steps
atomic_write pid path bytes Fault.create_dir_fails d = (false, d)
atomic_write pid path bytes fault d =
    let (succeeded, d') = write_steps (temporary pid path) path bytes fault d in
    (succeeded, if succeeded then d' else HashMap.remove d' (temporary pid path))

pub record FileSequenceStore : Type 0 where
  pub path : Bytes
  pub sequences : BTreeMap ℕ

-- A store, the disk under it, the process, and what will go wrong in the writes to come.
pub record FileWorld : Type 0 where
  pub store : FileSequenceStore
  pub disk : Disk
  pub pid : Bytes
  pub faults : List Fault

unfoldable pub serialize : BTreeMap ℕ → Bytes
serialize [] = []
serialize ((endpoint, sequence) ∷ m) = endpoint ++ (be_bytes 8 sequence ++ serialize m)

unfoldable pub next_fault : List Fault → Fault
next_fault [] = Fault.no_fault
next_fault (f ∷ fs) = f

unfoldable pub later_faults : List Fault → List Fault
later_faults [] = []
later_faults (f ∷ fs) = fs

unfoldable pub persist : FileWorld → Bool × FileWorld
unfolding next_fault later_faults
persist w =
    let (succeeded, d) =
      atomic_write w.pid w.store.path (serialize w.store.sequences) (next_fault w.faults) w.disk in
    (succeeded, record w { disk = d; faults = later_faults w.faults })

unfoldable pub load : FileWorld → EndpointId → Result ℕ Error
load w e = ok (unwrap_or (get w.store.sequences e) 0)

abbrev with_sequences : FileWorld → BTreeMap ℕ → FileWorld
with_sequences w m = record w { store = record { path = w.store.path; sequences = m } }

-- `match previous`: the in-memory map goes back to what it was.
unfoldable pub roll_back : Option ℕ → EndpointId → BTreeMap ℕ → BTreeMap ℕ
roll_back none e m = remove m e
roll_back (some value) e m = insert m e value

unfoldable pub persisted :
    Option ℕ → EndpointId → Bool × FileWorld → Result (Unit {0}) Error × FileWorld
unfolding roll_back
persisted previous e (true, w) = (ok tt, w)
persisted previous e (false, w) =
    (err Error.sequence_store_failed, with_sequences w (roll_back previous e w.store.sequences))

unfoldable pub advance : FileWorld → EndpointId → ℕ → Result (Unit {0}) Error × FileWorld
unfolding persisted
advance w e n =
    let m = w.store.sequences in
    if leb n (unwrap_or (get m e) 0)
    then (err Error.stale_sequence, w)
    else if not (is_some (get m e)) && nat_eq (length m) max_authorized
    then (err Error.sequence_store_failed, w)
    else persisted (get m e) e (persist (with_sequences w (insert m e n)))

abbrev pub file_store : SequenceStore FileWorld
file_store = record { load = load; advance = advance }

-- The loop over `chunks_exact(40)`, on the number of chunks that are left.
unfoldable pub read_records : Keys → ℕ → Bytes → BTreeMap ℕ → Result (BTreeMap ℕ) Error
read_records k zero bytes m = ok m
read_records k (suc n) bytes m =
    let endpoint = take 32 bytes in
    let sequence = from_be (take 8 (drop 32 bytes)) in
    let rest = read_records k n (drop 40 bytes) (insert m endpoint sequence) in
    if not (k.is_endpoint endpoint)
    then err Error.sequence_store_failed
    else if nat_eq sequence 0 || is_some (get m endpoint)
    then err Error.sequence_store_failed
    else rest

-- What `fs::read` answers: the bytes, a missing file, or another error.
pub data ReadOutcome : Type 0 where
  contents : Bytes → ReadOutcome
  not_found failed : ReadOutcome

unfoldable pub open_bytes : Keys → Bytes → Bytes → Result FileSequenceStore Error
open_bytes k path bytes =
    if not (nat_eq (length bytes % 40) 0) || ltb max_authorized (length bytes / 40)
    then err Error.sequence_store_failed
    else Results.◌>>=◌ (read_records k (length bytes / 40) bytes [])
        λ m. ok (record { path = path; sequences = m })

unfoldable pub open_store : Keys → Bytes → ReadOutcome → Result FileSequenceStore Error
unfolding open_bytes
open_store k path (contents bytes) = open_bytes k path bytes
open_store k path not_found = open_bytes k path []
open_store k path failed = err Error.sequence_store_failed
