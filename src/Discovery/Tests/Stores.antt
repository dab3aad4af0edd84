-- ===== src/Discovery/Tests/Stores.antt =====
-- The theorems on the stores and on the authorization table, at one node.
use nerves_p2p.Prelude.{List, [], ◌∷◌, ◌<◌, ◌≡◌, ◌≢◌, ◌⊎◌, ◌≤◌, refl, true, ok, arith, some, ◌+◌}
use nerves_p2p.Prelude.Bytes.{Bytes, Eq_bytes, text, bytes_eq, be_bytes, from_be}
use nerves_p2p.Prelude.Text.{contains, split_once}
use nerves_p2p.Prelude.HashMap
use nerves_p2p.Prelude.BTreeMap
use nerves_p2p.Prelude.BTreeMap.Sorted.{insert_all}
use nerves_p2p.Discovery.Types.{u64_max}
use nerves_p2p.Discovery.Validate.{valid_node_name, name_byte, host_byte}
use nerves_p2p.Discovery.Authorization.{
  AuthorizationTable, IsTable, new, new-IsTable, authorize, authorize-IsTable,
}
use nerves_p2p.Discovery.Store.{reserve_next, reserve_next-stored}
use nerves_p2p.Discovery.Store.Reserve.{
  Call, reserves, advances, after_calls, reserve_next-increases, reserve_next-open_store,
}
use nerves_p2p.Discovery.Store.Memory
use nerves_p2p.Discovery.Store.Memory.{memory_store, memory_store-StoreLaws, MemorySequenceStore}
use nerves_p2p.Discovery.Store.File
use nerves_p2p.Discovery.Store.File.{
  FileWorld, Fault, atomic_write, temporary, file_store, open_store,
}
use nerves_p2p.Discovery.Store.File.Atomic.{atomic_write_atomic}
use nerves_p2p.Discovery.Store.File.Durable.{IsReadable, read_file, advance-IsReadable}
use nerves_p2p.Discovery.Tests.Samples.{keys, node}

abbrev seen : MemorySequenceStore
seen = (node, 41) ∷ []

reserved : (reserve_next memory_store seen node).0 ≡ ok 42
unfolding reserve_next Memory.load Memory.advance HashMap.get HashMap.insert bytes_eq
reserved = refl

reserve_next-stored_example :
    (42 ≡ 41 + 1)
    × (42 ≤ u64_max)
    × (memory_store.load (reserve_next memory_store seen node).1 node ≡ ok 42)
reserve_next-stored_example =
    reserve_next-stored memory_store memory_store-StoreLaws seen node 41 42 loaded (omega arith)
      reserved
  where
    loaded : Memory.load seen node ≡ ok 41
    loaded = unfold Memory.load HashMap.get bytes_eq in refl

-- Between two reservations, one of another endpoint and a sequence given by hand.
abbrev between : List Call
between = reserves (text "other") ∷ advances node 50 ∷ []

reserve_next-increases_example : 42 < 51
reserve_next-increases_example =
    reserve_next-increases memory_store memory_store-StoreLaws seen node 42 51 between reserved
      again
  where
    again :
        (reserve_next memory_store
          (after_calls memory_store between (reserve_next memory_store seen node).1)
          node).0
        ≡ ok 51
    again =
        unfold reserve_next after_calls Memory.load Memory.advance HashMap.get HashMap.insert
          bytes_eq in
        refl

abbrev target : Bytes
target = text "/data/sequences"

atomic_write_atomic_example :
    let (succeeded, d') = atomic_write (text "9") target (1 ∷ []) (Fault.write_fails 0) [] in
    (succeeded ≡ true → HashMap.get d' target ≡ some (1 ∷ []))
    × ((HashMap.get d' target ≡ some (1 ∷ [])) ⊎ (HashMap.get d' target ≡ HashMap.get [] target))
    × ((i : Bytes)
        → i ≢ target
        → i ≢ temporary (text "9") target
        → HashMap.get d' i ≡ HashMap.get [] i)
atomic_write_atomic_example =
    atomic_write_atomic (text "9") target (1 ∷ []) [] (Fault.write_fails 0)

abbrev world : FileWorld
world = record {
  store = record { path = target; sequences = [] };
  disk = [];
  pid = text "9";
  faults = [];
}

advance-IsReadable_example : IsReadable keys (File.advance world node 3).1
advance-IsReadable_example =
    advance-IsReadable keys world node 3 (record { records = tt; sorted = tt; few = omega arith })
      (refl, refl, omega arith, omega arith) advanced
  where
    advanced : (File.advance world node 3).0 ≡ ok tt
    advanced =
        unfold File.advance File.persist File.atomic_write BTreeMap.get BTreeMap.insert in refl

-- What a restart opens after the first reservation.
abbrev restarted : FileWorld
restarted = record world { store = record { path = target; sequences = (node, 1) ∷ [] } }

reserve_next-open_store_example : 1 < 2
reserve_next-open_store_example =
    reserve_next-open_store keys world restarted node 1 2
      (record { records = tt; sorted = tt; few = omega arith }) refl refl first opened second
  where
    first : (reserve_next file_store world node).0 ≡ ok 1
    first =
        unfold reserve_next File.load File.advance File.persist File.atomic_write BTreeMap.get
          BTreeMap.insert in
        refl

    opened :
        open_store keys (reserve_next file_store world node).1.store.path (
          read_file (
            HashMap.get
              (reserve_next file_store world node).1.disk
              (reserve_next file_store world node).1.store.path))
        ≡ ok restarted.store
    opened =
        unfold reserve_next File.load File.advance File.persist File.atomic_write BTreeMap.get
          BTreeMap.insert open_store read_file HashMap.get HashMap.insert HashMap.remove bytes_eq
          File.serialize File.read_records be_bytes from_be in
        refl

    second : (reserve_next file_store restarted node).0 ≡ ok 2
    second =
        unfold reserve_next File.load File.advance File.persist File.atomic_write BTreeMap.get
          BTreeMap.insert bytes_eq in
        refl

abbrev table : AuthorizationTable
table = (node, text "a@h") ∷ []

new-IsTable_example : IsTable table
new-IsTable_example = new-IsTable table table made
  where
    made : new table ≡ ok table
    made =
        unfold new insert_all BTreeMap.insert valid_node_name name_byte host_byte contains
          split_once in
        refl

authorize-IsTable_example : IsTable (authorize [] node (text "b@h")).1
authorize-IsTable_example =
    authorize-IsTable [] node (text "b@h") (record { sorted = tt; few = omega arith; names = tt })
