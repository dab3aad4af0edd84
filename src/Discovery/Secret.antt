-- ===== src/Discovery/Secret.antt =====
-- native/iroh_discovery/src/lib.rs: `load_or_create_secret`. Key generation, and the bytes of a key,
-- are the iroh crate's: a generated key is an argument of a start, as is what the operating system
-- does to the calls of that start.
pub mod Identity
use nerves_p2p.Prelude.{
  Bool, true, false, List, [], ◌∷◌, ◌≡◌, length, nat_eq, if◌then◌else◌, Option, none, some, Result,
  ok, err,
}
use nerves_p2p.Prelude.Bytes.{Bytes, Eq_bytes}
use nerves_p2p.Prelude.HashMap.{get}
use nerves_p2p.Discovery.Store.File.{
  Disk, Fault, atomic_write, ReadOutcome, contents, not_found, failed,
}

-- The errors that the function tells apart: `InvalidData`, and any other.
pub data IoError : Type 0 where
  invalid_data other : IoError

pub record SecretBytes (Secret : Type 0) : Type 0 where
  pub from_bytes : Bytes → Secret
  pub to_bytes : Secret → Bytes

-- What the iroh crate documents of the two: a key is 32 bytes, which give the key back.
pub record KeepsBytes {Secret : Type 0} (crate : SecretBytes Secret) : Type 0 where
  pub size : (s : Secret) → length (crate.to_bytes s) ≡ 32
  pub back : (s : Secret) → crate.from_bytes (crate.to_bytes s) ≡ s

-- A start of the program: its process, whether the file can be read, what goes wrong when it is
-- written, and the key that the crate generates if it is asked.
pub record Start (Secret : Type 0) : Type 0 where
  pub pid : Bytes
  pub unreadable : Bool
  pub fault : Fault
  pub generated : Secret

found : Option Bytes → ReadOutcome
found none = not_found
found (some bytes) = contents bytes

unfoldable pub read_file : Bool → Bytes → Disk → ReadOutcome
unfolding found
read_file unreadable path d = if unreadable then failed else found (get d path)

module _ {Secret : Type 0} (crate : SecretBytes Secret) (path : Bytes) where
  unfoldable pub load_bytes : Bytes → Result Secret IoError
  load_bytes bytes =
      if nat_eq (length bytes) 32 then ok (crate.from_bytes bytes) else err invalid_data

  unfoldable pub written : Secret → Bool × Disk → Result Secret IoError × Disk
  written secret (succeeded, d) = (if succeeded then ok secret else err other, d)

  unfoldable pub load_or_create : ReadOutcome → Start Secret → Disk → Result Secret IoError × Disk
  unfolding load_bytes written
  load_or_create (contents bytes) w d = (load_bytes bytes, d)
  load_or_create not_found w d =
      written w.generated (atomic_write w.pid path (crate.to_bytes w.generated) w.fault d)
  load_or_create failed w d = (err other, d)

  unfoldable pub load_or_create_secret : Start Secret → Disk → Result Secret IoError × Disk
  unfolding load_or_create read_file
  load_or_create_secret w d = load_or_create (read_file w.unreadable path d) w d

  -- The disk after starts, one after the other.
  unfoldable pub starts : List (Start Secret) → Disk → Disk
  starts [] d = d
  starts (w ∷ ws) d = starts ws (load_or_create_secret w d).1
