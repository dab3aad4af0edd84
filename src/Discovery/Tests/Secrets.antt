-- ===== src/Discovery/Tests/Secrets.antt =====
-- `load_or_create_secret` at a crate of two keys: a start whose write fails, one that makes a key,
-- one that cannot read it, and one that can.
use nerves_p2p.Prelude.{Bool, true, false, [], ◌∷◌, ◌≡◌, ◌≢◌, refl, ok, err, length, if◌then◌else◌}
use nerves_p2p.Prelude.Bytes.{Bytes, text, bytes_eq}
use nerves_p2p.Prelude.HashMap.{get, insert, remove}
use nerves_p2p.Discovery.Store.File.{Disk, Fault, atomic_write, write_steps}
use nerves_p2p.Discovery.Secret.{
  invalid_data, SecretBytes, KeepsBytes, Start, read_file, written, load_or_create,
  load_or_create_secret, starts,
}
use nerves_p2p.Discovery.Secret.Identity.{load_or_create_secret_kept, load_or_create_secret-valid}
use nerves_p2p.Discovery.Tests.Samples.{fleet, node}

abbrev crate : SecretBytes Bool
crate = record {
  from_bytes = λ bytes. bytes_eq bytes fleet;
  to_bytes = λ s. if s then fleet else node;
}

crate-KeepsBytes : KeepsBytes crate
unfolding bytes_eq
crate-KeepsBytes = record { size = sizes; back = backs }
  where
    sizes : (s : Bool) → length (crate.to_bytes s) ≡ 32
    sizes true = refl
    sizes false = refl

    backs : (s : Bool) → crate.from_bytes (crate.to_bytes s) ≡ s
    backs true = refl
    backs false = refl

abbrev path : Bytes
path = text "secret.key"

abbrev fails : Start Bool
fails = record {
  pid = text "1";
  unreadable = false;
  fault = Fault.write_fails 7;
  generated = false;
}

abbrev making : Start Bool
making = record { pid = text "2"; unreadable = false; fault = Fault.no_fault; generated = true }

abbrev blind : Start Bool
blind = record { pid = text "3"; unreadable = true; fault = Fault.no_fault; generated = false }

abbrev again : Start Bool
again = record { pid = text "4"; unreadable = false; fault = Fault.no_fault; generated = false }

abbrev after_failure : Disk
after_failure = starts crate path (fails ∷ []) []

made : (load_or_create_secret crate path making after_failure).0 ≡ ok true
made =
    unfold load_or_create_secret load_or_create read_file written starts atomic_write write_steps
      get remove insert bytes_eq in
    refl

load_or_create_secret_kept_example :
    let d = (load_or_create_secret crate path making after_failure).1 in
    let (answer, d') = load_or_create_secret crate path again (starts crate path (blind ∷ []) d) in
    (again.unreadable ≡ false → answer ≡ ok true)
    × ((s' : Bool) → answer ≡ ok s' → s' ≡ true)
    × (d' ≡ d)
load_or_create_secret_kept_example =
    load_or_create_secret_kept crate crate-KeepsBytes path making true after_failure (blind ∷ [])
      again made

load_or_create_secret-valid_example :
    (load_or_create_secret crate path again (starts crate path (fails ∷ making ∷ []) [])).0
    ≢ err invalid_data
load_or_create_secret-valid_example =
    load_or_create_secret-valid crate crate-KeepsBytes path (fails ∷ making ∷ []) again []
      (unfold get in refl)
