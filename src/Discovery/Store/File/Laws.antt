-- ===== src/Discovery/Store/File/Laws.antt =====
-- `FileSequenceStore` keeps the laws of the trait, whatever fails under it.
use nerves_p2p.Prelude.{ℕ, ◌<◌, ◌≡◌, refl, ◌≢◌, Option, none, some, ok, err, unwrap_or, arith}
use nerves_p2p.Prelude.Bytes.{bytes_eq_iff}
use nerves_p2p.Prelude.BTreeMap.{BTreeMap, get, insert, get-insert, remove-insert_new}
use nerves_p2p.Discovery.Types.{Error, EndpointId}
use nerves_p2p.Discovery.Store.{StoreLaws}
use nerves_p2p.Discovery.Store.File.{FileWorld, persist, load, advance, roll_back, file_store}

-- A roll-back restores what every key has.
get-roll_back :
    (m : BTreeMap ℕ) (e : EndpointId) (n : ℕ) (i : EndpointId)
    → get (roll_back (get m e) e (insert m e n)) i ≡ get m i
unfolding roll_back
get-roll_back m e n i = go (get m e) refl
  where
    go :
        (previous : Option ℕ)
        → get m e ≡ previous
        → get (roll_back previous e (insert m e n)) i ≡ get m i
    go none h = rw (remove-insert_new m e n h)
    go (some v) h =
        ground (arith, get-insert (insert m e n) e v i, get-insert m e n i, bytes_eq_iff e i)

file_grows :
    (w : FileWorld) (e : EndpointId) (n m : ℕ) → (advance w e n).0 ≡ ok tt → load w e ≡ ok m → m < n
unfolding advance load
file_grows w e n m h l = ground arith

file_stored :
    (w : FileWorld) (e : EndpointId) (n : ℕ)
    → (advance w e n).0 ≡ ok tt
    → load (advance w e n).1 e ≡ ok n
unfolding advance load persist
file_stored w e n h = ground (arith, get-insert w.store.sequences e n e, bytes_eq_iff e e)

file_others :
    (w : FileWorld) (e i : EndpointId) (n : ℕ) → e ≢ i → load (advance w e n).1 i ≡ load w i
unfolding advance load persist
file_others w e i n ne = ground (
  arith,
  get-insert w.store.sequences e n i,
  bytes_eq_iff e i,
  get-roll_back w.store.sequences e n i,
)

file_refused :
    (w : FileWorld) (e : EndpointId) (n : ℕ) (x : Error)
    → (advance w e n).0 ≡ err x
    → load (advance w e n).1 e ≡ load w e
unfolding advance load persist
file_refused w e n x h = ground (arith, get-roll_back w.store.sequences e n e)

file_readable : (w : FileWorld) (e : EndpointId) → (n : ℕ) × (load w e ≡ ok n)
unfolding load
file_readable w e = (unwrap_or (get w.store.sequences e) 0, refl)

-- The file-backed store keeps every law of the trait, whichever steps of its writes fail.
pub file_store-StoreLaws : StoreLaws file_store
file_store-StoreLaws = record {
  grows = file_grows;
  stored = file_stored;
  others = file_others;
  refused = file_refused;
  readable = file_readable;
}
