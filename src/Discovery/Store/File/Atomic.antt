-- ===== src/Discovery/Store/File/Atomic.antt =====
-- `atomic_write` under every fault.
use nerves_p2p.Prelude.{
  ◌≡◌, refl, ap, ◌∙◌, ◌≢◌, ◌⊎◌, inl, inr, Bool, true, false, ◌++◌, length, length-append, take,
  some, arith,
}
use nerves_p2p.Prelude.Bytes.{Bytes, Eq_bytes, bytes_eq_iff, text}
use nerves_p2p.Prelude.HashMap.{get, insert, remove, get-insert, get-remove}
use nerves_p2p.Discovery.Store.File.{Disk, Fault, atomic_write, temporary}

not-temporary : (pid path : Bytes) → path ≢ temporary pid path
not-temporary pid path e = omega (arith, ap length e, length-append path (text ".tmp-" ++ pid))

module _ (pid path bytes : Bytes) (d : Disk) where
  abbrev Outcome : Bool × Disk → Type 0
  Outcome (succeeded, d') =
      (succeeded ≡ true → get d' path ≡ some bytes)
      × ((get d' path ≡ some bytes) ⊎ (get d' path ≡ get d path))
      × ((i : Bytes) → i ≢ path → i ≢ temporary pid path → get d' i ≡ get d i)

  -- The rename took place.
  renamed :
      (b : Bool) (d' : Disk)
      → get d' path ≡ some bytes
      → ((i : Bytes) → i ≢ path → i ≢ temporary pid path → get d' i ≡ get d i)
      → Outcome (b, d')
  renamed b d' h others = ((λ _. h), inl h, others)

  -- Only the temporary file was touched.
  abandoned :
      (d' : Disk)
      → ((i : Bytes) → i ≢ temporary pid path → get d' i ≡ get d i)
      → Outcome (false, d')
  abandoned d' others =
      ((λ e. cc), inr (others path (not-temporary pid path)), (λ i _ ne. others i ne))

  get-removed :
      (i : Bytes) → i ≢ temporary pid path → get (remove d (temporary pid path)) i ≡ get d i
  get-removed i ne =
      ground (arith, get-remove d (temporary pid path) i, bytes_eq_iff (temporary pid path) i)

  get-scratch :
      (x i : Bytes)
      → i ≢ temporary pid path
      → get (remove (insert d (temporary pid path) x) (temporary pid path)) i ≡ get d i
  get-scratch x i ne = ground (
    arith,
    get-remove (insert d (temporary pid path) x) (temporary pid path) i,
    get-insert d (temporary pid path) x i,
    bytes_eq_iff (temporary pid path) i,
  )

  moved : Disk
  moved = insert (remove d (temporary pid path)) path bytes

  get-moved : (i : Bytes) → i ≢ path → i ≢ temporary pid path → get moved i ≡ get d i
  unfolding moved
  get-moved i np nt = ground (
    arith,
    get-insert (remove d (temporary pid path)) path bytes i,
    bytes_eq_iff path i,
    get-removed i nt,
  )

  get-target : get moved path ≡ some bytes
  unfolding moved
  get-target =
      ground
        (arith, get-insert (remove d (temporary pid path)) path bytes path, bytes_eq_iff path path)

  get_cleaned :
      (i : Bytes) → i ≢ temporary pid path → get (remove moved (temporary pid path)) i ≡ get moved i
  get_cleaned i ne =
      ground (arith, get-remove moved (temporary pid path) i, bytes_eq_iff (temporary pid path) i)

  -- Success means that the file holds exactly the bytes, failure that it holds them or is as it
  -- was: no fault leaves a part of the bytes in it. Files that are neither it nor the temporary
  -- one are as they were.
  pub atomic_write_atomic :
      (f : Fault)
      → let (succeeded, d') = atomic_write pid path bytes f d in
        (succeeded ≡ true → get d' path ≡ some bytes)
        × ((get d' path ≡ some bytes) ⊎ (get d' path ≡ get d path))
        × ((i : Bytes) → i ≢ path → i ≢ temporary pid path → get d' i ≡ get d i)
  unfolding atomic_write moved
  atomic_write_atomic Fault.no_fault = renamed true moved get-target get-moved
  atomic_write_atomic Fault.create_dir_fails = abandoned d (λ i _. refl)
  atomic_write_atomic Fault.open_fails = abandoned _ get-removed
  atomic_write_atomic (Fault.write_fails n) = abandoned _ (get-scratch (take n bytes))
  atomic_write_atomic Fault.sync_fails = abandoned _ (get-scratch bytes)
  atomic_write_atomic Fault.rename_fails = abandoned _ (get-scratch bytes)
  atomic_write_atomic Fault.sync_dir_fails =
      renamed false (remove moved (temporary pid path))
        (get_cleaned path (not-temporary pid path) ∙ get-target)
        (λ i np nt. get_cleaned i nt ∙ get-moved i np nt)
