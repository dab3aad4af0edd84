-- ===== src/Discovery/Secret/Identity.antt =====
-- native/iroh_discovery/src/lib.rs: `load_or_create_secret` over the starts of a program.
use nerves_p2p.Prelude.{
  Bool, true, false, List, [], ◌∷◌, ◌≡◌, ◌≢◌, ◌⊎◌, refl, ap, sym, ◌∙◌, subst, inl, inr, length,
  none, some, Result, ok, err, arith,
}
use nerves_p2p.Prelude.Bytes.{Bytes, Eq_bytes}
use nerves_p2p.Prelude.HashMap.{get}
use nerves_p2p.Discovery.Store.File.{Disk, atomic_write, ReadOutcome, contents, not_found, failed}
use nerves_p2p.Discovery.Store.File.Atomic.{atomic_write_atomic}
use nerves_p2p.Discovery.Secret.{
  IoError, invalid_data, SecretBytes, KeepsBytes, Start, read_file, load_bytes, written,
  load_or_create, load_or_create_secret, starts,
}

-- What a read has found, by what it answers.
read_file-contents :
    (u : Bool) (path : Bytes) (d : Disk) (b : Bytes)
    → read_file u path d ≡ contents b
    → get d path ≡ some b
unfolding read_file
read_file-contents u path d b h = ground arith

read_file-not_found :
    (u : Bool) (path : Bytes) (d : Disk) → read_file u path d ≡ not_found → get d path ≡ none
unfolding read_file
read_file-not_found u path d h = ground arith

module _ {Secret : Type 0} (crate : SecretBytes Secret) (laws : KeepsBytes crate)
    (path : Bytes) where
  -- The file holds the bytes of the key.
  record Holds (s : Secret) (d : Disk) : Type 0 where
    bytes : Bytes
    there : get d path ≡ some bytes
    sized : length bytes ≡ 32
    reads : crate.from_bytes bytes ≡ s

  -- No file yet, or one of the size of a key.
  IsWhole : Disk → Type 0
  IsWhole d = (get d path ≡ none) ⊎ ((b : Bytes) × (get d path ≡ some b) × (length b ≡ 32))

  written-disk : (s : Secret) (r : Bool × Disk) → (written crate path s r).1 ≡ r.1
  unfolding written
  written-disk s (b, d) = refl

  written-ok :
      (s s' : Secret) (r : Bool × Disk)
      → (written crate path s r).0 ≡ ok s'
      → (s ≡ s') × (r.0 ≡ true)
  unfolding written
  written-ok s s' (true, d) h = (ground arith, refl)
  written-ok s s' (false, d) h = ground arith

  written-valid : (s : Secret) (r : Bool × Disk) → (written crate path s r).0 ≢ err invalid_data
  unfolding written
  written-valid s (true, d) h = ground arith
  written-valid s (false, d) h = ground arith

  load_bytes-ok :
      (b : Bytes) (s : Secret)
      → load_bytes crate path b ≡ ok s
      → (length b ≡ 32) × (crate.from_bytes b ≡ s)
  unfolding load_bytes
  load_bytes-ok b s h = (ground arith, ground arith)

  load_bytes-sized : (b : Bytes) → length b ≡ 32 → load_bytes crate path b ≡ ok (crate.from_bytes b)
  unfolding load_bytes
  load_bytes-sized b h = ground arith

  -- A start that answers a key leaves that key in the file.
  load_or_create-Holds :
      (r : ReadOutcome) (w : Start Secret) (s : Secret) (d : Disk)
      → read_file w.unreadable path d ≡ r
      → (load_or_create crate path r w d).0 ≡ ok s
      → Holds s (load_or_create crate path r w d).1
  unfolding load_or_create
  load_or_create-Holds (contents b) w s d e h =
      let (sized, reads) = load_bytes-ok b s h in
      record {
        bytes = b;
        there = read_file-contents w.unreadable path d b e;
        sized = sized;
        reads = reads;
      }
  load_or_create-Holds not_found w s d e h =
      let r = atomic_write w.pid path (crate.to_bytes w.generated) w.fault d in
      let (same, succeeded) = written-ok w.generated s r h in
      record {
        bytes = crate.to_bytes w.generated;
        there =
            ap (λ d. get d path) (written-disk w.generated r)
            ∙ (atomic_write_atomic w.pid path (crate.to_bytes w.generated) d w.fault).0 succeeded;
        sized = laws.size w.generated;
        reads = laws.back w.generated ∙ same;
      }
  load_or_create-Holds failed w s d e h = ground arith

  -- A key that is there is read, and stays.
  load_or_create-kept :
      (r : ReadOutcome) (w : Start Secret) (s : Secret) (d : Disk)
      → read_file w.unreadable path d ≡ r
      → Holds s d
      → ((load_or_create crate path r w d).1 ≡ d)
        × (w.unreadable ≡ false → (load_or_create crate path r w d).0 ≡ ok s)
  unfolding load_or_create read_file
  load_or_create-kept (contents b) w s d e h =
      let same : h.bytes ≡ b =
        ground (arith, h.there, read_file-contents w.unreadable path d b e) in
      (
        refl,
        λ _.
            load_bytes-sized b (ap length (sym same) ∙ h.sized)
            ∙ ap ok (ap crate.from_bytes (sym same) ∙ h.reads),
      )
  load_or_create-kept not_found w s d e h =
      ground (arith, h.there, read_file-not_found w.unreadable path d e)
  load_or_create-kept failed w s d e h = (refl, λ u. ground (arith, h.there, u, e))

  starts-kept :
      (ws : List (Start Secret)) (s : Secret) (d : Disk) → Holds s d → starts crate path ws d ≡ d
  unfolding starts load_or_create_secret
  starts-kept [] s d h = refl
  starts-kept (w ∷ ws) s d h =
      ap (starts crate path ws) (load_or_create-kept (read_file w.unreadable path d) w s d refl h).0
      ∙ starts-kept ws s d h

  one_key : (s s' : Secret) (d : Disk) → Holds s d → Holds s' d → s' ≡ s
  one_key s s' d h h' =
      let same : h'.bytes ≡ h.bytes = ground (arith, h.there, h'.there) in
      sym h'.reads ∙ ap crate.from_bytes same ∙ h.reads

  abbrev started : Start Secret → Disk → Result Secret IoError × Disk
  started = load_or_create_secret crate path

  restarted :
      (s : Secret) (d : Disk) (w : Start Secret)
      → Holds s d
      → let (answer, d') = started w d in
        (w.unreadable ≡ false → answer ≡ ok s)
        × ((s' : Secret) → answer ≡ ok s' → s' ≡ s)
        × (d' ≡ d)
  unfolding load_or_create_secret
  restarted s d w h =
      let (same, answer) = load_or_create-kept (read_file w.unreadable path d) w s d refl h in
      (
        answer,
        (λ s' a. one_key s s' d h (
            subst (Holds s') same
              (load_or_create-Holds (read_file w.unreadable path d) w s' d refl a))),
        same,
      )

  -- The identity of a node outlives its process. Once a start has answered a key, whatever starts
  -- follow, a later start answers that very key if it can read the file, and no other if it cannot;
  -- and the disk is then as the first of them left it. The crate keeps the bytes of its keys.
  pub load_or_create_secret_kept :
      (first : Start Secret) (s : Secret) (d : Disk) (ws : List (Start Secret))
      (last : Start Secret)
      → (started first d).0 ≡ ok s
      → let (answer, d') = started last (starts crate path ws (started first d).1) in
        (last.unreadable ≡ false → answer ≡ ok s)
        × ((s' : Secret) → answer ≡ ok s' → s' ≡ s)
        × (d' ≡ (started first d).1)
  unfolding load_or_create_secret
  load_or_create_secret_kept first s d ws last h =
      let d' = (started first d).1 in
      let there : Holds s d' =
        load_or_create-Holds (read_file first.unreadable path d) first s d refl h in
      let same = starts-kept ws s d' there in
      let (answer, key, disk) =
        restarted s (starts crate path ws d') last (subst (Holds s) (sym same) there) in
      (answer, key, disk ∙ same)

  whole_sized : (d : Disk) (b : Bytes) → IsWhole d → get d path ≡ some b → length b ≡ 32
  unfolding IsWhole
  whole_sized d b (inl nothing) e = ground arith
  whole_sized d b (inr (b', there, sized)) e =
      let same : b' ≡ b = ground arith in ap length (sym same) ∙ sized

  -- No fault tears the file of a key.
  load_or_create-IsWhole :
      (r : ReadOutcome) (w : Start Secret) (d : Disk)
      → read_file w.unreadable path d ≡ r
      → IsWhole d
      → IsWhole (load_or_create crate path r w d).1
        × ((load_or_create crate path r w d).0 ≢ err invalid_data)
  unfolding load_or_create IsWhole
  load_or_create-IsWhole (contents b) w d e h =
      let sized = whole_sized d b h (read_file-contents w.unreadable path d b e) in
      (h, λ a. ground (arith, load_bytes-sized b sized, a))
  load_or_create-IsWhole not_found w d e h =
      let r = atomic_write w.pid path (crate.to_bytes w.generated) w.fault d in
      let there = ap (λ d. get d path) (written-disk w.generated r) in
      (
        elim ((atomic_write_atomic w.pid path (crate.to_bytes w.generated) d w.fault).1) [
          | inl now ↦ inr (crate.to_bytes w.generated, there ∙ now, laws.size w.generated)
          | inr before ↦ inl (there ∙ before ∙ read_file-not_found w.unreadable path d e)
        ],
        written-valid w.generated r,
      )
  load_or_create-IsWhole failed w d e h = (h, λ a. ground arith)

  starts-IsWhole :
      (ws : List (Start Secret)) (d : Disk) → IsWhole d → IsWhole (starts crate path ws d)
  unfolding starts load_or_create_secret
  starts-IsWhole [] d h = h
  starts-IsWhole (w ∷ ws) d h =
      starts-IsWhole ws (load_or_create_secret crate path w d).1
        (load_or_create-IsWhole (read_file w.unreadable path d) w d refl h).0

  -- From a disk without the file, no start ever finds a key of a wrong size, whatever fails in the
  -- starts before it. The crate keeps the bytes of its keys.
  pub load_or_create_secret-valid :
      (ws : List (Start Secret)) (last : Start Secret) (d : Disk)
      → get d path ≡ none
      → (started last (starts crate path ws d)).0 ≢ err invalid_data
  unfolding load_or_create_secret IsWhole
  load_or_create_secret-valid ws last d h =
      let d' = starts crate path ws d in
      (load_or_create-IsWhole (read_file last.unreadable path d') last d' refl
        (starts-IsWhole ws d (inl h))).1
