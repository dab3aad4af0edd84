-- ===== src/Discovery/Store/File/Durable.antt =====
-- A successful `advance` is on the disk: a store opened from the file has every sequence.
use nerves_p2p.Prelude.{
  ℕ, ◌*◌, ◌/◌, ◌%◌, ◌<◌, ◌≤◌, ◌≡◌, refl, sym, ap, ◌∙◌, subst, [], ◌∷◌, ◌++◌, append_assoc, length,
  length-append, take, drop, take-append, drop-append, All, Option, none, some, ok, arith, true,
  inl, inr, Option-cases,
}
use nerves_p2p.Prelude.Bytes.{
  Bytes, Eq_bytes, bytes_eq_iff, be_bytes, from_be, length-be_bytes, from_be-be_bytes,
}
use nerves_p2p.Prelude.HashMap
use nerves_p2p.Prelude.BTreeMap.{BTreeMap, get, insert, get-insert}
use nerves_p2p.Prelude.BTreeMap.Sorted.{
  Sorted, insert_all, insert_all-Sorted, Fresh, Distinct, Sorted-Distinct, insert-Sorted,
  length-insert-le, length-insert_old, All-insert,
}
use nerves_p2p.Discovery.Types.{EndpointId, Keys, max_authorized, u64_max}
use nerves_p2p.Discovery.Store.File.{
  FileWorld, serialize, read_records, open_bytes, open_store, contents, not_found, ReadOutcome,
  advance, persist, next_fault,
}
use nerves_p2p.Discovery.Store.File.Atomic.{atomic_write_atomic}

-- A record that the file format can hold.
abbrev pub IsRecord : Keys → Bytes × ℕ → Type 0
IsRecord k r = (length r.0 ≡ 32) × (k.is_endpoint r.0 ≡ true) × (0 < r.1) × (r.1 ≤ u64_max)

length-serialize :
    (k : Keys) (m : BTreeMap ℕ) → All (IsRecord k) m → length (serialize m) ≡ length m * 40
unfolding serialize
length-serialize k [] h = refl
length-serialize k ((e, n) ∷ m) h = omega (
  arith,
  h.0.0,
  length-append e (be_bytes 8 n ++ serialize m),
  length-append (be_bytes 8 n) (serialize m),
  length-be_bytes 8 n,
  length-serialize k m h.1,
)

take_n : (n : ℕ) (x rest : Bytes) → length x ≡ n → take n (x ++ rest) ≡ x
take_n n x rest e = subst (λ m. take m (x ++ rest) ≡ x) e (take-append x rest)

drop_n : (n : ℕ) (x rest : Bytes) → length x ≡ n → drop n (x ++ rest) ≡ rest
drop_n n x rest e = subst (λ m. drop m (x ++ rest) ≡ rest) e (drop-append x rest)

-- One record at the front.
record_front :
    (e : Bytes) (n : ℕ) (rest : Bytes)
    → length e ≡ 32
    → n ≤ u64_max
    → let bytes = e ++ (be_bytes 8 n ++ rest) in
      (take 32 bytes ≡ e) × (from_be (take 8 (drop 32 bytes)) ≡ n) × (drop 40 bytes ≡ rest)
record_front e n rest he hn = (
  take_n 32 e (be_bytes 8 n ++ rest) he,
  ap (λ b. from_be (take 8 b)) (drop_n 32 e (be_bytes 8 n ++ rest) he)
      ∙ ap from_be (take_n 8 (be_bytes 8 n) rest (length-be_bytes 8 n))
      ∙ from_be-be_bytes 8 n (omega arith),
  ap (drop 40) (sym (append_assoc e (be_bytes 8 n) rest))
      ∙ drop_n 40 (e ++ be_bytes 8 n) rest
          (omega (arith, length-append e (be_bytes 8 n), length-be_bytes 8 n)),
)

-- No key of the first map is one of the second.
abbrev Apart : BTreeMap ℕ → BTreeMap ℕ → Type 0
Apart m [] = Unit {0}
Apart m (e ∷ es) = (get m e.0 ≡ none) × Apart m es

Apart-insert :
    (m : BTreeMap ℕ) (k : Bytes) (v : ℕ) (es : BTreeMap ℕ)
    → Fresh k es
    → Apart m es
    → Apart (insert m k v) es
Apart-insert m k v [] f a = tt
Apart-insert m k v ((j, w) ∷ es) f a =
    (ground (arith, get-insert m k v j, bytes_eq_iff k j, f.0, a.0), Apart-insert m k v es f.1 a.1)

Apart-nil : (es : BTreeMap ℕ) → Apart [] es
unfolding get
Apart-nil [] = tt
Apart-nil (e ∷ es) = (refl, Apart-nil es)

read_records-serialize :
    (k : Keys) (es m : BTreeMap ℕ)
    → All (IsRecord k) es
    → Distinct es
    → Apart m es
    → read_records k (length es) (serialize es) m ≡ ok (insert_all m es)
unfolding read_records serialize insert_all
read_records-serialize k [] m h d a = refl
read_records-serialize k ((e, n) ∷ es) m h d a =
    let (he, key, pos, max) = h.0 in
    let (t, f, r) = record_front e n (serialize es) he max in
    ground (
      arith,
      t,
      f,
      r,
      key,
      pos,
      a.0,
      read_records-serialize k es (insert m e n) h.1 d.1 (Apart-insert m e n es d.0 a.1),
    )

-- The file that holds the map `m` is opened as `m`.
open_bytes-serialize :
    (k : Keys) (path : Bytes) (m : BTreeMap ℕ)
    → All (IsRecord k) m
    → Sorted m
    → length m ≤ max_authorized
    → open_bytes k path (serialize m) ≡ ok (record { path = path; sequences = m })
unfolding open_bytes
open_bytes-serialize k path m h s few =
    let len = length-serialize k m h in
    let records : length (serialize m) / 40 ≡ length m = omega (arith, len) in
    let whole : length (serialize m) % 40 ≡ 0 = omega (arith, len) in
    let read : read_records k (length m) (serialize m) [] ≡ ok m =
      read_records-serialize k m [] h (Sorted-Distinct m s) (Apart-nil m)
      ∙ ap ok (insert_all-Sorted [] m s) in
    rw (records, whole, read) (ground arith)

-- What a store keeps true of its map, so that its file can be read again.
pub record IsStore (k : Keys) (w : FileWorld) : Type 0 where
  pub records : All (IsRecord k) w.store.sequences
  pub sorted : Sorted w.store.sequences
  pub few : length w.store.sequences ≤ max_authorized

-- The file of the store, as `fs::read` finds it.
unfoldable pub read_file : Option Bytes → ReadOutcome
read_file none = not_found
read_file (some bytes) = contents bytes

written :
    (k : Keys) (w : FileWorld) (e : EndpointId) (n : ℕ)
    → IsStore k w
    → IsRecord k (e, n)
    → (advance w e n).0 ≡ ok tt
    → length (insert w.store.sequences e n) ≤ max_authorized
unfolding advance persist
written k w e n v r h = elim (Option-cases (get w.store.sequences e)) [
  | inl new ↦ ground (arith, length-insert-le w.store.sequences e n, v.few)
  | inr (u, old) ↦ omega (arith, length-insert_old w.store.sequences e n u v.sorted old, v.few)
]

-- The store with one more sequence, not yet written.
abbrev extended : FileWorld → EndpointId → ℕ → FileWorld
extended w e n = record w {
  store = record { path = w.store.path; sequences = insert w.store.sequences e n };
}

advance_success :
    (w : FileWorld) (e : EndpointId) (n : ℕ)
    → (advance w e n).0 ≡ ok tt
    → ((persist (extended w e n)).0 ≡ true) × ((advance w e n).1 ≡ (persist (extended w e n)).1)
unfolding advance
advance_success w e n h = ground arith

-- The file of the store holds its map.
abbrev pub IsReadable : Keys → FileWorld → Type 0
IsReadable k w =
    IsStore k w
    × (open_store k w.store.path (read_file (HashMap.get w.disk w.store.path)) ≡ ok w.store)

persist-IsReadable :
    (k : Keys) (w : FileWorld) → IsStore k w → (persist w).0 ≡ true → IsReadable k (persist w).1
unfolding persist open_store read_file
persist-IsReadable k w v h =
    let file =
      (atomic_write_atomic w.pid w.store.path (serialize w.store.sequences) w.disk
          (next_fault w.faults)).0
        h in
    (
      record { records = v.records; sorted = v.sorted; few = v.few },
      rw file (open_bytes-serialize k w.store.path w.store.sequences v.records v.sorted v.few),
    )

-- A successful `advance` of a valid store leaves a valid store, and its file then opens as the
-- very map that the process holds, the new sequence included.
pub advance-IsReadable :
    (k : Keys) (w : FileWorld) (e : EndpointId) (n : ℕ)
    → IsStore k w
    → IsRecord k (e, n)
    → (advance w e n).0 ≡ ok tt
    → IsReadable k (advance w e n).1
advance-IsReadable k w e n v r success =
    let (done, same) = advance_success w e n success in
    subst (IsReadable k) (sym same) (persist-IsReadable k (extended w e n) valid done)
  where
    valid : IsStore k (extended w e n)
    valid = record {
      records = All-insert (IsRecord k) w.store.sequences e n r v.records;
      sorted = insert-Sorted w.store.sequences e n v.sorted;
      few = written k w e n v r success;
    }
