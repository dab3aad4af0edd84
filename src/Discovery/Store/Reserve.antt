-- ===== src/Discovery/Store/Reserve.antt =====
-- native/iroh_discovery/src/lib.rs: one call of `reserve_next` after another, in one process and
-- after a restart over the file of the store.
use nerves_p2p.Prelude.{
  ℕ, ◌+◌, ◌≤◌, ◌<◌, ◌≡◌, refl, sym, ap, ◌∙◌, subst, true, List, [], ◌∷◌, length, Result, ok, err,
  inl, inr, Option-cases, Bool-cases, Result-cases, nat_eq, nat_eq_iff, ◌≢◌, unwrap_or, arith,
}
use nerves_p2p.Prelude.Bytes.{Eq_bytes}
use nerves_p2p.Prelude.HashMap
use nerves_p2p.Prelude.BTreeMap
use nerves_p2p.Prelude.BTreeMap.Sorted
use nerves_p2p.Discovery.Types.{Error, EndpointId, Keys, u64_max}
use nerves_p2p.Discovery.Store.{SequenceStore, StoreLaws, reserved, reserve_from, reserve_next}
use nerves_p2p.Discovery.Store.Growth.{Grows, Grows-same, Grows-trans, advance-Grows}
use nerves_p2p.Discovery.Store.File
use nerves_p2p.Discovery.Store.File.{FileWorld, file_store, open_store}
use nerves_p2p.Discovery.Store.File.Laws.{file_store-StoreLaws}
use nerves_p2p.Discovery.Store.File.Durable.{
  IsStore, IsRecord, IsReadable, read_file, advance-IsReadable,
}

-- What the users of a store do with it.
pub data Call : Type 0 where
  reserves : EndpointId → Call
  advances : EndpointId → ℕ → Call

module _ {S : Type 0} (ops : SequenceStore S) where
  unfoldable pub after_calls : List Call → S → S
  after_calls [] s = s
  after_calls (reserves e ∷ cs) s = after_calls cs (reserve_next ops s e).1
  after_calls (advances e n ∷ cs) s = after_calls cs (ops.advance s e n).1

  reserve_from-Grows :
      StoreLaws ops
      → (last : Result ℕ Error) (s : S) (e : EndpointId) → Grows ops s (reserve_from ops last s e).1
  unfolding reserve_from
  reserve_from-Grows laws (err x) s e = Grows-same ops s s refl
  reserve_from-Grows laws (ok m) s e = elim (Bool-cases (nat_eq m u64_max)) [
    | inl full ↦ rw full (Grows-same ops s s refl)
    | inr room ↦ rw room (advance-Grows ops laws s e (m + 1))
  ]

  reserve_next-Grows :
      StoreLaws ops → (s : S) (e : EndpointId) → Grows ops s (reserve_next ops s e).1
  unfolding reserve_next
  reserve_next-Grows laws s e = reserve_from-Grows laws (ops.load s e) s e

  calls-Grows : StoreLaws ops → (cs : List Call) (s : S) → Grows ops s (after_calls cs s)
  unfolding after_calls
  calls-Grows laws [] s = Grows-same ops s s refl
  calls-Grows laws (reserves e ∷ cs) s =
      let t = (reserve_next ops s e).1 in
      Grows-trans ops s t (after_calls cs t) (reserve_next-Grows laws s e) (calls-Grows laws cs t)
  calls-Grows laws (advances e n ∷ cs) s =
      let t = (ops.advance s e n).1 in
      Grows-trans ops s t (after_calls cs t) (advance-Grows ops laws s e n) (calls-Grows laws cs t)

  reserve_from-ok :
      (m : ℕ) (s : S) (e : EndpointId) (n : ℕ)
      → (reserve_from ops (ok m) s e).0 ≡ ok n
      → (n ≡ m + 1)
        × ((ops.advance s e (m + 1)).0 ≡ ok tt)
        × ((reserve_from ops (ok m) s e).1 ≡ (ops.advance s e (m + 1)).1)
        × (m ≢ u64_max)
  unfolding reserve_from reserved
  reserve_from-ok m s e n h = elim (Bool-cases (nat_eq m u64_max)) [
    | inl full ↦ ground (arith, full)
    | inr room ↦ elim (Result-cases (ops.advance s e (m + 1)).0) [
      | inl (u, accepted) ↦ (
        ground (arith, room, accepted),
        accepted,
        rw room refl,
        (λ same. ground (arith, room, same, nat_eq_iff m u64_max)),
      )
      | inr (x, failure) ↦ ground (arith, room, failure)
    ]
  ]

  reserve_next-ok :
      (s : S) (e : EndpointId) (m n : ℕ)
      → ops.load s e ≡ ok m
      → (reserve_next ops s e).0 ≡ ok n
      → (n ≡ m + 1)
        × ((ops.advance s e (m + 1)).0 ≡ ok tt)
        × ((reserve_next ops s e).1 ≡ (ops.advance s e (m + 1)).1)
        × (m ≢ u64_max)
  unfolding reserve_next
  reserve_next-ok s e m n l h =
      subst
        (λ r.
          (reserve_from ops r s e).0 ≡ ok n
          → (n ≡ m + 1)
            × ((ops.advance s e (m + 1)).0 ≡ ok tt)
            × ((reserve_from ops r s e).1 ≡ (ops.advance s e (m + 1)).1)
            × (m ≢ u64_max))
        (sym l) (reserve_from-ok m s e n) h

  reserve_next-load :
      StoreLaws ops
      → (s : S) (e : EndpointId) (m n : ℕ) → ops.load s e ≡ ok m
      → (reserve_next ops s e).0 ≡ ok n
      → (n ≡ m + 1) × (ops.load (reserve_next ops s e).1 e ≡ ok n)
  reserve_next-load laws s e m n l h =
      let (next, accepted, moved, room) = reserve_next-ok s e m n l h in
      (next, ap (λ t. ops.load t e) moved ∙ laws.stored s e (m + 1) accepted ∙ ap ok (sym next))

  -- Over any lawful store, a reserved sequence is below every one that is reserved later for the
  -- endpoint, whatever calls on the store lie between.
  pub reserve_next-increases :
      StoreLaws ops
      → (s : S) (e : EndpointId) (m n : ℕ) (cs : List Call) → (reserve_next ops s e).0 ≡ ok m
      → (reserve_next ops (after_calls cs (reserve_next ops s e).1) e).0 ≡ ok n
      → m < n
  reserve_next-increases laws s e m n cs first second =
      let t = (reserve_next ops s e).1 in
      let u = after_calls cs t in
      let (p, before) = laws.readable s e in
      let one = reserve_next-load laws s e p m before first in
      let (q, held, grown) = calls-Grows laws cs t e m one.1 in
      let two = reserve_next-load laws u e q n held second in omega (arith, two.0, grown)

-- The sequences of a valid file store fit a u64.
load-IsStore :
    (k : Keys) (w : FileWorld) (e : EndpointId) (m : ℕ)
    → IsStore k w
    → File.load w e ≡ ok m
    → m ≤ u64_max
unfolding File.load
load-IsStore k w e m v l = elim (Option-cases (BTreeMap.get w.store.sequences e)) [
  | inl absent ↦ ground (arith, absent)
  | inr (n, found) ↦
      let (size, key, positive, fits) =
        Sorted.All-get (IsRecord k) w.store.sequences e n v.records found in
      ground (arith, found, fits)
]

-- A sequence that a valid file store reserves is in its file when it is returned: the file then
-- opens as the very map that the process holds.
reserve_next-IsReadable :
    (k : Keys) (w : FileWorld) (e : EndpointId) (n : ℕ)
    → IsStore k w
    → length e ≡ 32
    → k.is_endpoint e ≡ true
    → (reserve_next file_store w e).0 ≡ ok n
    → IsReadable k (reserve_next file_store w e).1
reserve_next-IsReadable k w e n v size key h =
    let (m, l) = file_store-StoreLaws.readable w e in
    let (next, accepted, moved, room) = reserve_next-ok file_store w e m n l h in
    let fits = load-IsStore k w e m v l in
    subst (IsReadable k) (sym moved) (
      advance-IsReadable k w e (m + 1) v (size, key, omega arith, omega (arith, fits, room))
        accepted)

-- The program stops after a reservation, for an endpoint that is a key of 32 bytes, over a valid file
-- store, whatever fails in the write, and starts again: the store that it opens from the file then
-- reserves a larger sequence for the endpoint.
pub reserve_next-open_store :
    (k : Keys) (w w' : FileWorld) (e : EndpointId) (m n : ℕ)
    → IsStore k w
    → length e ≡ 32
    → k.is_endpoint e ≡ true
    → (reserve_next file_store w e).0 ≡ ok m
    → open_store k (reserve_next file_store w e).1.store.path (
        read_file (
          HashMap.get
            (reserve_next file_store w e).1.disk
            (reserve_next file_store w e).1.store.path))
      ≡ ok w'.store
    → (reserve_next file_store w' e).0 ≡ ok n
    → m < n
unfolding File.load
reserve_next-open_store k w w' e m n v size key first opened second =
    let t = (reserve_next file_store w e).1 in
    let (p, l) = file_store-StoreLaws.readable w e in
    let (next, held) = reserve_next-load file_store file_store-StoreLaws w e p m l first in
    let same : t.store ≡ w'.store =
      ground (arith, (reserve_next-IsReadable k w e m v size key first).1, opened) in
    let held' : File.load w' e ≡ ok m =
      ap (λ x. ok (unwrap_or (BTreeMap.get x.sequences e) 0)) (sym same) ∙ held in
    let two = reserve_next-load file_store file_store-StoreLaws w' e m n held' second in
    omega (arith, two.0)
