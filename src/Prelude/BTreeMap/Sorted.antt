-- ===== src/Prelude/BTreeMap/Sorted.antt =====
-- Maps whose keys stand in increasing order, as those of a `BTreeMap` do.
use nerves_p2p.Prelude.Tests.{if◌then◌else◌, Bool-cases}
use nerves_p2p.Prelude.Lists.{length, All}
use nerves_p2p.Prelude.Bytes.{Bytes, bytes_eq, bytes_eq_iff}
use nerves_p2p.Prelude.Order.{
  compare_bytes, compare_bytes_refl, compare_bytes_eq, compare_bytes_flip, compare_bytes_unflip,
  compare_bytes_trans,
}
use nerves_p2p.Prelude.BTreeMap.{BTreeMap, get, insert, remove}
use Prim.Native.Nat.{suc, ◌≤◌, Ordering}
use mathlib.Core.Path.{◌≡◌, refl, ap, sym, subst, subst₂, ◌∙◌}
use mathlib.Core.Logic.{◌≢◌, inl, inr}
use mathlib.Core.Option.{none, some}
use mathlib.Core.List.{List, [], ◌∷◌, ◌++◌, append-nil, append_assoc}
use native.Mathlib.Omega.{arith}

module _ {ℓ} {V : Type ℓ} where
  -- Every key of the map comes after `k`.
  abbrev pub Above : Bytes → BTreeMap V → Type 0
  Above k [] = Unit {0}
  Above k (e ∷ m) = (compare_bytes k e.0 ≡ Ordering.lt) × Above k m

  abbrev pub Sorted : BTreeMap V → Type 0
  Sorted [] = Unit {0}
  Sorted (e ∷ m) = Above e.0 m × Sorted m

  -- No key of the map is `k`.
  abbrev pub Fresh : Bytes → BTreeMap V → Type 0
  Fresh k [] = Unit {0}
  Fresh k (e ∷ m) = (k ≢ e.0) × Fresh k m

  abbrev pub Distinct : BTreeMap V → Type 0
  Distinct [] = Unit {0}
  Distinct (e ∷ m) = Fresh e.0 m × Distinct m

  -- The entries of a list, inserted in turn.
  unfoldable pub insert_all : BTreeMap V → List (Bytes × V) → BTreeMap V
  insert_all m [] = m
  insert_all m (e ∷ es) = insert_all (insert m e.0 e.1) es

  Above-Fresh : (k : Bytes) (m : BTreeMap V) → Above k m → Fresh k m
  Above-Fresh k [] h = tt
  Above-Fresh k ((j, w) ∷ m) h =
      ((λ e. ground (arith, e, h.0, compare_bytes_refl k)), Above-Fresh k m h.1)

  pub Sorted-Distinct : (m : BTreeMap V) → Sorted m → Distinct m
  Sorted-Distinct [] h = tt
  Sorted-Distinct (e ∷ m) h = (Above-Fresh e.0 m h.0, Sorted-Distinct m h.1)

  Above-trans :
      (j k : Bytes) (m : BTreeMap V) → compare_bytes j k ≡ Ordering.lt → Above k m → Above j m
  Above-trans j k [] h a = tt
  Above-trans j k (e ∷ m) h a = (compare_bytes_trans j k e.0 h a.0, Above-trans j k m h a.1)

  Above-insert :
      (j k : Bytes) (v : V) (m : BTreeMap V)
      → compare_bytes j k ≡ Ordering.lt
      → Above j m
      → Above j (insert m k v)
  unfolding insert
  Above-insert j k v [] h a = (h, tt)
  Above-insert j k v ((i, w) ∷ m) h a = ground (arith, Above-insert j k v m h a.1)

  -- `insert` keeps the order of the keys.
  pub insert-Sorted : (m : BTreeMap V) (k : Bytes) (v : V) → Sorted m → Sorted (insert m k v)
  unfolding insert
  insert-Sorted [] k v s = (tt, tt)
  insert-Sorted ((i, w) ∷ m) k v s = ground (
    arith,
    Above-trans k i m,
    compare_bytes_eq k i,
    compare_bytes_unflip k i,
    Above-insert i k v m,
    insert-Sorted m k v s.1,
  )

  insert_comm :
      (m : BTreeMap V) (j k : Bytes) (v w : V)
      → j ≢ k
      → insert (insert m j v) k w ≡ insert (insert m k w) j v
  unfolding insert
  insert_comm [] j k v w ne = ground (
    arith,
    compare_bytes_eq k j,
    compare_bytes_eq j k,
    compare_bytes_flip j k,
    compare_bytes_unflip j k,
    compare_bytes_flip k j,
    compare_bytes_unflip k j,
  )
  insert_comm ((i, u) ∷ m) j k v w ne = ground (
    arith,
    compare_bytes_eq j i,
    compare_bytes_eq k i,
    compare_bytes_eq j k,
    compare_bytes_eq k j,
    compare_bytes_flip j i,
    compare_bytes_unflip j i,
    compare_bytes_flip k i,
    compare_bytes_unflip k i,
    compare_bytes_flip j k,
    compare_bytes_unflip j k,
    compare_bytes_flip k j,
    compare_bytes_unflip k j,
    compare_bytes_trans j k i,
    compare_bytes_trans k j i,
    compare_bytes_trans j i k,
    compare_bytes_trans k i j,
    insert_comm m j k v w ne,
  )

  -- Moving an entry to another place of the list inserts the same map.
  pub insert_all_comm :
      (m : BTreeMap V) (d e : Bytes × V) (es : List (Bytes × V))
      → d.0 ≢ e.0
      → insert_all m (d ∷ e ∷ es) ≡ insert_all m (e ∷ d ∷ es)
  unfolding insert_all
  insert_all_comm m d e es ne = ap (λ n. insert_all n es) (insert_comm m d.0 e.0 d.1 e.1 ne)

  Above-middle :
      (j : Bytes) (m : BTreeMap V) (e : Bytes × V) (es : List (Bytes × V))
      → Above j (m ++ (e ∷ es))
      → compare_bytes j e.0 ≡ Ordering.lt
  Above-middle j [] e es a = a.0
  Above-middle j (d ∷ m) e es a = Above-middle j m e es a.1

  insert_last :
      (m : BTreeMap V) (k : Bytes) (v : V) (es : List (Bytes × V))
      → Sorted (m ++ ((k, v) ∷ es))
      → insert m k v ≡ m ++ ((k, v) ∷ [])
  unfolding insert
  insert_last [] k v es s = refl
  insert_last ((j, w) ∷ m) k v es s =
      rw (compare_bytes_flip j k (Above-middle j m (k, v) es s.0), insert)
        (ap (◌∷◌ (j, w)) (insert_last m k v es s.1))

  -- A list in order is the map that its entries make.
  pub insert_all-Sorted :
      (m : BTreeMap V) (es : List (Bytes × V)) → Sorted (m ++ es) → insert_all m es ≡ m ++ es
  unfolding insert_all
  insert_all-Sorted m [] s = sym (append-nil m)
  insert_all-Sorted m ((k, v) ∷ es) s =
      ap (λ n. insert_all n es) (insert_last m k v es s)
      ∙ insert_all-Sorted (m ++ ((k, v) ∷ [])) es (subst Sorted (sym shift) s)
      ∙ shift
    where
      shift : (m ++ ((k, v) ∷ [])) ++ es ≡ m ++ ((k, v) ∷ es)
      shift = append_assoc m ((k, v) ∷ []) es

  Fresh-get : (k : Bytes) (m : BTreeMap V) → Fresh k m → get m k ≡ none
  unfolding get
  Fresh-get k [] f = refl
  Fresh-get k ((j, w) ∷ m) f = ground (arith, bytes_eq_iff j k, f.0, Fresh-get k m f.1)

  Above-get : (k : Bytes) (m : BTreeMap V) → Above k m → get m k ≡ none
  Above-get k m a = Fresh-get k m (Above-Fresh k m a)

  -- A key that is there keeps its place, and a new one adds an entry.
  pub length-insert_old :
      (m : BTreeMap V) (k : Bytes) (v w : V)
      → Sorted m
      → get m k ≡ some w
      → length (insert m k v) ≡ length m
  unfolding get insert
  length-insert_old [] k v w s h = cc
  length-insert_old ((j, u) ∷ m) k v w s h = ground (
    arith,
    bytes_eq_iff j k,
    compare_bytes_refl k,
    Above-get k m,
    Above-trans k j m,
    length-insert_old m k v w s.1,
  )

  pub length-insert-le :
      (m : BTreeMap V) (k : Bytes) (v : V) → length (insert m k v) ≤ suc (length m)
  unfolding insert
  length-insert-le [] k v = omega arith
  length-insert-le ((j, u) ∷ m) k v = ground (arith, length-insert-le m k v)

  pub All-insert {κ} :
      (P : Bytes × V → Type κ) (m : BTreeMap V) (k : Bytes) (v : V)
      → P (k, v)
      → All P m
      → All P (insert m k v)
  unfolding insert
  All-insert P [] k v h hs = (h, tt)
  All-insert P ((j, u) ∷ m) k v h hs =
      elim (compare_bytes k j)
        as (λ o. All P (elim o [
          | Ordering.lt ↦ (k, v) ∷ (j, u) ∷ m
          | Ordering.eq ↦ (k, v) ∷ m
          | Ordering.gt ↦ (j, u) ∷ insert m k v
        ])) [
          | Ordering.lt ↦ (h, hs)
          | Ordering.eq ↦ (h, hs.1)
          | Ordering.gt ↦ (hs.0, All-insert P m k v h hs.1)
        ]

  pub All-get {κ} :
      (P : Bytes × V → Type κ) (m : BTreeMap V) (k : Bytes) (v : V)
      → All P m
      → get m k ≡ some v
      → P (k, v)
  unfolding get
  All-get P [] k v hs h = cc
  All-get P ((j, u) ∷ m) k v hs h = elim (Bool-cases (bytes_eq j k)) [
    | inl same ↦
        let value : u ≡ v = ground arith in
        subst₂ (λ a b. P (a, b)) ((bytes_eq_iff j k).0 same) value hs.0
    | inr other ↦ All-get P m k v hs.1 (rw other at h)
  ]

  pub All-remove {κ} :
      (P : Bytes × V → Type κ) (m : BTreeMap V) (k : Bytes) → All P m → All P (remove m k)
  unfolding remove
  All-remove P [] k hs = tt
  All-remove P ((j, u) ∷ m) k hs = elim (Bool-cases (bytes_eq j k)) [
    | inl same ↦ rw same hs.1
    | inr other ↦ rw other (hs.0, All-remove P m k hs.1)
  ]

  Above-remove : (j k : Bytes) (m : BTreeMap V) → Above j m → Above j (remove m k)
  unfolding remove
  Above-remove j k [] a = tt
  Above-remove j k ((i, u) ∷ m) a = ground (arith, Above-remove j k m a.1)

  pub remove-Sorted : (m : BTreeMap V) (k : Bytes) → Sorted m → Sorted (remove m k)
  unfolding remove
  remove-Sorted [] k s = tt
  remove-Sorted ((j, u) ∷ m) k s = ground (arith, Above-remove j k m s.0, remove-Sorted m k s.1)

  pub length-remove-le : (m : BTreeMap V) (k : Bytes) → length (remove m k) ≤ length m
  unfolding remove
  length-remove-le [] k = omega arith
  length-remove-le ((j, u) ∷ m) k = ground (arith, length-remove-le m k)

  pub insert_all-Sorted_onto :
      (m : BTreeMap V) (es : List (Bytes × V)) → Sorted m → Sorted (insert_all m es)
  unfolding insert_all
  insert_all-Sorted_onto m [] s = s
  insert_all-Sorted_onto m (e ∷ es) s =
      insert_all-Sorted_onto (insert m e.0 e.1) es (insert-Sorted m e.0 e.1 s)

  -- In a sorted map a key that is taken out is gone, and the others stay.
  pub get-remove :
      (m : BTreeMap V) (k i : Bytes)
      → Sorted m
      → get (remove m k) i ≡ (if bytes_eq k i then none else get m i)
  unfolding get remove
  get-remove [] k i s = ground arith
  get-remove ((j, w) ∷ m) k i s = ground (
    arith,
    bytes_eq_iff k i,
    bytes_eq_iff j k,
    bytes_eq_iff j i,
    Above-get k m,
    get-remove m k i s.1,
  )
