-- ===== src/Prelude/BTreeMap.antt =====
-- `BTreeMap` with byte-string keys: an association list in the order of the keys.
pub mod Sorted
use nerves_p2p.Prelude.Tests.{if◌then◌else◌, is_some, and-true}
use nerves_p2p.Prelude.Lists.{length, All}
use nerves_p2p.Prelude.Bytes.{Bytes, bytes_eq, bytes_eq_iff}
use nerves_p2p.Prelude.Order.{compare_bytes, compare_bytes_refl, compare_bytes_eq}
use Prim.Native.Nat.{ℕ, suc, ◌+◌, ◌≤◌, Ordering}
use mathlib.Core.Path.{◌≡◌, refl}
use mathlib.Core.Bool.{Bool, true, false}
use mathlib.Core.Option.{Option, none, some}
use mathlib.Core.List.{List, [], ◌∷◌}
use native.Mathlib.Omega.{arith}

abbrev pub BTreeMap {ℓ} : Type ℓ → Type ℓ
BTreeMap V = List (Bytes × V)

module _ {ℓ} {V : Type ℓ} where
  unfoldable pub get : BTreeMap V → Bytes → Option V
  get [] k = none
  get ((j, w) ∷ m) k = if bytes_eq j k then some w else get m k

  unfoldable pub insert : BTreeMap V → Bytes → V → BTreeMap V
  insert [] k v = (k, v) ∷ []
  insert ((j, w) ∷ m) k v = elim (compare_bytes k j) [
    | Ordering.lt ↦ (k, v) ∷ (j, w) ∷ m
    | Ordering.eq ↦ (k, v) ∷ m
    | Ordering.gt ↦ (j, w) ∷ insert m k v
  ]

  unfoldable pub remove : BTreeMap V → Bytes → BTreeMap V
  remove [] k = []
  remove ((j, w) ∷ m) k = if bytes_eq j k then m else (j, w) ∷ remove m k

  pub get-insert :
      (m : BTreeMap V) (k : Bytes) (v : V) (i : Bytes)
      → get (insert m k v) i ≡ (if bytes_eq k i then some v else get m i)
  unfolding get insert
  get-insert [] k v i = refl
  get-insert ((j, w) ∷ m) k v i = ground (
    arith,
    bytes_eq_iff k i,
    bytes_eq_iff j k,
    bytes_eq_iff j i,
    compare_bytes_eq k j,
    compare_bytes_refl k,
    get-insert m k v i,
  )

  -- Taking out a key that was not there before it was put in.
  pub remove-insert_new :
      (m : BTreeMap V) (k : Bytes) (v : V) → get m k ≡ none → remove (insert m k v) k ≡ m
  unfolding get insert remove
  remove-insert_new [] k v h = ground (arith, bytes_eq_iff k k)
  remove-insert_new ((j, w) ∷ m) k v h =
      ground
        (arith, bytes_eq_iff j k, bytes_eq_iff k k, compare_bytes_eq k j, remove-insert_new m k v)
