-- ===== src/Prelude/HashMap.antt =====
-- `HashMap` as an association list, in whatever order the table gives. Theorems over it range
-- over every list, so over every order.
use nerves_p2p.Prelude.Tests.{Eq, ◌==◌, if◌then◌else◌, Bool-cases}
use mathlib.Core.Path.{◌≡◌, refl, subst}
use mathlib.Core.Logic.{inl, inr}
use mathlib.Core.Bool.{Bool, true}
use mathlib.Core.Option.{Option, none, some}
use mathlib.Core.List.{List, [], ◌∷◌}
use nerves_p2p.Prelude.Lists.{length, All}
use Prim.Native.Nat.{◌+◌, ◌≤◌}
use native.Mathlib.Omega.{arith}

abbrev pub HashMap {ℓ κ} : Type ℓ → Type κ → Type (ℓ ⊔ κ)
HashMap K V = List (K × V)

module _ {ℓ κ} {K : Type ℓ} {V : Type κ} ⦃e : Eq K⦄ where
  unfoldable pub get : HashMap K V → K → Option V
  get [] k = none
  get ((j, w) ∷ m) k = if j == k then some w else get m k

  unfoldable pub insert : HashMap K V → K → V → HashMap K V
  insert [] k v = (k, v) ∷ []
  insert ((j, w) ∷ m) k v = if j == k then (k, v) ∷ m else (j, w) ∷ insert m k v

  unfoldable pub remove : HashMap K V → K → HashMap K V
  remove [] k = []
  remove ((j, w) ∷ m) k = if j == k then remove m k else (j, w) ∷ remove m k

  pub get-insert :
      (m : HashMap K V) (k : K) (v : V) (i : K)
      → get (insert m k v) i ≡ (if k == i then some v else get m i)
  unfolding get insert
  get-insert [] k v i = refl
  get-insert ((j, w) ∷ m) k v i =
      ground (arith, e.agrees_iff k i, e.agrees_iff j k, e.agrees_iff j i, get-insert m k v i)

  pub get-remove :
      (m : HashMap K V) (k i : K) → get (remove m k) i ≡ (if k == i then none else get m i)
  unfolding get remove
  get-remove [] k i = ground arith
  get-remove ((j, w) ∷ m) k i =
      ground (arith, e.agrees_iff k i, e.agrees_iff j k, e.agrees_iff j i, get-remove m k i)

  pub length-insert : (m : HashMap K V) (k : K) (v : V) → length (insert m k v) ≤ length m + 1
  unfolding insert
  length-insert [] k v = omega arith
  length-insert ((j, w) ∷ m) k v = ground (arith, length-insert m k v)

  pub length-remove : (m : HashMap K V) (k : K) → length (remove m k) ≤ length m
  unfolding remove
  length-remove [] k = omega arith
  length-remove ((j, w) ∷ m) k = ground (arith, length-remove m k)

  module _ {μ} (P : K × V → Type μ) where
    pub All-insert : (m : HashMap K V) (k : K) (v : V) → P (k, v) → All P m → All P (insert m k v)
    unfolding insert
    All-insert [] k v p h = (p, tt)
    All-insert ((j, w) ∷ m) k v p h = elim (Bool-cases (j == k)) [
      | inl same ↦ rw same (p, h.1)
      | inr other ↦ rw other (h.0, All-insert m k v p h.1)
    ]

    pub All-remove : (m : HashMap K V) (k : K) → All P m → All P (remove m k)
    unfolding remove
    All-remove [] k h = tt
    All-remove ((j, w) ∷ m) k h = elim (Bool-cases (j == k)) [
      | inl same ↦ rw same (All-remove m k h.1)
      | inr other ↦ rw other (h.0, All-remove m k h.1)
    ]

    -- What is found is an entry, under the very key.
    pub All-get : (m : HashMap K V) (k : K) {v : V} → All P m → get m k ≡ some v → P (k, v)
    unfolding get
    All-get [] k {v} h g = cc
    All-get ((j, w) ∷ m) k {v} h g = elim (Bool-cases (j == k)) [
      | inl same ↦
          let at : j ≡ k = (e.agrees_iff j k).0 same in
          let found : some w ≡ some v = rw same at g in subst P (cc) h.0
      | inr other ↦ All-get m k h.1 (rw other at g)
    ]

  -- No key stands twice.
  abbrev pub Distinct : HashMap K V → Type κ
  Distinct [] = Unit {κ}
  Distinct ((k, w) ∷ m) = (get m k ≡ none) × Distinct m

  pub insert-Distinct : (m : HashMap K V) (k : K) (v : V) → Distinct m → Distinct (insert m k v)
  unfolding insert get
  insert-Distinct [] k v h = (refl, tt)
  insert-Distinct ((j, w) ∷ m) k v h = elim (Bool-cases (j == k)) [
    | inl same ↦ rw same (rw (← (e.agrees_iff j k).0 same) h.0, h.1)
    | inr other ↦ rw other (
      ground (arith, get-insert m k v j, e.agrees_iff k j, e.agrees_iff j k),
      insert-Distinct m k v h.1,
    )
  ]

  pub remove-Distinct : (m : HashMap K V) (k : K) → Distinct m → Distinct (remove m k)
  unfolding remove get
  remove-Distinct [] k h = tt
  remove-Distinct ((j, w) ∷ m) k h = elim (Bool-cases (j == k)) [
    | inl same ↦ rw same (remove-Distinct m k h.1)
    | inr other ↦ rw other (ground (arith, get-remove m k j), remove-Distinct m k h.1)
  ]

  module _ (p : K → V → Bool) where
    unfoldable pub retain : HashMap K V → HashMap K V
    retain [] = []
    retain ((k, v) ∷ m) = if p k v then (k, v) ∷ retain m else retain m

    pub length-retain : (m : HashMap K V) → length (retain m) ≤ length m
    unfolding retain
    length-retain [] = omega arith
    length-retain ((k, v) ∷ m) = ground (arith, length-retain m)

    pub All-retain {μ} : (P : K × V → Type μ) (m : HashMap K V) → All P m → All P (retain m)
    unfolding retain
    All-retain P [] h = tt
    All-retain P ((k, v) ∷ m) h = elim (Bool-cases (p k v)) [
      | inl kept ↦ rw kept (h.0, All-retain P m h.1)
      | inr left ↦ rw left (All-retain P m h.1)
    ]

    -- Every entry that is kept passes the test.
    pub retain-All : (m : HashMap K V) → All (λ e. p e.0 e.1 ≡ true) (retain m)
    unfolding retain
    retain-All [] = tt
    retain-All ((k, v) ∷ m) = elim (Bool-cases (p k v)) [
      | inl kept ↦ rw kept (kept, retain-All m)
      | inr left ↦ rw left (retain-All m)
    ]

    pub get-retain-none : (m : HashMap K V) (k : K) → get m k ≡ none → get (retain m) k ≡ none
    unfolding retain get
    get-retain-none [] k h = refl
    get-retain-none ((j, w) ∷ m) k h = ground (arith, get-retain-none m k)

    pub get-retain-some :
        (m : HashMap K V) (k : K) (v : V)
        → get m k ≡ some v
        → p k v ≡ true
        → get (retain m) k ≡ some v
    unfolding retain get
    get-retain-some [] k v h kept = cc
    get-retain-some ((j, w) ∷ m) k v h kept =
        ground (arith, e.agrees_iff j k, get-retain-some m k v)

    pub retain-Distinct : (m : HashMap K V) → Distinct m → Distinct (retain m)
    unfolding retain
    retain-Distinct [] h = tt
    retain-Distinct ((k, v) ∷ m) h = elim (Bool-cases (p k v)) [
      | inl kept ↦ rw kept (get-retain-none m k h.0, retain-Distinct m h.1)
      | inr left ↦ rw left (retain-Distinct m h.1)
    ]
