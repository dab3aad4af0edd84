-- ===== src/Discovery/Store.antt =====
-- native/iroh_discovery/src/lib.rs: the trait `SequenceStore`, its two implementations, and
-- `reserve_next`. A method on `&mut self` returns its result with the store that it leaves.
pub mod Memory
pub mod File
pub mod Growth
pub mod Reserve
use nerves_p2p.Prelude.{
  ℕ, suc, ◌+◌, ◌<◌, ◌≤◌, refl, arith, inl, inr, ◌≡◌, ◌≢◌, Result, ok, err, nat_eq, if◌then◌else◌,
  Result-cases,
}
use nerves_p2p.Discovery.Types.{Error, EndpointId, u64_max}

pub record SequenceStore (S : Type 0) : Type 0 where
  pub load : S → EndpointId → Result ℕ Error
  pub advance : S → EndpointId → ℕ → Result (Unit {0}) Error × S

-- What every implementation promises: a success stores a number above the one before it, a failure
-- stores nothing, and no other endpoint is touched.
pub record StoreLaws {S : Type 0} (ops : SequenceStore S) : Type 0 where
  pub grows :
      (s : S) (e : EndpointId) (n m : ℕ)
      → (ops.advance s e n).0 ≡ ok tt
      → ops.load s e ≡ ok m
      → m < n
  pub stored :
      (s : S) (e : EndpointId) (n : ℕ)
      → (ops.advance s e n).0 ≡ ok tt
      → ops.load (ops.advance s e n).1 e ≡ ok n
  pub others :
      (s : S) (e i : EndpointId) (n : ℕ) → e ≢ i → ops.load (ops.advance s e n).1 i ≡ ops.load s i
  pub refused :
      (s : S) (e : EndpointId) (n : ℕ) (x : Error)
      → (ops.advance s e n).0 ≡ err x
      → ops.load (ops.advance s e n).1 e ≡ ops.load s e
  pub readable : (s : S) (e : EndpointId) → (n : ℕ) × (ops.load s e ≡ ok n)

reserved : Result (Unit {0}) Error → ℕ → Result ℕ Error
reserved (ok _) n = ok n
reserved (err x) n = err x

module _ {S : Type 0} (ops : SequenceStore S) where
  reserve_from : Result ℕ Error → S → EndpointId → Result ℕ Error × S
  unfolding reserved
  reserve_from (err x) s e = (err x, s)
  reserve_from (ok m) s e =
      if nat_eq m u64_max
      then (err Error.invalid_record, s)
      else (reserved (ops.advance s e (m + 1)).0 (m + 1), (ops.advance s e (m + 1)).1)

  -- `load`, then `checked_add(1)`, then `advance`.
  unfoldable pub reserve_next : S → EndpointId → Result ℕ Error × S
  unfolding reserve_from
  reserve_next s e = reserve_from (ops.load s e) s e

  -- Over any lawful store, a reserved sequence is one above the last, fits a u64, and is stored
  -- before it is returned. The last fits a u64.
  pub reserve_next-stored :
      StoreLaws ops
      → (s : S) (e : EndpointId) (m n : ℕ) → ops.load s e ≡ ok m
      → m ≤ u64_max
      → (reserve_next s e).0 ≡ ok n
      → (n ≡ m + 1) × (n ≤ u64_max) × (ops.load (reserve_next s e).1 e ≡ ok n)
  unfolding reserve_next
  reserve_next-stored laws s e m n l b h = ground (arith, l, laws.stored s e (m + 1))
