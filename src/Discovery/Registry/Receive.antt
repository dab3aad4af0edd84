-- ===== src/Discovery/Registry/Receive.antt =====
-- How the methods of native/iroh_discovery/src/lib.rs change the registry: what holds of a relation
-- between the registry before and the one after, for the operators that methods are built with.
pub mod Growth
pub mod Gives
pub mod Steps
pub mod Accepted
pub mod Replay
pub mod Strict
pub mod Refusal
pub mod Stored
pub mod Ledger
pub mod Delivery
use nerves_p2p.Prelude.{
  ◌≡◌, refl, Bool, true, false, inl, inr, Result, ok, err, Result-cases, Bool-cases,
}
use nerves_p2p.Discovery.Types.{Error}
use nerves_p2p.Discovery.Registry.{Registry, Method, after, ◌>>=◌, refuse, when, lift, asks}

-- What a method does to the registry, whatever it answers.
pub record Moves {ℓ κ} {S : Type 0} {A : Type ℓ} (R : Registry S → Registry S → Type κ)
    (m : Method S A) : Type κ where
  pub moves : (r : Registry S) → R r (m r).1

-- Such a relation that holds over nothing and over one thing after another.
pub record Preorder {κ} {S : Type 0} (R : Registry S → Registry S → Type κ) : Type κ where
  pub stay : (r : Registry S) → R r r
  pub go : (r s t : Registry S) → R r s → R s t → R r t

module _ {κ} {S : Type 0} {R : Registry S → Registry S → Type κ} (p : Preorder R) where
  after-Moves {ℓ μ} :
      {A : Type ℓ} {B : Type μ} (r : Registry S) (m : Result A Error × Registry S)
      (f : A → Method S B)
      → R r m.1
      → ((a : A) → m.0 ≡ ok a → Moves R (f a))
      → R r (after m f).1
  unfolding after
  after-Moves r (ok a, s) f h k = p.go r s (f a s).1 h ((k a refl).moves s)
  after-Moves r (err e, s) f h k = h

  pub pure-Moves {ℓ} : {A : Type ℓ} (m : Result A Error) → Moves R (lift m)
  unfolding lift
  pure-Moves m = record { moves = p.stay }

  pub bind-Moves {ℓ μ} :
      {A : Type ℓ} {B : Type μ} (m : Method S A) (f : A → Method S B)
      → Moves R m
      → ((a : A) → Moves R (f a))
      → Moves R (m >>= f)
  unfolding ◌>>=◌
  bind-Moves m f h k = record { moves = λ r. after-Moves r (m r) f (h.moves r) (λ a _. k a) }

  -- What a method without effect answers may be used in the rest.
  pub lift-Moves {ℓ μ} :
      {A : Type ℓ} {B : Type μ} (m : Result A Error) (f : A → Method S B)
      → ((a : A) → m ≡ ok a → Moves R (f a))
      → Moves R (lift m >>= f)
  unfolding ◌>>=◌ lift
  lift-Moves m f k = record { moves = λ r. after-Moves r (m, r) f (p.stay r) k }

  pub asks-Moves {ℓ μ} :
      {A : Type ℓ} {B : Type μ} (g : Registry S → A) (f : A → Method S B)
      → ((a : A) → Moves R (f a))
      → Moves R (asks g >>= f)
  unfolding ◌>>=◌ after asks
  asks-Moves g f k = record { moves = λ r. (k (g r)).moves r }

  pub refuse-Moves {μ} :
      {B : Type μ} (b : Bool) (e : Error) (f : Unit {0} → Method S B)
      → (b ≡ false → Moves R (f tt))
      → Moves R (refuse b e >>= f)
  unfolding ◌>>=◌ after refuse
  refuse-Moves true e f k = record { moves = p.stay }
  refuse-Moves false e f k = k refl

  pub when-Moves : (b : Bool) (m : Method S (Unit {0})) → Moves R m → Moves R (when b m)
  unfolding when
  when-Moves true m h = h
  when-Moves false m h = record { moves = p.stay }
