-- ===== src/Discovery/Registry/Receive/Gives.antt =====
-- The methods of native/iroh_discovery/src/lib.rs that succeed: what holds of the steps of a method
-- whose answer is `ok`.
use nerves_p2p.Prelude.{◌≡◌, refl, ap, Bool, true, false, Result, ok, err, arith}
use nerves_p2p.Discovery.Types.{Error}
use nerves_p2p.Discovery.Registry.{Registry, Method, after, ◌>>=◌, refuse, lift, asks, pure}

-- The method answers `ok a` and leaves the second registry.
abbrev pub Gives {ℓ} : {S : Type 0} {A : Type ℓ} → Method S A → Registry S → A → Registry S → Type ℓ
Gives m r a s = m r ≡ (ok a, s)

module _ {S : Type 0} where
  after-Gives {ℓ μ} :
      {A : Type ℓ} {B : Type μ} (m : Result A Error × Registry S) (f : A → Method S B) (b : B)
      (t : Registry S)
      → after m f ≡ (ok b, t)
      → (a : A) × (m.0 ≡ ok a) × Gives (f a) m.1 b t
  unfolding after
  after-Gives (ok a, s) f b t h = (a, refl, h)
  after-Gives (err e, s) f b t h = ground (arith, ap (λ x. x.0) h)

  pub bind-Gives {ℓ μ} :
      {A : Type ℓ} {B : Type μ} (m : Method S A) (f : A → Method S B) (r : Registry S) (b : B)
      (t : Registry S)
      → Gives (m >>= f) r b t
      → (a : A) × ((m r).0 ≡ ok a) × Gives (f a) (m r).1 b t
  unfolding ◌>>=◌
  bind-Gives m f r b t h = after-Gives (m r) f b t h

  pub lift-Gives {ℓ μ} :
      {A : Type ℓ} {B : Type μ} (m : Result A Error) (f : A → Method S B) (r : Registry S) (b : B)
      (t : Registry S)
      → Gives (lift m >>= f) r b t
      → (a : A) × (m ≡ ok a) × Gives (f a) r b t
  unfolding ◌>>=◌ lift
  lift-Gives m f r b t h = after-Gives (m, r) f b t h

  pub asks-Gives {ℓ μ} :
      {A : Type ℓ} {B : Type μ} (g : Registry S → A) (f : A → Method S B) (r : Registry S) (b : B)
      (t : Registry S)
      → Gives (asks g >>= f) r b t
      → Gives (f (g r)) r b t
  unfolding ◌>>=◌ after asks
  asks-Gives g f r b t h = h

  pub refuse-Gives {μ} :
      {B : Type μ} (c : Bool) (e : Error) (f : Unit {0} → Method S B) (r : Registry S) (b : B)
      (t : Registry S)
      → Gives (refuse c e >>= f) r b t
      → (c ≡ false) × Gives (f tt) r b t
  unfolding ◌>>=◌ after refuse
  refuse-Gives true e f r b t h = ground (arith, ap (λ x. x.0) h)
  refuse-Gives false e f r b t h = (refl, h)

  pub pure-Gives {ℓ} :
      {A : Type ℓ} (a : A) (r : Registry S) (b : A) (t : Registry S)
      → Gives (pure a) r b t
      → (a ≡ b) × (r ≡ t)
  pure-Gives a r b t h = (ground (arith, ap (λ x. x.0) h), ap (λ x. x.1) h)

  -- The other way: how a method goes on where its first step succeeds.
  pub bind-ok {ℓ μ} :
      {A : Type ℓ} {B : Type μ} (m : Method S A) (f : A → Method S B) (r : Registry S) (a : A)
      (s : Registry S)
      → Gives m r a s
      → (m >>= f) r ≡ f a s
  unfolding ◌>>=◌ after
  bind-ok m f r a s h = ap (λ x. after x f) h

  pub lift-ok {ℓ μ} :
      {A : Type ℓ} {B : Type μ} (m : Result A Error) (f : A → Method S B) (r : Registry S) (a : A)
      → m ≡ ok a
      → (lift m >>= f) r ≡ f a r
  unfolding ◌>>=◌ after lift
  lift-ok m f r a h = ap (λ x. after (x, r) f) h

  pub refuse-ok {μ} :
      {B : Type μ} (c : Bool) (e : Error) (f : Unit {0} → Method S B) (r : Registry S)
      → c ≡ false
      → (refuse c e >>= f) r ≡ f tt r
  unfolding ◌>>=◌ after refuse
  refuse-ok true e f r h = ground arith
  refuse-ok false e f r h = refl

  pub asks-ok {ℓ μ} :
      {A : Type ℓ} {B : Type μ} (g : Registry S → A) (f : A → Method S B) (r : Registry S)
      → (asks g >>= f) r ≡ f (g r) r
  unfolding ◌>>=◌ after asks
  asks-ok g f r = refl
