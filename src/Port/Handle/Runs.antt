-- ===== src/Port/Handle/Runs.antt =====
-- native/iroh_discovery/src/bin/iroh_discovery_port.rs: a handler that has succeeded, taken apart into
-- its steps.
use nerves_p2p.Prelude.{Bool, false, ◌≡◌, refl, ap, Result, ok, err, arith}
use nerves_p2p.Prelude.Bytes.{Bytes}
use nerves_p2p.Port.State.{State, Port, after, ◌>>=◌, pure, lift, refuse}

module _ {S : Type 0} where
  module _ {ℓ κ} {A : Type ℓ} {B : Type κ} {b : B} {u : State S} where
    after-eq-ok :
        (r : Result A Bytes × State S) (f : A → Port S B)
        → after r f ≡ (ok b, u)
        → (a : A) × (t : State S) × (r ≡ (ok a, t)) × (f a t ≡ (ok b, u))
    unfolding after
    after-eq-ok (ok a, t) f h = (a, t, refl, h)
    after-eq-ok (err e, t) f h = cc

    -- The first step has succeeded, and what follows it.
    pub >>=-eq-ok :
        (m : Port S A) (f : A → Port S B) (s : State S)
        → (m >>= f) s ≡ (ok b, u)
        → (a : A) × (t : State S) × (m s ≡ (ok a, t)) × (f a t ≡ (ok b, u))
    unfolding ◌>>=◌
    >>=-eq-ok m f s h = after-eq-ok (m s) f h

  pub refuse-eq-ok :
      (b : Bool) (e : Bytes) (s : State S) {t : State S} {a : Unit {0}}
      → refuse b e s ≡ (ok a, t)
      → (b ≡ false) × (t ≡ s)
  unfolding refuse
  refuse-eq-ok b e s h = ground arith

  module _ {ℓ} {A : Type ℓ} where
    pub pure-eq-ok : (a b : A) (s t : State S) → pure a s ≡ (ok b, t) → (a ≡ b) × (s ≡ t)
    unfolding pure
    pure-eq-ok a b s t h = (cc (ap (λ x. x.0) h), ap (λ x. x.1) h)

    pub lift-eq-ok :
        (r : Result A Bytes) (s t : State S) (a : A) → lift r s ≡ (ok a, t) → (r ≡ ok a) × (s ≡ t)
    unfolding lift
    lift-eq-ok r s t a h = (ap (λ x. x.0) h, ap (λ x. x.1) h)

  -- The other way: a step that succeeds is followed by the next.
  pub >>=_ok {ℓ κ} :
      {A : Type ℓ} {B : Type κ} (m : Port S A) (f : A → Port S B) (s t : State S) (a : A)
      → m s ≡ (ok a, t)
      → (m >>= f) s ≡ f a t
  unfolding ◌>>=◌ after
  >>=_ok m f s t a h = rw h refl
