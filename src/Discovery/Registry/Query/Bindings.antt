-- ===== src/Discovery/Registry/Query/Bindings.antt =====
-- native/iroh_discovery/src/lib.rs: `bindings`, and the records whose time is over.
use nerves_p2p.Prelude.{ℕ, ◌<◌, [], ◌∷◌, map, All, inl, inr, Bool-cases, arith}
use nerves_p2p.Prelude.Bytes.{Eq_bytes}
use nerves_p2p.Prelude.HashMap.{HashMap}
use nerves_p2p.Discovery.Types.{EndpointId}
use nerves_p2p.Discovery.Registry.{Registry, ActiveRecord}
use nerves_p2p.Discovery.Registry.Query.{is_live, retain_live, values, binding_of, expire, bindings}

retain_live-All :
    (now : ℕ) (m : HashMap EndpointId ActiveRecord)
    → All (λ b. 0 < b.2) (map (binding_of now) (values (retain_live now m)))
unfolding retain_live values binding_of is_live
retain_live-All now [] = tt
retain_live-All now ((e, r) ∷ m) = elim (Bool-cases (is_live now r)) [
  | inl live ↦ rw live (ground (arith, live), retain_live-All now m)
  | inr over ↦ rw over (retain_live-All now m)
]

-- Every binding that is answered has time left: what the distribution is told of has not expired.
pub bindings-All : {S : Type 0} (r : Registry S) (now : ℕ) → All (λ b. 0 < b.2) (bindings r now).0
unfolding bindings expire
bindings-All r now = retain_live-All now r.records
