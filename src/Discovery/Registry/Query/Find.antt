-- ===== src/Discovery/Registry/Query/Find.antt =====
-- native/iroh_discovery/src/lib.rs: what `find` answers, and in which order.
use nerves_p2p.Prelude.{ℕ, suc, ◌≡◌, Bool, false, ◌&&◌, List, [], ◌∷◌, map, if◌then◌else◌, Result}
use nerves_p2p.Prelude.Order.{is_less}
use nerves_p2p.Prelude.HashMap.{HashMap}
use nerves_p2p.Discovery.Types.{Error, Predicate, Peer}
use nerves_p2p.Discovery.Registry.{Registry, ActiveRecord}
use nerves_p2p.Discovery.Registry.Query.{
  compare_records, is_live, values, is_match, peer_of, non_empty,
}

-- How many entries pass the test.
abbrev pub count {ℓ} : {A : Type ℓ} → (A → Bool) → List A → ℕ
count p [] = 0
count p (x ∷ xs) = if p x then suc (count p xs) else count p xs

abbrev better : ActiveRecord → ActiveRecord → Bool
better r s = is_less (compare_records r.announcement s.announcement)

-- No record is strictly better than the one before it.
abbrev pub Ordered : List ActiveRecord → Type 0
Ordered [] = Unit {0}
Ordered (r ∷ []) = Unit {0}
Ordered (r ∷ s ∷ ss) =
    (is_less (compare_records s.announcement r.announcement) ≡ false) × Ordered (s ∷ ss)

-- The answer of `find`: the peers of some records, none of which is strictly better than the one
-- before it, and which are, as often as they occur, the records that match and are live.
pub record IsAnswer {S : Type 0} (r : Registry S) (predicates : List Predicate) (now : ℕ)
    (answer : Result (List Peer) Error) : Type 0 where
  pub chosen : List ActiveRecord
  pub answered : answer ≡ non_empty (map peer_of chosen)
  pub ordered : Ordered chosen
  pub counted :
      (p : ActiveRecord → Bool)
      → count p chosen
        ≡ count (λ x. (p x && is_match predicates x) && is_live now x) (values r.records)
