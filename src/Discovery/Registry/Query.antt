-- ===== src/Discovery/Registry/Query.antt =====
-- native/iroh_discovery/src/lib.rs: `expire` and the queries of `Registry`, with
-- `matches_predicate` and `compare_records`.
pub mod Find
pub mod Bindings
use nerves_p2p.Prelude.{
  ℕ, ◌-◌, ◌*◌, Bool, true, false, ◌&&◌, List, [], ◌∷◌, map, all, any, leb, ltb, nat_eq, ◌==◌,
  if◌then◌else◌, Option, none, some, Result, ok, err, compare, Ordering,
}
use mathlib.Core.Option
use nerves_p2p.Prelude.Bytes.{Bytes, Eq_bytes}
use nerves_p2p.Prelude.Order.{then_with, is_less, compare_bytes}
use nerves_p2p.Prelude.HashMap
use nerves_p2p.Prelude.HashMap.{HashMap}
use nerves_p2p.Prelude.BTreeMap
use nerves_p2p.Discovery.Types.{
  Error, EndpointId, CapabilityValue, bool, uint, text, text_list, Announcement, Predicate, equals,
  at_least, contains, Peer, saturating_add,
}
use nerves_p2p.Discovery.Registry.{Registry, ActiveRecord}

unfoldable pub texts_eq : List Bytes → List Bytes → Bool
texts_eq [] [] = true
texts_eq (x ∷ xs) (y ∷ ys) = x == y && texts_eq xs ys
texts_eq _ _ = false

unfoldable pub bool_eq : Bool → Bool → Bool
bool_eq true b = b
bool_eq false true = false
bool_eq false false = true

-- The derived equality of `CapabilityValue`.
unfoldable pub value_eq : CapabilityValue → CapabilityValue → Bool
unfolding bool_eq texts_eq
value_eq (bool a) (bool b) = bool_eq a b
value_eq (uint a) (uint b) = nat_eq a b
value_eq (text a) (text b) = a == b
value_eq (text_list a) (text_list b) = texts_eq a b
value_eq _ _ = false

unfoldable pub equals_value : Option CapabilityValue → CapabilityValue → Bool
equals_value none expected = false
equals_value (some v) expected = value_eq v expected

unfoldable pub at_least_value : Option CapabilityValue → ℕ → Bool
at_least_value (some (uint value)) minimum = leb minimum value
at_least_value _ minimum = false

unfoldable pub contains_value : Option CapabilityValue → Bytes → Bool
contains_value (some (text_list values)) needle = any (λ v. v == needle) values
contains_value _ needle = false

unfoldable pub matches_predicate : Announcement → Predicate → Bool
unfolding equals_value at_least_value contains_value
matches_predicate a (equals name expected) =
    equals_value (BTreeMap.get a.capabilities name) expected
matches_predicate a (at_least name minimum) =
    at_least_value (BTreeMap.get a.capabilities name) minimum
matches_predicate a (contains name needle) =
    contains_value (BTreeMap.get a.capabilities name) needle

-- The products are taken in u128, where they do not wrap. The subtractions are of u64; `find` only
-- compares records with `running < capacity`, where they do not fall below 0.
unfoldable pub compare_records : Announcement → Announcement → Ordering
compare_records a b =
    then_with (compare (a.load.running * b.load.capacity) (b.load.running * a.load.capacity)) (
      then_with (compare (b.load.capacity - b.load.running) (a.load.capacity - a.load.running))
        (compare_bytes a.endpoint_id b.endpoint_id))

unfoldable pub is_live : ℕ → ActiveRecord → Bool
is_live now r = ltb now (saturating_add r.received_at r.announcement.ttl_ms)

-- `HashMap::retain`.
unfoldable pub retain_live : ℕ → HashMap EndpointId ActiveRecord → HashMap EndpointId ActiveRecord
retain_live now [] = []
retain_live now ((e, r) ∷ m) =
    if is_live now r then (e, r) ∷ retain_live now m else retain_live now m

unfoldable pub values : HashMap EndpointId ActiveRecord → List ActiveRecord
values [] = []
values ((e, r) ∷ m) = r ∷ values m

unfoldable pub is_match : List Predicate → ActiveRecord → Bool
is_match predicates r =
    ltb r.announcement.load.running r.announcement.load.capacity
    && all (matches_predicate r.announcement) predicates

unfoldable pub filter_match : List Predicate → List ActiveRecord → List ActiveRecord
filter_match ps [] = []
filter_match ps (r ∷ rs) = if is_match ps r then r ∷ filter_match ps rs else filter_match ps rs

-- The stable `sort_by` of `find`.
unfoldable pub insert_record : ActiveRecord → List ActiveRecord → List ActiveRecord
insert_record r [] = r ∷ []
insert_record r (s ∷ ss) =
    if is_less (compare_records s.announcement r.announcement)
    then s ∷ insert_record r ss
    else r ∷ s ∷ ss

unfoldable pub sort_records : List ActiveRecord → List ActiveRecord
sort_records [] = []
sort_records (r ∷ rs) = insert_record r (sort_records rs)

unfoldable pub peer_of : ActiveRecord → Peer
peer_of r = record {
  endpoint_id = r.announcement.endpoint_id;
  node_name = r.announcement.node_name;
  partisan_ip = r.announcement.partisan_ip;
  partisan_port = r.announcement.partisan_port;
  sequence = r.announcement.sequence;
  capabilities = r.announcement.capabilities;
}

unfoldable pub non_empty : List Peer → Result (List Peer) Error
non_empty [] = err Error.no_matching_peer
non_empty (p ∷ ps) = ok (p ∷ ps)

unfoldable pub first_named : Bytes → List ActiveRecord → Option EndpointId
first_named name [] = none
first_named name (r ∷ rs) =
    if r.announcement.node_name == name
    then some r.announcement.endpoint_id
    else first_named name rs

unfoldable pub binding_of : ℕ → ActiveRecord → EndpointId × Bytes × ℕ
binding_of now r = (
  r.announcement.endpoint_id,
  r.announcement.node_name,
  saturating_add r.received_at r.announcement.ttl_ms - now,
)

module _ {S : Type 0} where
  unfoldable pub expire : Registry S → ℕ → Registry S
  expire r now = record r { records = retain_live now r.records }

  unfoldable pub active : Registry S → EndpointId → ℕ → Option Announcement × Registry S
  active r endpoint now =
      let r' = expire r now in
      (Option.map (λ x. x.announcement) (HashMap.get r'.records endpoint), r')

  unfoldable pub find : Registry S → List Predicate → ℕ → Result (List Peer) Error × Registry S
  find r predicates now =
      let r' = expire r now in
      (non_empty (map peer_of (sort_records (filter_match predicates (values r'.records)))), r')

  unfoldable pub endpoint_for_node : Registry S → Bytes → ℕ → Option EndpointId × Registry S
  endpoint_for_node r name now = let r' = expire r now in (first_named name (values r'.records), r')

  unfoldable pub bindings : Registry S → ℕ → List (EndpointId × Bytes × ℕ) × Registry S
  bindings r now = let r' = expire r now in (map (binding_of now) (values r'.records), r')
