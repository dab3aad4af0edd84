-- ===== src/Port/Values.antt =====
-- native/iroh_discovery/src/bin/iroh_discovery_port.rs: `json_capability`, `capability_json` and
-- `json_predicate`. A value of serde_json is a tree; of a number it matters whether it is a `u64`.
use nerves_p2p.Prelude.{ℕ, ◌≡◌, refl, Bool, List, [], ◌∷◌, Result, ok, err}
use nerves_p2p.Prelude.Results
use nerves_p2p.Prelude.Bytes.{Bytes}
use nerves_p2p.Discovery.Types.{
  CapabilityValue, bool, uint, text, text_list, Predicate, equals, at_least, contains,
}

mutual
  pub data Value : Type 0 where
    null other_number : Value
    boolean : Bool → Value
    number : ℕ → Value
    string : Bytes → Value
    array : Values → Value
    object : Fields → Value

  pub data Values : Type 0 where
    end : Values
    item : Value → Values → Values

  pub data Fields : Type 0 where
    last : Fields
    field : Bytes → Value → Fields → Fields

pub data PortError : Type 0 where
  invalid_capability : PortError

unfoldable pub push_text : Value → Result (List Bytes) PortError → Result (List Bytes) PortError
push_text (string t) (ok ts) = ok (t ∷ ts)
push_text (string t) (err e) = err e
push_text _ rest = err PortError.invalid_capability

-- `collect`, which stops at the first error; every error is the same.
unfoldable pub collect_texts : Values → Result (List Bytes) PortError
unfolding push_text
collect_texts end = ok []
collect_texts (item v vs) = push_text v (collect_texts vs)

unfoldable pub json_capability : Value → Result CapabilityValue PortError
json_capability (boolean b) = ok (bool b)
json_capability (number n) = ok (uint n)
json_capability (string t) = ok (text t)
json_capability (array vs) = Results.◌>>=◌ (collect_texts vs) λ ts. ok (text_list ts)
json_capability null = err PortError.invalid_capability
json_capability other_number = err PortError.invalid_capability
json_capability (object fs) = err PortError.invalid_capability

unfoldable pub json_texts : List Bytes → Values
json_texts [] = end
json_texts (t ∷ ts) = item (string t) (json_texts ts)

unfoldable pub capability_json : CapabilityValue → Value
unfolding json_texts
capability_json (bool b) = boolean b
capability_json (uint n) = number n
capability_json (text t) = string t
capability_json (text_list ts) = array (json_texts ts)

pub data JsonPredicate : Type 0 where
  json_equals : Bytes → Value → JsonPredicate
  json_at_least : Bytes → ℕ → JsonPredicate
  json_contains : Bytes → Bytes → JsonPredicate

unfoldable pub json_predicate : JsonPredicate → Result Predicate PortError
json_predicate (json_equals name value) =
    Results.◌>>=◌ (json_capability value) λ v. ok (equals name v)
json_predicate (json_at_least name value) = ok (at_least name value)
json_predicate (json_contains name value) = ok (contains name value)

collect_texts-json_texts : (ts : List Bytes) → collect_texts (json_texts ts) ≡ ok ts
unfolding collect_texts push_text json_texts
collect_texts-json_texts [] = refl
collect_texts-json_texts (t ∷ ts) = rw (collect_texts-json_texts ts) refl

-- Every capability value goes through the port and back unchanged.
pub json_capability-capability_json :
    (v : CapabilityValue) → json_capability (capability_json v) ≡ ok v
unfolding json_capability capability_json
json_capability-capability_json (bool b) = refl
json_capability-capability_json (uint n) = refl
json_capability-capability_json (text t) = refl
json_capability-capability_json (text_list ts) = rw (collect_texts-json_texts ts) refl
