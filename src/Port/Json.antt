-- ===== src/Port/Json.antt =====
-- native/iroh_discovery/src/bin/iroh_discovery_port.rs: what requests are read from and answers are
-- written to. The iroh and hex crates read and write the texts of endpoints and of bytes, and `socket`
-- says which texts are a socket address. A JSON object is the list of its fields.
use nerves_p2p.Prelude.{
  Bool, true, false, Option, none, some, List, [], ◌∷◌, map, length, nat_eq, if◌then◌else◌, Result,
  ok, err, ok_or,
}
use nerves_p2p.Prelude.Results
use nerves_p2p.Prelude.Bytes.{Bytes, text}
use nerves_p2p.Prelude.BTreeMap
use nerves_p2p.Prelude.BTreeMap.{BTreeMap}
use nerves_p2p.Prelude.Ipv4.{ipv4_text}
use nerves_p2p.Discovery.Types.{EndpointId, CapabilityValue, Peer}
use nerves_p2p.Dist.Streams
use nerves_p2p.Dist.Streams.{Event}
use nerves_p2p.Port.Values.{
  Value, Values, Fields, end, item, last, field, null, number, string, array, object, PortError,
  json_capability, capability_json,
}
use nerves_p2p.Port.Requests.{JsonEndpointAddr, port_error_name}

pub record Texts : Type 0 where
  pub endpoint_from : Bytes → Option EndpointId
  pub endpoint_text : EndpointId → Bytes
  pub hex_decode : Bytes → Option Bytes
  pub hex_encode : Bytes → Bytes
  pub socket : Bytes → Bool

abbrev pub fields : List (Bytes × Value) → Fields
fields [] = last
fields ((key, value) ∷ fs) = field key value (fields fs)

abbrev pub json_object : List (Bytes × Value) → Value
json_object fs = object (fields fs)

abbrev pub items : List Value → Values
items [] = end
items (v ∷ vs) = item v (items vs)

abbrev pub json_array : List Value → Value
json_array vs = array (items vs)

abbrev pub json_optional : Option Value → Value
json_optional none = null
json_optional (some v) = v

-- `map(..).collect::<Result<..>>`, which stops at the first error.
unfoldable pub collect {ℓ κ μ} :
    {A : Type ℓ} {B : Type κ} {E : Type μ} → (A → Result B E) → List A → Result (List B) E
collect f [] = ok []
collect f (a ∷ others) = Results.◌>>=◌ (f a) λ b. Results.◌>>=◌ (collect f others) λ bs. ok (b ∷ bs)

unfoldable pub port_named {ℓ} : {A : Type ℓ} → Result A PortError → Result A Bytes
port_named (ok a) = ok a
port_named (err e) = err (port_error_name e)

unfoldable pub named_capability : Bytes × Value → Result (Bytes × CapabilityValue) PortError
named_capability (name, value) = Results.◌>>=◌ (json_capability value) λ v. ok (name, v)

-- `sort_unstable` and `dedup`.
unfoldable pub sorted_set : List EndpointId → BTreeMap (Unit {0})
sorted_set [] = []
sorted_set (id ∷ ids) = BTreeMap.insert (sorted_set ids) id tt

unfoldable pub enabled_names : List (Bool × Bytes) → List Value
enabled_names [] = []
enabled_names ((true, name) ∷ names) = string name ∷ enabled_names names
enabled_names ((false, name) ∷ names) = enabled_names names

module _ (texts : Texts) where
  unfoldable pub endpoint_of : Bytes → Result EndpointId Bytes
  endpoint_of id = ok_or (texts.endpoint_from id) (text "malformed")

  unfoldable pub all_sockets : List Bytes → Result (Unit {0}) Bytes
  all_sockets [] = ok tt
  all_sockets (address ∷ addresses) =
      if texts.socket address then all_sockets addresses else err (text "malformed")

  -- `parse_endpoint_addr`, of which `handle` needs the id.
  unfoldable pub parse_endpoint_addr : JsonEndpointAddr → Result EndpointId Bytes
  unfolding endpoint_of all_sockets
  parse_endpoint_addr value = Results.◌>>=◌ (endpoint_of value.endpoint_id) λ id.
      Results.◌>>=◌ (all_sockets value.direct_addresses)
        λ _. if nat_eq (length value.direct_addresses) 0 then err (text "malformed") else ok id

  unfoldable pub explicit_ids : Option JsonEndpointAddr → Result (List EndpointId) Bytes
  unfolding parse_endpoint_addr
  explicit_ids none = ok []
  explicit_ids (some address) = Results.◌>>=◌ (parse_endpoint_addr address) λ id. ok (id ∷ [])

  unfoldable pub peer_json : Peer → Value
  peer_json p = json_object (
      (text "endpoint_id", string (texts.endpoint_text p.endpoint_id))
      ∷ (text "node_name", string p.node_name)
      ∷ (text "partisan_ip", string (ipv4_text p.partisan_ip))
      ∷ (text "partisan_port", number p.partisan_port)
      ∷ (text "sequence", number p.sequence)
      ∷ (text "capabilities", json_object (map (λ c. (c.0, capability_json c.1)) p.capabilities))
      ∷ [])

  -- `dist_event_json`.
  unfoldable pub dist_event_json : (Streams.Reason → Bytes) → Event → Value
  dist_event_json reason_text (Event.incoming id from_node target_node) = json_object (
      (text "event", string (text "dist_incoming"))
      ∷ (text "stream_id", number id)
      ∷ (text "from_node", string from_node)
      ∷ (text "target_node", string target_node)
      ∷ [])
  dist_event_json reason_text (Event.connected id target_node) = json_object (
      (text "event", string (text "dist_connected"))
      ∷ (text "stream_id", number id)
      ∷ (text "target_node", string target_node)
      ∷ [])
  dist_event_json reason_text (Event.data_received id bytes) = json_object (
      (text "event", string (text "dist_data"))
      ∷ (text "stream_id", number id)
      ∷ (text "bytes", string (texts.hex_encode bytes))
      ∷ [])
  dist_event_json reason_text (Event.credit_returned id bytes) = json_object (
      (text "event", string (text "dist_credit"))
      ∷ (text "stream_id", number id)
      ∷ (text "bytes", number bytes)
      ∷ [])
  dist_event_json reason_text (Event.closed id reason) = json_object (
      (text "event", string (text "dist_closed"))
      ∷ (text "stream_id", number id)
      ∷ (text "reason", string (reason_text reason))
      ∷ [])
