-- ===== src/Discovery/Types.antt =====
-- The data types of native/iroh_discovery/src/lib.rs. A `String` is its UTF-8 bytes, a fixed array
-- is a list of that length, and `u64` values are natural numbers below 2 ^ 64. An `EndpointId` of
-- the iroh crate is the 32 bytes of its public key, by which that crate compares endpoints.
use nerves_p2p.Prelude.{ℕ, ◌+◌, min, Bool, List}
use nerves_p2p.Prelude.Bytes.{Bytes}
use nerves_p2p.Prelude.BTreeMap.{BTreeMap}

pub data Error : Type 0 where
  malformed unsupported_version message_too_large wrong_fleet unauthorized_endpoint : Error
  invalid_signature invalid_record stale_sequence no_matching_peer peer_unavailable : Error
  rate_limited sequence_store_failed : Error

abbrev pub EndpointId : Type 0
EndpointId = Bytes

pub data CapabilityValue : Type 0 where
  bool : Bool → CapabilityValue
  uint : ℕ → CapabilityValue
  text : Bytes → CapabilityValue
  text_list : List Bytes → CapabilityValue

abbrev pub Capabilities : Type 0
Capabilities = BTreeMap CapabilityValue

pub record Load : Type 0 where
  pub running : ℕ
  pub capacity : ℕ

pub record Announcement : Type 0 where
  pub fleet_id : Bytes
  pub endpoint_id : EndpointId
  pub node_name : Bytes
  pub partisan_ip : Bytes
  pub partisan_port : ℕ
  pub sequence : ℕ
  pub ttl_ms : ℕ
  pub capabilities : Capabilities
  pub load : Load

pub record Withdrawal : Type 0 where
  pub fleet_id : Bytes
  pub endpoint_id : EndpointId
  pub sequence : ℕ

pub data Predicate : Type 0 where
  equals : Bytes → CapabilityValue → Predicate
  at_least : Bytes → ℕ → Predicate
  contains : Bytes → Bytes → Predicate

pub record Peer : Type 0 where
  pub endpoint_id : EndpointId
  pub node_name : Bytes
  pub partisan_ip : Bytes
  pub partisan_port : ℕ
  pub sequence : ℕ
  pub capabilities : Capabilities

pub data Message : Type 0 where
  announcement : Announcement → Message
  withdrawal : Withdrawal → Message

-- `Message::endpoint_id` and `Message::fleet_id`.
unfoldable pub message_endpoint_id : Message → EndpointId
message_endpoint_id (announcement a) = a.endpoint_id
message_endpoint_id (withdrawal w) = w.endpoint_id

unfoldable pub message_fleet_id : Message → Bytes
message_fleet_id (announcement a) = a.fleet_id
message_fleet_id (withdrawal w) = w.fleet_id

-- What the iroh crate decides: which 32 bytes are a public key, which 64 are a signature, and
-- whether a signature of a text verifies under a key.
pub record Keys : Type 0 where
  pub is_endpoint : Bytes → Bool
  pub is_signature : Bytes → Bool
  pub verify : EndpointId → Bytes → Bytes → Bool

abbrev pub max_message_size : ℕ
max_message_size = 16384

abbrev pub max_authorized : ℕ
max_authorized = 1024

abbrev pub rate_limit : ℕ
rate_limit = 10

abbrev pub rate_window_ms : ℕ
rate_window_ms = 1000

abbrev pub u64_max : ℕ
u64_max = 0xffff_ffff_ffff_ffff

-- `u64::saturating_add`.
unfoldable pub saturating_add : ℕ → ℕ → ℕ
saturating_add a b = min (a + b) u64_max
