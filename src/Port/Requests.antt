-- ===== src/Port/Requests.antt =====
-- native/iroh_discovery/src/bin/iroh_discovery_port.rs: the commands of a request, after serde has
-- read them, and the texts that answer an error.
use nerves_p2p.Prelude.{ℕ, Bool, Option, List}
use nerves_p2p.Prelude.Bytes.{Bytes, text}
use nerves_p2p.Prelude.BTreeMap.{BTreeMap}
use nerves_p2p.Discovery.Types.{Error}
use nerves_p2p.Dist.Streams
use nerves_p2p.Port.Values.{Value, JsonPredicate, PortError}

pub record JsonEndpointAddr : Type 0 where
  pub endpoint_id : Bytes
  pub direct_addresses : List Bytes

pub record JsonLoad : Type 0 where
  pub running : ℕ
  pub capacity : ℕ

pub record NetworkStart : Type 0 where
  pub bootstrap : Option JsonEndpointAddr
  pub bootstrap_endpoint_ids : List Bytes
  pub mdns : Bool
  pub dht : Bool
  pub dns : Bool
  pub relay : Bool

pub record Publish : Type 0 where
  pub ttl_ms : ℕ
  pub partisan_ip : Bytes
  pub partisan_port : ℕ
  pub capabilities : BTreeMap Value
  pub load : JsonLoad

pub data Command : Type 0 where
  identity : Command
  authorize : Bytes → Bytes → Command
  network_start : NetworkStart → Command
  publish : Publish → Command
  ingest : Bytes → Bytes → Bytes → Command
  find : List JsonPredicate → Command
  dist_listen : Bytes → Command
  dist_connect : Bytes → Bytes → Command
  dist_send : ℕ → Bytes → Command
  dist_credit : ℕ → ℕ → Command
  dist_close : ℕ → Command
  shutdown : Command

unfoldable pub error_name : Error → Bytes
error_name Error.malformed = text "malformed"
error_name Error.unsupported_version = text "unsupported_version"
error_name Error.message_too_large = text "message_too_large"
error_name Error.wrong_fleet = text "wrong_fleet"
error_name Error.unauthorized_endpoint = text "unauthorized_endpoint"
error_name Error.invalid_signature = text "invalid_signature"
error_name Error.invalid_record = text "invalid_record"
error_name Error.stale_sequence = text "stale_sequence"
error_name Error.no_matching_peer = text "no_matching_peer"
error_name Error.peer_unavailable = text "peer_unavailable"
error_name Error.rate_limited = text "rate_limited"
error_name Error.sequence_store_failed = text "sequence_store_failed"

unfoldable pub dist_error_name : Streams.Error → Bytes
dist_error_name Streams.Error.network_not_started = text "network_not_started"
dist_error_name Streams.Error.not_listening = text "not_listening"
dist_error_name Streams.Error.unknown_node = text "unknown_node"
dist_error_name Streams.Error.unknown_stream = text "unknown_stream"
dist_error_name Streams.Error.credit_exhausted = text "credit_exhausted"
dist_error_name Streams.Error.queue_full = text "queue_full"
dist_error_name Streams.Error.invalid_credit = text "invalid_credit"
dist_error_name Streams.Error.connection_failed = text "connection_failed"

unfoldable pub port_error_name : PortError → Bytes
port_error_name PortError.invalid_capability = text "invalid_capability"
