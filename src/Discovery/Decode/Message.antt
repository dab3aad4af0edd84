-- ===== src/Discovery/Decode/Message.antt =====
-- native/iroh_discovery/src/lib.rs: `decode_message`.
use nerves_p2p.Prelude.{
  ℕ, zero, suc, not, ◌&&◌, ◌||◌, nat_eq, ltb, ◌==◌, if◌then◌else◌, Option, none, some, Result, ok,
  err, ok_or,
}
use nerves_p2p.Prelude.Results
use nerves_p2p.Prelude.Bytes.{Bytes, Eq_bytes, text as ascii}
use nerves_p2p.Discovery.Types.{
  Error, EndpointId, Keys, Load, Capabilities, Message, announcement, withdrawal,
}
use nerves_p2p.Discovery.Encode.{encode_message}
use nerves_p2p.Discovery.Reader.{
  Parse, pure, fail, ◌>>=◌, ◌>>◌, new, finish, map_len, canonical_key, read_array, uint, text,
}
use nerves_p2p.Discovery.Decode.Parts.{decode_load, decode_capabilities}

-- The variables of the loop.
pub record Draft : Type 0 where
  pub previous : Option Bytes
  pub version : Option ℕ
  pub kind : Option Bytes
  pub fleet_id : Option Bytes
  pub endpoint_id : Option EndpointId
  pub node_name : Option Bytes
  pub partisan_ip : Option Bytes
  pub partisan_port : Option ℕ
  pub sequence : Option ℕ
  pub ttl_ms : Option ℕ
  pub capabilities : Option Capabilities
  pub load : Option Load

unfoldable pub no_fields : Draft
no_fields = record {
  previous = none;
  version = none;
  kind = none;
  fleet_id = none;
  endpoint_id = none;
  node_name = none;
  partisan_ip = none;
  partisan_port = none;
  sequence = none;
  ttl_ms = none;
  capabilities = none;
  load = none;
}

unfoldable pub endpoint_field : Keys → Parse EndpointId
endpoint_field k = do
  bytes ← read_array 32
  if k.is_endpoint bytes then pure bytes else fail Error.malformed

-- `u16::try_from`, then `NonZeroU16::new`.
unfoldable pub port_field : Parse ℕ
port_field = do
  port ← uint
  if ltb 0xffff port || nat_eq port 0 then fail Error.invalid_record else pure port

unfoldable pub message_field : Keys → Bytes → Draft → Parse Draft
unfolding endpoint_field port_field
message_field k key d =
    if key == ascii "version"
    then (do v ← uint; pure (record d { version = some v }))
    else if key == ascii "kind"
    then (do v ← text; pure (record d { kind = some v }))
    else if key == ascii "fleet_id"
    then (do v ← read_array 32; pure (record d { fleet_id = some v }))
    else if key == ascii "endpoint_id"
    then (do v ← endpoint_field k; pure (record d { endpoint_id = some v }))
    else if key == ascii "node_name"
    then (do v ← text; pure (record d { node_name = some v }))
    else if key == ascii "partisan_ip"
    then (do v ← read_array 4; pure (record d { partisan_ip = some v }))
    else if key == ascii "partisan_port"
    then (do v ← port_field; pure (record d { partisan_port = some v }))
    else if key == ascii "sequence"
    then (do v ← uint; pure (record d { sequence = some v }))
    else if key == ascii "ttl_ms"
    then (do v ← uint; pure (record d { ttl_ms = some v }))
    else if key == ascii "capabilities"
    then (do v ← decode_capabilities; pure (record d { capabilities = some v }))
    else if key == ascii "load"
    then (do v ← decode_load; pure (record d { load = some v }))
    else fail Error.malformed

unfoldable pub message_fields : Keys → ℕ → Draft → Parse Draft
message_fields k zero d = pure d
message_fields k (suc n) d = do
  (key, encoded) ← canonical_key d.previous
  d' ← message_field k key (record d { previous = some encoded })
  message_fields k n d'

-- The two maps: the fields of each, once the loop is done.
unfoldable pub finish_announcement : Draft → Bytes → EndpointId → ℕ → Result Message Error
finish_announcement d fleet_id endpoint_id sequence =
    Results.◌>>=◌ (ok_or d.node_name Error.malformed) λ node_name.
      Results.◌>>=◌ (ok_or d.partisan_ip Error.malformed) λ partisan_ip.
        Results.◌>>=◌ (ok_or d.partisan_port Error.malformed) λ partisan_port.
          Results.◌>>=◌ (ok_or d.ttl_ms Error.malformed) λ ttl_ms.
            Results.◌>>=◌ (ok_or d.capabilities Error.malformed) λ capabilities.
              Results.◌>>=◌ (ok_or d.load Error.malformed) λ load. ok (
                announcement (record {
                  fleet_id = fleet_id;
                  endpoint_id = endpoint_id;
                  node_name = node_name;
                  partisan_ip = partisan_ip;
                  partisan_port = partisan_port;
                  sequence = sequence;
                  ttl_ms = ttl_ms;
                  capabilities = capabilities;
                  load = load;
                }))

unfoldable pub finish_kind :
    Option Bytes → ℕ → Draft → Bytes → EndpointId → ℕ → Result Message Error
unfolding finish_announcement
finish_kind none len d fleet_id endpoint_id sequence = err Error.invalid_record
finish_kind (some kind) len d fleet_id endpoint_id sequence =
    if kind == ascii "announcement" && nat_eq len 11
    then finish_announcement d fleet_id endpoint_id sequence
    else if kind == ascii "withdrawal" && nat_eq len 5
    then ok (
        withdrawal (record { fleet_id = fleet_id; endpoint_id = endpoint_id; sequence = sequence }))
    else if kind == ascii "announcement" || kind == ascii "withdrawal"
    then err Error.malformed
    else err Error.invalid_record

unfoldable pub finish_message : ℕ → Draft → Result Message Error
unfolding finish_kind
finish_message len d = Results.◌>>=◌ (ok_or d.version Error.malformed) λ version.
    if not (nat_eq version 1)
    then err Error.unsupported_version
    else Results.◌>>=◌ (ok_or d.fleet_id Error.malformed) λ fleet_id.
      Results.◌>>=◌ (ok_or d.endpoint_id Error.malformed) λ endpoint_id.
        Results.◌>>=◌ (ok_or d.sequence Error.malformed)
          λ sequence. finish_kind d.kind len d fleet_id endpoint_id sequence

unfoldable pub read_message : Keys → Parse (ℕ × Draft)
unfolding no_fields
read_message k = do len ← map_len; d ← message_fields k len no_fields; finish; pure (len, d)

unfoldable pub decode_message : Keys → Bytes → Result Message Error
decode_message k bytes = Results.◌>>=◌ (read_message k (new bytes)) λ ((len, d), r).
    Results.◌>>=◌ (finish_message len d)
      λ message. if not (encode_message message == bytes) then err Error.malformed else ok message
