-- ===== src/Discovery/Encode.antt =====
-- native/iroh_discovery/src/lib.rs: the canonical CBOR encoder, `encode_head` up to
-- `encode_announcement`, `encode_withdrawal` and `encode_envelope`. Lengths are below 2 ^ 64, as
-- `usize` values are, so `as u64` is the identity on them.
use nerves_p2p.Prelude.{
  ℕ, ◌*◌, ◌%◌, true, false, List, [], ◌∷◌, ◌++◌, map, length, leb, if◌then◌else◌, compare, Ordering,
  bit_or,
}
use nerves_p2p.Prelude.Bytes.{Bytes, be_bytes, text as ascii}
use nerves_p2p.Prelude.Order.{then_with, is_less, compare_bytes}
use nerves_p2p.Discovery.Types.{
  CapabilityValue, bool, uint, text, text_list, Capabilities, Announcement, Withdrawal, Message,
  announcement, withdrawal,
}

unfoldable pub encode_head : ℕ → ℕ → Bytes
encode_head major value =
    let prefix = major * 32 % 256 in
    if leb value 23
    then bit_or prefix (value % 256) ∷ []
    else if leb value 0xff
    then bit_or prefix 24 ∷ be_bytes 1 value
    else if leb value 0xffff
    then bit_or prefix 25 ∷ be_bytes 2 value
    else if leb value 0xffff_ffff
    then bit_or prefix 26 ∷ be_bytes 4 value
    else bit_or prefix 27 ∷ be_bytes 8 value

unfoldable pub encode_uint : ℕ → Bytes
encode_uint value = encode_head 0 value

unfoldable pub encode_text : Bytes → Bytes
encode_text value = encode_head 3 (length value) ++ value

unfoldable pub encode_bytes : Bytes → Bytes
encode_bytes value = encode_head 2 (length value) ++ value

unfoldable pub canonical_cmp : Bytes → Bytes → Ordering
canonical_cmp a b = then_with (compare (length a) (length b)) (compare_bytes a b)

abbrev pub Field : Type 0
Field = Bytes × Bytes

unfoldable pub field : Bytes → Bytes → Field
field name value = (encode_text name, value)

-- `sort_by` is a stable sort: a field goes before those that are not less than it.
unfoldable pub insert_field : Field → List Field → List Field
insert_field f [] = f ∷ []
insert_field f (g ∷ gs) =
    if is_less (canonical_cmp g.0 f.0) then g ∷ insert_field f gs else f ∷ g ∷ gs

unfoldable pub sort_fields : List Field → List Field
sort_fields [] = []
sort_fields (f ∷ fs) = insert_field f (sort_fields fs)

unfoldable pub concat_fields : List Field → Bytes
concat_fields [] = []
concat_fields (f ∷ fs) = f.0 ++ (f.1 ++ concat_fields fs)

unfoldable pub encode_map : List Field → Bytes
encode_map fields = encode_head 5 (length fields) ++ concat_fields (sort_fields fields)

unfoldable pub concat_texts : List Bytes → Bytes
concat_texts [] = []
concat_texts (v ∷ vs) = encode_text v ++ concat_texts vs

unfoldable pub encode_capability : CapabilityValue → Bytes
encode_capability (bool false) = 0xf4 ∷ []
encode_capability (bool true) = 0xf5 ∷ []
encode_capability (uint value) = encode_uint value
encode_capability (text value) = encode_text value
encode_capability (text_list values) = encode_head 4 (length values) ++ concat_texts values

unfoldable pub capability_field : Bytes × CapabilityValue → Field
capability_field (name, value) = field name (encode_capability value)

unfoldable pub encode_capabilities : Capabilities → Bytes
encode_capabilities values = encode_map (map capability_field values)

unfoldable pub encode_announcement : Announcement → Bytes
encode_announcement value = encode_map (
    field (ascii "version") (encode_uint 1)
    ∷ field (ascii "kind") (encode_text (ascii "announcement"))
    ∷ field (ascii "fleet_id") (encode_bytes value.fleet_id)
    ∷ field (ascii "endpoint_id") (encode_bytes value.endpoint_id)
    ∷ field (ascii "node_name") (encode_text value.node_name)
    ∷ field (ascii "partisan_ip") (encode_bytes value.partisan_ip)
    ∷ field (ascii "partisan_port") (encode_uint value.partisan_port)
    ∷ field (ascii "sequence") (encode_uint value.sequence)
    ∷ field (ascii "ttl_ms") (encode_uint value.ttl_ms)
    ∷ field (ascii "capabilities") (encode_capabilities value.capabilities)
    ∷ field (ascii "load") (
        encode_map (
          field (ascii "running") (encode_uint value.load.running)
          ∷ field (ascii "capacity") (encode_uint value.load.capacity)
          ∷ []))
    ∷ [])

unfoldable pub encode_withdrawal : Withdrawal → Bytes
encode_withdrawal value = encode_map (
    field (ascii "version") (encode_uint 1)
    ∷ field (ascii "kind") (encode_text (ascii "withdrawal"))
    ∷ field (ascii "fleet_id") (encode_bytes value.fleet_id)
    ∷ field (ascii "endpoint_id") (encode_bytes value.endpoint_id)
    ∷ field (ascii "sequence") (encode_uint value.sequence)
    ∷ [])

-- The `canonical` form that `decode_message` compares its input with.
unfoldable pub encode_message : Message → Bytes
encode_message (announcement value) = encode_announcement value
encode_message (withdrawal value) = encode_withdrawal value

unfoldable pub encode_envelope : Bytes → Bytes → Bytes
encode_envelope body signature = encode_map (
    field (ascii "body") (encode_bytes body)
    ∷ field (ascii "signature") (encode_bytes signature)
    ∷ [])
