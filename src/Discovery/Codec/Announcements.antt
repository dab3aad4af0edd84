-- ===== src/Discovery/Codec/Announcements.antt =====
-- `decode_message` reads back what `encode_announcement` writes.
use nerves_p2p.Prelude.{ℕ, ◌≤◌, ◌<◌, ◌≡◌, refl, true, [], ◌∷◌, ◌++◌, length, All, arith, some, ok}
use nerves_p2p.Prelude.Bytes.{Bytes, bytes_eq, bytes_eq_refl, text as ascii}
use nerves_p2p.Prelude.Order.{compare_bytes}
use nerves_p2p.Prelude.Text.{is_utf8}
use nerves_p2p.Prelude.BTreeMap.Sorted.{Sorted}
use nerves_p2p.Discovery.Types.{Keys, Announcement, Load, u64_max, announcement}
use nerves_p2p.Discovery.Encode.{
  encode_head, encode_text, encode_uint, encode_bytes, canonical_cmp, encode_capabilities,
  encode_map, field, encode_announcement, encode_message,
}
use nerves_p2p.Discovery.Reader.{out_of_order, uint, text, read_array, map_len}
use nerves_p2p.Discovery.Decode.{
  Draft, no_fields, endpoint_field, port_field, message_field, message_fields, finish_message,
  read_message, decode_message, decode_load, decode_capabilities,
}
use nerves_p2p.Discovery.Codec.Reads.{Ends, Ends-new, Ends-bind, Ends-finish, Reads, Reads-then}
use nerves_p2p.Discovery.Codec.Strings.{
  IsStr, map_len-Reads, uint-encode_uint, text-encode_text, read_array-Reads,
}
use nerves_p2p.Discovery.Codec.Maps.{IsEntry, decode_capabilities-encode_capabilities}
use nerves_p2p.Discovery.Codec.Layout.{entry, announcement_layout}
use nerves_p2p.Discovery.Codec.Message.{decode_load-Reads, message_step, message_done}

-- What the Rust types of the fields hold, and at most 32 capabilities.
pub record IsAnnouncement (k : Keys) (a : Announcement) : Type 0 where
  pub fleet : length a.fleet_id ≡ 32
  pub endpoint : length a.endpoint_id ≡ 32
  pub key : k.is_endpoint a.endpoint_id ≡ true
  pub node : IsStr a.node_name
  pub ip : length a.partisan_ip ≡ 4
  pub port_pos : 0 < a.partisan_port
  pub port : a.partisan_port < 65536
  pub sequence : a.sequence ≤ u64_max
  pub ttl : a.ttl_ms ≤ u64_max
  pub sorted : Sorted a.capabilities
  pub few : length a.capabilities ≤ 32
  pub entries : All IsEntry a.capabilities
  pub running : a.load.running ≤ u64_max
  pub capacity : a.load.capacity ≤ u64_max

module _ (k : Keys) where
  pub endpoint_field-Reads :
      (x : Bytes)
      → length x ≡ 32
      → k.is_endpoint x ≡ true
      → Reads (endpoint_field k) (encode_bytes x) x
  unfolding endpoint_field
  endpoint_field-Reads x e h =
      Reads-then (read_array 32) _ (encode_bytes x) x x (read_array-Reads x 32 e (omega arith))
        (λ r. rw h)

  port_field-Reads : (p : ℕ) → 0 < p → p < 65536 → Reads port_field (encode_uint p) p
  unfolding port_field
  port_field-Reads p pos h =
      Reads-then uint _ (encode_uint p) p p (uint-encode_uint p (omega arith)) (λ r. ground arith)

  -- The draft once every field of `a` is read.
  abbrev filled : Announcement → Draft
  filled a = record {
    previous = some (encode_text (ascii "partisan_port"));
    version = some 1;
    kind = some (ascii "announcement");
    fleet_id = some a.fleet_id;
    endpoint_id = some a.endpoint_id;
    node_name = some a.node_name;
    partisan_ip = some a.partisan_ip;
    partisan_port = some a.partisan_port;
    sequence = some a.sequence;
    ttl_ms = some a.ttl_ms;
    capabilities = some a.capabilities;
    load = some a.load;
  }

  abbrev load_bytes : Load → Bytes
  load_bytes l = encode_map (
      field (ascii "running") (encode_uint l.running)
      ∷ field (ascii "capacity") (encode_uint l.capacity)
      ∷ [])

  abbrev layout : Announcement → Bytes
  layout a = entry (ascii "kind") (encode_text (ascii "announcement")) (
      entry (ascii "load") (load_bytes a.load) (
        entry (ascii "ttl_ms") (encode_uint a.ttl_ms) (
          entry (ascii "version") (encode_uint 1) (
            entry (ascii "fleet_id") (encode_bytes a.fleet_id) (
              entry (ascii "sequence") (encode_uint a.sequence) (
                entry (ascii "node_name") (encode_text a.node_name) (
                  entry (ascii "endpoint_id") (encode_bytes a.endpoint_id) (
                    entry (ascii "partisan_ip") (encode_bytes a.partisan_ip) (
                      entry (ascii "capabilities") (encode_capabilities a.capabilities)
                        (entry (ascii "partisan_port") (encode_uint a.partisan_port) []))))))))))

  announcement_fields :
      (a : Announcement)
      → IsAnnouncement k a
      → Reads (message_fields k 11 no_fields) (layout a) (filled a)
  unfolding no_fields message_field bytes_eq out_of_order canonical_cmp compare_bytes encode_text
      encode_head is_utf8
  announcement_fields a v =
      message_step k (ascii "kind") 10 _ text _ _ (ascii "announcement") _ _
        (omega arith, refl, refl) (λ r. refl)
        (text-encode_text (ascii "announcement") (omega arith) refl)
        (message_step k (ascii "load") 9 _ decode_load _ _ a.load _ _ (omega arith, refl, refl)
          (λ r. refl) (decode_load-Reads a.load v.running v.capacity)
          (message_step k (ascii "ttl_ms") 8 _ uint _ _ a.ttl_ms _ _ (omega arith, refl, refl)
            (λ r. refl) (uint-encode_uint a.ttl_ms v.ttl)
            (message_step k (ascii "version") 7 _ uint _ _ 1 _ _ (omega arith, refl, refl)
              (λ r. refl) (uint-encode_uint 1 (omega arith))
              (message_step k (ascii "fleet_id") 6 _ (read_array 32) _ _ a.fleet_id _ _
                (omega arith, refl, refl) (λ r. refl)
                (read_array-Reads a.fleet_id 32 v.fleet (omega arith))
                (message_step k (ascii "sequence") 5 _ uint _ _ a.sequence _ _
                  (omega arith, refl, refl) (λ r. refl) (uint-encode_uint a.sequence v.sequence)
                  (message_step k (ascii "node_name") 4 _ text _ _ a.node_name _ _
                    (omega arith, refl, refl) (λ r. refl)
                    (text-encode_text a.node_name (omega arith) v.node.1)
                    (message_step k (ascii "endpoint_id") 3 _ (endpoint_field k) _ _ a.endpoint_id _
                      _ (omega arith, refl, refl) (λ r. refl)
                      (endpoint_field-Reads a.endpoint_id v.endpoint v.key)
                      (message_step k (ascii "partisan_ip") 2 _ (read_array 4) _ _ a.partisan_ip _ _
                        (omega arith, refl, refl) (λ r. refl)
                        (read_array-Reads a.partisan_ip 4 v.ip (omega arith))
                        (message_step k (ascii "capabilities") 1 _ decode_capabilities _ _
                          a.capabilities _ _ (omega arith, refl, refl) (λ r. refl)
                          (decode_capabilities-encode_capabilities a.capabilities v.sorted v.few
                            v.entries)
                          (message_step k (ascii "partisan_port") 0 _ port_field _ _ a.partisan_port
                            [] _ (omega arith, refl, refl) (λ r. refl)
                            (port_field-Reads a.partisan_port v.port_pos v.port)
                            (message_done k (filled a))))))))))))

  read_announcement :
      (a : Announcement)
      → IsAnnouncement k a
      → Ends (read_message k) (encode_head 5 11 ++ layout a) (11, filled a)
  unfolding read_message
  read_announcement a v =
      Ends-bind map_len _ (encode_head 5 11) (layout a) 11 (11, filled a)
        (map_len-Reads 11 (omega arith))
        (Ends-finish (message_fields k 11 no_fields) (λ d. (11, d)) (layout a) (filled a)
          (announcement_fields a v))

  finish_filled : (a : Announcement) → finish_message 11 (filled a) ≡ ok (announcement a)
  unfolding finish_message bytes_eq
  finish_filled a = refl

  announcement-layout : (a : Announcement) → encode_announcement a ≡ encode_head 5 11 ++ layout a
  unfolding encode_announcement
  announcement-layout a =
      announcement_layout (encode_uint 1) (encode_text (ascii "announcement"))
        (encode_bytes a.fleet_id) (encode_bytes a.endpoint_id) (encode_text a.node_name)
        (encode_bytes a.partisan_ip) (encode_uint a.partisan_port) (encode_uint a.sequence)
        (encode_uint a.ttl_ms) (encode_capabilities a.capabilities) (load_bytes a.load)

  -- Every announcement that its Rust type can hold, with at most 32 capabilities, is decoded from
  -- its encoding, exactly as it was, provided that the encoding fits the address space.
  pub decode_message-encode_announcement :
      (a : Announcement)
      → IsAnnouncement k a
      → length (encode_announcement a) ≤ u64_max
      → decode_message k (encode_announcement a) ≡ ok (announcement a)
  unfolding decode_message encode_message
  decode_message-encode_announcement a v fits = rw (
    Ends-new (read_message k) _ (encode_announcement a) _ (read_announcement a v)
        (announcement-layout a) fits,
    finish_filled a,
    bytes_eq_refl (encode_announcement a),
  )
