-- ===== src/Discovery/Codec/Layout.antt =====
-- The canonical order of the fixed maps, whatever their values: the order in which the decoder
-- meets the fields.
use nerves_p2p.Prelude.{◌≡◌, refl, [], ◌∷◌, ◌++◌}
use nerves_p2p.Prelude.Bytes.{Bytes, be_bytes, text as ascii}
use nerves_p2p.Prelude.Order.{compare_bytes}
use nerves_p2p.Discovery.Encode.{
  encode_head, encode_text, canonical_cmp, field, insert_field, sort_fields, concat_fields,
  encode_map,
}

-- A field as it stands on the wire, before what follows.
abbrev pub entry : Bytes → Bytes → Bytes → Bytes
entry key value rest = encode_text key ++ (value ++ rest)

pub load_layout :
    (running capacity : Bytes)
    → encode_map (field (ascii "running") running ∷ field (ascii "capacity") capacity ∷ [])
      ≡ encode_head 5 2 ++ entry (ascii "running") running (entry (ascii "capacity") capacity [])
unfolding encode_map sort_fields insert_field concat_fields field canonical_cmp compare_bytes
    encode_text encode_head be_bytes
load_layout running capacity = refl

pub envelope_layout :
    (body signature : Bytes)
    → encode_map (field (ascii "body") body ∷ field (ascii "signature") signature ∷ [])
      ≡ encode_head 5 2 ++ entry (ascii "body") body (entry (ascii "signature") signature [])
unfolding encode_map sort_fields insert_field concat_fields field canonical_cmp compare_bytes
    encode_text encode_head be_bytes
envelope_layout body signature = refl

pub withdrawal_layout :
    (version kind fleet endpoint sequence : Bytes)
    → encode_map (
        field (ascii "version") version
        ∷ field (ascii "kind") kind
        ∷ field (ascii "fleet_id") fleet
        ∷ field (ascii "endpoint_id") endpoint
        ∷ field (ascii "sequence") sequence
        ∷ [])
      ≡ encode_head 5 5
        ++ entry (ascii "kind") kind (
            entry (ascii "version") version (
              entry
                (ascii "fleet_id")
                fleet
                (entry (ascii "sequence") sequence (entry (ascii "endpoint_id") endpoint []))))
unfolding encode_map sort_fields insert_field concat_fields field canonical_cmp compare_bytes
    encode_text encode_head be_bytes
withdrawal_layout version kind fleet endpoint sequence = refl

pub announcement_layout :
    (version kind fleet endpoint node ip port sequence ttl capabilities load : Bytes)
    → encode_map (
        field (ascii "version") version
        ∷ field (ascii "kind") kind
        ∷ field (ascii "fleet_id") fleet
        ∷ field (ascii "endpoint_id") endpoint
        ∷ field (ascii "node_name") node
        ∷ field (ascii "partisan_ip") ip
        ∷ field (ascii "partisan_port") port
        ∷ field (ascii "sequence") sequence
        ∷ field (ascii "ttl_ms") ttl
        ∷ field (ascii "capabilities") capabilities
        ∷ field (ascii "load") load
        ∷ [])
      ≡ encode_head 5 11
        ++ entry (ascii "kind") kind (
            entry (ascii "load") load (
              entry (ascii "ttl_ms") ttl (
                entry (ascii "version") version (
                  entry (ascii "fleet_id") fleet (
                    entry (ascii "sequence") sequence (
                      entry (ascii "node_name") node (
                        entry (ascii "endpoint_id") endpoint (
                          entry (ascii "partisan_ip") ip (
                            entry
                              (ascii "capabilities")
                              capabilities
                              (entry (ascii "partisan_port") port []))))))))))
unfolding encode_map sort_fields insert_field concat_fields field canonical_cmp compare_bytes
    encode_text encode_head be_bytes
announcement_layout version kind fleet endpoint node ip port sequence ttl capabilities load = refl
