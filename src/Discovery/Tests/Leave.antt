-- ===== src/Discovery/Tests/Leave.antt =====
-- A withdrawal received after an announcement of the same endpoint.
use nerves_p2p.Prelude.{◌≡◌, ◌<◌, refl, ap, sym, subst, ok}
use nerves_p2p.Prelude.Bytes.{be_bytes, bytes_eq, from_be, from_be_onto}
use nerves_p2p.Prelude.Text.{is_utf8}
use nerves_p2p.Prelude.Order.{compare_bytes}
use nerves_p2p.Prelude.HashMap
use nerves_p2p.Prelude.BTreeMap
use nerves_p2p.Discovery.Types.{
  announcement, withdrawal, message_endpoint_id, message_fleet_id, saturating_add,
}
use nerves_p2p.Discovery.Encode.{
  encode_head, encode_uint, encode_text, encode_bytes, canonical_cmp, field, insert_field,
  sort_fields, concat_fields, encode_map, concat_texts, encode_capability, capability_field,
  encode_capabilities, encode_announcement, encode_withdrawal, encode_message, encode_envelope,
}
use nerves_p2p.Discovery.Reader
use nerves_p2p.Discovery.Decode.{
  envelope_field, envelope_fields, no_envelope, read_envelope, decode_envelope, load_field,
  load_fields, finish_load, decode_load, capability_fields, decode_capabilities, no_fields,
  endpoint_field, port_field, message_field, message_fields, finish_announcement, finish_kind,
  finish_message, read_message, decode_message,
}
use nerves_p2p.Discovery.Validate.{validate_withdrawal}
use nerves_p2p.Discovery.Authorization
use nerves_p2p.Discovery.Store.Memory.{memory_store, memory_store-StoreLaws, load, advance}
use nerves_p2p.Discovery.Registry.{
  drop_old, after, ◌>>=◌, lift, refuse, when, asks, rate_of, check_rate, accept_sequence, enroll,
  enrolled_name, accept, receive_message, receive,
}
use nerves_p2p.Discovery.Registry.Receive.Delivery.{heard}
use nerves_p2p.Discovery.Registry.Receive.Steps.{sequence_of}
use nerves_p2p.Discovery.Registry.Receive.Replay.{start, accepted-increases}
use nerves_p2p.Discovery.Tests.Samples.{keys, offer, leave, stamp, registry}
use nerves_p2p.Discovery.Tests.Codec.{
  sealed, sealed_leave, offer_opened, offer_decoded, leave_opened, leave_decoded,
}
use nerves_p2p.Discovery.Tests.Receive.{after_offer, offer_accepted, offer-heard}

leave-heard :
    (receive keys memory_store sealed_leave 2000 (heard keys memory_store offer 1000 registry)).0
    ≡ ok tt
unfolding encode_head encode_uint encode_text encode_bytes canonical_cmp field insert_field
    sort_fields concat_fields encode_map concat_texts encode_capability capability_field
    encode_capabilities encode_announcement encode_withdrawal encode_message encode_envelope
    Reader.new Reader.finish Reader.take_bytes Reader.first Reader.word_above Reader.additional
    Reader.head Reader.length_of Reader.uint Reader.map_len Reader.text Reader.byte_string
    Reader.read_array Reader.since Reader.out_of_order Reader.canonical_key Reader.texts
    Reader.text_list Reader.skip Reader.capability_from Reader.capability envelope_field
    envelope_fields no_envelope read_envelope decode_envelope load_field load_fields finish_load
    decode_load capability_fields decode_capabilities no_fields endpoint_field port_field
    message_field message_fields finish_announcement finish_kind finish_message read_message
    decode_message validate_withdrawal drop_old after ◌>>=◌ lift refuse when asks rate_of check_rate
    accept_sequence enroll enrolled_name accept receive_message receive compare_bytes be_bytes
    bytes_eq from_be from_be_onto is_utf8 HashMap.get HashMap.insert HashMap.remove BTreeMap.get
    BTreeMap.insert Authorization.node_name load advance message_endpoint_id message_fleet_id
    saturating_add
leave-heard = refl

leave_accepted : (receive keys memory_store sealed_leave 2000 after_offer).0 ≡ ok tt
leave_accepted =
    subst (λ r. (receive keys memory_store sealed_leave 2000 r).0 ≡ ok tt)
      (sym (ap (λ x. x.1) offer-heard)) leave-heard

accepted-increases_example : sequence_of (announcement offer) < sequence_of (withdrawal leave)
accepted-increases_example =
    accepted-increases keys memory_store memory_store-StoreLaws sealed sealed_leave
      (encode_announcement offer) (encode_withdrawal leave) stamp stamp (announcement offer)
      (withdrawal leave) 1000 2000 registry after_offer offer_opened offer_decoded leave_opened
      leave_decoded (unfold message_endpoint_id in refl) offer_accepted start leave_accepted
