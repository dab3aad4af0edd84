-- ===== src/Discovery/Tests/Codec.antt =====
-- The theorems on the codecs and on signing, at one announcement and one withdrawal.
use nerves_p2p.Prelude.{◌≡◌, refl, ok, arith, length}
use nerves_p2p.Prelude.Bytes.{Bytes, be_bytes, bytes_eq}
use nerves_p2p.Prelude.Text.{is_utf8, contains, split_once}
use nerves_p2p.Prelude.Order.{compare_bytes}
use nerves_p2p.Discovery.Validate.{
  name_byte, host_byte, valid_node_name, capability_byte, starts_lowercase, valid_capability_name,
  valid_capability_value, valid_capability, validate_announcement,
}
use nerves_p2p.Discovery.Sign.{sign_body, sign_announcement}
use nerves_p2p.Discovery.Sign.Opens.{IsSigned, sign_announcement-IsSigned}
use nerves_p2p.Discovery.Types.{announcement, withdrawal}
use nerves_p2p.Discovery.Encode.{
  encode_message, encode_head, encode_uint, encode_text, encode_bytes, canonical_cmp, field,
  insert_field, sort_fields, concat_fields, encode_map, concat_texts, encode_capability,
  capability_field, encode_capabilities, encode_announcement, encode_withdrawal, encode_envelope,
}
use nerves_p2p.Discovery.Decode.{decode_message, decode_envelope}
use nerves_p2p.Discovery.Codec.Announcements.{IsAnnouncement, decode_message-encode_announcement}
use nerves_p2p.Discovery.Codec.Withdrawals.{IsWithdrawal, decode_message-encode_withdrawal}
use nerves_p2p.Discovery.Codec.Envelope.{decode_envelope-encode_envelope}
use nerves_p2p.Discovery.Codec.Canonical.{decode_message-canonical, decode_envelope-canonical}
use nerves_p2p.Discovery.Tests.Samples.{keys, secret, secret-Signs, offer, leave, stamp, node}

pub offer-IsAnnouncement : IsAnnouncement keys offer
unfolding is_utf8 compare_bytes
offer-IsAnnouncement = record {
  fleet = refl;
  endpoint = refl;
  key = refl;
  node = (omega arith, refl);
  ip = refl;
  port_pos = omega arith;
  port = omega arith;
  sequence = omega arith;
  ttl = omega arith;
  sorted = ((refl, tt), (tt, tt));
  few = omega arith;
  entries = (((omega arith, refl), tt), (((omega arith, refl), omega arith), tt));
  running = omega arith;
  capacity = omega arith;
}

leave-IsWithdrawal : IsWithdrawal keys leave
leave-IsWithdrawal = record { fleet = refl; endpoint = refl; key = refl; sequence = omega arith }

offer_size : length (encode_announcement offer) ≡ 236
unfolding encode_head encode_uint encode_text encode_bytes canonical_cmp field insert_field
    sort_fields concat_fields encode_map concat_texts encode_capability capability_field
    encode_capabilities encode_announcement encode_withdrawal encode_envelope compare_bytes be_bytes
offer_size = refl

leave_size : length (encode_withdrawal leave) ≡ 125
unfolding encode_head encode_uint encode_text encode_bytes canonical_cmp field insert_field
    sort_fields concat_fields encode_map concat_texts encode_capability capability_field
    encode_capabilities encode_announcement encode_withdrawal encode_envelope compare_bytes be_bytes
leave_size = refl

envelope_size : length (encode_envelope (encode_announcement offer) stamp) ≡ 320
unfolding encode_head encode_uint encode_text encode_bytes canonical_cmp field insert_field
    sort_fields concat_fields encode_map concat_texts encode_capability capability_field
    encode_capabilities encode_announcement encode_withdrawal encode_envelope compare_bytes be_bytes
envelope_size = refl

leave_envelope_size : length (encode_envelope (encode_withdrawal leave) stamp) ≡ 209
unfolding encode_head encode_uint encode_text encode_bytes canonical_cmp field insert_field
    sort_fields concat_fields encode_map concat_texts encode_capability capability_field
    encode_capabilities encode_announcement encode_withdrawal encode_envelope compare_bytes be_bytes
leave_envelope_size = refl

abbrev pub sealed : Bytes
sealed = encode_envelope (encode_announcement offer) stamp

pub offer_signed : sign_announcement offer secret ≡ ok sealed
unfolding sign_announcement sign_body encode_head encode_uint encode_text encode_bytes canonical_cmp
    field insert_field sort_fields concat_fields encode_map concat_texts encode_capability
    capability_field encode_capabilities encode_announcement encode_withdrawal encode_envelope
    compare_bytes be_bytes validate_announcement valid_node_name name_byte host_byte split_once
    contains capability_byte starts_lowercase valid_capability_name valid_capability_value
    valid_capability bytes_eq
offer_signed = refl

abbrev pub sealed_leave : Bytes
sealed_leave = encode_envelope (encode_withdrawal leave) stamp

decode_message-encode_announcement_example :
    decode_message keys (encode_announcement offer) ≡ ok (announcement offer)
decode_message-encode_announcement_example =
    decode_message-encode_announcement keys offer offer-IsAnnouncement (omega (arith, offer_size))

pub leave_opened : decode_envelope keys sealed_leave ≡ ok (encode_withdrawal leave, stamp)
leave_opened =
    decode_envelope-encode_envelope keys (encode_withdrawal leave) stamp (omega (arith, leave_size))
      refl refl (omega (arith, leave_envelope_size))

pub leave_decoded : decode_message keys (encode_withdrawal leave) ≡ ok (withdrawal leave)
leave_decoded =
    decode_message-encode_withdrawal keys leave leave-IsWithdrawal (omega (arith, leave_size))

decode_message-encode_withdrawal_example :
    decode_message keys (encode_withdrawal leave) ≡ ok (withdrawal leave)
decode_message-encode_withdrawal_example =
    decode_message-encode_withdrawal keys leave leave-IsWithdrawal (omega (arith, leave_size))

pub offer_decoded : decode_message keys (encode_announcement offer) ≡ ok (announcement offer)
offer_decoded =
    decode_message-encode_announcement keys offer offer-IsAnnouncement (omega (arith, offer_size))

pub offer_opened :
    decode_envelope keys (encode_envelope (encode_announcement offer) stamp)
    ≡ ok (encode_announcement offer, stamp)
offer_opened =
    decode_envelope-encode_envelope keys (encode_announcement offer) stamp
      (omega (arith, offer_size)) refl refl (omega (arith, envelope_size))

decode_message-canonical_example : encode_message (announcement offer) ≡ encode_announcement offer
decode_message-canonical_example =
    decode_message-canonical keys (encode_announcement offer) (announcement offer) offer_decoded

decode_envelope-canonical_example :
    encode_envelope (encode_announcement offer) stamp
    ≡ encode_envelope (encode_announcement offer) stamp
decode_envelope-canonical_example =
    decode_envelope-canonical keys (encode_envelope (encode_announcement offer) stamp)
      (encode_announcement offer) stamp offer_opened

sign_announcement-IsSigned_example :
    (node ≡ node)
    × (validate_announcement offer ≡ ok tt)
    × IsSigned keys secret (encode_announcement offer) sealed
    × (decode_message keys (encode_announcement offer) ≡ ok (announcement offer))
sign_announcement-IsSigned_example =
    sign_announcement-IsSigned keys secret secret-Signs offer sealed offer-IsAnnouncement
      offer_signed
