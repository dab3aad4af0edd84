-- ===== src/Discovery/Codec/Withdrawals.antt =====
-- `decode_message` reads back what `encode_withdrawal` writes.
use nerves_p2p.Prelude.{◌≤◌, ◌≡◌, refl, [], ◌++◌, length, arith, none, some, ok, true}
use nerves_p2p.Prelude.Bytes.{Bytes, bytes_eq, bytes_eq_refl, text as ascii}
use nerves_p2p.Prelude.Order.{compare_bytes}
use nerves_p2p.Prelude.Text.{is_utf8}
use nerves_p2p.Discovery.Types.{Keys, Withdrawal, u64_max, withdrawal}
use nerves_p2p.Discovery.Encode.{
  encode_head, encode_text, encode_uint, encode_bytes, canonical_cmp, encode_withdrawal,
  encode_message,
}
use nerves_p2p.Discovery.Reader.{out_of_order, uint, text, read_array, map_len}
use nerves_p2p.Discovery.Decode.{
  Draft, no_fields, endpoint_field, message_field, message_fields, finish_message, read_message,
  decode_message,
}
use nerves_p2p.Discovery.Codec.Reads.{Reads, Ends, Ends-new, Ends-bind, Ends-finish}
use nerves_p2p.Discovery.Codec.Strings.{
  map_len-Reads, uint-encode_uint, text-encode_text, read_array-Reads,
}
use nerves_p2p.Discovery.Codec.Layout.{entry, withdrawal_layout}
use nerves_p2p.Discovery.Codec.Message.{message_step, message_done}
use nerves_p2p.Discovery.Codec.Announcements.{endpoint_field-Reads}

-- What the Rust types of the fields hold.
pub record IsWithdrawal (k : Keys) (w : Withdrawal) : Type 0 where
  pub fleet : length w.fleet_id ≡ 32
  pub endpoint : length w.endpoint_id ≡ 32
  pub key : k.is_endpoint w.endpoint_id ≡ true
  pub sequence : w.sequence ≤ u64_max

module _ (k : Keys) where
  abbrev filled : Withdrawal → Draft
  filled w = record {
    previous = some (encode_text (ascii "endpoint_id"));
    version = some 1;
    kind = some (ascii "withdrawal");
    fleet_id = some w.fleet_id;
    endpoint_id = some w.endpoint_id;
    node_name = none;
    partisan_ip = none;
    partisan_port = none;
    sequence = some w.sequence;
    ttl_ms = none;
    capabilities = none;
    load = none;
  }

  abbrev layout : Withdrawal → Bytes
  layout w = entry (ascii "kind") (encode_text (ascii "withdrawal")) (
      entry (ascii "version") (encode_uint 1) (
        entry (ascii "fleet_id") (encode_bytes w.fleet_id) (
          entry (ascii "sequence") (encode_uint w.sequence)
            (entry (ascii "endpoint_id") (encode_bytes w.endpoint_id) []))))

  withdrawal_fields :
      (w : Withdrawal)
      → IsWithdrawal k w
      → Reads (message_fields k 5 no_fields) (layout w) (filled w)
  unfolding no_fields message_field bytes_eq out_of_order canonical_cmp compare_bytes encode_text
      encode_head is_utf8
  withdrawal_fields w v =
      message_step k (ascii "kind") 4 _ text _ _ (ascii "withdrawal") _ _ (omega arith, refl, refl)
        (λ r. refl) (text-encode_text (ascii "withdrawal") (omega arith) refl)
        (message_step k (ascii "version") 3 _ uint _ _ 1 _ _ (omega arith, refl, refl) (λ r. refl)
          (uint-encode_uint 1 (omega arith))
          (message_step k (ascii "fleet_id") 2 _ (read_array 32) _ _ w.fleet_id _ _
            (omega arith, refl, refl) (λ r. refl)
            (read_array-Reads w.fleet_id 32 v.fleet (omega arith))
            (message_step k (ascii "sequence") 1 _ uint _ _ w.sequence _ _ (omega arith, refl, refl)
              (λ r. refl) (uint-encode_uint w.sequence v.sequence)
              (message_step k (ascii "endpoint_id") 0 _ (endpoint_field k) _ _ w.endpoint_id [] _
                (omega arith, refl, refl) (λ r. refl)
                (endpoint_field-Reads k w.endpoint_id v.endpoint v.key)
                (message_done k (filled w))))))

  read_withdrawal :
      (w : Withdrawal)
      → IsWithdrawal k w
      → Ends (read_message k) (encode_head 5 5 ++ layout w) (5, filled w)
  unfolding read_message
  read_withdrawal w v =
      Ends-bind map_len _ (encode_head 5 5) (layout w) 5 (5, filled w)
        (map_len-Reads 5 (omega arith))
        (Ends-finish (message_fields k 5 no_fields) (λ d. (5, d)) (layout w) (filled w)
          (withdrawal_fields w v))

  finish_filled : (w : Withdrawal) → finish_message 5 (filled w) ≡ ok (withdrawal w)
  unfolding finish_message bytes_eq
  finish_filled w = refl

  withdrawal-layout : (w : Withdrawal) → encode_withdrawal w ≡ encode_head 5 5 ++ layout w
  unfolding encode_withdrawal
  withdrawal-layout w =
      withdrawal_layout (encode_uint 1) (encode_text (ascii "withdrawal")) (encode_bytes w.fleet_id)
        (encode_bytes w.endpoint_id) (encode_uint w.sequence)

  -- Every withdrawal that its Rust type can hold is decoded from its encoding, exactly as it was,
  -- provided that the encoding fits the address space.
  pub decode_message-encode_withdrawal :
      (w : Withdrawal)
      → IsWithdrawal k w
      → length (encode_withdrawal w) ≤ u64_max
      → decode_message k (encode_withdrawal w) ≡ ok (withdrawal w)
  unfolding decode_message encode_message
  decode_message-encode_withdrawal w v fits = rw (
    Ends-new (read_message k) _ (encode_withdrawal w) _ (read_withdrawal w v) (withdrawal-layout w)
        fits,
    finish_filled w,
    bytes_eq_refl (encode_withdrawal w),
  )
