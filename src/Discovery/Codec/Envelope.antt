-- ===== src/Discovery/Codec/Envelope.antt =====
-- `decode_envelope` reads back what `encode_envelope` writes.
use nerves_p2p.Prelude.{
  length-append, ap, ◌≤◌, suc, ℕ, ◌≤◌, ◌≡◌, refl, [], ◌++◌, append-nil, length, arith, some, ok,
  true,
}
use nerves_p2p.Prelude.Bytes.{Bytes, bytes_eq, bytes_eq_refl, text as ascii}
use nerves_p2p.Prelude.Order.{compare_bytes}
use nerves_p2p.Prelude.Text.{is_utf8}
use nerves_p2p.Discovery.Types.{Keys, u64_max}
use nerves_p2p.Discovery.Encode.{
  encode_head, encode_text, encode_bytes, canonical_cmp, encode_envelope,
}
use nerves_p2p.Discovery.Reader.{out_of_order, canonical_key, byte_string, read_array, map_len}
use nerves_p2p.Discovery.Decode.{
  EnvelopeDraft, envelope_field, envelope_fields, read_envelope, decode_envelope,
}
use nerves_p2p.Discovery.Codec.Reads.{
  Reads, Reads-bind, Reads-then, Ends, Ends-new, Ends-bind, Ends-finish,
}
use nerves_p2p.Discovery.Codec.Strings.{
  map_len-Reads, canonical_key-Reads, byte_string-encode_bytes, read_array-Reads,
}
use nerves_p2p.Discovery.Codec.Layout.{entry, envelope_layout}
use nerves_p2p.Discovery.Codec.Message.{Comes}

module _ (k : Keys) where
  envelope_step :
      (x : Bytes) (n : ℕ) (d d' : EnvelopeDraft) (w rest : Bytes) (result : EnvelopeDraft)
      → Comes x d.previous
      → Reads (envelope_field k x (record d { previous = some (encode_text x) })) w d'
      → Reads (envelope_fields k n d') rest result
      → Reads (envelope_fields k (suc n) d) (entry x w rest) result
  unfolding envelope_fields
  envelope_step x n d d' w rest result c h more =
      Reads-bind (canonical_key d.previous) _ (encode_text x) (w ++ rest) (x, encode_text x) result
        (canonical_key-Reads d.previous x c.0 c.1 c.2)
        (Reads-bind (envelope_field k x (record d { previous = some (encode_text x) })) _ w rest d'
          result h more)

  envelope_done : (d : EnvelopeDraft) → Reads (envelope_fields k 0 d) [] d
  unfolding envelope_fields
  envelope_done d pre rest fits = rw append-nil

  body_field :
      (x : Bytes) (d : EnvelopeDraft)
      → length x ≤ u64_max
      → Reads (envelope_field k (ascii "body") d) (encode_bytes x) (record d { body = some x })
  unfolding envelope_field bytes_eq
  body_field x d h =
      Reads-then byte_string _ (encode_bytes x) x _ (byte_string-encode_bytes x h) (λ r. refl)

  signature_field :
      (x : Bytes) (d : EnvelopeDraft)
      → length x ≡ 64
      → k.is_signature x ≡ true
      → Reads
          (envelope_field k (ascii "signature") d)
          (encode_bytes x)
          (record d { signature = some x })
  unfolding envelope_field bytes_eq
  signature_field x d e h =
      Reads-then (read_array 64) _ (encode_bytes x) x _ (read_array-Reads x 64 e (omega arith))
        (λ r. rw h)

  abbrev filled : Bytes → Bytes → EnvelopeDraft
  filled body signature = record {
    previous = some (encode_text (ascii "signature"));
    body = some body;
    signature = some signature;
  }

  abbrev layout : Bytes → Bytes → Bytes
  layout body signature =
      entry (ascii "body") (encode_bytes body)
        (entry (ascii "signature") (encode_bytes signature) [])

  read_envelope-Ends :
      (body signature : Bytes)
      → length body ≤ u64_max
      → length signature ≡ 64
      → k.is_signature signature ≡ true
      → Ends (read_envelope k) (encode_head 5 2 ++ layout body signature) (filled body signature)
  unfolding read_envelope out_of_order canonical_cmp compare_bytes encode_text encode_head is_utf8
  read_envelope-Ends body signature hb hs ok_sig =
      Ends-bind map_len _ (encode_head 5 2) (layout body signature) 2 (filled body signature)
        (map_len-Reads 2 (omega arith))
        (Ends-finish (envelope_fields k 2 _) (λ d. d) (layout body signature)
          (filled body signature)
          (envelope_step (ascii "body") 1 _ _ (encode_bytes body) _ _ (omega arith, refl, refl)
            (body_field body _ hb)
            (envelope_step (ascii "signature") 0 _ _ (encode_bytes signature) [] _
              (omega arith, refl, refl) (signature_field signature _ hs ok_sig) (envelope_done _))))

  -- An envelope of any body and of 64 bytes that are a signature is taken apart into the two,
  -- provided that it fits the address space.
  pub decode_envelope-encode_envelope :
      (body signature : Bytes)
      → length body ≤ u64_max
      → length signature ≡ 64
      → k.is_signature signature ≡ true
      → length (encode_envelope body signature) ≤ u64_max
      → decode_envelope k (encode_envelope body signature) ≡ ok (body, signature)
  unfolding decode_envelope
  decode_envelope-encode_envelope body signature hb hs ok_sig fits = rw (
    Ends-new (read_envelope k) _ (encode_envelope body signature) _
        (read_envelope-Ends body signature hb hs ok_sig) envelope-layout fits,
    bytes_eq_refl (encode_envelope body signature),
  )
    where
      envelope-layout : encode_envelope body signature ≡ encode_head 5 2 ++ layout body signature
      envelope-layout =
          unfold encode_envelope in envelope_layout (encode_bytes body) (encode_bytes signature)

-- An envelope is at least as long as its body.
pub length-body : (body signature : Bytes) → length body ≤ length (encode_envelope body signature)
unfolding encode_bytes
length-body body signature =
    let b = encode_bytes body in
    let rest = encode_text (ascii "signature") ++ (encode_bytes signature ++ []) in
    omega (
      arith,
      ap length (envelope-layout_lem),
      length-append (encode_head 5 2) (encode_text (ascii "body") ++ (b ++ rest)),
      length-append (encode_text (ascii "body")) (b ++ rest),
      length-append b rest,
      length-append (encode_head 2 (length body)) body,
    )
  where
    envelope-layout_lem :
        encode_envelope body signature
        ≡ encode_head 5 2
          ++ entry
              (ascii "body")
              (encode_bytes body)
              (entry (ascii "signature") (encode_bytes signature) [])
    envelope-layout_lem =
        unfold encode_envelope in envelope_layout (encode_bytes body) (encode_bytes signature)
