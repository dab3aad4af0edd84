-- ===== src/Discovery/Codec/Canonical.antt =====
-- The decoders accept the canonical encoding only.
use nerves_p2p.Prelude.{◌≡◌, ok, arith}
use nerves_p2p.Prelude.Bytes.{Bytes, bytes_eq_iff}
use nerves_p2p.Discovery.Types.{Keys, Message}
use nerves_p2p.Discovery.Encode.{encode_message, encode_envelope}
use nerves_p2p.Discovery.Decode.{decode_message, decode_envelope}

-- Whatever bytes `decode_message` accepts are the encoding of the message that it returns.
pub decode_message-canonical :
    (k : Keys) (bytes : Bytes) (m : Message)
    → decode_message k bytes ≡ ok m
    → encode_message m ≡ bytes
unfolding decode_message
decode_message-canonical k bytes m h = ground (arith, bytes_eq_iff (encode_message m) bytes)

-- Whatever bytes `decode_envelope` accepts are the envelope of the body and the signature that it
-- returns.
pub decode_envelope-canonical :
    (k : Keys) (bytes body signature : Bytes)
    → decode_envelope k bytes ≡ ok (body, signature)
    → encode_envelope body signature ≡ bytes
unfolding decode_envelope
decode_envelope-canonical k bytes body signature h =
    ground (arith, bytes_eq_iff (encode_envelope body signature) bytes)
