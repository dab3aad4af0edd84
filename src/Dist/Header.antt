-- ===== src/Dist/Header.antt =====
-- native/iroh_discovery/src/dist.rs: `encode_header`, `read_header` and `read_node`. A receiving
-- stream is the bytes that it will still deliver before its end.
pub mod RoundTrip
use nerves_p2p.Prelude.{
  ℕ, ◌%◌, ◌^◌, Bool, true, false, not, ◌&&◌, List, ◌++◌, length, take, drop, ltb, leb, ◌==◌,
  if◌then◌else◌, Result, ok, err, Results.◌>>=◌, Results.◌>>◌, refuse_if,
}
use nerves_p2p.Prelude.Bytes.{Bytes, Eq_bytes, text, be_bytes, from_be}
use nerves_p2p.Prelude.Text.{is_utf8}
use nerves_p2p.Discovery.Validate.{valid_node_name}

pub data HeaderError : Type 0 where
  ended bad_magic bad_node_length bad_node_encoding bad_node_name : HeaderError

pub record Header : Type 0 where
  pub from_node : Bytes
  pub target_node : Bytes

-- `read_exact`.
unfoldable pub read_exact : ℕ → Bytes → Result (Bytes × Bytes) HeaderError
read_exact n stream =
    if ltb (length stream) n then err HeaderError.ended else ok (take n stream, drop n stream)

unfoldable pub read_node : Bytes → Result (Bytes × Bytes) HeaderError
read_node stream = do
  (encoded_length, stream) ← read_exact 2 stream
  let length = from_be encoded_length
  refuse_if (not (leb 1 length && leb length 255)) HeaderError.bad_node_length
  (node, stream) ← read_exact length stream
  refuse_if (not (is_utf8 node)) HeaderError.bad_node_encoding
  refuse_if (not (valid_node_name node)) HeaderError.bad_node_name
  ok (node, stream)

unfoldable pub magic : Bytes
magic = text "ERLDIST1"

unfoldable pub read_header : Bytes → Result (Header × Bytes) HeaderError
read_header stream = do
  (start, stream) ← read_exact 8 stream
  refuse_if (not (start == magic)) HeaderError.bad_magic
  (from_node, stream) ← read_node stream
  (target_node, stream) ← read_node stream
  ok (record { from_node = from_node; target_node = target_node }, stream)

-- `len() as u16` keeps the low 16 bits.
unfoldable pub encode_node : Bytes → Bytes
encode_node node = be_bytes 2 (length node % 2 ^ 16) ++ node

unfoldable pub encode_header : Bytes → Bytes → Bytes
encode_header from_node target_node = magic ++ (encode_node from_node ++ encode_node target_node)
