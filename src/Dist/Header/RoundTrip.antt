-- ===== src/Dist/Header/RoundTrip.antt =====
-- native/iroh_discovery/src/dist.rs: `encode_header` and `read_header`, one after the other.
use nerves_p2p.Prelude.{
  ℕ, ◌+◌, ◌%◌, ◌≤◌, ◌≡◌, refl, sym, true, false, not, ◌&&◌, [], ◌∷◌, ◌++◌, append_assoc, length,
  length-append, take-append, drop-append, some, inl, inr, Option-cases, ok, arith, leb,
}
use nerves_p2p.Prelude.Bytes.{
  Bytes, Eq_bytes, bytes_eq_refl, be_bytes, from_be, length-be_bytes, from_be-be_bytes,
}
use nerves_p2p.Prelude.Text.{is_utf8, split_once}
use nerves_p2p.Discovery.Validate.{valid_node_name}
use nerves_p2p.Dist.Header.{magic, read_exact, read_node, read_header, encode_node, encode_header}

length-split_once :
    (v : Bytes) (c : ℕ) (name host : Bytes)
    → split_once v c ≡ some (name, host)
    → length v ≡ length name + (1 + length host)
unfolding split_once
length-split_once [] c name host h = ground arith
length-split_once (b ∷ bs) c name host h = elim (Option-cases (split_once bs c)) [
  | inl absent ↦ ground (arith, absent)
  | inr ((n, x), found) ↦ ground (arith, length-split_once bs c n x found)
]

length-valid_node_name : (v : Bytes) → valid_node_name v ≡ true → (1 ≤ length v) × (length v ≤ 255)
unfolding valid_node_name
length-valid_node_name v h = elim (Option-cases (split_once v 64)) [
  | inl absent ↦ ground (arith, absent)
  | inr ((n, x), found) ↦ ground (arith, length-split_once v 64 n x found)
]

read_exact-append :
    (n : ℕ) (x rest : Bytes) → length x ≡ n → read_exact n (x ++ rest) ≡ ok (x, rest)
unfolding read_exact
read_exact-append n x rest e =
    rw (sym e, take-append x rest, drop-append x rest) (ground (arith, length-append x rest))

read_node-encode_node :
    (v rest : Bytes)
    → is_utf8 v ≡ true
    → valid_node_name v ≡ true
    → read_node (encode_node v ++ rest) ≡ ok (v, rest)
unfolding read_node encode_node read_exact be_bytes
read_node-encode_node v rest text valid =
    let (low, high) = length-valid_node_name v valid in
    let same : from_be (be_bytes 2 (length v % 65536)) ≡ length v =
      omega (arith, from_be-be_bytes 2 (length v % 65536) (omega arith), high) in
    let fits : (not (leb 1 (length v) && leb (length v) 255)) ≡ false = ground (arith, low, high) in
    rw (
      read_exact-append 2 (be_bytes 2 (length v % 65536)) (v ++ rest)
          (length-be_bytes 2 (length v % 65536)),
      same,
      fits,
      read_exact-append (length v) v rest refl,
      text,
      valid,
    )

-- The two names of a header are read from its bytes, whatever follows on the stream.
pub read_header-encode_header :
    (from_node target_node rest : Bytes)
    → is_utf8 from_node ≡ true
    → valid_node_name from_node ≡ true
    → is_utf8 target_node ≡ true
    → valid_node_name target_node ≡ true
    → read_header (encode_header from_node target_node ++ rest)
      ≡ ok (record { from_node = from_node; target_node = target_node }, rest)
unfolding read_header encode_header
read_header-encode_header f t rest uf vf ut vt = rw (
  append_assoc magic (encode_node f ++ encode_node t) rest,
  read_exact-append 8 magic (encode_node f ++ encode_node t ++ rest) (unfold magic in refl),
  bytes_eq_refl magic,
  append_assoc (encode_node f) (encode_node t) rest,
  read_node-encode_node f (encode_node t ++ rest) uf vf,
  read_node-encode_node t rest ut vt,
)
