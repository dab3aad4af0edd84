-- ===== src/Discovery/Codec/Strings.antt =====
-- Integers, texts, byte strings, arrays and map keys are read back.
use nerves_p2p.Prelude.{
  ℕ, ◌+◌, ◌-◌, ◌^◌, ◌≤◌, ◌<◌, ◌≡◌, ap, [], ◌++◌, append_assoc, arith, length, length-append,
  take-append, drop-append, true, false, Option,
}
use nerves_p2p.Prelude.Bytes.{Bytes}
use nerves_p2p.Prelude.Text.{is_utf8}
use nerves_p2p.Discovery.Types.{u64_max}
use nerves_p2p.Discovery.Encode.{encode_head, encode_uint, encode_text, encode_bytes}
use nerves_p2p.Discovery.Reader.{
  ◌>>=◌, take_bytes, length_of, uint, map_len, text, byte_string, read_array, since, canonical_key,
  out_of_order,
}
use nerves_p2p.Discovery.Codec.Reads.{at, Reads, Reads-bind, Reads-then, Reads-take}
use nerves_p2p.Discovery.Codec.Head.{head-encode_head, length-encode_head}

pub uint-encode_uint : (v : ℕ) → v ≤ u64_max → Reads uint (encode_uint v) v
unfolding uint encode_uint
uint-encode_uint v h = head-encode_head 0 v (omega arith) h

pub map_len-Reads : (n : ℕ) → n ≤ u64_max → Reads map_len (encode_head 5 n) n
unfolding map_len length_of
map_len-Reads n h = head-encode_head 5 n (omega arith) h

pub length-Reads :
    (major n : ℕ) → major < 8 → n ≤ u64_max → Reads (length_of major) (encode_head major n) n
unfolding length_of
length-Reads major n hm h = head-encode_head major n hm h

pub byte_string-encode_bytes :
    (x : Bytes) → length x ≤ u64_max → Reads byte_string (encode_bytes x) x
unfolding byte_string encode_bytes
byte_string-encode_bytes x h =
    Reads-bind (length_of 2) _ (encode_head 2 (length x)) x (length x) x
      (length-Reads 2 (length x) (omega arith) h) (Reads-take x)

pub text-encode_text :
    (x : Bytes) → length x ≤ u64_max → is_utf8 x ≡ true → Reads text (encode_text x) x
unfolding text encode_text
text-encode_text x h u =
    Reads-bind (length_of 3) _ (encode_head 3 (length x)) x (length x) x
      (length-Reads 3 (length x) (omega arith) h)
      (Reads-then (take_bytes (length x)) _ x x x (Reads-take x) (λ r. rw u))

pub read_array-Reads :
    (x : Bytes) (n : ℕ) → length x ≡ n → n ≤ u64_max → Reads (read_array n) (encode_bytes x) x
unfolding read_array
read_array-Reads x n e h =
    Reads-then byte_string _ (encode_bytes x) x x (byte_string-encode_bytes x (omega arith))
      (λ r. ground arith)

since-at : (pre x rest : Bytes) → since (length pre) (at (pre ++ x) rest) ≡ x
unfolding since
since-at pre x rest =
    let gone : length (pre ++ x) - length pre ≡ length x = omega (arith, length-append pre x) in
    rw (append_assoc pre x rest, drop-append pre (x ++ rest), gone) (take-append x rest)

-- A key is read with its encoded form, if it stands behind the previous one.
pub canonical_key-Reads :
    (previous : Option Bytes) (x : Bytes)
    → length x ≤ u64_max
    → is_utf8 x ≡ true
    → out_of_order previous (encode_text x) ≡ false
    → Reads (canonical_key previous) (encode_text x) (x, encode_text x)
unfolding canonical_key
canonical_key-Reads previous x h u order pre rest fits =
    rw (text-encode_text x h u pre rest fits, since-at pre (encode_text x) rest, order)

-- A Rust string: UTF-8 bytes, of which an allocation holds fewer than 2 ^ 63.
abbrev pub IsStr : Bytes → Type 0
IsStr x = (length x < 2 ^ 63) × (is_utf8 x ≡ true)

-- The parts of `text`, without the test of the encoding.
raw_text-Reads :
    (x : Bytes) → length x < 2 ^ 63 → Reads (length_of 3 >>= take_bytes) (encode_text x) x
unfolding encode_text
raw_text-Reads x h =
    Reads-bind (length_of 3) take_bytes (encode_head 3 (length x)) x (length x) x
      (length-Reads 3 (length x) (omega arith) (omega arith)) (Reads-take x)

length-encode_text : (x : Bytes) → length (encode_text x) ≤ length x + 9
unfolding encode_text
length-encode_text x =
    omega (arith, length-append (encode_head 3 (length x)) x, length-encode_head 3 (length x))

pub encode_text-injective :
    (x y : Bytes) → length x < 2 ^ 63 → length y < 2 ^ 63 → encode_text x ≡ encode_text y → x ≡ y
encode_text-injective x y hx hy e =
    let px = raw_text-Reads x hx [] [] (omega (arith, length-encode_text x)) in
    let py = raw_text-Reads y hy [] [] (omega (arith, length-encode_text y)) in
    cc (px, py, ap (λ w. (length_of 3 >>= take_bytes) (at [] (w ++ []))) e)
