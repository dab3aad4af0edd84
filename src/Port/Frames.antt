-- ===== src/Port/Frames.antt =====
-- native/iroh_discovery/src/bin/iroh_discovery_port.rs: `read_frame` and `write_json`. The input is
-- the bytes that it will still deliver before its end, and a write succeeds. What serde_json writes
-- for a value is a parameter.
use nerves_p2p.Prelude.{
  ℕ, ◌*◌, ◌%◌, ◌^◌, ◌≤◌, ◌≡◌, refl, subst, false, [], ◌++◌, append_assoc, length, length-append,
  take, drop, take-append, drop-append, ltb, if◌then◌else◌, Result, ok, err, arith, Bool-cases, inl,
  inr, Option, none, some, unwrap_or, ◌==◌,
}
use nerves_p2p.Prelude.Bytes.{
  Bytes, Eq_bytes, text as ascii, be_bytes, from_be, length-be_bytes, from_be-be_bytes,
}
use nerves_p2p.Port.Values.{Value, null, boolean, string, object, Fields, last, field}

abbrev pub max_frame_size : ℕ
max_frame_size = 64 * 1024

pub data Frame : Type 0 where
  eof oversized : Frame
  payload : Bytes → Frame

pub data IoError : Type 0 where
  unexpected_eof : IoError

-- An input that ends within the length is at its end; a frame that is too large is skipped.
unfoldable pub read_frame : Bytes → Result (Frame × Bytes) IoError
read_frame input =
    if ltb (length input) 4
    then ok (eof, [])
    else let size = from_be (take 4 input) in
      let rest = drop 4 input in
      if ltb max_frame_size size
      then ok (oversized, drop size rest)
      else if ltb (length rest) size
      then err IoError.unexpected_eof
      else ok (payload (take size rest), drop size rest)

unfoldable pub get_field : Fields → Bytes → Option Value
get_field last name = none
get_field (field key value fs) name = if key == name then some value else get_field fs name

unfoldable pub get_id : Value → Value
unfolding get_field
get_id (object fs) = unwrap_or (get_field fs (ascii "id")) null
get_id _ = null

unfoldable pub too_large : Value → Value
unfolding get_id
too_large value = object (
    field (ascii "id") (get_id value) (
      field (ascii "ok") (boolean false)
        (field (ascii "error") (string (ascii "frame_too_large")) last)))

unfoldable pub with_length : Bytes → Bytes
with_length bytes = be_bytes 4 (length bytes % 2 ^ 32) ++ bytes

module _ (to_vec : Value → Bytes) where
  unfoldable pub write_json : Value → Bytes
  unfolding with_length
  write_json value = with_length (
      if ltb max_frame_size (length (to_vec value)) then to_vec (too_large value) else to_vec value)

read_frame-with_length :
    (bytes rest : Bytes)
    → length bytes ≤ max_frame_size
    → read_frame (with_length bytes ++ rest) ≡ ok (payload bytes, rest)
unfolding read_frame with_length
read_frame-with_length bytes rest fits =
    let size : Bytes = be_bytes 4 (length bytes % 4294967296) in
    let four : length size ≡ 4 = length-be_bytes 4 (length bytes % 4294967296) in
    let same : from_be size ≡ length bytes =
      omega (arith, from_be-be_bytes 4 (length bytes % 4294967296) (omega arith), fits) in
    let front : take 4 (size ++ (bytes ++ rest)) ≡ size =
      subst (λ n. take n (size ++ (bytes ++ rest)) ≡ size) four
        (take-append size (bytes ++ rest)) in
    let back : drop 4 (size ++ (bytes ++ rest)) ≡ bytes ++ rest =
      subst (λ n. drop n (size ++ (bytes ++ rest)) ≡ bytes ++ rest) four
        (drop-append size (bytes ++ rest)) in
    let long : ltb (length (size ++ (bytes ++ rest))) 4 ≡ false =
      ground (arith, length-append size (bytes ++ rest), four) in
    let small : ltb max_frame_size (length bytes) ≡ false = ground (arith, fits) in
    let whole : ltb (length (bytes ++ rest)) (length bytes) ≡ false =
      ground (arith, length-append bytes rest) in
    rw
      (
        append_assoc size bytes rest,
        long,
        front,
        same,
        small,
        back,
        whole,
        take-append bytes rest,
        drop-append bytes rest,
      )
      refl

-- A frame that `write_json` writes is read back as the value's text, or as that of the error that
-- stands for a value whose text is too large, provided that the error's own text, which holds the
-- request's id, is not too large; and what follows it is left on the stream.
pub read_frame-write_json :
    (to_vec : Value → Bytes) (value : Value) (rest : Bytes)
    → length (to_vec (too_large value)) ≤ max_frame_size
    → read_frame (write_json to_vec value ++ rest)
      ≡ ok (
        payload (
            if ltb max_frame_size (length (to_vec value))
            then to_vec (too_large value)
            else to_vec value),
        rest,
      )
unfolding write_json
read_frame-write_json to_vec value rest fits =
    elim (Bool-cases (ltb max_frame_size (length (to_vec value)))) [
      | inl over ↦ rw over (read_frame-with_length (to_vec (too_large value)) rest fits)
      | inr under ↦ rw under (read_frame-with_length (to_vec value) rest (ground (arith, under)))
    ]
