-- ===== src/Discovery/Codec/Head.antt =====
-- `Reader::head` reads back what `encode_head` writes: the five widths of a CBOR head.
use nerves_p2p.Prelude.{
  ℕ, ◌+◌, ◌*◌, ◌/◌, ◌%◌, ◌^◌, ◌≤◌, ◌<◌, ◌≡◌, refl, ap, sym, subst, append-nil, ◌∙◌, [], ◌∷◌, ◌++◌,
  arith, length, bit_or, bit_and,
}
use native.Mathlib.Nat.{mod-eq_of_lt}
use native.Mathlib.Decide.{dec_le}
use nerves_p2p.Prelude.Bytes.{
  Bytes, be_bytes, from_be-be_bytes, length-be_bytes, bit_and_31, bit_or_prefix,
}
use nerves_p2p.Discovery.Types.{u64_max}
use nerves_p2p.Discovery.Encode.{encode_head}
use nerves_p2p.Discovery.Reader.{Reader, take_bytes, word_above, additional, head}
use nerves_p2p.Discovery.Codec.Reads.{Reads, Reads-bind, Reads-then, Reads-take}

word_above-Reads : (n low v : ℕ) → low < v → v < 256 ^ n → Reads (word_above n low) (be_bytes n v) v
unfolding word_above
word_above-Reads n low v above below =
    Reads-then (take_bytes n) _ (be_bytes n v) (be_bytes n v) v
      (subst_length (Reads-take (be_bytes n v)))
      (λ r. rw (from_be-be_bytes n v below) (ground arith))
  where
    subst_length :
        Reads (take_bytes (length (be_bytes n v))) (be_bytes n v) (be_bytes n v)
        → Reads (take_bytes n) (be_bytes n v) (be_bytes n v)
    subst_length h pre rest fits =
        ap
          (λ m.
            take_bytes m (record { bytes = pre ++ (be_bytes n v ++ rest); offset = length pre }))
          (sym (length-be_bytes n v))
        ∙ h pre rest fits

-- The first byte: its type, then what its lower bits announce.
head-Reads :
    (major low v : ℕ) (y : Bytes)
    → major < 8
    → low < 32
    → Reads (additional low) y v
    → Reads (head major) ((major * 32 + low) ∷ y) v
unfolding head
head-Reads major low v y hm hl hy =
    Reads-bind (take_bytes 1) _ ((major * 32 + low) ∷ []) y ((major * 32 + low) ∷ []) v
      (Reads-take ((major * 32 + low) ∷ []))
      (λ pre rest fits. rw (low_bits, first_byte) (ground (arith, hy pre rest fits)))
  where
    first_byte : (major * 32 + low) / 32 ≡ major
    first_byte = omega arith

    low_bits : bit_and (major * 32 + low) 0x1f ≡ low
    low_bits = bit_and_31 (major * 32 + low) (omega arith) ∙ omega arith

small-Reads : (v : ℕ) → v ≤ 23 → Reads (additional v) [] v
unfolding additional
small-Reads v h pre rest fits = ground (arith, append-nil pre)

-- The announced widths of a word.
word-Reads :
    (code n low v : ℕ)
    → ((r : Reader) → additional code r ≡ word_above n low r)
    → low < v
    → v < 256 ^ n
    → Reads (additional code) (be_bytes n v) v
word-Reads code n low v same above below pre rest fits =
    same _ ∙ word_above-Reads n low v above below pre rest fits

module _ (major v : ℕ) (hm : major < 8) where
  abbrev Decodes : Type 0
  Decodes = Reads (head major) (encode_head major v) v

  -- The first byte holds `low`, and `y` follows.
  decodes_as :
      (low : ℕ) (y : Bytes)
      → low < 32
      → encode_head major v ≡ bit_or (major * 32 % 256) low ∷ y
      → Reads (additional low) y v
      → Decodes
  decodes_as low y hl written hy =
      subst (λ w. Reads (head major) w v)
        (sym (written ∙ ap (λ b. b ∷ y) (bit_or_prefix major low hm hl)))
        (head-Reads major low v y hm hl hy)

  one_byte : v ≤ 23 → Decodes
  unfolding encode_head
  one_byte h =
      decodes_as (v % 256) [] (omega arith) (ground arith)
        (rw (mod-eq_of_lt below) (small-Reads v h))
    where
      below : v < 256
      below = omega arith

  two_bytes : 23 < v → v ≤ 0xff → Decodes
  unfolding encode_head additional
  two_bytes h k =
      decodes_as 24 (be_bytes 1 v) (omega arith) (ground arith)
        (word-Reads 24 1 23 v (λ r. refl) h (omega arith))

  three_bytes : 0xff < v → v ≤ 0xffff → Decodes
  unfolding encode_head additional
  three_bytes h k =
      decodes_as 25 (be_bytes 2 v) (omega arith) (ground arith)
        (word-Reads 25 2 0xff v (λ r. refl) h (omega arith))

  five_bytes : 0xffff < v → v ≤ 0xffff_ffff → Decodes
  unfolding encode_head additional
  five_bytes h k =
      decodes_as 26 (be_bytes 4 v) (omega arith) (ground arith)
        (word-Reads 26 4 0xffff v (λ r. refl) h (omega arith))

  nine_bytes : 0xffff_ffff < v → v ≤ u64_max → Decodes
  unfolding encode_head additional
  nine_bytes h k =
      decodes_as 27 (be_bytes 8 v) (omega arith) (ground arith)
        (word-Reads 27 8 0xffff_ffff v (λ r. refl) h (omega arith))

  any_width : v ≤ u64_max → Decodes
  any_width h = elim (dec_le v 23) [
    | yes a ↦ one_byte a
    | no a ↦ elim (dec_le v 0xff) [
      | yes b ↦ two_bytes (omega arith) b
      | no b ↦ elim (dec_le v 0xffff) [
        | yes c ↦ three_bytes (omega arith) c
        | no c ↦ elim (dec_le v 0xffff_ffff) [
          | yes d ↦ five_bytes (omega arith) d
          | no d ↦ nine_bytes (omega arith) h
        ]
      ]
    ]
  ]

-- A head of any type below 8 and any 64-bit value is read back, whatever its width, from any
-- place of the input and with any bytes behind it.
pub head-encode_head :
    (major v : ℕ) → major < 8 → v ≤ u64_max → Reads (head major) (encode_head major v) v
head-encode_head major v hm hv = any_width major v hm hv

-- The upper three bits of the first byte hold the type.
pub encode_head-first :
    (major v : ℕ)
    → major < 8
    → (low : ℕ) × (y : Bytes) × (low < 32) × (encode_head major v ≡ (major * 32 + low) ∷ y)
unfolding encode_head
encode_head-first major v hm = elim (dec_le v 23) [
  | yes a ↦ (v % 256, [], omega arith, ground (arith, bit_or_prefix major (v % 256) hm))
  | no a ↦ elim (dec_le v 0xff) [
    | yes b ↦ (24, be_bytes 1 v, omega arith, ground (arith, bit_or_prefix major 24 hm))
    | no b ↦ elim (dec_le v 0xffff) [
      | yes c ↦ (25, be_bytes 2 v, omega arith, ground (arith, bit_or_prefix major 25 hm))
      | no c ↦ elim (dec_le v 0xffff_ffff) [
        | yes d ↦ (26, be_bytes 4 v, omega arith, ground (arith, bit_or_prefix major 26 hm))
        | no d ↦ (27, be_bytes 8 v, omega arith, ground (arith, bit_or_prefix major 27 hm))
      ]
    ]
  ]
]

pub length-encode_head : (major v : ℕ) → length (encode_head major v) ≤ 9
unfolding encode_head
length-encode_head major v =
    ground
      (arith, length-be_bytes 1 v, length-be_bytes 2 v, length-be_bytes 4 v, length-be_bytes 8 v)
