-- ===== src/Discovery/Reader.antt =====
-- native/iroh_discovery/src/lib.rs: `Reader`, the cursor over an input. A method that fails ends
-- the decoding, so its error carries no reader.
use nerves_p2p.Prelude.{
  ℕ, zero, suc, ◌+◌, ◌-◌, ◌/◌, Bool, true, false, not, List, [], ◌∷◌, length, take, drop, leb, ltb,
  nat_eq, if◌then◌else◌, Option, none, some, Result, ok, err, ok_or, bit_and,
}
use nerves_p2p.Prelude.Bytes.{Bytes, from_be}
use nerves_p2p.Prelude.Order.{is_less}
use nerves_p2p.Prelude.Text.{is_utf8}
use nerves_p2p.Prelude.Results
use nerves_p2p.Discovery.Types.{Error, CapabilityValue, u64_max}
use nerves_p2p.Discovery.Encode.{canonical_cmp}

pub record Reader : Type 0 where
  pub bytes : Bytes
  pub offset : ℕ

abbrev pub Parse {ℓ} : Type ℓ → Type ℓ
Parse A = Reader → Result (A × Reader) Error

abbrev pub pure {ℓ} : {A : Type ℓ} → A → Parse A
pure a r = ok (a, r)

abbrev pub fail {ℓ} : {A : Type ℓ} → Error → Parse A
fail e r = err e

-- A `?` on a result that reads nothing.
abbrev pub lift {ℓ} : {A : Type ℓ} → Result A Error → Parse A
lift m r = Results.◌>>=◌ m λ a. ok (a, r)

module _ {ℓ κ} {A : Type ℓ} {B : Type κ} where
  infixl 5 ◌>>=◌
  abbrev pub ◌>>=◌ : Parse A → (A → Parse B) → Parse B
  ◌>>=◌ p f r = Results.◌>>=◌ (p r) λ (a, r'). f a r'

module _ {ℓ} {A : Type ℓ} where
  infixl 5 ◌>>◌
  abbrev pub ◌>>◌ : Parse (Unit {0}) → Parse A → Parse A
  p >> q = p >>= λ _. q

unfoldable pub new : Bytes → Reader
new bytes = record { bytes = bytes; offset = 0 }

unfoldable pub finish : Parse (Unit {0})
finish r = if nat_eq r.offset (length r.bytes) then ok (tt, r) else err Error.malformed

-- `checked_add` and the slice `offset..end` both answer `malformed` where they fail.
unfoldable pub take_bytes : ℕ → Parse Bytes
take_bytes len r =
    let end = r.offset + len in
    if ltb u64_max end
    then err Error.malformed
    else if leb end (length r.bytes)
    then ok (take len (drop r.offset r.bytes), record r { offset = end })
    else err Error.malformed

unfoldable pub first : Bytes → Option ℕ
first [] = none
first (b ∷ bs) = some b

-- A word of `n` bytes, refused unless it is above `low`.
unfoldable pub word_above : ℕ → ℕ → Parse ℕ
word_above n low = do
  bytes ← take_bytes n
  let value = from_be bytes
  if ltb low value then pure value else fail Error.malformed

unfoldable pub additional : ℕ → Parse ℕ
unfolding word_above
additional value =
    if leb value 23
    then pure value
    else if nat_eq value 24
    then word_above 1 23
    else if nat_eq value 25
    then word_above 2 0xff
    else if nat_eq value 26
    then word_above 4 0xffff
    else if nat_eq value 27
    then word_above 8 0xffff_ffff
    else fail Error.malformed

unfoldable pub head : ℕ → Parse ℕ
unfolding additional first
head expected_major = do
  bytes ← take_bytes 1
  initial ← lift (ok_or (first bytes) Error.malformed)
  if not (nat_eq (initial / 32) expected_major)
      then fail Error.malformed
      else additional (bit_and initial 0x1f)

-- `usize` has 64 bits, so the conversion of a `u64` to it does not fail.
unfoldable pub length_of : ℕ → Parse ℕ
length_of major = head major

unfoldable pub uint : Parse ℕ
uint = head 0

unfoldable pub map_len : Parse ℕ
map_len = length_of 5

unfoldable pub text : Parse Bytes
text = do
  len ← length_of 3
  bytes ← take_bytes len
  if is_utf8 bytes then pure bytes else fail Error.malformed

unfoldable pub byte_string : Parse Bytes
byte_string = do len ← length_of 2; take_bytes len

unfoldable pub read_array : ℕ → Parse Bytes
read_array n = do
  bytes ← byte_string
  if nat_eq (length bytes) n then pure bytes else fail Error.malformed

-- The bytes from `start` up to the cursor.
unfoldable pub since : ℕ → Reader → Bytes
since start r = take (r.offset - start) (drop start r.bytes)

unfoldable pub out_of_order : Option Bytes → Bytes → Bool
out_of_order none encoded = false
out_of_order (some last) encoded = not (is_less (canonical_cmp last encoded))

-- The key, and the encoded form that `*previous` is set to.
unfoldable pub canonical_key : Option Bytes → Parse (Bytes × Bytes)
canonical_key previous r = Results.◌>>=◌ (text r) λ (key, r').
    let encoded = since r.offset r' in
    if out_of_order previous encoded then err Error.malformed else ok ((key, encoded), r')

unfoldable pub texts : ℕ → Parse (List Bytes)
texts zero = pure []
texts (suc n) = do value ← text; rest ← texts n; pure (value ∷ rest)

unfoldable pub text_list : Parse CapabilityValue
text_list = do
  len ← length_of 4
  if ltb 32 len
      then fail Error.invalid_record
      else (do values ← texts len; pure (CapabilityValue.text_list values))

unfoldable pub skip : Parse (Unit {0})
skip r = ok (tt, record r { offset = r.offset + 1 })

-- The method after its first byte is seen.
unfoldable pub capability_from : ℕ → Parse CapabilityValue
unfolding skip
capability_from byte =
    if nat_eq byte 0xf4
    then (do skip; pure (CapabilityValue.bool false))
    else if nat_eq byte 0xf5
    then (do skip; pure (CapabilityValue.bool true))
    else if nat_eq (byte / 32) 0
    then (do value ← uint; pure (CapabilityValue.uint value))
    else if nat_eq (byte / 32) 3
    then (do value ← text; pure (CapabilityValue.text value))
    else if nat_eq (byte / 32) 4
    then text_list
    else fail Error.malformed

unfoldable pub capability : Parse CapabilityValue
unfolding first
capability r =
    Results.◌>>=◌ (ok_or (first (drop r.offset r.bytes)) Error.malformed)
      λ byte. capability_from byte r
