-- ===== src/Discovery/Decode/Parts.antt =====
-- native/iroh_discovery/src/lib.rs: `decode_envelope`, `decode_load` and `decode_capabilities`.
use nerves_p2p.Prelude.{
  ℕ, zero, suc, not, [], nat_eq, ltb, ◌==◌, if◌then◌else◌, Option, none, some, Result, ok, err,
  ok_or,
}
use nerves_p2p.Prelude.Bytes.{Bytes, Eq_bytes, text as ascii}
use nerves_p2p.Prelude.BTreeMap.{insert}
use nerves_p2p.Discovery.Types.{Error, Keys, Load, Capabilities}
use nerves_p2p.Discovery.Encode.{encode_envelope}
use nerves_p2p.Discovery.Reader.{
  Parse, pure, fail, lift, ◌>>=◌, ◌>>◌, new, finish, map_len, canonical_key, byte_string,
  read_array, uint, capability,
}
use nerves_p2p.Prelude.Results

-- The variables of the loop of `decode_envelope`.
pub record EnvelopeDraft : Type 0 where
  pub previous : Option Bytes
  pub body : Option Bytes
  pub signature : Option Bytes

unfoldable pub envelope_field : Keys → Bytes → EnvelopeDraft → Parse EnvelopeDraft
envelope_field k key d =
    if key == ascii "body"
    then (do bytes ← byte_string; pure (record d { body = some bytes }))
    else if key == ascii "signature"
    then (do
      bytes ← read_array 64
      if k.is_signature bytes
          then pure (record d { signature = some bytes })
          else fail Error.malformed)
    else fail Error.malformed

unfoldable pub envelope_fields : Keys → ℕ → EnvelopeDraft → Parse EnvelopeDraft
envelope_fields k zero d = pure d
envelope_fields k (suc n) d = do
  (key, encoded) ← canonical_key d.previous
  d' ← envelope_field k key (record d { previous = some encoded })
  envelope_fields k n d'

unfoldable pub no_envelope : EnvelopeDraft
no_envelope = record { previous = none; body = none; signature = none }

unfoldable pub read_envelope : Keys → Parse EnvelopeDraft
unfolding no_envelope
read_envelope k = do
  len ← map_len
  if not (nat_eq len 2)
      then fail Error.malformed
      else (do d ← envelope_fields k len no_envelope; finish; pure d)

unfoldable pub decode_envelope : Keys → Bytes → Result (Bytes × Bytes) Error
decode_envelope k bytes = Results.◌>>=◌ (read_envelope k (new bytes)) λ (d, r).
    Results.◌>>=◌ (ok_or d.body Error.malformed) λ body.
      Results.◌>>=◌ (ok_or d.signature Error.malformed) λ signature.
        if not (encode_envelope body signature == bytes)
        then err Error.malformed
        else ok (body, signature)

pub record LoadDraft : Type 0 where
  pub previous : Option Bytes
  pub running : Option ℕ
  pub capacity : Option ℕ

unfoldable pub load_field : Bytes → LoadDraft → Parse LoadDraft
load_field key d =
    if key == ascii "running"
    then (do value ← uint; pure (record d { running = some value }))
    else if key == ascii "capacity"
    then (do value ← uint; pure (record d { capacity = some value }))
    else fail Error.malformed

unfoldable pub load_fields : ℕ → LoadDraft → Parse LoadDraft
load_fields zero d = pure d
load_fields (suc n) d = do
  (key, encoded) ← canonical_key d.previous
  d' ← load_field key (record d { previous = some encoded })
  load_fields n d'

unfoldable pub finish_load : LoadDraft → Result Load Error
finish_load d = Results.◌>>=◌ (ok_or d.running Error.malformed) λ running.
    Results.◌>>=◌ (ok_or d.capacity Error.malformed)
      λ capacity. ok (record { running = running; capacity = capacity })

unfoldable pub decode_load : Parse Load
decode_load = do
  len ← map_len
  if not (nat_eq len 2) then fail Error.malformed else (do
    d ← load_fields len (record { previous = none; running = none; capacity = none })
    lift (finish_load d))

unfoldable pub capability_fields : ℕ → Option Bytes → Capabilities → Parse Capabilities
capability_fields zero previous values = pure values
capability_fields (suc n) previous values = do
  (key, encoded) ← canonical_key previous
  value ← capability
  capability_fields n (some encoded) (insert values key value)

unfoldable pub decode_capabilities : Parse Capabilities
decode_capabilities = do
  len ← map_len
  if ltb 32 len then fail Error.invalid_record else capability_fields len none []
