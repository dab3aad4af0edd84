-- ===== src/Discovery/Sign/Opens.antt =====
-- native/iroh_discovery/src/lib.rs: what `sign_announcement` and `sign_withdrawal` make, as the
-- decoders read it.
use nerves_p2p.Prelude.{
  Bool, not, Results.◌>>◌, refl, refuse_if, ap, sym, ◌∙◌, ◌≤◌, ◌≡◌, true, false, ◌++◌, length, ◌==◌,
  Result, ok, err, arith,
}
use nerves_p2p.Prelude.Bytes.{Bytes, Eq_bytes, bytes_eq_iff}
use nerves_p2p.Discovery.Types.{
  Error, Keys, Announcement, Withdrawal, announcement, withdrawal, max_message_size, u64_max,
}
use nerves_p2p.Discovery.Validate.{validate_announcement, validate_withdrawal}
use nerves_p2p.Discovery.Encode.{encode_announcement, encode_withdrawal, encode_envelope}
use nerves_p2p.Discovery.Decode.{decode_envelope, decode_message}
use nerves_p2p.Discovery.Codec.Announcements.{IsAnnouncement, decode_message-encode_announcement}
use nerves_p2p.Discovery.Codec.Withdrawals.{IsWithdrawal, decode_message-encode_withdrawal}
use nerves_p2p.Discovery.Codec.Envelope.{length-body, decode_envelope-encode_envelope}
use nerves_p2p.Discovery.Registry.{domain}
use nerves_p2p.Discovery.Sign.{SecretKey, Signs, sign_body, sign_announcement, sign_withdrawal}

-- The two tests before a signature are passed.
checked :
    {A : Type 0} (m : Result (Unit {0}) Error) (c : Bool) (e : Error) (n : Result A Error) (a : A)
    → (m >> (refuse_if c e >> n)) ≡ ok a
    → (m ≡ ok tt) × (c ≡ false) × (n ≡ ok a)
checked (err x) c e n a h = ground arith
checked (ok u) true e n a h = ground arith
checked (ok u) false e n a h = (refl, refl, h)

module _ (k : Keys) (secret : SecretKey) where
  -- An envelope that opens to the body, signed by the key.
  pub record IsSigned (body envelope : Bytes) : Type 0 where
    pub small : length envelope ≤ max_message_size
    pub opened : decode_envelope k envelope ≡ ok (body, secret.sign (domain ++ body))
    pub signed : k.verify secret.public (domain ++ body) (secret.sign (domain ++ body)) ≡ true

  sign_body-IsSigned :
      Signs k secret
      → (body envelope : Bytes) → sign_body body secret ≡ ok envelope
      → IsSigned body envelope × (length body ≤ u64_max)
  unfolding sign_body
  sign_body-IsSigned laws body envelope h =
      let s = secret.sign (domain ++ body) in
      let made : encode_envelope body s ≡ envelope = ground arith in
      let small : length envelope ≤ max_message_size = ground arith in
      let fits : length body ≤ u64_max = omega (arith, length-body body s, ap length made, small) in
      (
        record {
          small = small;
          opened =
              ap (decode_envelope k) (sym made)
              ∙ decode_envelope-encode_envelope k body s fits (laws.size (domain ++ body))
                  (laws.form (domain ++ body)) (omega (arith, ap length made, small));
          signed = laws.verifies (domain ++ body);
        },
        fits,
      )

  -- A signed announcement that its Rust type can hold: the envelope has an allowed size, opens to
  -- the very announcement, and its signature verifies under the announced endpoint.
  pub sign_announcement-IsSigned :
      Signs k secret
      → (a : Announcement) (envelope : Bytes) → IsAnnouncement k a
      → sign_announcement a secret ≡ ok envelope
      → (a.endpoint_id ≡ secret.public)
        × (validate_announcement a ≡ ok tt)
        × IsSigned (encode_announcement a) envelope
        × (decode_message k (encode_announcement a) ≡ ok (announcement a))
  unfolding sign_announcement
  sign_announcement-IsSigned laws a envelope v h =
      let (valid, own, made) =
        checked (validate_announcement a) (not (a.endpoint_id == secret.public))
          Error.invalid_signature _ envelope h in
      let (signed, fits) = sign_body-IsSigned laws (encode_announcement a) envelope made in
      (
        (bytes_eq_iff a.endpoint_id secret.public).0 (ground (arith, own)),
        valid,
        signed,
        decode_message-encode_announcement k a v fits,
      )

  -- The same of a signed withdrawal.
  pub sign_withdrawal-IsSigned :
      Signs k secret
      → (w : Withdrawal) (envelope : Bytes) → IsWithdrawal k w
      → sign_withdrawal w secret ≡ ok envelope
      → (w.endpoint_id ≡ secret.public)
        × (validate_withdrawal w ≡ ok tt)
        × IsSigned (encode_withdrawal w) envelope
        × (decode_message k (encode_withdrawal w) ≡ ok (withdrawal w))
  unfolding sign_withdrawal
  sign_withdrawal-IsSigned laws w envelope v h =
      let (valid, own, made) =
        checked (validate_withdrawal w) (not (w.endpoint_id == secret.public))
          Error.invalid_signature _ envelope h in
      let (signed, fits) = sign_body-IsSigned laws (encode_withdrawal w) envelope made in
      (
        (bytes_eq_iff w.endpoint_id secret.public).0 (ground (arith, own)),
        valid,
        signed,
        decode_message-encode_withdrawal k w v fits,
      )
