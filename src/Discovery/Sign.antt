-- ===== src/Discovery/Sign.antt =====
-- native/iroh_discovery/src/lib.rs: `sign_announcement`, `sign_withdrawal` and `sign_body`. A secret
-- key of the iroh crate is what the code asks of it: its public key and its signatures.
pub mod Opens
use nerves_p2p.Prelude.{
  ℕ, ◌≡◌, true, not, ◌++◌, length, ltb, ◌==◌, if◌then◌else◌, Result, ok, err, Results.◌>>=◌,
  Results.◌>>◌, refuse_if,
}
use nerves_p2p.Prelude.Bytes.{Bytes, Eq_bytes}
use nerves_p2p.Discovery.Types.{Error, EndpointId, Keys, Announcement, Withdrawal, max_message_size}
use nerves_p2p.Discovery.Validate.{validate_announcement, validate_withdrawal}
use nerves_p2p.Discovery.Encode.{encode_announcement, encode_withdrawal, encode_envelope}
use nerves_p2p.Discovery.Registry.{domain}

pub record SecretKey : Type 0 where
  pub public : EndpointId
  pub sign : Bytes → Bytes

-- What that crate documents of a secret key: a signature that it makes is one of 64 bytes, and it
-- verifies under the public key.
pub record Signs (k : Keys) (secret : SecretKey) : Type 0 where
  pub size : (text : Bytes) → length (secret.sign text) ≡ 64
  pub form : (text : Bytes) → k.is_signature (secret.sign text) ≡ true
  pub verifies : (text : Bytes) → k.verify secret.public text (secret.sign text) ≡ true

unfoldable pub sign_body : Bytes → SecretKey → Result Bytes Error
sign_body body secret =
    let envelope = encode_envelope body (secret.sign (domain ++ body)) in
    if ltb max_message_size (length envelope) then err Error.message_too_large else ok envelope

unfoldable pub sign_announcement : Announcement → SecretKey → Result Bytes Error
sign_announcement a secret = do
  validate_announcement a
  refuse_if (not (a.endpoint_id == secret.public)) Error.invalid_signature
  sign_body (encode_announcement a) secret

unfoldable pub sign_withdrawal : Withdrawal → SecretKey → Result Bytes Error
sign_withdrawal w secret = do
  validate_withdrawal w
  refuse_if (not (w.endpoint_id == secret.public)) Error.invalid_signature
  sign_body (encode_withdrawal w) secret
