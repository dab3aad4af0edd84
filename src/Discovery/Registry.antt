-- ===== src/Discovery/Registry.antt =====
-- native/iroh_discovery/src/lib.rs: `Registry`, the state machine that receives signed envelopes.
-- A method on `&mut self` returns its result with the registry that it leaves, on errors too.
-- Signatures and keys are those of `Keys`, the sequence store is any `SequenceStore`, and the order
-- of a `HashMap` is that of its list, which no theorem fixes.
pub mod Query
pub mod Receive
pub mod Rate
use nerves_p2p.Prelude.{
  ℕ, ◌+◌, Bool, true, false, not, ◌&&◌, ◌||◌, List, [], ◌∷◌, ◌++◌, length, leb, ltb, nat_eq, ◌==◌,
  if◌then◌else◌, Option, none, some, is_some, unwrap_or, Result, ok, err,
}
use nerves_p2p.Prelude.Bytes.{Bytes, Eq_bytes, text}
use nerves_p2p.Prelude.HashMap
use nerves_p2p.Prelude.HashMap.{HashMap}
use nerves_p2p.Discovery.Types.{
  Error, EndpointId, Keys, Announcement, Withdrawal, Message, announcement, withdrawal,
  message_endpoint_id, message_fleet_id, max_message_size, rate_limit, rate_window_ms,
  saturating_add,
}
use nerves_p2p.Discovery.Validate.{validate_announcement, validate_withdrawal}
use nerves_p2p.Discovery.Decode.{decode_envelope, decode_message}
use nerves_p2p.Discovery.Authorization
use nerves_p2p.Discovery.Authorization.{AuthorizationTable}
use nerves_p2p.Discovery.Store.{SequenceStore}

pub record ActiveRecord : Type 0 where
  pub announcement : Announcement
  pub received_at : ℕ

pub data EnrollmentPolicy : Type 0 where
  strict signed_fleet : EnrollmentPolicy

pub record Registry (S : Type 0) : Type 0 where
  pub fleet_id : Bytes
  pub authorization : AuthorizationTable
  pub enrollment : EnrollmentPolicy
  pub store : S
  pub records : HashMap EndpointId ActiveRecord
  pub rate : HashMap EndpointId (List ℕ)

module _ {S : Type 0} where
  unfoldable pub new : Bytes → AuthorizationTable → S → Registry S
  new fleet_id authorization store = record {
    fleet_id = fleet_id;
    authorization = authorization;
    enrollment = strict;
    store = store;
    records = [];
    rate = [];
  }

  unfoldable pub with_enrollment_policy : Registry S → EnrollmentPolicy → Registry S
  with_enrollment_policy r enrollment = record r { enrollment = enrollment }

  unfoldable pub revoke : Registry S → EndpointId → Registry S
  revoke r endpoint = record r {
    authorization = Authorization.revoke r.authorization endpoint;
    records = HashMap.remove r.records endpoint;
    rate = HashMap.remove r.rate endpoint;
  }

  unfoldable pub authorize : Registry S → EndpointId → Bytes → Result (Unit {0}) Error × Registry S
  authorize r endpoint name =
      let (result, table) = Authorization.authorize r.authorization endpoint name in
      (result, record r { authorization = table })

-- A method that may fail, over the registry that it changes.
abbrev pub Method {ℓ} : Type 0 → Type ℓ → Type ℓ
Method S A = Registry S → Result A Error × Registry S

-- The `while` loop of `check_rate`: times at the front whose window has passed are dropped.
unfoldable pub drop_old : ℕ → List ℕ → List ℕ
drop_old now [] = []
drop_old now (time ∷ times) =
    if leb (saturating_add time rate_window_ms) now then drop_old now times else time ∷ times

module _ {S : Type 0} where
  unfoldable pub after {ℓ κ} :
      {A : Type ℓ} {B : Type κ}
      → Result A Error × Registry S
      → (A → Method S B)
      → Result B Error × Registry S
  after (ok a, r) f = f a r
  after (err e, r) f = (err e, r)

  infixl 5 ◌>>=◌ ◌>>◌
  unfoldable pub ◌>>=◌ {ℓ κ} :
      {A : Type ℓ} {B : Type κ} → Method S A → (A → Method S B) → Method S B
  unfolding after
  ◌>>=◌ m f r = after (m r) f

  abbrev pub ◌>>◌ {ℓ} : {A : Type ℓ} → Method S (Unit {0}) → Method S A → Method S A
  m >> n = m >>= λ _. n

  abbrev pub pure {ℓ} : {A : Type ℓ} → A → Method S A
  pure a r = (ok a, r)

  unfoldable pub lift {ℓ} : {A : Type ℓ} → Result A Error → Method S A
  lift m r = (m, r)

  -- `if failing { return Err(e) }`.
  unfoldable pub refuse : Bool → Error → Method S (Unit {0})
  refuse true e r = (err e, r)
  refuse false e r = (ok tt, r)

  unfoldable pub when : Bool → Method S (Unit {0}) → Method S (Unit {0})
  when true m r = m r
  when false m r = (ok tt, r)

  unfoldable pub asks {ℓ} : {A : Type ℓ} → (Registry S → A) → Method S A
  asks f r = (ok (f r), r)

  unfoldable pub rate_of : Registry S → EndpointId → List ℕ
  rate_of r endpoint = unwrap_or (HashMap.get r.rate endpoint) []

  unfoldable pub check_rate : EndpointId → ℕ → Method S (Unit {0})
  check_rate endpoint now r =
      let times = drop_old now (rate_of r endpoint) in
      if nat_eq (length times) rate_limit
      then (err Error.rate_limited, record r { rate = HashMap.insert r.rate endpoint times })
      else (ok tt, record r { rate = HashMap.insert r.rate endpoint (times ++ (now ∷ [])) })

pub domain : Bytes
domain = text "elixir-rpc/cdp/v1" ++ (0 ∷ [])

abbrev is_strict : EnrollmentPolicy → Bool
is_strict strict = true
is_strict signed_fleet = false

module _ (k : Keys) {S : Type 0} (ops : SequenceStore S) where
  unfoldable pub accept_sequence : EndpointId → ℕ → Method S (Unit {0})
  accept_sequence endpoint sequence = do
    last ← (λ r. (ops.load r.store endpoint, r))
    refuse (leb sequence last) Error.stale_sequence
    (λ r.
        let (result, store) = ops.advance r.store endpoint sequence in
        (result, record r { store = store }))

  -- The registry's `authorize`, as a method.
  unfoldable pub enroll : EndpointId → Bytes → Method S (Unit {0})
  enroll endpoint name r = authorize r endpoint name

  -- The name under which the sender is enrolled, after enrolling it where the policy allows.
  unfoldable pub enrolled_name :
      Option Bytes → Message → EnrollmentPolicy → EndpointId → ℕ → Method S Bytes
  unfolding enroll
  enrolled_name (some name) message policy endpoint now = pure name
  enrolled_name none (announcement a) signed_fleet endpoint now = do
    lift (validate_announcement a)
    enroll endpoint a.node_name
    check_rate endpoint now
    pure a.node_name
  enrolled_name none (announcement a) strict endpoint now = lift (err Error.unauthorized_endpoint)
  enrolled_name none (withdrawal w) policy endpoint now = lift (err Error.unauthorized_endpoint)

  unfoldable pub accept : Message → EndpointId → Bytes → ℕ → Method S (Unit {0})
  accept (announcement a) endpoint name now = do
    lift (validate_announcement a)
    refuse (not (a.node_name == name)) Error.unauthorized_endpoint
    accept_sequence endpoint a.sequence
    (λ r. (
      ok tt,
      record r {
        records =
            HashMap.insert r.records endpoint (record { announcement = a; received_at = now });
      },
    ))
  accept (withdrawal w) endpoint name now = do
    lift (validate_withdrawal w)
    accept_sequence endpoint w.sequence
    (λ r. (ok tt, record r { records = HashMap.remove r.records endpoint }))

  -- What follows the decoding of the envelope.
  unfoldable pub receive_message : Bytes → Bytes → Message → ℕ → Method S (Unit {0})
  unfolding domain
  receive_message body signature message now = do
    let endpoint = message_endpoint_id message
    fleet ← asks (λ r. r.fleet_id)
    refuse (not (message_fleet_id message == fleet)) Error.wrong_fleet
    enrolled ← asks (λ r. Authorization.node_name r.authorization endpoint)
    policy ← asks (λ r. r.enrollment)
    refuse (not (is_some enrolled) && is_strict policy) Error.unauthorized_endpoint
    when (is_some enrolled) (check_rate endpoint now)
    refuse (not (k.verify endpoint (domain ++ body) signature)) Error.invalid_signature
    name ← enrolled_name enrolled message policy endpoint now
    accept message endpoint name now

  unfoldable pub receive : Bytes → ℕ → Method S (Unit {0})
  receive envelope now = do
    refuse (ltb max_message_size (length envelope)) Error.message_too_large
    (body, signature) ← lift (decode_envelope k envelope)
    message ← lift (decode_message k body)
    receive_message body signature message now
