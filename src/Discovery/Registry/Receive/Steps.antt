-- ===== src/Discovery/Registry/Receive/Steps.antt =====
-- native/iroh_discovery/src/lib.rs: the steps of `receive` that succeed.
use nerves_p2p.Prelude.{
  ℕ, ◌<◌, ◌≡◌, ◌≢◌, refl, sym, ap, ◌∙◌, subst, Bool, true, false, Option, none, some, ok, arith,
}
use nerves_p2p.Prelude.Bytes.{Bytes, Eq_bytes, bytes_eq_iff}
use nerves_p2p.Prelude.HashMap
use nerves_p2p.Prelude.HashMap.{HashMap}
use nerves_p2p.Discovery.Types.{
  EndpointId, Keys, Message, message_endpoint_id, announcement, withdrawal,
}
use nerves_p2p.Discovery.Validate.{validate_announcement, validate_withdrawal}
use nerves_p2p.Discovery.Authorization
use nerves_p2p.Discovery.Store.{SequenceStore, StoreLaws}
use nerves_p2p.Discovery.Registry.{
  Registry, ActiveRecord, EnrollmentPolicy, strict, signed_fleet, after, lift, when, check_rate,
  authorize, enroll, accept_sequence, enrolled_name, accept,
}
use nerves_p2p.Discovery.Registry.Receive.{Moves, Preorder}
use nerves_p2p.Discovery.Registry.Receive.Gives.{
  Gives, bind-Gives, lift-Gives, refuse-Gives, pure-Gives,
}

abbrev pub sequence_of : Message → ℕ
sequence_of (announcement a) = a.sequence
sequence_of (withdrawal w) = w.sequence

-- The records after a message: an announcement replaces the one of its endpoint, a withdrawal
-- removes it.
abbrev pub applied : Message → ℕ → HashMap EndpointId ActiveRecord → HashMap EndpointId ActiveRecord
applied (announcement a) now records =
    HashMap.insert records a.endpoint_id (record { announcement = a; received_at = now })
applied (withdrawal w) now records = HashMap.remove records w.endpoint_id

abbrev pub ValidMessage : Message → Bytes → Type 0
ValidMessage (announcement a) name = (validate_announcement a ≡ ok tt) × (a.node_name ≡ name)
ValidMessage (withdrawal w) name = validate_withdrawal w ≡ ok tt

module _ {S : Type 0} where
  -- Only the rate lists and the authorization table may differ.
  pub record Same (r s : Registry S) : Type 0 where
    pub fleet : s.fleet_id ≡ r.fleet_id
    pub policy : s.enrollment ≡ r.enrollment
    pub store : s.store ≡ r.store
    pub records : s.records ≡ r.records

  same : Preorder Same
  same = record {
    stay = λ r. record { fleet = refl; policy = refl; store = refl; records = refl };
    go = λ r s t f g. record {
      fleet = g.fleet ∙ f.fleet;
      policy = g.policy ∙ f.policy;
      store = g.store ∙ f.store;
      records = g.records ∙ f.records;
    };
  }

  check_rate-Same : (e : EndpointId) (now : ℕ) → Moves Same (check_rate e now)
  unfolding check_rate
  check_rate-Same e now = record {
    moves = λ r. record {
      fleet = ground arith;
      policy = ground arith;
      store = ground arith;
      records = ground arith;
    };
  }

  check_rate-authorization :
      (e : EndpointId) (now : ℕ) (r : Registry S)
      → (check_rate e now r).1.authorization ≡ r.authorization
  unfolding check_rate
  check_rate-authorization e now r = ground arith

module _ (k : Keys) {S : Type 0} (ops : SequenceStore S) where
  pub accept_sequence-Gives :
      StoreLaws ops
      → (e : EndpointId) (n : ℕ) (r t : Registry S) → Gives (accept_sequence k ops e n) r tt t
      → (m : ℕ) × (ops.load r.store e ≡ ok m)
        × (m < n)
        × (ops.load t.store e ≡ ok n)
        × (t.records ≡ r.records)
        × (t.authorization ≡ r.authorization)
        × ((i : EndpointId) → e ≢ i → ops.load t.store i ≡ ops.load r.store i)
  unfolding accept_sequence
  accept_sequence-Gives laws e n r t h =
      let (m, l, h1) = bind-Gives _ _ r tt t h in
      let (fresh, h2) = refuse-Gives _ _ _ r tt t h1 in
      (
        m,
        l,
        laws.grows r.store e n m (ap (λ x. x.0) h2) l,
        ap (λ x. ops.load x.1.store e) (sym h2) ∙ laws.stored r.store e n (ap (λ x. x.0) h2),
        ap (λ x. x.1.records) (sym h2),
        ap (λ x. x.1.authorization) (sym h2),
        (λ i ne. ap (λ x. ops.load x.1.store i) (sym h2) ∙ laws.others r.store e i n ne),
      )

  enroll-Same : (e : EndpointId) (name : Bytes) (r : Registry S) → Same r (enroll k ops e name r).1
  unfolding enroll authorize
  enroll-Same e name r = record { fleet = refl; policy = refl; store = refl; records = refl }

  node_name-enroll :
      (e : EndpointId) (name : Bytes) (r : Registry S)
      → (enroll k ops e name r).0 ≡ ok tt
      → Authorization.node_name (enroll k ops e name r).1.authorization e ≡ some name
  unfolding enroll authorize
  node_name-enroll e name r h = Authorization.node_name-authorize r.authorization e name h

  -- The sender is then enrolled under the name, and only the rate and the table have changed.
  pub enrolled_name-Gives :
      (o : Option Bytes) (m : Message) (p : EnrollmentPolicy) (now : ℕ) (r t : Registry S)
      (name : Bytes)
      → Authorization.node_name r.authorization (message_endpoint_id m) ≡ o
      → Gives (enrolled_name k ops o m p (message_endpoint_id m) now) r name t
      → Same r t × (Authorization.node_name t.authorization (message_endpoint_id m) ≡ some name)
  unfolding enrolled_name lift message_endpoint_id
  enrolled_name-Gives (some name') m p now r t name o h =
      let (named, stay) = pure-Gives name' r name t h in
      (
        subst (Same r) stay (same.stay r),
        subst (λ x. Authorization.node_name x.authorization (message_endpoint_id m) ≡ some name)
            stay (o ∙ ap some named),
      )
  enrolled_name-Gives none (announcement a) signed_fleet now r t name o h =
      let (u, valid, h1) = lift-Gives _ _ r name t h in
      let (v, enrolled, h2) = bind-Gives _ _ r name t h1 in
      let s = (enroll k ops (message_endpoint_id (announcement a)) a.node_name r).1 in
      let (w, counted, h3) = bind-Gives _ _ s name t h2 in
      let (named, stay) = pure-Gives _ _ name t h3 in
      let e = a.endpoint_id in
      (
        same.go r s t (enroll-Same e a.node_name r)
            (subst (Same s) stay ((check_rate-Same e now).moves s)),
        ap (λ x. Authorization.node_name x.authorization e) (sym stay)
            ∙ ap (λ x. Authorization.node_name x e) (check_rate-authorization e now s)
            ∙ node_name-enroll e a.node_name r enrolled
            ∙ ap some named,
      )
  enrolled_name-Gives none (announcement a) strict now r t name o h =
      ground (arith, ap (λ x. x.0) h)
  enrolled_name-Gives none (withdrawal w) p now r t name o h = ground (arith, ap (λ x. x.0) h)

  pub accept-Gives :
      StoreLaws ops
      → (m : Message) (name : Bytes) (now : ℕ) (r t : Registry S)
      → Gives (accept k ops m (message_endpoint_id m) name now) r tt t
      → (p : ℕ) × (ValidMessage m name)
        × (ops.load r.store (message_endpoint_id m) ≡ ok p)
        × (p < sequence_of m)
        × (ops.load t.store (message_endpoint_id m) ≡ ok (sequence_of m))
        × (t.records ≡ applied m now r.records)
        × (t.authorization ≡ r.authorization)
        × ((i : EndpointId) → message_endpoint_id m ≢ i → ops.load t.store i ≡ ops.load r.store i)
  unfolding accept message_endpoint_id
  accept-Gives laws (announcement a) name now r t h =
      let (u, valid, h1) = lift-Gives _ _ r tt t h in
      let (named, h2) = refuse-Gives _ _ _ r tt t h1 in
      let (v, accepted, h3) = bind-Gives _ _ r tt t h2 in
      let s = (accept_sequence k ops a.endpoint_id a.sequence r).1 in
      let (p, before, above, after, kept, table, others) =
        accept_sequence-Gives laws a.endpoint_id a.sequence r s (ap (λ x. (x, s)) accepted) in
      (
        p,
        (valid, (bytes_eq_iff a.node_name name).0 (ground (arith, named))),
        before,
        above,
        ap (λ x. ops.load x.1.store a.endpoint_id) (sym h3) ∙ after,
        ap (λ x. x.1.records) (sym h3) ∙ ap (applied (announcement a) now) kept,
        ap (λ x. x.1.authorization) (sym h3) ∙ table,
        (λ i ne. ap (λ x. ops.load x.1.store i) (sym h3) ∙ others i ne),
      )
  accept-Gives laws (withdrawal w) name now r t h =
      let (u, valid, h1) = lift-Gives _ _ r tt t h in
      let (v, accepted, h2) = bind-Gives _ _ r tt t h1 in
      let s = (accept_sequence k ops w.endpoint_id w.sequence r).1 in
      let (p, before, above, after, kept, table, others) =
        accept_sequence-Gives laws w.endpoint_id w.sequence r s (ap (λ x. (x, s)) accepted) in
      (
        p,
        valid,
        before,
        above,
        ap (λ x. ops.load x.1.store w.endpoint_id) (sym h2) ∙ after,
        ap (λ x. x.1.records) (sym h2) ∙ ap (applied (withdrawal w) now) kept,
        ap (λ x. x.1.authorization) (sym h2) ∙ table,
        (λ i ne. ap (λ x. ops.load x.1.store i) (sym h2) ∙ others i ne),
      )

  pub when-Gives :
      (b : Bool) (e : EndpointId) (now : ℕ) (r : Registry S)
      → Same r (when b (check_rate e now) r).1
        × ((when b (check_rate e now) r).1.authorization ≡ r.authorization)
  unfolding when
  when-Gives true e now r = ((check_rate-Same e now).moves r, check_rate-authorization e now r)
  when-Gives false e now r = (same.stay r, refl)
