-- ===== src/Discovery/Registry/Receive/Ledger.antt =====
-- native/iroh_discovery/src/lib.rs: what is so of every record of a registry, over time.
use nerves_p2p.Prelude.{
  ℕ, ◌≤◌, ◌≡◌, refl, sym, ap, ◌∙◌, subst, true, List, [], ◌∷◌, All, All_map, some, is_some, inl,
  inr, ok, arith, Result-cases, Bool-cases,
}
use nerves_p2p.Prelude.Bytes.{Bytes, Eq_bytes, bytes_eq, bytes_eq_iff}
use nerves_p2p.Prelude.HashMap
use nerves_p2p.Prelude.HashMap.{HashMap}
use nerves_p2p.Prelude.BTreeMap.Sorted
use nerves_p2p.Discovery.Types.{
  EndpointId, Keys, Message, message_endpoint_id, message_fleet_id, announcement, withdrawal,
}
use nerves_p2p.Discovery.Validate.{validate_announcement}
use nerves_p2p.Discovery.Authorization
use nerves_p2p.Discovery.Authorization.{AuthorizationTable, IsTable}
use nerves_p2p.Discovery.Store.{SequenceStore, StoreLaws}
use nerves_p2p.Discovery.Registry.{
  Registry, ActiveRecord, new, with_enrollment_policy, authorize, revoke, receive,
}
use nerves_p2p.Discovery.Registry.Query.{expire, retain_live, is_live}
use nerves_p2p.Discovery.Registry.Receive.Growth.{GrowsIn, receive-GrowsIn, authorize-Enrolls}
use nerves_p2p.Discovery.Store.Growth.{Grows-same}
use nerves_p2p.Discovery.Registry.Receive.Steps.{sequence_of, applied, ValidMessage}
use nerves_p2p.Discovery.Registry.Receive.Accepted.{receive-IsAccepted}
use nerves_p2p.Discovery.Registry.Receive.Refusal.{receive-refused}
use nerves_p2p.Discovery.Registry.Receive.Replay.{
  Step, received, authorized, revoked, expired, enrolling, Reaches, start, step,
}

retain_live-All :
    (P : EndpointId × ActiveRecord → Type 0) (now : ℕ) (m : HashMap EndpointId ActiveRecord)
    → All P m
    → All P (retain_live now m)
unfolding retain_live
retain_live-All P now [] h = tt
retain_live-All P now ((e, r) ∷ m) h = elim (Bool-cases (is_live now r)) [
  | inl live ↦ rw live (h.0, retain_live-All P now m h.1)
  | inr over ↦ rw over (retain_live-All P now m h.1)
]

module _ (k : Keys) {S : Type 0} (ops : SequenceStore S) where
  -- A record is kept under its own endpoint, which is enrolled; its announcement is valid and of the
  -- fleet, and its sequence is not above the one stored for the endpoint.
  pub record IsRecorded (r : Registry S) (d : EndpointId × ActiveRecord) : Type 0 where
    pub own : d.1.announcement.endpoint_id ≡ d.0
    pub valid : validate_announcement d.1.announcement ≡ ok tt
    pub fleet : d.1.announcement.fleet_id ≡ r.fleet_id
    pub enrolled : is_some (Authorization.node_name r.authorization d.0) ≡ true
    pub stored : (n : ℕ) × (ops.load r.store d.0 ≡ ok n) × (d.1.announcement.sequence ≤ n)

  pub record IsLedger (r : Registry S) : Type 0 where
    pub table : IsTable r.authorization
    pub records : All (IsRecorded r) r.records

  IsRecorded-GrowsIn :
      (r s : Registry S)
      → GrowsIn k ops r s
      → (d : EndpointId × ActiveRecord) → IsRecorded r d
      → IsRecorded s d
  IsRecorded-GrowsIn r s (grows, enrols, table, fleet) d h =
      let (n, held, below) = h.stored in
      let (m, held', above) = grows d.0 n held in
      record {
        own = h.own;
        valid = h.valid;
        fleet = h.fleet ∙ sym fleet;
        enrolled = enrols d.0 h.enrolled;
        stored = (m, held', omega (arith, below, above));
      }

  all-GrowsIn :
      (r s : Registry S) (m : HashMap EndpointId ActiveRecord)
      → GrowsIn k ops r s
      → All (IsRecorded r) m
      → All (IsRecorded s) m
  all-GrowsIn r s m g = All_map (IsRecorded r) (IsRecorded s) m (IsRecorded-GrowsIn r s g)

  applied-All :
      (t : Registry S) (m : Message) (name : Bytes) (now : ℕ)
      (records : HashMap EndpointId ActiveRecord)
      → message_fleet_id m ≡ t.fleet_id
      → Authorization.node_name t.authorization (message_endpoint_id m) ≡ some name
      → ValidMessage m name
      → ops.load t.store (message_endpoint_id m) ≡ ok (sequence_of m)
      → All (IsRecorded t) records
      → All (IsRecorded t) (applied m now records)
  unfolding message_endpoint_id message_fleet_id
  applied-All t (announcement a) name now records fleet named valid stored h =
      HashMap.All-insert (IsRecorded t) records a.endpoint_id _
        (record {
          own = refl;
          valid = valid.0;
          fleet = fleet;
          enrolled = ap is_some named;
          stored = (a.sequence, stored, omega arith);
        })
        h
  applied-All t (withdrawal w) name now records fleet named valid stored h =
      HashMap.All-remove (IsRecorded t) records w.endpoint_id h

  receive-IsLedger :
      StoreLaws ops
      → (envelope : Bytes) (now : ℕ) (r : Registry S) → IsLedger r
      → IsLedger (receive k ops envelope now r).1
  receive-IsLedger laws envelope now r h =
      let t = (receive k ops envelope now r).1 in
      let grown = receive-GrowsIn k ops laws envelope now r in
      let kept : All (IsRecorded t) r.records = all-GrowsIn r t r.records grown h.records in
      record {
        table = grown.2 h.table;
        records = elim (Result-cases (receive k ops envelope now r).0) [
          | inl (u, accepted) ↦
              (let p = receive-IsAccepted k ops laws envelope now r accepted in
                let q = p.received in
                subst (All (IsRecorded t)) (sym q.recorded) (
                  applied-All t p.message q.name now r.records (q.fleet ∙ sym grown.3) q.enrolled
                    q.valid q.stored kept))
          | inr (x, refused) ↦
              subst (All (IsRecorded t))
                (sym (receive-refused k ops laws envelope now r x refused).0) kept
        ];
      }

  -- Where the entry of one endpoint is gone from the table, those of the others stay.
  revoked-All :
      (r : Registry S) (e : EndpointId) (m : HashMap EndpointId ActiveRecord)
      → IsTable r.authorization
      → All (IsRecorded r) m
      → All (IsRecorded (revoke r e)) (HashMap.remove m e)
  unfolding HashMap.remove revoke Authorization.revoke Authorization.node_name
  revoked-All r e [] v h = tt
  revoked-All r e ((j, w) ∷ m) v h = elim (Bool-cases (bytes_eq j e)) [
    | inl same ↦ rw same (revoked-All r e m v h.1)
    | inr other ↦ rw other (
      record {
        own = h.0.own;
        valid = h.0.valid;
        fleet = h.0.fleet;
        enrolled = ground (
          arith,
          h.0.enrolled,
          Sorted.get-remove r.authorization e j v.sorted,
          bytes_eq_iff e j,
          bytes_eq_iff j e,
        );
        stored = h.0.stored;
      },
      revoked-All r e m v h.1,
    )
  ]

  still :
      (r s : Registry S)
      → r.store ≡ s.store
      → r.authorization ≡ s.authorization
      → s.fleet_id ≡ r.fleet_id
      → GrowsIn k ops r s
  still r s store table fleet = (
    Grows-same ops r.store s.store store,
    (λ i e. subst (λ t. is_some (Authorization.node_name t i) ≡ true) table e),
    subst IsTable table,
    fleet,
  )

  Step-IsLedger : StoreLaws ops → (r t : Registry S) → Step k ops r t → IsLedger r → IsLedger t
  unfolding authorize revoke expire with_enrollment_policy
  Step-IsLedger laws r t (received envelope now) h = receive-IsLedger laws envelope now r h
  Step-IsLedger laws r t (authorized e name) h =
      let t = (authorize r e name).1 in
      let table = Authorization.authorize-IsTable r.authorization e name in
      record {
        table = table h.table;
        records =
            all-GrowsIn r t r.records
              (
                Grows-same ops r.store r.store refl,
                authorize-Enrolls k ops r.authorization e name,
                table,
                refl,
              )
              h.records;
      }
  Step-IsLedger laws r t (revoked e) h = record {
    table = Authorization.revoke-IsTable r.authorization e h.table;
    records = revoked-All r e r.records h.table h.records;
  }
  Step-IsLedger laws r t (expired now) h = record {
    table = h.table;
    records =
        retain_live-All (IsRecorded (expire r now)) now r.records (
          all-GrowsIn r (expire r now) r.records (still r (expire r now) refl refl refl) h.records);
  }
  Step-IsLedger laws r t (enrolling p) h = record {
    table = h.table;
    records =
        all-GrowsIn r (with_enrollment_policy r p) r.records
          (still r (with_enrollment_policy r p) refl refl refl) h.records;
  }

  run-IsLedger : StoreLaws ops → (r t : Registry S) → Reaches k ops r t → IsLedger r → IsLedger t
  run-IsLedger laws r t start h = h
  run-IsLedger laws r t (step {s = s} path last) h =
      Step-IsLedger laws s t last (run-IsLedger laws r s path h)

  new-IsLedger :
      (fleet_id : Bytes) (table : AuthorizationTable) (s : S)
      → IsTable table
      → IsLedger (new fleet_id table s)
  unfolding new
  new-IsLedger fleet_id table s v = record { table = v; records = tt }

  -- Over any lawful store, whatever methods a new registry goes through, its table stays valid, and
  -- every record is kept under its own endpoint, which is enrolled, with an announcement that is
  -- valid and of the fleet, and whose sequence is not above the one stored for the endpoint. The
  -- table is one that `AuthorizationTable::new` has built.
  pub Reaches-IsLedger :
      StoreLaws ops
      → (fleet_id : Bytes) (entries : List (EndpointId × Bytes)) (table : AuthorizationTable)
        (s : S) (t : Registry S)
      → Authorization.new entries ≡ ok table
      → Reaches k ops (new fleet_id table s) t
      → IsLedger t
  Reaches-IsLedger laws fleet_id entries table s t built path =
      run-IsLedger laws (new fleet_id table s) t path
        (new-IsLedger fleet_id table s (Authorization.new-IsTable entries table built))
