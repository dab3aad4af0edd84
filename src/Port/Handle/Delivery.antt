-- ===== src/Port/Handle/Delivery.antt =====
-- native/iroh_discovery/src/bin/iroh_discovery_port.rs: what one port publishes, another ingests.
use nerves_p2p.Prelude.{
  ℕ, ◌<◌, ◌≡◌, refl, ap, ◌∙◌, true, false, some, Option-cases, [], ◌∷◌, inl, inr, length, nat_eq,
  ok, ok_or, arith,
}
use nerves_p2p.Prelude.Bytes.{Bytes, Eq_bytes, text, bytes_eq_iff, bytes_eq_refl}
use nerves_p2p.Prelude.Ipv4.{parse_ipv4}
use nerves_p2p.Prelude.HashMap
use nerves_p2p.Prelude.HashMap.{HashMap, get-insert}
use nerves_p2p.Discovery.Types.{
  EndpointId, Keys, Announcement, Capabilities, u64_max, saturating_add, rate_limit,
}
use nerves_p2p.Discovery.Validate.{validate_announcement}
use nerves_p2p.Discovery.Authorization.{node_name-authorize}
use nerves_p2p.Discovery.Codec.Announcements.{IsAnnouncement}
use nerves_p2p.Discovery.Sign.{SecretKey, Signs, sign_announcement}
use nerves_p2p.Discovery.Sign.Opens.{sign_announcement-IsSigned}
use nerves_p2p.Discovery.Store.{SequenceStore}
use nerves_p2p.Discovery.Registry
use nerves_p2p.Discovery.Registry.{Registry, ActiveRecord, Method, drop_old, rate_of}
use nerves_p2p.Discovery.Registry.Query.{is_live, retain_live, expire, active, bindings}
use nerves_p2p.Discovery.Registry.Receive.Delivery.{IsExpecting, heard, receive-sign_announcement}
use nerves_p2p.Port.Values.{Value, boolean}
use nerves_p2p.Port.Json.{Texts, json_object, collect, port_named, named_capability, endpoint_of}
use nerves_p2p.Port.Requests.{Publish}
use nerves_p2p.Port.State.{
  State, World, ◌>>=◌, pure, lift, on_registry, with_network, sync_dist_bindings,
}
use nerves_p2p.Port.Handle.{announcement_of, published, handle_ingest}
use nerves_p2p.Port.Handle.Publication.{published-signed}
use nerves_p2p.Port.Handle.Runs.{>>=_ok}

abbrev pub ingest_accepted : Value
ingest_accepted = json_object ((text "accepted", boolean true) ∷ [])

-- The crates read back the texts that they write.
pub record TextLaws (texts : Texts) : Type 0 where
  pub hex : (b : Bytes) → texts.hex_decode (texts.hex_encode b) ≡ some b
  pub endpoint : (e : EndpointId) → texts.endpoint_from (texts.endpoint_text e) ≡ some e

-- What another registry needs to accept the announcement, once its sender is authorized.
pub record IsReady {S : Type 0} (ops : SequenceStore S) (a : Announcement) (now : ℕ)
    (r : Registry S) : Type 0 where
  pub fleet : a.fleet_id ≡ r.fleet_id
  pub admitted : (Registry.authorize r a.endpoint_id a.node_name).0 ≡ ok tt
  pub room : nat_eq (length (drop_old now (rate_of r a.endpoint_id))) rate_limit ≡ false
  pub last : ℕ
  pub before : ops.load r.store a.endpoint_id ≡ ok last
  pub above : last < a.sequence
  pub writable : (ops.advance r.store a.endpoint_id a.sequence).0 ≡ ok tt

get-retain_live :
    (now : ℕ) (m : HashMap EndpointId ActiveRecord) (e : EndpointId) (x : ActiveRecord)
    → HashMap.get m e ≡ some x
    → is_live now x ≡ true
    → HashMap.get (retain_live now m) e ≡ some x
unfolding retain_live HashMap.get
get-retain_live now [] e x h live = cc h
get-retain_live now ((j, y) ∷ m) e x h live =
    ground (arith, bytes_eq_iff j e, get-retain_live now m e x)

module _ {S : Type 0} where
  get-expire :
      (r : Registry S) (now : ℕ) (e : EndpointId) (x : ActiveRecord)
      → HashMap.get r.records e ≡ some x
      → is_live now x ≡ true
      → HashMap.get (expire r now).records e ≡ some x
  unfolding expire
  get-expire r now e x h live = get-retain_live now r.records e x h live

  get-active :
      (r : Registry S) (now : ℕ) (e : EndpointId) (x : ActiveRecord)
      → HashMap.get r.records e ≡ some x
      → is_live now x ≡ true
      → (active r e now).0 ≡ some x.announcement
  unfolding active
  get-active r now e x h live = rw (get-expire r now e x h live) refl

  sync-active :
      (w : World) (s : State S) (e : EndpointId) (x : ActiveRecord)
      → HashMap.get s.registry.records e ≡ some x
      → is_live w.now x ≡ true
      → ((sync_dist_bindings w s).0 ≡ ok tt)
        × ((active (sync_dist_bindings w s).1.registry e w.now).0 ≡ some x.announcement)
  unfolding sync_dist_bindings with_network pure bindings
  sync-active w s e x h live = elim (Option-cases s.network) [
    | inl alone ↦ rw alone (refl, get-active s.registry w.now e x h live)
    | inr (n, joined) ↦ rw joined (
      refl,
      get-active (expire s.registry w.now) w.now e x (get-expire s.registry w.now e x h live) live,
    )
  ]

module _ (k : Keys) {S : Type 0} (ops : SequenceStore S) (texts : Texts) (secret : SecretKey) where
  -- A valid announcement is live at the instant it is received.
  fresh-is_live :
      (a : Announcement) (now : ℕ)
      → validate_announcement a ≡ ok tt
      → now < u64_max
      → is_live now (record { announcement = a; received_at = now }) ≡ true
  unfolding is_live validate_announcement saturating_add
  fresh-is_live a now valid early = ground arith

  endpoint_of-ok :
      (e : EndpointId) (t : State S)
      → TextLaws texts
      → lift (endpoint_of texts (texts.endpoint_text e)) t ≡ (ok e, t)
  unfolding endpoint_of lift
  endpoint_of-ok e t crates = rw (crates.endpoint e) refl

  hex_decode-ok :
      (b e : Bytes) (t : State S)
      → TextLaws texts
      → lift (ok_or (texts.hex_decode (texts.hex_encode b)) e) t ≡ (ok b, t)
  unfolding lift
  hex_decode-ok b e t crates = rw (crates.hex b) refl

  pub on_registry-ok {ℓ} :
      {A : Type ℓ} (m : Method S A) (t : State S) (a : A) (r : Registry S)
      → m t.registry ≡ (ok a, r)
      → on_registry m t ≡ (ok a, record t { registry = r })
  unfolding on_registry
  on_registry-ok m t a r h = rw h refl

  -- The registry once the sender is authorized.
  abbrev admitted : Announcement → Registry S → Registry S
  admitted a r = (Registry.authorize r a.endpoint_id a.node_name).1

  IsReady-IsExpecting :
      (a : Announcement) (now : ℕ) (r : Registry S)
      → IsReady ops a now r
      → IsExpecting k ops a now (admitted a r)
  unfolding Registry.authorize rate_of
  IsReady-IsExpecting a now r ready = record {
    fleet = ready.fleet;
    enrolled = node_name-authorize r.authorization a.endpoint_id a.node_name ready.admitted;
    room = ready.room;
    last = ready.last;
    before = ready.before;
    above = ready.above;
    writable = ready.writable;
  }

  ingest-heard :
      (v : World) (t : State S) (a : Announcement) (envelope : Bytes)
      → Signs k secret
      → TextLaws texts
      → IsAnnouncement k a
      → sign_announcement a secret ≡ ok envelope
      → IsReady ops a v.now t.registry
      → handle_ingest k ops texts secret v
          (texts.hex_encode envelope)
          (texts.endpoint_text a.endpoint_id)
          a.node_name
          t
        ≡ (sync_dist_bindings v >>= λ _. pure ingest_accepted)
            (record t { registry = heard k ops a v.now (admitted a t.registry) })
  unfolding handle_ingest
  ingest-heard v t a envelope laws crates is_a signed ready =
      >>=_ok (lift _) _ t t a.endpoint_id (endpoint_of-ok a.endpoint_id t crates)
      ∙ (>>=_ok (on_registry (λ r. Registry.authorize r a.endpoint_id a.node_name)) _ t
            (record t { registry = admitted a t.registry }) tt
            (on_registry-ok _ t tt (admitted a t.registry)
              (ap (λ x. (x, admitted a t.registry)) ready.admitted))
          ∙ (>>=_ok (lift _) _ (record t { registry = admitted a t.registry })
                (record t { registry = admitted a t.registry }) envelope
                (hex_decode-ok envelope _ _ crates)
              ∙ >>=_ok (on_registry (Registry.receive k ops envelope v.now)) _
                  (record t { registry = admitted a t.registry })
                  (record t { registry = heard k ops a v.now (admitted a t.registry) }) tt
                  (on_registry-ok _ (record t { registry = admitted a t.registry }) tt
                    (heard k ops a v.now (admitted a t.registry))
                    (receive-sign_announcement k ops secret laws a envelope v.now
                      (admitted a t.registry) is_a signed
                      (IsReady-IsExpecting a v.now t.registry ready)))))

  -- The registry that heard the announcement still has it once the bindings are passed on.
  heard-active :
      (v : World) (t : State S) (a : Announcement) (r : Registry S)
      → validate_announcement a ≡ ok tt
      → v.now < u64_max
      → let u =
          (sync_dist_bindings v >>= λ _. pure ingest_accepted)
            (record t { registry = heard k ops a v.now r }) in
        (u.0 ≡ ok ingest_accepted) × ((active u.1.registry a.endpoint_id v.now).0 ≡ some a)
  unfolding pure
  heard-active v t a r valid early =
      let t' = record t { registry = heard k ops a v.now r } in
      let x : ActiveRecord = record { announcement = a; received_at = v.now } in
      let found : HashMap.get (heard k ops a v.now r).records a.endpoint_id ≡ some x =
        ground (
          arith,
          get-insert r.records a.endpoint_id x a.endpoint_id,
          bytes_eq_refl a.endpoint_id,
        ) in
      let (synced, kept) =
        sync-active v t' a.endpoint_id x found (fresh-is_live a v.now valid early) in
      let run =
        >>=_ok (sync_dist_bindings v) (λ _. pure ingest_accepted) t' (sync_dist_bindings v t').1 tt
          (ap (λ o. (o, (sync_dist_bindings v t').1)) synced) in
      (ap (λ u. u.0) run, rw run kept)

  -- What a port publishes is accepted by every port that ingests it under the publisher's endpoint and
  -- name and is ready for it: the port authorizes the sender, has room in the rate window, a smaller
  -- sequence stored and a store that can write. Its registry then has the announcement as that of the
  -- endpoint. The crates are as they document themselves, the announcement is one that its Rust type
  -- holds, and the clock of the second port is not at its end.
  pub ingest-published :
      Signs k secret
      → TextLaws texts
      → (node_name : Bytes) (w v : World) (c : Publish) (s s' t : State S) (n : ℕ)
        (envelope : Bytes)
      → (ip : Bytes) (capabilities : Capabilities) → parse_ipv4 c.partisan_ip ≡ some ip
      → port_named (collect named_capability c.capabilities) ≡ ok capabilities
      → published k ops texts secret node_name w c s ≡ (ok (n, envelope), s')
      → IsAnnouncement k (announcement_of secret s.fleet node_name c ip capabilities n)
      → IsReady ops (announcement_of secret s.fleet node_name c ip capabilities n) v.now t.registry
      → v.now < u64_max
      → let u =
          handle_ingest k ops texts secret v
            (texts.hex_encode envelope)
            (texts.endpoint_text secret.public)
            node_name
            t in
        (u.0 ≡ ok ingest_accepted)
        × ((active u.1.registry secret.public v.now).0
            ≡ some (announcement_of secret s.fleet node_name c ip capabilities n))
  unfolding announcement_of
  ingest-published laws crates node_name w v c s s' t n envelope ip capabilities is_ip is_map made
        is_a ready early =
      let a = announcement_of secret s.fleet node_name c ip capabilities n in
      let signed =
        published-signed k ops texts secret node_name w c s s' n envelope ip capabilities is_ip
          is_map made in
      let (_, valid, _, _) = sign_announcement-IsSigned k secret laws a envelope is_a signed in
      rw (ingest-heard v t a envelope laws crates is_a signed ready)
        (heard-active v t a (admitted a t.registry) valid early)
