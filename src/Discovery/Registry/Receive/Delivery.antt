-- ===== src/Discovery/Registry/Receive/Delivery.antt =====
-- native/iroh_discovery/src/lib.rs: `sign_announcement` at one node and `receive` at another.
use nerves_p2p.Prelude.{
  ℕ, ◌<◌, ◌≡◌, ap, ◌∙◌, true, false, not, ◌&&◌, ◌∷◌, [], ◌++◌, length, is_some, Option, some, ok,
  arith, leb, ltb, ◌==◌, nat_eq,
}
use nerves_p2p.Prelude.Bytes.{Bytes, Eq_bytes, bytes_eq_iff, bytes_eq_refl}
use nerves_p2p.Prelude.HashMap
use nerves_p2p.Discovery.Types.{
  Keys, Announcement, announcement, message_endpoint_id, message_fleet_id, max_message_size,
  rate_limit,
}
use nerves_p2p.Discovery.Validate.{validate_announcement}
use nerves_p2p.Discovery.Encode.{encode_announcement}
use nerves_p2p.Discovery.Codec.Announcements.{IsAnnouncement}
use nerves_p2p.Discovery.Sign.{SecretKey, Signs, sign_announcement}
use nerves_p2p.Discovery.Sign.Opens.{sign_announcement-IsSigned}
use nerves_p2p.Discovery.Authorization
use nerves_p2p.Discovery.Store.{SequenceStore}
use nerves_p2p.Discovery.Registry.{
  Registry, domain, when, drop_old, rate_of, check_rate, accept_sequence, enrolled_name, accept,
  receive_message, receive,
}
use nerves_p2p.Discovery.Registry.Receive.Gives.{Gives, bind-ok, lift-ok, refuse-ok, asks-ok}

module _ (k : Keys) {S : Type 0} (ops : SequenceStore S) where
  -- What the receiver has: the sender enrolled under the announced name, room in its rate window,
  -- a smaller sequence stored, and a store that can write the new one.
  pub record IsExpecting (a : Announcement) (now : ℕ) (r : Registry S) : Type 0 where
    pub fleet : a.fleet_id ≡ r.fleet_id
    pub enrolled : Authorization.node_name r.authorization a.endpoint_id ≡ some a.node_name
    pub room : nat_eq (length (drop_old now (rate_of r a.endpoint_id))) rate_limit ≡ false
    pub last : ℕ
    pub before : ops.load r.store a.endpoint_id ≡ ok last
    pub above : last < a.sequence
    pub writable : (ops.advance r.store a.endpoint_id a.sequence).0 ≡ ok tt

  abbrev counted : Announcement → ℕ → Registry S → Registry S
  counted a now r = record r {
    rate =
        HashMap.insert r.rate a.endpoint_id (drop_old now (rate_of r a.endpoint_id) ++ (now ∷ []));
  }

  -- The registry after the announcement.
  abbrev pub heard : Announcement → ℕ → Registry S → Registry S
  heard a now r = record (counted a now r) {
    store = (ops.advance r.store a.endpoint_id a.sequence).1;
    records =
        HashMap.insert r.records a.endpoint_id (record { announcement = a; received_at = now });
  }

  check_rate-room :
      (a : Announcement) (now : ℕ) (r : Registry S)
      → nat_eq (length (drop_old now (rate_of r a.endpoint_id))) rate_limit ≡ false
      → Gives (check_rate a.endpoint_id now) r tt (counted a now r)
  unfolding check_rate
  check_rate-room a now r room = rw room

  accept-heard :
      (a : Announcement) (now : ℕ) (r : Registry S)
      → IsExpecting a now r
      → validate_announcement a ≡ ok tt
      → Gives
          (accept k ops (announcement a) a.endpoint_id a.node_name now)
          (counted a now r)
          tt
          (heard a now r)
  unfolding accept
  accept-heard a now r x valid =
      lift-ok _ _ _ tt valid
      ∙ refuse-ok (not (a.node_name == a.node_name)) _ _ _
          (ground (arith, bytes_eq_refl a.node_name))
      ∙ bind-ok (accept_sequence k ops a.endpoint_id a.sequence) _ _ tt
          (record (counted a now r) { store = (ops.advance r.store a.endpoint_id a.sequence).1 })
          advanced
    where
      advanced :
          Gives
            (accept_sequence k ops a.endpoint_id a.sequence)
            (counted a now r)
            tt
            (record (counted a now r) { store = (ops.advance r.store a.endpoint_id a.sequence).1 })
      advanced =
          unfold accept_sequence in
          bind-ok _ _ _ x.last _ (ap (λ y. (y, counted a now r)) x.before)
          ∙ refuse-ok (leb a.sequence x.last) _ _ _ (ground (arith, x.above))
          ∙ ap
              (λ y. (
                y,
                record (counted a now r) {
                  store = (ops.advance r.store a.endpoint_id a.sequence).1;
                },
              ))
              x.writable

  abbrev enrollment : Announcement → Registry S → Option Bytes
  enrollment a r = Authorization.node_name r.authorization a.endpoint_id

  receive_message-heard :
      (body signature : Bytes) (a : Announcement) (now : ℕ) (r : Registry S)
      → IsExpecting a now r
      → validate_announcement a ≡ ok tt
      → k.verify a.endpoint_id (domain ++ body) signature ≡ true
      → Gives (receive_message k ops body signature (announcement a) now) r tt (heard a now r)
  unfolding receive_message message_endpoint_id message_fleet_id
  receive_message-heard body signature a now r x valid signed =
      asks-ok _ _ r
      ∙ refuse-ok (not (a.fleet_id == r.fleet_id)) _ _ r
          (ground (arith, (bytes_eq_iff a.fleet_id r.fleet_id).1 x.fleet))
      ∙ asks-ok _ _ r
      ∙ asks-ok _ _ r
      ∙ refuse-ok (not (is_some (enrollment a r)) && _) _ _ r
          (ground (arith, ap is_some x.enrolled))
      ∙ bind-ok (when (is_some (enrollment a r)) (check_rate a.endpoint_id now)) _ r tt
          (counted a now r) limited
      ∙ refuse-ok (not (k.verify a.endpoint_id (domain ++ body) signature)) _ _ (counted a now r)
          (ground (arith, signed))
      ∙ bind-ok
          (enrolled_name k ops (enrollment a r) (announcement a) r.enrollment a.endpoint_id now) _
          (counted a now r) a.node_name (counted a now r) named
      ∙ accept-heard a now r x valid
    where
      limited :
          Gives
            (when (is_some (enrollment a r)) (check_rate a.endpoint_id now))
            r
            tt
            (counted a now r)
      limited =
          unfold when in
          ap (λ e. when (is_some e) (check_rate a.endpoint_id now) r) x.enrolled
          ∙ check_rate-room a now r x.room

      named :
          Gives
            (enrolled_name k ops (enrollment a r) (announcement a) r.enrollment a.endpoint_id now)
            (counted a now r)
            a.node_name
            (counted a now r)
      named =
          unfold enrolled_name in
          ap
            (λ e.
              enrolled_name k ops e (announcement a) r.enrollment a.endpoint_id now
                (counted a now r))
            x.enrolled

  -- What `sign_announcement` makes, with a key as the iroh crate documents it, of an announcement
  -- that its Rust type can hold is accepted by every registry of its fleet that has its endpoint
  -- enrolled under its name, a smaller sequence stored, room in the rate window and a store that can
  -- write; the sequence and the record are then kept.
  pub receive-sign_announcement :
      (secret : SecretKey)
      → Signs k secret
      → (a : Announcement) (envelope : Bytes) (now : ℕ) (r : Registry S) → IsAnnouncement k a
      → sign_announcement a secret ≡ ok envelope
      → IsExpecting a now r
      → receive k ops envelope now r ≡ (ok tt, heard a now r)
  unfolding receive
  receive-sign_announcement secret laws a envelope now r v h x =
      let (own, valid, s, decoded) = sign_announcement-IsSigned k secret laws a envelope v h in
      refuse-ok (ltb max_message_size (length envelope)) _ _ r (ground (arith, s.small))
      ∙ lift-ok _ _ r _ s.opened
      ∙ lift-ok _ _ r _ decoded
      ∙ receive_message-heard (encode_announcement a) _ a now r x valid (
          ap
            (λ e.
              k.verify e (domain ++ encode_announcement a)
                (secret.sign (domain ++ encode_announcement a)))
            own
          ∙ s.signed)
