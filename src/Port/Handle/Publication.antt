-- ===== src/Port/Handle/Publication.antt =====
-- native/iroh_discovery/src/bin/iroh_discovery_port.rs: what a publication that has succeeded has signed.
use nerves_p2p.Prelude.{ℕ, ◌≡◌, ap, sym, ◌∙◌, Option, none, some, nat_eq, Result, ok, err, ok_or}
use nerves_p2p.Prelude.Bytes.{Bytes, Eq_bytes}
use nerves_p2p.Prelude.Ipv4.{parse_ipv4}
use nerves_p2p.Discovery.Types.{Error, Keys, Capabilities}
use nerves_p2p.Discovery.Sign.{SecretKey, sign_announcement}
use nerves_p2p.Discovery.Store.{SequenceStore}
use nerves_p2p.Port.Json.{Texts, collect, port_named, named_capability}
use nerves_p2p.Port.Requests.{Publish}
use nerves_p2p.Port.State.{State, World, lift, refuse, asks, named, on_registry, sync_dist_bindings}
use nerves_p2p.Port.Handle.{
  reserve, broadcast, announcement_of, announce, publish_record, published,
}
use nerves_p2p.Port.Handle.Runs.{>>=-eq-ok, refuse-eq-ok, lift-eq-ok, pure-eq-ok}

named-eq-ok {ℓ} : {A : Type ℓ} (r : Result A Error) (a : A) → named r ≡ ok a → r ≡ ok a
unfolding named
named-eq-ok (ok b) a h = let e : b ≡ a = cc h in ap ok e
named-eq-ok (err e) a h = cc h

ok_or-eq-ok {ℓ} : {A : Type ℓ} (o : Option A) (e : Bytes) (a : A) → ok_or o e ≡ ok a → o ≡ some a
ok_or-eq-ok none e a h = cc h
ok_or-eq-ok (some b) e a h = cc h

-- The announcement that a publication has signed, under the state that it began with.
pub record IsSigned {S : Type 0} (secret : SecretKey) (node_name : Bytes) (c : Publish)
    (s : State S) (sequence : ℕ) (envelope : Bytes) : Type 0 where
  pub ip : Bytes
  pub capabilities : Capabilities
  pub from_text : parse_ipv4 c.partisan_ip ≡ some ip
  pub from_json : port_named (collect named_capability c.capabilities) ≡ ok capabilities
  pub signed :
      sign_announcement (announcement_of secret s.fleet node_name c ip capabilities sequence) secret
      ≡ ok envelope

module _ (k : Keys) {S : Type 0} (ops : SequenceStore S) (texts : Texts) (secret : SecretKey) where
  announce-ok :
      (w : World) (n sequence : ℕ) (e envelope : Bytes) (s t : State S)
      → announce k ops texts secret w n e s ≡ (ok (sequence, envelope), t)
      → (n ≡ sequence) × (e ≡ envelope)
  unfolding announce
  announce-ok w n sequence e envelope s t h =
      let (_, s1, _, h1) = >>=-eq-ok (on_registry _) _ s h in
      let (_, s2, _, h2) = >>=-eq-ok (sync_dist_bindings w) _ s1 h1 in
      let (_, s3, _, h3) = >>=-eq-ok (broadcast w e) _ s2 h2 in
      let (same, _) = pure-eq-ok _ _ s3 t h3 in (ap (λ x. x.0) same, ap (λ x. x.1) same)

  reserve_fleet :
      (s t : State S) (n : ℕ) → reserve ops secret.public s ≡ (ok n, t) → t.fleet ≡ s.fleet
  unfolding reserve
  reserve_fleet s t n h = sym (ap (λ x. x.1.fleet) h)

  asks-eq-ok {ℓ} :
      {A : Type ℓ} (f : State S → A) (s t : State S) (a : A)
      → asks f s ≡ (ok a, t)
      → (f s ≡ a) × (s ≡ t)
  unfolding asks
  asks-eq-ok f s t a h = (cc (ap (λ x. x.0) h), ap (λ x. x.1) h)

  publish_record-signed :
      (node_name : Bytes) (w : World) (c : Publish) (ip : Bytes) (capabilities : Capabilities)
      → (s t : State S) (sequence : ℕ) (envelope : Bytes)
      → publish_record k ops texts secret node_name w c ip capabilities s
        ≡ (ok (sequence, envelope), t)
      → sign_announcement
          (announcement_of secret s.fleet node_name c ip capabilities sequence)
          secret
        ≡ ok envelope
  unfolding publish_record
  publish_record-signed node_name w c ip capabilities s t sequence envelope h =
      let (n, s1, stored, h1) = >>=-eq-ok (reserve ops secret.public) _ s h in
      let (fleet, s2, asked, h2) = >>=-eq-ok (asks _) _ s1 h1 in
      let (is_fleet, _) = asks-eq-ok _ s1 s2 fleet asked in
      let (e, s3, made, h3) = >>=-eq-ok (lift _) _ s2 h2 in
      let (is_signed, _) = lift-eq-ok _ s2 s3 e made in
      let (is_n, is_e) = announce-ok w n sequence e envelope s3 t h3 in
      let of_fleet : fleet ≡ s.fleet = sym is_fleet ∙ reserve_fleet s s1 n stored in
      rw (← of_fleet, ← is_n, ← is_e) (named-eq-ok _ e is_signed)

  published-IsSigned :
      (node_name : Bytes) (w : World) (c : Publish) (s t : State S) (sequence : ℕ)
      (envelope : Bytes)
      → published k ops texts secret node_name w c s ≡ (ok (sequence, envelope), t)
      → IsSigned secret node_name c s sequence envelope
  unfolding published
  published-IsSigned node_name w c s t sequence envelope h =
      let (ip, s1, at_ip, h1) = >>=-eq-ok (lift _) _ s h in
      let (is_ip, same1) = lift-eq-ok _ s s1 ip at_ip in
      let (_, s2, at_port, h2) = >>=-eq-ok (refuse (nat_eq c.partisan_port 0) _) _ s1 h1 in
      let (_, same2) = refuse-eq-ok _ _ s1 at_port in
      let (capabilities, s3, at_map, h3) = >>=-eq-ok (lift _) _ s2 h2 in
      let (is_map, same3) = lift-eq-ok _ s2 s3 capabilities at_map in
      record {
        ip = ip;
        capabilities = capabilities;
        from_text = ok_or-eq-ok _ _ ip is_ip;
        from_json = is_map;
        signed =
            rw (same1, ← same2, same3)
              (publish_record-signed node_name w c ip capabilities s3 t sequence envelope h3);
      }

  pub published-signed :
      (node_name : Bytes) (w : World) (c : Publish) (s t : State S) (sequence : ℕ)
      (envelope : Bytes)
      → (ip : Bytes) (capabilities : Capabilities) → parse_ipv4 c.partisan_ip ≡ some ip
      → port_named (collect named_capability c.capabilities) ≡ ok capabilities
      → published k ops texts secret node_name w c s ≡ (ok (sequence, envelope), t)
      → sign_announcement
          (announcement_of secret s.fleet node_name c ip capabilities sequence)
          secret
        ≡ ok envelope
  published-signed node_name w c s t sequence envelope ip capabilities is_ip is_map h =
      let p = published-IsSigned node_name w c s t sequence envelope h in
      let same_ip : p.ip ≡ ip = cc (sym p.from_text ∙ is_ip) in
      let same_map : p.capabilities ≡ capabilities = cc (sym p.from_json ∙ is_map) in
      rw (← same_ip, ← same_map) p.signed
