-- ===== src/Port/State.antt =====
-- native/iroh_discovery/src/bin/iroh_discovery_port.rs: `State`, and the parts that the commands share.
-- The calls on the gossip subscription and the events of the distribution are kept in the state, the
-- oldest first. What the crates and the network answer while a request is handled is a `World`.
use nerves_p2p.Prelude.{
  ℕ, zero, suc, Bool, true, false, Option, none, some, List, [], ◌∷◌, ◌++◌, length, if◌then◌else◌,
  Result, ok, err,
}
use nerves_p2p.Prelude.Bytes.{Bytes, text}
use nerves_p2p.Discovery.Types.{Error, EndpointId, Keys}
use nerves_p2p.Discovery.Store.{SequenceStore}
use nerves_p2p.Discovery.Registry
use nerves_p2p.Discovery.Registry.{Registry, Method}
use nerves_p2p.Discovery.Registry.Query.{bindings}
use nerves_p2p.Discovery.Transport
use nerves_p2p.Discovery.Transport.{GossipEvent, Received, envelope, ended, failed, waiting}
use nerves_p2p.Dist.Streams
use nerves_p2p.Dist.Streams.{Shared, Event, replace_bindings}
use nerves_p2p.Port.Requests.{error_name, dist_error_name}
use nerves_p2p.Port.Values.{Value}

pub record Network : Type 0 where
  pub dist : Shared
  pub mdns : Bool
  pub bootstrap : List EndpointId
  pub joined : List EndpointId
  pub broadcast : List Bytes

pub record State (S : Type 0) : Type 0 where
  pub fleet : Bytes
  pub outbound : S
  pub registry : Registry S
  pub network : Option Network
  pub dist_events : List Event

-- An event of the mDNS lookup: a peer, with the answer of the join that follows, or another.
pub data DiscoveryEvent : Type 0 where
  discovered : EndpointId → Bool → DiscoveryEvent
  other_event : DiscoveryEvent

pub record World : Type 0 where
  -- `now_ms`, and the clock of the distribution.
  pub now : ℕ
  pub instant : ℕ
  pub mdns : List DiscoveryEvent
  pub gossip : List GossipEvent
  pub broadcasts : Bool
  -- The address of the endpoint of a network, and of one that is built, unless that fails.
  pub address : Value
  pub built : Option Value
  -- Whether the connection is made and the header written, and the event channel open.
  pub dialled : Bool
  pub port_open : Bool
  -- What the other tasks do to the distribution while the handler waits.
  pub while_receiving : Shared → Shared
  pub while_dialling : Shared → Shared

abbrev pub Port {ℓ} : Type 0 → Type ℓ → Type ℓ
Port S A = State S → Result A Bytes × State S

unfoldable pub named {ℓ} : {A : Type ℓ} → Result A Error → Result A Bytes
named (ok a) = ok a
named (err e) = err (error_name e)

-- The loop of `receive_mdns_peers`, which a time out ends.
unfoldable pub join_peers : List DiscoveryEvent → Network → Result (Unit {0}) Bytes × Network
join_peers [] n = (ok tt, n)
join_peers (other_event ∷ events) n = join_peers events n
join_peers (discovered peer true ∷ events) n =
    join_peers events (record n { joined = n.joined ++ (peer ∷ []) })
join_peers (discovered peer false ∷ events) n = (err (text "network_failed"), n)

module _ {S : Type 0} where
  unfoldable pub after {ℓ κ} :
      {A : Type ℓ} {B : Type κ}
      → Result A Bytes × State S
      → (A → Port S B)
      → Result B Bytes × State S
  after (ok a, s) f = f a s
  after (err e, s) f = (err e, s)

  infixl 5 ◌>>=◌ ◌>>◌
  unfoldable pub ◌>>=◌ {ℓ κ} : {A : Type ℓ} {B : Type κ} → Port S A → (A → Port S B) → Port S B
  unfolding after
  ◌>>=◌ m f s = after (m s) f

  abbrev pub ◌>>◌ {ℓ} : {A : Type ℓ} → Port S (Unit {0}) → Port S A → Port S A
  m >> n = m >>= λ _. n

  unfoldable pub pure {ℓ} : {A : Type ℓ} → A → Port S A
  pure a s = (ok a, s)

  unfoldable pub lift {ℓ} : {A : Type ℓ} → Result A Bytes → Port S A
  lift r s = (r, s)

  unfoldable pub refuse : Bool → Bytes → Port S (Unit {0})
  refuse true e s = (err e, s)
  refuse false e s = (ok tt, s)

  unfoldable pub asks {ℓ} : {A : Type ℓ} → (State S → A) → Port S A
  asks f s = (ok (f s), s)

  -- A method of the registry, its error by name.
  unfoldable pub on_registry {ℓ} : {A : Type ℓ} → Method S A → Port S A
  unfolding named
  on_registry m s = let (result, r) = m s.registry in (named result, record s { registry = r })

  abbrev pub with_dist : State S → Network → Shared → State S
  with_dist s n shared = record s { network = some (record n { dist = shared }) }

  unfoldable pub dist_answer {ℓ} :
      {A : Type ℓ} → State S → Network → Result A Streams.Error × Shared → Result A Bytes × State S
  dist_answer s n (ok a, shared) = (ok a, with_dist s n shared)
  dist_answer s n (err e, shared) = (err (dist_error_name e), with_dist s n shared)

  unfoldable pub with_network {ℓ} :
      {A : Type ℓ} → Option Network → (Network → Port S A) → Port S A → Port S A
  with_network none f g = g
  with_network (some n) f g = f n

  -- `as_ref().ok_or("network_not_started")?`, and a method of the distribution.
  unfoldable pub on_dist {ℓ} : {A : Type ℓ} → (Shared → Result A Streams.Error × Shared) → Port S A
  unfolding dist_answer with_network
  on_dist m s =
      with_network s.network (λ n t. dist_answer t n (m n.dist))
        (lift (err (text "network_not_started"))) s

  -- `sync_dist_bindings`: nothing is asked of the registry where there is no network.
  unfoldable pub sync_dist_bindings : World → Port S (Unit {0})
  unfolding with_network
  sync_dist_bindings w s =
      with_network s.network
        (λ n t.
          let (bound, r) = bindings t.registry w.now in
          (
            ok tt,
            with_dist (record t { registry = r }) n (replace_bindings w.instant n.dist bound),
          ))
        (pure tt) s

  unfoldable pub joined_in :
      State S → Result (Unit {0}) Bytes × Network → Result (Unit {0}) Bytes × State S
  joined_in s (r, n) = (r, record s { network = some n })

  unfoldable pub receive_mdns_peers : World → Port S (Unit {0})
  unfolding with_network join_peers joined_in
  receive_mdns_peers w s =
      with_network s.network
        (λ n t. if n.mdns then joined_in t (join_peers w.mdns n) else (ok tt, t)) (pure tt) s

  module _ (k : Keys) (ops : SequenceStore S) where
    -- The loop of `receive_announcements` and of `poll_announcements`, which differ in how long they
    -- wait. Each turn takes an event at least, so the count of events and one is enough fuel.
    unfoldable pub announcements :
        ℕ → ℕ → List GossipEvent → Registry S → Result (Unit {0}) Bytes × Registry S
    announcements zero now events r = (ok tt, r)
    announcements (suc fuel) now events r =
        let (got, rest) = Transport.receive events in
        elim got [
          | envelope message ↦ announcements fuel now rest (Registry.receive k ops message now r).1
          | ended ↦ (ok tt, r)
          | failed ↦ (err (text "network_failed"), r)
          | waiting ↦ (ok tt, r)
        ]

    unfoldable pub receive_registry : World → Port S (Unit {0})
    receive_registry w s =
        let (result, r) = announcements (suc (length w.gossip)) w.now w.gossip s.registry in
        (result, record s { registry = r })

    -- `receive_announcements`, where there is a network; the other tasks go on meanwhile.
    unfoldable pub receive_announcements : World → Port S (Unit {0})
    unfolding with_network receive_registry
    receive_announcements w s =
        with_network s.network
          (λ n t. receive_registry w (with_dist t n (w.while_receiving n.dist))) (pure tt) s
