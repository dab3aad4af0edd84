-- ===== src/Bridge/Node.antt =====
-- native/p2p_bridge/src/node.rs: `swarm_loop`. One round of the loop is a step: it takes what
-- `select!` gave it and what the swarm answers in that round, and yields the calls on the swarm, the
-- replies and the messages of the round, in order. An `Instant` is a number of nanoseconds; errors
-- of the swarm are only logged.
pub mod Pending
pub mod Routing
use nerves_p2p.Prelude.{
  ℕ, ◌+◌, ◌-◌, ◌*◌, ◌%◌, ◌^◌, Bool, true, false, not, ◌&&◌, Option, none, some, List, [], ◌∷◌, ◌++◌,
  map, length, ltb, leb, if◌then◌else◌, Result, ok, err,
}
use nerves_p2p.Prelude.Bytes.{Bytes, Eq_bytes, text}
use nerves_p2p.Prelude.Decimal.{decimal}
use nerves_p2p.Prelude.HashMap.{HashMap, get, insert, remove, retain}
use nerves_p2p.Bridge.Net.{Libp2p}
use nerves_p2p.Bridge.Commands.{Sender, LocalPid, Command}
use nerves_p2p.Bridge.DhtState.{RoutingEntry}
use nerves_p2p.Bridge.Terms.{Term}
use nerves_p2p.Bridge.Swarm.{
  View, Effect, dial, dial_peer, publish, subscribe, unsubscribe, put_record, get_record,
  get_closest_peers, start_providing, get_providers, bootstrap, add_address, send_request,
  send_response, listen_on, register, discover, unregister, reply_peers, reply_addrs, reply_score,
  reply_stats, reply_export, reply_import, reply_id, send,
}
use nerves_p2p.Bridge.Events.{
  SwarmEvent, peers_discovered, handle_swarm_event, inbound_request, outbound_response,
}

abbrev pub max_pending_responses : ℕ
max_pending_responses = 1024

abbrev pub response_ttl : ℕ
response_ttl = 60 * 1000 * 1000 * 1000

-- The variables of the loop.
pub record Node (net : Libp2p) : Type 0 where
  pub event_handler : Option LocalPid
  pub pending_responses : HashMap Bytes (net.ResponseChannel × ℕ)
  pub channel_counter : ℕ

-- `none` where the loop breaks.
abbrev pub Turn : Libp2p → Type 0
Turn net = Option (Node net) × List (Effect net)

unfoldable pub channel_id : ℕ → Bytes
channel_id n = text "ch-" ++ decimal n

abbrev pub with_pending :
    {net : Libp2p} → Node net → HashMap Bytes (net.ResponseChannel × ℕ) → Node net
with_pending s m = record s { pending_responses = m }

module _ (net : Libp2p) where
  unfoldable pub start : Node net
  start = record { event_handler = none; pending_responses = []; channel_counter = 0 }

  -- A message to the process that is registered, if one is.
  unfoldable pub notify : Option LocalPid → Term → List (Effect net)
  notify none t = []
  notify (some pid) t = send pid t ∷ []

  unfoldable pub evict :
      ℕ → HashMap Bytes (net.ResponseChannel × ℕ) → HashMap Bytes (net.ResponseChannel × ℕ)
  evict now m = retain (λ id entry. ltb (now - entry.1) response_ttl) m

  unfoldable pub export_bucket : List (net.PeerId × List net.Multiaddr) → List RoutingEntry
  export_bucket [] = []
  export_bucket ((p, addrs) ∷ nodes) =
      record { peer_id = net.peer_to_bytes p; addresses = map net.addr_to_vec addrs }
      ∷ export_bucket nodes

  unfoldable pub export_buckets : List (List (net.PeerId × List net.Multiaddr)) → List RoutingEntry
  export_buckets [] = []
  export_buckets (bucket ∷ buckets) = export_bucket bucket ++ export_buckets buckets

  unfoldable pub import_addresses : net.PeerId → List Bytes → List (Effect net)
  import_addresses p [] = []
  import_addresses p (bytes ∷ others) = elim (net.addr_try_from bytes) [
    | none ↦ import_addresses p others
    | some addr ↦ add_address p addr ∷ import_addresses p others
  ]

  unfoldable pub import_entries : List RoutingEntry → List (Effect net)
  import_entries [] = []
  import_entries (entry ∷ entries) = elim (net.peer_from_bytes entry.peer_id) [
    | none ↦ import_entries entries
    | some p ↦ import_addresses p entry.addresses ++ import_entries entries
  ]

  -- Each call of `add_address` counts one.
  unfoldable pub imported : List RoutingEntry → Sender → List (Effect net)
  imported entries tx =
      import_entries entries ++ (reply_import tx (ok (length (import_entries entries))) ∷ [])

  -- What `remove` has found is answered.
  unfoldable pub respond_on : Node net → Bytes → Bytes → Option (net.ResponseChannel × ℕ) → Turn net
  respond_on s id body none = (some s, [])
  respond_on s id body (some (channel, created)) =
      (some (with_pending s (remove s.pending_responses id)), send_response channel body ∷ [])

  unfoldable pub respond : Node net → Bytes → Bytes → Turn net
  respond s id body = respond_on s id body (get s.pending_responses id)

  unfoldable pub on_namespace :
      Option net.Namespace → (net.Namespace → Effect net) → List (Effect net)
  on_namespace none call = []
  on_namespace (some ns) call = call ns ∷ []

  abbrev when : Bool → Effect net → List (Effect net)
  when b e = if b then e ∷ [] else []

  abbrev kad_enabled : View net → Bool
  kad_enabled v = elim v.kademlia [ none ↦ false | some buckets ↦ true ]

  unfoldable pub exported :
      Option (List (List (net.PeerId × List net.Multiaddr))) → Result (List RoutingEntry) (Unit {0})
  exported none = err tt
  exported (some buckets) = ok (export_buckets buckets)

  -- An invalid namespace ends the round.
  unfoldable pub rendezvous_register : View net → Bytes → ℕ → net.PeerId → List (Effect net)
  unfolding on_namespace
  rendezvous_register v namespace ttl p =
      if v.rendezvous_client
      then on_namespace (net.new_namespace namespace) (λ ns. register ns p ttl)
      else []

  unfoldable pub rendezvous_discover : View net → Bytes → net.PeerId → List (Effect net)
  rendezvous_discover v namespace p =
      when v.rendezvous_client (discover (net.new_namespace namespace) p)

  unfoldable pub rendezvous_unregister : View net → Bytes → net.PeerId → List (Effect net)
  unfolding on_namespace
  rendezvous_unregister v namespace p =
      if v.rendezvous_client
      then on_namespace (net.new_namespace namespace) (λ ns. unregister ns p)
      else []

  -- The effects of the commands that leave the variables of the loop alone.
  unfoldable pub effects_of : View net → Command net → List (Effect net)
  effects_of v (Command.dial addr) = dial addr ∷ []
  effects_of v (Command.register_event_handler pid) = []
  effects_of v Command.shutdown = []
  effects_of v (Command.connected_peers tx) = reply_peers tx v.connected_peers ∷ []
  effects_of v (Command.listening_addrs tx) = reply_addrs tx v.listeners ∷ []
  effects_of v (Command.bandwidth_stats tx) = reply_stats tx 0 0 ∷ []
  effects_of v (Command.publish topic body) = publish topic body ∷ []
  effects_of v (Command.subscribe topic) = subscribe topic ∷ []
  effects_of v (Command.unsubscribe topic) = unsubscribe topic ∷ []
  effects_of v (Command.gossipsub_mesh_peers topic tx) = reply_peers tx (v.mesh_peers topic) ∷ []
  effects_of v (Command.gossipsub_all_peers tx) = reply_peers tx v.all_peers ∷ []
  effects_of v (Command.gossipsub_peer_score p tx) = reply_score tx (v.peer_score p) ∷ []
  effects_of v (Command.dht_put key value) = when (kad_enabled v) (put_record key value)
  effects_of v (Command.dht_get key) = when (kad_enabled v) (get_record key)
  effects_of v (Command.dht_find_peer p) = when (kad_enabled v) (get_closest_peers p)
  effects_of v (Command.dht_provide key) = when (kad_enabled v) (start_providing key)
  effects_of v (Command.dht_find_providers key) = when (kad_enabled v) (get_providers key)
  effects_of v Command.dht_bootstrap = when (kad_enabled v) bootstrap
  effects_of v (Command.dht_export_routing_table tx) = reply_export tx (exported v.kademlia) ∷ []
  effects_of v (Command.dht_import_routing_table entries tx) =
      if kad_enabled v then imported entries tx else reply_import tx (err tt) ∷ []
  effects_of v (Command.rpc_send_request p body tx) =
      send_request p body ∷ reply_id tx v.request_id ∷ []
  effects_of v (Command.rpc_send_response id body) = []
  effects_of v (Command.listen_via_relay addr) = listen_on addr ∷ []
  effects_of v (Command.rendezvous_register namespace ttl p) = rendezvous_register v namespace ttl p
  effects_of v (Command.rendezvous_discover namespace p) = rendezvous_discover v namespace p
  effects_of v (Command.rendezvous_unregister namespace p) = rendezvous_unregister v namespace p

  unfoldable pub on_command : View net → Node net → Command net → Turn net
  on_command v s (Command.register_event_handler pid) =
      (some (record s { event_handler = some pid }), [])
  on_command v s (Command.rpc_send_response id body) = respond s id body
  on_command v s Command.shutdown = (none, [])
  on_command v s c = (some s, effects_of v c)

  -- An inbound request, at an instant.
  unfoldable pub on_request :
      View net → Node net → ℕ → net.PeerId → Bytes → Bytes → net.ResponseChannel → Turn net
  on_request v s now peer request_id request channel =
      let counter = (s.channel_counter + 1) % 2 ^ 64 in
      let id = channel_id counter in
      if leb max_pending_responses (length s.pending_responses) then (some s, []) else (
        some (record s {
          pending_responses = insert s.pending_responses id (channel, now);
          channel_counter = counter;
        }),
        notify s.event_handler (inbound_request net v.allocates peer request_id id request),
      )

  -- The answer to a request of this node.
  unfoldable pub on_response : View net → Node net → net.PeerId → Bytes → Bytes → Turn net
  on_response v s peer request_id response =
      (some s, notify s.event_handler (outbound_response net v.allocates peer request_id response))

  unfoldable pub on_discovered :
      View net → Bool → List (net.PeerId × net.Multiaddr) → List (Effect net)
  on_discovered v auto_dial [] = []
  on_discovered v auto_dial ((p, addr) ∷ pairs) =
      when (kad_enabled v) (add_address p addr)
      ++ (when (auto_dial && not (v.is_connected p)) (dial_peer p)
          ++ on_discovered v auto_dial pairs)

  unfoldable pub notify_discovered : Option LocalPid → Option Term → List (Effect net)
  unfolding notify
  notify_discovered pid none = []
  notify_discovered pid (some t) = notify pid t

-- What `select!` gives.
pub data Input (net : Libp2p) : Type 0 where
  tick : ℕ → Input net
  command : Command net → Input net
  closed : Input net
  request : ℕ → net.PeerId → Bytes → Bytes → net.ResponseChannel → Input net
  response : net.PeerId → Bytes → Bytes → Input net
  mdns_discovered : List (net.PeerId × net.Multiaddr) → Input net
  mdns_expired : Input net
  other : SwarmEvent net → Input net

module _ (net : Libp2p) (mdns_auto_dial : Bool) where
  unfoldable pub step : View net → Node net → Input net → Turn net
  step v s (tick now) = (some (with_pending s (evict net now s.pending_responses)), [])
  step v s (command c) = on_command net v s c
  step v s closed = (none, [])
  step v s (request now peer request_id body channel) =
      on_request net v s now peer request_id body channel
  step v s (response peer request_id body) = on_response net v s peer request_id body
  step v s (mdns_discovered pairs) = (
    some s,
    on_discovered net v mdns_auto_dial pairs
        ++ notify_discovered net s.event_handler (peers_discovered net pairs),
  )
  step v s mdns_expired = (some s, [])
  step v s (other event) =
      (some s, notify net s.event_handler (handle_swarm_event net v.allocates event))

  unfoldable pub proceed : Turn net → (Node net → Turn net) → Turn net
  proceed (none, effects) next = (none, effects)
  proceed (some t, effects) next = ((next t).0, effects ++ (next t).1)

  -- The rounds that follow, until the loop breaks.
  unfoldable pub run : Node net → List (View net × Input net) → Turn net
  run s [] = (some s, [])
  run s ((v, i) ∷ rounds) = proceed (step v s i) (λ t. run t rounds)
