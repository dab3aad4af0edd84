-- ===== src/Bridge/Commands.antt =====
-- native/p2p_bridge/src/commands.rs: what the calls from Elixir ask of the loop of the node. The
-- sender of a reply is a number that names it.
use nerves_p2p.Prelude.{ℕ, List}
use nerves_p2p.Prelude.Bytes.{Bytes}
use nerves_p2p.Bridge.Net.{Libp2p}
use nerves_p2p.Bridge.DhtState.{RoutingEntry}

abbrev pub Sender : Type 0
Sender = ℕ

abbrev pub LocalPid : Type 0
LocalPid = ℕ

pub data Command (net : Libp2p) : Type 0 where
  dial : net.Multiaddr → Command net
  register_event_handler : LocalPid → Command net
  shutdown : Command net
  connected_peers : Sender → Command net
  listening_addrs : Sender → Command net
  bandwidth_stats : Sender → Command net
  publish : Bytes → Bytes → Command net
  subscribe : Bytes → Command net
  unsubscribe : Bytes → Command net
  gossipsub_mesh_peers : Bytes → Sender → Command net
  gossipsub_all_peers : Sender → Command net
  gossipsub_peer_score : net.PeerId → Sender → Command net
  dht_put : Bytes → Bytes → Command net
  dht_get : Bytes → Command net
  dht_find_peer : net.PeerId → Command net
  dht_provide : Bytes → Command net
  dht_find_providers : Bytes → Command net
  dht_bootstrap : Command net
  dht_export_routing_table : Sender → Command net
  dht_import_routing_table : List RoutingEntry → Sender → Command net
  rpc_send_request : net.PeerId → Bytes → Sender → Command net
  rpc_send_response : Bytes → Bytes → Command net
  listen_via_relay : net.Multiaddr → Command net
  rendezvous_register : Bytes → ℕ → net.PeerId → Command net
  rendezvous_discover : Bytes → net.PeerId → Command net
  rendezvous_unregister : Bytes → net.PeerId → Command net
