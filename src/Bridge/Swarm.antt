-- ===== src/Bridge/Swarm.antt =====
-- native/p2p_bridge/src/node.rs: what the loop of the node reads of the swarm, and what it does to the
-- swarm and to those that wait for a reply.
use nerves_p2p.Prelude.{ℕ, Bool, Option, List, Result}
use nerves_p2p.Prelude.Bytes.{Bytes}
use nerves_p2p.Bridge.Net.{Libp2p}
use nerves_p2p.Bridge.Commands.{Sender, LocalPid}
use nerves_p2p.Bridge.DhtState.{RoutingEntry}
use nerves_p2p.Bridge.Terms.{Term}

-- What the swarm answers in a round. `kademlia` holds the buckets, where it is enabled.
pub record View (net : Libp2p) : Type 0 where
  pub mesh_peers : Bytes → List net.PeerId
  pub all_peers : List net.PeerId
  pub peer_score : net.PeerId → Option net.F64
  pub connected_peers : List net.PeerId
  pub listeners : List net.Multiaddr
  pub is_connected : net.PeerId → Bool
  pub kademlia : Option (List (List (net.PeerId × List net.Multiaddr)))
  pub rendezvous_client : Bool
  pub request_id : Bytes
  pub allocates : ℕ → Bool

pub data Effect (net : Libp2p) : Type 0 where
  dial : net.Multiaddr → Effect net
  dial_peer : net.PeerId → Effect net
  publish : Bytes → Bytes → Effect net
  subscribe : Bytes → Effect net
  unsubscribe : Bytes → Effect net
  put_record : Bytes → Bytes → Effect net
  get_record : Bytes → Effect net
  get_closest_peers : net.PeerId → Effect net
  start_providing : Bytes → Effect net
  get_providers : Bytes → Effect net
  bootstrap : Effect net
  add_address : net.PeerId → net.Multiaddr → Effect net
  send_request : net.PeerId → Bytes → Effect net
  send_response : net.ResponseChannel → Bytes → Effect net
  listen_on : net.Multiaddr → Effect net
  register : net.Namespace → net.PeerId → ℕ → Effect net
  discover : Option net.Namespace → net.PeerId → Effect net
  unregister : net.Namespace → net.PeerId → Effect net
  reply_peers : Sender → List net.PeerId → Effect net
  reply_addrs : Sender → List net.Multiaddr → Effect net
  reply_score : Sender → Option net.F64 → Effect net
  reply_stats : Sender → ℕ → ℕ → Effect net
  reply_export : Sender → Result (List RoutingEntry) (Unit {0}) → Effect net
  reply_import : Sender → Result ℕ (Unit {0}) → Effect net
  reply_id : Sender → Bytes → Effect net
  send : LocalPid → Term → Effect net
