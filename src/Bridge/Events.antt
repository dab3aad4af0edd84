-- ===== src/Bridge/Events.antt =====
-- native/p2p_bridge/src/events.rs: the terms that the loop of the node sends to the process that is
-- registered for events. What the code takes from an event by `{:?}` is the text that it gives.
-- `allocates` says for which sizes the virtual machine has memory for a binary.
use nerves_p2p.Prelude.{
  ℕ, Bool, Option, none, some, List, [], ◌∷◌, ◌++◌, map, length, if◌then◌else◌, unwrap_or, Result,
  ok, err,
}
use nerves_p2p.Prelude.Bytes.{Bytes, text}
use nerves_p2p.Bridge.Net.{Libp2p}
use nerves_p2p.Bridge.Terms.{
  Atom, Term, atom, binary, integer, tuple_of, list_of, optional, libp2p_event, libp2p_noop,
}
use mathlib.Core.Option

pub data NatStatus (net : Libp2p) : Type 0 where
  public : net.Multiaddr → NatStatus net
  private : NatStatus net
  unknown : NatStatus net

-- A rendezvous registration: the peer of its record and the addresses.
pub record Registration (net : Libp2p) : Type 0 where
  pub peer_id : net.PeerId
  pub addresses : List net.Multiaddr

-- The results of a query of Kademlia that the code tells apart.
pub data QueryResult (net : Libp2p) : Type 0 where
  found_record : Bytes → Bytes → QueryResult net
  get_record_failed : QueryResult net
  put_record_ok : Bytes → QueryResult net
  found_providers : List net.PeerId → QueryResult net
  bootstrap_ok : ℕ → QueryResult net
  other_result : QueryResult net

-- An event of Kademlia: the text of a query's id with its result, or any other.
pub data KadEvent (net : Libp2p) : Type 0 where
  outbound_query_progressed : Bytes → QueryResult net → KadEvent net
  other_kad : KadEvent net

-- The events of the swarm that `handle_swarm_event` tells apart.
pub data SwarmEvent (net : Libp2p) : Type 0 where
  connection_established : net.PeerId → ℕ → Bool → SwarmEvent net
  connection_closed : net.PeerId → ℕ → Option Bytes → SwarmEvent net
  new_listen_addr : net.Multiaddr → Bytes → SwarmEvent net
  external_addr_confirmed : net.Multiaddr → SwarmEvent net
  outgoing_connection_error : Option net.PeerId → Bytes → SwarmEvent net
  gossipsub_message : Option net.PeerId → Bytes → Bytes → Bytes → SwarmEvent net
  kademlia : KadEvent net → SwarmEvent net
  outbound_failure : net.PeerId → Bytes → Bytes → SwarmEvent net
  inbound_failure : net.PeerId → Bytes → Bytes → SwarmEvent net
  status_changed : NatStatus net → SwarmEvent net
  dcutr : net.PeerId → Result (Unit {0}) Bytes → SwarmEvent net
  reservation_req_accepted : net.PeerId → SwarmEvent net
  upnp_new_external_addr : net.Multiaddr → SwarmEvent net
  rendezvous_discovered : List (Registration net) → SwarmEvent net
  other_event : SwarmEvent net

abbrev event_of : Term → Term
event_of t = tuple_of (atom libp2p_event ∷ t ∷ [])

abbrev noop : Term
noop = atom libp2p_noop

abbrev query_result : Bytes → Term → Term
query_result id t = event_of (tuple_of (atom Atom.dht_query_result ∷ binary id ∷ t ∷ []))

module _ (allocates : ℕ → Bool) where
  unfoldable pub encode_binary : Bytes → Term
  encode_binary bytes =
      if allocates (length bytes)
      then binary bytes
      else if allocates 0
      then binary []
      else atom Atom.nil

  module _ (net : Libp2p) where
    unfoldable pub encode_query_result : Bytes → QueryResult net → Term
    encode_query_result id (found_record key value) =
        query_result id
          (tuple_of (atom Atom.found_record ∷ encode_binary key ∷ encode_binary value ∷ []))
    encode_query_result id get_record_failed = query_result id (atom Atom.not_found)
    encode_query_result id (put_record_ok key) =
        query_result id (tuple_of (atom Atom.put_record_ok ∷ binary key ∷ []))
    encode_query_result id (found_providers providers) = query_result id (
        tuple_of (
          atom Atom.found_providers ∷ list_of (map (λ p. binary (net.to_base58 p)) providers) ∷ []))
    encode_query_result id (bootstrap_ok remaining) =
        query_result id (tuple_of (atom Atom.bootstrap_ok ∷ integer remaining ∷ []))
    encode_query_result id other_result = noop

    unfoldable pub encode_kad_event : KadEvent net → Term
    encode_kad_event (outbound_query_progressed id result) = encode_query_result id result
    encode_kad_event other_kad = noop

module _ (net : Libp2p) where
  abbrev peer_text : net.PeerId → Term
  peer_text p = binary (net.to_base58 p)

  abbrev addr_text : net.Multiaddr → Term
  addr_text a = binary (net.addr_to_text a)

  unfoldable pub nat_status : NatStatus net → Atom × Option Bytes
  nat_status (public addr) = (Atom.public, some (net.addr_to_text addr))
  nat_status private = (Atom.private, none)
  nat_status unknown = (Atom.unknown, none)

  unfoldable pub hole_punch : Result (Unit {0}) Bytes → Term
  hole_punch (ok done) = atom Atom.success
  hole_punch (err e) = tuple_of (atom Atom.failure ∷ binary e ∷ [])

  unfoldable pub discovered_term : net.PeerId → List net.Multiaddr → Term
  discovered_term p addrs =
      tuple_of (atom Atom.peer_discovered ∷ peer_text p ∷ list_of (map addr_text addrs) ∷ [])

  unfoldable pub discovered_event : List Term → Term
  discovered_event [] = noop
  discovered_event (t ∷ []) = event_of t
  discovered_event (t ∷ u ∷ ts) =
      event_of (tuple_of (atom Atom.peers_discovered ∷ list_of (t ∷ u ∷ ts) ∷ []))

  unfoldable pub dcutr_event : net.PeerId → Result (Unit {0}) Bytes → Term
  unfolding hole_punch
  dcutr_event peer result =
      event_of (tuple_of (atom Atom.hole_punch_outcome ∷ peer_text peer ∷ hole_punch result ∷ []))

  unfoldable pub rendezvous_event : List (Registration net) → Term
  unfolding discovered_event
  rendezvous_event registrations =
      discovered_event (map (λ r. discovered_term r.peer_id r.addresses) registrations)

  -- `send_peers_discovered`: no message for no peer.
  unfoldable pub peers_discovered : List (net.PeerId × net.Multiaddr) → Option Term
  peers_discovered [] = none
  peers_discovered (p ∷ ps) =
      some (discovered_event (map (λ q. discovered_term q.0 (q.1 ∷ [])) (p ∷ ps)))

  module _ (allocates : ℕ → Bool) where
    -- The term that `handle_swarm_event` sends.
    unfoldable pub handle_swarm_event : SwarmEvent net → Term
    handle_swarm_event (connection_established peer num is_dialer) = event_of (
        tuple_of (
          atom Atom.connection_established
          ∷ peer_text peer
          ∷ integer num
          ∷ atom (if is_dialer then Atom.dialer else Atom.listener)
          ∷ []))
    handle_swarm_event (connection_closed peer num cause) = event_of (
        tuple_of (
          atom Atom.connection_closed
          ∷ peer_text peer
          ∷ integer num
          ∷ binary (unwrap_or cause (text "unknown"))
          ∷ []))
    handle_swarm_event (new_listen_addr address listener_id) =
        event_of
          (tuple_of (atom Atom.new_listen_addr ∷ addr_text address ∷ binary listener_id ∷ []))
    handle_swarm_event (external_addr_confirmed address) =
        event_of (tuple_of (atom Atom.external_addr_confirmed ∷ addr_text address ∷ []))
    handle_swarm_event (outgoing_connection_error peer error) = event_of (
        tuple_of
          (atom Atom.dial_failure ∷ optional (Option.map net.to_base58 peer) ∷ binary error ∷ []))
    handle_swarm_event (gossipsub_message source topic body message_id) = event_of (
        tuple_of (
          atom Atom.gossipsub_message
          ∷ binary topic
          ∷ encode_binary allocates body
          ∷ optional (Option.map net.to_base58 source)
          ∷ binary message_id
          ∷ []))
    handle_swarm_event (kademlia event) = encode_kad_event allocates net event
    handle_swarm_event (outbound_failure peer request_id error) = event_of (
        tuple_of (
          atom Atom.dial_failure
          ∷ peer_text peer
          ∷ binary (text "rpc outbound failure " ++ (request_id ++ (text ": " ++ error)))
          ∷ []))
    handle_swarm_event (inbound_failure peer request_id error) = event_of (
        tuple_of (
          atom Atom.dial_failure
          ∷ peer_text peer
          ∷ binary (text "rpc inbound failure " ++ (request_id ++ (text ": " ++ error)))
          ∷ []))
    handle_swarm_event (status_changed status) = event_of (
        tuple_of (
          atom Atom.nat_status_changed
          ∷ atom (nat_status status).0
          ∷ optional (nat_status status).1
          ∷ []))
    handle_swarm_event (dcutr peer result) = dcutr_event peer result
    handle_swarm_event (reservation_req_accepted peer) =
        event_of (tuple_of (atom Atom.relay_reservation_accepted ∷ peer_text peer ∷ binary [] ∷ []))
    handle_swarm_event (upnp_new_external_addr addr) =
        event_of (tuple_of (atom Atom.external_addr_confirmed ∷ addr_text addr ∷ []))
    handle_swarm_event (rendezvous_discovered registrations) = rendezvous_event registrations
    handle_swarm_event other_event = noop

    -- The term that `send_inbound_request` sends.
    unfoldable pub inbound_request : net.PeerId → Bytes → Bytes → Bytes → Term
    inbound_request peer request_id channel_id request = event_of (
        tuple_of (
          atom Atom.inbound_request
          ∷ binary request_id
          ∷ binary channel_id
          ∷ peer_text peer
          ∷ encode_binary allocates request
          ∷ []))

    -- The term that `send_outbound_response` sends.
    unfoldable pub outbound_response : net.PeerId → Bytes → Bytes → Term
    outbound_response peer request_id response = event_of (
        tuple_of (
          atom Atom.outbound_response
          ∷ binary request_id
          ∷ peer_text peer
          ∷ encode_binary allocates response
          ∷ []))
