-- ===== src/Bridge/Nif.antt =====
-- native/p2p_bridge/src/lib.rs: the functions that Elixir calls. A call yields its result and the
-- commands that it hands to the channel of the loop; what the channel says to `try_send`, and what
-- a query's sender sends back, are arguments.
use nerves_p2p.Prelude.{
  ℕ, Bool, Option, none, some, List, [], ◌∷◌, ◌++◌, map, length, ltb, if◌then◌else◌, unwrap_or,
  Result, ok, err, ok_or,
}
use nerves_p2p.Prelude.Bytes.{Bytes, text}
use nerves_p2p.Prelude.Decimal.{decimal}
use nerves_p2p.Bridge.Net.{Libp2p}
use nerves_p2p.Bridge.Commands.{Sender, LocalPid, Command}
use nerves_p2p.Bridge.DhtState.{RoutingEntry, DhtStateError, encode, decode}
use nerves_p2p.Bridge.Terms.{Atom, Term, atom, binary, tuple_of}
use nerves_p2p.Bridge.Errors.{NifError, encode_error, max_keypair_bytes}

-- The answer of `mpsc::Sender::try_send`.
pub data TrySend : Type 0 where
  sent : TrySend
  full : TrySend
  stopped : TrySend

-- How a caught computation ends.
pub data Caught {ℓ} (A : Type ℓ) : Type ℓ where
  returned : A → Caught A
  panicked : Caught A

unfoldable pub map_err {ℓ} : {A : Type ℓ} → (Bytes → NifError) → Result A Bytes → Result A NifError
map_err f (ok a) = ok a
map_err f (err e) = err (f e)

-- `start_node_inner` has built a handle, failed or panicked.
unfoldable pub start_node {ℓ} : {H : Type ℓ} → Caught (Result H Bytes) → Result H NifError
start_node (returned (ok handle)) = ok handle
start_node (returned (err e)) = err (NifError.internal e)
start_node panicked = err (NifError.nif_panic (text "panic caught in start_node"))

-- The registry behind its lock, and its text.
unfoldable pub prometheus_metrics :
    Result (Unit {0}) Bytes → Result Bytes Bytes → Result (Atom × Bytes) NifError
prometheus_metrics (err e) encoded = err (NifError.internal (text "metrics lock poisoned: " ++ e))
prometheus_metrics (ok lock) (err e) = err (NifError.internal (text "encode metrics: " ++ e))
prometheus_metrics (ok lock) (ok metrics) = ok (Atom.ok, metrics)

unfoldable pub decode_error : DhtStateError → NifError
decode_error (DhtStateError.input_too_large got max) = NifError.input_too_large got max
decode_error (DhtStateError.truncated offset need) =
    NifError.internal
      (text "truncated at offset " ++ (decimal offset ++ (text ", need " ++ decimal need)))
decode_error (DhtStateError.bad_magic start) = NifError.internal (text "bad magic header")
decode_error (DhtStateError.unsupported_version version) =
    NifError.internal (text "unsupported wire version " ++ decimal version)

unfoldable pub decoded :
    Result (List RoutingEntry) DhtStateError → Result (List RoutingEntry) NifError
decoded (ok entries) = ok entries
decoded (err e) = err (decode_error e)

unfoldable pub enabled {ℓ} : {A : Type ℓ} → Result A (Unit {0}) → Result A NifError
enabled (ok a) = ok a
enabled (err e) = err NifError.dht_not_enabled

module _ (net : Libp2p) where
  abbrev pub Nif {ℓ} : Type ℓ → Type ℓ
  Nif A = Result A NifError × List (Command net)

  infixl 5 ◌>>=◌ ◌>>◌
  unfoldable pub ◌>>=◌ {ℓ κ} : {A : Type ℓ} {B : Type κ} → Nif A → (A → Nif B) → Nif B
  (err e, commands) >>= f = (err e, commands)
  (ok a, commands) >>= f = ((f a).0, commands ++ (f a).1)

  abbrev pub ◌>>◌ {κ} : {B : Type κ} → Nif (Unit {0}) → Nif B → Nif B
  m >> k = m >>= λ _. k

  unfoldable pub pure {ℓ} : {A : Type ℓ} → A → Nif A
  pure a = (ok a, [])

  unfoldable pub lift {ℓ} : {A : Type ℓ} → Result A NifError → Nif A
  lift r = (r, [])

  unfoldable pub peer_from : Bytes → Nif net.PeerId
  peer_from peer_id_str = lift (map_err NifError.invalid_peer_id (net.parse_peer peer_id_str))

  unfoldable pub addr_from : Bytes → Nif net.Multiaddr
  addr_from addr = lift (map_err NifError.invalid_multiaddr (net.parse_addr addr))

  module _ (answer : TrySend) where
    -- The channel takes the command, or gives it back.
    unfoldable pub try_send : Command net → Nif (Unit {0})
    try_send c = elim answer [
      | sent ↦ (ok tt, c ∷ [])
      | full ↦ (err NifError.channel_full, [])
      | stopped ↦ (err NifError.node_stopped, [])
    ]

    unfoldable pub send_typed : Command net → Nif Atom
    unfolding try_send
    send_typed c = try_send c >> pure Atom.ok

    -- `received` is what the loop sends back, if it does before the sender is dropped.
    unfoldable pub query_typed {ℓ} : {T : Type ℓ} → Option T → Command net → Nif T
    unfolding try_send
    query_typed received c = try_send c >> lift (ok_or received NifError.node_stopped)

    unfoldable pub stop_node : Nif Atom
    stop_node = (ok Atom.ok, (try_send Command.shutdown).1)

    unfoldable pub register_event_handler : LocalPid → Nif Atom
    register_event_handler pid = (ok Atom.ok, (try_send (Command.register_event_handler pid)).1)

    unfoldable pub connected_peers : Option (List net.PeerId) → Sender → Nif (List Bytes)
    connected_peers received tx = do
      peers ← query_typed received (Command.connected_peers tx)
      pure (map net.to_base58 peers)

    unfoldable pub listening_addrs : Option (List net.Multiaddr) → Sender → Nif (List Bytes)
    listening_addrs received tx = do
      addrs ← query_typed received (Command.listening_addrs tx)
      pure (map net.addr_to_text addrs)

    unfoldable pub bandwidth_stats : Option (ℕ × ℕ) → Sender → Nif (Atom × ℕ × ℕ)
    bandwidth_stats received tx = do
      stats ← query_typed received (Command.bandwidth_stats tx)
      pure (Atom.ok, stats.0, stats.1)

    unfoldable pub dial : Bytes → Nif Atom
    dial addr = do multiaddr ← addr_from addr; send_typed (Command.dial multiaddr)

    unfoldable pub publish : Bytes → Bytes → Nif Atom
    publish topic body = send_typed (Command.publish topic body)

    unfoldable pub subscribe : Bytes → Nif Atom
    subscribe topic = send_typed (Command.subscribe topic)

    unfoldable pub unsubscribe : Bytes → Nif Atom
    unsubscribe topic = send_typed (Command.unsubscribe topic)

    unfoldable pub gossipsub_mesh_peers :
        Option (List net.PeerId) → Bytes → Sender → Nif (Atom × List Bytes)
    gossipsub_mesh_peers received topic tx = do
      peers ← query_typed received (Command.gossipsub_mesh_peers topic tx)
      pure (Atom.ok, map net.to_base58 peers)

    unfoldable pub gossipsub_all_peers : Option (List net.PeerId) → Sender → Nif (Atom × List Bytes)
    gossipsub_all_peers received tx = do
      peers ← query_typed received (Command.gossipsub_all_peers tx)
      pure (Atom.ok, map net.to_base58 peers)

    unfoldable pub gossipsub_peer_score :
        Option (Option net.F64) → Bytes → Sender → Nif (Atom × net.F64)
    gossipsub_peer_score received peer_id_str tx = do
      peer_id ← peer_from peer_id_str
      score ← query_typed received (Command.gossipsub_peer_score peer_id tx)
      pure (Atom.ok, unwrap_or score net.zero_score)

    unfoldable pub dht_put : Bytes → Bytes → Nif Atom
    dht_put key value = send_typed (Command.dht_put key value)

    unfoldable pub dht_get : Bytes → Nif Atom
    dht_get key = send_typed (Command.dht_get key)

    unfoldable pub dht_find_peer : Bytes → Nif Atom
    dht_find_peer peer_id_str = do
      peer_id ← peer_from peer_id_str
      send_typed (Command.dht_find_peer peer_id)

    unfoldable pub dht_provide : Bytes → Nif Atom
    dht_provide key = send_typed (Command.dht_provide key)

    unfoldable pub dht_find_providers : Bytes → Nif Atom
    dht_find_providers key = send_typed (Command.dht_find_providers key)

    unfoldable pub dht_bootstrap : Nif Atom
    dht_bootstrap = send_typed Command.dht_bootstrap

    -- `allocates`: whether the virtual machine has memory for a binary of a size.
    unfoldable pub kad_export_routing_table :
        (ℕ → Bool) → Option (Result (List RoutingEntry) (Unit {0})) → Sender → Nif (Atom × Bytes)
    kad_export_routing_table allocates received tx = do
      result ← query_typed received (Command.dht_export_routing_table tx)
      entries ← lift (enabled result)
      let bytes = encode entries
      lift (
          if allocates (length bytes)
          then ok (Atom.ok, bytes)
          else err (NifError.internal (text "alloc " ++ (decimal (length bytes) ++ text " bytes"))))

    unfoldable pub kad_import_routing_table :
        Option (Result ℕ (Unit {0})) → Bytes → Sender → Nif (Atom × ℕ)
    kad_import_routing_table received bytes tx = do
      entries ← lift (decoded (decode bytes))
      result ← query_typed received (Command.dht_import_routing_table entries tx)
      count ← lift (enabled result)
      pure (Atom.ok, count)

    unfoldable pub rpc_send_request : Option Bytes → Bytes → Bytes → Sender → Nif (Atom × Bytes)
    rpc_send_request received peer_id_str body tx = do
      peer_id ← peer_from peer_id_str
      _ ← send_typed (Command.rpc_send_request peer_id body tx)
      req_id ← lift (ok_or received NifError.node_stopped)
      pure (Atom.ok, req_id)

    unfoldable pub rpc_send_response : Bytes → Bytes → Nif Atom
    rpc_send_response channel_id body = send_typed (Command.rpc_send_response channel_id body)

    unfoldable pub listen_via_relay : Bytes → Nif Atom
    listen_via_relay relay_addr = do
      addr ← addr_from relay_addr
      send_typed (Command.listen_via_relay addr)

    unfoldable pub rendezvous_register : Bytes → ℕ → Bytes → Nif Atom
    rendezvous_register namespace ttl rendezvous_peer_str = do
      rendezvous_peer ← peer_from rendezvous_peer_str
      send_typed (Command.rendezvous_register namespace ttl rendezvous_peer)

    unfoldable pub rendezvous_discover : Bytes → Bytes → Nif Atom
    rendezvous_discover namespace rendezvous_peer_str = do
      rendezvous_peer ← peer_from rendezvous_peer_str
      send_typed (Command.rendezvous_discover namespace rendezvous_peer)

    unfoldable pub rendezvous_unregister : Bytes → Bytes → Nif Atom
    rendezvous_unregister namespace rendezvous_peer_str = do
      rendezvous_peer ← peer_from rendezvous_peer_str
      send_typed (Command.rendezvous_unregister namespace rendezvous_peer)

  abbrev failed : NifError → Term
  failed e = tuple_of (atom Atom.error ∷ encode_error e ∷ [])

  -- The new key pair is the crate's.
  unfoldable pub generate_keypair : net.Keypair → Term
  generate_keypair keypair = elim (net.keypair_to_protobuf keypair) [
    | some protobuf ↦ tuple_of (
        atom Atom.ok
        ∷ binary (net.public_protobuf keypair)
        ∷ binary (net.to_base58 (net.to_peer_id keypair))
        ∷ binary protobuf
        ∷ [])
    | none ↦ tuple_of (atom Atom.error ∷ binary [] ∷ binary [] ∷ binary [] ∷ [])
  ]

  unfoldable pub keypair_from_protobuf : Bytes → Term
  unfolding encode_error
  keypair_from_protobuf bytes =
      if ltb max_keypair_bytes (length bytes)
      then failed (NifError.input_too_large (length bytes) max_keypair_bytes)
      else elim (net.keypair_from_protobuf bytes) [
        | ok keypair ↦ tuple_of (
            atom Atom.ok
            ∷ binary (net.public_protobuf keypair)
            ∷ binary (net.to_base58 (net.to_peer_id keypair))
            ∷ [])
        | err e ↦ failed (NifError.invalid_keypair e)
      ]
