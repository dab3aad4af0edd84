-- ===== src/Port/Handle.antt =====
-- native/iroh_discovery/src/bin/iroh_discovery_port.rs: `handle`, the answer to each command.
pub mod Runs
pub mod Peers
pub mod Publication
pub mod Delivery
use nerves_p2p.Prelude.{
  ℕ, Bool, true, false, not, Option, none, some, is_some, List, [], ◌∷◌, ◌++◌, map, length, nat_eq,
  ◌==◌, if◌then◌else◌, Result, ok, err, ok_or,
}
use nerves_p2p.Prelude.Bytes.{Bytes, Eq_bytes, text}
use nerves_p2p.Prelude.Ipv4.{parse_ipv4}
use nerves_p2p.Discovery.Types.{Error, EndpointId, Keys, Capabilities, Announcement}
use nerves_p2p.Discovery.Sign.{SecretKey, sign_announcement}
use nerves_p2p.Discovery.Store.{SequenceStore, reserve_next}
use nerves_p2p.Discovery.Registry
use nerves_p2p.Discovery.Registry.Query
use nerves_p2p.Dist.Streams
use nerves_p2p.Dist.Streams.{Shared, Event, connect_target, install_stream}
use nerves_p2p.Port.Values.{Value, boolean, number, string, JsonPredicate, json_predicate}
use nerves_p2p.Port.Json.{
  Texts, json_object, json_array, json_optional, collect, port_named, named_capability, sorted_set,
  enabled_names, endpoint_of, explicit_ids, peer_json,
}
use nerves_p2p.Port.Requests.{
  JsonLoad, NetworkStart, Publish, Command, identity, authorize, network_start, publish, ingest,
  find, dist_listen, dist_connect, dist_send, dist_credit, dist_close, shutdown, error_name,
  dist_error_name,
}
use nerves_p2p.Port.State.{
  Network, State, World, Port, ◌>>=◌, ◌>>◌, pure, lift, refuse, asks, named, on_registry, with_dist,
  dist_answer, with_network, on_dist, sync_dist_bindings, receive_mdns_peers, receive_announcements,
}

abbrev no_answer : Value
no_answer = json_object []

module _ {S : Type 0} where
  -- What follows the choice of the endpoint in `connect`: the stream that is installed once the header
  -- is written, with the event that announces it.
  unfoldable pub connect_stream : World → Bytes → Port S ℕ
  connect_stream w target_node s =
      with_network s.network
        (λ n t.
          let shared = w.while_dialling n.dist in
          if w.dialled
          then (let (result, shared', events) =
                install_stream w.port_open shared (λ id. Event.connected id target_node) in
              dist_answer (record t { dist_events = t.dist_events ++ events }) n (result, shared'))
          else dist_answer t n (err Streams.Error.connection_failed, shared))
        (lift (err (text "network_not_started"))) s

  -- `connect`, with the endpoint that it dials.
  unfoldable pub connect : World → Bytes → Bytes → Port S (EndpointId × ℕ)
  unfolding connect_stream
  connect w from_node target_node = do
    endpoint ← on_dist (λ shared. (connect_target w.instant shared from_node target_node, shared))
    id ← connect_stream w target_node
    pure (endpoint, id)

  -- `broadcast`, where there is a network.
  unfoldable pub broadcast : World → Bytes → Port S (Unit {0})
  broadcast w envelope s =
      with_network s.network
        (λ n t.
          if w.broadcasts
          then (
            ok tt,
            record t { network = some (record n { broadcast = n.broadcast ++ (envelope ∷ []) }) },
          )
          else (err (text "network_failed"), t))
        (pure tt) s

  unfoldable pub reserve : SequenceStore S → EndpointId → Port S ℕ
  unfolding named
  reserve ops endpoint s =
      let (result, store) = reserve_next ops s.outbound endpoint in
      (named result, record s { outbound = store })

  unfoldable pub set_network : Network → Port S (Unit {0})
  set_network n s = (ok tt, record s { network = some n })

-- The record that `publish` signs.
unfoldable pub announcement_of :
    SecretKey → Bytes → Bytes → Publish → Bytes → Capabilities → ℕ → Announcement
announcement_of secret fleet name c partisan_ip capabilities sequence = record {
  fleet_id = fleet;
  endpoint_id = secret.public;
  node_name = name;
  partisan_ip = partisan_ip;
  partisan_port = c.partisan_port;
  sequence = sequence;
  ttl_ms = c.ttl_ms;
  capabilities = capabilities;
  load = record { running = c.load.running; capacity = c.load.capacity };
}

module _ (k : Keys) {S : Type 0} (ops : SequenceStore S) (texts : Texts) (secret : SecretKey) where
  unfoldable pub handle_identity : World → Port S Value
  handle_identity w = do
    network ← asks (λ s. s.network)
    pure (
        json_object (
          (text "endpoint_id", string (texts.endpoint_text secret.public))
          ∷ (
            text "endpoint_address",
            json_optional (elim network [ none ↦ none | some n ↦ some w.address ]),
          )
          ∷ []))

  unfoldable pub handle_authorize : Bytes → Bytes → Port S Value
  handle_authorize endpoint_id name = do
    endpoint ← lift (endpoint_of texts endpoint_id)
    on_registry (λ r. Registry.authorize r endpoint name)
    pure (json_object ((text "authorized", boolean true) ∷ []))

  unfoldable pub handle_network_start : World → NetworkStart → Port S Value
  handle_network_start w c = do
    network ← asks (λ s. s.network)
    refuse (is_some network) (text "network_started")
    explicit ← lift (explicit_ids texts c.bootstrap)
    known ← lift (collect (endpoint_of texts) c.bootstrap_endpoint_ids)
    let ids = map (λ e. e.0) (sorted_set (known ++ explicit))
    address ← lift (ok_or w.built (text "network_failed"))
    set_network
        record { dist = Streams.new; mdns = c.mdns; bootstrap = ids; joined = []; broadcast = [] }
    pure (
        json_object (
          (text "endpoint_address", address)
          ∷ (
            text "discovery_mechanisms",
            json_array (
                enabled_names (
                  (is_some c.bootstrap, text "bootstrap")
                  ∷ (
                    not (nat_eq (length c.bootstrap_endpoint_ids) 0),
                    text "bootstrap_endpoint_ids",
                  )
                  ∷ (c.mdns, text "mdns")
                  ∷ (c.dht, text "dht")
                  ∷ (c.dns, text "dns")
                  ∷ (c.relay, text "relay")
                  ∷ [])),
          )
          ∷ []))

  -- What follows the signature.
  unfoldable pub announce : World → ℕ → Bytes → Port S (ℕ × Bytes)
  announce w sequence envelope = do
    on_registry (Registry.receive k ops envelope w.now)
    sync_dist_bindings w
    broadcast w envelope
    pure (sequence, envelope)

  -- What follows the reading of the request.
  unfoldable pub publish_record :
      Bytes → World → Publish → Bytes → Capabilities → Port S (ℕ × Bytes)
  unfolding announce
  publish_record node_name w c partisan_ip capabilities = do
    sequence ← reserve ops secret.public
    fleet ← asks (λ s. s.fleet)
    let a = announcement_of secret fleet node_name c partisan_ip capabilities sequence
    envelope ← lift (named (sign_announcement a secret))
    announce w sequence envelope

  -- The answer, with the envelope that it writes in hexadecimal.
  unfoldable pub published : Bytes → World → Publish → Port S (ℕ × Bytes)
  unfolding publish_record
  published node_name w c = do
    partisan_ip ← lift (ok_or (parse_ipv4 c.partisan_ip) (text "invalid_record"))
    refuse (nat_eq c.partisan_port 0) (text "invalid_record")
    capabilities ← lift (port_named (collect named_capability c.capabilities))
    publish_record node_name w c partisan_ip capabilities

  unfoldable pub handle_publish : Bytes → World → Publish → Port S Value
  unfolding published
  handle_publish node_name w c = do
    (sequence, envelope) ← published node_name w c
    pure (
        json_object (
          (text "sequence", number sequence)
          ∷ (text "envelope", string (texts.hex_encode envelope))
          ∷ []))

  unfoldable pub handle_ingest : World → Bytes → Bytes → Bytes → Port S Value
  handle_ingest w envelope endpoint_id name = do
    endpoint ← lift (endpoint_of texts endpoint_id)
    on_registry (λ r. Registry.authorize r endpoint name)
    bytes ← lift (ok_or (texts.hex_decode envelope) (text "malformed"))
    on_registry (Registry.receive k ops bytes w.now)
    sync_dist_bindings w
    pure (json_object ((text "accepted", boolean true) ∷ []))

  unfoldable pub handle_find : World → List JsonPredicate → Port S Value
  handle_find w predicates = do
    receive_announcements k ops w
    sync_dist_bindings w
    wanted ← lift (port_named (collect json_predicate predicates))
    peers ← on_registry (λ r. Query.find r wanted w.now)
    pure (json_object ((text "peers", json_array (map (peer_json texts) peers)) ∷ []))

  unfoldable pub handle_dist_listen : Bytes → World → Bytes → Port S Value
  handle_dist_listen node_name w listen = do
    refuse (not (listen == node_name)) (text "wrong_target")
    receive_announcements k ops w
    sync_dist_bindings w
    on_dist (λ shared. Streams.listen shared listen)
    pure no_answer

  unfoldable pub dist_connected : Bytes → World → Bytes → Bytes → Port S (EndpointId × ℕ)
  dist_connected node_name w from_node target_node = do
    refuse (not (from_node == node_name)) (text "unauthorized_source")
    receive_announcements k ops w
    sync_dist_bindings w
    connect w from_node target_node

  unfoldable pub handle_dist_connect : Bytes → World → Bytes → Bytes → Port S Value
  unfolding dist_connected
  handle_dist_connect node_name w from_node target_node = do
    (endpoint, id) ← dist_connected node_name w from_node target_node
    pure (json_object ((text "stream_id", number id) ∷ []))

  unfoldable pub handle_dist_send : ℕ → Bytes → Port S Value
  handle_dist_send id bytes = do
    decoded ← lift (ok_or (texts.hex_decode bytes) (text "malformed"))
    on_dist (λ shared. Streams.send shared id decoded)
    pure no_answer

  unfoldable pub handle_dist_credit : ℕ → ℕ → Port S Value
  handle_dist_credit id bytes = do
    on_dist (λ shared. Streams.credit shared id bytes)
    pure no_answer

  unfoldable pub handle_dist_close : ℕ → Port S Value
  handle_dist_close id = do on_dist (λ shared. Streams.close shared id); pure no_answer

  unfoldable pub dispatch : Bytes → World → Command → Port S Value
  unfolding handle_identity handle_authorize handle_network_start handle_publish handle_ingest
      handle_find handle_dist_listen handle_dist_connect handle_dist_send handle_dist_credit
      handle_dist_close
  dispatch node_name w identity = handle_identity w
  dispatch node_name w (authorize endpoint_id name) = handle_authorize endpoint_id name
  dispatch node_name w (network_start c) = handle_network_start w c
  dispatch node_name w (publish c) = handle_publish node_name w c
  dispatch node_name w (ingest envelope endpoint_id name) =
      handle_ingest w envelope endpoint_id name
  dispatch node_name w (find predicates) = handle_find w predicates
  dispatch node_name w (dist_listen listen) = handle_dist_listen node_name w listen
  dispatch node_name w (dist_connect from_node target_node) =
      handle_dist_connect node_name w from_node target_node
  dispatch node_name w (dist_send id bytes) = handle_dist_send id bytes
  dispatch node_name w (dist_credit id bytes) = handle_dist_credit id bytes
  dispatch node_name w (dist_close id) = handle_dist_close id
  dispatch node_name w shutdown = pure no_answer

  -- Peers that mDNS has found are joined before every command.
  unfoldable pub handle : Bytes → World → Command → Port S Value
  unfolding dispatch
  handle node_name w command = do receive_mdns_peers w; dispatch node_name w command
