-- ===== src/Port/Tests/Handlers.antt =====
-- native/iroh_discovery/src/bin/iroh_discovery_port.rs at concrete inputs: one port publishes, another
-- ingests and dials. Endpoints and bytes are their own texts.
use nerves_p2p.Prelude.{◌≡◌, refl, ap, true, false, none, some, [], ◌∷◌, Any, ok, ok_or, ◌∙◌, arith}
use nerves_p2p.Prelude.Bytes.{text, bytes_eq}
use nerves_p2p.Prelude.Ipv4.{parse_ipv4}
use nerves_p2p.Prelude.HashMap
use nerves_p2p.Prelude.BTreeMap
use nerves_p2p.Prelude.Text.{split_once, contains}
use nerves_p2p.Discovery.Validate.{valid_node_name, name_byte, host_byte}
use nerves_p2p.Discovery.Authorization
use nerves_p2p.Discovery.Sign.{sign_announcement}
use nerves_p2p.Discovery.Store.{reserve_next}
use nerves_p2p.Discovery.Store.Memory.{memory_store, MemorySequenceStore, load, advance}
use nerves_p2p.Discovery.Registry
use nerves_p2p.Discovery.Registry.{Registry, drop_old, rate_of, receive}
use nerves_p2p.Discovery.Transport
use nerves_p2p.Discovery.Types.{saturating_add}
use nerves_p2p.Discovery.Registry.Query.{
  active, bindings, expire, retain_live, values, binding_of, is_live,
}
use nerves_p2p.Discovery.Tests.Samples.{keys, secret, secret-Signs, offer, registry, node, fleet}
use nerves_p2p.Discovery.Tests.Codec.{sealed, offer_signed, offer-IsAnnouncement}
use nerves_p2p.Discovery.Tests.Receive.{offer-heard}
use nerves_p2p.Dist.Streams
use nerves_p2p.Port.Values.{number, boolean, null, json_capability}
use nerves_p2p.Port.Json.{Texts, collect, port_named, named_capability}
use nerves_p2p.Port.Requests.{Publish}
use nerves_p2p.Port.State.{
  State, World, ◌>>=◌, after, pure, lift, refuse, asks, named, on_registry, with_network,
  sync_dist_bindings, receive_announcements, receive_registry, announcements, on_dist, dist_answer,
}
use nerves_p2p.Discovery.Transport.{GossipEvent}
use nerves_p2p.Port.Handle.{
  reserve, broadcast, announcement_of, announce, publish_record, published, handle_ingest,
  dist_connected, connect, connect_stream,
}
use nerves_p2p.Port.Handle.Peers.{Announces, dist_connected-Any}
use nerves_p2p.Port.Handle.Delivery.{
  TextLaws, IsReady, ingest_accepted, on_registry-ok, ingest-published,
}
use nerves_p2p.Port.Handle.Runs.{>>=_ok}
use nerves_p2p.Discovery.Registry.Receive.Delivery.{heard}
use nerves_p2p.Prelude.Order.{compare_bytes}

abbrev texts : Texts
texts = record {
  endpoint_from = λ t. some t;
  endpoint_text = λ e. e;
  hex_decode = λ t. some t;
  hex_encode = λ b. b;
  socket = λ t. true;
}

texts-TextLaws : TextLaws texts
texts-TextLaws = record { hex = λ b. refl; endpoint = λ e. refl }

abbrev world : World
world = record {
  now = 1000;
  instant = 50;
  mdns = [];
  gossip = [];
  broadcasts = true;
  address = null;
  built = none;
  dialled = true;
  port_open = true;
  while_receiving = λ s. s;
  while_dialling = λ s. s;
}

abbrev request : Publish
request = record {
  ttl_ms = 5000;
  partisan_ip = text "10.0.0.1";
  partisan_port = 9000;
  capabilities = (text "gpu", boolean true) ∷ (text "ram", number 300) ∷ [];
  load = record { running = 1; capacity = 4 };
}

abbrev publisher : State MemorySequenceStore
publisher = record {
  fleet = fleet;
  outbound = (node, 6) ∷ [];
  registry = registry;
  network = none;
  dist_events = [];
}

ip : parse_ipv4 (text "10.0.0.1") ≡ some offer.partisan_ip
unfolding parse_ipv4
ip = refl

map : port_named (collect named_capability request.capabilities) ≡ ok offer.capabilities
unfolding port_named collect named_capability json_capability
map = refl

abbrev reserved : State MemorySequenceStore
reserved = record publisher { outbound = (node, 7) ∷ [] }

abbrev kept : State MemorySequenceStore
kept = record reserved { registry = heard keys memory_store offer 1000 registry }

reserve_seven : reserve memory_store node publisher ≡ (ok 7, reserved)
unfolding reserve named reserve_next load advance BTreeMap.get BTreeMap.insert bytes_eq
    compare_bytes HashMap.get HashMap.insert
reserve_seven = refl

announce_offer :
    announce keys memory_store texts secret world 7 sealed reserved ≡ (ok (7, sealed), kept)
unfolding announce with_network sync_dist_bindings broadcast pure
announce_offer =
    >>=_ok (on_registry (receive keys memory_store sealed 1000)) _ reserved kept tt (
      on_registry-ok keys memory_store texts secret (receive keys memory_store sealed 1000) reserved
        tt (heard keys memory_store offer 1000 registry) offer-heard)
    ∙ (>>=_ok (sync_dist_bindings world) _ kept kept tt refl
        ∙ >>=_ok (broadcast world sealed) _ kept kept tt refl)

published_offer :
    published keys memory_store texts secret (text "a@h") world request publisher
    ≡ (ok (7, sealed), kept)
unfolding published publish_record lift asks refuse announcement_of named
published_offer =
    >>=_ok (lift _) _ publisher publisher offer.partisan_ip
      (ap (λ o. (ok_or o (text "invalid_record"), publisher)) ip)
    ∙ (>>=_ok (refuse false (text "invalid_record")) _ publisher publisher tt refl
        ∙ (>>=_ok (lift _) _ publisher publisher offer.capabilities (ap (λ r. (r, publisher)) map)
            ∙ (>>=_ok (reserve memory_store node) _ publisher reserved 7 reserve_seven
                ∙ (>>=_ok (asks (λ s. s.fleet)) _ reserved reserved fleet refl
                    ∙ (>>=_ok (lift (named (sign_announcement offer secret))) _ reserved reserved
                          sealed (ap (λ r. (named r, reserved)) offer_signed)
                        ∙ announce_offer)))))

-- Another port of the fleet, which has not heard of the node.
abbrev other : State MemorySequenceStore
other = record {
  fleet = fleet;
  outbound = [];
  registry = record registry { authorization = [] };
  network = none;
  dist_events = [];
}

other-IsReady : IsReady memory_store offer 1000 other.registry
unfolding Registry.authorize Authorization.authorize load advance drop_old rate_of HashMap.get
    BTreeMap.get bytes_eq valid_node_name split_once contains name_byte host_byte
other-IsReady = record {
  fleet = refl;
  admitted = refl;
  room = refl;
  last = 0;
  before = refl;
  above = omega arith;
  writable = refl;
}

ingest-published_example :
    ((handle_ingest keys memory_store texts secret world sealed node (text "a@h") other).0
      ≡ ok ingest_accepted)
    × ((active
          (handle_ingest keys memory_store texts secret world sealed node
            (text "a@h")
            other).1.registry
          node
          1000).0
        ≡ some offer)
unfolding announcement_of
ingest-published_example =
    ingest-published keys memory_store texts secret secret-Signs texts-TextLaws (text "a@h") world
      world request publisher kept other 7 sealed offer.partisan_ip offer.capabilities ip map
      published_offer offer-IsAnnouncement other-IsReady (omega arith)

-- A port on the network that has heard the node dials it.
abbrev dialler : State MemorySequenceStore
dialler = record {
  fleet = fleet;
  outbound = [];
  registry = heard keys memory_store offer 900 registry;
  network =
      some
        (record { dist = Streams.new; mdns = false; bootstrap = []; joined = []; broadcast = [] });
  dist_events = [];
}

abbrev dialled_state : State MemorySequenceStore
dialled_state =
    (dist_connected keys memory_store texts secret (text "b@h") world (text "b@h") (text "a@h")
      dialler).1

dialled_offer :
    dist_connected keys memory_store texts secret
      (text "b@h")
      world
      (text "b@h")
      (text "a@h")
      dialler
    ≡ (ok (node, 1), dialled_state)
unfolding dist_connected ◌>>=◌ after pure lift refuse bytes_eq receive_announcements
    receive_registry announcements Transport.receive sync_dist_bindings connect connect_stream
    on_dist dist_answer with_network Streams.connect_target Streams.live_endpoint valid_node_name
    split_once contains name_byte host_byte HashMap.get HashMap.insert Streams.replace_bindings
    Streams.collect_bindings Streams.install_stream bindings expire retain_live values binding_of
    is_live saturating_add Streams.new
dialled_offer = refl

dist_connected-Any_example :
    (text "b@h" ≡ text "b@h")
    × Any (Announces 1000 node (text "a@h")) dialled_state.registry.records
dist_connected-Any_example =
    dist_connected-Any keys memory_store texts secret (text "b@h") world (text "b@h") (text "a@h")
      dialler dialled_state node 1 dialled_offer
