-- ===== src/Bridge/Tests/Loop.antt =====
-- native/p2p_bridge/src/node.rs at concrete inputs: peers and addresses that are their own bytes.
use nerves_p2p.Prelude.{
  ℕ, ◌+◌, ◌≡◌, ◌≢◌, refl, true, false, none, some, List, [], ◌∷◌, ◌++◌, length, ok, arith,
}
use nerves_p2p.Prelude.Bytes.{Bytes, Eq_bytes, text, be_bytes, bytes_eq}
use nerves_p2p.Prelude.Decimal.{decimal}
use nerves_p2p.Prelude.HashMap.{get, insert, remove, retain}
use nerves_p2p.Bridge.Net.{Libp2p, ReadsBack}
use nerves_p2p.Bridge.Terms.{Atom}
use nerves_p2p.Bridge.Commands.{Command}
use nerves_p2p.Bridge.Swarm.{View, send_response, reply_import}
use nerves_p2p.Bridge.DhtState.{
  encode, encode_u16, encode_u32, encode_addresses, encode_entry, encode_entries, magic,
}
use nerves_p2p.Bridge.Nif.{sent, kad_export_routing_table, kad_import_routing_table}
use nerves_p2p.Bridge.Node.{
  Node, Input, channel_id, evict, notify, start, step, run, proceed, on_request, on_command,
  respond, respond_on, export_bucket, export_buckets, exported, response_ttl,
}
use nerves_p2p.Bridge.Node.Pending.Changes.{After}
use nerves_p2p.Bridge.Node.Pending.Table.{IsPending, run-IsPending}
use nerves_p2p.Bridge.Node.Pending.Answers.{channel_id_injective, request-respond, respond_once}
use nerves_p2p.Bridge.Node.Pending.Recovery.{tick-request}
use nerves_p2p.Bridge.Node.Routing.{kad_import-kad_export, Bucket, add_buckets}

abbrev net : Libp2p
net = record {
  PeerId = Bytes;
  Multiaddr = Bytes;
  ResponseChannel = ℕ;
  Namespace = Bytes;
  F64 = ℕ;
  Keypair = Bytes;
  to_base58 = λ p. p;
  parse_peer = λ t. ok t;
  peer_to_bytes = λ p. p;
  peer_from_bytes = λ b. some b;
  addr_to_text = λ a. a;
  parse_addr = λ t. ok t;
  addr_to_vec = λ a. a;
  addr_try_from = λ b. some b;
  zero_score = 0;
  keypair_from_protobuf = λ b. ok b;
  keypair_to_protobuf = λ k. some k;
  public_protobuf = λ k. k;
  to_peer_id = λ k. k;
  new_namespace = λ t. some t;
}

abbrev laws : ReadsBack net
laws = record { peer = λ p. refl; addr = λ a. refl }

abbrev buckets : List (Bucket net)
buckets = ((text "peer", text "/ip4" ∷ text "/dns" ∷ []) ∷ []) ∷ [] ∷ []

abbrev view : View net
view = record {
  mesh_peers = λ t. [];
  all_peers = [];
  peer_score = λ p. none;
  connected_peers = [];
  listeners = [];
  is_connected = λ p. false;
  kademlia = some buckets;
  rendezvous_client = false;
  request_id = text "1";
  allocates = λ n. true;
}

abbrev request_at : ℕ → ℕ → View net × Input net
request_at now channel = (view, Input.request now (text "peer") (text "7") (text "body") channel)

abbrev answer : Bytes → View net × Input net
answer id = (view, Input.command (Command.rpc_send_response id (text "reply")))

abbrev rounds : List (View net × Input net)
rounds = request_at 5 1 ∷ request_at 9 2 ∷ answer (text "ch-1") ∷ []

abbrev first : Node net
first = record {
  event_handler = some 3;
  pending_responses = (text "ch-1", (1, 5)) ∷ [];
  channel_counter = 1;
}

abbrev second : Node net
second = record {
  event_handler = some 3;
  pending_responses = (text "ch-1", (1, 5)) ∷ (text "ch-2", (2, 9)) ∷ [];
  channel_counter = 2;
}

abbrev third : Node net
third = record {
  event_handler = some 3;
  pending_responses = (text "ch-2", (2, 9)) ∷ [];
  channel_counter = 2;
}

first-IsPending : IsPending net 1 first
unfolding channel_id decimal get
first-IsPending = record {
  few = omega arith;
  ids = ((1, (refl, (omega arith, omega arith))), tt);
  distinct = (refl, tt);
  counted = omega arith;
}

second-IsPending : IsPending net 2 second
unfolding channel_id decimal get bytes_eq
second-IsPending = record {
  few = omega arith;
  ids = ((1, (refl, (omega arith, omega arith))), ((2, (refl, (omega arith, omega arith))), tt));
  distinct = (refl, (refl, tt));
  counted = omega arith;
}

run-IsPending_example : After (IsPending net 3) (run net true (start net) rounds).0
run-IsPending_example = run-IsPending net true rounds (omega arith)

first_let_in :
    (step net true view first (Input.request 9 (text "peer") (text "7") (text "body") 2)).0
    ≡ some second
unfolding step on_request channel_id decimal insert bytes_eq
first_let_in = refl

later : List (View net × Input net)
later = (view, Input.tick 100) ∷ answer (text "ch-1") ∷ []

run-later : (run net true second later).0 ≡ some third
unfolding later run proceed step on_command respond respond_on evict retain get remove bytes_eq
run-later = refl

ch-2 : channel_id 2 ≡ text "ch-2"
unfolding channel_id decimal
ch-2 = refl

other : text "ch-1" ≢ channel_id 2
unfolding channel_id decimal
other e = omega (arith, channel_id_injective 1 2 e)

request-respond_example :
    (step net true view third
      (Input.command (Command.rpc_send_response (channel_id 2) (text "reply")))).1
    ≡ send_response 2 (text "reply") ∷ []
unfolding later
request-respond_example =
    request-respond net true view first second third 1 9 (text "peer") (text "7") (text "body")
      (text "reply") 2 later view first-IsPending (omega arith) (omega arith) first_let_in
      (omega arith, (other, tt)) run-later

respond_second :
    step net true view second
      (Input.command (Command.rpc_send_response (text "ch-1") (text "reply")))
    ≡ (some third, send_response 1 (text "reply") ∷ [])
unfolding step on_command respond respond_on get remove bytes_eq
respond_second = refl

quiet : (run net true third ((view, Input.tick 100) ∷ [])).0 ≡ some third
unfolding run proceed step evict retain
quiet = refl

respond_once_example :
    step net true view third
      (Input.command (Command.rpc_send_response (text "ch-1") (text "again")))
    ≡ (some third, [])
respond_once_example =
    respond_once net true view view second third third 2 (text "ch-1") (text "reply") (text "again")
      (send_response 1 (text "reply") ∷ []) ((view, Input.tick 100) ∷ []) second-IsPending
      (omega arith) respond_second (λ e. cc e) quiet

run-rounds : (run net true (start net) rounds).0 ≡ some (record third { event_handler = none })
unfolding run proceed start step on_request on_command respond respond_on channel_id decimal insert
    get remove bytes_eq
run-rounds = refl

tick-request_example :
    run net true
      (record third { event_handler = none })
      ((view, Input.tick (response_ttl + 9)) ∷ request_at 11 5 ∷ [])
    ≡ (
      some (record {
        event_handler = none;
        pending_responses = (channel_id 3, (5, 11)) ∷ [];
        channel_counter = 3;
      }),
      [],
    )
unfolding notify
tick-request_example =
    tick-request net 9 true rounds (record third { event_handler = none }) view view
      (response_ttl + 9) 11 (text "peer") (text "7") (text "body") 5 (omega arith) (omega arith)
      run-rounds (omega arith)

abbrev table_bytes : Bytes
table_bytes = encode (export_buckets net buckets)

size : length table_bytes ≡ 29
unfolding encode export_buckets export_bucket encode_entries encode_entry encode_addresses
    encode_u16 encode_u32 magic be_bytes
size = refl

kad_import-kad_export_example :
    (kad_export_routing_table net sent (λ n. true) (some (exported net (some buckets))) 4
      ≡ (ok (Atom.ok, table_bytes), Command.dht_export_routing_table 4 ∷ []))
    × ((step net true view first
            (Input.command (Command.dht_import_routing_table (export_buckets net buckets) 6))
          ≡ (
            some first,
            add_buckets net buckets
                ++ (reply_import 6 (ok (length (add_buckets net buckets))) ∷ []),
          ))
        × (kad_import_routing_table net sent
              (some (ok (length (add_buckets net buckets))))
              table_bytes
              6
            ≡ (
              ok (Atom.ok, length (add_buckets net buckets)),
              Command.dht_import_routing_table (export_buckets net buckets) 6 ∷ [],
            )))
unfolding export_buckets export_bucket
kad_import-kad_export_example =
    kad_import-kad_export net laws true view view first buckets buckets (λ n. true) 4 6 refl refl
      (
        record {
          peer = omega arith;
          few = omega arith;
          addresses = (omega arith, (omega arith, tt));
        },
        tt,
      )
      (omega arith) (omega (arith, size)) refl
