-- ===== src/Lib.antt =====
-- A model of the Rust code of nerves_p2p, an Elixir node network over iroh.
--
-- The native program native/iroh_discovery keeps a registry of the nodes of a fleet. Nodes gossip
-- signed envelopes; each registry decodes an envelope, checks fleet, enrolment, rate, signature and
-- sequence, and keeps the announcement until its time to live is over. Queries answer the peers
-- that match a list of predicates. The same program carries the Erlang distribution over streams
-- with credit, whose peers are the bindings that the registry answers. The native library
-- native/p2p_bridge drives libp2p: Elixir calls put commands into a channel, the loop of the node takes
-- them, and what the swarm reports goes to Elixir as terms.
--
-- Files, and the code that each is about:
--   Discovery/Types, Validate        native/iroh_discovery/src/lib.rs: the data types, and the tests
--                                    `valid_node_name`, `valid_capability`, `validate_*`
--   Discovery/Encode, Reader, Decode the canonical CBOR codec: `encode_*`, `Reader`, `decode_*`
--   Discovery/Codec                  what holds of the codec
--   Discovery/Store                  the trait `SequenceStore` with its laws, `MemorySequenceStore`,
--                                    `FileSequenceStore`, `atomic_write` and `reserve_next`
--   Discovery/Authorization          `AuthorizationTable`
--   Discovery/Registry               `Registry`: `receive`, `authorize`, `revoke`, `check_rate` and
--                                    (in Query) `expire` and the queries
--   Discovery/Sign                   `sign_announcement`, `sign_withdrawal`, `sign_body`
--   Discovery/Secret                 `load_or_create_secret`
--   Discovery/Transport              native/iroh_discovery/src/transport.rs: `Subscription::receive`
--   Dist/Header                      native/iroh_discovery/src/dist.rs: `encode_header`, `read_header`
--   Dist/Streams                     `Shared` and its methods, `accept`, `install_stream`, and (in
--                                    Loop) the loop of `run_stream` as steps of one stream
--   Bridge/DhtState                  native/p2p_bridge/src/dht_state.rs: `encode`, `decode`, `Cursor`
--   Bridge/Net                       what the bridge uses of the libp2p crates
--   Bridge/Commands, Terms, Errors   native/p2p_bridge/src/commands.rs, atoms.rs, error.rs
--   Bridge/Config                    native/p2p_bridge/src/config.rs: `NodeConfig::from_map`
--   Bridge/Events                    native/p2p_bridge/src/events.rs: the terms sent to Elixir
--   Bridge/Swarm, Node               native/p2p_bridge/src/node.rs: `swarm_loop`; Node/Pending is about
--                                    the requests that wait for an answer, Node/Routing about the
--                                    routing table that is exported and imported
--   Bridge/Nif                       native/p2p_bridge/src/lib.rs: the functions that Elixir calls
--   Port/Frames, Values, Requests    native/iroh_discovery/src/bin/iroh_discovery_port.rs: frames, and
--                                    the values and commands of a request
--   Port/State, Json, Handle         `State`, the parts that commands share, and `handle`
--   Port/Main                        the reading thread and the loop of `main`
--   */Tests                          the theorems at concrete inputs
--   Prelude                          shared helpers; models of the collections of Rust's library
--
-- How the code is translated. A method on `&mut self` is a function that returns its result with
-- the state that it leaves, on errors too. A `String` is its UTF-8 bytes, a `[u8; N]` a list of
-- bytes, a `u64` a natural number; lengths stay below 2 ^ 64, and where the code checks an overflow
-- the model does. A `BTreeMap` is a sorted association list, a `HashMap` an association list in an
-- order that no theorem fixes. Loops are recursions on a list or on the count of the loop, so no
-- fuel runs out. The file system is a map from paths to contents with an oracle for the step that
-- fails.
--
-- Parameters. The iroh crate decides which bytes are a key or a signature and whether a signature
-- verifies (`Keys`), makes signatures (`SecretKey`), and turns a secret key into bytes and back
-- (`SecretBytes`); what it documents of these is the hypotheses `Signs` and `KeepsBytes`. Between two
-- starts of the port program nothing else writes the file of its key.
--
-- What the operating system, a connection and the event channel answer are arguments. Of the loop of
-- `run_stream` a step is what happens between two points where it waits, so that the calls of other
-- threads come between any two steps. A round of `swarm_loop` is a step from its variables, what
-- `select!` gives and what the swarm answers (`View`) to the next variables and the list of the calls,
-- replies and messages of the round. The counter of requests wraps at 2 ^ 64, which the theorems on
-- pending responses exclude by the count of rounds. A handler of the port runs over a `World` that
-- holds what the network and the crates answer, and what other tasks do to the streams while it waits.
-- The loop of `receive_announcements` and the reading thread run on fuel, for which one more than the
-- events, or than the bytes of the input, is enough.
--
-- Not modelled: the calls that build an endpoint or a swarm (`network_start` after its checks,
-- `start_node_inner`, native/p2p_bridge/src/behaviour.rs), which put crates together; how serde
-- and rustler decode a request or a term; the textual form of a socket address; native/peer_id,
-- one call of a crate; the Elixir and Erlang code.
pub mod Prelude
pub mod Discovery
pub mod Dist
pub mod Bridge
pub mod Port
