-- ===== src/Bridge/Config.antt =====
-- native/p2p_bridge/src/config.rs: the configuration of a node, read from a map of Elixir terms. How
-- the rustler crate decodes a term is a parameter; a literal of type `f64` is the text of the source.
use nerves_p2p.Prelude.{
  ℕ, ◌%◌, ◌^◌, Bool, true, false, Option, none, some, List, [], ◌++◌, if◌then◌else◌, unwrap_or,
  Result, ok,
}
use nerves_p2p.Prelude.Results.{◌>>=◌, ok_or}
use nerves_p2p.Prelude.Bytes.{Bytes, Eq_bytes, text}
use nerves_p2p.Prelude.HashMap.{HashMap, get}
use mathlib.Core.Option

pub record Decoder : Type 1 where
  pub Term : Type 0
  pub F64 : Type 0
  pub literal : Bytes → F64
  pub is_atom : Term → Bool
  pub string_list : Term → Option (List Bytes)
  pub string : Term → Option Bytes
  pub binary : Term → Option Bytes
  pub bool : Term → Option Bool
  pub u64 : Term → Option ℕ
  pub u32 : Term → Option ℕ
  pub f64 : Term → Option F64
  pub fields : Term → Option (HashMap Bytes Term)

pub record PeerScoreConfig (d : Decoder) : Type 0 where
  pub ip_colocation_factor_weight : d.F64
  pub ip_colocation_factor_threshold : d.F64
  pub behaviour_penalty_weight : d.F64
  pub behaviour_penalty_decay : d.F64

pub record ThresholdsConfig (d : Decoder) : Type 0 where
  pub gossip_threshold : d.F64
  pub publish_threshold : d.F64
  pub graylist_threshold : d.F64
  pub accept_px_threshold : d.F64
  pub opportunistic_graft_threshold : d.F64

pub record NodeConfig (d : Decoder) : Type 0 where
  pub keypair_bytes : Option Bytes
  pub listen_addrs : List Bytes
  pub bootstrap_peers : List Bytes
  pub gossipsub_topics : List Bytes
  pub gossipsub_mesh_n : ℕ
  pub gossipsub_mesh_n_low : ℕ
  pub gossipsub_mesh_n_high : ℕ
  pub gossipsub_gossip_lazy : ℕ
  pub gossipsub_max_transmit_size : ℕ
  pub gossipsub_heartbeat_interval_ms : ℕ
  pub peer_score_disabled : Bool
  pub peer_score : Option (PeerScoreConfig d)
  pub thresholds : Option (ThresholdsConfig d)
  pub enable_mdns : Bool
  pub mdns_auto_dial : Bool
  pub enable_kademlia : Bool
  pub enable_relay : Bool
  pub enable_relay_server : Bool
  pub enable_autonat : Bool
  pub enable_autonat_server : Bool
  pub enable_upnp : Bool
  pub enable_rendezvous_client : Bool
  pub enable_rendezvous_server : Bool
  pub enable_websocket : Bool
  pub rpc_protocol_name : Bytes
  pub rpc_request_timeout_secs : ℕ
  pub idle_connection_timeout_secs : ℕ
  pub max_established_incoming : ℕ
  pub max_established_outgoing : ℕ
  pub max_pending_incoming : ℕ
  pub max_pending_outgoing : ℕ
  pub max_established_per_peer : ℕ
  pub memory_max_percentage : d.F64
  pub relay_max_reservations : ℕ
  pub relay_max_circuits : ℕ
  pub relay_max_circuit_duration_secs : ℕ
  pub relay_max_circuit_bytes : ℕ

module _ (d : Decoder) where
  unfoldable pub string_list_of : Bytes → Option d.Term → Result (List Bytes) Bytes
  string_list_of key none = ok []
  string_list_of key (some term) = ok_or (d.string_list term) (text "invalid " ++ key)

  module _ (entries : HashMap Bytes d.Term) where
    unfoldable pub get_string_list : Bytes → Result (List Bytes) Bytes
    unfolding string_list_of
    get_string_list key = string_list_of key (get entries key)

    -- `map.get(key).and_then(..)`.
    unfoldable pub get_with {ℓ} : {A : Type ℓ} → (d.Term → Option A) → Bytes → Option A
    get_with f key = Option.bind (get entries key) f

    unfoldable pub get_string : Bytes → Bytes → Bytes
    unfolding get_with
    get_string key default = unwrap_or (get_with d.string key) default

    unfoldable pub get_binary : Bytes → Option Bytes
    unfolding get_with
    get_binary key = get_with (λ t. if d.is_atom t then none else d.binary t) key

    unfoldable pub get_bool : Bytes → Bool → Bool
    unfolding get_with
    get_bool key default = unwrap_or (get_with d.bool key) default

    unfoldable pub get_u64 : Bytes → ℕ → ℕ
    unfolding get_with
    get_u64 key default = unwrap_or (get_with d.u64 key) default

    unfoldable pub get_u32 : Bytes → ℕ → ℕ
    unfolding get_with
    get_u32 key default = unwrap_or (get_with d.u32 key) default

    -- On a machine of 64 bits.
    unfoldable pub get_usize : Bytes → ℕ → ℕ
    unfolding get_with
    get_usize key default = unwrap_or (Option.map (λ v. v % 2 ^ 64) (get_with d.u64 key)) default

    unfoldable pub get_f64 : Bytes → Bytes → d.F64
    unfolding get_with
    get_f64 key default = unwrap_or (get_with d.f64 key) (d.literal default)

  unfoldable pub peer_score_from : HashMap Bytes d.Term → PeerScoreConfig d
  unfolding get_f64
  peer_score_from inner = record {
    ip_colocation_factor_weight = get_f64 inner (text "ip_colocation_factor_weight") (text "-53.0");
    ip_colocation_factor_threshold =
        get_f64 inner (text "ip_colocation_factor_threshold") (text "3.0");
    behaviour_penalty_weight = get_f64 inner (text "behaviour_penalty_weight") (text "-15.92");
    behaviour_penalty_decay = get_f64 inner (text "behaviour_penalty_decay") (text "0.986");
  }

  unfoldable pub thresholds_from : HashMap Bytes d.Term → ThresholdsConfig d
  unfolding get_f64
  thresholds_from inner = record {
    gossip_threshold = get_f64 inner (text "gossip_threshold") (text "-4000.0");
    publish_threshold = get_f64 inner (text "publish_threshold") (text "-8000.0");
    graylist_threshold = get_f64 inner (text "graylist_threshold") (text "-16000.0");
    accept_px_threshold = get_f64 inner (text "accept_px_threshold") (text "100.0");
    opportunistic_graft_threshold =
        get_f64 inner (text "opportunistic_graft_threshold") (text "5.0");
  }

  -- The map that stands under a key: none for an atom, such as `nil`, or for another term.
  unfoldable pub inner_map : d.Term → Option (HashMap Bytes d.Term)
  inner_map term = if d.is_atom term then none else d.fields term

  module _ (entries : HashMap Bytes d.Term) where
    unfoldable pub get_peer_score : Option (PeerScoreConfig d)
    unfolding get_with inner_map peer_score_from
    get_peer_score =
        Option.map peer_score_from (get_with entries inner_map (text "gossipsub_peer_score"))

    unfoldable pub get_thresholds : Option (ThresholdsConfig d)
    unfolding get_with inner_map thresholds_from
    get_thresholds =
        Option.map thresholds_from (get_with entries inner_map (text "gossipsub_thresholds"))

    unfoldable pub from_map : Result (NodeConfig d) Bytes
    unfolding get_string_list get_string get_binary get_bool get_u64 get_u32 get_usize get_f64
        get_peer_score get_thresholds
    from_map = do
      listen_addrs ← get_string_list entries (text "listen_addrs")
      bootstrap_peers ← get_string_list entries (text "bootstrap_peers")
      gossipsub_topics ← get_string_list entries (text "gossipsub_topics")
      ok record {
        keypair_bytes = get_binary entries (text "keypair_bytes");
        listen_addrs = listen_addrs;
        bootstrap_peers = bootstrap_peers;
        gossipsub_topics = gossipsub_topics;
        gossipsub_mesh_n = get_usize entries (text "gossipsub_mesh_n") 6;
        gossipsub_mesh_n_low = get_usize entries (text "gossipsub_mesh_n_low") 4;
        gossipsub_mesh_n_high = get_usize entries (text "gossipsub_mesh_n_high") 12;
        gossipsub_gossip_lazy = get_usize entries (text "gossipsub_gossip_lazy") 6;
        gossipsub_max_transmit_size = get_usize entries (text "gossipsub_max_transmit_size") 65536;
        gossipsub_heartbeat_interval_ms =
            get_u64 entries (text "gossipsub_heartbeat_interval_ms") 1000;
        peer_score_disabled = get_bool entries (text "peer_score_disabled") false;
        peer_score = get_peer_score;
        thresholds = get_thresholds;
        enable_mdns = get_bool entries (text "enable_mdns") true;
        mdns_auto_dial = get_bool entries (text "mdns_auto_dial") true;
        enable_kademlia = get_bool entries (text "enable_kademlia") true;
        enable_relay = get_bool entries (text "enable_relay") false;
        enable_relay_server = get_bool entries (text "enable_relay_server") false;
        enable_autonat = get_bool entries (text "enable_autonat") false;
        enable_autonat_server = get_bool entries (text "enable_autonat_server") false;
        enable_upnp = get_bool entries (text "enable_upnp") false;
        enable_rendezvous_client = get_bool entries (text "enable_rendezvous_client") false;
        enable_rendezvous_server = get_bool entries (text "enable_rendezvous_server") false;
        enable_websocket = get_bool entries (text "enable_websocket") false;
        rpc_protocol_name =
            get_string entries (text "rpc_protocol_name") (text "/elixir-rpc/1.0.0");
        rpc_request_timeout_secs = get_u64 entries (text "rpc_request_timeout_secs") 30;
        idle_connection_timeout_secs = get_u64 entries (text "idle_connection_timeout_secs") 60;
        max_established_incoming = get_u32 entries (text "max_established_incoming") 256;
        max_established_outgoing = get_u32 entries (text "max_established_outgoing") 256;
        max_pending_incoming = get_u32 entries (text "max_pending_incoming") 128;
        max_pending_outgoing = get_u32 entries (text "max_pending_outgoing") 64;
        max_established_per_peer = get_u32 entries (text "max_established_per_peer") 2;
        memory_max_percentage = get_f64 entries (text "memory_max_percentage") (text "0.9");
        relay_max_reservations = get_u32 entries (text "relay_max_reservations") 128;
        relay_max_circuits = get_u32 entries (text "relay_max_circuits") 16;
        relay_max_circuit_duration_secs =
            get_u64 entries (text "relay_max_circuit_duration_secs") 120;
        relay_max_circuit_bytes = get_u64 entries (text "relay_max_circuit_bytes") 131072;
      }
