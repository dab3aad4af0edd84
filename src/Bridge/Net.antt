-- ===== src/Bridge/Net.antt =====
-- What native/p2p_bridge/src uses of the libp2p crates: the types, and the functions between them
-- and bytes or text.
use nerves_p2p.Prelude.{Option, some, Result, ◌≡◌}
use nerves_p2p.Prelude.Bytes.{Bytes}

pub record Libp2p : Type 1 where
  pub PeerId : Type 0
  pub Multiaddr : Type 0
  pub ResponseChannel : Type 0
  pub Namespace : Type 0
  pub F64 : Type 0
  pub Keypair : Type 0
  pub to_base58 : PeerId → Bytes
  pub parse_peer : Bytes → Result PeerId Bytes
  pub peer_to_bytes : PeerId → Bytes
  pub peer_from_bytes : Bytes → Option PeerId
  pub addr_to_text : Multiaddr → Bytes
  pub parse_addr : Bytes → Result Multiaddr Bytes
  pub addr_to_vec : Multiaddr → Bytes
  pub addr_try_from : Bytes → Option Multiaddr
  pub zero_score : F64
  pub keypair_from_protobuf : Bytes → Result Keypair Bytes
  pub keypair_to_protobuf : Keypair → Option Bytes
  pub public_protobuf : Keypair → Bytes
  pub to_peer_id : Keypair → PeerId
  pub new_namespace : Bytes → Option Namespace

-- The crates document that a value is read back from its bytes.
pub record ReadsBack (net : Libp2p) : Type 0 where
  pub peer : (p : net.PeerId) → net.peer_from_bytes (net.peer_to_bytes p) ≡ some p
  pub addr : (a : net.Multiaddr) → net.addr_try_from (net.addr_to_vec a) ≡ some a
