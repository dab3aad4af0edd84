-- ===== src/Bridge/Errors.antt =====
-- native/p2p_bridge/src/error.rs: `NifError`, with the atom and the text that Elixir gets.
use nerves_p2p.Prelude.{ℕ, [], ◌∷◌, ◌++◌}
use nerves_p2p.Prelude.Bytes.{Bytes, text}
use nerves_p2p.Prelude.Decimal.{decimal}
use nerves_p2p.Bridge.Terms.{Atom, Term, atom, binary, tuple_of}

abbrev pub max_keypair_bytes : ℕ
max_keypair_bytes = 4096

pub data NifError : Type 0 where
  invalid_multiaddr : Bytes → NifError
  invalid_peer_id : Bytes → NifError
  invalid_keypair : Bytes → NifError
  input_too_large : ℕ → ℕ → NifError
  node_stopped : NifError
  channel_full : NifError
  query_timeout : NifError
  dht_not_enabled : NifError
  nif_panic : Bytes → NifError
  internal : Bytes → NifError

unfoldable pub atom_of : NifError → Atom
atom_of (invalid_multiaddr e) = Atom.invalid_multiaddr
atom_of (invalid_peer_id e) = Atom.invalid_peer_id
atom_of (invalid_keypair e) = Atom.invalid_keypair
atom_of (input_too_large got max) = Atom.input_too_large
atom_of node_stopped = Atom.node_stopped
atom_of channel_full = Atom.channel_full
atom_of query_timeout = Atom.query_timeout
atom_of dht_not_enabled = Atom.dht_not_enabled
atom_of (nif_panic e) = Atom.nif_panic
atom_of (internal e) = Atom.internal_error

unfoldable pub display : NifError → Bytes
display (invalid_multiaddr e) = text "invalid multiaddr: " ++ e
display (invalid_peer_id e) = text "invalid peer id: " ++ e
display (invalid_keypair e) = text "invalid keypair: " ++ e
display (input_too_large got max) =
    text "input too large: got " ++ (decimal got ++ (text " bytes, max " ++ decimal max))
display node_stopped = text "node stopped: swarm event loop has exited"
display channel_full = text "channel full: swarm is overloaded"
display query_timeout = text "query timeout"
display dht_not_enabled = text "dht not enabled"
display (nif_panic e) = text "nif panic: " ++ e
display (internal e) = text "internal: " ++ e

unfoldable pub encode_error : NifError → Term
unfolding atom_of display
encode_error e = tuple_of (atom (atom_of e) ∷ binary (display e) ∷ [])
