-- ===== src/Bridge/Terms.antt =====
-- native/p2p_bridge/src/atoms.rs, and the terms of Elixir as the rustler crate encodes them: a
-- `String` is a binary, a `None` the atom `nil`.
use nerves_p2p.Prelude.{ℕ, List, [], ◌∷◌, Option, none, some}
use nerves_p2p.Prelude.Bytes.{Bytes}

pub data Atom : Type 0 where
  ok error nil node_stopped invalid_peer_id invalid_multiaddr invalid_keypair : Atom
  input_too_large query_timeout dht_not_enabled rendezvous_not_enabled internal_error : Atom
  nif_panic channel_full peers_discovered libp2p_event libp2p_noop : Atom
  connection_established connection_closed new_listen_addr gossipsub_message : Atom
  peer_discovered dht_query_result inbound_request outbound_response : Atom
  external_addr_confirmed dial_failure nat_status_changed relay_reservation_accepted : Atom
  hole_punch_outcome dialer listener found_record not_found put_record_ok found_providers : Atom
  bootstrap_ok public private unknown success failure : Atom

mutual
  pub data Term : Type 0 where
    atom : Atom → Term
    binary : Bytes → Term
    integer : ℕ → Term
    list : Terms → Term
    tuple : Terms → Term

  pub data Terms : Type 0 where
    end : Terms
    then : Term → Terms → Terms

abbrev pub terms : List Term → Terms
terms [] = end
terms (t ∷ ts) = then t (terms ts)

abbrev pub tuple_of : List Term → Term
tuple_of ts = tuple (terms ts)

abbrev pub list_of : List Term → Term
list_of ts = list (terms ts)

abbrev pub optional : Option Bytes → Term
optional none = atom nil
optional (some t) = binary t
