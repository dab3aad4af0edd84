-- ===== src/Dist/Streams/Access.antt =====
-- native/iroh_discovery/src/dist.rs: whom the handler lets in.
use nerves_p2p.Prelude.{
  ℕ, ◌<◌, ◌≡◌, refl, ap, Bool, true, false, Eq_nat, nat_eq_iff, Option, some, none, inl, inr,
  Bool-cases, Result, ok, err, arith,
}
use nerves_p2p.Prelude.Bytes.{Bytes, Eq_bytes, bytes_eq_iff}
use nerves_p2p.Prelude.HashMap
use nerves_p2p.Discovery.Types.{EndpointId}
use nerves_p2p.Dist.Header.{Header, HeaderError, read_header}
use nerves_p2p.Dist.Streams.{
  Shared, Binding, Event, opened_stream, install_stream, is_listening, is_bound, is_allowed,
  accepted_id, admit, accept,
}

-- The node listens under the name that the header asks for, and the sender's name is bound, for
-- longer than now, to the endpoint at the other end.
pub record IsAuthorized (now : ℕ) (shared : Shared) (remote : EndpointId) (header : Header)
    : Type 0 where
  pub binding : Binding
  pub listening : shared.listen_node ≡ some header.target_node
  pub bound : HashMap.get shared.bindings header.from_node ≡ some binding
  pub endpoint : binding.endpoint ≡ remote
  pub live : now < binding.expires

is_listening-true :
    (o : Option Bytes) (target : Bytes) → is_listening o target ≡ true → o ≡ some target
unfolding is_listening
is_listening-true none target h = ground arith
is_listening-true (some node) target h = ap some ((bytes_eq_iff node target).0 h)

is_bound-true :
    (now : ℕ) (o : Option Binding) (remote : EndpointId)
    → is_bound now o remote ≡ true
    → (b : Binding) × (o ≡ some b) × (b.endpoint ≡ remote) × (now < b.expires)
unfolding is_bound
is_bound-true now none remote h = ground arith
is_bound-true now (some b) remote h =
    (b, refl, (bytes_eq_iff b.endpoint remote).0 (ground arith), ground arith)

is_allowed-IsAuthorized :
    (now : ℕ) (shared : Shared) (remote : EndpointId) (header : Header)
    → is_allowed now shared remote header ≡ true
    → IsAuthorized now shared remote header
unfolding is_allowed
is_allowed-IsAuthorized now shared remote header h =
    let (b, bound, endpoint, live) =
      is_bound-true now (HashMap.get shared.bindings header.from_node) remote (ground arith) in
    record {
      binding = b;
      listening = is_listening-true shared.listen_node header.target_node (ground arith);
      bound = bound;
      endpoint = endpoint;
      live = live;
    }

installed :
    (port : Bool) (shared : Shared) (event : ℕ → Event) (id : ℕ)
    → (accepted_id (install_stream port shared event)).0 ≡ ok (some id)
    → (id ≡ shared.next_id)
      × (HashMap.get (accepted_id (install_stream port shared event)).1.streams id
          ≡ some opened_stream)
unfolding accepted_id install_stream
installed false shared event id h = ground arith
installed true shared event id h = (
  ground arith,
  ground (
    arith,
    HashMap.get-insert shared.streams shared.next_id opened_stream id,
    nat_eq_iff shared.next_id id,
  ),
)

admit-IsAuthorized :
    (port : Bool) (now : ℕ) (meanwhile : Shared → Shared) (shared : Shared) (remote : EndpointId)
    (read : Result (Header × Bytes) HeaderError) (id : ℕ)
    → (admit port now meanwhile shared remote read).0 ≡ ok (some id)
    → (header : Header) × (rest : Bytes) × (read ≡ ok (header, rest))
      × IsAuthorized now shared remote header
      × (id ≡ (meanwhile shared).next_id)
      × (HashMap.get (admit port now meanwhile shared remote read).1.streams id
          ≡ some opened_stream)
unfolding admit
admit-IsAuthorized port now meanwhile shared remote (err e) id h = ground arith
admit-IsAuthorized port now meanwhile shared remote (ok (header, rest)) id h =
    elim (Bool-cases (is_allowed now shared remote header)) [
      | inl allowed ↦
          (let (same, held) = installed port (meanwhile shared) _ id (ground (arith, allowed)) in
            (
              header,
              rest,
              refl,
              is_allowed-IsAuthorized now shared remote header allowed,
              same,
              rw allowed held,
            ))
      | inr refused ↦ ground (arith, refused)
    ]

-- A stream that the handler installs has a well-formed header whose target is the node that
-- listens and whose sender is bound to the remote endpoint, for longer than now, when the handler
-- looks; whatever other tasks do before it installs the stream, its number is then the next one, and
-- under it the stream stands with full credit.
pub accept-IsAuthorized :
    (port : Bool) (now : ℕ) (meanwhile : Shared → Shared) (shared : Shared) (remote : EndpointId)
    (stream : Bytes) (id : ℕ)
    → (accept port now meanwhile shared remote stream).0 ≡ ok (some id)
    → (header : Header) × (rest : Bytes) × (read_header stream ≡ ok (header, rest))
      × IsAuthorized now shared remote header
      × (id ≡ (meanwhile shared).next_id)
      × (HashMap.get (accept port now meanwhile shared remote stream).1.streams id
          ≡ some opened_stream)
unfolding accept
accept-IsAuthorized port now meanwhile shared remote stream id h =
    admit-IsAuthorized port now meanwhile shared remote (read_header stream) id h
