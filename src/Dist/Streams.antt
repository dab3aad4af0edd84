-- ===== src/Dist/Streams.antt =====
-- native/iroh_discovery/src/dist.rs: `Shared`, and the methods of `Dist` and `Handler` on it. A method
-- returns its result with the state that it leaves. The time is an argument, in milliseconds, and so
-- is what the iroh crate and the event channel answer. The queue of a stream is the list of its
-- commands, the oldest first.
pub mod Loop
pub mod Credit
pub mod Access
pub mod Delivered
use nerves_p2p.Prelude.{
  ℕ, suc, ◌+◌, ◌*◌, ◌-◌, ◌%◌, ◌^◌, min, max, Bool, true, false, not, ◌&&◌, ◌||◌, List, [], ◌∷◌,
  ◌++◌, length, leb, ltb, nat_eq, ◌==◌, Eq_nat, if◌then◌else◌, Option, none, some, Result, ok, err,
}
use nerves_p2p.Prelude.Bytes.{Bytes, Eq_bytes}
use nerves_p2p.Prelude.HashMap
use nerves_p2p.Prelude.HashMap.{HashMap}
use nerves_p2p.Discovery.Types.{EndpointId, u64_max, saturating_add}
use nerves_p2p.Discovery.Validate.{valid_node_name}
use nerves_p2p.Dist.Header.{Header, HeaderError, read_header}

abbrev pub credit_window : ℕ
credit_window = 256 * 1024

abbrev pub data_chunk : ℕ
data_chunk = 16 * 1024

abbrev pub command_queue : ℕ
command_queue = 64

pub data Reason : Type 0 where
  write_failed port_closed invalid_credit local_close remote_close read_failed : Reason

pub data Event : Type 0 where
  incoming : ℕ → Bytes → Bytes → Event
  connected : ℕ → Bytes → Event
  data_received : ℕ → Bytes → Event
  credit_returned : ℕ → ℕ → Event
  closed : ℕ → Reason → Event

pub data Error : Type 0 where
  network_not_started not_listening unknown_node unknown_stream credit_exhausted : Error
  queue_full invalid_credit connection_failed : Error

pub data StreamCommand : Type 0 where
  send_bytes : Bytes → StreamCommand
  give_credit : ℕ → StreamCommand
  close_stream : StreamCommand

pub record StreamState : Type 0 where
  pub commands : List StreamCommand
  pub send_credit : ℕ
  pub receive_credit : ℕ

pub record Binding : Type 0 where
  pub endpoint : EndpointId
  pub expires : ℕ

pub record Shared : Type 0 where
  pub next_id : ℕ
  pub listen_node : Option Bytes
  pub bindings : HashMap Bytes Binding
  pub streams : HashMap ℕ StreamState

unfoldable pub new : Shared
new = record { next_id = 1; listen_node = none; bindings = []; streams = [] }

unfoldable pub listen : Shared → Bytes → Result (Unit {0}) Error × Shared
listen shared node =
    if not (valid_node_name node)
    then (err Error.not_listening, shared)
    else (ok tt, record shared { listen_node = some node })

-- `collect`: a later binding of a node replaces an earlier one.
unfoldable pub collect_bindings :
    ℕ → HashMap Bytes Binding → List (EndpointId × Bytes × ℕ) → HashMap Bytes Binding
collect_bindings now m [] = m
collect_bindings now m ((endpoint, node, ttl_ms) ∷ bs) =
    collect_bindings now
      (HashMap.insert m node (record { endpoint = endpoint; expires = now + ttl_ms })) bs

unfoldable pub replace_bindings : ℕ → Shared → List (EndpointId × Bytes × ℕ) → Shared
replace_bindings now shared bs = record shared { bindings = collect_bindings now [] bs }

unfoldable pub live_endpoint : ℕ → Option Binding → Result EndpointId Error
live_endpoint now none = err Error.unknown_node
live_endpoint now (some b) = if ltb now b.expires then ok b.endpoint else err Error.unknown_node

-- The first steps of `connect`, up to the endpoint that it dials.
unfoldable pub connect_target : ℕ → Shared → Bytes → Bytes → Result EndpointId Error
unfolding live_endpoint
connect_target now shared from_node target_node =
    if not (valid_node_name from_node) || not (valid_node_name target_node)
    then err Error.unknown_node
    else live_endpoint now (HashMap.get shared.bindings target_node)

-- `try_send`: the queue holds 64 commands.
unfoldable pub try_send : StreamState → StreamCommand → Result StreamState Error
try_send s command =
    if nat_eq (length s.commands) command_queue
    then err Error.queue_full
    else ok (record s { commands = s.commands ++ (command ∷ []) })

unfoldable pub charge_send : ℕ → Result StreamState Error → Result StreamState Error
charge_send n (err e) = err e
charge_send n (ok s) = ok (record s { send_credit = s.send_credit - n })

unfoldable pub add_receive : ℕ → Result StreamState Error → Result StreamState Error
add_receive n (err e) = err e
add_receive n (ok s) = ok (record s { receive_credit = s.receive_credit + n })

-- `send`, `credit` and `close` on the stream that they find.
unfoldable pub send_on : Bytes → StreamState → Result StreamState Error
unfolding charge_send try_send
send_on bytes s =
    if ltb s.send_credit (length bytes)
    then err Error.credit_exhausted
    else charge_send (length bytes) (try_send s (send_bytes bytes))

unfoldable pub credit_on : ℕ → StreamState → Result StreamState Error
unfolding add_receive try_send
credit_on bytes s =
    if ltb u64_max (s.receive_credit + bytes) || ltb credit_window (s.receive_credit + bytes)
    then err Error.invalid_credit
    else add_receive bytes (try_send s (give_credit bytes))

unfoldable pub close_on : StreamState → Result StreamState Error
unfolding try_send
close_on s = try_send s close_stream

unfoldable pub put_back : Shared → ℕ → Result StreamState Error → Result (Unit {0}) Error × Shared
put_back shared id (err e) = (err e, shared)
put_back shared id (ok s) = (ok tt, record shared { streams = HashMap.insert shared.streams id s })

-- `get_mut`, `ok_or(UnknownStream)`, and what is done to the stream.
unfoldable pub on_stream :
    Shared → ℕ → (StreamState → Result StreamState Error) → Result (Unit {0}) Error × Shared
unfolding put_back
on_stream shared id f = elim (HashMap.get shared.streams id) [
  | none ↦ (err Error.unknown_stream, shared)
  | some s ↦ put_back shared id (f s)
]

unfoldable pub send : Shared → ℕ → Bytes → Result (Unit {0}) Error × Shared
send shared id bytes =
    if nat_eq (length bytes) 0 || ltb credit_window (length bytes)
    then (err Error.invalid_credit, shared)
    else on_stream shared id (send_on bytes)

unfoldable pub credit : Shared → ℕ → ℕ → Result (Unit {0}) Error × Shared
credit shared id bytes =
    if nat_eq bytes 0 || ltb credit_window bytes
    then (err Error.invalid_credit, shared)
    else on_stream shared id (credit_on bytes)

unfoldable pub close : Shared → ℕ → Result (Unit {0}) Error × Shared
close shared id = on_stream shared id close_on

-- `wrapping_add(1).max(1)`.
unfoldable pub next_stream_id : ℕ → ℕ
next_stream_id n = max ((n + 1) % 2 ^ 64) 1

unfoldable pub opened_stream : StreamState
opened_stream = record {
  commands = [];
  send_credit = credit_window;
  receive_credit = credit_window;
}

-- The event is lost, and the stream taken out again, where the event channel is closed.
unfoldable pub install_stream : Bool → Shared → (ℕ → Event) → Result ℕ Error × Shared × List Event
unfolding next_stream_id opened_stream
install_stream port_open shared initial_event =
    let id = shared.next_id in
    let installed = record shared {
      next_id = next_stream_id id;
      streams = HashMap.insert shared.streams id opened_stream;
    } in
    if port_open then (ok id, installed, initial_event id ∷ []) else (
      err Error.connection_failed,
      record installed { streams = HashMap.remove installed.streams id },
      [],
    )

-- `listen_node.as_deref() == Some(&target_node)`.
unfoldable pub is_listening : Option Bytes → Bytes → Bool
is_listening none target = false
is_listening (some node) target = node == target

unfoldable pub is_bound : ℕ → Option Binding → EndpointId → Bool
is_bound now none remote = false
is_bound now (some b) remote = b.endpoint == remote && ltb now b.expires

unfoldable pub is_allowed : ℕ → Shared → EndpointId → Header → Bool
unfolding is_listening is_bound
is_allowed now shared remote header =
    is_listening shared.listen_node header.target_node
    && is_bound now (HashMap.get shared.bindings header.from_node) remote

pub data AcceptError : Type 0 where
  bad_header : HeaderError → AcceptError
  port_gone : AcceptError

unfoldable pub accepted_id :
    Result ℕ Error × Shared × List Event → Result (Option ℕ) AcceptError × Shared × List Event
accepted_id (ok id, shared, events) = (ok (some id), shared, events)
accepted_id (err e, shared, events) = (err AcceptError.port_gone, shared, events)

-- The lock is let go after the test, and taken again to install the stream: `meanwhile` is what the
-- other tasks do to the state in between.
unfoldable pub admit :
    Bool
    → ℕ
    → (Shared → Shared)
    → Shared
    → EndpointId
    → Result (Header × Bytes) HeaderError
    → Result (Option ℕ) AcceptError × Shared × List Event
unfolding accepted_id
admit port_open now meanwhile shared remote (err e) = (err (AcceptError.bad_header e), shared, [])
admit port_open now meanwhile shared remote (ok (header, rest)) =
    if not (is_allowed now shared remote header)
    then (ok none, shared, [])
    else accepted_id (
        install_stream port_open (meanwhile shared)
          (λ id. Event.incoming id header.from_node header.target_node))

-- The handler's `accept`; `none` is a connection closed as unauthorized.
unfoldable pub accept :
    Bool
    → ℕ
    → (Shared → Shared)
    → Shared
    → EndpointId
    → Bytes
    → Result (Option ℕ) AcceptError × Shared × List Event
unfolding admit
accept port_open now meanwhile shared remote stream =
    admit port_open now meanwhile shared remote (read_header stream)
