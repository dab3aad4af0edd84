-- ===== src/Port/Main.antt =====
-- native/iroh_discovery/src/bin/iroh_discovery_port.rs: the thread that reads frames, and the loop of
-- `main` as steps. A step yields the values that it writes. How serde reads a request is a parameter,
-- and so is what the network and the crates answer in the step.
pub mod Reading
pub mod Announcements
use nerves_p2p.Prelude.{
  ℕ, zero, suc, Bool, true, false, Option, none, some, List, [], ◌∷◌, Result, ok, err,
}
use nerves_p2p.Prelude.Bytes.{Bytes, text}
use nerves_p2p.Prelude.Results
use nerves_p2p.Discovery.Types.{Error, EndpointId, Keys}
use nerves_p2p.Discovery.Authorization
use nerves_p2p.Discovery.Authorization.{AuthorizationTable}
use nerves_p2p.Discovery.Sign.{SecretKey}
use nerves_p2p.Discovery.Store.{SequenceStore}
use nerves_p2p.Discovery.Registry
use nerves_p2p.Discovery.Registry.{signed_fleet}
use nerves_p2p.Dist.Streams.{Event, Reason}
use nerves_p2p.Port.Values.{Value, null, boolean, string}
use nerves_p2p.Port.Frames.{Frame, eof, oversized, payload, IoError, read_frame}
use nerves_p2p.Port.Json.{Texts, json_object, dist_event_json}
use nerves_p2p.Port.Requests.{Command, shutdown}
use nerves_p2p.Port.State.{
  State, World, Port, with_network, sync_dist_bindings, receive_mdns_peers, receive_announcements,
}
use nerves_p2p.Port.Handle.{handle}

-- A frame is passed on; an end or an error stops the thread after that.
unfoldable pub read_on :
    Result (Frame × Bytes) IoError
    → (Bytes → List (Result Frame IoError))
    → List (Result Frame IoError)
read_on (err e) more = err e ∷ []
read_on (ok (eof, rest)) more = ok eof ∷ []
read_on (ok (oversized, rest)) more = ok oversized ∷ more rest
read_on (ok (payload bytes, rest)) more = ok (payload bytes) ∷ more rest

-- The frames that the thread passes on, in so many turns.
unfoldable pub read_all : ℕ → Bytes → List (Result Frame IoError)
read_all zero input = []
read_all (suc fuel) input = read_on (read_frame input) (λ rest. read_all fuel rest)

abbrev pub failure : Value → Bytes → Value
failure id error =
    json_object ((text "id", id) ∷ (text "ok", boolean false) ∷ (text "error", string error) ∷ [])

unfoldable pub response : Value → Result Value Bytes → Value
response id (ok result) =
    json_object ((text "id", id) ∷ (text "ok", boolean true) ∷ (text "result", result) ∷ [])
response id (err error) = failure id error

unfoldable pub is_shutdown : Command → Bool
is_shutdown shutdown = true
is_shutdown _ = false

-- How the loop goes on: by another turn, by its end, or by an error of `main`.
pub data Turn : Type 0 where
  next stop : Turn
  fail : IoError → Turn

unfoldable pub initial_state : {S : Type 0} → Bytes → S → S → AuthorizationTable → State S
initial_state fleet outbound inbound authorization = record {
  fleet = fleet;
  outbound = outbound;
  registry =
      Registry.with_enrollment_policy (Registry.new fleet authorization inbound) signed_fleet;
  network = none;
  dist_events = [];
}

-- The state before any frame, with the endpoint of the key that is loaded and the two stores that are
-- opened.
unfoldable pub initial : {S : Type 0} → Bytes → Bytes → EndpointId → S → S → Result (State S) Error
unfolding initial_state
initial fleet node_name endpoint outbound inbound =
    Results.◌>>=◌ (Authorization.new ((endpoint, node_name) ∷ []))
      λ authorization. ok (initial_state fleet outbound inbound authorization)

module _ (k : Keys) {S : Type 0} (ops : SequenceStore S) (texts : Texts) (secret : SecretKey) where
  module _ (node_name : Bytes) (w : World) (s : State S) where
    unfoldable pub on_request : Option (Value × Command) → Turn × List Value × State S
    on_request none = (next, failure null (text "malformed") ∷ [], s)
    on_request (some (id, command)) =
        let (result, t) = handle k ops texts secret node_name w command s in
        (elim (is_shutdown command) [ true ↦ stop | false ↦ next ], response id result ∷ [], t)

    unfoldable pub on_frame :
        (Bytes → Option (Value × Command)) → Result Frame IoError → Turn × List Value × State S
    unfolding on_request
    on_frame parse (err e) = (fail e, [], s)
    on_frame parse (ok eof) = (stop, [], s)
    on_frame parse (ok oversized) = (next, failure null (text "frame_too_large") ∷ [], s)
    on_frame parse (ok (payload bytes)) = on_request (parse bytes)

  -- An event of the distribution is written as it comes.
  unfoldable pub on_event : (Reason → Bytes) → State S → Event → Turn × List Value × State S
  on_event reason_text s event = (next, dist_event_json texts reason_text event ∷ [], s)

  -- The tick of the network, whose errors are dropped.
  unfoldable pub on_tick : World → State S → Turn × List Value × State S
  on_tick w s =
      let polled = (receive_announcements k ops w (receive_mdns_peers w s).1).1 in
      (next, [], (sync_dist_bindings w polled).1)
