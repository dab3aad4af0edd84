-- ===== src/Dist/Streams/Loop.antt =====
-- native/iroh_discovery/src/dist.rs: the loop of `run_stream`, in the steps between the points where
-- it waits.
use nerves_p2p.Prelude.{
  ℕ, ◌+◌, ◌-◌, min, Bool, true, false, ◌||◌, List, [], ◌∷◌, length, take, ltb, nat_eq, Eq_nat,
  if◌then◌else◌, Option, none, some,
}
use nerves_p2p.Prelude.Bytes.{Bytes}
use nerves_p2p.Prelude.HashMap
use nerves_p2p.Discovery.Types.{u64_max, saturating_add}
use nerves_p2p.Dist.Streams.{
  credit_window, data_chunk, Reason, Event, StreamCommand, send_bytes, give_credit, close_stream,
  StreamState, Shared,
}

-- Where the loop of `run_stream` is, with its own count of the receive credit: it waits for a
-- command or for data, it is writing, or it has left the loop.
pub data Task : Type 0 where
  waiting : ℕ → Task
  writing : ℕ → Bytes → Task
  ended : Reason → Task

unfoldable pub take_command : StreamState → Option (StreamCommand × StreamState)
take_command s = elim s.commands [ [] ↦ none | c ∷ cs ↦ some (c, record s { commands = cs }) ]

-- What `commands.recv()` answers; it is `none` where every sender is gone.
unfoldable pub on_command : ℕ → Option StreamCommand → Task
on_command credit (some (send_bytes bytes)) = writing credit bytes
on_command credit (some (give_credit bytes)) =
    if ltb u64_max (credit + bytes) || ltb credit_window (credit + bytes)
    then ended Reason.invalid_credit
    else waiting (credit + bytes)
on_command credit (some close_stream) = ended Reason.local_close
on_command credit none = ended Reason.port_closed

-- After `write_all`, which succeeded or not.
unfoldable pub on_written :
    Bool → Bool → ℕ → ℕ → Bytes → StreamState → Task × StreamState × List Event
on_written false port_open id credit bytes s = (ended Reason.write_failed, s, [])
on_written true port_open id credit bytes s = (
  if port_open then waiting credit else ended Reason.port_closed,
  record s { send_credit = min (saturating_add s.send_credit (length bytes)) credit_window },
  if port_open then Event.credit_returned id (length bytes) ∷ [] else [],
)

-- What the other end has for `recv.read`: bytes, of which as many are read as the buffer takes, the
-- end of the stream, or an error.
pub data ReadResult : Type 0 where
  chunk : Bytes → ReadResult
  no_more read_error : ReadResult

-- The guard of the branch that reads.
unfoldable pub reads_now : ℕ → Bool
reads_now credit = ltb 0 credit

-- `&mut buffer[..receive_credit.min(DATA_CHUNK)]`, filled.
unfoldable pub fill_buffer : ℕ → Bytes → Bytes
fill_buffer credit arrived = take (min credit data_chunk) arrived

unfoldable pub on_count : Bool → ℕ → ℕ → Bytes → StreamState → Task × StreamState × List Event
on_count port_open id credit bytes s =
    if nat_eq (length bytes) 0 then (ended Reason.remote_close, s, []) else (
      if port_open then waiting (credit - length bytes) else ended Reason.port_closed,
      record s { receive_credit = s.receive_credit - length bytes },
      if port_open then Event.data_received id bytes ∷ [] else [],
    )

unfoldable pub on_read : Bool → ℕ → ℕ → ReadResult → StreamState → Task × StreamState × List Event
unfolding on_count fill_buffer
on_read port_open id credit no_more s = (ended Reason.remote_close, s, [])
on_read port_open id credit read_error s = (ended Reason.read_failed, s, [])
on_read port_open id credit (chunk arrived) s =
    on_count port_open id credit (fill_buffer credit arrived) s

-- After the loop.
unfoldable pub end_stream : Bool → Shared → ℕ → Reason → Shared × List Event
end_stream port_open shared id reason = (
  record shared { streams = HashMap.remove shared.streams id },
  if port_open then Event.closed id reason ∷ [] else [],
)
