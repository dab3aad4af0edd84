-- ===== src/Discovery/Transport.antt =====
-- native/iroh_discovery/src/transport.rs: `Subscription::receive`. The stream of the iroh gossip crate
-- is the list of the events that it will give; where the list ends it has nothing yet, so that the
-- caller waits.
use nerves_p2p.Prelude.{List, [], ◌∷◌}
use nerves_p2p.Prelude.Bytes.{Bytes}

pub data GossipEvent : Type 0 where
  received : Bytes → GossipEvent
  lagged neighbor_up neighbor_down stream_failed stream_closed : GossipEvent

-- What `receive` answers: an envelope, the end of the stream, or an error; or it still waits.
pub data Received : Type 0 where
  envelope : Bytes → Received
  ended failed waiting : Received

unfoldable pub receive : List GossipEvent → Received × List GossipEvent
receive [] = (waiting, [])
receive (received message ∷ events) = (envelope message, events)
receive (lagged ∷ events) = (failed, events)
receive (neighbor_up ∷ events) = receive events
receive (neighbor_down ∷ events) = receive events
receive (stream_failed ∷ events) = (failed, events)
receive (stream_closed ∷ events) = (ended, events)
