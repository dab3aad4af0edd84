-- ===== src/Port/Main/Announcements.antt =====
-- native/iroh_discovery/src/bin/iroh_discovery_port.rs: the fuel of the loop that receives
-- announcements is enough.
use nerves_p2p.Prelude.{ℕ, zero, suc, ◌<◌, ◌≡◌, refl, [], ◌∷◌, List, length, arith}
use nerves_p2p.Discovery.Types.{Keys}
use nerves_p2p.Discovery.Store.{SequenceStore}
use nerves_p2p.Discovery.Registry.{Registry}
use nerves_p2p.Discovery.Transport
use nerves_p2p.Discovery.Transport.{
  GossipEvent, received, lagged, neighbor_up, neighbor_down, stream_failed, stream_closed,
}
use nerves_p2p.Port.State.{announcements}

-- With a turn more than the subscription has events, more turns change nothing: the loop has ended
-- by itself.
pub announcements_fuel :
    (k : Keys) {S : Type 0} (ops : SequenceStore S) (now fuel : ℕ) (events : List GossipEvent)
    (r : Registry S)
    → length events < fuel
    → announcements k ops (suc fuel) now events r ≡ announcements k ops fuel now events r
unfolding announcements Transport.receive
announcements_fuel k ops now zero events r h = elim h [ ]
announcements_fuel k ops now (suc fuel) [] r h = refl
announcements_fuel k ops now (suc fuel) (received message ∷ events) r h =
    announcements_fuel k ops now fuel events _ (omega arith)
announcements_fuel k ops now (suc fuel) (lagged ∷ events) r h = refl
announcements_fuel k ops now (suc fuel) (neighbor_up ∷ events) r h =
    announcements_fuel k ops now (suc fuel) events r (omega arith)
announcements_fuel k ops now (suc fuel) (neighbor_down ∷ events) r h =
    announcements_fuel k ops now (suc fuel) events r (omega arith)
announcements_fuel k ops now (suc fuel) (stream_failed ∷ events) r h = refl
announcements_fuel k ops now (suc fuel) (stream_closed ∷ events) r h = refl
