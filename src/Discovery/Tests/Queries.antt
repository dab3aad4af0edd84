-- ===== src/Discovery/Tests/Queries.antt =====
-- The theorems on the queries and on the rate limit, at one registry.
use nerves_p2p.Prelude.{◌<◌, ◌≡◌, [], ◌∷◌, All, ok, arith, nat_eq, if◌then◌else◌, err}
use nerves_p2p.Prelude.Bytes.{Eq_bytes, bytes_eq}
use nerves_p2p.Prelude.HashMap
use nerves_p2p.Discovery.Types.{Error, rate_limit}
use nerves_p2p.Discovery.Store.Memory.{MemorySequenceStore}
use nerves_p2p.Discovery.Registry.{Registry, check_rate, rate_of}
use nerves_p2p.Discovery.Registry.Query.{bindings}
use nerves_p2p.Discovery.Registry.Query.Bindings.{bindings-All}
use nerves_p2p.Discovery.Registry.Rate.{IsWindow, recent, check_rate-IsWindow}
use nerves_p2p.Discovery.Tests.Samples.{offer, node, registry}

abbrev filled : Registry MemorySequenceStore
filled = record registry {
  records = (node, record { announcement = offer; received_at = 1000 }) ∷ [];
  rate = (node, 900 ∷ 950 ∷ []) ∷ [];
}

bindings-All_example : All (λ b. 0 < b.2) (bindings filled 2000).0
bindings-All_example = bindings-All filled 2000

node-IsWindow : IsWindow 1000 (rate_of filled node)
unfolding rate_of HashMap.get bytes_eq
node-IsWindow = record { few = omega arith; climbs = (omega arith, (omega arith, omega arith)) }

check_rate-IsWindow_example :
    ((check_rate node 1000 filled).0 ≡ (
      if nat_eq (recent 1000 (rate_of filled node)) rate_limit
      then err Error.rate_limited
      else ok tt))
    × IsWindow 1000 (rate_of (check_rate node 1000 filled).1 node)
check_rate-IsWindow_example = check_rate-IsWindow node 1000 filled node-IsWindow
