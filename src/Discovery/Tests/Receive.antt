-- ===== src/Discovery/Tests/Receive.antt =====
-- The theorems on the registry: one announcement received, then sent again.
use nerves_p2p.Prelude.{[], ◌≡◌, ◌≢◌, ◌&&◌, ◌==◌, if◌then◌else◌, refl, ap, ok, arith}
use nerves_p2p.Prelude.Bytes.{Eq_bytes, bytes_eq}
use nerves_p2p.Prelude.HashMap
use nerves_p2p.Prelude.BTreeMap
use nerves_p2p.Prelude.BTreeMap.Sorted.{insert_all}
use nerves_p2p.Prelude.Text.{contains, split_once}
use nerves_p2p.Discovery.Validate.{valid_node_name, name_byte, host_byte}
use nerves_p2p.Discovery.Authorization
use nerves_p2p.Discovery.Store.Memory.{
  memory_store, memory_store-StoreLaws, MemorySequenceStore, load, advance,
}
use nerves_p2p.Discovery.Registry.{Registry, new, drop_old, rate_of, receive}
use nerves_p2p.Discovery.Registry.Query.{expire}
use nerves_p2p.Discovery.Registry.Receive.Delivery.{IsExpecting, heard, receive-sign_announcement}
use nerves_p2p.Discovery.Registry.Receive.Accepted.{IsAccepted, receive-IsAccepted}
use nerves_p2p.Discovery.Registry.Receive.Stored.{is_ok, load-receive}
use nerves_p2p.Discovery.Registry.Receive.Steps.{sequence_of}
use nerves_p2p.Discovery.Types.{announcement, message_endpoint_id}
use nerves_p2p.Discovery.Encode.{encode_announcement}
use nerves_p2p.Discovery.Registry.Receive.Replay.{
  Reaches, start, step, received, expired, receive-replayed,
}
use nerves_p2p.Discovery.Registry.Receive.Ledger.{IsLedger, Reaches-IsLedger}
use nerves_p2p.Discovery.Registry.Receive.Strict.{receive_strict}
use nerves_p2p.Discovery.Tests.Samples.{
  keys, secret, secret-Signs, offer, stamp, registry, node, fleet,
}
use nerves_p2p.Discovery.Tests.Codec.{
  sealed, offer_opened, offer_decoded, offer_signed, offer-IsAnnouncement,
}

registry-IsExpecting : IsExpecting keys memory_store offer 1000 registry
unfolding load advance drop_old rate_of HashMap.get BTreeMap.get Authorization.node_name bytes_eq
registry-IsExpecting = record {
  fleet = refl;
  enrolled = refl;
  room = refl;
  last = 0;
  before = refl;
  above = omega arith;
  writable = refl;
}

receive-sign_announcement_example :
    receive keys memory_store sealed 1000 registry
    ≡ (ok tt, heard keys memory_store offer 1000 registry)
receive-sign_announcement_example =
    receive-sign_announcement keys memory_store secret secret-Signs offer sealed 1000 registry
      offer-IsAnnouncement offer_signed registry-IsExpecting

pub offer-heard :
    receive keys memory_store sealed 1000 registry
    ≡ (ok tt, heard keys memory_store offer 1000 registry)
offer-heard =
    receive-sign_announcement keys memory_store secret secret-Signs offer sealed 1000 registry
      offer-IsAnnouncement offer_signed registry-IsExpecting

abbrev pub after_offer : Registry MemorySequenceStore
after_offer = (receive keys memory_store sealed 1000 registry).1

pub offer_accepted : (receive keys memory_store sealed 1000 registry).0 ≡ ok tt
offer_accepted = ap (λ x. x.0) offer-heard

receive-IsAccepted_example : IsAccepted keys memory_store sealed 1000 registry after_offer
receive-IsAccepted_example =
    receive-IsAccepted keys memory_store memory_store-StoreLaws sealed 1000 registry offer_accepted

load-receive_example : memory_store.load after_offer.store node ≡ (
    if is_ok (receive keys memory_store sealed 1000 registry).0
      && message_endpoint_id (announcement offer) == node
    then ok (sequence_of (announcement offer))
    else memory_store.load registry.store node)
load-receive_example =
    load-receive keys memory_store memory_store-StoreLaws sealed (encode_announcement offer) stamp
      (announcement offer) 1000 registry node offer_opened offer_decoded

receive-replayed_example :
    (receive keys memory_store sealed 9000 (expire after_offer 8000)).0 ≢ ok tt
receive-replayed_example =
    receive-replayed keys memory_store memory_store-StoreLaws sealed 1000 9000 registry
      (expire after_offer 8000) offer_accepted (step start (expired 8000))

receive_strict_example : after_offer.authorization ≡ registry.authorization
receive_strict_example = receive_strict keys memory_store sealed 1000 registry refl

offer_step : Reaches keys memory_store (new fleet registry.authorization []) after_offer
unfolding new
offer_step = step start (received sealed 1000)

Reaches-IsLedger_example : IsLedger keys memory_store after_offer
Reaches-IsLedger_example =
    Reaches-IsLedger keys memory_store memory_store-StoreLaws fleet registry.authorization
      registry.authorization [] after_offer built offer_step
  where
    built : Authorization.new registry.authorization ≡ ok registry.authorization
    built =
        unfold Authorization.new insert_all BTreeMap.insert valid_node_name name_byte host_byte
          contains split_once in
        refl
