-- ===== src/Bridge/Node/Routing.antt =====
-- native/p2p_bridge/src/node.rs and lib.rs: the routing table of one node, exported and imported into
-- another.
use nerves_p2p.Prelude.{
  ℕ, ◌≤◌, ◌<◌, ◌≡◌, refl, ap, Bool, true, some, List, [], ◌∷◌, ◌++◌, map, length, ok, All,
  append-nil, append_assoc,
}
use nerves_p2p.Bridge.Net.{Libp2p, ReadsBack}
use nerves_p2p.Bridge.Terms.{Atom}
use nerves_p2p.Bridge.Commands.{Sender, Command}
use nerves_p2p.Bridge.DhtState.{encode, decode, max_dht_export_bytes}
use nerves_p2p.Bridge.DhtState.RoundTrip.{IsEntry, decode-encode}
use nerves_p2p.Bridge.Swarm.{View, Effect, add_address, reply_import}
use nerves_p2p.Bridge.Node.{
  Node, Input, export_bucket, export_buckets, exported, import_addresses, import_entries, imported,
  effects_of, on_command, step,
}
use nerves_p2p.Bridge.Nif.{
  sent, try_send, query_typed, kad_export_routing_table, kad_import_routing_table, ◌>>=◌, pure,
  lift, enabled, decoded,
}

abbrev pub Bucket : Libp2p → Type 0
Bucket net = List (net.PeerId × List net.Multiaddr)

-- One call for each address of a peer, and so for all peers of all buckets, in order.
abbrev pub add_all : (net : Libp2p) → net.PeerId → List net.Multiaddr → List (Effect net)
add_all net p [] = []
add_all net p (a ∷ addrs) = add_address p a ∷ add_all net p addrs

abbrev pub add_bucket : (net : Libp2p) → Bucket net → List (Effect net)
add_bucket net [] = []
add_bucket net ((p, addrs) ∷ nodes) = add_all net p addrs ++ add_bucket net nodes

abbrev pub add_buckets : (net : Libp2p) → List (Bucket net) → List (Effect net)
add_buckets net [] = []
add_buckets net (b ∷ buckets) = add_bucket net b ++ add_buckets net buckets

module _ (net : Libp2p) (laws : ReadsBack net) where
  import_addresses-map :
      (p : net.PeerId) (addrs : List net.Multiaddr)
      → import_addresses net p (map net.addr_to_vec addrs) ≡ add_all net p addrs
  unfolding import_addresses
  import_addresses-map p [] = refl
  import_addresses-map p (a ∷ addrs) =
      rw (laws.addr a) (ap (◌∷◌ (add_address p a)) (import_addresses-map p addrs))

  import_entries-export_bucket :
      (nodes : Bucket net) (rest : List _)
      → import_entries net (export_bucket net nodes ++ rest)
        ≡ add_bucket net nodes ++ import_entries net rest
  unfolding import_entries export_bucket
  import_entries-export_bucket [] rest = refl
  import_entries-export_bucket ((p, addrs) ∷ nodes) rest =
      rw
        (
          laws.peer p,
          import_addresses-map p addrs,
          import_entries-export_bucket nodes rest,
          append_assoc (add_all net p addrs) (add_bucket net nodes) (import_entries net rest),
        )
        refl

  import_entries-export_buckets :
      (buckets : List (Bucket net))
      → import_entries net (export_buckets net buckets) ≡ add_buckets net buckets
  unfolding import_entries export_buckets
  import_entries-export_buckets [] = refl
  import_entries-export_buckets (b ∷ buckets) =
      rw
        (
          import_entries-export_bucket b (export_buckets net buckets),
          import_entries-export_buckets buckets,
        )
        refl

  -- A node with Kademlia exports a routing table whose counts and lengths fit their fields, and whose
  -- bytes fit 4 MiB and the memory. The bytes, imported into any node with Kademlia, ask it to add just
  -- the addresses of the table, each to its peer, in order, and it answers how many they are. The crates
  -- read peers and addresses back from their bytes, and both channels have room.
  pub kad_import-kad_export :
      (auto_dial : Bool) (v w : View net) (s : Node net) (buckets others : List (Bucket net))
      → (allocates : ℕ → Bool) (tx rx : Sender) → v.kademlia ≡ some buckets
      → w.kademlia ≡ some others
      → All IsEntry (export_buckets net buckets)
      → length (export_buckets net buckets) < 4294967296
      → length (encode (export_buckets net buckets)) ≤ max_dht_export_bytes
      → allocates (length (encode (export_buckets net buckets))) ≡ true
      → let entries = export_buckets net buckets in
        let calls = add_buckets net buckets in
        (kad_export_routing_table net sent allocates (some (exported net v.kademlia)) tx
          ≡ (ok (Atom.ok, encode entries), Command.dht_export_routing_table tx ∷ []))
        × ((step net auto_dial w s (Input.command (Command.dht_import_routing_table entries rx))
              ≡ (some s, calls ++ (reply_import rx (ok (length calls)) ∷ [])))
            × (kad_import_routing_table net sent (some (ok (length calls))) (encode entries) rx
                ≡ (ok (Atom.ok, length calls), Command.dht_import_routing_table entries rx ∷ [])))
  unfolding kad_export_routing_table kad_import_routing_table query_typed try_send ◌>>=◌ pure lift
      enabled decoded exported step on_command effects_of imported
  kad_import-kad_export d v w s buckets others allocates tx rx ve we h few fits memory =
      let back : decode (encode (export_buckets net buckets)) ≡ ok (export_buckets net buckets) =
        rw (append-nil (encode (export_buckets net buckets))) at (
          decode-encode (export_buckets net buckets) [] h few
            (rw (append-nil (encode (export_buckets net buckets))) fits)) in
      (rw (ve, memory) refl, (rw (we, import_entries-export_buckets buckets) refl, rw back refl))
