-- ===== src/Bridge/Tests.antt =====
-- native/p2p_bridge/src at concrete inputs: the theorems of Bridge, applied.
pub mod Loop
use nerves_p2p.Prelude.{
  ◌≡◌, ◌↔◌, ◌≤◌, ◌<◌, true, ◌++◌, refl, List, [], ◌∷◌, length, all, All, ltb, ok, arith,
}
use nerves_p2p.Prelude.Bytes.{Bytes, IsByte, text, be_bytes}
use nerves_p2p.Bridge.DhtState.{
  RoutingEntry, magic, encode_u16, encode_u32, encode_addresses, encode_entry, encode_entries,
  encode, decode, max_dht_export_bytes,
}
use nerves_p2p.Bridge.DhtState.RoundTrip.{IsEntry}
use nerves_p2p.Bridge.DhtState.Canonical.{decode_iff}

abbrev peers : List RoutingEntry
peers =
    record { peer_id = text "peer"; addresses = text "/ip4" ∷ text "/dns" ∷ [] }
    ∷ record { peer_id = text "other"; addresses = [] }
    ∷ []

bytes_below : (xs : Bytes) → all (λ b. ltb b 256) xs ≡ true → All IsByte xs
bytes_below [] h = tt
bytes_below (x ∷ xs) h = (ground arith, bytes_below xs (ground arith))

small : all (λ b. ltb b 256) (encode peers ++ (7 ∷ [])) ≡ true
unfolding encode encode_entries encode_entry encode_addresses encode_u16 encode_u32 magic be_bytes
small = refl

decode_iff_example : (decode (encode peers ++ (7 ∷ [])) ≡ ok peers) ↔ (
    (length (encode peers ++ (7 ∷ [])) ≤ max_dht_export_bytes)
    × (length peers < 4294967296)
    × All IsEntry peers
    × (rest : Bytes) × (encode peers ++ (7 ∷ []) ≡ encode peers ++ rest))
decode_iff_example =
    decode_iff (encode peers ++ (7 ∷ [])) peers (bytes_below (encode peers ++ (7 ∷ [])) small)
