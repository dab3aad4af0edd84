-- ===== src/Discovery/Codec/Maps.antt =====
-- `decode_capabilities` reads back the map that `encode_capabilities` writes.
use nerves_p2p.Prelude.{
  suc, ◌≤◌, ◌≡◌, refl, ap, List, [], ◌∷◌, ◌++◌, append-nil, map, length, All, arith, Option, none,
  some, ltb,
}
use nerves_p2p.Prelude.Bytes.{Bytes}
use nerves_p2p.Prelude.BTreeMap.{insert}
use nerves_p2p.Prelude.BTreeMap.Sorted.{Sorted, Sorted-Distinct, insert_all, insert_all-Sorted}
use nerves_p2p.Discovery.Types.{Capabilities}
use nerves_p2p.Discovery.Encode.{
  encode_head, encode_text, encode_capability, capability_field, concat_fields, sort_fields, field,
  encode_map, encode_capabilities,
}
use nerves_p2p.Discovery.Reader.{canonical_key, capability, map_len}
use nerves_p2p.Discovery.Decode.{capability_fields, decode_capabilities}
use nerves_p2p.Discovery.Codec.Reads.{Reads, Reads-bind, Reads-unless}
use nerves_p2p.Discovery.Codec.Strings.{map_len-Reads, canonical_key-Reads}
use nerves_p2p.Discovery.Codec.Sorting.{
  Entry, IsNamed, Chain, sort_entries, sort_fields-map, insert_all-sort_entries, All-sort_entries,
  sort_entries-Chain, length-sort_entries,
}
use nerves_p2p.Discovery.Codec.Values.{IsValue, capability-encode_capability}

-- An entry that the wire can carry.
abbrev pub IsEntry : Entry → Type 0
IsEntry e = IsNamed e × IsValue e.1

capability_fields-Reads :
    (previous : Option Bytes) (values : Capabilities) (es : List Entry)
    → Chain previous es
    → All IsEntry es
    → Reads
        (capability_fields (length es) previous values)
        (concat_fields (map capability_field es))
        (insert_all values es)
unfolding capability_fields concat_fields insert_all capability_field field
capability_fields-Reads previous values [] c h = λ pre rest fits. rw append-nil
capability_fields-Reads previous values ((k, v) ∷ es) c h =
    let key : Bytes = encode_text k in
    let others : Bytes = concat_fields (map capability_field es) in
    let made : Capabilities = insert_all (insert values k v) es in
    Reads-bind (canonical_key previous) _ key (encode_capability v ++ others) (k, key) made
      (canonical_key-Reads previous k (omega arith) h.0.0.1 c.0)
      (Reads-bind capability _ (encode_capability v) others v made
        (capability-encode_capability v h.0.1)
        (capability_fields-Reads (some key) (insert values k v) es c.1 h.1))

named : (es : List Entry) → All IsEntry es → All IsNamed es
named [] h = tt
named (e ∷ es) h = (h.0.0, named es h.1)

-- In canonical order, whatever the order of the map.
Sorted-fields-Reads :
    (m : Capabilities)
    → Sorted m
    → All IsEntry m
    → Reads
        (capability_fields (length m) none [])
        (concat_fields (sort_fields (map capability_field m)))
        m
Sorted-fields-Reads m s h =
    rw
      (
        length-sort_entries m,
        ← sort_fields-map m,
        insert_all-sort_entries [] m (Sorted-Distinct m s),
        insert_all-Sorted [] m s,
      )
      at
      (capability_fields-Reads none [] (sort_entries m)
        (sort_entries-Chain m (named m h) (Sorted-Distinct m s)) (All-sort_entries IsEntry m h))

length-map : (m : Capabilities) → length (map capability_field m) ≡ length m
length-map [] = refl
length-map (e ∷ m) = ap suc (length-map m)

-- A map of at most 32 entries in the order of a `BTreeMap` is read back as it was.
pub decode_capabilities-encode_capabilities :
    (m : Capabilities)
    → Sorted m
    → length m ≤ 32
    → All IsEntry m
    → Reads decode_capabilities (encode_capabilities m) m
unfolding decode_capabilities encode_capabilities encode_map
decode_capabilities-encode_capabilities m s short h =
    let fields : Bytes = concat_fields (sort_fields (map capability_field m)) in
    rw (length-map m) (
      Reads-bind map_len _ (encode_head 5 (length m)) fields (length m) m
        (map_len-Reads (length m) (omega arith))
        (Reads-unless (ltb 32 (length m)) _ _ fields m (ground arith) (Sorted-fields-Reads m s h)))
