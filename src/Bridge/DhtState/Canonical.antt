-- ===== src/Bridge/DhtState/Canonical.antt =====
-- native/p2p_bridge/src/dht_state.rs: what `decode` accepts is what `encode` writes, with a tail.
use nerves_p2p.Prelude.{
  Bool, true, false, ℕ, zero, suc, ◌≤◌, ◌<◌, ◌≡◌, ◌↔◌, refl, sym, subst, ap, ap₂, ◌∙◌, List, [],
  ◌∷◌, ◌++◌, length, All, ok, err, Result, arith, not, ◌==◌, nat_eq, nat_eq_iff, ltb, if◌then◌else◌,
}
use nerves_p2p.Prelude.Bytes.{Bytes, IsByte, Eq_bytes, bytes_eq_iff}
use nerves_p2p.Bridge.DhtState.{
  RoutingEntry, DhtStateError, Cursor, Parse, max_dht_export_bytes, magic, encode_u16, encode_u32,
  encode_addresses, encode_entry, encode_entries, encode, ◌>>=◌, read_vec, read_uint, read_u8,
  read_u16, read_u32, read_addresses, read_entry, read_entries, read_state, result_of, decode,
}
use nerves_p2p.Bridge.DhtState.RoundTrip.{IsEntry, decode-encode}
use nerves_p2p.Bridge.DhtState.Gives.{
  at, Gives, pure-Gives, bind-Gives, refuse-Gives, read_vec-Gives, map-Gives, last-Gives,
  uint-Gives, u8_text, u16_text, u32_text,
}

u16-Gives : Gives read_u16 (λ n y. (y ≡ encode_u16 n) × (n < 65536))
unfolding read_u16
u16-Gives = map-Gives (read_uint 2) u16_text (uint-Gives 2)

-- A length of 16 bits, then as many bytes.
vec-Gives :
    {B : Type 0} {T : B → Bytes → Type 0} (f : Bytes → Parse B)
    → ((a : Bytes)
        → length a < 65536
        → Gives (f a) (λ b y. T b (encode_u16 (length a) ++ (a ++ y))))
    → Gives (read_u16 >>= λ n. read_vec n >>= f) T
vec-Gives {T = T} f h =
    bind-Gives read_u16 (λ n. read_vec n >>= f) u16-Gives
      λ n x (enc, small). bind-Gives (read_vec n) f (read_vec-Gives n) λ a z (same, sized, bytes).
        let long : length a ≡ n = ap length same ∙ sized in
        let head : x ≡ encode_u16 (length a) = enc ∙ ap encode_u16 (sym long) in
        map-Gives (f a) (λ b y t. subst (T b) (ap₂ (λ x z. x ++ (z ++ y)) (sym head) same) t)
          (h a (omega (arith, long, small)))

addresses-Gives :
    (n : ℕ)
    → Gives
        (read_addresses n)
        (λ xs y. (y ≡ encode_addresses xs) × (length xs ≡ n) × All (λ a. length a < 65536) xs)
unfolding read_addresses encode_addresses
addresses-Gives zero = pure-Gives [] (refl, refl, tt)
addresses-Gives (suc n) = vec-Gives _ λ a small.
    last-Gives (read_addresses n) (λ xs. a ∷ xs) (addresses-Gives n)
      λ xs y (enc, sized, all).
        (ap (λ y. encode_u16 (length a) ++ (a ++ y)) enc, omega (arith, sized), (small, all))

IsEntry-Gives : Gives read_entry (λ e y. (y ≡ encode_entry e) × IsEntry e)
unfolding read_entry encode_entry
IsEntry-Gives = vec-Gives _ λ peer small. bind-Gives read_u16 _ u16-Gives λ n x (count, few).
    last-Gives (read_addresses n) _ (addresses-Gives n) λ xs y (enc, sized, all). (
      ap₂ (λ x y. encode_u16 (length peer) ++ (peer ++ (x ++ y)))
          (count ∙ ap encode_u16 (sym sized)) enc,
      record { peer = small; few = omega (arith, sized, few); addresses = all },
    )

entries-Gives :
    (n : ℕ)
    → Gives (read_entries n) (λ es y. (y ≡ encode_entries es) × (length es ≡ n) × All IsEntry es)
unfolding read_entries encode_entries
entries-Gives zero = pure-Gives [] (refl, refl, tt)
entries-Gives (suc n) = bind-Gives read_entry _ IsEntry-Gives λ e x (enc, valid).
    last-Gives (read_entries n) (λ es. e ∷ es) (entries-Gives n)
      λ es y (enc', sized, all). (ap₂ (◌++◌) enc enc', omega (arith, sized), (valid, all))

abbrev IsExport : List RoutingEntry → Bytes → Type 0
IsExport es y = (y ≡ encode es) × (length es < 4294967296) × All IsEntry es

-- What follows the magic and the version.
count-Gives : Gives (read_u32 >>= read_entries) (λ es y.
    (y ≡ encode_u32 (length es) ++ encode_entries es) × (length es < 4294967296) × All IsEntry es)
unfolding read_u32
count-Gives =
    bind-Gives (read_uint 4) _ (map-Gives (read_uint 4) u32_text (uint-Gives 4)) λ n x (count, few).
      map-Gives (read_entries n)
        (λ es y (enc, sized, all).
          (ap₂ (◌++◌) (count ∙ ap encode_u32 (sym sized)) enc, omega (arith, sized, few), all))
        (entries-Gives n)

state-Gives : Gives read_state IsExport
unfolding read_state encode read_u8
state-Gives = bind-Gives (read_vec 4) _ (read_vec-Gives 4) λ start x (same, _, _).
    refuse-Gives (not (start == magic)) _ _ λ right.
      bind-Gives (read_uint 1) _ (uint-Gives 1) λ v y word.
        refuse-Gives (not (nat_eq v 1)) _ _ λ known.
          let first : x ≡ magic = sym same ∙ (bytes_eq_iff start magic).0 (ground (arith, right)) in
          let second : v ≡ 1 = ground (arith, known, nat_eq_iff v 1) in
          let number : y ≡ 1 ∷ [] = u8_text v y word ∙ ap (λ v. v ∷ []) second in
          map-Gives (read_u32 >>= read_entries)
            (λ es z (enc, few, all). (ap₂ (◌++◌) first (ap₂ (◌++◌) number enc), few, all))
            count-Gives

limited :
    (b : Bool) (e : DhtStateError) (r : Result (List RoutingEntry × Cursor) DhtStateError)
    (es : List RoutingEntry)
    → (if b then err e else result_of r) ≡ ok es
    → (b ≡ false) × (c : Cursor) × (r ≡ ok (es, c))
unfolding result_of
limited true e r es h = ground arith
limited false e (err x) es h = ground arith
limited false e (ok (found, c)) es h = (refl, c, ground arith)

-- `decode` answers a routing table just for what `encode` makes of that table, with any valid
-- after it, if the whole fits 4 MiB and the counts and lengths of the table fit their fields.
pub decode_iff :
    (bytes : Bytes) (es : List RoutingEntry)
    → All IsByte bytes
    → (decode bytes ≡ ok es) ↔ (
        (length bytes ≤ max_dht_export_bytes)
        × (length es < 4294967296)
        × All IsEntry es
        × (rest : Bytes) × (bytes ≡ encode es ++ rest))
unfolding decode
decode_iff bytes es valid = (
  accepted,
  λ (fits, few, entries, rest, whole).
      subst (λ b. decode b ≡ ok es) (sym whole)
        (decode-encode es rest entries few (omega (arith, fits, ap length whole))),
)
  where
    accepted :
        decode bytes ≡ ok es
        → (length bytes ≤ max_dht_export_bytes)
          × (length es < 4294967296)
          × All IsEntry es
          × (rest : Bytes) × (bytes ≡ encode es ++ rest)
    accepted h =
        let (small, c, run) =
          limited (ltb max_dht_export_bytes (length bytes))
            (DhtStateError.input_too_large (length bytes) max_dht_export_bytes)
            (read_state (at [] bytes)) es h in
        let fits : length bytes ≤ max_dht_export_bytes = ground (arith, small) in
        let u = state-Gives.gives [] bytes es c valid run in
        (fits, u.holds.1, u.holds.2, u.rest, u.split ∙ ap (λ t. t ++ u.rest) u.holds.0)
