-- ===== src/Bridge/DhtState.antt =====
-- native/p2p_bridge/src/dht_state.rs: the export format of the routing table. A method of `Cursor`
-- is a function from the cursor to a result with the cursor that it leaves; an error drops it, as
-- every caller does.
pub mod RoundTrip
pub mod Gives
pub mod Canonical
use nerves_p2p.Prelude.{
  ℕ, zero, suc, ◌+◌, ◌*◌, ◌%◌, ◌^◌, Bool, true, false, not, List, [], ◌∷◌, ◌++◌, length, take, drop,
  ltb, nat_eq, ◌==◌, if◌then◌else◌, Result, ok, err,
}
use nerves_p2p.Prelude.Results
use nerves_p2p.Prelude.Bytes.{Bytes, Eq_bytes, text, be_bytes, from_be}

abbrev pub max_dht_export_bytes : ℕ
max_dht_export_bytes = 4 * 1024 * 1024

unfoldable pub magic : Bytes
magic = text "L2DT"

abbrev pub version_number : ℕ
version_number = 1

pub record RoutingEntry : Type 0 where
  pub peer_id : Bytes
  pub addresses : List Bytes

pub data DhtStateError : Type 0 where
  input_too_large : ℕ → ℕ → DhtStateError
  truncated : ℕ → ℕ → DhtStateError
  bad_magic : Bytes → DhtStateError
  unsupported_version : ℕ → DhtStateError

-- A length or a count, of which the low bits go to the wire.
unfoldable pub encode_u16 : ℕ → Bytes
encode_u16 n = be_bytes 2 (n % 2 ^ 16)

unfoldable pub encode_u32 : ℕ → Bytes
encode_u32 n = be_bytes 4 (n % 2 ^ 32)

unfoldable pub encode_addresses : List Bytes → Bytes
encode_addresses [] = []
encode_addresses (a ∷ others) = encode_u16 (length a) ++ (a ++ encode_addresses others)

unfoldable pub encode_entry : RoutingEntry → Bytes
encode_entry e =
    encode_u16 (length e.peer_id)
    ++ (e.peer_id ++ (encode_u16 (length e.addresses) ++ encode_addresses e.addresses))

unfoldable pub encode_entries : List RoutingEntry → Bytes
encode_entries [] = []
encode_entries (e ∷ es) = encode_entry e ++ encode_entries es

unfoldable pub encode : List RoutingEntry → Bytes
encode entries =
    magic ++ ((version_number ∷ []) ++ (encode_u32 (length entries) ++ encode_entries entries))

pub record Cursor : Type 0 where
  pub buf : Bytes
  pub offset : ℕ

abbrev pub Parse {ℓ} : Type ℓ → Type ℓ
Parse A = Cursor → Result (A × Cursor) DhtStateError

unfoldable pub after {ℓ κ} :
    {A : Type ℓ} {B : Type κ}
    → Result (A × Cursor) DhtStateError
    → (A → Parse B)
    → Result (B × Cursor) DhtStateError
after (err e) f = err e
after (ok (a, c)) f = f a c

infixl 5 ◌>>=◌ ◌>>◌
unfoldable pub ◌>>=◌ {ℓ κ} : {A : Type ℓ} {B : Type κ} → Parse A → (A → Parse B) → Parse B
unfolding after
◌>>=◌ p f c = after (p c) f

abbrev pub ◌>>◌ {κ} : {B : Type κ} → Parse (Unit {0}) → Parse B → Parse B
p >> q = p >>= λ _. q

unfoldable pub pure {ℓ} : {A : Type ℓ} → A → Parse A
pure a c = ok (a, c)

unfoldable pub refuse : Bool → DhtStateError → Parse (Unit {0})
refuse true e c = err e
refuse false e c = ok (tt, c)

-- `read_array` and `read_vec` differ only in how the length is given.
unfoldable pub read_vec : ℕ → Parse Bytes
read_vec n c =
    if ltb (length c.buf) (c.offset + n)
    then err (DhtStateError.truncated c.offset n)
    else ok (take n (drop c.offset c.buf), record c { offset = c.offset + n })

unfoldable pub read_uint : ℕ → Parse ℕ
read_uint n = do bytes ← read_vec n; pure (from_be bytes)

unfoldable pub read_u8 : Parse ℕ
unfolding read_uint
read_u8 = read_uint 1

unfoldable pub read_u16 : Parse ℕ
unfolding read_uint
read_u16 = read_uint 2

unfoldable pub read_u32 : Parse ℕ
unfolding read_uint
read_u32 = read_uint 4

unfoldable pub read_addresses : ℕ → Parse (List Bytes)
read_addresses zero = pure []
read_addresses (suc n) = do
  addr_len ← read_u16
  addr ← read_vec addr_len
  addresses ← read_addresses n
  pure (addr ∷ addresses)

unfoldable pub read_entry : Parse RoutingEntry
read_entry = do
  peer_id_len ← read_u16
  peer_id ← read_vec peer_id_len
  addr_count ← read_u16
  addresses ← read_addresses addr_count
  pure (record { peer_id = peer_id; addresses = addresses })

unfoldable pub read_entries : ℕ → Parse (List RoutingEntry)
read_entries zero = pure []
read_entries (suc n) = do entry ← read_entry; entries ← read_entries n; pure (entry ∷ entries)

unfoldable pub read_state : Parse (List RoutingEntry)
read_state = do
  start ← read_vec 4
  refuse (not (start == magic)) (DhtStateError.bad_magic start)
  version ← read_u8
  refuse (not (nat_eq version version_number)) (DhtStateError.unsupported_version version)
  count ← read_u32
  read_entries count

unfoldable pub result_of {ℓ} :
    {A : Type ℓ} → Result (A × Cursor) DhtStateError → Result A DhtStateError
result_of (ok (a, c)) = ok a
result_of (err e) = err e

unfoldable pub decode : Bytes → Result (List RoutingEntry) DhtStateError
unfolding result_of
decode data_bytes =
    if ltb max_dht_export_bytes (length data_bytes)
    then err (DhtStateError.input_too_large (length data_bytes) max_dht_export_bytes)
    else result_of (read_state (record { buf = data_bytes; offset = 0 }))
