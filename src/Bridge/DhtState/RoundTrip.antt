-- ===== src/Bridge/DhtState/RoundTrip.antt =====
-- native/p2p_bridge/src/dht_state.rs: what `encode` writes is read back by `decode`.
use nerves_p2p.Prelude.{
  Bool, true, false, ◌^◌, ℕ, ◌%◌, ◌≤◌, ◌<◌, ◌≡◌, refl, sym, subst, List, [], ◌∷◌, ◌++◌,
  append_assoc, append-nil, length, length-append, take-append, drop-append, All, ok, arith, not,
  ◌==◌, nat_eq, ltb,
}
use nerves_p2p.Prelude.Bytes.{
  Bytes, Eq_bytes, bytes_eq_refl, be_bytes, from_be, length-be_bytes, from_be-be_bytes,
}
use nerves_p2p.Bridge.DhtState.{
  RoutingEntry, DhtStateError, Parse, max_dht_export_bytes, magic, encode_u16, encode_u32,
  encode_addresses, encode_entry, encode_entries, encode, after, ◌>>=◌, pure, refuse, read_vec,
  read_uint, read_u8, read_u16, read_u32, read_addresses, read_entry, read_entries, read_state,
  result_of, decode,
}

-- The parser reads `x` as `a`, wherever it stands and whatever follows.
pub record Reads {ℓ} {A : Type ℓ} (p : Parse A) (x : Bytes) (a : A) : Type ℓ where
  pub reads :
      (pre rest : Bytes)
      → p (record { buf = pre ++ (x ++ rest); offset = length pre })
        ≡ ok (a, record { buf = pre ++ (x ++ rest); offset = length (pre ++ x) })

pure-Reads {ℓ} : {A : Type ℓ} (a : A) → Reads (pure a) [] a
unfolding pure
pure-Reads a = record { reads = λ pre rest. rw append-nil refl }

bind-Reads {ℓ κ} :
    {A : Type ℓ} {B : Type κ} (p : Parse A) (f : A → Parse B) (x y : Bytes) (a : A) (b : B)
    → Reads p x a
    → Reads (f a) y b
    → Reads (p >>= f) (x ++ y) b
unfolding ◌>>=◌ after
bind-Reads p f x y a b hp hf = record {
  reads = λ pre rest.
      rw (append_assoc x y rest, hp.reads pre (y ++ rest))
        (rw (sym (append_assoc pre x (y ++ rest)), sym (append_assoc pre x y))
          (hf.reads (pre ++ x) rest));
}

refuse-Reads {κ} :
    {B : Type κ} (c : Bool) (e : DhtStateError) (f : Unit {0} → Parse B) (x : Bytes) (b : B)
    → c ≡ false
    → Reads (f tt) x b
    → Reads (refuse c e >>= f) x b
unfolding ◌>>=◌ after refuse
refuse-Reads true e f x b h r = ground arith
refuse-Reads false e f x b h r = r

read_vec-Reads : (n : ℕ) (x : Bytes) → length x ≡ n → Reads (read_vec n) x x
unfolding read_vec
read_vec-Reads n x h = record {
  reads = λ pre rest. ground (
    arith,
    h,
    length-append pre (x ++ rest),
    length-append x rest,
    length-append pre x,
    drop-append pre (x ++ rest),
    take-append x rest,
  );
}

-- The last step only makes the result.
last-Reads {ℓ κ} :
    {A : Type ℓ} {B : Type κ} (p : Parse A) (f : A → B) (x : Bytes) (a : A)
    → Reads p x a
    → Reads (p >>= λ a. pure (f a)) x (f a)
last-Reads p f x a h =
    subst (λ w. Reads (p >>= λ a. pure (f a)) w (f a)) (append-nil x)
      (bind-Reads p (λ a. pure (f a)) x [] a (f a) h (pure-Reads (f a)))

uint-Reads : (w n : ℕ) → n < 256 ^ w → Reads (read_uint w) (be_bytes w n) n
unfolding read_uint
uint-Reads w n below = subst (Reads (read_uint w) (be_bytes w n)) (from_be-be_bytes w n below) (
    last-Reads (read_vec w) from_be (be_bytes w n) (be_bytes w n)
      (read_vec-Reads w (be_bytes w n) (length-be_bytes w n)))

u8-Reads : Reads read_u8 (1 ∷ []) 1
unfolding read_u8 be_bytes
u8-Reads = uint-Reads 1 1 (omega arith)

u16-Reads : (n : ℕ) → n < 65536 → Reads read_u16 (encode_u16 n) n
unfolding read_u16 encode_u16
u16-Reads n below =
    let same : n ≡ n % 65536 = omega arith in
    subst (λ m. Reads (read_uint 2) (be_bytes 2 m) n) same (uint-Reads 2 n below)

u32-Reads : (n : ℕ) → n < 4294967296 → Reads read_u32 (encode_u32 n) n
unfolding read_u32 encode_u32
u32-Reads n below =
    let same : n ≡ n % 4294967296 = omega arith in
    subst (λ m. Reads (read_uint 4) (be_bytes 4 m) n) same (uint-Reads 4 n below)

addresses-Reads :
    (xs : List Bytes)
    → All (λ a. length a < 65536) xs
    → Reads (read_addresses (length xs)) (encode_addresses xs) xs
unfolding read_addresses encode_addresses
addresses-Reads [] h = pure-Reads []
addresses-Reads (a ∷ xs) h =
    bind-Reads read_u16 _ (encode_u16 (length a)) (a ++ encode_addresses xs) (length a) (a ∷ xs)
      (u16-Reads (length a) h.0)
      (bind-Reads (read_vec (length a)) _ a (encode_addresses xs) a (a ∷ xs)
        (read_vec-Reads (length a) a refl)
        (last-Reads (read_addresses (length xs)) (λ x. a ∷ x) (encode_addresses xs) xs
          (addresses-Reads xs h.1)))

-- What the format has room for: 16 bits for each length and for the count of the addresses.
pub record IsEntry (e : RoutingEntry) : Type 0 where
  pub peer : length e.peer_id < 65536
  pub few : length e.addresses < 65536
  pub addresses : All (λ a. length a < 65536) e.addresses

entry-Reads : (e : RoutingEntry) → IsEntry e → Reads read_entry (encode_entry e) e
unfolding read_entry encode_entry
entry-Reads e v =
    let parts : Bytes = encode_addresses e.addresses in
    let count : Bytes = encode_u16 (length e.addresses) in
    bind-Reads read_u16 _ (encode_u16 (length e.peer_id)) (e.peer_id ++ (count ++ parts))
      (length e.peer_id) e (u16-Reads (length e.peer_id) v.peer)
      (bind-Reads (read_vec (length e.peer_id)) _ e.peer_id (count ++ parts) e.peer_id e
        (read_vec-Reads (length e.peer_id) e.peer_id refl)
        (bind-Reads read_u16 _ count parts (length e.addresses) e
          (u16-Reads (length e.addresses) v.few)
          (last-Reads (read_addresses (length e.addresses)) _ parts e.addresses
            (addresses-Reads e.addresses v.addresses))))

entries-Reads :
    (es : List RoutingEntry)
    → All IsEntry es
    → Reads (read_entries (length es)) (encode_entries es) es
unfolding read_entries encode_entries
entries-Reads [] h = pure-Reads []
entries-Reads (e ∷ es) h =
    bind-Reads read_entry _ (encode_entry e) (encode_entries es) e (e ∷ es) (entry-Reads e h.0) (
      last-Reads (read_entries (length es)) (λ x. e ∷ x) (encode_entries es) es
        (entries-Reads es h.1))

state-Reads :
    (es : List RoutingEntry)
    → All IsEntry es
    → length es < 4294967296
    → Reads read_state (encode es) es
unfolding read_state encode
state-Reads es h few =
    let count : Bytes = encode_u32 (length es) in
    let rest : Bytes = encode_entries es in
    bind-Reads (read_vec 4) _ magic ((1 ∷ []) ++ (count ++ rest)) magic es
      (read_vec-Reads 4 magic (unfold magic in refl))
      (refuse-Reads (not (magic == magic)) _ _ _ es (ground (arith, bytes_eq_refl magic)) (
        bind-Reads read_u8 _ (1 ∷ []) (count ++ rest) 1 es u8-Reads (
          refuse-Reads (not (nat_eq 1 1)) _ _ _ es refl (
            bind-Reads read_u32 _ count rest (length es) es (u32-Reads (length es) few)
              (entries-Reads es h)))))

-- A routing table whose counts and lengths fit their fields is read back exactly, if the export
-- fits 4 MiB with whatever follows it: trailing bytes are ignored.
pub decode-encode :
    (es : List RoutingEntry) (rest : Bytes)
    → All IsEntry es
    → length es < 4294967296
    → length (encode es ++ rest) ≤ max_dht_export_bytes
    → decode (encode es ++ rest) ≡ ok es
unfolding decode result_of
decode-encode es rest h few fits =
    let small : ltb max_dht_export_bytes (length (encode es ++ rest)) ≡ false =
      ground (arith, fits) in
    rw (small, (state-Reads es h few).reads [] rest) refl
