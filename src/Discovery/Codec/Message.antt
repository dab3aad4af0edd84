-- ===== src/Discovery/Codec/Message.antt =====
-- The loops of `decode_load` and `decode_message`, one round at a time, over what the encoder
-- writes.
use nerves_p2p.Prelude.{
  ℕ, suc, ◌≤◌, ◌≡◌, refl, sym, subst, ◌∙◌, true, false, [], ◌∷◌, ◌++◌, append-nil, length, arith,
  Option, none, some,
}
use nerves_p2p.Prelude.Bytes.{Bytes, bytes_eq, text as ascii}
use nerves_p2p.Prelude.Order.{compare_bytes}
use nerves_p2p.Prelude.Text.{is_utf8}
use nerves_p2p.Discovery.Types.{Keys, Load, u64_max}
use nerves_p2p.Discovery.Encode.{
  encode_head, encode_text, encode_uint, canonical_cmp, encode_map, field,
}
use nerves_p2p.Discovery.Reader.{
  Reader, Parse, pure, ◌>>=◌, canonical_key, out_of_order, uint, map_len,
}
use nerves_p2p.Discovery.Decode.{
  LoadDraft, load_field, load_fields, finish_load, decode_load, Draft, message_field,
  message_fields,
}
use nerves_p2p.Discovery.Codec.Reads.{Reads, Reads-bind, Reads-then}
use nerves_p2p.Discovery.Codec.Strings.{map_len-Reads, canonical_key-Reads, uint-encode_uint}
use nerves_p2p.Discovery.Codec.Layout.{entry, load_layout}

-- A key of the format after `previous`.
abbrev pub Comes : Bytes → Option Bytes → Type 0
Comes x previous =
    (length x ≤ u64_max) × (is_utf8 x ≡ true) × (out_of_order previous (encode_text x) ≡ false)

load_step :
    {A : Type 0} (x : Bytes) (n : ℕ) (d : LoadDraft) (p : Parse A) (set : A → LoadDraft) (w : Bytes)
    (a : A) (rest : Bytes) (result : LoadDraft)
    → Comes x d.previous
    → ((r : Reader)
        → load_field x (record d { previous = some (encode_text x) }) r
          ≡ (p >>= λ v. pure (set v)) r)
    → Reads p w a
    → Reads (load_fields n (set a)) rest result
    → Reads (load_fields (suc n) d) (entry x w rest) result
unfolding load_fields
load_step x n d p set w a rest result c same h more =
    Reads-bind (canonical_key d.previous) _ (encode_text x) (w ++ rest) (x, encode_text x) result
      (canonical_key-Reads d.previous x c.0 c.1 c.2)
      (Reads-bind (load_field x (record d { previous = some (encode_text x) })) _ w rest (set a)
        result
        (λ pre tail fits.
          same _ ∙ Reads-then p (λ v. pure (set v)) w a (set a) h (λ r. refl) pre tail fits)
        more)

load_done : (d : LoadDraft) → Reads (load_fields 0 d) [] d
unfolding load_fields
load_done d pre rest fits = rw append-nil

load_fields-Reads :
    (l : Load)
    → l.running ≤ u64_max
    → l.capacity ≤ u64_max
    → Reads
        (load_fields 2 (record { previous = none; running = none; capacity = none }))
        (entry
          (ascii "running")
          (encode_uint l.running)
          (entry (ascii "capacity") (encode_uint l.capacity) []))
        (record {
          previous = some (encode_text (ascii "capacity"));
          running = some l.running;
          capacity = some l.capacity;
        })
unfolding load_field bytes_eq out_of_order canonical_cmp compare_bytes encode_text encode_head
    is_utf8
load_fields-Reads l hr hc =
    load_step (ascii "running") 1 _ uint _ (encode_uint l.running) l.running _ _
      (omega arith, refl, refl) (λ r. refl) (uint-encode_uint l.running hr)
      (load_step (ascii "capacity") 0 _ uint _ (encode_uint l.capacity) l.capacity [] _
        (omega arith, refl, refl) (λ r. refl) (uint-encode_uint l.capacity hc) (load_done _))

-- The load is read back.
pub decode_load-Reads :
    (l : Load)
    → l.running ≤ u64_max
    → l.capacity ≤ u64_max
    → Reads decode_load
        (encode_map (
          field (ascii "running") (encode_uint l.running)
          ∷ field (ascii "capacity") (encode_uint l.capacity)
          ∷ []))
        l
unfolding decode_load finish_load
decode_load-Reads l hr hc =
    let fields : Bytes =
      entry (ascii "running") (encode_uint l.running)
        (entry (ascii "capacity") (encode_uint l.capacity) []) in
    subst (λ w. Reads decode_load w l)
      (sym (load_layout (encode_uint l.running) (encode_uint l.capacity)))
      (Reads-bind map_len _ (encode_head 5 2) fields 2 l (map_len-Reads 2 (omega arith))
        (Reads-then (load_fields 2 _) _ fields _ l (load_fields-Reads l hr hc) (λ r. refl)))

module _ (k : Keys) where
  pub message_step :
      {A : Type 0} (x : Bytes) (n : ℕ) (d : Draft) (p : Parse A) (set : A → Draft) (w : Bytes)
      (a : A) (rest : Bytes) (result : Draft)
      → Comes x d.previous
      → ((r : Reader)
          → message_field k x (record d { previous = some (encode_text x) }) r
            ≡ (p >>= λ v. pure (set v)) r)
      → Reads p w a
      → Reads (message_fields k n (set a)) rest result
      → Reads (message_fields k (suc n) d) (entry x w rest) result
  unfolding message_fields
  message_step x n d p set w a rest result c same h more =
      Reads-bind (canonical_key d.previous) _ (encode_text x) (w ++ rest) (x, encode_text x) result
        (canonical_key-Reads d.previous x c.0 c.1 c.2)
        (Reads-bind (message_field k x (record d { previous = some (encode_text x) })) _ w rest
          (set a) result
          (λ pre tail fits.
            same _ ∙ Reads-then p (λ v. pure (set v)) w a (set a) h (λ r. refl) pre tail fits)
          more)

  pub message_done : (d : Draft) → Reads (message_fields k 0 d) [] d
  unfolding message_fields
  message_done d pre rest fits = rw append-nil
