-- ===== src/Discovery/Codec/Sorting.antt =====
-- `encode_map` puts its fields in canonical order. For the capabilities that is a permutation of
-- the entries, under which the decoder builds the same map.
use nerves_p2p.Prelude.{
  suc, ◌≡◌, refl, ap, sym, ◌∙◌, ◌≢◌, true, false, List, [], ◌∷◌, map, length, All, arith, Option,
  none, some, if◌then◌else◌, Bool-cases, inl, inr,
}
use nerves_p2p.Prelude.Bytes.{Bytes}
use nerves_p2p.Prelude.Order.{is_less, compare_bytes_eq, compare_bytes_unflip}
use nerves_p2p.Prelude.BTreeMap.{insert}
use nerves_p2p.Prelude.BTreeMap.Sorted.{Fresh, Distinct, insert_all, insert_all_comm}
use nerves_p2p.Discovery.Types.{CapabilityValue, Capabilities}
use nerves_p2p.Discovery.Encode.{
  field, canonical_cmp, insert_field, sort_fields, encode_text, capability_field,
}
use nerves_p2p.Discovery.Reader.{out_of_order}
use nerves_p2p.Discovery.Codec.Strings.{IsStr, encode_text-injective}

abbrev pub Entry : Type 0
Entry = Bytes × CapabilityValue

-- The sort of the fields, carried back to the entries that they encode.
unfoldable pub insert_entry : Entry → List Entry → List Entry
insert_entry e [] = e ∷ []
insert_entry e (d ∷ ds) =
    if is_less (canonical_cmp (encode_text d.0) (encode_text e.0))
    then d ∷ insert_entry e ds
    else e ∷ d ∷ ds

unfoldable pub sort_entries : List Entry → List Entry
sort_entries [] = []
sort_entries (e ∷ es) = insert_entry e (sort_entries es)

insert_field-map :
    (e : Entry) (es : List Entry)
    → insert_field (capability_field e) (map capability_field es)
      ≡ map capability_field (insert_entry e es)
unfolding insert_field insert_entry capability_field field
insert_field-map e [] = refl
insert_field-map e (d ∷ ds) = ground (arith, insert_field-map e ds)

pub sort_fields-map :
    (es : List Entry)
    → sort_fields (map capability_field es) ≡ map capability_field (sort_entries es)
unfolding sort_fields sort_entries
sort_fields-map [] = refl
sort_fields-map (e ∷ es) =
    ap (insert_field (capability_field e)) (sort_fields-map es)
    ∙ insert_field-map e (sort_entries es)

insert_entry-Fresh :
    (k : Bytes) (e : Entry) (es : List Entry) → k ≢ e.0 → Fresh k es → Fresh k (insert_entry e es)
unfolding insert_entry
insert_entry-Fresh k e [] ne f = (ne, tt)
insert_entry-Fresh k e (d ∷ ds) ne f =
    elim (Bool-cases (is_less (canonical_cmp (encode_text d.0) (encode_text e.0)))) [
      | inl less ↦ rw less (f.0, insert_entry-Fresh k e ds ne f.1)
      | inr more ↦ rw more (ne, f)
    ]

pub sort_entries-Fresh : (k : Bytes) (es : List Entry) → Fresh k es → Fresh k (sort_entries es)
unfolding sort_entries
sort_entries-Fresh k [] f = tt
sort_entries-Fresh k (e ∷ es) f =
    insert_entry-Fresh k e (sort_entries es) f.0 (sort_entries-Fresh k es f.1)

insert_all-insert_entry :
    (m : Capabilities) (e : Entry) (es : List Entry)
    → Fresh e.0 es
    → insert_all m (insert_entry e es) ≡ insert_all m (e ∷ es)
unfolding insert_entry insert_all
insert_all-insert_entry m e [] f = refl
insert_all-insert_entry m e (d ∷ ds) f =
    elim (Bool-cases (is_less (canonical_cmp (encode_text d.0) (encode_text e.0)))) [
      | inl less ↦ rw less (
          insert_all-insert_entry (insert m d.0 d.1) e ds f.1
          ∙ insert_all_comm m d e ds (λ eq. f.0 (sym eq)))
      | inr more ↦ rw more refl
    ]

-- Sorting the entries does not change the map that they make.
pub insert_all-sort_entries :
    (m : Capabilities) (es : List Entry)
    → Distinct es
    → insert_all m (sort_entries es) ≡ insert_all m es
unfolding sort_entries insert_all
insert_all-sort_entries m [] d = refl
insert_all-sort_entries m (e ∷ es) d =
    insert_all-insert_entry m e (sort_entries es) (sort_entries-Fresh e.0 es d.0)
    ∙ insert_all-sort_entries (insert m e.0 e.1) es d.1

-- Each key comes after the one before it, as `canonical_key` wants.
abbrev pub Chain : Option Bytes → List Entry → Type 0
Chain previous [] = Unit {0}
Chain previous (e ∷ es) =
    (out_of_order previous (encode_text e.0) ≡ false) × Chain (some (encode_text e.0)) es

canonical_total :
    (a b : Bytes) → a ≢ b → is_less (canonical_cmp a b) ≡ false → is_less (canonical_cmp b a) ≡ true
unfolding canonical_cmp
canonical_total a b ne h = ground (arith, compare_bytes_eq a b, compare_bytes_unflip a b)

All-insert_entry {κ} :
    (P : Entry → Type κ) (e : Entry) (es : List Entry) → P e → All P es → All P (insert_entry e es)
unfolding insert_entry
All-insert_entry P e [] h hs = (h, tt)
All-insert_entry P e (d ∷ ds) h hs =
    elim (Bool-cases (is_less (canonical_cmp (encode_text d.0) (encode_text e.0)))) [
      | inl less ↦ rw less (hs.0, All-insert_entry P e ds h hs.1)
      | inr more ↦ rw more (h, hs)
    ]

pub All-sort_entries {κ} :
    (P : Entry → Type κ) (es : List Entry) → All P es → All P (sort_entries es)
unfolding sort_entries
All-sort_entries P [] h = tt
All-sort_entries P (e ∷ es) h =
    All-insert_entry P e (sort_entries es) h.0 (All-sort_entries P es h.1)

-- The key of the entry is a Rust string.
abbrev pub IsNamed : Entry → Type 0
IsNamed e = IsStr e.0

insert_entry-Chain :
    (previous : Option Bytes) (e : Entry) (es : List Entry)
    → IsNamed e
    → All IsNamed es
    → Fresh e.0 es
    → out_of_order previous (encode_text e.0) ≡ false
    → Chain previous es
    → Chain previous (insert_entry e es)
unfolding insert_entry out_of_order
insert_entry-Chain previous e [] n ns f h c = (h, tt)
insert_entry-Chain previous e (d ∷ ds) n ns f h c =
    elim (Bool-cases (is_less (canonical_cmp (encode_text d.0) (encode_text e.0)))) [
      | inl less ↦
          rw less (c.0, insert_entry-Chain (some (encode_text d.0)) e ds n ns.1 f.1 (rw less) c.1)
      | inr more ↦ rw more (h, (follows more, c.1))
    ]
  where
    follows :
        is_less (canonical_cmp (encode_text d.0) (encode_text e.0)) ≡ false
        → out_of_order (some (encode_text e.0)) (encode_text d.0) ≡ false
    follows more = rw (
        canonical_total (encode_text d.0) (encode_text e.0)
          (λ eq. f.0 (sym (encode_text-injective d.0 e.0 ns.0.0 n.0 eq))) more)

-- Distinct keys in canonical order pass the check of `canonical_key`.
pub sort_entries-Chain :
    (es : List Entry) → All IsNamed es → Distinct es → Chain none (sort_entries es)
unfolding sort_entries out_of_order
sort_entries-Chain [] ns d = tt
sort_entries-Chain (e ∷ es) ns d =
    insert_entry-Chain none e (sort_entries es) ns.0 (All-sort_entries IsNamed es ns.1)
      (sort_entries-Fresh e.0 es d.0) refl (sort_entries-Chain es ns.1 d.1)

length-insert_entry : (e : Entry) (es : List Entry) → length (insert_entry e es) ≡ suc (length es)
unfolding insert_entry
length-insert_entry e [] = refl
length-insert_entry e (d ∷ ds) = ground (arith, length-insert_entry e ds)

pub length-sort_entries : (es : List Entry) → length (sort_entries es) ≡ length es
unfolding sort_entries
length-sort_entries [] = refl
length-sort_entries (e ∷ es) =
    length-insert_entry e (sort_entries es) ∙ ap suc (length-sort_entries es)
