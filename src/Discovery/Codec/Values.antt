-- ===== src/Discovery/Codec/Values.antt =====
-- `Reader::capability` reads back a capability value, and `decode_capabilities` the whole map.
use nerves_p2p.Prelude.{
  ℕ, ◌+◌, ◌*◌, ◌≤◌, ◌<◌, ◌≡◌, refl, ap, ◌∙◌, Bool, true, false, List, [], ◌∷◌, ◌++◌, append-nil,
  append_assoc, length, All, arith, some, ltb, drop-append, length-append,
}
use nerves_p2p.Prelude.Bytes.{Bytes}
use nerves_p2p.Discovery.Types.{CapabilityValue, bool, uint, text, text_list, u64_max}
use nerves_p2p.Discovery.Encode.{
  encode_head, encode_text, encode_uint, concat_texts, encode_capability,
}
use nerves_p2p.Discovery.Reader
use nerves_p2p.Discovery.Reader.{Parse, pure, ◌>>=◌, texts, capability, capability_from}
use nerves_p2p.Discovery.Codec.Reads.{Reads, Reads-bind, Reads-then, Reads-unless}
use nerves_p2p.Discovery.Codec.Head.{encode_head-first}
use nerves_p2p.Discovery.Codec.Strings.{IsStr, uint-encode_uint, length-Reads, text-encode_text}

-- A capability value as the wire can carry it: a word, strings, at most 32 strings in a list.
abbrev pub IsValue : CapabilityValue → Type 0
IsValue (bool b) = Unit {0}
IsValue (uint n) = n ≤ u64_max
IsValue (text t) = IsStr t
IsValue (text_list ts) = (length ts ≤ 32) × All IsStr ts

texts-concat_texts :
    (ts : List Bytes) → All IsStr ts → Reads (texts (length ts)) (concat_texts ts) ts
unfolding texts concat_texts
texts-concat_texts [] h = λ pre rest fits. rw append-nil
texts-concat_texts (t ∷ ts) h =
    Reads-bind Reader.text _ (encode_text t) (concat_texts ts) t (t ∷ ts)
      (text-encode_text t (omega arith) h.0.1)
      (Reads-then (texts (length ts)) _ (concat_texts ts) ts (t ∷ ts) (texts-concat_texts ts h.1)
        (λ r. refl))

-- The method peeks at the first byte, and chooses by it.
peek-Reads :
    (written : Bytes) (b : ℕ) (y : Bytes) (v : CapabilityValue)
    → written ≡ b ∷ y
    → Reads (capability_from b) written v
    → Reads capability written v
unfolding capability
peek-Reads written b y v e h pre rest fits =
    let front : Reader.first (written ++ rest) ≡ some b = ap (λ w. Reader.first (w ++ rest)) e in
    rw (drop-append pre (written ++ rest), front) (h pre rest fits)

skip-Reads : (b : ℕ) → Reads Reader.skip (b ∷ []) tt
unfolding Reader.skip
skip-Reads b pre rest fits =
    ground (arith, append_assoc pre (b ∷ []) rest, length-append pre (b ∷ []))

-- A first byte at which the method reads an `A` and wraps it.
wrapped-Reads :
    {A : Type 0} (p : Parse A) (wrap : A → CapabilityValue) (written : Bytes) (b : ℕ) (y : Bytes)
    (a : A)
    → written ≡ b ∷ y
    → ((r : Reader.Reader) → capability_from b r ≡ (p >>= λ v. pure (wrap v)) r)
    → Reads p written a
    → Reads capability written (wrap a)
wrapped-Reads p wrap written b y a e same h = peek-Reads written b y (wrap a) e λ pre rest fits.
    same _ ∙ Reads-then p (λ v. pure (wrap v)) written a (wrap a) h (λ r. refl) pre rest fits

bool-Reads : (b : Bool) → Reads capability (encode_capability (bool b)) (bool b)
unfolding encode_capability capability_from
bool-Reads false =
    wrapped-Reads Reader.skip (λ _. bool false) (0xf4 ∷ []) 0xf4 [] tt refl (λ r. refl)
      (skip-Reads 0xf4)
bool-Reads true =
    wrapped-Reads Reader.skip (λ _. bool true) (0xf5 ∷ []) 0xf5 [] tt refl (λ r. refl)
      (skip-Reads 0xf5)

uint-Reads : (n : ℕ) → n ≤ u64_max → Reads capability (encode_capability (uint n)) (uint n)
unfolding encode_capability capability_from encode_uint
uint-Reads n h =
    let (low, y, small, e) = encode_head-first 0 n (omega arith) in
    wrapped-Reads Reader.uint uint (encode_head 0 n) (0 * 32 + low) y n e (λ r. ground arith)
      (uint-encode_uint n h)

text-Reads : (t : Bytes) → IsStr t → Reads capability (encode_capability (text t)) (text t)
unfolding encode_capability capability_from encode_text
text-Reads t h =
    let (low, y, small, e) = encode_head-first 3 (length t) (omega arith) in
    wrapped-Reads Reader.text text (encode_text t) (3 * 32 + low) (y ++ t) t (ap (λ w. w ++ t) e)
      (λ r. ground arith) (text-encode_text t (omega arith) h.1)

list-Reads :
    (ts : List Bytes)
    → length ts ≤ 32
    → All IsStr ts
    → Reads capability (encode_capability (text_list ts)) (text_list ts)
unfolding encode_capability capability_from Reader.text_list
list-Reads ts short h =
    let (low, y, small, e) = encode_head-first 4 (length ts) (omega arith) in
    peek-Reads (encode_head 4 (length ts) ++ concat_texts ts) (4 * 32 + low) (y ++ concat_texts ts)
      (text_list ts) (ap (λ w. w ++ concat_texts ts) e)
      λ pre rest fits. chosen low small _ ∙ whole pre rest fits
  where
    chosen :
        (low : ℕ)
        → low < 32
        → (r : Reader.Reader) → capability_from (4 * 32 + low) r ≡ Reader.text_list r
    chosen low small r = ground arith

    whole : Reads Reader.text_list (encode_head 4 (length ts) ++ concat_texts ts) (text_list ts)
    whole =
        Reads-bind (Reader.length_of 4) _ (encode_head 4 (length ts)) (concat_texts ts) (length ts)
          (text_list ts) (length-Reads 4 (length ts) (omega arith) (omega arith))
          (Reads-unless (ltb 32 (length ts)) _ _ (concat_texts ts) (text_list ts) (ground arith) (
            Reads-then (texts (length ts)) _ (concat_texts ts) ts (text_list ts)
              (texts-concat_texts ts h) (λ r. refl)))

-- Every value that the wire can carry is read back.
pub capability-encode_capability :
    (v : CapabilityValue) → IsValue v → Reads capability (encode_capability v) v
capability-encode_capability (bool b) h = bool-Reads b
capability-encode_capability (uint n) h = uint-Reads n h
capability-encode_capability (text t) h = text-Reads t h
capability-encode_capability (text_list ts) h = list-Reads ts h.0 h.1
