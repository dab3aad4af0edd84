-- ===== src/Prelude/Bytes.antt =====
-- Byte strings: lists of numbers below 256, their equality, and big-endian words.
use nerves_p2p.Prelude.Tests.{Eq, nat_eq, nat_eq_iff}
use nerves_p2p.Prelude.Lists.{length, length-append, All, All-append}
use Prim.Native.Nat.{ℕ, zero, suc, ◌+◌, ◌*◌, ◌/◌, ◌%◌, ◌^◌, ◌<◌, bit_and, bit_or}
use Prim.Native.Char.{code}
use Prim.Native.String.{String}
use mathlib.Core.Path.{◌≡◌, refl}
use mathlib.Core.Logic.{◌↔◌}
use mathlib.Core.Bool.{Bool, true, false, ◌&&◌}
use mathlib.Core.List.{List, [], ◌∷◌, ◌++◌}
use native.Mathlib.Nat.{pow-suc}
use native.Mathlib.Omega.{arith}

abbrev pub Bytes : Type 0
Bytes = List ℕ

abbrev pub IsByte : ℕ → Type 0
IsByte b = b < 256

-- The bytes of an ASCII literal of the source.
abbrev pub text : String → Bytes
text String.[] = []
text (String.◌∷◌ c s) = code c ∷ text s

unfoldable pub bytes_eq : Bytes → Bytes → Bool
bytes_eq [] [] = true
bytes_eq [] (y ∷ ys) = false
bytes_eq (x ∷ xs) [] = false
bytes_eq (x ∷ xs) (y ∷ ys) = nat_eq x y && bytes_eq xs ys

pub bytes_eq_iff : (xs ys : Bytes) → (bytes_eq xs ys ≡ true) ↔ (xs ≡ ys)
unfolding bytes_eq
bytes_eq_iff [] [] = ground arith
bytes_eq_iff [] (y ∷ ys) = ground arith
bytes_eq_iff (x ∷ xs) [] = ground arith
bytes_eq_iff (x ∷ xs) (y ∷ ys) = ground (arith, bytes_eq_iff xs ys)

pub bytes_eq_refl : (xs : Bytes) → bytes_eq xs xs ≡ true
bytes_eq_refl xs = (bytes_eq_iff xs xs).1 refl

instance abbrev pub Eq_bytes : Eq Bytes
Eq_bytes = record { agrees = bytes_eq; agrees_iff = bytes_eq_iff }

-- `to_be_bytes` of a word of `n` bytes, and `from_be_bytes`.
unfoldable pub be_bytes : ℕ → ℕ → Bytes
be_bytes zero v = []
be_bytes (suc n) v = be_bytes n (v / 256) ++ (v % 256 ∷ [])

unfoldable pub from_be_onto : ℕ → Bytes → ℕ
from_be_onto acc [] = acc
from_be_onto acc (b ∷ bs) = from_be_onto (acc * 256 + b) bs

unfoldable pub from_be : Bytes → ℕ
unfolding from_be_onto
from_be bs = from_be_onto 0 bs

pub length-be_bytes : (n v : ℕ) → length (be_bytes n v) ≡ n
unfolding be_bytes
length-be_bytes zero v = refl
length-be_bytes (suc n) v =
    omega (arith, length-append (be_bytes n (v / 256)) (v % 256 ∷ []), length-be_bytes n (v / 256))

from_be_onto-snoc :
    (acc : ℕ) (bs : Bytes) (b : ℕ)
    → from_be_onto acc (bs ++ (b ∷ [])) ≡ from_be_onto acc bs * 256 + b
unfolding from_be_onto
from_be_onto-snoc acc [] b = refl
from_be_onto-snoc acc (x ∷ bs) b = from_be_onto-snoc (acc * 256 + x) bs b

pub be_bytes-IsByte : (n v : ℕ) → All IsByte (be_bytes n v)
unfolding be_bytes
be_bytes-IsByte zero v = tt
be_bytes-IsByte (suc n) v =
    All-append IsByte (be_bytes n (v / 256)) _ (be_bytes-IsByte n (v / 256)) (omega arith)

below_step : (n v : ℕ) → v < 256 ^ suc n → v / 256 < 256 ^ n
below_step n v h = omega (arith, pow-suc 256 n)

-- A word below 256 ^ n is read back from its n bytes.
pub from_be-be_bytes : (n v : ℕ) → v < 256 ^ n → from_be (be_bytes n v) ≡ v
unfolding from_be be_bytes
from_be-be_bytes zero v h = omega arith
from_be-be_bytes (suc n) v h =
    rw (from_be_onto-snoc 0 (be_bytes n (v / 256)) (v % 256))
      (omega (arith, below_step n v h, from_be-be_bytes n (v / 256)))

-- Masks on a byte as arithmetic, checked at every value.
agree_below : (ℕ → Bool) → ℕ → Bool
agree_below p zero = true
agree_below p (suc n) = p n && agree_below p n

agree_below_at : (p : ℕ → Bool) (n i : ℕ) → agree_below p n ≡ true → i < n → p i ≡ true
unfolding agree_below
agree_below_at p zero i h l = elim l [ ]
agree_below_at p (suc n) i h l = ground (arith, agree_below_at p n i)

pub bit_and_31 : (b : ℕ) → b < 256 → bit_and b 0x1f ≡ b % 32
unfolding agree_below
bit_and_31 b h =
    (nat_eq_iff _ _).0 (agree_below_at (λ x. nat_eq (bit_and x 0x1f) (x % 32)) 256 b refl h)

bits_add_table : agree_below (λ x. nat_eq (bit_or (x / 32 * 32 % 256) (x % 32)) x) 256 ≡ true
unfolding agree_below
bits_add_table = refl

-- A type in the upper three bits of a byte, joined to the lower five.
pub bit_or_prefix :
    (major low : ℕ) → major < 8 → low < 32 → bit_or (major * 32 % 256) low ≡ major * 32 + low
bit_or_prefix major low h l =
    let x : ℕ = major * 32 + low in
    let hi : x / 32 ≡ major = omega arith in
    let lo : x % 32 ≡ low = omega arith in
    rw (hi, lo) at ((nat_eq_iff _ _).0 (agree_below_at _ 256 x bits_add_table (omega arith)))
