-- ===== src/Prelude/Text.antt =====
-- `str`: its bytes, when they are UTF-8, and the character classes of ASCII.
use nerves_p2p.Prelude.Tests.{ltb, leb, nat_eq, if◌then◌else◌}
use nerves_p2p.Prelude.Bytes.{Bytes}
use Prim.Native.Nat.{ℕ, zero, suc}
use mathlib.Core.Bool.{Bool, false, ◌&&◌, ◌||◌}
use mathlib.Core.Option
use mathlib.Core.Option.{Option, none, some}
use mathlib.Core.List.{[], ◌∷◌}

abbrev pub between : ℕ → ℕ → ℕ → Bool
between lo hi b = leb lo b && leb b hi

-- What the validator of UTF-8 waits for: how many continuation bytes, and the range of the next.
pub record Waits : Type 0 where
  pub more : ℕ
  pub lo : ℕ
  pub hi : ℕ

abbrev wait : ℕ → ℕ → ℕ → Option Waits
wait n lo hi = some (record { more = n; lo = lo; hi = hi })

-- A byte that begins a character, by the table of well-formed UTF-8 sequences.
lead : ℕ → Option Waits
lead b =
    if ltb b 0x80
    then wait 0 0 0
    else if between 0xc2 0xdf b
    then wait 1 0x80 0xbf
    else if nat_eq b 0xe0
    then wait 2 0xa0 0xbf
    else if between 0xe1 0xec b
    then wait 2 0x80 0xbf
    else if nat_eq b 0xed
    then wait 2 0x80 0x9f
    else if between 0xee 0xef b
    then wait 2 0x80 0xbf
    else if nat_eq b 0xf0
    then wait 3 0x90 0xbf
    else if between 0xf1 0xf3 b
    then wait 3 0x80 0xbf
    else if nat_eq b 0xf4
    then wait 3 0x80 0x8f
    else none

utf8_step : ℕ → ℕ → ℕ → ℕ → Option Waits
unfolding lead
utf8_step zero lo hi b = lead b
utf8_step (suc n) lo hi b = if between lo hi b then wait n 0x80 0xbf else none

utf8_run : Waits → Bytes → Bool
unfolding utf8_step
utf8_run w [] = nat_eq w.more 0
utf8_run w (b ∷ bs) = elim (utf8_step w.more w.lo w.hi b) [
  | none ↦ false
  | some w' ↦ utf8_run w' bs
]

-- `std::str::from_utf8(bs).is_ok()`.
unfoldable pub is_utf8 : Bytes → Bool
unfolding utf8_run
is_utf8 bs = utf8_run (record { more = 0; lo = 0; hi = 0 }) bs

abbrev pub is_ascii_lowercase : ℕ → Bool
is_ascii_lowercase b = between b'a' b'z' b

abbrev pub is_ascii_digit : ℕ → Bool
is_ascii_digit b = between b'0' b'9' b

abbrev pub is_ascii_alphanumeric : ℕ → Bool
is_ascii_alphanumeric b = is_ascii_lowercase b || (between b'A' b'Z' b || is_ascii_digit b)

-- `str::contains` of an ASCII character.
unfoldable pub contains : Bytes → ℕ → Bool
contains [] c = false
contains (b ∷ bs) c = nat_eq b c || contains bs c

-- `str::split_once` at an ASCII character.
unfoldable pub split_once : Bytes → ℕ → Option (Bytes × Bytes)
split_once [] c = none
split_once (b ∷ bs) c =
    if nat_eq b c then some ([], bs) else Option.map (λ p. (b ∷ p.0, p.1)) (split_once bs c)
