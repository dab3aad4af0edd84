-- ===== src/Prelude/Ipv4.antt =====
-- `std::net::Ipv4Addr`: its text, read and written.
use nerves_p2p.Prelude.Tests.{leb, ltb, nat_eq, if◌then◌else◌}
use nerves_p2p.Prelude.Lists.{length, all}
use nerves_p2p.Prelude.Bytes.{Bytes, text}
use nerves_p2p.Prelude.Text.{is_ascii_digit}
use nerves_p2p.Prelude.Decimal.{decimal}
use Prim.Native.Nat.{ℕ, ◌+◌, ◌-◌, ◌*◌}
use mathlib.Core.Bool.{Bool, false, not, ◌&&◌}
use mathlib.Core.Option.{Option, none, some}
use mathlib.Core.List.{List, [], ◌∷◌, ◌++◌}

-- `str::split` at an ASCII character; `front` is the piece that is being read.
unfoldable pub split_from : ℕ → Bytes → Bytes → List Bytes
split_from c front [] = front ∷ []
split_from c front (b ∷ bs) =
    let later = split_from c [] bs in
    let longer = split_from c (front ++ (b ∷ [])) bs in if nat_eq b c then front ∷ later else longer

unfoldable pub from_decimal : ℕ → Bytes → ℕ
from_decimal acc [] = acc
from_decimal acc (b ∷ bs) = from_decimal (acc * 10 + (b - 48)) bs

unfoldable pub leading_zero : Bytes → Bool
leading_zero [] = false
leading_zero (b ∷ bs) = nat_eq b b'0' && ltb 0 (length bs)

-- One to three digits with no leading zero, of a number that fits a byte.
unfoldable pub parse_octet : Bytes → Option ℕ
unfolding from_decimal leading_zero
parse_octet t =
    if (ltb 0 (length t) && leb (length t) 3)
      && (all is_ascii_digit t && (not (leading_zero t) && leb (from_decimal 0 t) 255))
    then some (from_decimal 0 t)
    else none

unfoldable pub octets : List (Option ℕ) → Option Bytes
octets (some a ∷ some b ∷ some c ∷ some d ∷ []) = some (a ∷ b ∷ c ∷ d ∷ [])
octets _ = none

unfoldable pub parse_octets : List Bytes → List (Option ℕ)
unfolding parse_octet
parse_octets [] = []
parse_octets (t ∷ ts) = parse_octet t ∷ parse_octets ts

-- `Ipv4Addr::from_str`, as its four octets.
unfoldable pub parse_ipv4 : Bytes → Option Bytes
unfolding octets parse_octets split_from
parse_ipv4 t = octets (parse_octets (split_from b'.' [] t))

-- `Ipv4Addr::to_string` of four octets.
unfoldable pub ipv4_text : Bytes → Bytes
ipv4_text [] = []
ipv4_text (a ∷ []) = decimal a
ipv4_text (a ∷ b ∷ bs) = decimal a ++ (text "." ++ ipv4_text (b ∷ bs))
