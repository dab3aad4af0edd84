-- ===== src/Prelude/Decimal.antt =====
-- `u64::to_string`: the decimal digits of a number.
use nerves_p2p.Prelude.Tests.{ltb, if◌then◌else◌}
use nerves_p2p.Prelude.Bytes.{Bytes}
use Prim.Native.Nat.{ℕ, zero, suc, ◌+◌, ◌-◌, ◌*◌, ◌/◌, ◌%◌, ◌<◌}
use mathlib.Core.Path.{◌≡◌, refl, ap}
use mathlib.Core.List.{[], ◌∷◌, ◌++◌}
use native.Mathlib.Omega.{arith}

-- The fuel bounds the count of digits, which is at most the number plus one.
digits : ℕ → ℕ → Bytes
digits zero n = []
digits (suc fuel) n =
    let front = digits fuel (n / 10) in
    if ltb n 10 then (48 + n) ∷ [] else front ++ ((48 + n % 10) ∷ [])

unfoldable pub decimal : ℕ → Bytes
unfolding digits
decimal n = digits (n + 1) n

value_onto : ℕ → Bytes → ℕ
value_onto acc [] = acc
value_onto acc (b ∷ bs) = value_onto (acc * 10 + (b - 48)) bs

value_onto-snoc :
    (acc : ℕ) (bs : Bytes) (b : ℕ)
    → value_onto acc (bs ++ (b ∷ [])) ≡ value_onto acc bs * 10 + (b - 48)
unfolding value_onto
value_onto-snoc acc [] b = refl
value_onto-snoc acc (x ∷ bs) b = value_onto-snoc (acc * 10 + (x - 48)) bs b

value_onto-digits : (fuel n : ℕ) → n < fuel → value_onto 0 (digits fuel n) ≡ n
unfolding digits value_onto
value_onto-digits zero n h = elim h [ ]
value_onto-digits (suc fuel) n h =
    ground (
      arith,
      value_onto-snoc 0 (digits fuel (n / 10)) (48 + n % 10),
      value_onto-digits fuel (n / 10),
    )

-- Different numbers have different texts.
pub decimal_injective : (n m : ℕ) → decimal n ≡ decimal m → n ≡ m
unfolding decimal
decimal_injective n m e =
    let a : value_onto 0 (decimal n) ≡ n = value_onto-digits (n + 1) n (omega arith) in
    let b : value_onto 0 (decimal m) ≡ m = value_onto-digits (m + 1) m (omega arith) in
    omega (arith, ap (value_onto 0) e, a, b)
