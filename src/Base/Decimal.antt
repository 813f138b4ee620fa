-- ===== src/Base/Decimal.antt =====
-- Python's finite `Decimal`: a whole coefficient with its digits after the point. The ledger's columns
-- keep four, so rounding to the column's scale gives a whole number of ticks.
use Prim.Native.Nat.{ℕ, suc, ◌+◌, ◌-◌, ◌*◌, ◌/◌, ◌^◌, max}
use mathlib.Core.Bool.{Bool}
use cs.Base.Tests.{leb, if◌then◌else◌}
use cs.Base.Int.{ℤ, pos, negsuc, neg, ◌+ℤ◌, ◌*ℤ◌, eqb_ℤ, ltb_ℤ}

pub record Decimal : Type 0 where
  pub coefficient : ℤ
  pub places : ℕ

-- An amount at the column's scale.
abbrev pub of_ticks : ℤ → Decimal
of_ticks n = record { coefficient = n; places = 4 }

abbrev pub zero_decimal : Decimal
zero_decimal = of_ticks (pos 0)

-- `a + b`, which no amount is large enough to round.
unfoldable pub add_decimal : Decimal → Decimal → Decimal
add_decimal a b =
    let places = max a.places b.places in
    record {
      coefficient =
          (10 ^ (places - a.places)) *ℤ a.coefficient
          +ℤ (10 ^ (places - b.places)) *ℤ b.coefficient;
      places = places;
    }

abbrev pub is_zero : Decimal → Bool
is_zero a = eqb_ℤ a.coefficient (pos 0)

abbrev pub is_negative : Decimal → Bool
is_negative a = ltb_ℤ a.coefficient (pos 0)

-- n / d, a half away from zero.
unfoldable pub half_up : ℤ → ℕ → ℤ
half_up (pos n) d = pos ((2 * n + d) / (2 * d))
half_up (negsuc n) d = neg (pos ((2 * suc n + d) / (2 * d)))

-- `quantize(_QUANTUM, rounding=ROUND_HALF_UP)`, as ticks
unfoldable pub quantize : Decimal → ℤ
unfolding half_up
quantize a =
    if leb a.places 4
    then (10 ^ (4 - a.places)) *ℤ a.coefficient
    else half_up a.coefficient (10 ^ (a.places - 4))
