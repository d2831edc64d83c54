-- ===== src/Engineering.antt =====
-- The conversions of collector/automation.py between engineering values and raw register values.
-- A finite engineering value is a decimal in thousandths of its unit, which the source has as the
-- nearest float.
pub mod Fit
use lux_mon.Base.{
  ℕ, suc, ◌+◌, ◌*◌, ◌/◌, ◌%◌, Option, none, some, ltb, ◌==◌, if◌then◌else◌, ℤ, pos, negsuc,
  pos_part, neg_part, sub_ℕ, ltb_ℤ,
}
use lux_mon.Base.Float.{PyFloat, nearest, negated, round_ratio}
use lux_mon.Holding.Meta.{HoldingMeta}

-- k * z
unfoldable pub times : ℕ → ℤ → ℤ
times k z = sub_ℕ (k * pos_part z) (k * neg_part z)

-- A float of the source: a number in thousandths, an infinity, or not a number.
pub data Quantity : Type 0 where
  finite : ℤ → Quantity
  infinite minus_infinite nan : Quantity

-- `a / b` of floats that are not negative, where b is not 0; an infinity stays one.
abbrev pub divide : PyFloat → PyFloat → PyFloat
divide (PyFloat.finite (pos a) b) (PyFloat.finite (pos c) d) = nearest (a * d) (b * c)
divide x y = x

-- `int(round(x))`: to the nearest integer, and to the even one at a tie. It raises on what is not
-- finite.
abbrev pub round_float : PyFloat → Option ℕ
round_float (PyFloat.finite (pos n) d) = some (round_ratio n d)
round_float x = none

-- The rounded quotient of n thousandths by the scale, both of them floats.
unfoldable pub rounded_quotient : ℕ → ℕ → Option ℕ
rounded_quotient n steps = round_float (divide (nearest n 1000) (nearest 1 steps))

abbrev pub negate : Option ℕ → Option ℤ
negate none = none
negate (some n) = some (sub_ℕ 0 n)

abbrev pub positive : Option ℕ → Option ℤ
positive none = none
positive (some n) = some (pos n)

-- `_engineering_to_raw`: `int(round(value / scale))`. `round` raises on an infinity and on what is
-- not a number, and the source answers None. A division and a rounding do to a negative number what
-- they do to its absolute value.
unfoldable pub engineering_to_raw : Quantity → HoldingMeta → Option ℤ
engineering_to_raw (finite (pos n)) info = positive (rounded_quotient n info.steps)
engineering_to_raw (finite (negsuc n)) info = negate (rounded_quotient (suc n) info.steps)
engineering_to_raw infinite info = none
engineering_to_raw minus_infinite info = none
engineering_to_raw nan info = none

-- The product of a number and a float that is not negative.
abbrev pub multiply : ℕ → PyFloat → PyFloat
multiply n (PyFloat.finite (pos c) d) = nearest (n * c) d
multiply n x = x

-- `_raw_to_engineering`: `raw * scale`.
unfoldable pub raw_to_engineering : ℤ → HoldingMeta → PyFloat
raw_to_engineering (pos n) info = multiply n (nearest 1 info.steps)
raw_to_engineering (negsuc n) info = negated (multiply (suc n) (nearest 1 info.steps))

-- `max(a, b)` and `min(a, b)` of Python, on thousandths.
abbrev pub max_ℤ : ℤ → ℤ → ℤ
max_ℤ a b = if ltb_ℤ a b then b else a

abbrev pub min_ℤ : ℤ → ℤ → ℤ
min_ℤ a b = if ltb_ℤ b a then b else a

-- The two bounds on a number; every entry of the table has both.
unfoldable pub clamp : ℤ → HoldingMeta → ℤ
clamp value info = min_ℤ (max_ℤ value (times 1000 info.min)) (times 1000 info.max)

-- `_clamp_to_register`. No comparison with what is not a number holds, so both bounds leave it.
unfoldable pub clamp_to_register : Quantity → HoldingMeta → Quantity
clamp_to_register (finite value) info = finite (clamp value info)
clamp_to_register infinite info = finite (times 1000 info.max)
clamp_to_register minus_infinite info = finite (min_ℤ (times 1000 info.min) (times 1000 info.max))
clamp_to_register nan info = nan
