-- ===== src/Mqtt/Number.antt =====
-- What the validation of settings uses of Python's `float`: texts are read as decimals, with exponents
-- and underscores, and rounded to the nearest binary64 number. A text that is not ASCII is outside the
-- model.
use lux_mon.Base.{
  ℕ, ◌^◌, negsuc, ◌+◌, ◌-◌, ◌*◌, [], ◌∷◌, map, Bool, true, false, ◌&&◌, ◌||◌, not, Option, none,
  some, if◌then◌else◌, ◌==◌, ltb_ℤ, ℤ, pos,
}
use lux_mon.Base.Float.{PyFloat, finite, nan, infinity, minus_infinity, nearest, negated}
use lux_mon.Protocol.Frame.{Str}
use lux_mon.Engineering.{times}
use lux_mon.Automation.Clock.{and_then_some, is_digit, strip}
use lux_mon.Automation.Condition.{same_text}
use lux_mon.Automation.Engine.{lower}

-- The digits of an exponent; an underscore stands between two digits. `prev` is 1 behind a digit, 2
-- behind an underscore, and else 0.
unfoldable pub exponent_digits : ℕ → ℕ → Str → Option ℕ
exponent_digits value prev [] = if prev == 1 then some value else none
exponent_digits value prev (c ∷ cs) =
    let digit = is_digit c in
    let rest =
      exponent_digits (if digit then value * 10 + (c - 48) else value) (if digit then 1 else 2)
        cs in
    if digit || (c == 95 && prev == 1) then rest else none

-- The number with its digits times ten to the exponent.
abbrev pub raised_by : ℕ → ℕ → Option ℕ → Option (ℕ × ℕ)
raised_by n d none = none
raised_by n d (some e) = some (n * 10 ^ e, d)

abbrev pub lowered_by : ℕ → ℕ → Option ℕ → Option (ℕ × ℕ)
lowered_by n d none = none
lowered_by n d (some e) = some (n, d * 10 ^ e)

unfoldable pub with_exponent : ℕ → ℕ → Str → Option (ℕ × ℕ)
with_exponent n d [] = none
with_exponent n d (c ∷ cs) =
    if c == 45
    then lowered_by n d (exponent_digits 0 0 cs)
    else if c == 43
    then raised_by n d (exponent_digits 0 0 cs)
    else raised_by n d (exponent_digits 0 0 (c ∷ cs))

-- The digits, with a point at most, and the exponent of a number: its numerator and its denominator.
unfoldable pub decimal : ℕ → ℕ → Bool → Bool → ℕ → Str → Option (ℕ × ℕ)
decimal value den seen after_point prev [] =
    if seen && not (prev == 2) then some (value, den) else none
decimal value den seen after_point prev (c ∷ cs) =
    let digit = is_digit c in
    let rest =
      decimal (if digit then value * 10 + (c - 48) else value)
        (if digit && after_point then den * 10 else den) (seen || digit) (after_point || c == 46)
        (if digit then 1 else if c == 95 then 2 else 0) cs in
    if digit || (c == 46 && not after_point && not (prev == 2)) || (c == 95 && prev == 1)
    then rest
    else if (c == 101 || c == 69) && seen && not (prev == 2)
    then with_exponent value den cs
    else none

-- A text without a sign: nan, inf, infinity, or a number.
unfoldable pub unsigned : Str → Option PyFloat
unsigned text =
    let word = map lower text in
    if same_text word (110 ∷ 97 ∷ 110 ∷ [])
    then some nan
    else if same_text word (105 ∷ 110 ∷ 102 ∷ [])
    then some infinity
    else if same_text word (105 ∷ 110 ∷ 102 ∷ 105 ∷ 110 ∷ 105 ∷ 116 ∷ 121 ∷ [])
    then some infinity
    else and_then_some (decimal 0 1 false false 0 text) (λ (n, d). some (nearest n d))

unfoldable pub with_sign : Str → Option PyFloat
with_sign [] = none
with_sign (c ∷ cs) =
    if c == 45
    then and_then_some (unsigned cs) (λ x. some (negated x))
    else if c == 43
    then unsigned cs
    else unsigned (c ∷ cs)

-- `float(raw)`, none where it raises
unfoldable pub float_of : Str → Option PyFloat
float_of text = with_sign (strip text)

-- `a < b` of floats
unfoldable pub below : PyFloat → PyFloat → Bool
below (finite n d) (finite m e) = ltb_ℤ (times e n) (times d m)
below (finite n d) infinity = true
below (finite n d) minus_infinity = false
below (finite n d) nan = false
below minus_infinity (finite m e) = true
below minus_infinity infinity = true
below minus_infinity minus_infinity = false
below minus_infinity nan = false
below infinity b = false
below nan b = false

-- The float that a literal of so many millionths denotes. An integer literal of a limit is a float too.
unfoldable pub literal : ℤ → PyFloat
literal (pos n) = nearest n 1000000
literal (negsuc n) = negated (nearest (n + 1) 1000000)

-- `value < limit` and `value > limit`
unfoldable pub is_below : PyFloat → ℤ → Bool
is_below value limit = below value (literal limit)

unfoldable pub is_above : PyFloat → ℤ → Bool
is_above value limit = below (literal limit) value
