-- ===== src/Mqtt/Validate/Within.antt =====
-- Which numbers pass the validation.
use Prim.Native.String.{String}
use lux_mon.Base.{
  ℕ, ◌≡◌, false, Option, some, Outcome, ok, ℤ, ◌≤ℤ◌, ltb_ℤ, Bool-cases, inl, inr, ltb→ge,
}
use lux_mon.Engineering.{times}
use lux_mon.Settings.Meta.{SettingType}
use lux_mon.Mqtt.Text.{codes}
use lux_mon.Base.Float.{finite}
use lux_mon.Mqtt.Number.{float_of, below, literal, is_below, is_above}
use lux_mon.Mqtt.Validate.{accepted, rejected, Converted, Problem, validate_type}

ltb_ℤ-ge : (a b : ℤ) → ltb_ℤ a b ≡ false → b ≤ℤ a
ltb_ℤ-ge a b h = ltb→ge _ _ h

rejected-accepted : (v : Converted) (p : Problem) → Outcome.ok (rejected p) ≡ ok (accepted v) → ⊥
rejected-accepted v p q = cc

-- A text that `float` reads as a finite number n / d, and that is accepted for a setting with bounds,
-- has that number between the floats of the bounds, a / b and c / e, both included.
pub validate_type-Within :
    (mn mx : ℤ) (step : Option ℤ) (raw : String) (n a c : ℤ) (d b e : ℕ) (v : Converted)
    → literal mn ≡ finite a b
    → literal mx ≡ finite c e
    → float_of (codes raw) ≡ some (finite n d)
    → validate_type (some (SettingType.number (some mn) (some mx) step)) raw ≡ ok (accepted v)
    → (times d a ≤ℤ times b n) × (times e n ≤ℤ times d c)
unfolding validate_type is_below is_above below
validate_type-Within mn mx step raw n a c d b e v lo hi f h =
    elim (Bool-cases (ltb_ℤ (times b n) (times d a))) [
      | inl t ↦ absurd (rejected-accepted v _ (rw (f, lo, t) at h))
      | inr low ↦ elim (Bool-cases (ltb_ℤ (times d c) (times e n))) [
        | inl t ↦ absurd (rejected-accepted v _ (rw (f, lo, hi, low, t) at h))
        | inr high ↦ (ltb_ℤ-ge (times b n) (times d a) low, ltb_ℤ-ge (times d c) (times e n) high)
      ]
    ]
