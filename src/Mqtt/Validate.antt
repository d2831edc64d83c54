-- ===== src/Mqtt/Validate.antt =====
-- `CONTROLLABLE_SETTINGS` and `_validate_and_convert` of collector/mqtt_commands.py.
pub mod Within
use Prim.Native.String.{String}
use text.Mathlib.Text.{◌==◌ as str_eq}
use lux_mon.Base.{
  ℕ, ◌+◌, ◌%◌, ◌/◌, List, [], ◌∷◌, map, Bool, true, false, ◌&&◌, ◌||◌, not, Option, none, some,
  if◌then◌else◌, ◌==◌, Outcome, ok, raised, value_error, ℤ, pos, negsuc, sub_ℕ, pos_part, neg_part,
}
use lux_mon.Base.Dict.{lookup_str, contains}
use lux_mon.Protocol.Frame.{Str}
use lux_mon.Automation.Condition.{same_text}
use lux_mon.Automation.Engine.{lower}
use lux_mon.Settings.Meta.{SettingType, setting_meta}
use lux_mon.Mqtt.Text.{codes}
use lux_mon.Base.Float.{PyFloat, finite, nan, infinity, minus_infinity}
use lux_mon.Mqtt.Number.{float_of, is_below, is_above}

unfoldable pub controllable_settings : List String
controllable_settings =
    "pv_max_power" ∷ "grid_max_power" ∷ "eps_max_power" ∷ "charge_max_power" ∷ "discharge_max_power"
    ∷ "battery_capacity" ∷ "battery_metric" ∷ "dashboard_refresh_sec" ∷ "chart_default_hours"
    ∷ "temperature_unit" ∷ "alerts_enabled" ∷ "alerts_soc_low" ∷ "alerts_soc_critical"
    ∷ "alerts_battery_temp_high" ∷ "alerts_inverter_temp_high" ∷ "alerts_grid_lost_threshold_sec"
    ∷ "alerts_email_enabled" ∷ "alerts_email_smtp_host" ∷ "alerts_email_smtp_port"
    ∷ "alerts_email_username" ∷ "alerts_email_password" ∷ "alerts_email_from" ∷ "alerts_email_to"
    ∷ "alerts_email_tls" ∷ "alerts_webhook_enabled" ∷ "alerts_webhook_url" ∷ []

-- Why a value is rejected.
pub data Problem : Type 0 where
  not_a_float too_low too_high not_an_option not_a_boolean : Problem

-- The converted value: the text itself, or what `str` makes of an integer, a float or a Boolean.
pub data Converted : Type 0 where
  kept : String → Converted
  int_text : ℤ → Converted
  float_text : PyFloat → Converted
  bool_text : Bool → Converted

-- The result of the validation: the value, or the problem.
pub data Verdict : Type 0 where
  accepted : Converted → Verdict
  rejected : Problem → Verdict

-- `step is not None and step == int(step)`
abbrev pub whole_step : Option ℤ → Bool
whole_step none = false
whole_step (some z) = (pos_part z + neg_part z) % 1000000 == 0

-- `float(raw) == int(float(raw))`, and the integer; `int` raises on nan, and on an infinity, where the
-- exception is an OverflowError, which no one catches either.
abbrev pub int_or_float : PyFloat → Outcome Verdict
int_or_float (finite (pos n) d) =
    ok (accepted (if n % d == 0 then int_text (pos (n / d)) else float_text (finite (pos n) d)))
int_or_float (finite (negsuc n) d) = ok (
    accepted (
      if (n + 1) % d == 0
      then int_text (sub_ℕ 0 ((n + 1) / d))
      else float_text (finite (negsuc n) d)))
int_or_float nan = raised value_error
int_or_float infinity = raised value_error
int_or_float minus_infinity = raised value_error

abbrev pub below_min : PyFloat → Option ℤ → Bool
below_min value none = false
below_min value (some mn) = is_below value mn

abbrev pub above_max : PyFloat → Option ℤ → Bool
above_max value none = false
above_max value (some mx) = is_above value mx

abbrev pub validate_number : Option ℤ → Option ℤ → Option ℤ → Option PyFloat → Outcome Verdict
validate_number mn mx step none = ok (rejected not_a_float)
validate_number mn mx step (some value) =
    if below_min value mn
    then ok (rejected too_low)
    else if above_max value mx
    then ok (rejected too_high)
    else if whole_step step
    then int_or_float value
    else ok (accepted (float_text value))

abbrev pub is_word : Str → Str → Bool
is_word text word = same_text (map lower text) word

-- "true", "1" and "on", and "false", "0" and "off"
abbrev pub is_true_word : Str → Bool
is_true_word text =
    is_word text (116 ∷ 114 ∷ 117 ∷ 101 ∷ [])
    || is_word text (49 ∷ [])
    || is_word text (111 ∷ 110 ∷ [])

abbrev pub is_false_word : Str → Bool
is_false_word text =
    is_word text (102 ∷ 97 ∷ 108 ∷ 115 ∷ 101 ∷ [])
    || is_word text (48 ∷ [])
    || is_word text (111 ∷ 102 ∷ 102 ∷ [])

unfoldable pub validate_type : Option SettingType → String → Outcome Verdict
validate_type none raw = ok (accepted (kept raw))
validate_type (some (SettingType.number mn mx step)) raw =
    validate_number mn mx step (float_of (codes raw))
validate_type (some (SettingType.select options)) raw =
    if contains raw options then ok (accepted (kept raw)) else ok (rejected not_an_option)
validate_type (some SettingType.checkbox) raw =
    if is_true_word (codes raw)
    then ok (accepted (bool_text true))
    else if is_false_word (codes raw)
    then ok (accepted (bool_text false))
    else ok (rejected not_a_boolean)
validate_type (some SettingType.text) raw = ok (accepted (kept raw))

-- `_validate_and_convert`
unfoldable pub validate_and_convert : String → String → Outcome Verdict
validate_and_convert name raw = validate_type (lookup_str name setting_meta) raw
