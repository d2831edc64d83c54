-- ===== src/Rs485/Eg4/Words.antt =====
-- The words of a status block as texts: `_decode_status`, `_decode_warnings`, `_decode_protection` and
-- `_decode_error` of collector/rs485/eg4_bms.py.
use Prim.Native.String.{String, ◌++◌ as str_append}
use Prim.Native.Nat.{bit_and}
use text.Mathlib.Text.{◌==◌ as str_eq}
use lux_mon.Base.{
  ℕ, zero, suc, ◌/◌, ◌%◌, List, [], ◌∷◌, Option, none, some, ltb, ◌==◌, if◌then◌else◌,
}
use lux_mon.Base.Dict.{lookup}
use lux_mon.Rs485.Fields.{digit}

-- `str(n)`, of a number with so many digits at most.
unfoldable pub digits_text : ℕ → ℕ → String
digits_text zero n = ""
digits_text (suc count) n =
    let front = digits_text count (n / 10) in
    if ltb n 10 then digit n else str_append front (digit (n % 10))

-- `f"Unknown({n})"`, of a word
abbrev pub unknown : ℕ → String
unknown n = str_append "Unknown(" (str_append (digits_text 5 n) ")")

abbrev pub states : List (ℕ × String)
states =
    (0, "Standby")
    ∷ (1, "Charging")
    ∷ (2, "Discharging")
    ∷ (4, "Protect")
    ∷ (8, "Charging Limited")
    ∷ []

abbrev pub state_or_unknown : ℕ → Option String → String
state_or_unknown state none = unknown state
state_or_unknown state (some name) = name

unfoldable pub decode_status : ℕ → String
decode_status status =
    let state = bit_and status 0x000f in
    str_append (if bit_and status 0x8000 == 0 then "" else "Heating+")
      (state_or_unknown state (lookup state states))

abbrev pub warning_flags : List (ℕ × String)
warning_flags =
    (0x0001, "Pack OV")
    ∷ (0x0002, "Cell OV")
    ∷ (0x0004, "Pack UV")
    ∷ (0x0008, "Cell UV")
    ∷ (0x0010, "Charge OC")
    ∷ (0x0020, "Discharge OC")
    ∷ (0x0040, "Abnormal Temp")
    ∷ (0x0080, "MOS Overheat")
    ∷ (0x0100, "Charge OT")
    ∷ (0x0200, "Discharge OT")
    ∷ (0x0400, "Charge UT")
    ∷ (0x0800, "Discharge UT")
    ∷ (0x1000, "Low Capacity")
    ∷ (0x2000, "Float Stopped")
    ∷ []

abbrev pub protection_flags : List (ℕ × String)
protection_flags =
    (0x0001, "Pack OV")
    ∷ (0x0002, "Cell OV")
    ∷ (0x0004, "Pack UV")
    ∷ (0x0008, "Cell UV")
    ∷ (0x0010, "Charge OC")
    ∷ (0x0020, "Discharge OC")
    ∷ (0x0040, "Abnormal Temp")
    ∷ (0x0080, "MOS Overheat")
    ∷ (0x0100, "Charge OT")
    ∷ (0x0200, "Discharge OT")
    ∷ (0x0400, "Charge UT")
    ∷ (0x0800, "Discharge UT")
    ∷ (0x1000, "Low Capacity")
    ∷ (0x2000, "Discharge SC")
    ∷ []

abbrev pub error_flags : List (ℕ × String)
error_flags =
    (0x0001, "Voltage Error")
    ∷ (0x0002, "Temperature Error")
    ∷ (0x0004, "Current Flow Error")
    ∷ (0x0010, "Cell Unbalance")
    ∷ []

-- `name for bit, name in flags if word & bit`
unfoldable pub flag_names : List (ℕ × String) → ℕ → List String
flag_names [] word = []
flag_names ((bit, name) ∷ flags) word =
    let names = flag_names flags word in if bit_and word bit == 0 then names else name ∷ names

-- `"; ".join(names)`
unfoldable pub joined : List String → String
joined [] = ""
joined (name ∷ []) = name
joined (name ∷ (next ∷ names)) = str_append name (str_append "; " (joined (next ∷ names)))

abbrev pub or_unknown : String → ℕ → String
or_unknown text word = if str_eq text "" then unknown word else text

unfoldable pub decode_flags : List (ℕ × String) → ℕ → String
decode_flags flags word =
    if word == 0 then "None" else or_unknown (joined (flag_names flags word)) word

unfoldable pub decode_warnings : ℕ → String
decode_warnings warnings = decode_flags warning_flags warnings

unfoldable pub decode_protection : ℕ → String
decode_protection protection = decode_flags protection_flags protection

unfoldable pub decode_error : ℕ → String
decode_error error = decode_flags error_flags error
