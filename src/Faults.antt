-- ===== src/Faults.antt =====
-- collector/fault_codes.py: the tables of fault and warning codes, and what a raw code is read as.
pub mod Bits
use Prim.Native.String.{String, ◌++◌}
use Prim.Native.Nat.{bit_and}
use text.Mathlib.Text.{◌==◌ as str_eq}
use lux_mon.Base.{ℕ, zero, suc, ◌+◌, ◌^◌, Option, none, some, List, [], ◌∷◌, ◌==◌, if◌then◌else◌}
use lux_mon.Base.Dict.{lookup}

abbrev pub fault_codes : List (ℕ × String)
fault_codes =
    (0, "Internal communication failure 1")
    ∷ (1, "Model fault")
    ∷ (8, "Parallel CAN communication failure")
    ∷ (9, "The host is missing")
    ∷ (10, "Inconsistent rated power")
    ∷ (11, "Inconsistent AC or safety settings")
    ∷ (12, "UPS short circuit")
    ∷ (13, "UPS reverse current")
    ∷ (14, "BUS short circuit")
    ∷ (15, "Abnormal phase in three-phase system")
    ∷ (16, "Relay failure")
    ∷ (17, "Internal communication failure 2")
    ∷ (18, "Internal communication failure 3")
    ∷ (19, "BUS overvoltage")
    ∷ (20, "EPS connection fault")
    ∷ (21, "PV overvoltage")
    ∷ (22, "Overcurrent protection")
    ∷ (23, "Neutral fault")
    ∷ (24, "PV short circuit")
    ∷ (25, "Heatsink temperature out of range")
    ∷ (26, "Internal failure")
    ∷ (27, "Consistency failure")
    ∷ (28, "Inconsistent generator connection")
    ∷ (29, "Parallel sync signal loss")
    ∷ (31, "Internal communication failure 4")
    ∷ []

abbrev pub warning_codes : List (ℕ × String)
warning_codes =
    (0, "Battery communication failed")
    ∷ (1, "AFCI communication failure")
    ∷ (2, "Battery low temperature")
    ∷ (3, "Meter communication failed")
    ∷ (4, "Battery cannot be charged/discharged")
    ∷ (5, "Automated test failed")
    ∷ (6, "RSD active")
    ∷ (7, "LCD communication failure")
    ∷ (8, "Software version mismatch")
    ∷ (9, "Fan is stuck")
    ∷ (10, "Grid overload")
    ∷ (11, "Parallel secondaries exceed limit")
    ∷ (12, "Battery reverse MOS abnormal")
    ∷ (13, "Radiator temperature out of range")
    ∷ (14, "Multiple primary units in parallel")
    ∷ (15, "Battery reverse")
    ∷ (16, "No grid connection")
    ∷ (17, "Grid voltage out of range")
    ∷ (18, "Grid frequency out of range")
    ∷ (20, "Insulation resistance low")
    ∷ (21, "Leakage current too high")
    ∷ (22, "DCI exceeded standard")
    ∷ (23, "PV short circuit")
    ∷ (25, "Battery overvoltage")
    ∷ (26, "Battery undervoltage")
    ∷ (27, "Battery open circuit")
    ∷ (28, "EPS overload")
    ∷ (29, "EPS voltage high")
    ∷ (30, "Meter reversed")
    ∷ (31, "DCV exceeded standard")
    ∷ []

-- `if name: names.append(name)`
abbrev pub add_name : Option String → List String → List String
add_name none names = names
add_name (some name) names = if str_eq name "" then names else name ∷ names

-- The loop over the bits, from `bit` on, `count` of them.
unfoldable pub named_bits : ℕ → List (ℕ × String) → ℕ → ℕ → List String
named_bits value table bit zero = []
named_bits value table bit (suc count) =
    let names = named_bits value table (bit + 1) count in
    if bit_and value (2 ^ bit) == 0 then names else add_name (lookup bit table) names

unfoldable pub decode_bits : Option ℕ → List (ℕ × String) → List String
decode_bits none table = []
decode_bits (some value) table =
    if value == 0
    then []
    else elim (lookup value table) [ some name ↦ name ∷ [] | none ↦ named_bits value table 0 32 ]

unfoldable pub decode_fault_code : Option ℕ → List String
decode_fault_code value = decode_bits value fault_codes

unfoldable pub decode_warning_code : Option ℕ → List String
decode_warning_code value = decode_bits value warning_codes

-- `", ".join(names)`
unfoldable pub join_names : List String → String
join_names [] = ""
join_names (name ∷ []) = name
join_names (name ∷ name' ∷ names) = name ++ ", " ++ join_names (name' ∷ names)

unfoldable pub fault_code_text : Option ℕ → String
fault_code_text value = join_names (decode_fault_code value)

unfoldable pub warning_code_text : Option ℕ → String
warning_code_text value = join_names (decode_warning_code value)
