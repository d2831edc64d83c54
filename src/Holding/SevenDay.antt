-- ===== src/Holding/SevenDay.antt =====
-- The 7-day schedule registers 500-723, which collector/protocol.py generates by nested loops.
use Prim.Native.String.{String, ◌++◌ as str_append}
use lux_mon.Base.{ℕ, ◌+◌, ◌*◌, ◌-◌, List, [], ◌∷◌, ◌++◌, pos}
use lux_mon.Holding.Meta.{HoldingMeta, register}

abbrev pub days : List String
days = "mon" ∷ "tue" ∷ "wed" ∷ "thu" ∷ "fri" ∷ "sat" ∷ "sun" ∷ []

-- `_SCHEDULE_MODULES`, less the display unit.
abbrev pub schedule_modules : List (String × ℕ)
schedule_modules =
    ("ac_charge", 500)
    ∷ ("forced_charge", 556)
    ∷ ("forced_discharge", 612)
    ∷ ("peak_shaving", 668)
    ∷ []

-- The innermost body, for a period and its number as text.
abbrev pub period_registers : String → ℕ → String → ℕ → String → List (ℕ × HoldingMeta)
period_registers m day_base day period digit =
    let period_base = day_base + (period - 1) * 4 in
    let name = λ (field : String).
      str_append m
        (str_append "_schedule_" (str_append day (str_append "_p" (str_append digit field)))) in
    let caps : List String = "seven_day_schedule" ∷ [] in
    register (period_base + 0) (name "_power_soc") 1 (pos 0) (pos 65535) caps
    ∷ register (period_base + 1) (name "_voltage") 10 (pos 0) (pos 6000) caps
    ∷ register (period_base + 2) (name "_start") 1 (pos 0) (pos 15127) caps
    ∷ register (period_base + 3) (name "_end") 1 (pos 0) (pos 15127) caps
    ∷ []

-- `for day_idx, day in enumerate(_DAYS): for period in (1, 2): …`
abbrev pub day_registers : String → ℕ → ℕ → List String → List (ℕ × HoldingMeta)
day_registers m base day_idx [] = []
day_registers m base day_idx (day ∷ rest) =
    let day_base = base + day_idx * 8 in
    period_registers m day_base day 1 "1"
    ++ (period_registers m day_base day 2 "2" ++ day_registers m base (day_idx + 1) rest)

abbrev pub module_registers : List (String × ℕ) → List (ℕ × HoldingMeta)
module_registers [] = []
module_registers ((m, base) ∷ rest) = day_registers m base 0 days ++ module_registers rest

unfoldable pub seven_day_registers : List (ℕ × HoldingMeta)
seven_day_registers = module_registers schedule_modules
