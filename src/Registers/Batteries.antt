-- ===== src/Registers/Batteries.antt =====
-- The battery blocks of collector/registers.py: `BATTERY_REGISTERS`, the whole `INPUT_REGISTERS`, and
-- `decode_battery_serial`. A battery index is not 0, and a serial number is ASCII text.
use Prim.Native.String.{String, ◌++◌ as str_append}
use mathlib.Core.Option
use lux_mon.Base.{ℕ, zero, suc, ◌+◌, ◌-◌, ◌*◌, ◌/◌, ◌%◌, List, [], ◌∷◌, ◌++◌, ◌==◌, if◌then◌else◌}
use lux_mon.Base.Dict.{lookup, update_items}
use lux_mon.Protocol.Frame.{Str}
use lux_mon.Automation.Clock.{strip, reversed}
use lux_mon.Rs485.Fields.{number_text}
use lux_mon.Registers.Def.{RegisterDef, plain, signed, packed}
use lux_mon.Registers.{input_registers}

abbrev pub battery_start : ℕ
battery_start = 5000

abbrev pub battery_block_size : ℕ
battery_block_size = 30

abbrev pub battery_count : ℕ
battery_count = 8

-- `BATTERY_START + (batt - 1) * BATTERY_BLOCK_SIZE`
abbrev pub battery_base : ℕ → ℕ
battery_base batt = battery_start + (batt - 1) * battery_block_size

-- `f"battery_{batt}_{suffix}"`
abbrev pub battery_name : ℕ → String → String
battery_name batt suffix =
    str_append "battery_" (str_append (number_text batt) (str_append "_" suffix))

unfoldable pub battery_defs : ℕ → List (ℕ × RegisterDef)
battery_defs batt =
    let base : ℕ = battery_base batt in
    plain (base + 3) (battery_name batt "capacity") 1000
    ∷ plain (base + 5) (battery_name batt "max_charge_current") 100
    ∷ plain (base + 6) (battery_name batt "max_discharge_current") 100
    ∷ plain (base + 8) (battery_name batt "voltage") 10
    ∷ signed (base + 9) (battery_name batt "current") 100
    ∷ packed (base + 10) (battery_name batt "soc") 1000 0xff 0
    ∷ plain (base + 11) (battery_name batt "cycle_count") 1000
    ∷ plain (base + 12) (battery_name batt "max_cell_temp") 100
    ∷ plain (base + 13) (battery_name batt "min_cell_temp") 100
    ∷ plain (base + 14) (battery_name batt "max_cell_voltage") 1
    ∷ plain (base + 15) (battery_name batt "min_cell_voltage") 1
    ∷ packed (base + 16) (battery_name batt "max_temp_cell") 1000 0xff00 8
    ∷ packed (base + 17) (battery_name batt "max_voltage_cell") 1000 0xff00 8
    ∷ plain (base + 18) (battery_name batt "firmware") 1000
    ∷ []

-- `for i in range(14): …`, with the registers that are left.
unfoldable pub serial_defs : ℕ → ℕ → ℕ → List (ℕ × RegisterDef)
serial_defs zero i batt = []
serial_defs (suc left) i batt =
    plain (battery_base batt + 19 + i) (battery_name batt (str_append "serial_" (number_text i)))
      1000
    ∷ serial_defs left (i + 1) batt

-- `for batt in range(1, BATTERY_COUNT + 1): …`, with the batteries that are left.
unfoldable pub battery_blocks : ℕ → ℕ → List (ℕ × RegisterDef)
battery_blocks zero batt = []
battery_blocks (suc left) batt =
    battery_defs batt ++ serial_defs 14 0 batt ++ battery_blocks left (batt + 1)

-- `BATTERY_REGISTERS`, where no key occurs twice.
unfoldable pub battery_registers : List (ℕ × RegisterDef)
battery_registers = battery_blocks battery_count 1

-- `INPUT_REGISTERS.update(BATTERY_REGISTERS)`
unfoldable pub all_input_registers : List (ℕ × RegisterDef)
all_input_registers = update_items battery_registers input_registers

unfoldable pub serial_chars : ℕ → ℕ → ℕ → List (ℕ × ℕ) → Str
serial_chars zero i base reg_values = []
serial_chars (suc left) i base reg_values =
    let raw : ℕ = Option.get_or (lookup (base + 19 + i) reg_values) 0 in
    raw / 256 % 256 ∷ raw % 256 ∷ serial_chars left (i + 1) base reg_values

-- `rstrip("\x00")`, on the reversed text
unfoldable pub drop_zeros : Str → Str
drop_zeros [] = []
drop_zeros (c ∷ cs) = let rest = drop_zeros cs in if c == 0 then rest else c ∷ cs

-- `decode_battery_serial`
unfoldable pub decode_battery_serial : List (ℕ × ℕ) → ℕ → Str
decode_battery_serial reg_values battery_index = strip (
    reversed (drop_zeros (reversed (serial_chars 14 0 (battery_base battery_index) reg_values) []))
      [])
