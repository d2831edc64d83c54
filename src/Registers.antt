-- ===== src/Registers.antt =====
-- collector/registers.py: the input registers, and how a batch of raw values is decoded.
pub mod Def
pub mod Live
pub mod Extended
pub mod Sign
pub mod Pass
pub mod Decode
pub mod Batteries
use Prim.Native.String.{String}
use text.Mathlib.Text.{◌==◌ as str_eq}
use lux_mon.Base.{ℕ, zero, List, [], ◌∷◌, ◌++◌, Option, none, some, if◌then◌else◌, ℤ}
use lux_mon.Base.Dict.{lookup}
use lux_mon.Registers.Def.{RegisterDef, packed, decode}
use lux_mon.Registers.Live.{live_registers}
use lux_mon.Registers.Extended.{extended_registers}

-- `INPUT_REGISTERS` as it is written, before the battery blocks are merged into it.
unfoldable pub input_registers : List (ℕ × RegisterDef)
input_registers = live_registers ++ extended_registers

abbrev pub soh_register : RegisterDef
soh_register = (packed 5 "soh" 1000 0xff00 8).1

-- An entry of the result: `value`, `raw` and, for a pair, `raw_high`.
pub record Reading : Type 0 where
  pub value : ℤ
  pub raw : ℕ
  pub raw_high : Option ℕ

abbrev pub Result : Type 0
Result = List (String × Reading)

-- `result[key] = item`
unfoldable pub set_item : String → Reading → Result → Result
set_item key item [] = (key, item) ∷ []
set_item key item ((k, v) ∷ rest) =
    if str_eq k key then (k, item) ∷ rest else (k, v) ∷ set_item key item rest

-- `if reg_num in register_map: reg_def = register_map[reg_num]; …`
abbrev pub if_known :
    (RegisterDef → Option (String × Reading)) → Option RegisterDef → Option (String × Reading)
if_known entry none = none
if_known entry (some def) = entry def

abbrev pub simple_of : RegisterDef → ℕ → Option ℕ → Option (String × Reading)
simple_of def raw (some high) = none
simple_of def raw none =
    some (def.name, record { value = decode def raw 0; raw = raw; raw_high = none })

-- The body of the first pass: a simple register of the map gives an entry.
unfoldable pub simple_entry : List (ℕ × RegisterDef) → ℕ → ℕ → Option (String × Reading)
simple_entry register_map reg_num raw =
    if_known (λ def. simple_of def raw def.pair_high) (lookup reg_num register_map)

abbrev pub pair_with : RegisterDef → ℕ → Option ℕ → Option (String × Reading)
pair_with def raw none = none
pair_with def raw (some high_raw) =
    some (def.name, record { value = decode def raw high_raw; raw = raw; raw_high = some high_raw })

abbrev pub pair_of : List (ℕ × ℕ) → RegisterDef → ℕ → Option ℕ → Option (String × Reading)
pair_of reg_values def raw none = none
pair_of reg_values def raw (some high_reg) = pair_with def raw (lookup high_reg reg_values)

-- The body of the second pass: a low word whose high word is there gives an entry.
unfoldable pub pair_entry :
    List (ℕ × ℕ) → List (ℕ × RegisterDef) → ℕ → ℕ → Option (String × Reading)
pair_entry reg_values register_map reg_num raw =
    if_known (λ def. pair_of reg_values def raw def.pair_high) (lookup reg_num register_map)

abbrev pub store : Option (String × Reading) → Result → Result
store none result = result
store (some (key, item)) result = set_item key item result

-- `for reg_num, raw_val in reg_values.items(): …`
unfoldable pub pass : (ℕ → ℕ → Option (String × Reading)) → List (ℕ × ℕ) → Result → Result
pass entry [] result = result
pass entry ((reg_num, raw) ∷ rest) result = pass entry rest (store (entry reg_num raw) result)

abbrev pub soh_entry : Option ℕ → Option (String × Reading)
soh_entry none = none
soh_entry (some raw) =
    some ("soh", record { value = decode soh_register raw 0; raw = raw; raw_high = none })

unfoldable pub decode_registers : List (ℕ × ℕ) → List (ℕ × RegisterDef) → Result
decode_registers reg_values register_map = store (soh_entry (lookup 5 reg_values)) (
    pass (pair_entry reg_values register_map) reg_values
      (pass (simple_entry register_map) reg_values []))
