-- ===== src/Drivers.antt =====
-- collector/drivers: the drivers of the inverter models, and the registry that finds them. Labels and
-- the driver's functions, which all decode by the driver's own map, are left out.
pub mod Kpv18
pub mod Named
use Prim.Native.String.{String}
use text.Mathlib.Text.{◌==◌ as str_eq}
use lux_mon.Base.{
  ℕ, ◌+◌, max, List, [], ◌∷◌, ◌++◌, Option, none, some, Outcome, ok, raised, value_error,
  if◌then◌else◌,
}
use lux_mon.Base.Dict.{lookup_str}
use lux_mon.Registers.Def.{RegisterDef}
use lux_mon.Registers.{Result, decode_registers}
use lux_mon.Registers.Batteries.{all_input_registers}
use lux_mon.Drivers.Kpv18.{registers_18kpv}

pub record ModelDriver : Type 0 where
  pub name : String
  pub input_registers : List (ℕ × RegisterDef)
  pub batches : List (ℕ × ℕ)

-- `max(self.input_registers.keys()) + 1 if self.input_registers else 0`
unfoldable pub registers_end : List (ℕ × RegisterDef) → ℕ
registers_end [] = 0
registers_end ((address, def) ∷ defs) = max (address + 1) (registers_end defs)

unfoldable pub total_registers : ModelDriver → ℕ
total_registers d = registers_end d.input_registers

-- The drivers' `decode`
unfoldable pub driver_decode : ModelDriver → List (ℕ × ℕ) → Result
driver_decode d raw = decode_registers raw d.input_registers

abbrev pub battery_batches : List (ℕ × ℕ)
battery_batches = (5000, 40) ∷ (5040, 40) ∷ (5080, 40) ∷ (5120, 40) ∷ (5160, 40) ∷ (5200, 40) ∷ []

abbrev pub sna_batches : List (ℕ × ℕ)
sna_batches = ((0, 40) ∷ (40, 40) ∷ (80, 40) ∷ []) ++ battery_batches

abbrev pub kpv18_batches : List (ℕ × ℕ)
kpv18_batches =
    ((0, 40) ∷ (40, 40) ∷ (80, 40) ∷ (120, 40) ∷ (160, 40) ∷ (200, 40) ∷ []) ++ battery_batches

unfoldable pub luxpower_sna : ModelDriver
luxpower_sna = record {
  name = "luxpower_sna";
  input_registers = all_input_registers;
  batches = sna_batches;
}

unfoldable pub eg4_18kpv : ModelDriver
eg4_18kpv = record {
  name = "eg4_18kpv";
  input_registers = registers_18kpv;
  batches = kpv18_batches;
}

-- A driver of the same family under another name.
abbrev pub renamed : String → ModelDriver → ModelDriver
renamed n d = record d { name = n }

-- `DRIVERS`
unfoldable pub drivers : List (String × ModelDriver)
drivers =
    ("eg4_6000xp", renamed "eg4_6000xp" luxpower_sna)
    ∷ ("luxpower_sna", luxpower_sna)
    ∷ ("eg4_12000xp", renamed "eg4_12000xp" luxpower_sna)
    ∷ ("eg4_6500ex", renamed "eg4_6500ex" luxpower_sna)
    ∷ ("eg4_3000ehv", renamed "eg4_3000ehv" luxpower_sna)
    ∷ ("eg4_18kpv", eg4_18kpv)
    ∷ ("eg4_12kpv", renamed "eg4_12kpv" eg4_18kpv)
    ∷ ("lxp_6k", renamed "lxp_6k" luxpower_sna)
    ∷ ("lxp_12k", renamed "lxp_12k" eg4_18kpv)
    ∷ ("lxp_18k", renamed "lxp_18k" eg4_18kpv)
    ∷ ("fortress_envy_12k", renamed "fortress_envy_12k" eg4_18kpv)
    ∷ ("bigbattery_sna_6k", renamed "bigbattery_sna_6k" luxpower_sna)
    ∷ []

abbrev pub or_unsupported : Option ModelDriver → Outcome ModelDriver
or_unsupported none = raised value_error
or_unsupported (some d) = ok d

-- `get_driver`
unfoldable pub get_driver : String → Outcome ModelDriver
get_driver model = or_unsupported (lookup_str model drivers)
