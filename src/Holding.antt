-- ===== src/Holding.antt =====
-- `HOLDING_REGISTERS` of collector/protocol.py: the writable registers and their bounds.
pub mod Meta
mod Power
mod Grid
mod Advanced
mod SevenDay
use Prim.Native.String.{String}
use Prim.Native.Nat.{ℕ}
use mathlib.Core.List.{List, [], ◌∷◌, ◌++◌}
use mathlib.Core.Option.{Option, none, some}
use text.Mathlib.Text.{◌==◌ as str_eq}
use lux_mon.Base.{if◌then◌else◌}
use Meta.{HoldingMeta}
use Power.{power_registers}
use Grid.{grid_registers}
use Advanced.{advanced_registers}
use SevenDay.{seven_day_registers}

-- The dictionary, after `HOLDING_REGISTERS.update(_SEVEN_DAY_REGISTERS)`.
unfoldable pub holding_registers : List (ℕ × HoldingMeta)
unfolding power_registers grid_registers advanced_registers seven_day_registers
holding_registers =
    power_registers ++ (grid_registers ++ (advanced_registers ++ seven_day_registers))

address_in : String → List (ℕ × HoldingMeta) → Option ℕ
address_in n [] = none
address_in n ((address, meta) ∷ rest) =
    if str_eq meta.name n then some address else address_in n rest

-- `HOLDING_BY_NAME.get(name)`. No two registers have one name, so it does not matter which of the
-- entries of a name would be kept.
unfoldable pub holding_by_name : String → Option ℕ
unfolding address_in holding_registers
holding_by_name n = address_in n holding_registers
