-- ===== src/Automation/Rule.antt =====
-- The conditions and the rules of collector/automation.py: the tables of condition kinds and the
-- dataclasses. Numbers are in thousandths; a text is its code points where the code reads into it.
use Prim.Native.String.{String}
use lux_mon.Base.{ℕ, List, [], ◌∷◌, ◌++◌, Bool, Option, none, some, ℤ}
use lux_mon.Protocol.Frame.{Str}

-- `CONDITION_SENSOR`
abbrev pub condition_sensor : List (String × Option String)
condition_sensor =
    ("time_of_day", none)
    ∷ ("day_of_week", none)
    ∷ ("month_of_year", none)
    ∷ ("battery_voltage", some "battery_voltage")
    ∷ ("battery_soc", some "soc")
    ∷ ("battery_current", some "battery_current")
    ∷ ("grid_voltage", some "grid_voltage")
    ∷ ("grid_frequency", some "grid_frequency")
    ∷ ("pv_energy_progress", none)
    ∷ ("pv_energy_remaining_today", none)
    ∷ ("load_power", some "eps_power")
    ∷ ("inverter_temp", some "temp_inverter")
    ∷ ("battery_temp", some "temp_battery")
    ∷ []

-- `EXTRA_CONDITION_SENSOR`
abbrev pub extra_condition_sensor : List (String × Option String)
extra_condition_sensor =
    ("pv_power", some "pv1_power") ∷ ("grid_power", some "grid_import_power") ∷ []

-- `ALL_CONDITION_SENSOR`: the tables have no key in common.
abbrev pub all_condition_sensor : List (String × Option String)
all_condition_sensor = condition_sensor ++ extra_condition_sensor

pub record Condition : Type 0 where
  pub kind : String
  pub min : Option ℤ
  pub max : Option ℤ
  -- The texts that the select and time kinds hold.
  pub value : Option Str

pub record Range : Type 0 where
  pub condition : Condition
  pub action_value : Option ℤ

pub record Group : Type 0 where
  pub condition : Condition
  pub ranges : List Range

-- An entry of `points`; a key that is missing is none.
pub record Point : Type 0 where
  pub time : Option Str
  pub source : Option String

pub record Rule : Type 0 where
  pub id : String
  pub name : String
  pub type : String
  pub enabled : Bool
  -- In milliseconds, as all times of the clock.
  pub disabled_until : ℕ
  pub setting : Option String
  pub groups : List Group
  pub conditions : List Condition
  pub action_value : Option ℤ
  pub restore_value : Option ℤ
  pub points : List Point
  pub threshold : Option ℤ
  pub notify_message : String
