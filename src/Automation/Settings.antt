-- ===== src/Automation/Settings.antt =====
-- The settings an automation can write: `SETTING_NAME_TO_REGISTER` of collector/automation.py.
use Prim.Native.String.{String}
use lux_mon.Base.{List, [], ◌∷◌, Option, none, some}

-- A setting without a register is listed, and has none.
abbrev pub setting_name_to_register : List (String × Option String)
setting_name_to_register =
    ("absorption_charge_voltage", some "lead_acid_charge_voltage")
    ∷ ("float_charge_voltage", some "floating_voltage")
    ∷ ("equalization_voltage", some "equalization_voltage")
    ∷ ("grid_charge", none)
    ∷ ("grid_charge_according_to", none)
    ∷ ("grid_charge_current", some "ac_charge_battery_current")
    ∷ ("grid_charge_slot_1_start", some "ac_charge_period_1_start")
    ∷ ("grid_charge_slot_1_end", some "ac_charge_period_1_end")
    ∷ ("grid_charge_slot_2_start", some "ac_charge_period_2_start")
    ∷ ("grid_charge_slot_2_end", some "ac_charge_period_2_end")
    ∷ ("grid_charge_slot_3_start", some "ac_charge_period_3_start")
    ∷ ("grid_charge_slot_3_end", some "ac_charge_period_3_end")
    ∷ ("grid_charge_start_capacity", some "ac_charge_start_battery_soc")
    ∷ ("grid_charge_start_voltage", some "ac_charge_start_battery_voltage")
    ∷ ("grid_charge_stop_capacity", some "ac_charge_end_battery_soc")
    ∷ ("grid_charge_stop_voltage", some "ac_charge_end_battery_voltage")
    ∷ ("grid_first_slot_1_start", some "ac_first_period_1_start")
    ∷ ("grid_first_slot_1_end", some "ac_first_period_1_end")
    ∷ ("grid_first_slot_2_start", some "ac_first_period_2_start")
    ∷ ("grid_first_slot_2_end", some "ac_first_period_2_end")
    ∷ ("grid_first_slot_3_start", some "ac_first_period_3_start")
    ∷ ("grid_first_slot_3_end", some "ac_first_period_3_end")
    ∷ ("max_charge_current", some "ac_charge_battery_current")
    ∷ ("max_discharge_current", some "lead_acid_discharge_rate")
    ∷ ("force_off_grid", none)
    ∷ ("on-grid_mode", none)
    ∷ ("ac_couple", none)
    ∷ ("combine_pv/ac_supply", none)
    ∷ ("export_to_grid", none)
    ∷ ("export_power_rate", some "feed_in_grid_power_percent")
    ∷ ("discharge_according_to", none)
    ∷ ("stop_discharge_voltage", some "lead_acid_discharge_cut_voltage")
    ∷ ("stop_discharge_capacity", some "discharge_cutoff_soc_eod")
    ∷ ("shutdown_battery_voltage", some "battery_low_to_utility_voltage")
    ∷ ("shutdown_battery_capacity", some "battery_low_to_utility_soc")
    ∷ ("warning_start_voltage", some "battery_warning_voltage")
    ∷ ("warning_start_capacity", some "battery_warning_soc")
    ∷ ("generator_charge_according_to", none)
    ∷ ("generator_charge_current", some "forced_charge_power")
    ∷ ("generator_charge_start_voltage", none)
    ∷ ("generator_charge_start_capacity", none)
    ∷ ("generator_charge_stop_voltage", none)
    ∷ ("generator_charge_stop_capacity", none)
    ∷ ("generator_power", some "max_generator_input_power")
    ∷ ("smart_load", none)
    ∷ ("smart_load_start_pv_power", none)
    ∷ ("smart_load_start_capacity", none)
    ∷ ("smart_load_start_voltage", none)
    ∷ ("smart_load_stop_capacity", none)
    ∷ ("smart_load_stop_voltage", none)
    ∷ ("soft_start_slope", some "soft_start_slope")
    ∷ ("active_power_percent", some "active_power_percent")
    ∷ ("reactive_power_percent", some "reactive_power_percent")
    ∷ ("power_factor_command", some "power_factor_command")
    ∷ ("charge_power_percent", some "charge_power_percent")
    ∷ ("discharge_power_percent", some "discharge_power_percent")
    ∷ ("ac_charge_power_percent", some "ac_charge_power_percent")
    ∷ []
