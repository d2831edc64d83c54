-- ===== src/Registers/Live.antt =====
-- The table `INPUT_REGISTERS` of collector/registers.py, less the units and descriptions.
use lux_mon.Base.{ℕ, List, [], ◌∷◌}
use lux_mon.Registers.Def.{RegisterDef, plain, packed, pair}

-- Registers 0-79: live data, totals, temperatures.
abbrev pub live_registers : List (ℕ × RegisterDef)
live_registers =
    plain 0 "state" 1000
    ∷ plain 1 "pv1_voltage" 100
    ∷ plain 2 "pv2_voltage" 100
    ∷ plain 3 "pv3_voltage" 100
    ∷ plain 4 "battery_voltage" 100
    ∷ packed 5 "soc" 1000 0xff 0
    ∷ plain 6 "internal_fault" 1000
    ∷ plain 7 "pv1_power" 1000
    ∷ plain 8 "pv2_power" 1000
    ∷ plain 9 "pv3_power" 1000
    ∷ plain 10 "charge_power" 1000
    ∷ plain 11 "discharge_power" 1000
    ∷ plain 12 "grid_voltage_r" 100
    ∷ plain 13 "grid_voltage_s" 100
    ∷ plain 14 "grid_voltage_t" 100
    ∷ plain 15 "grid_frequency" 10
    ∷ plain 16 "inv_power" 1000
    ∷ plain 17 "rec_power" 1000
    ∷ plain 18 "inv_current_rms" 10
    ∷ plain 19 "power_factor" 1
    ∷ plain 20 "eps_voltage_r" 100
    ∷ plain 21 "eps_voltage_s" 100
    ∷ plain 22 "eps_voltage_t" 100
    ∷ plain 23 "eps_frequency" 10
    ∷ plain 24 "eps_power" 1000
    ∷ plain 25 "eps_apparent_power" 1000
    ∷ plain 26 "grid_export_power" 1000
    ∷ plain 27 "grid_import_power" 1000
    ∷ plain 28 "pv1_energy_today" 100
    ∷ plain 29 "pv2_energy_today" 100
    ∷ plain 30 "pv3_energy_today" 100
    ∷ plain 31 "inv_energy_today" 100
    ∷ plain 32 "rec_energy_today" 100
    ∷ plain 33 "charge_energy_today" 100
    ∷ plain 34 "discharge_energy_today" 100
    ∷ plain 35 "eps_energy_today" 100
    ∷ plain 36 "grid_export_today" 100
    ∷ plain 37 "grid_import_today" 100
    ∷ plain 38 "bus1_voltage" 100
    ∷ plain 39 "bus2_voltage" 100
    ∷ pair 40 "pv1_energy_total" 100 41
    ∷ pair 42 "pv2_energy_total" 100 43
    ∷ pair 44 "pv3_energy_total" 100 45
    ∷ pair 46 "inv_energy_total" 100 47
    ∷ pair 48 "rec_energy_total" 100 49
    ∷ pair 50 "charge_energy_total" 100 51
    ∷ pair 52 "discharge_energy_total" 100 53
    ∷ pair 54 "eps_energy_total" 100 55
    ∷ pair 56 "grid_export_total" 100 57
    ∷ pair 58 "grid_import_total" 100 59
    ∷ pair 60 "fault_code" 1000 61
    ∷ pair 62 "warning_code" 1000 63
    ∷ plain 64 "temp_inverter" 1000
    ∷ plain 65 "temp_radiator_1" 1000
    ∷ plain 66 "temp_radiator_2" 1000
    ∷ plain 67 "temp_battery" 1000
    ∷ pair 69 "runtime" 1000 70
    ∷ plain 71 "auto_test" 1000
    ∷ plain 72 "auto_test_limit" 1000
    ∷ plain 73 "auto_test_default" 1000
    ∷ plain 74 "auto_test_trip" 1000
    ∷ plain 75 "auto_test_trip_time" 1000
    ∷ plain 77 "ac_input_type" 1000
    ∷ []
