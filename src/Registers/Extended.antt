-- ===== src/Registers/Extended.antt =====
-- The table `INPUT_REGISTERS` of collector/registers.py, less the units and descriptions.
use lux_mon.Base.{ℕ, List, [], ◌∷◌}
use lux_mon.Registers.Def.{RegisterDef, plain, signed, pair}

-- Registers 80-216: the battery management system, generator, load.
abbrev pub extended_registers : List (ℕ × RegisterDef)
extended_registers =
    plain 81 "bms_max_charge_current" 10
    ∷ plain 82 "bms_max_discharge_current" 10
    ∷ plain 83 "bms_charge_voltage_ref" 100
    ∷ plain 84 "bms_discharge_cut_voltage" 100
    ∷ plain 85 "bms_status_0" 1000
    ∷ plain 86 "bms_status_1" 1000
    ∷ plain 87 "bms_status_2" 1000
    ∷ plain 88 "bms_status_3" 1000
    ∷ plain 89 "bms_status_4" 1000
    ∷ plain 90 "bms_status_5" 1000
    ∷ plain 91 "bms_status_6" 1000
    ∷ plain 92 "bms_status_7" 1000
    ∷ plain 93 "bms_status_8" 1000
    ∷ plain 94 "bms_status_9" 1000
    ∷ plain 95 "bms_status_inv" 1000
    ∷ plain 96 "battery_count" 1000
    ∷ plain 97 "battery_capacity" 1000
    ∷ signed 98 "battery_current" 100
    ∷ plain 99 "bms_fault_code" 1000
    ∷ plain 100 "bms_warning_code" 1000
    ∷ plain 101 "cell_voltage_max" 1
    ∷ plain 102 "cell_voltage_min" 1
    ∷ signed 103 "cell_temp_max" 100
    ∷ signed 104 "cell_temp_min" 100
    ∷ plain 105 "bms_fw_update_state" 1000
    ∷ plain 106 "cycle_count" 1000
    ∷ plain 107 "battery_voltage_inv" 100
    ∷ plain 108 "temp_t1" 100
    ∷ plain 109 "temp_t2" 100
    ∷ plain 110 "temp_t3" 100
    ∷ plain 111 "temp_t4" 100
    ∷ plain 112 "temp_t5" 100
    ∷ plain 113 "parallel_info" 1000
    ∷ plain 120 "bus_p_voltage" 100
    ∷ plain 121 "gen_voltage" 100
    ∷ plain 122 "gen_frequency" 10
    ∷ plain 123 "gen_power" 1000
    ∷ plain 124 "gen_energy_today" 100
    ∷ pair 125 "gen_energy_total" 100 126
    ∷ plain 127 "eps_voltage_l1n" 100
    ∷ plain 128 "eps_voltage_l2n" 100
    ∷ plain 129 "eps_power_l1" 1000
    ∷ plain 130 "eps_power_l2" 1000
    ∷ plain 131 "eps_apparent_l1" 1000
    ∷ plain 132 "eps_apparent_l2" 1000
    ∷ plain 133 "eps_energy_l1_today" 100
    ∷ plain 134 "eps_energy_l2_today" 100
    ∷ plain 114 "load_power_12k" 1000
    ∷ plain 115 "serial_ascii_0_3" 1000
    ∷ plain 116 "serial_ascii_4_5" 1000
    ∷ plain 117 "serial_ascii_6_7" 1000
    ∷ plain 118 "serial_ascii_8_9" 1000
    ∷ plain 139 "reactive_power" 1000
    ∷ plain 170 "load_power" 1000
    ∷ plain 171 "load_energy_today" 100
    ∷ pair 172 "load_energy_total" 100 173
    ∷ plain 210 "remaining_charge_time" 1000
    ∷ plain 214 "ntc_temp_indc" 1000
    ∷ plain 215 "ntc_temp_dcdcl" 1000
    ∷ plain 216 "ntc_temp_dcdch" 1000
    ∷ []
