-- ===== src/Holding/Power.antt =====
-- The power, schedule, battery and protection entries of `HOLDING_REGISTERS` in
-- collector/protocol.py, in the order of the source.
use lux_mon.Base.{ℕ, List, [], ◌∷◌, pos, negsuc}
use lux_mon.Holding.Meta.{register, HoldingMeta}

unfoldable pub power_registers : List (ℕ × HoldingMeta)
power_registers =
    register 60 "active_power_percent" 1 (pos 0) (pos 100) []
    ∷ register 61 "reactive_power_percent" 1 (pos 0) (pos 100) []
    ∷ register 62 "power_factor_command" 1 (negsuc 99) (pos 100) []
    ∷ register 63 "soft_start_slope" 1 (pos 0) (pos 100) []
    ∷ register 64 "charge_power_percent" 1 (pos 0) (pos 100) []
    ∷ register 65 "discharge_power_percent" 1 (pos 0) (pos 100) []
    ∷ register 66 "ac_charge_power_percent" 1 (pos 0) (pos 100) []
    ∷ register 67 "ac_charge_soc_limit" 1 (pos 0) (pos 100) []
    ∷ register 68 "ac_charge_period_1_start" 1 (pos 0) (pos 15127) []
    ∷ register 69 "ac_charge_period_1_end" 1 (pos 0) (pos 15127) []
    ∷ register 70 "ac_charge_period_2_start" 1 (pos 0) (pos 15127) []
    ∷ register 71 "ac_charge_period_2_end" 1 (pos 0) (pos 15127) []
    ∷ register 72 "ac_charge_period_3_start" 1 (pos 0) (pos 15127) []
    ∷ register 73 "ac_charge_period_3_end" 1 (pos 0) (pos 15127) []
    ∷ register 74 "forced_charge_power" 1 (pos 0) (pos 140) []
    ∷ register 75 "forced_charge_soc_limit" 1 (pos 0) (pos 100) []
    ∷ register 76 "forced_charge_period_1_start" 1 (pos 0) (pos 15127) []
    ∷ register 77 "forced_charge_period_1_end" 1 (pos 0) (pos 15127) []
    ∷ register 78 "forced_charge_period_2_start" 1 (pos 0) (pos 15127) []
    ∷ register 79 "forced_charge_period_2_end" 1 (pos 0) (pos 15127) []
    ∷ register 80 "forced_charge_period_3_start" 1 (pos 0) (pos 15127) []
    ∷ register 81 "forced_charge_period_3_end" 1 (pos 0) (pos 15127) []
    ∷ register 82 "forced_discharge_power" 1 (pos 0) (pos 140) []
    ∷ register 83 "forced_discharge_soc_limit" 1 (pos 0) (pos 100) []
    ∷ register 84 "forced_discharge_period_1_start" 1 (pos 0) (pos 15127) []
    ∷ register 85 "forced_discharge_period_1_end" 1 (pos 0) (pos 15127) []
    ∷ register 86 "forced_discharge_period_2_start" 1 (pos 0) (pos 15127) []
    ∷ register 87 "forced_discharge_period_2_end" 1 (pos 0) (pos 15127) []
    ∷ register 88 "forced_discharge_period_3_start" 1 (pos 0) (pos 15127) []
    ∷ register 89 "forced_discharge_period_3_end" 1 (pos 0) (pos 15127) []
    ∷ register 90 "eps_voltage_set" 10 (pos 0) (pos 3000) []
    ∷ register 91 "eps_frequency_set" 100 (pos 0) (pos 6000) []
    ∷ register 99 "lead_acid_charge_voltage" 10 (pos 50) (pos 58) []
    ∷ register 100 "lead_acid_discharge_cut_voltage" 10 (pos 40) (pos 56) []
    ∷ register 101 "lead_acid_charge_rate" 1 (pos 0) (pos 4480) []
    ∷ register 102 "lead_acid_discharge_rate" 1 (pos 0) (pos 4480) []
    ∷ register 103 "feed_in_grid_power_percent" 1 (pos 0) (pos 255) []
    ∷ register 105 "discharge_cutoff_soc_eod" 1 (pos 10) (pos 90) []
    ∷ register 125 "soc_low_limit_eps_discharge" 1 (pos 0) (pos 90) []
    ∷ register 144 "floating_voltage" 10 (pos 50) (pos 58) []
    ∷ register 146 "ac_input_range" 1 (pos 0) (pos 1) []
    ∷ register 147 "battery_capacity" 1 (pos 1) (pos 65535) []
    ∷ register 148 "nominal_battery_voltage" 10 (pos 0) (pos 600) []
    ∷ register 149 "equalization_voltage" 10 (pos 50) (pos 59) []
    ∷ register 150 "equalization_period" 1 (pos 0) (pos 365) []
    ∷ register 151 "equalization_time" 1 (pos 0) (pos 24) []
    ∷ register 152 "ac_first_period_1_start" 1 (pos 0) (pos 15127) []
    ∷ register 153 "ac_first_period_1_end" 1 (pos 0) (pos 15127) []
    ∷ register 154 "ac_first_period_2_start" 1 (pos 0) (pos 15127) []
    ∷ register 155 "ac_first_period_2_end" 1 (pos 0) (pos 15127) []
    ∷ register 156 "ac_first_period_3_start" 1 (pos 0) (pos 15127) []
    ∷ register 157 "ac_first_period_3_end" 1 (pos 0) (pos 15127) []
    ∷ register 158 "ac_charge_start_battery_voltage" 10 (pos 0) (pos 600) []
    ∷ register 159 "ac_charge_end_battery_voltage" 10 (pos 0) (pos 600) []
    ∷ register 160 "ac_charge_start_battery_soc" 1 (pos 0) (pos 100) []
    ∷ register 161 "ac_charge_end_battery_soc" 1 (pos 0) (pos 100) []
    ∷ register 162 "battery_warning_voltage" 10 (pos 0) (pos 600) []
    ∷ register 163 "battery_warning_recovery_voltage" 10 (pos 0) (pos 600) []
    ∷ register 164 "battery_warning_soc" 1 (pos 0) (pos 100) []
    ∷ register 165 "battery_warning_recovery_soc" 1 (pos 0) (pos 100) []
    ∷ register 166 "battery_low_to_utility_voltage" 10 (pos 0) (pos 600) []
    ∷ register 167 "battery_low_to_utility_soc" 1 (pos 0) (pos 100) []
    ∷ register 168 "ac_charge_battery_current" 1 (pos 0) (pos 125) []
    ∷ register 169 "on_grid_eod_voltage" 10 (pos 40) (pos 58) []
    ∷ register 177 "max_generator_input_power" 1 (pos 0) (pos 65534) ("generator" ∷ [])
    ∷ register 233 "function_enable_5" 1 (pos 0) (pos 65535) []
    ∷ register 234 "quick_charge_duration" 1 (pos 0) (pos 1440) []
    ∷ []
