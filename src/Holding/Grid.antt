-- ===== src/Holding/Grid.antt =====
-- The grid, protection, curve and battery-limit entries of `HOLDING_REGISTERS` in
-- collector/protocol.py, in the order of the source.
use lux_mon.Base.{ℕ, List, [], ◌∷◌, pos, negsuc}
use lux_mon.Holding.Meta.{register, HoldingMeta}

unfoldable pub grid_registers : List (ℕ × HoldingMeta)
grid_registers =
    register 15 "modbus_comm_address" 1 (pos 0) (pos 150) []
    ∷ register 20 "pv_input_model" 1 (pos 0) (pos 7) []
    ∷ register 22 "pv_start_voltage" 10 (pos 90) (pos 500) []
    ∷ register 23 "on_grid_wait_time" 1 (pos 30) (pos 600) []
    ∷ register 24 "reconnect_wait_time" 1 (pos 0) (pos 900) []
    ∷ register 25 "grid_volt_connect_low" 10 (pos 0) (pos 600) []
    ∷ register 26 "grid_volt_connect_high" 10 (pos 0) (pos 600) []
    ∷ register 27 "grid_freq_connect_low" 100 (pos 0) (pos 7000) []
    ∷ register 28 "grid_freq_connect_high" 100 (pos 0) (pos 7000) []
    ∷ register 29 "grid_volt_limit_1_low" 10 (pos 0) (pos 600) []
    ∷ register 30 "grid_volt_limit_1_high" 10 (pos 0) (pos 600) []
    ∷ register 31 "grid_volt_limit_1_low_time" 1 (pos 0) (pos 65535) []
    ∷ register 32 "grid_volt_limit_1_high_time" 1 (pos 0) (pos 65535) []
    ∷ register 33 "grid_volt_limit_2_low" 10 (pos 0) (pos 600) []
    ∷ register 34 "grid_volt_limit_2_high" 10 (pos 0) (pos 600) []
    ∷ register 35 "grid_volt_limit_2_low_time" 1 (pos 0) (pos 65535) []
    ∷ register 36 "grid_volt_limit_2_high_time" 1 (pos 0) (pos 65535) []
    ∷ register 37 "grid_volt_limit_3_low" 10 (pos 0) (pos 600) []
    ∷ register 38 "grid_volt_limit_3_high" 10 (pos 0) (pos 600) []
    ∷ register 39 "grid_volt_limit_3_low_time" 1 (pos 0) (pos 65535) []
    ∷ register 40 "grid_volt_limit_3_high_time" 1 (pos 0) (pos 65535) []
    ∷ register 41 "grid_volt_moving_avg_high" 10 (pos 0) (pos 600) []
    ∷ register 42 "grid_freq_limit_1_low" 100 (pos 0) (pos 7000) []
    ∷ register 43 "grid_freq_limit_1_high" 100 (pos 0) (pos 7000) []
    ∷ register 44 "grid_freq_limit_1_low_time" 1 (pos 0) (pos 65535) []
    ∷ register 45 "grid_freq_limit_1_high_time" 1 (pos 0) (pos 65535) []
    ∷ register 46 "grid_freq_limit_2_low" 100 (pos 0) (pos 7000) []
    ∷ register 47 "grid_freq_limit_2_high" 100 (pos 0) (pos 7000) []
    ∷ register 48 "grid_freq_limit_2_low_time" 1 (pos 0) (pos 65535) []
    ∷ register 49 "grid_freq_limit_2_high_time" 1 (pos 0) (pos 65535) []
    ∷ register 50 "grid_freq_limit_3_low" 100 (pos 0) (pos 7000) []
    ∷ register 51 "grid_freq_limit_3_high" 100 (pos 0) (pos 7000) []
    ∷ register 52 "grid_freq_limit_3_low_time" 1 (pos 0) (pos 65535) []
    ∷ register 53 "grid_freq_limit_3_high_time" 1 (pos 0) (pos 65535) []
    ∷ register 54 "qv_max_q_percent" 1 (pos 0) (pos 100) ("qv_curve" ∷ [])
    ∷ register 55 "qv_curve_v2l" 10 (pos 0) (pos 600) ("qv_curve" ∷ [])
    ∷ register 56 "qv_curve_v1l" 10 (pos 0) (pos 600) ("qv_curve" ∷ [])
    ∷ register 57 "qv_curve_v1h" 10 (pos 0) (pos 600) ("qv_curve" ∷ [])
    ∷ register 58 "qv_curve_v2h" 10 (pos 0) (pos 600) ("qv_curve" ∷ [])
    ∷ register 59 "reactive_power_command_type" 1 (pos 0) (pos 7) []
    ∷ register 92 "cosphi_p_lock_in_voltage" 10 (pos 230) (pos 300) ("qp_curve" ∷ [])
    ∷ register 93 "cosphi_p_lock_out_voltage" 10 (pos 150) (pos 300) ("qp_curve" ∷ [])
    ∷ register 94 "qv_lock_in_power" 1 (pos 0) (pos 100) ("qv_curve" ∷ [])
    ∷ register 95 "qv_lock_out_power" 1 (pos 0) (pos 100) ("qv_curve" ∷ [])
    ∷ register 96 "qv_delay" 1 (pos 0) (pos 2000) ("qv_curve" ∷ [])
    ∷ register 97 "overfrequency_derate_delay" 1 (pos 0) (pos 1000) []
    ∷ register 106 "lead_acid_discharge_temp_low" 10 (negsuc 199) (pos 600) []
    ∷ register 107 "lead_acid_discharge_temp_high" 10 (pos 0) (pos 600) []
    ∷ register 108 "lead_acid_charge_temp_low" 10 (negsuc 199) (pos 600) []
    ∷ register 109 "lead_acid_charge_temp_high" 10 (pos 0) (pos 600) []
    ∷ register 112 "system_type" 1 (pos 0) (pos 4) []
    ∷ register 115 "overfrequency_derate_start" 100 (pos 5000) (pos 5200) []
    ∷ register 116 "start_discharge_threshold" 1 (pos 0) (pos 65535) []
    ∷ register 117 "start_charge_threshold" 1 (negsuc 65534) (pos 65535) []
    ∷ register 118 "battery_voltage_derate_start" 10 (pos 0) (pos 600) []
    ∷ register 119 "external_ct_power_offset" 1 (negsuc 65534) (pos 65535) []
    ∷ register 124 "overfrequency_derate_end" 100 (pos 5000) (pos 5200) []
    ∷ register 132 "battery_cell_voltage_limit" 10 (pos 0) (pos 600) []
    ∷ register 133 "battery_cell_count" 1 (pos 0) (pos 65535) []
    ∷ register 134 "underfrequency_derate_start" 100 (pos 4500) (pos 5000) []
    ∷ register 135 "underfrequency_derate_end" 100 (pos 4500) (pos 5000) []
    ∷ register 136 "underfrequency_derate_ratio" 1 (pos 1) (pos 100) []
    ∷ register 137 "specific_load_compensation" 1 (pos 0) (pos 65535) []
    ∷ register 138 "charge_power_percent_precise" 10 (pos 0) (pos 100) []
    ∷ register 139 "discharge_power_percent_precise" 10 (pos 0) (pos 100) []
    ∷ []
