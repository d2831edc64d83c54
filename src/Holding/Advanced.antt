-- ===== src/Holding/Advanced.antt =====
-- The curve, generator, advanced and bitfield entries of `HOLDING_REGISTERS` in
-- collector/protocol.py, in the order of the source.
use lux_mon.Base.{ℕ, List, [], ◌∷◌, pos}
use lux_mon.Holding.Meta.{register, HoldingMeta}

unfoldable pub advanced_registers : List (ℕ × HoldingMeta)
advanced_registers =
    register 140 "ac_charge_percent_precise" 10 (pos 0) (pos 100) []
    ∷ register 141 "charge_priority_percent_precise" 10 (pos 0) (pos 100) []
    ∷ register 142 "forced_discharge_percent_precise" 10 (pos 0) (pos 100) []
    ∷ register 143 "active_power_percent_precise" 10 (pos 0) (pos 100) []
    ∷ register 145 "output_priority" 1 (pos 0) (pos 2) []
    ∷ register 171 "soc_curve_battery_volt_1" 10 (pos 40) (pos 60) []
    ∷ register 172 "soc_curve_battery_volt_2" 10 (pos 40) (pos 60) []
    ∷ register 173 "soc_curve_soc_1" 1 (pos 0) (pos 100) []
    ∷ register 174 "soc_curve_soc_2" 1 (pos 0) (pos 100) []
    ∷ register 175 "battery_inner_resistance" 1 (pos 0) (pos 100) []
    ∷ register 176 "max_grid_import_power" 10 (pos 0) (pos 6553) []
    ∷ register 180 "afci_arc_threshold" 1 (pos 0) (pos 65535) ("afci" ∷ [])
    ∷ register 181 "voltwatt_v1" 10 (pos 0) (pos 600) ("volt_watt" ∷ [])
    ∷ register 182 "voltwatt_v2" 10 (pos 0) (pos 600) ("volt_watt" ∷ [])
    ∷ register 183 "voltwatt_delay" 1 (pos 500) (pos 60000) ("volt_watt" ∷ [])
    ∷ register 184 "voltwatt_p2" 1 (pos 0) (pos 100) ("volt_watt" ∷ [])
    ∷ register 185 "vref_qv" 10 (pos 0) (pos 600) ("qv_curve" ∷ [])
    ∷ register 186 "vref_filter_time" 1 (pos 0) (pos 65535) ("qv_curve" ∷ [])
    ∷ register 187 "q3_qv" 1 (pos 0) (pos 100) ("qv_curve" ∷ [])
    ∷ register 188 "q4_qv" 1 (pos 0) (pos 100) ("qv_curve" ∷ [])
    ∷ register 189 "qp_curve_p1" 1 (pos 0) (pos 100) ("qp_curve" ∷ [])
    ∷ register 190 "qp_curve_p2" 1 (pos 0) (pos 100) ("qp_curve" ∷ [])
    ∷ register 191 "qp_curve_p3" 1 (pos 0) (pos 100) ("qp_curve" ∷ [])
    ∷ register 192 "qp_curve_p4" 1 (pos 0) (pos 100) ("qp_curve" ∷ [])
    ∷ register 193 "underfrequency_ramp_rate" 1 (pos 1) (pos 100) []
    ∷ register 194 "generator_charge_start_voltage" 10 (pos 384) (pos 520) ("generator" ∷ [])
    ∷ register 195 "generator_charge_end_voltage" 10 (pos 480) (pos 590) ("generator" ∷ [])
    ∷ register 196 "generator_charge_start_soc" 1 (pos 0) (pos 90) ("generator" ∷ [])
    ∷ register 197 "generator_charge_end_soc" 1 (pos 20) (pos 100) ("generator" ∷ [])
    ∷ register 198 "max_generator_charge_current" 1 (pos 0) (pos 60) ("generator" ∷ [])
    ∷ register 199 "overtemperature_derate_point" 10 (pos 60) (pos 90) []
    ∷ register 201 "charge_priority_end_voltage" 10 (pos 480) (pos 595) []
    ∷ register 202 "forced_discharge_end_voltage" 10 (pos 400) (pos 560) []
    ∷ register 204 "lead_acid_capacity" 1 (pos 50) (pos 5000) []
    ∷ register 205 "grid_type" 1 (pos 0) (pos 1) []
    ∷ register 206 "grid_peak_shaving_power" 1 (pos 0) (pos 65535) ("grid_peak_shaving" ∷ [])
    ∷ register 207 "grid_peak_shaving_soc" 1 (pos 0) (pos 100) ("grid_peak_shaving" ∷ [])
    ∷ register 208 "grid_peak_shaving_voltage" 10 (pos 480) (pos 590) ("grid_peak_shaving" ∷ [])
    ∷ register 209 "peak_shaving_period_1_start" 1 (pos 0) (pos 15127) ("grid_peak_shaving" ∷ [])
    ∷ register 210 "peak_shaving_period_1_end" 1 (pos 0) (pos 15127) ("grid_peak_shaving" ∷ [])
    ∷ register 211 "peak_shaving_period_2_start" 1 (pos 0) (pos 15127) ("grid_peak_shaving" ∷ [])
    ∷ register 212 "peak_shaving_period_2_end" 1 (pos 0) (pos 15127) ("grid_peak_shaving" ∷ [])
    ∷ register 213 "smart_load_on_voltage" 10 (pos 480) (pos 590) ("smart_load" ∷ [])
    ∷ register 214 "smart_load_off_voltage" 10 (pos 400) (pos 520) ("smart_load" ∷ [])
    ∷ register 215 "smart_load_on_soc" 1 (pos 0) (pos 100) ("smart_load" ∷ [])
    ∷ register 216 "smart_load_off_soc" 1 (pos 0) (pos 100) ("smart_load" ∷ [])
    ∷ register 217 "start_pv_power" 10 (pos 0) (pos 12) []
    ∷ register 218 "grid_peak_shaving_soc_1" 1 (pos 0) (pos 100) ("grid_peak_shaving" ∷ [])
    ∷ register 219 "grid_peak_shaving_volt_1" 10 (pos 480) (pos 590) ("grid_peak_shaving" ∷ [])
    ∷ register 220 "ac_couple_start_soc" 1 (pos 0) (pos 100) ("ac_couple" ∷ [])
    ∷ register 221 "ac_couple_end_soc" 1 (pos 0) (pos 255) ("ac_couple" ∷ [])
    ∷ register 222 "ac_couple_start_volt" 10 (pos 400) (pos 595) ("ac_couple" ∷ [])
    ∷ register 223 "ac_couple_end_volt" 10 (pos 420) (pos 800) ("ac_couple" ∷ [])
    ∷ register 227 "battery_stop_charge_soc" 1 (pos 10) (pos 101) []
    ∷ register 228 "battery_stop_charge_voltage" 10 (pos 400) (pos 595) []
    ∷ register 232 "grid_peak_shaving_power_1" 1 (pos 0) (pos 65535) ("grid_peak_shaving" ∷ [])
    ∷ register 235 "no_full_charge_day_config" 1 (pos 0) (pos 65535) []
    ∷ register 236 "float_charge_threshold" 100 (pos 1) (pos 255) []
    ∷ register 237 "generator_cooldown_time" 10 (pos 1) (pos 255) ("generator" ∷ [])
    ∷ register 242 "npe_threshold" 10 (pos 0) (pos 65535) []
    ∷ register 248 "wattnode_ct_amps_phase_1" 1 (pos 0) (pos 65535) ("wattnode" ∷ [])
    ∷ register 249 "wattnode_ct_amps_phase_2" 1 (pos 0) (pos 65535) ("wattnode" ∷ [])
    ∷ register 250 "wattnode_ct_amps_phase_3" 1 (pos 0) (pos 65535) ("wattnode" ∷ [])
    ∷ register 252 "nec_120_bus_bar_limit" 1 (pos 0) (pos 65535) []
    ∷ register 253 "soc_delta_hysteresis" 1 (pos 0) (pos 100) []
    ∷ register 254 "voltage_delta_hysteresis" 10 (pos 0) (pos 100) []
    ∷ register 260 "bus_voltage_high_limit" 10 (pos 0) (pos 800) []
    ∷ register 261 "discharge_recovery" 1 (pos 0) (pos 100) []
    ∷ register 21 "function_enable_1" 1 (pos 0) (pos 65535) []
    ∷ register 110 "function_enable_3" 1 (pos 0) (pos 65535) []
    ∷ register 120 "system_enable_2" 1 (pos 0) (pos 65535) []
    ∷ register 179 "function_enable_4" 1 (pos 0) (pos 65535) []
    ∷ register 126 "optimal_chg_dischg_0_3" 1 (pos 0) (pos 65535) []
    ∷ register 127 "optimal_chg_dischg_4_7" 1 (pos 0) (pos 65535) []
    ∷ register 128 "optimal_chg_dischg_8_11" 1 (pos 0) (pos 65535) []
    ∷ register 129 "optimal_chg_dischg_12_15" 1 (pos 0) (pos 65535) []
    ∷ register 130 "optimal_chg_dischg_16_19" 1 (pos 0) (pos 65535) []
    ∷ register 131 "optimal_chg_dischg_20_23" 1 (pos 0) (pos 65535) []
    ∷ register 203 "grid_regulation" 1 (pos 0) (pos 65535) []
    ∷ register 225 "lcd_password" 1 (pos 0) (pos 65535) []
    ∷ register 230 "meter_config" 1 (pos 0) (pos 65535) ("wattnode" ∷ [])
    ∷ register 251 "wattnode_ct_directions" 1 (pos 0) (pos 65535) ("wattnode" ∷ [])
    ∷ register 256 "generator_start_time" 1 (pos 0) (pos 15127) ("generator" ∷ [])
    ∷ register 257 "generator_end_time" 1 (pos 0) (pos 15127) ("generator" ∷ [])
    ∷ register 258 "generator_start_time_1" 1 (pos 0) (pos 15127) ("generator" ∷ [])
    ∷ register 259 "generator_end_time_1" 1 (pos 0) (pos 15127) ("generator" ∷ [])
    ∷ []
