-- ===== src/Drivers/Kpv18.antt =====
-- The register map of collector/drivers/eg4_18kpv.py over that of collector/registers.py.
use lux_mon.Base.{ℕ, List, [], ◌∷◌}
use lux_mon.Base.Dict.{update_items}
use lux_mon.Registers.Def.{RegisterDef, plain, pair}
use lux_mon.Registers.Batteries.{all_input_registers}

-- `_18KPV_EXTRA`
abbrev pub extra_18kpv : List (ℕ × RegisterDef)
extra_18kpv =
    plain 140 "afci_current_ch1" 1000
    ∷ plain 141 "afci_current_ch2" 1000
    ∷ plain 142 "afci_current_ch3" 1000
    ∷ plain 143 "afci_current_ch4" 1000
    ∷ plain 144 "afci_flag" 1000
    ∷ plain 145 "afci_arc_ch1" 1000
    ∷ plain 146 "afci_arc_ch2" 1000
    ∷ plain 147 "afci_arc_ch3" 1000
    ∷ plain 148 "afci_arc_ch4" 1000
    ∷ plain 149 "afci_max_arc_ch1" 1000
    ∷ plain 150 "afci_max_arc_ch2" 1000
    ∷ plain 151 "afci_max_arc_ch3" 1000
    ∷ plain 152 "afci_max_arc_ch4" 1000
    ∷ pair 135 "eps_energy_l1_total" 100 136
    ∷ pair 137 "eps_energy_l2_total" 100 138
    ∷ plain 153 "ac_couple_power" 1000
    ∷ plain 206 "ac_couple_power_s" 1000
    ∷ plain 207 "ac_couple_power_t" 1000
    ∷ plain 193 "grid_voltage_l1n" 100
    ∷ plain 194 "grid_voltage_l2n" 100
    ∷ plain 195 "gen_voltage_l1n" 100
    ∷ plain 196 "gen_voltage_l2n" 100
    ∷ plain 197 "inv_power_l1n" 1000
    ∷ plain 198 "inv_power_l2n" 1000
    ∷ plain 199 "rec_power_l1n" 1000
    ∷ plain 200 "rec_power_l2n" 1000
    ∷ plain 201 "grid_export_l1n" 1000
    ∷ plain 202 "grid_export_l2n" 1000
    ∷ plain 203 "grid_import_l1n" 1000
    ∷ plain 204 "grid_import_l2n" 1000
    ∷ plain 217 "pv4_voltage" 100
    ∷ plain 218 "pv5_voltage" 100
    ∷ plain 219 "pv6_voltage" 100
    ∷ plain 220 "pv4_power" 1000
    ∷ plain 221 "pv5_power" 1000
    ∷ plain 222 "pv6_power" 1000
    ∷ plain 223 "pv4_energy_today" 100
    ∷ pair 224 "pv4_energy_total" 100 225
    ∷ plain 226 "pv5_energy_today" 100
    ∷ pair 227 "pv5_energy_total" 100 228
    ∷ plain 229 "pv6_energy_today" 100
    ∷ pair 230 "pv6_energy_total" 100 231
    ∷ plain 232 "smart_load_power" 1000
    ∷ []

-- `INPUT_REGISTERS` of the 18KPV
unfoldable pub registers_18kpv : List (ℕ × RegisterDef)
registers_18kpv = update_items extra_18kpv all_input_registers
