-- ===== src/Tests/Registers.antt =====
-- The register tables, conversions, capabilities and fault codes on concrete values.
use lux_mon.Base.{
  inl, ℕ, ℤ, ◌<◌, ◌≡◌, ◌↔◌, refl, List, [], ◌∷◌, true, false, none, some, Returns, pos, negsuc,
  arith,
}
use lux_mon.Base.Dict.{lookup, lookup_str, DistinctKeys}
use lux_mon.Holding.Meta.{HoldingMeta, register}
use lux_mon.Holding.{holding_registers}
use lux_mon.Capabilities.{model_capabilities}
use lux_mon.Engineering.{infinite, times, engineering_to_raw, clamp_to_register}
use lux_mon.Engineering.Fit.{fits_register, register_value-fits}
use lux_mon.Protocol.Build.{register_value}
use lux_mon.Registers.Def.{RegisterDef, decode, signed, pair, plain}
use lux_mon.Registers.{input_registers, decode_registers}
use lux_mon.Registers.Decode.{own_name, decode_registers-simple, decode_registers-pair}
use lux_mon.Faults.{
  fault_codes, warning_codes, named_bits, decode_bits, decode_fault_code, decode_warning_code,
}
use lux_mon.Faults.Bits.{Listed, Named, decode_code-Named}

-- The map of the source and a batch of raw values.
abbrev pub batch : List (ℕ × ℕ)
batch = (4, 532) ∷ (40, 10) ∷ (41, 1) ∷ (98, 65535) ∷ []

abbrev pub battery_voltage : RegisterDef
battery_voltage = (plain 4 "battery_voltage" 100).1

abbrev pub pv1_energy_total : RegisterDef
pv1_energy_total = (pair 40 "pv1_energy_total" 100 41).1

abbrev pub battery_current : RegisterDef
battery_current = (signed 98 "battery_current" 100).1

batch-DistinctKeys : DistinctKeys batch
unfolding lookup
batch-DistinctKeys = (refl, (refl, (refl, (refl, tt))))

battery_voltage_own : own_name "battery_voltage" 4 input_registers ≡ true
unfolding input_registers
battery_voltage_own = refl

battery_voltage_listed : lookup 4 input_registers ≡ some battery_voltage
unfolding input_registers lookup
battery_voltage_listed = refl

pv1_energy_total_own : own_name "pv1_energy_total" 40 input_registers ≡ true
unfolding input_registers
pv1_energy_total_own = refl

pv1_energy_total_listed : lookup 40 input_registers ≡ some pv1_energy_total
unfolding input_registers lookup
pv1_energy_total_listed = refl

at_4 : lookup 4 batch ≡ some 532
unfolding lookup
at_4 = refl

at_40 : lookup 40 batch ≡ some 10
unfolding lookup
at_40 = refl

at_41 : lookup 41 batch ≡ some 1
unfolding lookup
at_41 = refl

decode_registers-simple_example :
    lookup_str "battery_voltage" (decode_registers batch input_registers)
    ≡ some (record { value = decode battery_voltage 532 0; raw = 532; raw_high = none })
decode_registers-simple_example =
    decode_registers-simple batch input_registers 4 532 battery_voltage batch-DistinctKeys
      battery_voltage_own battery_voltage_listed refl at_4

decode_registers-pair_example :
    lookup_str "pv1_energy_total" (decode_registers batch input_registers)
    ≡ some (record { value = decode pv1_energy_total 10 1; raw = 10; raw_high = some 1 })
decode_registers-pair_example =
    decode_registers-pair batch input_registers 40 10 41 1 pv1_energy_total batch-DistinctKeys
      pv1_energy_total_own pv1_energy_total_listed refl at_40 at_41

-- -1 A is sent as 65535.
abbrev pub percent : HoldingMeta
percent = (register 64 "charge_power_percent" 1 (pos 0) (pos 100) []).1

abbrev pub power_factor : HoldingMeta
power_factor = (register 62 "power_factor_command" 1 (negsuc 99) (pos 100) []).1

power_factor_listed : lookup 62 holding_registers ≡ some power_factor
unfolding lookup holding_registers
power_factor_listed = refl

percent_fits : fits_register percent ≡ true
unfolding times
percent_fits = refl

power_factor_unfit : fits_register power_factor ≡ false
unfolding times
power_factor_unfit = refl

register_value-fits_example :
    (raw : ℤ) × (engineering_to_raw (clamp_to_register infinite percent) percent ≡ some raw)
    × Returns (register_value raw)
register_value-fits_example =
    register_value-fits percent infinite (λ e. cc) (inl refl) (omega arith) percent_fits

one_register : DistinctKeys ((64, percent) ∷ [])
unfolding lookup
one_register = (refl, tt)

unlisted_model : lookup_str "unknown" model_capabilities ≡ none
unfolding lookup_str model_capabilities
unlisted_model = refl

decode_code-Named_example :
    (Listed "PV overvoltage" (decode_fault_code (some 2097152))
      ↔ ((k : ℕ) × (k < 32) × Named 2097152 fault_codes k "PV overvoltage"))
    × (Listed "PV overvoltage" (decode_warning_code (some 2097152))
        ↔ ((k : ℕ) × (k < 32) × Named 2097152 warning_codes k "PV overvoltage"))
decode_code-Named_example = decode_code-Named 2097152 "PV overvoltage" (omega arith)

-- Below 32 a mask can be a code: bits 0, 1 and 4 together are read as code 19.
mask_misread :
    (decode_fault_code (some 19) ≡ "BUS overvoltage" ∷ [])
    × (named_bits 19 fault_codes 0 32 ≡ "Internal communication failure 1" ∷ "Model fault" ∷ [])
unfolding decode_fault_code decode_bits named_bits lookup
mask_misread = (refl, refl)
