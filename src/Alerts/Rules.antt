-- ===== src/Alerts/Rules.antt =====
-- The rules of `Alerts.evaluate` in collector/alerts.py. Values are in thousandths, times of the clock
-- in milliseconds.
pub mod Grid
use Prim.Native.String.{String}
use lux_mon.Base.{
  ℕ, ◌+◌, ◌-◌, List, [], ◌∷◌, Bool, true, false, ◌&&◌, not, Option, none, some, if◌then◌else◌, ℤ,
  pos, negsuc, leb_ℤ, ltb_ℤ, sub_ℕ, ◌==◌,
}
use lux_mon.Base.Dict.{lookup_str}
use lux_mon.Automation.Condition.{Value, number, not_a_number, Sample, plain, labelled, Snapshot}

-- What a configuration value is to `_cfg_float`: falsy, something that `float` rejects, or a number.
pub data CfgValue : Type 0 where
  falsy unreadable : CfgValue
  reads : ℤ → CfgValue

abbrev pub cfg_float : CfgValue → ℤ → ℤ
cfg_float falsy default = default
cfg_float unreadable default = default
cfg_float (reads z) default = z

pub record Limits : Type 0 where
  pub soc_low : CfgValue
  pub soc_critical : CfgValue
  pub battery_temp_high : CfgValue
  pub inverter_temp_high : CfgValue
  pub grid_lost_threshold : CfgValue

-- `_num`
abbrev pub num_of : Option Sample → Option ℤ
num_of none = none
num_of (some (labelled none)) = none
num_of (some (labelled (some not_a_number))) = none
num_of (some (labelled (some (number v)))) = some v
num_of (some (plain not_a_number)) = none
num_of (some (plain (number v))) = some v

unfoldable pub num : Snapshot → String → Option ℤ
num decoded key = num_of (lookup_str key decoded)

abbrev pub is_zero : ℤ → Bool
is_zero (pos n) = n == 0
is_zero (negsuc n) = false

-- `a or b` of numbers that may be missing, and `a or 0.0`
abbrev pub or_num : Option ℤ → Option ℤ → Option ℤ
or_num none b = b
or_num (some z) b = if is_zero z then b else some z

abbrev pub or_0 : Option ℤ → ℤ
or_0 none = pos 0
or_0 (some z) = z

abbrev pub at_or_below : Option ℤ → ℤ → Bool
at_or_below none limit = false
at_or_below (some v) limit = leb_ℤ v limit

abbrev pub at_or_above : Option ℤ → ℤ → Bool
at_or_above none limit = false
at_or_above (some v) limit = leb_ℤ limit v

abbrev pub above : Option ℤ → ℤ → Bool
above none limit = false
above (some v) limit = ltb_ℤ limit v

-- The text of a result, by what it says.
pub data AlertMessage : Type 0 where
  soc_at_or_below : Option ℤ → ℤ → AlertMessage
  battery_at_or_above inverter_at_or_above : Option ℤ → ℤ → AlertMessage
  grid_present no_fault : AlertMessage
  grid_absent : ℤ → AlertMessage
  fault_code : ℤ → AlertMessage

pub record Result : Type 0 where
  pub name : String
  pub active : Bool
  pub value : ℤ
  pub message : AlertMessage

abbrev pub result : String → Bool → ℤ → AlertMessage → Result
result n a v m = record { name = n; active = a; value = v; message = m }

-- `grid_present`: above 80 V and above 45 Hz.
unfoldable pub is_grid_present : Snapshot → Bool
is_grid_present decoded =
    above (num decoded "grid_voltage_r") (pos 80000)
    && above (num decoded "grid_frequency") (pos 45000)

-- `self._grid_lost_since` after the rule, and the rule's result.
abbrev pub since : Option ℕ → ℕ → ℕ
since none now = now
since (some t) now = t

unfoldable pub grid_lost_since : Bool → ℕ → Option ℕ → Option ℕ
grid_lost_since true now lost = none
grid_lost_since false now lost = some (since lost now)

unfoldable pub grid_result : Bool → ℕ → ℤ → ℤ → Option ℕ → Result
grid_result true now threshold grid_v lost = result "grid_loss" false grid_v grid_present
grid_result false now threshold grid_v lost =
    result "grid_loss" (leb_ℤ threshold (sub_ℕ now (since lost now))) grid_v
      (grid_absent (sub_ℕ now (since lost now)))

abbrev pub fault_result : Option ℤ → Result
fault_result none = result "fault_active" false (pos 0) no_fault
fault_result (some z) =
    if is_zero z
    then result "fault_active" false (pos 0) no_fault
    else result "fault_active" true z (fault_code z)

-- `results`, in the order in which they are set.
unfoldable pub results : Limits → Snapshot → ℕ → Option ℕ → List Result
results limits decoded now lost =
    let soc = num decoded "soc" in
    let bat_temp = num decoded "temp_battery" in
    let inv_temp = num decoded "temp_inverter" in
    let fault =
      or_num (or_num (num decoded "fault") (num decoded "fault_code")) (num decoded "error") in
    let soc_low = cfg_float limits.soc_low (pos 20000) in
    let soc_critical = cfg_float limits.soc_critical (pos 10000) in
    let bat_temp_high = cfg_float limits.battery_temp_high (pos 50000) in
    let inv_temp_high = cfg_float limits.inverter_temp_high (pos 60000) in
    let grid_threshold = cfg_float limits.grid_lost_threshold (pos 30000) in
    result "battery_soc_low" (at_or_below soc soc_low) (or_0 soc) (soc_at_or_below soc soc_low)
    ∷ result "battery_soc_critical" (at_or_below soc soc_critical) (or_0 soc)
        (soc_at_or_below soc soc_critical)
    ∷ result "battery_temp_high" (at_or_above bat_temp bat_temp_high) (or_0 bat_temp)
        (battery_at_or_above bat_temp bat_temp_high)
    ∷ result "inverter_temp_high" (at_or_above inv_temp inv_temp_high) (or_0 inv_temp)
        (inverter_at_or_above inv_temp inv_temp_high)
    ∷ grid_result (is_grid_present decoded) now grid_threshold (or_0 (num decoded "grid_voltage_r"))
        lost
    ∷ fault_result fault
    ∷ []
