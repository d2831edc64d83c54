-- ===== src/Capabilities.antt =====
-- collector/capabilities.py: which holding registers apply to which inverter model.
pub mod Filter
use Prim.Native.String.{String}
use mathlib.Core.Option
use lux_mon.Base.{ℕ, List, [], ◌∷◌, Bool, true}
use lux_mon.Base.Dict.{lookup_str, filter_items, is_subset}

-- The flags of the source, by their string values; a frozenset is a list.
abbrev pub sna_caps : List String
sna_caps = "pv1" ∷ "pv2" ∷ "single_phase" ∷ "battery_bms" ∷ []

-- `_18KPV_CAPS`
abbrev pub kpv18_caps : List String
kpv18_caps =
    "pv1" ∷ "pv2" ∷ "pv3" ∷ "pv4" ∷ "pv5" ∷ "pv6" ∷ "split_phase" ∷ "afci" ∷ "generator"
    ∷ "smart_load" ∷ "ac_couple" ∷ "wattnode" ∷ "grid_peak_shaving" ∷ "volt_watt" ∷ "qv_curve"
    ∷ "qp_curve" ∷ "seven_day_schedule" ∷ "battery_bms" ∷ []

-- `_12KPV_CAPS`
abbrev pub kpv12_caps : List String
kpv12_caps =
    "pv1" ∷ "pv2" ∷ "pv3" ∷ "split_phase" ∷ "generator" ∷ "smart_load" ∷ "ac_couple"
    ∷ "grid_peak_shaving" ∷ "volt_watt" ∷ "qv_curve" ∷ "qp_curve" ∷ "seven_day_schedule"
    ∷ "battery_bms" ∷ []

unfoldable pub model_capabilities : List (String × List String)
model_capabilities =
    ("eg4_6000xp", sna_caps)
    ∷ ("luxpower_sna", sna_caps)
    ∷ ("eg4_12000xp", sna_caps)
    ∷ ("eg4_6500ex", sna_caps)
    ∷ ("eg4_3000ehv", sna_caps)
    ∷ ("lxp_6k", sna_caps)
    ∷ ("bigbattery_sna_6k", sna_caps)
    ∷ ("eg4_18kpv", kpv18_caps)
    ∷ ("lxp_18k", kpv18_caps)
    ∷ ("fortress_envy_12k", kpv18_caps)
    ∷ ("eg4_12kpv", kpv12_caps)
    ∷ ("lxp_12k", kpv12_caps)
    ∷ []

abbrev pub default_capabilities : List String
default_capabilities = kpv18_caps

unfoldable pub capabilities_for : String → List String
unfolding lookup_str model_capabilities
capabilities_for model = Option.get_or (lookup_str model model_capabilities) default_capabilities

-- A register with no required capabilities applies to every model.
unfoldable pub register_applies : List String → List String → Bool
unfolding is_subset
register_applies capabilities [] = true
register_applies capabilities (c ∷ cs) = is_subset (c ∷ cs) capabilities
