-- ===== src/Capabilities/Filter.antt =====
-- `filter_holding_registers` of collector/capabilities.py, and what it hides.
use Prim.Native.String.{String}
use lux_mon.Base.{ℕ, List, ◌≡◌, refl, none}
use lux_mon.Base.Dict.{
  lookup, lookup_str, filter_items, filter_option, DistinctKeys, lookup-filter_items,
}
use lux_mon.Holding.Meta.{HoldingMeta}
use lux_mon.Holding.{holding_registers}
use lux_mon.Capabilities.{
  model_capabilities, default_capabilities, capabilities_for, register_applies,
}

unfoldable pub filter_holding_registers : List (ℕ × HoldingMeta) → String → List (ℕ × HoldingMeta)
filter_holding_registers registers model =
    let caps = capabilities_for model in
    filter_items (λ info. register_applies caps info.capabilities) registers

-- A register is in the filtered map, with its entry, exactly when it is in the map, whose keys
-- are distinct, and the model has every capability that it requires.
pub lookup-filter_holding_registers :
    (registers : List (ℕ × HoldingMeta)) (model : String) (reg : ℕ)
    → DistinctKeys registers
    → lookup reg (filter_holding_registers registers model)
      ≡ filter_option
          (λ info. register_applies (capabilities_for model) info.capabilities)
          (lookup reg registers)
unfolding filter_holding_registers
lookup-filter_holding_registers registers model reg h = lookup-filter_items _ reg registers h

default_hides_nothing :
    filter_items (λ info. register_applies default_capabilities info.capabilities) holding_registers
    ≡ holding_registers
unfolding filter_items register_applies holding_registers
default_hides_nothing = refl

-- Nothing is hidden from a model that the table of models does not name.
pub filter_holding_registers-unknown :
    (model : String)
    → lookup_str model model_capabilities ≡ none
    → filter_holding_registers holding_registers model ≡ holding_registers
unfolding filter_holding_registers capabilities_for
filter_holding_registers-unknown model h = rw h default_hides_nothing
