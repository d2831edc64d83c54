-- ===== src/Mqtt/Commands/Effects.antt =====
-- What a command message can change, and what it is answered.
use Prim.Native.String.{String}
use lux_mon.Base.{◌≡◌, ◌⊎◌, ◌∷◌, true, Outcome, ok, raised}
use lux_mon.Base.Dict.{contains}
use lux_mon.Settings.Store.{set_setting}
use lux_mon.Mqtt.Validate.{controllable_settings, Converted, accepted, validate_and_convert}
use lux_mon.Mqtt.Commands.{Handler, Reply}

module _ (text_of : Converted → String) where
  -- The database is as it was, or a setting that may be controlled got a value that was accepted.
  abbrev pub Allowed : String → String → Handler → Handler → Type 0
  Allowed name raw h h' =
      (h'.db ≡ h.db)
      ⊎ ((contains name controllable_settings ≡ true)
          × ((v : Converted) × (validate_and_convert name raw ≡ ok (accepted v))
              × (h'.db ≡ set_setting name (text_of v) h.db)))

  abbrev pub AllowedIn : String → String → Handler → Outcome Handler → Type 0
  AllowedIn name raw h (raised e) = Unit {0}
  AllowedIn name raw h (ok h') =
      Allowed name raw h h' × ((r : Reply) × (h'.published ≡ r ∷ h.published))
