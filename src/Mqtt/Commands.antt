-- ===== src/Mqtt/Commands.antt =====
-- The handlers of collector/mqtt_commands.py: `_on_set` and `_on_inverter`. What is published is
-- recorded, newest first. `text_of` is the text that `str` makes of a converted value.
pub mod Effects
use Prim.Native.String.{String}
use text.Mathlib.Text.{◌==◌ as str_eq}
use lux_mon.Base.{
  List, [], ◌∷◌, Bool, true, false, Option, none, some, if◌then◌else◌, Outcome, ok, raised, ◌>>=◌,
}
use lux_mon.Base.Dict.{contains, lookup_str, assign}
use lux_mon.Settings.Store.{Db, set_setting}
use lux_mon.Mqtt.Text.{last_segment, strip_text}
use lux_mon.Mqtt.Validate.{
  controllable_settings, Problem, Converted, Verdict, accepted, rejected, validate_and_convert,
}

pub record Message : Type 0 where
  pub topic : String
  -- The payload, decoded.
  pub payload : String

-- What goes to the ack topic and to the error topic.
pub data Reply : Type 0 where
  ack : String → String → Reply
  unknown_setting : String → Reply
  invalid : String → Problem → Reply
  failed : String → Reply
  not_implemented : String → String → Reply

pub record Handler : Type 0 where
  -- Whether a connection to the database can be made, and the database behind it.
  pub connects : Bool
  pub db : Db
  -- The attributes of the running configuration that a message set, of those that it has.
  pub cfg : List (String × Option String)
  pub published : List Reply

abbrev pub reply : Reply → Handler → Handler
reply r h = record h { published = r ∷ h.published }

abbrev pub set_attribute :
    String → String → List (String × Option String) → List (String × Option String)
set_attribute name value cfg = elim (lookup_str name cfg) [
  | none ↦ cfg
  | some old ↦ assign name (some value) cfg
]

module _ (text_of : Converted → String) where
  abbrev pub store : String → String → Handler → Handler
  store name value h =
      if h.connects
      then reply (ack name value)
          (record h { db = set_setting name value h.db; cfg = set_attribute name value h.cfg })
      else reply (failed name) h

  abbrev pub judged : String → Verdict → Handler → Handler
  judged name (rejected problem) h = reply (invalid name problem) h
  judged name (accepted value) h = store name (text_of value) h

  -- `_on_set`, on the name and the payload
  unfoldable pub set_named : String → String → Handler → Outcome Handler
  set_named name raw h =
      if contains name controllable_settings
      then (validate_and_convert name raw >>= (λ verdict. ok (judged name verdict h)))
      else ok (reply (unknown_setting name) h)

  unfoldable pub on_set : Message → Handler → Outcome Handler
  on_set msg h = set_named (last_segment msg.topic) (strip_text msg.payload) h

-- `_on_inverter`
unfoldable pub on_inverter : Message → Handler → Handler
on_inverter msg h = reply (not_implemented (last_segment msg.topic) (strip_text msg.payload)) h
