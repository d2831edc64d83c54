-- ===== src/Tests/Settings.antt =====
-- Settings in the database, and commands over MQTT.
use Prim.Native.String.{String}
use lux_mon.Base.{sym, ◌∙◌, ◌≡◌, refl, [], ◌∷◌, true, false, none, some, pos, ◌≤ℤ◌}
use text.Mathlib.Text.{◌==◌ as str_eq}
use text.Mathlib.TextEquality.{eq_iff}
use lux_mon.Base.Dict.{str_eq_refl, lookup_str}
use lux_mon.Engineering.{times}
use lux_mon.Automation.Clock.{strip, lstrip, reversed}
use lux_mon.Automation.Condition.{same_text}
use lux_mon.Settings.Collation.{Collation}
use lux_mon.Settings.Store.{Db, get, get_all}
use lux_mon.Settings.Store.Seed.{get_value, get-get_all}
use lux_mon.Mqtt.Text.{codes}
use lux_mon.Base.Float.{nearest, halvings, doublings, finite}
use lux_mon.Mqtt.Number.{literal, below, float_of, with_sign, unsigned, decimal, is_below, is_above}
use lux_mon.Mqtt.Validate.{Converted, float_text, validate_type}
use lux_mon.Mqtt.Validate.Within.{validate_type-Within}
use lux_mon.Mqtt.Commands.{Handler, Message, ack}

-- A collation that tells all names apart.
exact_sym : (j k : String) → str_eq j k ≡ true → str_eq k j ≡ true
exact_sym j k h = (eq_iff k j).1 (sym ((eq_iff j k).0 h))

exact_trans : (i j k : String) → str_eq i j ≡ true → str_eq j k ≡ true → str_eq i k ≡ true
exact_trans i j k h g = (eq_iff i k).1 ((eq_iff i j).0 h ∙ (eq_iff j k).0 g)

abbrev exact : Collation
exact = record {
  same = str_eq;
  same_refl = str_eq_refl;
  same_sym = exact_sym;
  same_trans = exact_trans;
}

abbrev table : Db
table = record { working = true; collation = exact; rows = ("timezone", some "UTC") ∷ [] }

get-get_all_example : get table "timezone" ≡ get_value (lookup_str "timezone" (get_all table))
unfolding lookup_str
get-get_all_example = get-get_all table "timezone" (refl, tt) (refl, tt)

abbrev seeded : Db
seeded = record table { rows = ("dongle_host", some "10.0.0.2") ∷ [] }

-- The exact value is above the upper bound 90, but `float` rounds it to 90.
validate_type-Within_example :
    (times 70368744177664 (pos 4503599627370496) ≤ℤ times 4503599627370496 (pos 6333186975989760))
    × (times 70368744177664 (pos 6333186975989760) ≤ℤ times 70368744177664 (pos 6333186975989760))
unfolding literal nearest halvings doublings float_of with_sign unsigned decimal codes validate_type
    is_below is_above below strip lstrip reversed same_text times
validate_type-Within_example =
    validate_type-Within (pos 1000000) (pos 90000000) none "90.000000000000000001"
      (pos 6333186975989760) (pos 4503599627370496) (pos 6333186975989760) 70368744177664
      4503599627370496 70368744177664 (float_text (finite (pos 6333186975989760) 70368744177664))
      refl refl refl refl

abbrev text_of : Converted → String
text_of (Converted.kept s) = s
text_of v = "1"

abbrev unit_message : Message
unit_message = record { topic = "luxmon/dev/set/temperature_unit"; payload = "celsius" }

abbrev down : Handler
down = record { connects = true; db = record table { working = false }; cfg = []; published = [] }

abbrev set_value : Handler → Handler
set_value h = record h { published = ack "temperature_unit" "celsius" ∷ [] }
