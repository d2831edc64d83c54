-- ===== src/Alerts/Engine.antt =====
-- `Alerts.evaluate` and `_publish` of collector/alerts.py: the states of the alerts, and what is
-- published when one of them changes. What the MQTT client takes is recorded with its topic, newest
-- first; a publication that raises is dropped, and leaves the state and the announcement as they are.
pub mod Synced
use Prim.Native.String.{String, ◌++◌ as str_append}
use text.Mathlib.Text.{◌==◌ as str_eq}
use lux_mon.Base.{
  ℕ, List, [], ◌∷◌, ◌++◌, Bool, true, false, ◌&&◌, ◌||◌, not, Option, none, some, if◌then◌else◌, ℤ,
}
use lux_mon.Base.Dict.{lookup_str, assign, contains}
use lux_mon.Automation.Condition.{Snapshot}
use lux_mon.Alerts.Rules.{Limits, Result, results, grid_lost_since, is_grid_present}
use lux_mon.Alerts.Notifiers.{NotifyConfig, Notifiers, Letter, send}

-- Whether there is an MQTT client and a database, on which topics a publication does not raise, whether
-- an insertion into the table does not, and the settings that are read.
pub record AlertConfig : Type 0 where
  pub alerts_enabled : Bool
  pub limits : Limits
  pub mqtt_client : Bool
  pub takes : String → Bool
  pub mqtt_topic_prefix : String
  pub mqtt_device_id : String
  pub ha_discovery : Bool
  pub mqtt_ha_prefix : String
  pub mariadb : Bool
  pub inserts : Bool
  pub notify : NotifyConfig

pub record Alerts : Type 0 where
  pub state : List (String × Bool)
  pub grid_lost_since : Option ℕ
  pub ha_announced : List String
  -- What went to the state topics, with them; the alerts announced, with the discovery topics; and
  -- what went to the table of alerts.
  pub published : List (String × Result)
  pub discovered : List (String × String)
  pub stored : List Result
  pub notifiers : Notifiers

-- `self._state.get(name, False)`
abbrev pub flag_of : Option Bool → Bool
flag_of none = false
flag_of (some b) = b

unfoldable pub is_on : List (String × Bool) → String → Bool
is_on state name = flag_of (lookup_str name state)

abbrev pub same_bool : Bool → Bool → Bool
same_bool true b = b
same_bool false b = not b

-- `getattr(self.cfg, name, default) or default`
abbrev pub or_default : String → String → String
or_default text default = if str_eq text "" then default else text

abbrev pub device_id : AlertConfig → String
device_id cfg = or_default cfg.mqtt_device_id "luxmon_solar"

-- What the topic of every alert starts with, and the topic: `f"{topic_prefix}/{device_id}/alert/{name}"`.
unfoldable pub topic_base : AlertConfig → String
topic_base cfg =
    str_append (or_default cfg.mqtt_topic_prefix "luxmon")
      (str_append "/" (str_append (device_id cfg) "/alert/"))

abbrev pub alert_topic : AlertConfig → String → String
alert_topic cfg name = str_append (topic_base cfg) name

-- `f"{ha_prefix}/binary_sensor/{device_id}_alert_{name}/config"`
unfoldable pub discovery_topic : AlertConfig → String → String
discovery_topic cfg name = str_append (or_default cfg.mqtt_ha_prefix "homeassistant") (
    str_append "/binary_sensor/"
      (str_append (device_id cfg) (str_append "_alert_" (str_append name "/config"))))

abbrev pub discover : AlertConfig → String → Alerts → Alerts
discover cfg name a =
    if cfg.takes (discovery_topic cfg name)
    then record a { discovered = (name, discovery_topic cfg name) ∷ a.discovered }
    else a

unfoldable pub publish_ha_discovery : AlertConfig → String → Alerts → Alerts
publish_ha_discovery cfg name a =
    if contains name a.ha_announced
    then a
    else discover cfg name (record a { ha_announced = name ∷ a.ha_announced })

abbrev pub announce : AlertConfig → String → Alerts → Alerts
announce cfg name a = if cfg.ha_discovery then publish_ha_discovery cfg name a else a

abbrev pub publish_state : AlertConfig → Result → Alerts → Alerts
publish_state cfg r a =
    if cfg.takes (alert_topic cfg r.name)
    then record a { published = (alert_topic cfg r.name, r) ∷ a.published }
    else a

abbrev pub publish_mqtt : AlertConfig → Result → Alerts → Alerts
publish_mqtt cfg r a = if cfg.mqtt_client then announce cfg r.name (publish_state cfg r a) else a

abbrev pub publish_row : AlertConfig → Result → Alerts → Alerts
publish_row cfg r a = if cfg.mariadb && cfg.inserts then record a { stored = r ∷ a.stored } else a

unfoldable pub publish : AlertConfig → Result → Alerts → Alerts
publish cfg r a = publish_row cfg r (publish_mqtt cfg r a)

abbrev pub letter_of : Result → Letter
letter_of r = record {
  alert_name = r.name;
  active = r.active;
  value = r.value;
  message = r.message;
}

abbrev pub notify : AlertConfig → ℕ → Result → Alerts → Alerts
notify cfg now r a = record a { notifiers = send cfg.notify now (letter_of r) a.notifiers }

-- The body of the loop over the results.
unfoldable pub apply_result : AlertConfig → ℕ → Result → Alerts → Alerts
apply_result cfg now r a =
    let noted = record a { state = assign r.name r.active a.state } in
    if same_bool r.active (is_on a.state r.name)
    then noted
    else notify cfg now r (publish cfg r noted)

unfoldable pub apply_results : AlertConfig → ℕ → List Result → Alerts → Alerts
apply_results cfg now [] a = a
apply_results cfg now (r ∷ rs) a = apply_results cfg now rs (apply_result cfg now r a)

-- `evaluate`: the new state, and the results that it returns.
unfoldable pub evaluate : AlertConfig → Snapshot → ℕ → Alerts → Alerts × List Result
evaluate cfg decoded now a =
    if not cfg.alerts_enabled
    then (a, [])
    else (let rs = results cfg.limits decoded now a.grid_lost_since in
        let b = record a {
          grid_lost_since = grid_lost_since (is_grid_present decoded) now a.grid_lost_since;
        } in
        (apply_results cfg now rs b, rs))
