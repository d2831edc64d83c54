-- ===== src/Tests/Alerts.antt =====
-- Evaluations of the alerts.
use Prim.Native.String.{String}
use lux_mon.Base.{◌+◌, ◌≤◌, ◌≡◌, refl, [], ◌∷◌, true, false, none, some, leb, length, pos, arith}
use lux_mon.Base.Dict.{lookup_str, contains, assign}
use lux_mon.Automation.Condition.{Snapshot, plain, number}
use lux_mon.Alerts.Rules.{
  results, num, is_grid_present, result, falsy, reads, soc_at_or_below, grid_lost_since,
  grid_result,
}
use lux_mon.Alerts.Rules.Grid.{after_absences, grid_result-run}
use lux_mon.Alerts.Notifiers.{NotifyConfig, Notifiers, Letter, send_email}
use lux_mon.Alerts.Notifiers.Throttle.{send_email-twice}
use lux_mon.Alerts.Engine.{
  AlertConfig, Alerts, topic_base, is_on, evaluate, apply_results, apply_result, publish,
  publish_ha_discovery,
}
use lux_mon.Alerts.Engine.Synced.{
  Reached, names, start, evaluated, seen, Alternates, Distinct, Reached-agree, Reached-Alternates,
}

abbrev mail_config : NotifyConfig
mail_config = record {
  alerts_enabled = true;
  email_enabled = true;
  smtp_host = "mail";
  email_username = "user";
  email_password = "secret";
  email_from = "lux";
  email_to = "me";
  recipients = "me" ∷ [];
  webhook_enabled = false;
  webhook_url = "";
}

abbrev config : AlertConfig
config = record {
  alerts_enabled = true;
  limits = record {
    soc_low = reads (pos 25000);
    soc_critical = falsy;
    battery_temp_high = falsy;
    inverter_temp_high = falsy;
    grid_lost_threshold = falsy;
  };
  mqtt_client = true;
  takes = λ topic. true;
  mqtt_topic_prefix = "home";
  mqtt_device_id = "";
  ha_discovery = true;
  mqtt_ha_prefix = "";
  mariadb = false;
  inserts = true;
  notify = mail_config;
}

abbrev no_mails : Notifiers
no_mails = record { last_sent = []; mails = []; hooks = [] }

abbrev quiet : Alerts
quiet = record {
  state = [];
  grid_lost_since = none;
  ha_announced = [];
  published = [];
  discovered = [];
  stored = [];
  notifiers = no_mails;
}

abbrev low : Snapshot
low = ("soc", plain (number (pos 21000))) ∷ []

abbrev high : Snapshot
high = ("soc", plain (number (pos 90000))) ∷ []

-- The alert of a low battery is raised, and cleared a second later.
abbrev then_cleared : Alerts
then_cleared = (evaluate config high 2000 (evaluate config low 1000 quiet).0).0

abbrev base : String
base = "home/luxmon_solar/alert/"

topic_base-config : topic_base config ≡ base
unfolding topic_base
topic_base-config = refl

cleared_reached : Reached base then_cleared
cleared_reached =
    evaluated config high 2000 refl topic_base-config (λ topic. refl)
      (evaluated config low 1000 refl topic_base-config (λ topic. refl) (start no_mails))

Reached-agree_example :
    is_on then_cleared.state "battery_soc_low"
    ≡ seen then_cleared.published "home/luxmon_solar/alert/battery_soc_low"
Reached-agree_example = Reached-agree base then_cleared cleared_reached "battery_soc_low"

-- On and then off were published.
both_published :
    then_cleared.published
    ≡ (
      "home/luxmon_solar/alert/battery_soc_low",
      result "battery_soc_low" false (pos 90000) (soc_at_or_below (some (pos 90000)) (pos 25000)),
    )
      ∷ (
        "home/luxmon_solar/alert/battery_soc_low",
        result "battery_soc_low" true (pos 21000) (soc_at_or_below (some (pos 21000)) (pos 25000)),
      )
      ∷ []
unfolding evaluate apply_results results apply_result num lookup_str is_on grid_result
    is_grid_present publish publish_ha_discovery contains assign grid_lost_since topic_base
both_published = refl

Reached-Alternates_example :
    Alternates then_cleared.published × Distinct (names then_cleared.discovered)
Reached-Alternates_example = Reached-Alternates base then_cleared cleared_reached

-- An earlier absence, at 5 s, that ended at 8 s.
grid_result-run_example :
    let lost = after_absences (10000 ∷ 20000 ∷ []) (grid_lost_since true 8000 (some 5000)) in
    (grid_result false 41000 (pos 30000) (pos 0) lost).active ≡ leb (10000 + 30000) 41000
grid_result-run_example =
    grid_result-run (some 5000) 8000 10000 (20000 ∷ []) 41000 30000 (pos 0) (omega arith)

abbrev raised : Letter
raised = record {
  alert_name = "battery_soc_low";
  active = true;
  value = pos 21000;
  message = soc_at_or_below (some (pos 21000)) (pos 25000);
}

abbrev cleared : Letter
cleared = record {
  alert_name = "battery_soc_low";
  active = false;
  value = pos 30000;
  message = soc_at_or_below (some (pos 30000)) (pos 25000);
}

send_email-twice_example :
    length
      (send_email mail_config 1060000 cleared
        (send_email mail_config 1000000 raised no_mails)).mails
    ≤ length no_mails.mails + 1
send_email-twice_example =
    send_email-twice mail_config 1000000 1060000 raised cleared no_mails refl (omega arith)
