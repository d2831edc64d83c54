-- ===== src/Tests/Engine.antt =====
-- Evaluations of automations over a link that answers by a script.
use lux_mon.Base.{ℕ, ◌≡◌, refl, [], ◌∷◌, ◌++◌, true, false, none, some, ok, leb, pos, arith}
use lux_mon.Base.Dict.{lookup_str}
use lux_mon.Automation.Clock.{Clock, current_minutes}
use lux_mon.Automation.Clock.Times.{hhmm}
use lux_mon.Automation.Rule.{Condition, Rule}
use lux_mon.Automation.Condition.{
  Snapshot, plain, number, time_matches, condition_matches, sensor_value, find_matching_range,
  find_in_groups, find_in_group,
}
use lux_mon.Automation.Condition.First.{find_matching_range-first_such, first_such, row_holds, rows}
use lux_mon.Automation.Condition.Window.{time_matches-window, minutes_from}
use lux_mon.Automation.Engine.{
  Call, World, Sender, notice, is_yes, set_active, apply_target, evaluate_rule_table,
  evaluate_and_apply, evaluate_all, evaluate_one, evaluate_notify, send_notification,
}
use lux_mon.Automation.Condition.{all_conditions_match}
use lux_mon.Base.Dict.{assign}
use lux_mon.Automation.Condition.{same_text}
use lux_mon.Automation.Engine.DryRun.{evaluate_and_apply-dry_run, evaluate_and_apply-not_due}
use lux_mon.Automation.Engine.Notices.{start, evaluated, Spaced, Reached-Spaced}
use lux_mon.Automation.Engine.Restore.{evaluate_rule_table-restored}
use lux_mon.Tests.Protocol.{serial, other_serial}
use lux_mon.Tests.Automation.{scripted_link}

-- The state of charge is 20% at most.
abbrev low_battery : Condition
low_battery = record { kind = "battery_soc"; min = none; max = some (pos 20000); value = none }

abbrev evening : Condition
evening = record {
  kind = "time_of_day";
  min = none;
  max = none;
  value = some (hhmm 1320 ++ 45 ∷ hhmm 360);
}

abbrev slow_charge : Rule
slow_charge = record {
  id = "slow";
  name = "Slow charge";
  type = "rule_table";
  enabled = true;
  disabled_until = 0;
  setting = some "charge_power_percent";
  groups =
      record {
        condition = low_battery;
        ranges = record { condition = low_battery; action_value = some (pos 50000) } ∷ [];
      }
      ∷ [];
  conditions = [];
  action_value = none;
  restore_value = some (pos 80000);
  points = [];
  threshold = none;
  notify_message = "";
}

abbrev half_past_eleven : Clock
half_past_eleven = record {
  hour = 23;
  minute = 30;
  weekday = 77 ∷ 111 ∷ 110 ∷ [];
  month = 74 ∷ 97 ∷ 110 ∷ [];
}

abbrev soc_at : ℕ → Snapshot
soc_at v = ("soc", plain (number (pos v))) ∷ []

-- A dry run at a state of charge.
abbrev dry_call : ℕ → Call
dry_call v = record {
  snapshot = soc_at v;
  clock = half_past_eleven;
  time = 1000000;
  enabled = 89 ∷ 69 ∷ 83 ∷ [];
  dry_run = 116 ∷ 114 ∷ 117 ∷ 101 ∷ [];
  automations = slow_charge ∷ [];
  model = "eg4_6000xp";
}

abbrev fresh : World ℕ
fresh = record { connection = 0; last_eval = []; last_notify = []; log = []; sent = [] }

abbrev send_all : Sender
send_all = some (λ notice. true)

evaluate_and_apply-dry_run_example :
    (evaluate_and_apply scripted_link serial other_serial send_all
      (dry_call 15000)
      fresh).connection
    ≡ 0
unfolding is_yes same_text
evaluate_and_apply-dry_run_example =
    evaluate_and_apply-dry_run scripted_link serial other_serial send_all (dry_call 15000) fresh
      refl

evaluate_and_apply-not_due_example :
    let w' = evaluate_and_apply scripted_link serial other_serial send_all (dry_call 15000) fresh in
    (lookup_str "other" w'.last_eval ≡ lookup_str "other" fresh.last_eval)
    × (lookup_str "other" w'.last_notify ≡ lookup_str "other" fresh.last_notify)
evaluate_and_apply-not_due_example =
    evaluate_and_apply-not_due scripted_link serial other_serial send_all (dry_call 15000) fresh
      "other" ((λ due. refl), tt)

abbrev low_notice : Rule
low_notice = record slow_charge {
  id = "low";
  name = "Low battery";
  type = "notify";
  conditions = low_battery ∷ [];
}

abbrev notify_call : ℕ → ℕ → Call
notify_call v now = record (dry_call v) { time = now; automations = low_notice ∷ [] }

-- Low, then high, then low again: too soon for a second notice, and once more after it is high, late
-- enough for one.
abbrev notified : World ℕ
notified =
    let go = evaluate_and_apply scripted_link serial other_serial send_all in
    go (notify_call 15000 1600000) (
      go (notify_call 60000 1500000) (
        go (notify_call 15000 1200000)
          (go (notify_call 60000 1100000) (go (notify_call 15000 1000000) fresh))))

-- Two notices were sent, at 1000 s and at 1600 s.
notified_sent : notified.sent ≡ notice low_notice 1600000 ∷ notice low_notice 1000000 ∷ []
unfolding evaluate_and_apply evaluate_all is_yes same_text evaluate_one all_conditions_match
    condition_matches lookup_str sensor_value evaluate_notify set_active assign send_notification
notified_sent = refl

Reached-Spaced_example : Spaced notified.sent
Reached-Spaced_example = Reached-Spaced scripted_link serial other_serial send_all notified (
    evaluated (notify_call 15000 1600000) (
      evaluated (notify_call 60000 1500000) (
        evaluated (notify_call 15000 1200000) (
          evaluated (notify_call 60000 1100000)
            (evaluated (notify_call 15000 1000000) (start 0))))))

-- At 60% no row of the table matches.
unmatched : find_matching_range slow_charge (soc_at 60000) half_past_eleven ≡ ok none
unfolding find_matching_range find_in_groups find_in_group condition_matches sensor_value lookup_str
unmatched = refl

idle :
    evaluate_rule_table scripted_link serial other_serial send_all
      (dry_call 60000)
      true
      slow_charge
      fresh
    ≡ (set_active slow_charge false fresh, ok tt)
unfolding evaluate_rule_table apply_target set_active lookup_str find_matching_range find_in_groups
    find_in_group condition_matches sensor_value
idle = refl

evaluate_rule_table-restored_example :
    evaluate_rule_table scripted_link serial other_serial send_all
      (dry_call 60000)
      false
      slow_charge
      (set_active slow_charge false fresh)
    ≡ (set_active slow_charge false (set_active slow_charge false fresh), ok tt)
evaluate_rule_table-restored_example =
    evaluate_rule_table-restored scripted_link serial other_serial send_all (dry_call 60000)
      (dry_call 60000) true false slow_charge none none fresh (set_active slow_charge false fresh)
      unmatched refl idle unmatched refl

find_matching_range-first_such_example :
    find_matching_range slow_charge (soc_at 15000) half_past_eleven
    ≡ ok (first_such (row_holds (soc_at 15000) half_past_eleven) (rows slow_charge.groups))
unfolding condition_matches sensor_value lookup_str
find_matching_range-first_such_example =
    find_matching_range-first_such slow_charge (soc_at 15000) half_past_eleven
      ((refl, (refl, tt)), tt)

time_matches-window_example :
    time_matches (some (hhmm 1320 ++ 45 ∷ hhmm 360)) "time_of_day" half_past_eleven
    ≡ leb (minutes_from 1320 (current_minutes half_past_eleven)) (minutes_from 1320 360)
time_matches-window_example =
    time_matches-window 1320 360 half_past_eleven (omega arith) (omega arith) (omega arith)
