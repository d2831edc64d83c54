-- ===== src/Automation/Engine.antt =====
-- `AutomationEngine` of collector/automation.py: `evaluate_and_apply`, the evaluation of each type of
-- automation, and `_send_notification`. The database and the clock are arguments of an evaluation,
-- which happens at one moment; the log and the notices that are sent are lists, the newest first.
pub mod Schedule
pub mod Preserve
pub mod DryRun
pub mod Notices
pub mod Restore
use Prim.Native.String.{String, ◌++◌ as str_append}
use text.Mathlib.Text.{◌==◌ as str_eq}
use lux_mon.Base.{
  ℕ, ◌+◌, ◌-◌, ◌≡◌, List, [], ◌∷◌, Bool, true, false, ◌&&◌, ◌||◌, not, Option, none, some, ltb, leb,
  ◌==◌, if◌then◌else◌, Outcome, ok, raised, ℤ, pos, leb_ℤ, map,
}
use lux_mon.Base.Dict.{lookup_str, assign}
use lux_mon.Protocol.Frame.{Str}
use lux_mon.Automation.Link.{Link}
use lux_mon.Automation.Primitives.{and_then}
use lux_mon.Engineering.{finite}
use lux_mon.Automation.Write.{Entry, do_write}
use lux_mon.Automation.Clock.{Clock, current_minutes}
use lux_mon.Automation.Rule.{Condition, Range, Group, Rule}
use lux_mon.Automation.Condition.{
  Snapshot, sensor_value, all_conditions_match, find_matching_range, same_text,
}
use lux_mon.Automation.Engine.Schedule.{target_source}

-- What an evaluation is given, and what it reads: `snapshot`, the moment, in the timezone and as
-- `time.time()` in milliseconds, and the settings of the database.
pub record Call : Type 0 where
  pub snapshot : Snapshot
  pub clock : Clock
  pub time : ℕ
  pub enabled : Str
  pub dry_run : Str
  pub automations : List Rule
  pub model : String

-- A row of the log, by the function that writes it.
pub data Row : Type 0 where
  write_row : String → String → Entry → Row
  source_row : String → String → ℤ → Row
  notify_row : String → String → Row

-- A call of `notifiers.send`, with the automation it is about and its time.
pub record Notice : Type 0 where
  pub id : String
  pub name : String
  pub message : String
  pub time : ℕ

-- The connection, the engine's `_last_eval` and `_last_notify`, and what it has emitted.
pub record World (S : Type 0) : Type 0 where
  pub connection : S
  pub last_eval : List (String × Bool)
  pub last_notify : List (String × ℕ)
  pub log : List Row
  pub sent : List Notice

abbrev pub lower : ℕ → ℕ
lower c = if leb 65 c && leb c 90 then c + 32 else c

-- `str(value).lower() in ("true", "1", "yes")`
unfoldable pub is_yes : Str → Bool
is_yes value =
    let text = map lower value in
    same_text text (116 ∷ 114 ∷ 117 ∷ 101 ∷ [])
    || same_text text (49 ∷ [])
    || same_text text (121 ∷ 101 ∷ 115 ∷ [])

-- `d.get(id, default)`
abbrev pub get_or {ℓ} : {A : Type ℓ} → A → Option A → A
get_or default none = default
get_or default (some a) = a

abbrev pub was_active : {S : Type 0} → World S → Rule → Bool
was_active w auto = get_or false (lookup_str auto.id w.last_eval)

unfoldable pub set_active : {S : Type 0} → Rule → Bool → World S → World S
set_active auto active w = record w { last_eval = assign auto.id active w.last_eval }

abbrev pub add_row : {S : Type 0} → Row → World S → World S
add_row row w = record w { log = row ∷ w.log }

abbrev pub message_of : Rule → String
message_of auto =
    if str_eq auto.notify_message ""
    then str_append "Automation '" (str_append auto.name "' condition matched")
    else auto.notify_message

abbrev pub notice : Rule → ℕ → Notice
notice auto time = record { id = auto.id; name = auto.name; message = message_of auto; time = time }

-- A value to write to a setting, where there is both.
abbrev pub target : Option String → Option ℤ → Option (String × ℤ)
target none value = none
target (some setting) none = none
target (some setting) (some value) = some (setting, value)

abbrev pub matched_target : Option String → Option (Group × Range) → Option (String × ℤ)
matched_target setting none = none
matched_target setting (some (g, r)) = target setting r.action_value

abbrev pub restore_target : Bool → Option String → Option ℤ → Option (String × ℤ)
restore_target false setting value = none
restore_target true setting value = target setting value

-- `Any` of `notifiers`: none, or whether its `send` returns.
abbrev pub Sender : Type 0
Sender = Option (Notice → Bool)

-- The guards of the loop: the engine and the automation are enabled, and it is not suspended.
abbrev pub is_due : Call → Rule → Bool
is_due call auto =
    if not (is_yes call.enabled) || not auto.enabled
    then false
    else if not (auto.disabled_until == 0) && ltb call.time auto.disabled_until
    then false
    else true

module _ {S : Type 0} where
  -- The try of `_send_notification`: what raises is dropped.
  abbrev pub delivered : Rule → ℕ → Bool → World S → World S
  delivered auto time false w = w
  delivered auto time true w =
      add_row (notify_row auto.id (message_of auto)) (record w { sent = notice auto time ∷ w.sent })

  -- The result of `_do_write`, in the engine's world.
  abbrev pub logged :
      Rule → String → S × Outcome (Option Entry) → World S → World S × Outcome (Unit {0})
  logged auto setting (s, raised e) w = (record w { connection = s }, raised e)
  logged auto setting (s, ok none) w = (record w { connection = s }, ok tt)
  logged auto setting (s, ok (some e)) w =
      (add_row (write_row auto.id setting e) (record w { connection = s }), ok tt)

  abbrev pub log_source : Rule → ℕ → Option ℤ → World S → World S × Outcome (Unit {0})
  log_source auto minutes none w = (w, ok tt)
  log_source auto minutes (some soc) w =
      (add_row (source_row auto.id (target_source auto.points minutes) soc) w, ok tt)

  unfoldable pub evaluate_battery_soc : Call → Rule → World S → World S × Outcome (Unit {0})
  evaluate_battery_soc call auto w =
      and_then (w, sensor_value call.snapshot "soc")
        (λ w soc. log_source auto (current_minutes call.clock) soc w)

module _ {S : Type 0} (link : Link S) (datalog_serial inverter_serial : Str)
    (notifiers : Sender) where
  abbrev pub send_through : Rule → ℕ → Sender → World S → World S
  send_through auto time none w = w
  send_through auto time (some send) w =
      if ltb time (get_or 0 (lookup_str auto.id w.last_notify) + 300000)
      then w
      else delivered auto time (send (notice auto time))
          (record w { last_notify = assign auto.id time w.last_notify })

  unfoldable pub send_notification : Rule → ℕ → World S → World S
  send_notification auto time w = send_through auto time notifiers w

  unfoldable pub write_setting :
      String → Bool → Rule → String → ℤ → World S → World S × Outcome (Unit {0})
  write_setting model dry_run auto setting value w =
      logged auto setting
        (do_write link datalog_serial inverter_serial model setting (finite value) dry_run
          w.connection)
        w

  -- A write, where there is one, and then `_last_eval[auto.id] = active`.
  unfoldable pub apply_target :
      String → Bool → Rule → Option (String × ℤ) → Bool → World S → World S × Outcome (Unit {0})
  apply_target model dry_run auto none active w = (set_active auto active w, ok tt)
  apply_target model dry_run auto (some (setting, value)) active w =
      and_then (write_setting model dry_run auto setting value w)
        (λ w u. (set_active auto active w, ok tt))

  abbrev pub act_or_restore :
      String → Bool → Rule → Option (String × ℤ) → World S → World S × Outcome (Unit {0})
  act_or_restore model dry_run auto (some t) w = apply_target model dry_run auto (some t) true w
  act_or_restore model dry_run auto none w =
      apply_target model dry_run auto
        (restore_target (was_active w auto) auto.setting auto.restore_value) false w

  unfoldable pub evaluate_rule_table : Call → Bool → Rule → World S → World S × Outcome (Unit {0})
  evaluate_rule_table call dry_run auto w =
      and_then (w, find_matching_range auto call.snapshot call.clock)
        (λ w match. act_or_restore call.model dry_run auto (matched_target auto.setting match) w)

  abbrev pub protect :
      String → Bool → Rule → Option ℤ → Option ℤ → World S → World S × Outcome (Unit {0})
  protect model dry_run auto none threshold w = (w, ok tt)
  protect model dry_run auto (some soc) none w = (w, ok tt)
  protect model dry_run auto (some soc) (some threshold) w =
      if leb_ℤ soc threshold
      then apply_target model dry_run auto
          (target (some "shutdown_battery_voltage") auto.action_value) true w
      else apply_target model dry_run auto
          (restore_target (was_active w auto) (some "shutdown_battery_voltage") auto.restore_value)
          false w

  unfoldable pub evaluate_battery_protection :
      Call → Bool → Rule → World S → World S × Outcome (Unit {0})
  evaluate_battery_protection call dry_run auto w =
      and_then (w, sensor_value call.snapshot "soc")
        (λ w soc. protect call.model dry_run auto soc auto.threshold w)

  unfoldable pub evaluate_notify : Rule → ℕ → Bool → World S → World S
  evaluate_notify auto time matched w =
      set_active auto matched
        (if matched && not (was_active w auto) then send_notification auto time w else w)

  unfoldable pub evaluate_one : Call → Bool → Rule → World S → World S × Outcome (Unit {0})
  evaluate_one call dry_run auto w =
      and_then (w, all_conditions_match auto.conditions call.snapshot call.clock)
        (λ w matched.
          if str_eq auto.type "notify"
          then (evaluate_notify auto call.time matched w, ok tt)
          else if str_eq auto.type "battery_protection"
          then evaluate_battery_protection call dry_run auto w
          else if str_eq auto.type "battery_soc"
          then evaluate_battery_soc call auto w
          else evaluate_rule_table call dry_run auto w)

  unfoldable pub evaluate_all : Call → List Rule → World S → World S
  evaluate_all call [] w = w
  evaluate_all call (auto ∷ autos) w =
      evaluate_all call autos
        (if is_due call auto then (evaluate_one call (is_yes call.dry_run) auto w).0 else w)

  unfoldable pub evaluate_and_apply : Call → World S → World S
  evaluate_and_apply call w = evaluate_all call call.automations w
