-- ===== src/Automation/Engine/Preserve.antt =====
-- What the steps of one automation keep, its evaluation and the loop over all automations keep.
use Prim.Native.String.{String}
use text.Mathlib.Text.{◌==◌ as str_eq}
use lux_mon.Base.{
  ℕ, ◌+◌, ltb, ◌≡◌, refl, List, [], ◌∷◌, Bool, true, false, ◌&&◌, not, Option, none, some,
  if◌then◌else◌, Outcome, ok, raised, ℤ, leb_ℤ, All, Bool-cases, inl, inr,
}
use lux_mon.Base.Dict.{lookup_str, assign}
use lux_mon.Protocol.Frame.{Str}
use lux_mon.Automation.Link.{Link}
use lux_mon.Automation.Primitives.{and_then}
use lux_mon.Engineering.{finite}
use lux_mon.Automation.Write.{Entry, do_write}
use lux_mon.Automation.Clock.{current_minutes}
use lux_mon.Automation.Rule.{Range, Group, Rule}
use lux_mon.Automation.Condition.{sensor_value, all_conditions_match, find_matching_range}
use lux_mon.Automation.Engine.{
  Call, Row, World, Sender, Notice, notice, get_or, send_through, delivered, logged, was_active,
  set_active, add_row, matched_target, send_notification, write_setting, apply_target,
  act_or_restore, evaluate_rule_table, protect, evaluate_battery_protection, log_source,
  evaluate_battery_soc, evaluate_notify, evaluate_one, is_due, is_yes, evaluate_all,
}

pub All-rules {ℓ} : (P : Rule → Type ℓ) (autos : List Rule) → ((auto : Rule) → P auto) → All P autos
All-rules P [] k = tt
All-rules P (auto ∷ autos) k = (k auto, All-rules P autos k)

module _ {S : Type 0} (link : Link S) (datalog inverter : Str) (notifiers : Sender) where
  -- A notification leaves everything but its own fields as it is.
  pub send_notification-cases :
      (P : World S → Type 0) (auto : Rule) (time : ℕ) (w : World S)
      → P w
      → ((send : Notice → Bool)
          → ltb time (get_or 0 (lookup_str auto.id w.last_notify) + 300000) ≡ false
          → P (
              delivered auto time
                (send (notice auto time))
                (record w { last_notify = assign auto.id time w.last_notify })))
      → P (send_notification link datalog inverter notifiers auto time w)
  unfolding send_notification
  send_notification-cases P auto time w p k = through notifiers
    where
      through : (s : Sender) → P (send_through link datalog inverter notifiers auto time s w)
      through none = p
      through (some send) =
          elim (Bool-cases (ltb time (get_or 0 (lookup_str auto.id w.last_notify) + 300000))) [
            | inl t ↦ rw t p
            | inr f ↦ rw f (k send f)
          ]

  -- A write changes the connection, and adds a row to the log at most.
  pub write_setting-cases :
      (P : World S → Type 0) (model : String) (dry_run : Bool) (auto : Rule) (setting : String)
      (value : ℤ) (w : World S)
      → ((s : S) → P (record w { connection = s }))
      → ((s : S) (row : Row) → P (add_row row (record w { connection = s })))
      → P (write_setting link datalog inverter notifiers model dry_run auto setting value w).0
  unfolding write_setting
  write_setting-cases P model dry_run auto setting value w p q =
      answered (do_write link datalog inverter model setting (finite value) dry_run w.connection)
    where
      answered : (x : S × Outcome (Option Entry)) → P (logged auto setting x w).0
      answered (s, raised e) = p s
      answered (s, ok none) = p s
      answered (s, ok (some e)) = q s _

module _ {S : Type 0} (link : Link S) (datalog inverter : Str) (notifiers : Sender)
    (P : World S → Type 0) where
  -- The steps of an automation: each keeps the predicate.
  pub record Keeps (dry_run : Bool) (auto : Rule) : Type 0 where
    pub set : (active : Bool) (w : World S) → P w → P (set_active auto active w)
    pub send :
        (time : ℕ) (w : World S)
        → P w
        → P (send_notification link datalog inverter notifiers auto time w)
    pub write :
        (model setting : String) (value : ℤ) (w : World S)
        → P w
        → P (write_setting link datalog inverter notifiers model dry_run auto setting value w).0
    pub row : (row : Row) (w : World S) → P w → P (add_row row w)

  module _ (dry_run : Bool) (auto : Rule) (keeps : Keeps dry_run auto) where
    apply_target-keeps :
        (model : String) (t : Option (String × ℤ)) (active : Bool) (w : World S)
        → P w
        → P (apply_target link datalog inverter notifiers model dry_run auto t active w).0
    unfolding apply_target
    apply_target-keeps model none active w p = keeps.set active w p
    apply_target-keeps model (some (setting, value)) active w p =
        ended (write_setting link datalog inverter notifiers model dry_run auto setting value w)
          (keeps.write model setting value w p)
      where
        ended :
            (x : World S × Outcome (Unit {0}))
            → P x.0
            → P (and_then {0} x (λ w u. (set_active auto active w, ok tt))).0
        ended (w', raised e) q = q
        ended (w', ok u) q = keeps.set active w' q

    rule_table-keeps :
        (call : Call) (w : World S)
        → P w
        → P (evaluate_rule_table link datalog inverter notifiers call dry_run auto w).0
    unfolding evaluate_rule_table
    rule_table-keeps call w p = found (find_matching_range auto call.snapshot call.clock)
      where
        acted :
            (t : Option (String × ℤ))
            → P (act_or_restore link datalog inverter notifiers call.model dry_run auto t w).0
        acted none = apply_target-keeps call.model _ false w p
        acted (some t) = apply_target-keeps call.model (some t) true w p

        found :
            (o : Outcome (Option (Group × Range)))
            → P
                (and_then
                  (w, o)
                  (λ w match.
                    act_or_restore link datalog inverter notifiers call.model dry_run auto
                      (matched_target auto.setting match)
                      w)).0
        found (raised e) = p
        found (ok match) = acted (matched_target auto.setting match)

    protection-keeps :
        (call : Call) (w : World S)
        → P w
        → P (evaluate_battery_protection link datalog inverter notifiers call dry_run auto w).0
    unfolding evaluate_battery_protection
    protection-keeps call w p = read (sensor_value call.snapshot "soc")
      where
        protected :
            (soc threshold : Option ℤ)
            → P (protect link datalog inverter notifiers call.model dry_run auto soc threshold w).0
        protected none threshold = p
        protected (some soc) none = p
        protected (some soc) (some threshold) = elim (Bool-cases (leb_ℤ soc threshold)) [
          | inl t ↦ rw t (apply_target-keeps call.model _ true w p)
          | inr f ↦ rw f (apply_target-keeps call.model _ false w p)
        ]

        read :
            (o : Outcome (Option ℤ))
            → P
                (and_then
                  (w, o)
                  (λ w soc.
                    protect link datalog inverter notifiers call.model dry_run auto soc
                      auto.threshold w)).0
        read (raised e) = p
        read (ok soc) = protected soc auto.threshold

    battery_soc-keeps : (call : Call) (w : World S) → P w → P (evaluate_battery_soc call auto w).0
    unfolding evaluate_battery_soc
    battery_soc-keeps call w p = read (sensor_value call.snapshot "soc")
      where
        read :
            (o : Outcome (Option ℤ))
            → P (and_then (w, o) (λ w soc. log_source auto (current_minutes call.clock) soc w)).0
        read (raised e) = p
        read (ok none) = p
        read (ok (some soc)) = keeps.row _ w p

    notify-keeps :
        (time : ℕ) (matched : Bool) (w : World S)
        → P w
        → P (evaluate_notify link datalog inverter notifiers auto time matched w)
    unfolding evaluate_notify
    notify-keeps time matched w p = elim (Bool-cases (matched && not (was_active w auto))) [
      | inl t ↦ rw t (keeps.set matched _ (keeps.send time w p))
      | inr f ↦ rw f (keeps.set matched w p)
    ]

    pub evaluate_one-keeps :
        (call : Call) (w : World S)
        → P w
        → P (evaluate_one link datalog inverter notifiers call dry_run auto w).0
    unfolding evaluate_one
    evaluate_one-keeps call w p =
        matched (all_conditions_match auto.conditions call.snapshot call.clock)
      where
        dispatched :
            (m a b c : Bool)
            → P
                (if a
                  then (evaluate_notify link datalog inverter notifiers auto call.time m w, ok tt)
                  else if b
                  then evaluate_battery_protection link datalog inverter notifiers call dry_run auto
                      w
                  else if c
                  then evaluate_battery_soc call auto w
                  else evaluate_rule_table link datalog inverter notifiers call dry_run auto w).0
        dispatched m true b c = notify-keeps call.time m w p
        dispatched m false true c = protection-keeps call w p
        dispatched m false false true = battery_soc-keeps call w p
        dispatched m false false false = rule_table-keeps call w p

        matched :
            (o : Outcome Bool)
            → P
                (and_then
                  (w, o)
                  (λ w m.
                    if str_eq auto.type "notify"
                    then (evaluate_notify link datalog inverter notifiers auto call.time m w, ok tt)
                    else if str_eq auto.type "battery_protection"
                    then evaluate_battery_protection link datalog inverter notifiers call dry_run
                        auto w
                    else if str_eq auto.type "battery_soc"
                    then evaluate_battery_soc call auto w
                    else evaluate_rule_table link datalog inverter notifiers call dry_run auto w)).0
        matched (raised e) = p
        matched (ok m) =
            dispatched m (str_eq auto.type "notify") (str_eq auto.type "battery_protection")
              (str_eq auto.type "battery_soc")

  -- What the steps of every automation that is due keep, an evaluation keeps.
  pub evaluate_all-keeps :
      (call : Call) (autos : List Rule)
      → All (λ auto. is_due call auto ≡ true → Keeps (is_yes call.dry_run) auto) autos
      → (w : World S) → P w
      → P (evaluate_all link datalog inverter notifiers call autos w)
  unfolding evaluate_all
  evaluate_all-keeps call [] h w p = p
  evaluate_all-keeps call (auto ∷ autos) (h, hs) w p =
      evaluate_all-keeps call autos hs _ (stepped (is_due call auto) h)
    where
      stepped :
          (due : Bool)
          → (due ≡ true → Keeps (is_yes call.dry_run) auto)
          → P (
              if due
              then (evaluate_one link datalog inverter notifiers call
                  (is_yes call.dry_run)
                  auto
                  w).0
              else w)
      stepped false k = p
      stepped true k = evaluate_one-keeps (is_yes call.dry_run) auto (k refl) call w p
