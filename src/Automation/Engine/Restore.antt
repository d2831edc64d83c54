-- ===== src/Automation/Engine/Restore.antt =====
-- What a rule table remembers of its last evaluation, and when it writes back its restore value.
use Prim.Native.String.{String}
use lux_mon.Base.{ℤ, ◌≡◌, refl, subst, Bool, true, false, Option, none, some, Outcome, ok, raised}
use lux_mon.Base.Dict.{lookup_str, lookup-assign_self}
use lux_mon.Protocol.Frame.{Str}
use lux_mon.Automation.Link.{Link}
use lux_mon.Automation.Primitives.{and_then}
use lux_mon.Engineering.{finite}
use lux_mon.Automation.Write.{Entry, do_write}
use lux_mon.Automation.Condition.{find_matching_range}
use lux_mon.Automation.Rule.{Rule, Range, Group}
use lux_mon.Automation.Engine.{
  Call, World, Sender, matched_target, set_active, logged, write_setting, apply_target,
  act_or_restore, evaluate_rule_table,
}

module _ {S : Type 0} (link : Link S) (datalog inverter : Str) (notifiers : Sender) where
  -- Where a step returns, the automation is remembered as the flag says; where it raises, the
  -- memory is as it was.
  abbrev pub Remembers : Bool → Rule → World S → World S × Outcome (Unit {0}) → Type 0
  Remembers active auto w (w', ok u) = lookup_str auto.id w'.last_eval ≡ some active
  Remembers active auto w (w', raised e) = w'.last_eval ≡ w.last_eval

  apply_target-Remembers :
      (model : String) (dry_run : Bool) (auto : Rule) (t : Option (String × ℤ)) (active : Bool)
      (w : World S)
      → Remembers active auto w
          (apply_target link datalog inverter notifiers model dry_run auto t active w)
  unfolding apply_target set_active write_setting
  apply_target-Remembers model dry_run auto none active w =
      lookup-assign_self auto.id active w.last_eval
  apply_target-Remembers model dry_run auto (some (setting, value)) active w =
      written (do_write link datalog inverter model setting (finite value) dry_run w.connection)
    where
      written :
          (x : S × Outcome (Option Entry))
          → Remembers active auto w
              (and_then {0} (logged auto setting x w) (λ w u. (set_active auto active w, ok tt)))
      written (s, raised e) = refl
      written (s, ok none) = lookup-assign_self auto.id active w.last_eval
      written (s, ok (some e)) = lookup-assign_self auto.id active w.last_eval

  abbrev pub has_target : Option (String × ℤ) → Bool
  has_target none = false
  has_target (some t) = true

  -- An evaluation of a rule table that returns remembers the table as active if and only if its
  -- matching row gives a value to write; one that raises in a read or a write remembers nothing new.
  pub evaluate_rule_table-Remembers :
      (call : Call) (dry_run : Bool) (auto : Rule) (match : Option (Group × Range)) (w : World S)
      → find_matching_range auto call.snapshot call.clock ≡ ok match
      → Remembers
          (has_target (matched_target auto.setting match))
          auto
          w
          (evaluate_rule_table link datalog inverter notifiers call dry_run auto w)
  unfolding evaluate_rule_table
  evaluate_rule_table-Remembers call dry_run auto match w e =
      rw e (acted (matched_target auto.setting match))
    where
      acted :
          (t : Option (String × ℤ))
          → Remembers
              (has_target t)
              auto
              w
              (act_or_restore link datalog inverter notifiers call.model dry_run auto t w)
      acted none = apply_target-Remembers call.model dry_run auto _ false w
      acted (some t) = apply_target-Remembers call.model dry_run auto (some t) true w

  -- The restore value is written once: after an evaluation of a rule table that returned and had no
  -- row to write, a second such evaluation neither calls the connection nor adds to the log.
  pub evaluate_rule_table-restored :
      (call call' : Call) (dry_run dry_run' : Bool) (auto : Rule)
      (match match' : Option (Group × Range)) (w w' : World S)
      → find_matching_range auto call.snapshot call.clock ≡ ok match
      → matched_target auto.setting match ≡ none
      → evaluate_rule_table link datalog inverter notifiers call dry_run auto w ≡ (w', ok tt)
      → find_matching_range auto call'.snapshot call'.clock ≡ ok match'
      → matched_target auto.setting match' ≡ none
      → evaluate_rule_table link datalog inverter notifiers call' dry_run' auto w'
        ≡ (set_active auto false w', ok tt)
  unfolding evaluate_rule_table apply_target
  evaluate_rule_table-restored call call' dry_run dry_run' auto match match' w w' found idle done
        found' idle' =
      let remembered : Remembers false auto w (w', ok tt) = subst (Remembers false auto w) done (
        subst
          (λ t.
            Remembers (has_target t) auto w
              (evaluate_rule_table link datalog inverter notifiers call dry_run auto w))
          idle (evaluate_rule_table-Remembers call dry_run auto match w found)) in
      rw (found', idle', remembered) refl
