-- ===== src/Automation/Engine/DryRun.antt =====
-- What an evaluation leaves alone: the inverter in a dry run, and the automations that are not due.
use Prim.Native.String.{String}
use text.Mathlib.Text.{◌==◌ as str_eq}
use lux_mon.Base.{ℕ, ◌≡◌, refl, sym, subst, ◌∙◌, List, [], ◌∷◌, Bool, true, false, All}
use lux_mon.Base.Dict.{lookup_str, lookup-assign_other}
use lux_mon.Protocol.Frame.{Str}
use lux_mon.Automation.Link.{Link}
use lux_mon.Engineering.{finite}
use lux_mon.Automation.Write.Verified.{do_write-dry_run}
use lux_mon.Automation.Rule.{Rule}
use lux_mon.Automation.Engine.{
  Call, World, Sender, set_active, delivered, logged, write_setting, is_due, is_yes,
  evaluate_and_apply,
}
use lux_mon.Automation.Engine.Preserve.{
  Keeps, evaluate_all-keeps, All-rules, send_notification-cases, write_setting-cases,
}

module _ {S : Type 0} (link : Link S) (datalog inverter : Str) (notifiers : Sender) where
  -- In a dry run, an evaluation of all automations, whatever their types, reads and writes nothing
  -- over the connection.
  pub evaluate_and_apply-dry_run :
      (call : Call) (w : World S)
      → is_yes call.dry_run ≡ true
      → (evaluate_and_apply link datalog inverter notifiers call w).connection ≡ w.connection
  unfolding evaluate_and_apply set_active write_setting
  evaluate_and_apply-dry_run call w dry =
      evaluate_all-keeps link datalog inverter notifiers Same call call.automations
        (All-rules _ call.automations (λ auto due. rw dry (keeps auto))) w refl
    where
      Same : World S → Type 0
      Same v = v.connection ≡ w.connection

      delivered-Same :
          (auto : Rule) (time : ℕ) (b : Bool) (v : World S)
          → Same v
          → Same (delivered auto time b v)
      delivered-Same auto time false v p = p
      delivered-Same auto time true v p = p

      keeps : (auto : Rule) → Keeps link datalog inverter notifiers Same true auto
      keeps auto = record {
        set = λ active v p. p;
        send = λ time v p.
            send_notification-cases link datalog inverter notifiers Same auto time v p
              (λ send f. delivered-Same auto time _ _ p);
        write = λ model setting value v p.
            subst (λ x. Same (logged auto setting x v).0)
              (sym
                (do_write-dry_run link datalog inverter model setting (finite value)
                  v.connection).1)
              p;
        row = λ row v p. p;
      }

  -- An automation whose id no due automation has keeps its state: whether it was active, and when it
  -- last sent a notification.
  pub evaluate_and_apply-not_due :
      (call : Call) (w : World S) (id : String)
      → All (λ auto. is_due call auto ≡ true → str_eq auto.id id ≡ false) call.automations
      → let w' = evaluate_and_apply link datalog inverter notifiers call w in
        (lookup_str id w'.last_eval ≡ lookup_str id w.last_eval)
        × (lookup_str id w'.last_notify ≡ lookup_str id w.last_notify)
  unfolding evaluate_and_apply set_active
  evaluate_and_apply-not_due call w id others =
      evaluate_all-keeps link datalog inverter notifiers Same call call.automations
        (spare call.automations others) w (refl, refl)
    where
      Same : World S → Type 0
      Same v =
          (lookup_str id v.last_eval ≡ lookup_str id w.last_eval)
          × (lookup_str id v.last_notify ≡ lookup_str id w.last_notify)

      delivered-Same :
          (auto : Rule) (time : ℕ) (b : Bool) (v : World S)
          → Same v
          → Same (delivered auto time b v)
      delivered-Same auto time false v p = p
      delivered-Same auto time true v p = p

      keeps :
          (auto : Rule)
          → str_eq auto.id id ≡ false
          → Keeps link datalog inverter notifiers Same (is_yes call.dry_run) auto
      keeps auto other = record {
        set = λ active v p. (lookup-assign_other auto.id id active v.last_eval other ∙ p.0, p.1);
        send = λ time v p.
            send_notification-cases link datalog inverter notifiers Same auto time v p (λ send f.
              delivered-Same auto time _ _
                (p.0, lookup-assign_other auto.id id time v.last_notify other ∙ p.1));
        write = λ model setting value v p.
            write_setting-cases link datalog inverter notifiers Same model (is_yes call.dry_run)
              auto setting value v (λ s. p) (λ s row. p);
        row = λ row v p. p;
      }

      spare :
          (autos : List Rule)
          → All (λ auto. is_due call auto ≡ true → str_eq auto.id id ≡ false) autos
          → All
              (λ auto.
                is_due call auto ≡ true
                → Keeps link datalog inverter notifiers Same (is_yes call.dry_run) auto)
              autos
      spare [] h = tt
      spare (auto ∷ autos) (h, hs) = ((λ due. keeps auto (h due)), spare autos hs)
