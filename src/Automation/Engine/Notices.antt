-- ===== src/Automation/Engine/Notices.antt =====
-- The notices that an engine sends over all its evaluations.
use Prim.Native.String.{String}
use text.Mathlib.Text.{◌==◌ as str_eq}
use text.Mathlib.TextEquality.{eq_iff}
use lux_mon.Base.{
  ℕ, ◌+◌, ◌≤◌, ◌≡◌, ◌⊎◌, subst, List, [], ◌∷◌, Bool, true, false, some, All, Bool-cases, inl, inr,
  arith, ltb→ge,
}
use lux_mon.Base.Dict.{lookup_str, assign, lookup-assign_other, lookup-assign_self}
use lux_mon.Protocol.Frame.{Str}
use lux_mon.Automation.Link.{Link}
use lux_mon.Automation.Rule.{Rule}
use lux_mon.Automation.Engine.{
  Call, World, Sender, Notice, notice, get_or, set_active, delivered, is_yes, evaluate_and_apply,
}
use lux_mon.Automation.Engine.Preserve.{
  Keeps, evaluate_all-keeps, All-rules, send_notification-cases, write_setting-cases,
}

-- The time of a list of `_last_notify` for an id.
abbrev pub last_time : String → List (String × ℕ) → ℕ
last_time id times = get_or 0 (lookup_str id times)

-- A notice follows all the earlier ones of the same automation by five minutes.
abbrev pub Follows : Notice → Notice → Type 0
Follows n m = str_eq n.id m.id ≡ true → m.time + 300000 ≤ n.time

abbrev pub Spaced : List Notice → Type 0
Spaced [] = Unit {0}
Spaced (n ∷ ns) = All (Follows n) ns × Spaced ns

-- No notice is later than what `_last_notify` says of its automation.
abbrev pub Known : List (String × ℕ) → List Notice → Type 0
Known times = All (λ m. m.time ≤ last_time m.id times)

Known-assign :
    (times : List (String × ℕ)) (id : String) (time : ℕ) (ns : List Notice)
    → last_time id times ≤ time
    → Known times ns
    → Known (assign id time times) ns
Known-assign times id time [] h k = tt
Known-assign times id time (m ∷ ns) h (k, ks) =
    (updated (Bool-cases (str_eq id m.id)), Known-assign times id time ns h ks)
  where
    updated :
        (str_eq id m.id ≡ true) ⊎ (str_eq id m.id ≡ false)
        → m.time ≤ last_time m.id (assign id time times)
    updated (inl t) =
        let same : id ≡ m.id = (eq_iff id m.id).0 t in
        let now : lookup_str m.id (assign id time times) ≡ some time =
          subst (λ i. lookup_str i (assign id time times) ≡ some time) same
            (lookup-assign_self id time times) in
        rw now (omega (arith, subst (λ i. last_time i times ≤ time) same h, k))
    updated (inr f) = rw (lookup-assign_other id m.id time times f) k

All-Follows :
    (times : List (String × ℕ)) (n : Notice) (ns : List Notice)
    → last_time n.id times + 300000 ≤ n.time
    → Known times ns
    → All (Follows n) ns
All-Follows times n [] h k = tt
All-Follows times n (m ∷ ns) h (k, ks) = (
  (λ t.
      omega
        (arith, k, subst (λ i. last_time i times + 300000 ≤ n.time) ((eq_iff n.id m.id).0 t) h)),
  All-Follows times n ns h ks,
)

module _ {S : Type 0} (link : Link S) (datalog inverter : Str) (notifiers : Sender) where
  -- The evaluations of a process, from the engine that it constructs.
  pub data Reached : World S → Type 0 where
    start :
        (s : S)
        → Reached (record { connection = s; last_eval = []; last_notify = []; log = []; sent = [] })
    evaluated :
        {w : World S} (call : Call)
        → Reached w
        → Reached (evaluate_and_apply link datalog inverter notifiers call w)

  abbrev pub Invariant : World S → Type 0
  Invariant w = Spaced w.sent × Known w.last_notify w.sent

  send-Invariant :
      (auto : Rule) (time : ℕ) (b : Bool) (w : World S)
      → last_time auto.id w.last_notify + 300000 ≤ time
      → Invariant w
      → Invariant
          (delivered auto time b (record w { last_notify = assign auto.id time w.last_notify }))
  send-Invariant auto time false w h (s, k) =
      (s, Known-assign w.last_notify auto.id time w.sent (omega (arith, h)) k)
  send-Invariant auto time true w h (s, k) = (
    (All-Follows w.last_notify (notice auto time) w.sent h k, s),
    (
      rw (lookup-assign_self auto.id time w.last_notify) (omega arith),
      Known-assign w.last_notify auto.id time w.sent (omega (arith, h)) k,
    ),
  )

  Keeps-Invariant :
      (dry_run : Bool) (auto : Rule) → Keeps link datalog inverter notifiers Invariant dry_run auto
  unfolding set_active
  Keeps-Invariant dry_run auto = record {
    set = λ active w p. p;
    send = λ time w p.
        send_notification-cases link datalog inverter notifiers Invariant auto time w p
          (λ send f. send-Invariant auto time (send (notice auto time)) w (ltb→ge time _ f) p);
    write = λ model setting value w p.
        write_setting-cases link datalog inverter notifiers Invariant model dry_run auto setting
          value w (λ s. p) (λ s row. p);
    row = λ row w p. p;
  }

  Reached-Invariant : {w : World S} → Reached w → Invariant w
  unfolding evaluate_and_apply
  Reached-Invariant (start s) = (tt, tt)
  Reached-Invariant (evaluated call r) =
      evaluate_all-keeps link datalog inverter notifiers Invariant call call.automations
        (All-rules _ call.automations (λ auto due. Keeps-Invariant (is_yes call.dry_run) auto)) _
        (Reached-Invariant r)

  -- However often the automations are evaluated, with whatever settings, sensors, times and failures
  -- of the notifiers, each notice of an automation is at least 300 seconds after every earlier one.
  pub Reached-Spaced : (w : World S) → Reached w → Spaced w.sent
  Reached-Spaced w r = (Reached-Invariant r).0
