-- ===== src/Alerts/Notifiers/Throttle.antt =====
-- What the throttle of the notifications lets through.
use Prim.Native.String.{String}
use text.Mathlib.Text.{◌==◌ as str_eq}
use lux_mon.Base.{
  ℕ, ◌+◌, ◌<◌, ◌≤◌, ◌≡◌, ◌⊎◌, some, sym, ap, subst, length, refl, Bool, true, false, ◌||◌, not,
  List, [], ◌∷◌, if◌then◌else◌, inl, inr, arith, lt→ltb,
}
use lux_mon.Base.Dict.{lookup_str, lookup-assign_self}
use lux_mon.Alerts.Notifiers.{
  NotifyConfig, Notifiers, Letter, rate_ok, stamp, email_key, add_mail, send_email, last_of,
}

rate_ok-soon :
    (name : String) (t now : ℕ) (n : Notifiers)
    → last_of (lookup_str name n.last_sent) ≡ t
    → now < t + 300000
    → rate_ok name now n ≡ false
unfolding rate_ok
rate_ok-soon name t now n e h = rw (e, lt→ltb now (t + 300000) h) refl

-- A mail that passes the guards is stamped with its time, and there is one more of them at most.
abbrev pub Stamped : ℕ → Letter → Notifiers → Notifiers → Type 0
Stamped t letter n n' =
    (lookup_str (email_key letter.alert_name) n'.last_sent ≡ some t)
    × (length n'.mails ≤ length n.mails + 1)

add_mail-Stamped :
    (rs : List String) (t : ℕ) (letter : Letter) (n : Notifiers)
    → Stamped t letter n (add_mail rs letter (stamp (email_key letter.alert_name) t n))
add_mail-Stamped [] t letter n =
    (lookup-assign_self (email_key letter.alert_name) t n.last_sent, omega arith)
add_mail-Stamped (r ∷ rs) t letter n =
    (lookup-assign_self (email_key letter.alert_name) t n.last_sent, omega arith)

send_email-cases :
    (cfg : NotifyConfig) (t : ℕ) (letter : Letter) (n : Notifiers)
    → (send_email cfg t letter n ≡ n) ⊎ Stamped t letter n (send_email cfg t letter n)
unfolding send_email
send_email-cases cfg t letter n =
    guarded
      (str_eq cfg.smtp_host ""
        || str_eq cfg.email_username ""
        || str_eq cfg.email_password ""
        || str_eq cfg.email_from ""
        || str_eq cfg.email_to "")
      (rate_ok (email_key letter.alert_name) t n)
  where
    sent : Notifiers
    sent = add_mail cfg.recipients letter (stamp (email_key letter.alert_name) t n)

    guarded :
        (unset ok : Bool)
        → let n' = (if unset then n else if not ok then n else sent) in
          (n' ≡ n) ⊎ Stamped t letter n n'
    guarded true ok = inl refl
    guarded false false = inl refl
    guarded false true = inr (add_mail-Stamped cfg.recipients t letter n)

send_email-soon :
    (cfg : NotifyConfig) (t now : ℕ) (letter : Letter) (n : Notifiers)
    → lookup_str (email_key letter.alert_name) n.last_sent ≡ some t
    → now < t + 300000
    → send_email cfg now letter n ≡ n
unfolding send_email
send_email-soon cfg t now letter n e h =
    rw (rate_ok-soon (email_key letter.alert_name) t now n (ap last_of e) h) (
      same (
        str_eq cfg.smtp_host ""
        || str_eq cfg.email_username ""
        || str_eq cfg.email_password ""
        || str_eq cfg.email_from ""
        || str_eq cfg.email_to ""))
  where
    same : (unset : Bool) → (if unset then n else n) ≡ n
    same true = refl
    same false = refl

one_more :
    (cfg : NotifyConfig) (t : ℕ) (letter : Letter) (n : Notifiers)
    → length (send_email cfg t letter n).mails ≤ length n.mails + 1
one_more cfg t letter n = elim (send_email-cases cfg t letter n) [
  | inl e ↦ rw e (omega arith)
  | inr (p, q) ↦ q
]

-- Of two mails about one alert less than 300 seconds apart, one at most is sent, also where the first
-- says that the alert is active and the second that it is cleared.
pub send_email-twice :
    (cfg : NotifyConfig) (t now : ℕ) (first second : Letter) (n : Notifiers)
    → second.alert_name ≡ first.alert_name
    → now < t + 300000
    → length (send_email cfg now second (send_email cfg t first n)).mails ≤ length n.mails + 1
send_email-twice cfg t now first second n e h = elim (send_email-cases cfg t first n) [
  | inl unsent ↦ rw unsent (one_more cfg now second n)
  | inr (p, q) ↦
      let stamped : lookup_str (email_key second.alert_name) (send_email cfg t first n).last_sent
          ≡ some t =
        subst (λ a. lookup_str (email_key a) (send_email cfg t first n).last_sent ≡ some t) (sym e)
          p in
      rw (send_email-soon cfg t now second (send_email cfg t first n) stamped h) q
]
