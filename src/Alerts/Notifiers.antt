-- ===== src/Alerts/Notifiers.antt =====
-- `Notifiers.send` of collector/notifiers.py: mail and webhook, throttled by alert and channel. What is
-- handed to the mail relay and to the webhook is recorded, newest first; whether the other side takes
-- it does not matter, since every exception is dropped.
pub mod Throttle
use Prim.Native.String.{String, ◌++◌ as str_append}
use text.Mathlib.Text.{◌==◌ as str_eq}
use lux_mon.Base.{
  ℕ, ◌+◌, List, [], ◌∷◌, Bool, true, false, ◌&&◌, ◌||◌, not, Option, none, some, if◌then◌else◌, ltb,
  ℤ,
}
use lux_mon.Base.Dict.{lookup_str, assign}
use lux_mon.Alerts.Rules.{AlertMessage}

-- The settings that `send` reads; `recipients` is `alerts_email_to` split at commas and semicolons.
pub record NotifyConfig : Type 0 where
  pub alerts_enabled : Bool
  pub email_enabled : Bool
  pub smtp_host : String
  pub email_username : String
  pub email_password : String
  pub email_from : String
  pub email_to : String
  pub recipients : List String
  pub webhook_enabled : Bool
  pub webhook_url : String

pub record Letter : Type 0 where
  pub alert_name : String
  pub active : Bool
  pub value : ℤ
  pub message : AlertMessage

pub record Notifiers : Type 0 where
  pub last_sent : List (String × ℕ)
  pub mails : List Letter
  pub hooks : List Letter

abbrev pub last_of : Option ℕ → ℕ
last_of none = 0
last_of (some t) = t

-- `not (now - last < self._min_interval_sec)` of `_rate_ok`, and what it stores.
unfoldable pub rate_ok : String → ℕ → Notifiers → Bool
rate_ok name now n = not (ltb now (last_of (lookup_str name n.last_sent) + 300000))

abbrev pub stamp : String → ℕ → Notifiers → Notifiers
stamp name now n = record n { last_sent = assign name now n.last_sent }

abbrev pub email_key : String → String
email_key alert_name = str_append "email:" alert_name

abbrev pub webhook_key : String → String
webhook_key alert_name = str_append "webhook:" alert_name

abbrev pub add_mail : List String → Letter → Notifiers → Notifiers
add_mail [] letter n = n
add_mail (r ∷ rs) letter n = record n { mails = letter ∷ n.mails }

unfoldable pub send_email : NotifyConfig → ℕ → Letter → Notifiers → Notifiers
send_email cfg now letter n =
    if str_eq cfg.smtp_host ""
      || str_eq cfg.email_username ""
      || str_eq cfg.email_password ""
      || str_eq cfg.email_from ""
      || str_eq cfg.email_to ""
    then n
    else if not (rate_ok (email_key letter.alert_name) now n)
    then n
    else add_mail cfg.recipients letter (stamp (email_key letter.alert_name) now n)

unfoldable pub send_webhook : NotifyConfig → ℕ → Letter → Notifiers → Notifiers
send_webhook cfg now letter n =
    if str_eq cfg.webhook_url ""
    then n
    else if not (rate_ok (webhook_key letter.alert_name) now n)
    then n
    else (let s = stamp (webhook_key letter.alert_name) now n in
        record s { hooks = letter ∷ s.hooks })

unfoldable pub send : NotifyConfig → ℕ → Letter → Notifiers → Notifiers
send cfg now letter n =
    if not cfg.alerts_enabled
    then n
    else (let mailed = if cfg.email_enabled then send_email cfg now letter n else n in
        if cfg.webhook_enabled then send_webhook cfg now letter mailed else mailed)
