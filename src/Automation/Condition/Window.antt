-- ===== src/Automation/Condition/Window.antt =====
-- The time windows of the conditions, past midnight included.
use lux_mon.Base.{
  ℕ, ◌+◌, ◌%◌, ◌-◌, ◌<◌, ◌≡◌, refl, ◌∷◌, ◌++◌, false, some, leb, ◌==◌, pos, All, arith,
}
use lux_mon.Automation.Clock.{Clock, current_minutes}
use lux_mon.Automation.Clock.Times.{hhmm, parse_hhmm-hhmm, split_once-append}
use lux_mon.Automation.Condition.{time_matches, in_window}

hhmm-no_dash : (n : ℕ) → All (λ x. (x == 45) ≡ false) (hhmm n)
hhmm-no_dash n = (ground arith, (ground arith, (refl, (ground arith, (ground arith, tt)))))

-- How long after a moment another one is, on a clock of 1440 minutes.
abbrev pub minutes_from : ℕ → ℕ → ℕ
minutes_from a b = (b + 1440 - a) % 1440

window-circle :
    (a b t : ℕ)
    → a < 1440
    → b < 1440
    → t < 1440
    → in_window (some (pos a)) (some (pos b)) (pos t) ≡ leb (minutes_from a t) (minutes_from a b)
unfolding in_window
window-circle a b t ha hb ht = ground arith

-- A condition on the time of day whose text is HH:MM-HH:MM holds if and only if the present minute
-- is reached from the start, going round the clock, no later than the end is.
pub time_matches-window :
    (a b : ℕ) (now : Clock)
    → a < 1440
    → b < 1440
    → current_minutes now < 1440
    → time_matches (some (hhmm a ++ 45 ∷ hhmm b)) "time_of_day" now
      ≡ leb (minutes_from a (current_minutes now)) (minutes_from a b)
unfolding time_matches
time_matches-window a b now ha hb ht =
    rw
      (
        split_once-append 45 (hhmm a) (hhmm b) (hhmm-no_dash a),
        parse_hhmm-hhmm a ha,
        parse_hhmm-hhmm b hb,
      )
      (window-circle a b (current_minutes now) ha hb ht)
