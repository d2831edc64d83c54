-- ===== src/Automation/Engine/Schedule.antt =====
-- The schedule of `_evaluate_battery_soc`: the points in the order of their times, and the source of
-- the interval that the present minute is in.
use Prim.Native.String.{String}
use lux_mon.Base.{
  ℕ, List, [], ◌∷◌, Bool, false, ◌&&◌, ◌||◌, Option, none, some, if◌then◌else◌, ℤ, pos, leb_ℤ,
  ltb_ℤ,
}
use lux_mon.Protocol.Frame.{Str}
use lux_mon.Automation.Clock.{parse_hhmm}
use lux_mon.Automation.Rule.{Point}

-- `point.get("time", "00:00")` and `point.get("source", "battery")`
abbrev pub time_text : Option Str → Str
time_text none = 48 ∷ 48 ∷ 58 ∷ 48 ∷ 48 ∷ []
time_text (some t) = t

abbrev pub source_text : Option String → String
source_text none = "battery"
source_text (some s) = s

unfoldable pub point_time : Point → Option ℤ
point_time p = parse_hhmm (time_text p.time)

-- `… or 0`
abbrev pub or_zero : Option ℤ → ℤ
or_zero none = pos 0
or_zero (some t) = t

-- `sorted`, which is stable.
unfoldable pub insert : Point → List Point → List Point
insert p [] = p ∷ []
insert p (q ∷ qs) =
    let rest = insert p qs in
    if leb_ℤ (or_zero (point_time p)) (or_zero (point_time q)) then p ∷ q ∷ qs else q ∷ rest

unfoldable pub sort : List Point → List Point
sort [] = []
sort (p ∷ ps) = insert p (sort ps)

-- Whether the present minute is in the interval from a time to the next one. A time that is not
-- readable has no interval; where the next one is not readable, it is the time itself.
abbrev pub in_interval : ℤ → ℤ → ℤ → Bool
in_interval t next_t current =
    if leb_ℤ t next_t
    then leb_ℤ t current && ltb_ℤ current next_t
    else leb_ℤ t current || ltb_ℤ current next_t

abbrev pub interval_holds : Option ℤ → Option ℤ → ℤ → Bool
interval_holds none next_t current = false
interval_holds (some t) none current = in_interval t t current
interval_holds (some t) (some next_t) current = in_interval t next_t current

-- `points[(i + 1) % len(points)]`: the head of the points behind, or else the first one.
abbrev pub next_point : Point → List Point → Point
next_point first [] = first
next_point first (q ∷ qs) = q

unfoldable pub active_source : Point → List Point → ℤ → String
active_source first [] current = "battery"
active_source first (p ∷ ps) current =
    let later = active_source first ps current in
    if interval_holds (point_time p) (point_time (next_point first ps)) current
    then source_text p.source
    else later

abbrev pub sorted_source : List Point → ℤ → String
sorted_source [] current = "battery"
sorted_source (p ∷ ps) current = active_source p (p ∷ ps) current

unfoldable pub target_source : List Point → ℕ → String
target_source points current_mins = sorted_source (sort points) (pos current_mins)
