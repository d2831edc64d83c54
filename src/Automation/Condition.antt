-- ===== src/Automation/Condition.antt =====
-- The evaluation of conditions in collector/automation.py: `_time_matches`, `_sensor_value`,
-- `_condition_matches`, `_all_conditions_match` and `_find_matching_range`.
pub mod Window
pub mod First
use Prim.Native.String.{String}
use text.Mathlib.Text.{◌==◌ as str_eq}
use lux_mon.Base.{
  ℕ, List, [], ◌∷◌, Bool, true, false, ◌&&◌, ◌||◌, not, Option, none, some, ◌==◌, if◌then◌else◌,
  Outcome, ok, raised, value_error, ◌>>=◌, ℤ, pos, leb_ℤ, ltb_ℤ,
}
use lux_mon.Base.Dict.{lookup_str}
use lux_mon.Protocol.Frame.{Str}
use lux_mon.Automation.Clock.{Clock, current_minutes, parse_hhmm, split_once}
use lux_mon.Automation.Rule.{Condition, Range, Group, Rule, all_condition_sensor}

-- What `float` makes of a value: a number in thousandths, or an exception.
pub data Value : Type 0 where
  number : ℤ → Value
  not_a_number : Value

-- A value of the snapshot: plain, or a dict, whose key "value" may be missing.
pub data Sample : Type 0 where
  plain : Value → Sample
  labelled : Option Value → Sample

abbrev pub Snapshot : Type 0
Snapshot = List (String × Sample)

-- `str(value)`
abbrev pub text_of : Option Str → Str
text_of none = 78 ∷ 111 ∷ 110 ∷ 101 ∷ []
text_of (some t) = t

-- `str(value) if value else ""`
abbrev pub text_or_empty : Option Str → Str
text_or_empty none = []
text_or_empty (some t) = t

unfoldable pub same_text : Str → Str → Bool
same_text [] [] = true
same_text [] (y ∷ ys) = false
same_text (x ∷ xs) [] = false
same_text (x ∷ xs) (y ∷ ys) = x == y && same_text xs ys

-- The window from a start to an end, past midnight where the start is later.
unfoldable pub in_window : Option ℤ → Option ℤ → ℤ → Bool
in_window none end current = false
in_window (some start) none current = false
in_window (some start) (some end) current =
    if leb_ℤ start end
    then leb_ℤ start current && leb_ℤ current end
    else leb_ℤ start current || leb_ℤ current end

abbrev pub window_text : Option (Str × Str) → ℤ → Bool
window_text none current = false
window_text (some (start, end)) current = in_window (parse_hhmm start) (parse_hhmm end) current

unfoldable pub time_matches : Option Str → String → Clock → Bool
time_matches value kind now =
    if str_eq kind "time_of_day"
    then window_text (split_once 45 (text_or_empty value)) (pos (current_minutes now))
    else if str_eq kind "day_of_week"
    then same_text now.weekday (text_of value)
    else if str_eq kind "month_of_year"
    then same_text now.month (text_of value)
    else false

-- The `float` of a dict's value is outside the `try`.
abbrev pub sample_value : Option Sample → Outcome (Option ℤ)
sample_value none = ok none
sample_value (some (labelled none)) = ok (some (pos 0))
sample_value (some (labelled (some (number v)))) = ok (some v)
sample_value (some (labelled (some not_a_number))) = raised value_error
sample_value (some (plain (number v))) = ok (some v)
sample_value (some (plain not_a_number)) = ok none

unfoldable pub sensor_value : Snapshot → String → Outcome (Option ℤ)
sensor_value snapshot sensor = sample_value (lookup_str sensor snapshot)

-- `limit is not None and value < limit`, and the same with `>`
abbrev pub below_limit : Option ℤ → ℤ → Bool
below_limit none value = false
below_limit (some limit) value = ltb_ℤ value limit

abbrev pub above_limit : Option ℤ → ℤ → Bool
above_limit none value = false
above_limit (some limit) value = ltb_ℤ limit value

abbrev pub within : Condition → Option ℤ → Bool
within c none = false
within c (some value) =
    if below_limit c.min value then false else if above_limit c.max value then false else true

-- The sensor of a kind; a kind that is unknown or has no sensor matches nothing.
abbrev pub sensor_matches : Condition → Snapshot → Option (Option String) → Outcome Bool
sensor_matches c snapshot none = ok false
sensor_matches c snapshot (some none) = ok false
sensor_matches c snapshot (some (some sensor)) =
    sensor_value snapshot sensor >>= λ value. ok (within c value)

abbrev pub is_time_kind : String → Bool
is_time_kind kind =
    str_eq kind "time_of_day" || str_eq kind "day_of_week" || str_eq kind "month_of_year"

unfoldable pub condition_matches : Condition → Snapshot → Clock → Outcome Bool
condition_matches c snapshot now =
    if is_time_kind c.kind
    then ok (time_matches c.value c.kind now)
    else sensor_matches c snapshot (lookup_str c.kind all_condition_sensor)

-- `all(…)`: the first condition that does not match, or raises, is the last one evaluated.
unfoldable pub all_conditions_match : List Condition → Snapshot → Clock → Outcome Bool
all_conditions_match [] snapshot now = ok true
all_conditions_match (c ∷ cs) snapshot now =
    let rest = all_conditions_match cs snapshot now in
    condition_matches c snapshot now >>= λ matches. if matches then rest else ok false

unfoldable pub find_in_group :
    Group → List Range → Snapshot → Clock → Outcome (Option (Group × Range))
find_in_group g [] snapshot now = ok none
find_in_group g (r ∷ rs) snapshot now =
    let rest = find_in_group g rs snapshot now in
    condition_matches r.condition snapshot now >>= λ matches.
    if matches then ok (some (g, r)) else rest

-- The match of a group, or else the search in the groups behind it.
abbrev pub or_else {ℓ} : {A : Type ℓ} → Outcome (Option A) → Outcome (Option A) → Outcome (Option A)
or_else (raised e) rest = raised e
or_else (ok none) rest = rest
or_else (ok (some a)) rest = ok (some a)

unfoldable pub find_in_groups : List Group → Snapshot → Clock → Outcome (Option (Group × Range))
find_in_groups [] snapshot now = ok none
find_in_groups (g ∷ gs) snapshot now =
    let rest = find_in_groups gs snapshot now in
    condition_matches g.condition snapshot now >>= λ matches.
    if matches then or_else (find_in_group g g.ranges snapshot now) rest else rest

unfoldable pub find_matching_range : Rule → Snapshot → Clock → Outcome (Option (Group × Range))
find_matching_range auto snapshot now = find_in_groups auto.groups snapshot now
