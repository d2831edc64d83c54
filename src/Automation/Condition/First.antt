-- ===== src/Automation/Condition/First.antt =====
-- Which range of a rule table is the matching one.
use lux_mon.Base.{
  ◌≡◌, refl, ap, List, [], ◌∷◌, ◌++◌, Bool, true, false, ◌&&◌, Bool-cases, inl, inr, Option, none,
  some, if◌then◌else◌, Outcome, ok, raised, All,
}
use lux_mon.Automation.Clock.{Clock}
use lux_mon.Automation.Rule.{Condition, Range, Group, Rule}
use lux_mon.Automation.Condition.{
  Snapshot, condition_matches, find_in_group, find_in_groups, find_matching_range, or_else,
}

-- The rows of the table: every range under its group, in the order of the table.
abbrev pub pair_with_group : Group → List Range → List (Group × Range)
pair_with_group g [] = []
pair_with_group g (r ∷ rs) = (g, r) ∷ pair_with_group g rs

abbrev pub rows : List Group → List (Group × Range)
rows [] = []
rows (g ∷ gs) = pair_with_group g g.ranges ++ rows gs

abbrev pub first_such {ℓ} : {A : Type ℓ} → (A → Bool) → List A → Option A
first_such p [] = none
first_such p (x ∷ xs) = if p x then some x else first_such p xs

module _ (snapshot : Snapshot) (now : Clock) where
  -- Whether a condition matches, where it raises nothing.
  abbrev pub outcome_true : Outcome Bool → Bool
  outcome_true (ok b) = b
  outcome_true (raised e) = false

  abbrev pub holds : Condition → Bool
  holds c = outcome_true (condition_matches c snapshot now)

  -- The gates of a row, the group's and the range's.
  abbrev pub row_holds : Group × Range → Bool
  row_holds (g, r) = holds g.condition && holds r.condition

  abbrev pub Evaluates : Condition → Type 0
  Evaluates c = condition_matches c snapshot now ≡ ok (holds c)

  abbrev pub GroupEvaluates : Group → Type 0
  GroupEvaluates g = Evaluates g.condition × All (λ r. Evaluates r.condition) g.ranges

  in_group :
      (g : Group) (rs : List Range)
      → holds g.condition ≡ true
      → All (λ r. Evaluates r.condition) rs
      → (rest : Option (Group × Range)) (others : List (Group × Range))
      → rest ≡ first_such row_holds others
      → or_else (find_in_group g rs snapshot now) (ok rest)
        ≡ ok (first_such row_holds (pair_with_group g rs ++ others))
  unfolding find_in_group
  in_group g [] gate h rest others e = ap ok e
  in_group g (r ∷ rs) gate h rest others e = elim (Bool-cases (holds r.condition)) [
    | inl t ↦ rw (h.0, gate, t) refl
    | inr f ↦ rw (h.0, gate, f) (in_group g rs gate h.1 rest others e)
  ]

  skipped :
      (g : Group) (rs : List Range) (others : List (Group × Range))
      → holds g.condition ≡ false
      → first_such row_holds (pair_with_group g rs ++ others) ≡ first_such row_holds others
  skipped g [] others f = refl
  skipped g (r ∷ rs) others f = rw f (skipped g rs others f)

  in_groups :
      (gs : List Group)
      → All GroupEvaluates gs
      → find_in_groups gs snapshot now ≡ ok (first_such row_holds (rows gs))
  unfolding find_in_groups
  in_groups [] h = refl
  in_groups (g ∷ gs) (h, hs) = elim (Bool-cases (holds g.condition)) [
    | inl t ↦ rw (h.0, t, in_groups gs hs) (in_group g g.ranges t h.1 _ (rows gs) refl)
    | inr f ↦ rw (h.0, f, in_groups gs hs, skipped g g.ranges (rows gs) f) refl
  ]

-- Where no condition of the table raises, the nested search returns the first row of the whole
-- table, in its order, whose group and range conditions both match, and none if there is none.
pub find_matching_range-first_such :
    (auto : Rule) (snapshot : Snapshot) (now : Clock)
    → All (GroupEvaluates snapshot now) auto.groups
    → find_matching_range auto snapshot now
      ≡ ok (first_such (row_holds snapshot now) (rows auto.groups))
unfolding find_matching_range
find_matching_range-first_such auto snapshot now h = in_groups snapshot now auto.groups h
