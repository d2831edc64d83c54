-- ===== src/Alerts/Rules/Grid.antt =====
-- The grid loss alert over a run of evaluations.
use lux_mon.Base.{
  ℕ, ◌+◌, ◌≤◌, ◌≡◌, refl, List, [], ◌∷◌, true, false, Option, some, leb, ℤ, pos, arith,
}
use lux_mon.Alerts.Rules.{grid_lost_since, grid_result}

-- `_grid_lost_since` after evaluations without the grid, at these times.
abbrev pub after_absences : List ℕ → Option ℕ → Option ℕ
after_absences [] lost = lost
after_absences (t ∷ ts) lost = after_absences ts (grid_lost_since false t lost)

onset_kept : (ts : List ℕ) (t : ℕ) → after_absences ts (some t) ≡ some t
unfolding grid_lost_since
onset_kept [] t = refl
onset_kept (u ∷ ts) t = onset_kept ts t

-- After an evaluation that sees the grid, whatever was before it, come evaluations that do not: the
-- first at a time `first`, and any number between. One at a later time `now` reports grid loss if and
-- only if the threshold has passed since `first`.
pub grid_result-run :
    (before : Option ℕ) (sighting first : ℕ) (between : List ℕ) (now threshold : ℕ) (grid_v : ℤ)
    → first ≤ now
    → let lost = after_absences (first ∷ between) (grid_lost_since true sighting before) in
      (grid_result false now (pos threshold) grid_v lost).active ≡ leb (first + threshold) now
unfolding grid_result grid_lost_since
grid_result-run before sighting first between now threshold grid_v h =
    rw (onset_kept between first) (ground arith)
