-- ===== src/Rs485/Cells.antt =====
-- The loop over the cell voltages that the battery protocols of collector/rs485 have in common: the
-- voltages in millivolts, their sum, and the lowest and the highest with their numbers from 1 on.
pub mod Extremes
use lux_mon.Base.{ℕ, ◌+◌, suc, List, [], ◌∷◌, ◌++◌, ltb, if◌then◌else◌}

pub record CellScan : Type 0 where
  pub cell_voltages : List ℕ
  pub min_v : ℕ
  pub max_v : ℕ
  pub min_idx : ℕ
  pub max_idx : ℕ
  pub sum_v : ℕ

-- Before the loop; the lowest voltage starts at a limit.
abbrev pub no_cells : ℕ → CellScan
no_cells limit = record {
  cell_voltages = [];
  min_v = limit;
  max_v = 0;
  min_idx = 0;
  max_idx = 0;
  sum_v = 0;
}

-- The body of the loop, at cell `i` from 0 on.
unfoldable pub see_cell : ℕ → ℕ → CellScan → CellScan
see_cell i mv s = record {
  cell_voltages = s.cell_voltages ++ mv ∷ [];
  min_v = if ltb mv s.min_v then mv else s.min_v;
  max_v = if ltb s.max_v mv then mv else s.max_v;
  min_idx = if ltb mv s.min_v then i + 1 else s.min_idx;
  max_idx = if ltb s.max_v mv then i + 1 else s.max_idx;
  sum_v = s.sum_v + mv;
}

unfoldable pub see_cells : ℕ → List ℕ → CellScan → CellScan
see_cells i [] s = s
see_cells i (mv ∷ mvs) s = see_cells (i + 1) mvs (see_cell i mv s)
