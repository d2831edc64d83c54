-- ===== src/Rs485/Jk/Status.antt =====
-- The status payload of the JK BMS: `_parse_status` of collector/rs485/jk_bms.py.
pub mod Total
use Prim.Native.String.{String}
use Prim.Native.Nat.{bit_and}
use lux_mon.Base.{
  ℕ, zero, suc, ◌+◌, ◌-◌, ◌*◌, ◌/◌, ◌%◌, ◌^◌, min, List, [], ◌∷◌, ◌++◌, Bool, true, false, ◌&&◌,
  ◌||◌, not, Option, none, some, ltb, leb, ◌==◌, if◌then◌else◌, length, take, drop, Outcome, ok,
  raised, ◌>>=◌, ℤ, pos, negsuc, sub_ℕ, pos_part, neg_part,
}
use lux_mon.Protocol.Bytes.{Bytes, byte_at, slice}
use lux_mon.Rs485.Fields.{Ratio, over, u16_be, u32_be, cell_key}
use lux_mon.Rs485.Cells.{CellScan, no_cells, see_cell}
use lux_mon.Rs485.Jk.Tags.{JkReadings, Cursor, parse_tags}

-- `for i in range(cell_count): …`; the first byte of a cell is read and not used.
unfoldable pub jk_cells : ℕ → ℕ → Bytes → CellScan → Outcome CellScan
jk_cells zero i body s = ok s
jk_cells (suc left) i body s = byte_at body (3 + i * 3) >>= λ idx.
    u16_be body (3 + i * 3 + 1) >>= λ mv. jk_cells left (i + 1) body (see_cell i mv s)

abbrev pub cell_items : ℕ → List ℕ → JkReadings
cell_items i [] = []
cell_items i (mv ∷ mvs) = (cell_key i, over (pos mv) 1000) ∷ cell_items (i + 1) mvs

unfoldable pub jk_cell_readings : ℕ → CellScan → JkReadings
jk_cell_readings cell_count s =
    cell_items 1 s.cell_voltages
    ++ (("cell_min_voltage", over (pos s.min_v) 1000)
        ∷ ("cell_max_voltage", over (pos s.max_v) 1000)
        ∷ ("cell_avg_voltage", over (pos s.sum_v) (1000 * cell_count))
        ∷ ("cell_delta_voltage", over (sub_ℕ s.max_v s.min_v) 1000)
        ∷ ("cell_min_index", over (pos s.min_idx) 1)
        ∷ ("cell_max_index", over (pos s.max_idx) 1)
        ∷ ("cell_count", over (pos cell_count) 1)
        ∷ [])

abbrev pub start_tags : ℕ → CellScan → Cursor
start_tags cell_count s = record {
  offset = cell_count * 3 + 3;
  result = jk_cell_readings cell_count s;
}

-- The guards on the number of cells.
unfoldable pub parse_cells_and_tags : ℕ → Bytes → Outcome (Option JkReadings)
parse_cells_and_tags cell_count body =
    if cell_count == 0 || ltb 64 cell_count
    then ok none
    else if ltb (length body) (cell_count * 3 + 3)
    then ok none
    else jk_cells cell_count 0 body (no_cells 100000) >>= λ s.
        parse_tags body (start_tags cell_count s) >>= λ c. ok (some c.result)

-- `_parse_status`
unfoldable pub parse_status : Bytes → Outcome (Option JkReadings)
parse_status body =
    if ltb (length body) 2
    then ok none
    else byte_at body 0 >>= λ marker.
        if marker == 0x79
        then byte_at body 1 >>= (λ n. parse_cells_and_tags (n / 3) body)
        else ok none
