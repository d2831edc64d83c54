-- ===== src/Rs485/A5.antt =====
-- collector/rs485/eg4_a5_bms.py: the frames of the A5/5A protocol in what the port delivered, the
-- status and cell payloads, and the readings that `_latest` gathers. Readings are in thousandths.
pub mod Split
pub mod Payload
use Prim.Native.String.{String}
use lux_mon.Base.{
  ℕ, zero, suc, ◌+◌, ◌-◌, ◌*◌, ◌/◌, ◌%◌, List, [], ◌∷◌, ◌++◌, Bool, true, false, ◌&&◌, Option, none,
  some, ltb, leb, ◌==◌, if◌then◌else◌, length, take, drop, Outcome, ok, raised, ◌>>=◌, ℤ, pos,
  negsuc, sub_ℕ, pos_part, neg_part,
}
use lux_mon.Base.Dict.{lookup_str, assign}
use lux_mon.Engineering.{times}
use lux_mon.Protocol.Bytes.{Bytes, byte_at}
use lux_mon.Rs485.Fields.{Readings, whole, u16_be, s16_be, cell_key}
use lux_mon.Rs485.Cells.{CellScan, no_cells, see_cell, see_cells}

-- What follows the magic bytes and the length byte, where the stream is long enough for the frame.
abbrev pub whole_frame : ℕ → Bytes → Option ℕ
whole_frame len rest = if leb len (length rest) then some (3 + len) else none

-- The frame at the head of `data[i:]`: its length, if it starts with the magic and is there whole.
-- The loop's test leaves no fewer than three bytes.
unfoldable pub frame_at : Bytes → Option ℕ
frame_at (a ∷ (b ∷ (len ∷ rest))) = if a == 0xa5 && b == 0x5a then whole_frame len rest else none
frame_at _ = none

-- The loop of `_split_frames` over `data[i:]`: `skip` bytes of it belong to the last frame found.
unfoldable pub split_from : ℕ → Bytes → List Bytes
split_from skip [] = []
split_from (suc skip) (b ∷ stream) = split_from skip stream
split_from zero (b ∷ stream) = elim (frame_at (b ∷ stream)) [
  | none ↦ split_from zero stream
  | some total ↦ take total (b ∷ stream) ∷ split_from (total - 1) stream
]

unfoldable pub split_frames : Bytes → List Bytes
split_frames stream = split_from 0 stream

-- Python's `round` of n / 100, to the even integer at a tie.
unfoldable pub round_hundredths : ℕ → ℕ
round_hundredths n =
    if ltb (n % 100) 50
    then n / 100
    else if ltb 50 (n % 100)
    then n / 100 + 1
    else n / 100 + n / 100 % 2

-- `round(v * c, 2)` in thousandths, of values in hundredths.
abbrev pub power_of : ℕ → ℤ → ℤ
power_of v (pos c) = pos (10 * round_hundredths (v * c))
power_of v (negsuc c) = sub_ℕ 0 (10 * round_hundredths (v * suc c))

-- The fields of a status that are numbers of their own, with their offsets.
abbrev pub status_fields : List (String × ℕ)
status_fields =
    ("temperature_pcb", 5)
    ∷ ("field_7_8", 7)
    ∷ ("field_9_10", 9)
    ∷ ("field_11_12", 11)
    ∷ ("field_13_14", 13)
    ∷ ("field_15_16", 15)
    ∷ ("avg_cell_voltage", 17)
    ∷ ("field_19_20", 19)
    ∷ ("status_word", 21)
    ∷ ("protection_word", 23)
    ∷ ("field_25_26", 25)
    ∷ ("error_word", 27)
    ∷ ("field_29_30", 29)
    ∷ ("field_31_32", 31)
    ∷ ("field_33_34", 33)
    ∷ []

unfoldable pub read_fields : List (String × ℕ) → Bytes → Outcome Readings
read_fields [] payload = ok []
read_fields ((key, offset) ∷ fields) payload =
    u16_be payload offset >>= λ v. read_fields fields payload >>= λ rest. ok ((key, whole v) ∷ rest)

-- `_parse_status`
unfoldable pub parse_status : Bytes → Outcome (Option Readings)
parse_status payload =
    if ltb (length payload) 35
    then ok none
    else u16_be payload 1 >>= λ voltage_raw. s16_be payload 3 >>= λ current_raw.
        read_fields status_fields payload >>= λ fields. ok (
          some (
            ("voltage_raw", whole voltage_raw)
            ∷ ("current_raw", times 1000 current_raw)
            ∷ ("voltage", pos (10 * voltage_raw))
            ∷ ("current", times 10 current_raw)
            ∷ ("power", power_of voltage_raw current_raw)
            ∷ fields))

-- `for i in range(16): …`, with the cells that are left.
unfoldable pub scan_cells : ℕ → ℕ → Bytes → CellScan → Outcome CellScan
scan_cells zero i payload s = ok s
scan_cells (suc left) i payload s =
    u16_be payload (1 + i * 2) >>= λ mv. scan_cells left (i + 1) payload (see_cell i mv s)

abbrev pub voltage_readings : ℕ → List ℕ → Readings
voltage_readings i [] = []
voltage_readings i (mv ∷ mvs) = (cell_key i, pos mv) ∷ voltage_readings (i + 1) mvs

-- `round(sum_v / 16.0 * 0.001, 3)`: the mean to the millivolt, to the even one at a tie.
abbrev pub mean_16 : ℕ → ℕ
mean_16 n =
    if ltb (n % 16) 8 then n / 16 else if ltb 8 (n % 16) then n / 16 + 1 else n / 16 + n / 16 % 2

unfoldable pub cell_readings : CellScan → Readings
cell_readings s =
    ("cell_count", whole 16) ∷ voltage_readings 1 s.cell_voltages
    ++ (("cell_min_voltage", pos s.min_v)
        ∷ ("cell_max_voltage", pos s.max_v)
        ∷ ("cell_avg_voltage", pos (mean_16 s.sum_v))
        ∷ ("cell_delta_voltage", sub_ℕ s.max_v s.min_v)
        ∷ ("cell_min_index", whole s.min_idx)
        ∷ ("cell_max_index", whole s.max_idx)
        ∷ [])

-- `_parse_cells`
unfoldable pub parse_cells : Bytes → Outcome (Option Readings)
parse_cells payload =
    if ltb (length payload) 33
    then ok none
    else scan_cells 16 0 payload (no_cells 10000) >>= λ s. ok (some (cell_readings s))

-- `self._latest.update(parsed)`, where something was parsed
unfoldable pub update : Readings → Readings → Readings
update [] latest = latest
update ((key, v) ∷ parsed) latest = update parsed (assign key v latest)

abbrev pub update_with : Option Readings → Readings → Readings
update_with none latest = latest
update_with (some parsed) latest = update parsed latest

-- `(cmd, sub) == CMD_STATUS` and `(cmd, sub) == CMD_CELLS`
abbrev pub parse_command : ℕ → ℕ → Bytes → Outcome (Option Readings)
parse_command cmd sub payload =
    if cmd == 0x82 && sub == 0x10
    then parse_status payload
    else if cmd == 0x82 && sub == 0x11
    then parse_cells payload
    else ok none

-- The body of the loop over the frames.
unfoldable pub handle_frame : Bytes → Readings → Outcome Readings
handle_frame frame latest =
    if ltb (length frame) 5
    then ok latest
    else byte_at frame 3 >>= λ cmd. byte_at frame 4 >>= λ sub.
        parse_command cmd sub (drop 5 frame) >>= λ parsed. ok (update_with parsed latest)

unfoldable pub handle_frames : List Bytes → Readings → Outcome Readings
handle_frames [] latest = ok latest
handle_frames (frame ∷ frames) latest = handle_frame frame latest >>= λ l. handle_frames frames l

-- The keys that `_build_result` passes on, with their units, before the cells' voltages.
abbrev pub result_units : List (String × String)
result_units =
    ("voltage", "V")
    ∷ ("current", "A")
    ∷ ("power", "W")
    ∷ ("temperature_pcb", "°C")
    ∷ ("avg_cell_voltage", "mV")
    ∷ ("field_25_26", "")
    ∷ ("error_word", "")
    ∷ ("cell_count", "")
    ∷ ("cell_min_voltage", "V")
    ∷ ("cell_max_voltage", "V")
    ∷ ("cell_avg_voltage", "V")
    ∷ ("cell_delta_voltage", "V")
    ∷ ("cell_min_index", "")
    ∷ ("cell_max_index", "")
    ∷ ("status_word", "")
    ∷ ("protection_word", "")
    ∷ ("field_7_8", "")
    ∷ ("field_9_10", "")
    ∷ ("field_11_12", "")
    ∷ ("field_13_14", "")
    ∷ ("field_15_16", "")
    ∷ ("field_19_20", "")
    ∷ ("field_29_30", "")
    ∷ ("field_31_32", "")
    ∷ ("field_33_34", "")
    ∷ []

abbrev pub cell_units : ℕ → ℕ → List (String × String)
cell_units zero i = []
cell_units (suc left) i = (cell_key i, "V") ∷ cell_units left (i + 1)

abbrev pub add_reading :
    String → String → Option ℤ → List (String × ℤ × String) → List (String × ℤ × String)
add_reading key unit none out = out
add_reading key unit (some v) out = (key, v, unit) ∷ out

unfoldable pub select : List (String × String) → Readings → List (String × ℤ × String)
select [] latest = []
select ((key, unit) ∷ units) latest =
    add_reading key unit (lookup_str key latest) (select units latest)

-- `_build_result`
unfoldable pub build_result : Readings → List (String × ℤ × String)
build_result latest = select (result_units ++ cell_units 16 1) latest

abbrev pub result_of : Readings → List (String × ℤ × String)
result_of [] = []
result_of (r ∷ latest) = build_result (r ∷ latest)

-- `read`, from the bytes of the listening window on: the new `_latest`, and what is returned.
abbrev pub read_frames : List Bytes → Readings → Outcome (Readings × List (String × ℤ × String))
read_frames [] latest = ok (latest, [])
read_frames (frame ∷ frames) latest =
    handle_frames (frame ∷ frames) latest >>= λ l. ok (l, result_of l)

unfoldable pub read : Bytes → Readings → Outcome (Readings × List (String × ℤ × String))
read raw latest = read_frames (split_frames raw) latest
