-- ===== src/Tests/Rs485.antt =====
-- Frames of the battery protocols.
use lux_mon.Base.{
  ℕ, All, ◌≤◌, ◌*◌, ◌+◌, ◌≡◌, refl, [], ◌∷◌, ◌++◌, List, replicate, none, some, ok, map,
  if◌then◌else◌, ◌||◌, ◌==◌, inl, arith, Returns,
}
use lux_mon.Protocol.Bytes.{Bytes}
use lux_mon.Rs485.Cells.Extremes.{sum, Picked}
use lux_mon.Rs485.A5.{split_frames, parse_cells, read}
use lux_mon.Rs485.A5.Split.{
  framed, Split, second, on_the_wire, split_frames-on_the_wire, split_frames-Split,
}
use lux_mon.Rs485.A5.Payload.{report, cell_bytes, parse_cells-Scanned, read-Returns}
use lux_mon.Rs485.Jk.Status.{parse_status}
use lux_mon.Rs485.Jk.Status.Total.{parse_status-Returns}
use lux_mon.Rs485.Jk.Frame.{sum_bytes, jk_checksum, parse_frame, append_checksum}
use lux_mon.Rs485.Jk.Frame.Accept.{be32, front, parse_frame-changed}
use lux_mon.Automation.Clock.{lstrip, reversed}
use lux_mon.Protocol.Crc.{crc16_modbus}
use lux_mon.Rs485.Eg4.Blocks.{ascii, parse_block, extract_ascii, ascii_until_zero}
use lux_mon.Rs485.Eg4.Frame.{Eg4Bms, crc16, parse_response}
use lux_mon.Rs485.Eg4.Frame.Reply.{reply_of, parse_response-reply}
use lux_mon.Rs485.Eg4.Frame.Checksum.{crc16-crc16_modbus}

abbrev poll : Bytes
poll = 0xa5 ∷ 0x5a ∷ 5 ∷ 0x82 ∷ 0x21 ∷ 0x13 ∷ 0 ∷ 0 ∷ []

abbrev wire : List (Bytes × Bytes)
wire = (1 ∷ 2 ∷ [], poll) ∷ ([], poll) ∷ []

split_frames-on_the_wire_example : split_frames (on_the_wire wire (7 ∷ [])) ≡ map second wire
split_frames-on_the_wire_example =
    split_frames-on_the_wire wire (7 ∷ [])
      (
        ((refl, (refl, tt)), framed (0x82 ∷ 0x21 ∷ 0x13 ∷ 0 ∷ 0 ∷ [])),
        ((tt, framed (0x82 ∷ 0x21 ∷ 0x13 ∷ 0 ∷ 0 ∷ [])), tt),
      )
      (refl, tt)

split_frames-Split_example : Split (0xa5 ∷ 1 ∷ poll) (split_frames (0xa5 ∷ 1 ∷ poll))
split_frames-Split_example = split_frames-Split (0xa5 ∷ 1 ∷ poll)

abbrev cells : List ℕ
cells = 3301 ∷ replicate 14 3300 ++ 3298 ∷ []

parse_cells-Scanned_example :
    (lo lo_cell hi hi_cell avg : ℕ) × (parse_cells (0 ∷ (cell_bytes cells ++ []))
      ≡ ok (some (report cells lo lo_cell hi hi_cell avg)))
    × All (λ mv. lo ≤ mv) cells
    × All (λ mv. mv ≤ hi) cells
    × Picked cells 10000 lo_cell lo
    × Picked cells 0 hi_cell hi
    × (16 * avg ≤ sum cells + 8)
    × (sum cells ≤ 16 * avg + 8)
parse_cells-Scanned_example = parse_cells-Scanned 0 cells [] refl

read-Returns_example : Returns (read (0xa5 ∷ 0x5a ∷ 2 ∷ 0x82 ∷ 0x10 ∷ []) [])
read-Returns_example = read-Returns (0xa5 ∷ 0x5a ∷ 2 ∷ 0x82 ∷ 0x10 ∷ []) []

-- A status of two cells, with nothing behind them.
abbrev status : Bytes
status = 0x79 ∷ 6 ∷ 0 ∷ 1 ∷ 12 ∷ 228 ∷ 2 ∷ 12 ∷ 229 ∷ []

parse_status-Returns_example : Returns (parse_status status)
parse_status-Returns_example = parse_status-Returns status refl

parse_frame-changed_example :
    parse_frame (
      front 0 9 0 0 0 0 6 3 (0x79 ∷ 6 ∷ 0 ∷ 1 ∷ 13 ∷ 228 ∷ [])
      ++ (be32 (jk_checksum (front 0 9 0 0 0 0 6 3 (0x79 ∷ 6 ∷ 0 ∷ 1 ∷ 12 ∷ 228 ∷ []))) ++ []))
    ≡ (if 13 == 12 || 13 == 12 + 165
        then parse_status (0x79 ∷ 6 ∷ 0 ∷ 1 ∷ 13 ∷ 228 ∷ [])
        else ok none)
unfolding sum_bytes
parse_frame-changed_example =
    parse_frame-changed 0 9 0 0 0 0 6 3 (0x79 ∷ 6 ∷ 0 ∷ 1 ∷ []) (228 ∷ []) [] 12 13 (inl refl)
      (omega arith) (omega arith) (omega arith) (omega arith)

-- The standard status request carries its checksum already, and gets another one.
abbrev status_request : Bytes
status_request = 0x4e ∷ 0x57 ∷ 0 ∷ 0x13 ∷ 0 ∷ 0 ∷ 0 ∷ 0 ∷ 6 ∷ 3 ∷ 0 ∷ 0 ∷ 0 ∷ 0 ∷ 0 ∷ 0 ∷ 0x68 ∷ []

twice :
    append_checksum (append_checksum status_request)
    ≡ status_request ++ (0 ∷ 0 ∷ 1 ∷ 0x29 ∷ 0 ∷ 0 ∷ 1 ∷ 0x53 ∷ [])
unfolding append_checksum jk_checksum sum_bytes
twice = refl

abbrev firmware : Bytes
firmware = 86 ∷ 49 ∷ 46 ∷ 50 ∷ 32 ∷ 0 ∷ []

abbrev battery : Eg4Bms
battery = record { slave = 16; poll_index = 0 }

parse_response-reply_example :
    parse_response battery (reply_of 16 firmware)
    ≡ ok (some (("firmware", ascii (86 ∷ 49 ∷ 46 ∷ 50 ∷ [])) ∷ []))
unfolding parse_block extract_ascii ascii_until_zero lstrip reversed
parse_response-reply_example = parse_response-reply battery 16 firmware

crc16-crc16_modbus_example : crc16 (1 ∷ 3 ∷ 255 ∷ []) ≡ crc16_modbus (1 ∷ 3 ∷ 255 ∷ [])
crc16-crc16_modbus_example =
    crc16-crc16_modbus (1 ∷ 3 ∷ 255 ∷ []) (omega arith, (omega arith, (omega arith, tt)))
