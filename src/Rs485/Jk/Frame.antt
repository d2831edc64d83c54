-- ===== src/Rs485/Jk/Frame.antt =====
-- The checksum and the response frame of collector/rs485/jk_bms.py.
pub mod Accept
use Prim.Native.String.{String}
use Prim.Native.Nat.{bit_and}
use lux_mon.Base.{
  ℕ, zero, suc, ◌+◌, ◌-◌, ◌*◌, ◌/◌, ◌%◌, ◌^◌, min, List, [], ◌∷◌, ◌++◌, Bool, true, false, ◌&&◌,
  ◌||◌, not, Option, none, some, ltb, leb, ◌==◌, if◌then◌else◌, length, take, drop, Outcome, ok,
  raised, ◌>>=◌, ℤ, pos, negsuc, sub_ℕ, pos_part, neg_part,
}
use lux_mon.Protocol.Bytes.{Bytes, byte_at, slice}
use lux_mon.Rs485.Fields.{Ratio, over, u16_be, u32_be, cell_key}
use lux_mon.Rs485.Cells.{CellScan, no_cells, see_cell}
use lux_mon.Rs485.Jk.Tags.{JkReadings}
use lux_mon.Rs485.Jk.Status.{parse_status}

unfoldable pub sum_bytes : Bytes → ℕ
sum_bytes [] = 0
sum_bytes (b ∷ bytes) = b + sum_bytes bytes

-- `_jk_checksum`
unfoldable pub jk_checksum : Bytes → ℕ
jk_checksum bytes = sum_bytes bytes % 2 ^ 32

-- `_append_checksum`, with the four bytes of `struct.pack(">I", crc)`
unfoldable pub append_checksum : Bytes → Bytes
append_checksum cmd =
    let crc = jk_checksum cmd in
    cmd ++ (crc / 16777216 ∷ crc / 65536 % 256 ∷ crc / 256 % 256 ∷ crc % 256 ∷ [])

abbrev pub has_magic : Bytes → Bool
has_magic (a ∷ (b ∷ rest)) = a == 0x4e && b == 0x57
has_magic _ = false

-- From the checksum on, with `end` the offset of the checksum.
unfoldable pub check_frame : ℕ → Bytes → Outcome (Option JkReadings)
check_frame end stream = u32_be stream end >>= λ stored_crc.
    if stored_crc == jk_checksum (take end stream) || stored_crc == jk_checksum (slice stream 2 end)
    then parse_status (slice stream 12 end)
    else ok none

-- `_parse_frame`
unfoldable pub parse_frame : Bytes → Outcome (Option JkReadings)
parse_frame stream =
    if ltb (length stream) 20
    then ok none
    else if not (has_magic stream)
    then ok none
    else byte_at stream 8 >>= λ function. u16_be stream 10 >>= λ data_len.
        if not (function == 0x06) && not (function == 0x03)
        then ok none
        else if ltb (length stream) (12 + data_len + 4)
        then ok none
        else check_frame (12 + data_len) stream
