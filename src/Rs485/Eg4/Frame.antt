-- ===== src/Rs485/Eg4/Frame.antt =====
-- The frames of collector/rs485/eg4_bms.py: `_crc16`, `_build_read_request`, `poll_request` and
-- `parse_response`.
pub mod Checksum
pub mod Total
pub mod Reply
use Prim.Native.Nat.{bit_and, bit_xor}
use lux_mon.Base.{
  ℕ, zero, suc, ◌+◌, ◌-◌, ◌/◌, ◌%◌, List, [], ◌∷◌, ◌++◌, ◌&&◌, not, Option, none, some, ltb, leb,
  ◌==◌, if◌then◌else◌, length, get_elem?, take, Outcome, ok, raised, index_error, struct_error,
  ◌>>=◌,
}
use lux_mon.Protocol.Bytes.{Bytes, u16, byte_at, unpack_from, slice}
use lux_mon.Rs485.Fields.{be16, whole}
use lux_mon.Rs485.Eg4.Blocks.{EgReadings, amount, parse_block}

-- The body of the loop over the bits.
unfoldable pub crc_bit : ℕ → ℕ
crc_bit crc = if bit_and crc 1 == 0 then crc / 2 else bit_xor (crc / 2) 0xa001

-- `for _ in range(8): …`, with the rounds that are left.
unfoldable pub crc_bits : ℕ → ℕ → ℕ
crc_bits zero crc = crc
crc_bits (suc left) crc = crc_bits left (crc_bit crc)

unfoldable pub crc_from : ℕ → Bytes → ℕ
crc_from crc [] = crc
crc_from crc (b ∷ bytes) = crc_from (crc_bits 8 (bit_xor crc b)) bytes

-- `_crc16`
unfoldable pub crc16 : Bytes → ℕ
crc16 bytes = crc_from 0xffff bytes

-- `_build_read_request`; a field that does not fit raises.
unfoldable pub build_read_request : ℕ → ℕ → ℕ → Outcome Bytes
build_read_request slave start count =
    if leb slave 255 && (leb start 65535 && leb count 65535)
    then (let pdu = slave ∷ 3 ∷ be16 start ++ be16 count in ok (pdu ++ u16 (crc16 pdu)))
    else raised struct_error

abbrev pub poll_sequence : List (ℕ × ℕ)
poll_sequence =
    (0x0000, 0x12) ∷ (0x0012, 0x15) ∷ (0x0069, 0x0b) ∷ (0x0075, 0x03) ∷ (0x0078, 0x08) ∷ []

pub record Eg4Bms : Type 0 where
  pub slave : ℕ
  pub poll_index : ℕ

abbrev pub or_out_of_range : Option (ℕ × ℕ) → Eg4Bms → Eg4Bms × Outcome Bytes
or_out_of_range none d = (d, raised index_error)
or_out_of_range (some (start, count)) d = (
  record d { poll_index = (d.poll_index + 1) % length poll_sequence },
  build_read_request d.slave start count,
)

-- `poll_request`
unfoldable pub poll_request : Eg4Bms → Eg4Bms × Outcome Bytes
poll_request d = or_out_of_range (get_elem? poll_sequence d.poll_index) d

-- From the test of the checksum on.
unfoldable pub check_reply : ℕ → Bytes → Outcome (Option EgReadings)
check_reply byte_count stream = unpack_from stream (length stream - 2) >>= λ recv_crc.
    if crc16 (take (length stream - 2) stream) == recv_crc
    then (parse_block byte_count (slice stream 3 (3 + byte_count)) >>= (λ result. ok (some result)))
    else ok none

-- From the function code on.
unfoldable pub parse_reply : ℕ → Bytes → Outcome (Option EgReadings)
parse_reply function stream =
    if not (bit_and function 0x80 == 0)
    then ok (some (("modbus_error", amount (whole function)) ∷ []))
    else if not (function == 3)
    then ok none
    else (byte_at stream 2 >>= (λ byte_count.
        if ltb (length stream) (3 + byte_count + 2)
        then ok none
        else check_reply byte_count stream))

-- `parse_response`
unfoldable pub parse_response : Eg4Bms → Bytes → Outcome (Option EgReadings)
parse_response d stream =
    if ltb (length stream) 5
    then ok none
    else (byte_at stream 0 >>= (λ from.
        if not (from == d.slave)
        then ok none
        else (byte_at stream 1 >>= (λ function. parse_reply function stream))))
