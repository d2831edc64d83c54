-- ===== src/Rs485/Eg4/Frame/Checksum.antt =====
-- The bitwise CRC of collector/rs485/eg4_bms.py against the table-driven one of collector/protocol.py.
use lux_mon.Base.{ℕ, ◌≡◌, refl, ap, ◌∙◌, [], ◌∷◌, arith, All, sym}
use lux_mon.Base.Xor.{bit_and_one}
use lux_mon.Protocol.Bytes.{Bytes, IsByte}
use lux_mon.Protocol.Crc.{crc16_modbus}
use lux_mon.Protocol.Crc.Reference.{shift_bit, shift_byte, crc16_bits, crc16_modbus-bits}
use lux_mon.Rs485.Eg4.Frame.{crc_bit, crc_bits, crc_from, crc16}
use Prim.Native.Nat.{bit_xor}

crc_bit-shift_bit : (x : ℕ) → crc_bit x ≡ shift_bit x
unfolding crc_bit shift_bit
crc_bit-shift_bit x = rw (bit_and_one x) (ground arith)

crc_bits-shift_byte : (x : ℕ) → crc_bits 8 x ≡ shift_byte x
unfolding crc_bits
crc_bits-shift_byte x = simp crc_bit-shift_bit

crc_from-crc16_bits : (crc : ℕ) (bytes : Bytes) → crc_from crc bytes ≡ crc16_bits crc bytes
unfolding crc_from crc16_bits
crc_from-crc16_bits crc [] = refl
crc_from-crc16_bits crc (b ∷ bytes) =
    ap (λ c. crc_from c bytes) (crc_bits-shift_byte (bit_xor crc b))
    ∙ crc_from-crc16_bits (shift_byte (bit_xor crc b)) bytes

-- On every string of bytes the bitwise CRC of the battery driver is the CRC that the table gives the
-- protocol of the inverter.
pub crc16-crc16_modbus : (bytes : Bytes) → All IsByte bytes → crc16 bytes ≡ crc16_modbus bytes
unfolding crc16
crc16-crc16_modbus bytes h = crc_from-crc16_bits 0xffff bytes ∙ sym (crc16_modbus-bits bytes h)
