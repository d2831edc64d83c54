-- ===== src/Protocol/Crc/Reference.antt =====
-- The table-driven CRC against the bit-serial definition of CRC-16/MODBUS.
use Prim.Native.Nat.{bit_and, bit_xor}
use lux_mon.Base.{
  ℕ, ◌*◌, ◌/◌, ◌%◌, ◌<◌, ◌≡◌, refl, ap, ap₂, ◌∙◌, sym, [], ◌∷◌, true, arith, ◌==◌, ==_iff,
  if◌then◌else◌, All, every_below, every_below-check,
}
use lux_mon.Base.Xor.{
  bit_xor_half, bit_xor_low, bit_xor_assoc, bit_xor_self, bit_xor-zero, bit_xor_swap,
  bit_xor_fields, bit_and_byte,
}
use lux_mon.Protocol.Bytes.{Bytes, IsByte}
use lux_mon.Protocol.Crc.{table_at, crc16_step, crc16_loop, crc16_modbus}

-- One bit of the shift register, with the reflected polynomial 0xA001.
unfoldable pub shift_bit : ℕ → ℕ
shift_bit x = if x % 2 == 1 then bit_xor (x / 2) 0xa001 else x / 2

abbrev pub shift_byte : ℕ → ℕ
shift_byte x =
    shift_bit (shift_bit (shift_bit (shift_bit (shift_bit (shift_bit (shift_bit (shift_bit x)))))))

-- The standard's definition: each byte is added to the register and shifted out bit by bit.
unfoldable pub crc16_bits : ℕ → Bytes → ℕ
crc16_bits crc [] = crc
crc16_bits crc (b ∷ bs) = crc16_bits (shift_byte (bit_xor crc b)) bs

table_check : every_below (λ i. shift_byte i == table_at i) 256 ≡ true
unfolding every_below table_at shift_bit
table_check = refl

table_at-shift_byte : (i : ℕ) → i < 256 → shift_byte i ≡ table_at i
table_at-shift_byte i h = (==_iff _ _).0 (every_below-check _ 256 i h table_check)

-- A step of the register is linear over exclusive or.
shift_bit-xor : (x y : ℕ) → shift_bit (bit_xor x y) ≡ bit_xor (shift_bit x) (shift_bit y)
unfolding shift_bit
shift_bit-xor x y = ground (
  arith,
  bit_xor_low x y,
  bit_xor_half x y,
  bit_xor_swap (x / 2) 0xa001 (y / 2) 0,
  bit_xor_swap (x / 2) 0xa001 (y / 2) 0xa001,
  bit_xor_assoc (x / 2) (y / 2) 0xa001,
  bit_xor_self 0xa001,
  bit_xor-zero (y / 2),
  bit_xor-zero 0xa001,
  bit_xor-zero (bit_xor (x / 2) (y / 2)),
)

shift_byte-xor : (x y : ℕ) → shift_byte (bit_xor x y) ≡ bit_xor (shift_byte x) (shift_byte y)
shift_byte-xor x y = simp shift_bit-xor

shift_bit-double : (q : ℕ) → shift_bit (q * 2) ≡ q
unfolding shift_bit
shift_bit-double q = ground arith

shift_byte-fields : (q : ℕ) → shift_byte (q * 256) ≡ q
shift_byte-fields q =
    let e : q * 256 ≡ q * 2 * 2 * 2 * 2 * 2 * 2 * 2 * 2 = omega arith in
    rw e (simp shift_bit-double)

-- Adding a byte changes the low byte of the register alone.
pub xor-byte_high : (crc b : ℕ) → b < 256 → bit_xor crc b / 256 ≡ crc / 256
xor-byte_high crc b h =
    let halves : bit_xor crc b / 2 / 2 / 2 / 2 / 2 / 2 / 2 / 2
        ≡ bit_xor (crc / 2 / 2 / 2 / 2 / 2 / 2 / 2 / 2) (b / 2 / 2 / 2 / 2 / 2 / 2 / 2 / 2) =
      simp bit_xor_half in
    let none_left : b / 2 / 2 / 2 / 2 / 2 / 2 / 2 / 2 ≡ 0 = omega arith in
    omega (
      arith,
      halves,
      ap (bit_xor (crc / 2 / 2 / 2 / 2 / 2 / 2 / 2 / 2)) none_left,
      bit_xor-zero (crc / 2 / 2 / 2 / 2 / 2 / 2 / 2 / 2),
    )

shift_byte-split : (x : ℕ) → shift_byte x ≡ bit_xor (x / 256) (table_at (bit_and x 0xff))
shift_byte-split x =
    let r : ℕ = x % 256 in
    let fields : bit_xor (x / 256 * 256) r ≡ x =
      bit_xor_fields 8 (x / 256) r (omega arith) ∙ omega arith in
    ap shift_byte (sym fields)
    ∙ shift_byte-xor (x / 256 * 256) r
    ∙ ap₂ bit_xor (shift_byte-fields (x / 256))
        (table_at-shift_byte r (omega arith) ∙ ap table_at (sym (bit_and_byte x)))

crc16_step-shift_byte : (crc b : ℕ) → b < 256 → crc16_step crc b ≡ shift_byte (bit_xor crc b)
unfolding crc16_step
crc16_step-shift_byte crc b h = rw (shift_byte-split, xor-byte_high crc b h)

loop-bits : (crc : ℕ) (bs : Bytes) → All IsByte bs → crc16_loop crc bs ≡ crc16_bits crc bs
unfolding crc16_loop crc16_bits
loop-bits crc [] h = refl
loop-bits crc (b ∷ bs) (hb, hbs) =
    ap (λ c. crc16_loop c bs) (crc16_step-shift_byte crc b hb)
    ∙ loop-bits (shift_byte (bit_xor crc b)) bs hbs

-- On every string of bytes the table-driven loop computes the CRC-16/MODBUS of the standard:
-- start at 0xFFFF, add each byte and shift out its eight bits by the polynomial 0xA001.
pub crc16_modbus-bits : (bs : Bytes) → All IsByte bs → crc16_modbus bs ≡ crc16_bits 0xffff bs
unfolding crc16_modbus
crc16_modbus-bits bs h = loop-bits 0xffff bs h
