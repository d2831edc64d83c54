-- ===== src/Protocol/Crc/Residue.antt =====
-- The range of the CRC, and what it does to a string that ends in its own CRC.
use Prim.Native.Nat.{bit_and, bit_xor}
use lux_mon.Base.{
  ℕ, ◌*◌, ◌/◌, ◌%◌, ◌<◌, ◌≡◌, refl, ap, ◌∙◌, sym, [], ◌∷◌, ◌++◌, true, arith, ltb, ltb→lt,
  every_below, every_below-check,
}
use lux_mon.Base.Xor.{bit_xor-zero, bit_xor_fields, bit_xor-lt, bit_and_byte, bit_xor_cancel}
use lux_mon.Protocol.Bytes.{Bytes, IsU16, u16}
use lux_mon.Protocol.Crc.{table_at, crc16_step, crc16_loop, crc16_modbus}

range_check : every_below (λ i. ltb (table_at i) 65536) 256 ≡ true
unfolding every_below table_at
range_check = refl

table_at-IsU16 : (i : ℕ) → i < 256 → IsU16 (table_at i)
table_at-IsU16 i h = ltb→lt _ _ (every_below-check _ 256 i h range_check)

crc16_step-IsU16 : (crc b : ℕ) → IsU16 crc → IsU16 (crc16_step crc b)
unfolding crc16_step
crc16_step-IsU16 crc b h =
    bit_xor-lt 16 (crc / 256) _ (omega arith)
      (table_at-IsU16 _ (omega (arith, bit_and_byte (bit_xor crc b))))

pub loop-IsU16 : (crc : ℕ) (bs : Bytes) → IsU16 crc → IsU16 (crc16_loop crc bs)
unfolding crc16_loop
loop-IsU16 crc [] h = h
loop-IsU16 crc (b ∷ bs) h = loop-IsU16 (crc16_step crc b) bs (crc16_step-IsU16 crc b h)

pub crc16_modbus-IsU16 : (bs : Bytes) → IsU16 (crc16_modbus bs)
unfolding crc16_modbus
crc16_modbus-IsU16 bs = loop-IsU16 0xffff bs (omega arith)

pub loop-append :
    (crc : ℕ) (xs ys : Bytes) → crc16_loop crc (xs ++ ys) ≡ crc16_loop (crc16_loop crc xs) ys
unfolding crc16_loop
loop-append crc [] ys = refl
loop-append crc (x ∷ xs) ys = loop-append (crc16_step crc x) xs ys

low_index : (crc : ℕ) → bit_xor crc (crc % 256) ≡ crc / 256 * 256
low_index crc =
    let r : ℕ = crc % 256 in
    let fields : bit_xor (crc / 256 * 256) r ≡ crc =
      bit_xor_fields 8 (crc / 256) r (omega arith) ∙ omega arith in
    ap (λ c. bit_xor c r) (sym fields) ∙ bit_xor_cancel (crc / 256 * 256) r

table_at_zero : table_at 0 ≡ 0
unfolding table_at
table_at_zero = refl

-- The register shifts down when its own low byte comes in.
step_low : (crc : ℕ) → crc16_step crc (crc % 256) ≡ crc / 256
unfolding crc16_step
step_low crc =
    let e : bit_and (bit_xor crc (crc % 256)) 0xff ≡ 0 =
      bit_and_byte _ ∙ ap (λ (t : ℕ). t % 256) (low_index crc) ∙ omega arith in
    rw (e, table_at_zero, bit_xor-zero)

step_two : (crc : ℕ) → IsU16 crc → crc16_loop crc (u16 crc) ≡ 0
unfolding crc16_loop
step_two crc h =
    let high : crc / 256 ≡ crc / 256 % 256 = omega arith in
    ap (λ c. crc16_step c (crc / 256)) (step_low crc)
    ∙ ap (crc16_step (crc / 256)) high
    ∙ step_low (crc / 256)
    ∙ omega arith

-- A string followed by its own CRC, low byte first, has the CRC zero.
pub crc16_residue : (bs : Bytes) → crc16_modbus (bs ++ u16 (crc16_modbus bs)) ≡ 0
unfolding crc16_modbus
crc16_residue bs =
    loop-append 0xffff bs _ ∙ step_two (crc16_loop 0xffff bs) (loop-IsU16 0xffff bs (omega arith))
