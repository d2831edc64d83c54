-- ===== src/Registers/Sign.antt =====
-- The values that a register definition decodes to: signed registers and 32-bit pairs.
use lux_mon.Base.{
  ℕ, ◌/◌, ◌%◌, ◌-◌, ◌^◌, ◌≤◌, ◌≡◌, ap, true, false, none, some, arith, ℤ, pos, negsuc, ◌≤ℤ◌, le→leb,
  gt→leb,
}
use lux_mon.Engineering.{times}
use lux_mon.Registers.Def.{RegisterDef, decode}

-- The 16-bit two's complement of an integer.
abbrev pub twos_complement : ℤ → ℕ
twos_complement (pos n) = n
twos_complement (negsuc n) = 0xffff - n

-- A value from -32768 to 32767, sent in 16-bit two's complement, is decoded by a signed
-- definition without a bit mask or a high word to itself times the scale.
pub decode-twos_complement :
    (def : RegisterDef) (z : ℤ)
    → def.pair_high ≡ none
    → def.bitmask ≡ none
    → def.is_signed ≡ true
    → negsuc 0x7fff ≤ℤ z
    → z ≤ℤ pos 0x7fff
    → decode def (twos_complement z) 0 ≡ times def.scale z
unfolding decode
decode-twos_complement def (pos n) p q s lo hi = rw (p, q, s, gt→leb 0x8000 n (omega arith))
decode-twos_complement def (negsuc n) p q s lo hi =
    let small : n ≤ 0x7fff = omega arith in
    rw (p, q, s, le→leb 0x8000 (0xffff - n) (omega arith)) (ap (times def.scale) (ground arith))

-- A 32-bit value, sent as its low and its high word, is decoded by an unsigned pair definition to
-- itself times the scale.
pub decode-pair :
    (def : RegisterDef) (high v : ℕ)
    → def.pair_high ≡ some high
    → def.is_signed ≡ false
    → decode def (v % 2 ^ 16) (v / 2 ^ 16) ≡ times def.scale (pos v)
unfolding decode
decode-pair def high v p s = rw (p, s) (ap (λ n. times def.scale (pos n)) (omega arith))
