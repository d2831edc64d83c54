-- ===== src/Base/Xor.antt =====
-- Exclusive or as an abelian group of exponent two, and how it splits at a byte boundary.
use Prim.Native.Nat.{ℕ, zero, suc, ◌+◌, ◌*◌, ◌/◌, ◌%◌, ◌^◌, ◌≤◌, ◌<◌, bit_and, bit_xor}
use mathlib.Core.Path.{◌≡◌, refl, sym, ap, ◌∙◌}
use native.Mathlib.Nat.{pow-suc}
use native.Mathlib.Omega.{arith}
use lux_mon.Base.Bits.{bit_and_lowest, bit_xor_step, bit_xor_zero}

pub bit_xor_half : (a b : ℕ) → bit_xor a b / 2 ≡ bit_xor (a / 2) (b / 2)
bit_xor_half a b = omega (arith, bit_xor_step a b)

pub bit_xor_low : (a b : ℕ) → bit_xor a b % 2 ≡ (a + b) % 2
bit_xor_low a b = omega (arith, bit_xor_step a b)

comm_below : (n a b : ℕ) → a ≤ n → b ≤ n → bit_xor a b ≡ bit_xor b a
comm_below zero zero zero h k = refl
comm_below zero zero (suc b) h k = absurd (omega arith)
comm_below zero (suc a) b h k = absurd (omega arith)
comm_below (suc n) a b h k = omega (
  arith,
  bit_xor_step a b,
  bit_xor_step b a,
  comm_below n (a / 2) (b / 2) (omega arith) (omega arith),
)

pub bit_xor_comm : (a b : ℕ) → bit_xor a b ≡ bit_xor b a
bit_xor_comm a b = comm_below (a + b) a b (omega arith) (omega arith)

pub bit_xor-zero : (a : ℕ) → bit_xor a 0 ≡ a
bit_xor-zero a = bit_xor_comm a 0 ∙ bit_xor_zero a

assoc_below :
    (n a b c : ℕ) → a ≤ n → b ≤ n → c ≤ n → bit_xor (bit_xor a b) c ≡ bit_xor a (bit_xor b c)
assoc_below zero zero b c h k l = ap (λ t. bit_xor t c) (bit_xor_zero b) ∙ sym (bit_xor_zero _)
assoc_below zero (suc a) b c h k l = absurd (omega arith)
assoc_below (suc n) a b c h k l =
    let ih : bit_xor (bit_xor a b / 2) (c / 2) ≡ bit_xor (a / 2) (bit_xor b c / 2) =
      rw (bit_xor_half a b, bit_xor_half b c)
        (assoc_below n (a / 2) (b / 2) (c / 2) (omega arith) (omega arith) (omega arith)) in
    omega (
      arith,
      ih,
      bit_xor_step (bit_xor a b) c,
      bit_xor_step a (bit_xor b c),
      bit_xor_low a b,
      bit_xor_low b c,
    )

pub bit_xor_assoc : (a b c : ℕ) → bit_xor (bit_xor a b) c ≡ bit_xor a (bit_xor b c)
bit_xor_assoc a b c = assoc_below (a + b + c) a b c (omega arith) (omega arith) (omega arith)

self_below : (n a : ℕ) → a ≤ n → bit_xor a a ≡ 0
self_below zero zero h = refl
self_below zero (suc a) h = absurd (omega arith)
self_below (suc n) a h = omega (arith, bit_xor_step a a, self_below n (a / 2) (omega arith))

pub bit_xor_self : (a : ℕ) → bit_xor a a ≡ 0
bit_xor_self a = self_below a a (omega arith)

pub bit_xor_cancel : (a b : ℕ) → bit_xor (bit_xor a b) b ≡ a
bit_xor_cancel a b = bit_xor_assoc a b b ∙ ap (bit_xor a) (bit_xor_self b) ∙ bit_xor-zero a

-- The middle two of four terms change places.
pub bit_xor_swap :
    (a b c d : ℕ) → bit_xor (bit_xor a b) (bit_xor c d) ≡ bit_xor (bit_xor a c) (bit_xor b d)
bit_xor_swap a b c d =
    bit_xor_assoc a b (bit_xor c d)
    ∙ ap (bit_xor a)
        (sym (bit_xor_assoc b c d) ∙ ap (λ t. bit_xor t d) (bit_xor_comm b c) ∙ bit_xor_assoc c b d)
    ∙ sym (bit_xor_assoc a c (bit_xor b d))

halve_high : (high width : ℕ) → high * 2 ^ suc width / 2 ≡ high * 2 ^ width
halve_high high width =
    let power : high * 2 ^ suc width ≡ high * (2 ^ width * 2) =
      ap (λ (weight : ℕ). high * weight) (pow-suc 2 width) in
    omega (arith, power)

even_high : (high width : ℕ) → high * 2 ^ suc width % 2 ≡ 0
even_high high width =
    let power : high * 2 ^ suc width ≡ high * (2 ^ width * 2) =
      ap (λ (weight : ℕ). high * weight) (pow-suc 2 width) in
    omega (arith, power)

-- Terms that use different bits add up.
pub bit_xor_fields :
    (width high low : ℕ) → low < 2 ^ width → bit_xor (high * 2 ^ width) low ≡ high * 2 ^ width + low
bit_xor_fields zero high low fits =
    let none_left : low ≡ 0 = omega arith in rw none_left (bit_xor-zero _ ∙ omega arith)
bit_xor_fields (suc width) high low fits =
    let narrower : low / 2 < 2 ^ width = omega (arith, pow-suc 2 width) in
    let upper : bit_xor (high * 2 ^ suc width / 2) (low / 2) ≡ high * 2 ^ width + low / 2 =
      rw (halve_high high width) (bit_xor_fields width high (low / 2) narrower) in
    omega (
      arith,
      bit_xor_step (high * 2 ^ suc width) low,
      upper,
      halve_high high width,
      even_high high width,
    )

pub bit_xor-lt : (k a b : ℕ) → a < 2 ^ k → b < 2 ^ k → bit_xor a b < 2 ^ k
bit_xor-lt zero a b h l = let e : a ≡ 0 = omega arith in rw e (omega (arith, bit_xor_zero b))
bit_xor-lt (suc k) a b h l = omega (
  arith,
  bit_xor_step a b,
  pow-suc 2 k,
  bit_xor-lt k (a / 2) (b / 2) (omega (arith, pow-suc 2 k)) (omega (arith, pow-suc 2 k)),
)

-- Nothing is left of a conjunction with 0.
nothing_below : (bound x : ℕ) → x ≤ bound → bit_and x 0 ≡ 0
nothing_below zero zero small = refl
nothing_below zero (suc x) small = absurd (omega arith)
nothing_below (suc bound) x small =
    let half : bit_and (x / 2) 0 ≡ 0 = nothing_below bound (x / 2) (omega arith) in
    omega (arith, half, bit_and_lowest x 0)

pub bit_and-zero : (x : ℕ) → bit_and x 0 ≡ 0
bit_and-zero x = nothing_below x x (omega arith)

-- `x & (2^k - 1)` is the remainder, by the digits of the mask.
mask_step : (a m : ℕ) → bit_and a (2 * m + 1) ≡ bit_and (a / 2) m * 2 + a % 2
mask_step a m =
    let e : (2 * m + 1) / 2 ≡ m = omega arith in
    omega (arith, bit_and_lowest a (2 * m + 1), ap (bit_and (a / 2)) e)

pub bit_and_one : (a : ℕ) → bit_and a 1 ≡ a % 2
bit_and_one a = omega (arith, mask_step a 0, bit_and-zero (a / 2))

bit_and_15 : (a : ℕ) → bit_and a 15 ≡ a % 16
bit_and_15 a = omega (
  arith,
  mask_step a 7,
  mask_step (a / 2) 3,
  mask_step (a / 2 / 2) 1,
  bit_and_one (a / 2 / 2 / 2),
)

-- `x & 0xFF`
pub bit_and_byte : (a : ℕ) → bit_and a 255 ≡ a % 256
bit_and_byte a =
    let b : ℕ = a / 2 / 2 / 2 / 2 in
    omega (
      arith,
      mask_step a 127,
      mask_step (a / 2) 63,
      mask_step (a / 2 / 2) 31,
      mask_step (a / 2 / 2 / 2) 15,
      bit_and_15 b,
    )
