-- ===== src/Base/Bits.antt =====
-- Conjunction and exclusive or, from the lowest digit up. The native operations are `bitwise`, whose
-- first number also counts the digits to go; the count does not matter once it is large enough.
use Prim.Native.Nat.{
  ℕ, zero, suc, ◌+◌, ◌*◌, ◌/◌, ◌%◌, ◌≤◌, ◌<◌, min, max, digits, bitwise, bit_and, bit_or, bit_xor,
  bit_or-bitwise, bit_and-bitwise, bit_xor-bitwise, differ,
}
use mathlib.Core.Path.{◌≡◌, refl, sym, ap, ◌∙◌}
use native.Mathlib.Omega.{arith}

module _ (rest : ℕ → ℕ) (digit : ℕ → ℕ → ℕ) where
  -- A count of `n` digits, of which `a` are enough, gives what the count `a` gives.
  spare_digits :
      (bound n a b : ℕ) → n ≤ bound → a ≤ n → digits rest digit n a b ≡ bitwise rest digit a b
  spare_digits zero zero zero b within enough = refl
  spare_digits zero (suc n) a b within enough = absurd (omega arith)
  spare_digits zero zero (suc a) b within enough = absurd (omega arith)
  spare_digits (suc bound) zero zero b within enough = refl
  spare_digits (suc bound) zero (suc a) b within enough = absurd (omega arith)
  spare_digits (suc bound) (suc n) zero b within enough = refl
  spare_digits (suc bound) (suc n) (suc a) b within enough =
      let left = spare_digits bound n (suc a / 2) (b / 2) (omega arith) (omega arith) in
      let right = spare_digits bound a (suc a / 2) (b / 2) (omega arith) (omega arith) in
      ap (λ high. high * 2 + digit (suc a % 2) (b % 2)) (left ∙ sym right)

  lowest_digit :
      (a b : ℕ)
      → bitwise rest digit (suc a) b
        ≡ bitwise rest digit (suc a / 2) (b / 2) * 2 + digit (suc a % 2) (b % 2)
  lowest_digit a b =
      ap (λ high. high * 2 + digit (suc a % 2) (b % 2))
        (spare_digits a a (suc a / 2) (b / 2) (omega arith) (omega arith))

pub bit_xor_zero : (b : ℕ) → bit_xor 0 b ≡ b
bit_xor_zero b = bit_xor-bitwise 0 b

-- Two digits differ exactly when their sum is odd.
differ-sum : (a b : ℕ) → a < 2 → b < 2 → differ a b ≡ (a + b) % 2
differ-sum zero b h k = omega arith
differ-sum (suc zero) zero h k = refl
differ-sum (suc zero) (suc zero) h k = refl
differ-sum (suc zero) (suc (suc b)) h k = absurd (omega arith)
differ-sum (suc (suc a)) b h k = absurd (omega arith)

pub bit_xor_step : (a b : ℕ) → bit_xor a b ≡ bit_xor (a / 2) (b / 2) * 2 + (a + b) % 2
bit_xor_step zero b = simp bit_xor-bitwise (omega arith)
bit_xor_step (suc a) b =
    let sum : differ (suc a % 2) (b % 2) ≡ (suc a + b) % 2 =
      differ-sum (suc a % 2) (b % 2) (omega arith) (omega arith) ∙ omega arith in
    simp bit_xor-bitwise (omega (arith, sum, lowest_digit (λ high. high) differ a b))

-- The lowest digit of a conjunction is 1 when both lowest digits are.
pub bit_and_lowest : (x y : ℕ) → bit_and x y ≡ min (x % 2) (y % 2) + 2 * bit_and (x / 2) (y / 2)
bit_and_lowest zero y = simp bit_and-bitwise (omega arith)
bit_and_lowest (suc x) y = simp bit_and-bitwise (omega (arith, lowest_digit (λ high. 0) min x y))

-- The lowest digit of a disjunction is 1 when one of the lowest digits is.
pub bit_or_lowest : (x y : ℕ) → bit_or x y ≡ max (x % 2) (y % 2) + 2 * bit_or (x / 2) (y / 2)
bit_or_lowest zero y = simp bit_or-bitwise (omega arith)
bit_or_lowest (suc x) y = simp bit_or-bitwise (omega (arith, lowest_digit (λ high. high) max x y))

with_nothing : (bound x : ℕ) → x ≤ bound → bit_or x 0 ≡ x
with_nothing zero zero small = refl
with_nothing zero (suc x) small = absurd (omega arith)
with_nothing (suc bound) x small =
    let half : bit_or (x / 2) 0 ≡ x / 2 = with_nothing bound (x / 2) (omega arith) in
    omega (arith, half, bit_or_lowest x 0)

-- Setting the lowest bit leaves the others.
pub bit_or_one : (x : ℕ) → bit_or x 1 ≡ x / 2 * 2 + 1
bit_or_one x =
    let high : bit_or (x / 2) 0 ≡ x / 2 = with_nothing (x / 2) (x / 2) (omega arith) in
    omega (arith, high, bit_or_lowest x 1)
