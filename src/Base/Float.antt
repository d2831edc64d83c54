-- ===== src/Base/Float.antt =====
-- Python's floats: binary64 numbers, with rounding to the nearest.
use native.Mathlib.Nat.{
  mul-le-mul_right, one-le-pow, mul-lt-mul_of_pos_right, mul_comm, mod-add-div', div-le_of_le-mul,
}
use lux_mon.Base.{
  ℕ, zero, suc, ◌+◌, ◌*◌, ◌/◌, ◌%◌, ◌^◌, ◌≤◌, ◌<◌, ◌≡◌, refl, true, false, ◌&&◌, not, ltb, leb,
  ◌==◌, if◌then◌else◌, ℤ, pos, sub_ℕ, pos_part, neg_part, arith, lt→ltb, subst, Bool-cases, inl,
  inr, ltb→ge, ap, gt→leb,
}

-- A float. A finite one is the exact ratio of a binary64 number, with a denominator that is not 0; the
-- sign of a zero is left out.
pub data PyFloat : Type 0 where
  finite : ℤ → ℕ → PyFloat
  nan infinity minus_infinity : PyFloat

-- How often n / d must be halved to lie below 2^53, and how often doubled to reach 2^52, so many times
-- at most.
unfoldable pub halvings : ℕ → ℕ → ℕ → ℕ
halvings zero n d = 0
halvings (suc fuel) n d = elim (ltb n (2 ^ 53 * d)) [
  | true ↦ 0
  | false ↦ suc (halvings fuel n (2 * d))
]

unfoldable pub doublings : ℕ → ℕ → ℕ → ℕ
doublings zero n d = 0
doublings (suc fuel) n d = elim (ltb n (2 ^ 52 * d)) [
  | true ↦ suc (doublings fuel (2 * n) d)
  | false ↦ 0
]

-- n / d to the nearest integer, and to the even one at a tie.
abbrev pub round_ratio : ℕ → ℕ → ℕ
round_ratio n d =
    if ltb (2 * (n % d)) d
    then n / d
    else if ltb d (2 * (n % d))
    then n / d + 1
    else n / d + n / d % 2

-- The significand, of 53 bits at most, with its power of two. No finite float reaches 2^1024.
abbrev pub scaled : ℕ → ℕ → ℕ → PyFloat
scaled m up down =
    if leb (2 ^ 1024 * 2 ^ down) (m * 2 ^ up)
    then infinity
    else finite (pos (m * 2 ^ up)) (2 ^ down)

-- The float nearest to n / d, where d is not 0. A float has no more than 1074 binary places, and 972 halvings are as
-- many as make a number too large.
unfoldable pub nearest : ℕ → ℕ → PyFloat
nearest n d =
    let up = halvings 972 n d in
    let down = (if up == 0 && not (n == 0) then doublings 1074 n d else 0) in
    scaled (round_ratio (n * 2 ^ down) (d * 2 ^ up)) up down

abbrev pub negated : PyFloat → PyFloat
negated (finite n d) = finite (sub_ℕ (neg_part n) (pos_part n)) d
negated nan = nan
negated infinity = minus_infinity
negated minus_infinity = infinity

-- A ratio that does not pass an integer is not rounded past it.
pub round_ratio-le : (n d k : ℕ) → 0 < d → n ≤ k * d → round_ratio n d ≤ k
round_ratio-le n d k p h =
    let below : n / d ≤ k = div-le_of_le-mul d (subst (λ t. n ≤ t) (mul_comm k d) h) in
    let parts : n % d + n / d * d ≡ n = mod-add-div' n d in
    elim (Bool-cases (ltb (n / d) k)) [
      | inl t ↦ ground (arith, t)
      | inr f ↦
          let top : n / d ≡ k = omega (arith, below, ltb→ge _ _ f) in
          let whole : n / d * d ≡ k * d = ap (λ t. t * d) top in
          let none : n % d ≡ 0 = omega (arith, parts, whole, h) in rw (none, lt→ltb 0 d p) below
    ]

power-pos : (e : ℕ) → 0 < 2 ^ e
power-pos e = one-le-pow e 2 (omega arith)

scaled-le :
    (n d k down : ℕ)
    → 0 < d
    → k < 2 ^ 1024
    → n ≤ k * d
    → (m : ℕ) × (e : ℕ) × (scaled (round_ratio (n * 2 ^ down) (d * 2 ^ 0)) 0 down
        ≡ finite (pos m) e)
      × (0 < e)
      × (m ≤ k * e)
scaled-le n d k down p b h =
    let e : ℕ = 2 ^ down in
    let more : n * e ≤ k * e * (d * 1) =
      subst (λ t. n * e ≤ t) (grind arith) (mul-le-mul_right e h) in
    let m : round_ratio (n * e) (d * 1) ≤ k * e =
      round_ratio-le (n * e) (d * 1) (k * e) (omega (arith, p)) more in
    let small : k * e < 2 ^ 1024 * e = mul-lt-mul_of_pos_right b (power-pos down) in
    (
      round_ratio (n * e) (d * 1) * 1,
      e,
      rw (gt→leb (2 ^ 1024 * e) (round_ratio (n * e) (d * 1) * 1) (omega (arith, m, small))) refl,
      power-pos down,
      omega (arith, m),
    )

halvings-none : (fuel n d : ℕ) → n < 2 ^ 53 * d → halvings fuel n d ≡ 0
unfolding halvings
halvings-none zero n d h = refl
halvings-none (suc fuel) n d h = rw (halvings, lt→ltb n (2 ^ 53 * d) h) refl

-- Rounding passes no integer below 2^52 that the number does not pass.
pub nearest-le :
    (n d k : ℕ)
    → 0 < d
    → k < 2 ^ 52
    → n ≤ k * d
    → (m : ℕ) × (e : ℕ) × (nearest n d ≡ finite (pos m) e) × (0 < e) × (m ≤ k * e)
unfolding nearest
nearest-le n d k p b h =
    let up : suc k * d ≤ 2 ^ 52 * d = mul-le-mul_right d b in
    let small : n < 2 ^ 53 * d = omega (arith, up, h, p) in
    rw (halvings-none 972 n d small) (scaled-le n d k _ p (omega (arith, b)) h)
