-- ===== src/Engineering/Fit.antt =====
-- Clamping, rounding, and which clamped values fit a 16-bit register.
use lux_mon.Base.{
  ℕ, ◌*◌, ◌≤◌, ◌<◌, ◌≡◌, ◌≢◌, ◌⊎◌, inl, inr, refl, le→leb, Bool, true, ◌&&◌, arith, some, subst,
  leb_ℤ, List, [], ◌∷◌, if◌then◌else◌, ℤ, pos, negsuc, ◌≤ℤ◌, Returns,
}
use native.Mathlib.Nat.{mul-zero, mul-le-mul, mul-le-mul_right}
use lux_mon.Base.Float.{
  PyFloat, nearest, halvings, doublings, round_ratio, nearest-le, round_ratio-le,
}
use lux_mon.Holding.Meta.{HoldingMeta}
use lux_mon.Holding.{holding_registers}
use lux_mon.Protocol.Build.{register_value}
use lux_mon.Engineering.{
  min_ℤ, times, rounded_quotient, engineering_to_raw, clamp, clamp_to_register, Quantity, finite,
  infinite, minus_infinite, nan,
}

times-pos : (k n : ℕ) → times k (pos n) ≡ pos (k * n)
unfolding times
times-pos k n = ground (arith, mul-zero k)

times-mono : (a b : ℤ) → a ≤ℤ b → times 1000 a ≤ℤ times 1000 b
unfolding times
times-mono (pos m) (pos n) h = ground arith
times-mono (pos m) (negsuc n) h = absurd (omega arith)
times-mono (negsuc m) (pos n) h = ground arith
times-mono (negsuc m) (negsuc n) h = ground arith

clamp_cases :
    (v : ℤ) (info : HoldingMeta)
    → info.min ≤ℤ info.max
    → (times 1000 info.min ≤ℤ clamp v info)
      × (clamp v info ≤ℤ times 1000 info.max)
      × (times 1000 info.min ≤ℤ v → v ≤ℤ times 1000 info.max → clamp v info ≡ v)
unfolding clamp
clamp_cases v info h =
    let m = times-mono info.min info.max h in (ground arith, ground arith, λ a b. ground arith)

-- A value clamped to a register with ordered bounds lies within them.
pub clamp_bounds :
    (v : ℤ) (info : HoldingMeta)
    → info.min ≤ℤ info.max
    → (times 1000 info.min ≤ℤ clamp v info) × (clamp v info ≤ℤ times 1000 info.max)
clamp_bounds v info h = ((clamp_cases v info h).0, (clamp_cases v info h).1)

-- The bounds of the register, in raw units, lie within 16 bits.
abbrev pub fits_register : HoldingMeta → Bool
fits_register info = leb_ℤ (pos 0) info.min && leb_ℤ (times info.steps info.max) (pos 65535)

-- The scales of the registers: 1, 0.1 and 0.01.
abbrev pub IsScaled : HoldingMeta → Type 0
IsScaled info = (info.steps ≡ 1) ⊎ ((info.steps ≡ 10) ⊎ (info.steps ≡ 100))

-- The float of a scale is the number itself or above it.
scale-above :
    (info : HoldingMeta)
    → IsScaled info
    → (c : ℕ) × (d : ℕ) × (nearest 1 info.steps ≡ PyFloat.finite (pos c) d)
      × (0 < c)
      × (d ≤ c * info.steps)
unfolding nearest halvings doublings
scale-above info (inl e) = rw e (_, _, refl, omega arith, omega arith)
scale-above info (inr (inl e)) = rw e (_, _, refl, omega arith, omega arith)
scale-above info (inr (inr e)) = rw e (_, _, refl, omega arith, omega arith)

steps-pos : (info : HoldingMeta) → IsScaled info → 0 < info.steps
steps-pos info (inl e) = rw e (omega arith)
steps-pos info (inr (inl e)) = rw e (omega arith)
steps-pos info (inr (inr e)) = rw e (omega arith)

-- A number that does not pass an integer bound is converted to no more than the bound is.
rounded_quotient-le :
    (info : HoldingMeta) (n k : ℕ)
    → IsScaled info
    → n ≤ k * 1000
    → info.steps * k ≤ 65535
    → (raw : ℕ) × (rounded_quotient n info.steps ≡ some raw) × (raw ≤ 65535)
unfolding rounded_quotient
rounded_quotient-le info n k scaled h top =
    let low : 1 * k ≤ info.steps * k = mul-le-mul_right k (steps-pos info scaled) in
    let (a, b, number, b_pos, a_le) =
      nearest-le n 1000 k (omega arith) (omega (arith, low, top)) h in
    let (c, d, scale, c_pos, d_le) = scale-above info scaled in
    let bc_pos : 0 < b * c = mul-le-mul b_pos c_pos in
    let order : k * b * (c * info.steps) ≡ info.steps * k * (b * c) = grind arith in
    let bounded : a * d ≤ info.steps * k * (b * c) =
      subst (λ t. a * d ≤ t) order (mul-le-mul a_le d_le) in
    let (m, e, quotient, e_pos, m_le) =
      nearest-le (a * d) (b * c) (info.steps * k) bc_pos (omega (arith, top)) bounded in
    let raw_le : round_ratio m e ≤ info.steps * k =
      round_ratio-le m e (info.steps * k) e_pos m_le in
    (round_ratio m e, rw (number, scale, quotient) refl, omega (arith, raw_le, top))

fit_case :
    (info : HoldingMeta) (c lo hi : ℤ)
    → IsScaled info
    → pos 0 ≤ℤ lo
    → lo ≤ℤ hi
    → times info.steps hi ≤ℤ pos 65535
    → times 1000 lo ≤ℤ c
    → c ≤ℤ times 1000 hi
    → (raw : ℤ) × (engineering_to_raw (finite c) info ≡ some raw) × Returns (register_value raw)
unfolding register_value engineering_to_raw
fit_case info (pos x) (pos l) (pos u) scaled p q r a b =
    let below : x ≤ 1000 * u = omega (arith, (rw (times-pos 1000 u) at b)) in
    let top : info.steps * u ≤ 65535 = omega (arith, (rw (times-pos info.steps u) at r)) in
    let (raw, e, bound) = rounded_quotient-le info x u scaled (omega (arith, below)) top in
    (pos raw, rw e refl, rw (le→leb raw 65535 bound) refl)
fit_case info (negsuc x) (pos l) (pos u) scaled p q r a b =
    absurd (omega (arith, (rw (times-pos 1000 l) at a)))
fit_case info c (pos l) (negsuc u) scaled p q r a b = absurd (omega arith)
fit_case info c (negsuc l) hi scaled p q r a b = absurd (omega arith)

bounds_ordered :
    (info : HoldingMeta)
    → info.min ≤ℤ info.max
    → (times 1000 info.min ≤ℤ times 1000 info.max)
      × (min_ℤ (times 1000 info.min) (times 1000 info.max) ≡ times 1000 info.min)
bounds_ordered info h = let m = times-mono info.min info.max h in (m, ground (arith, m))

-- For a register with the scale 1, 0.1 or 0.01 whose bounds are ordered and, in raw units, within
-- 0..65535: every requested value, an infinity too but what is not a number, clamped to the bounds, is
-- converted to a raw value, and to one that the write builder takes.
pub register_value-fits :
    (info : HoldingMeta) (v : Quantity)
    → v ≢ nan
    → IsScaled info
    → info.min ≤ℤ info.max
    → fits_register info ≡ true
    → (raw : ℤ) × (engineering_to_raw (clamp_to_register v info) info ≡ some raw)
      × Returns (register_value raw)
unfolding clamp_to_register
register_value-fits info v d scaled h f = clamped v d
  where
    fit :
        (c : ℤ)
        → times 1000 info.min ≤ℤ c
        → c ≤ℤ times 1000 info.max
        → (raw : ℤ) × (engineering_to_raw (finite c) info ≡ some raw) × Returns (register_value raw)
    fit c a b =
        fit_case info c info.min info.max scaled (ground (arith, f)) h (ground (arith, f)) a b

    clamped :
        (v : Quantity)
        → v ≢ nan
        → (raw : ℤ) × (engineering_to_raw (clamp_to_register v info) info ≡ some raw)
          × Returns (register_value raw)
    clamped (finite value) d = let (a, b) = clamp_bounds value info h in fit (clamp value info) a b
    clamped infinite d = fit (times 1000 info.max) (bounds_ordered info h).0 (omega arith)
    clamped minus_infinite d =
        rw (bounds_ordered info h).1
          (fit (times 1000 info.min) (omega arith) (bounds_ordered info h).0)
    clamped nan d = absurd (d refl)

unfit : List (ℕ × HoldingMeta) → List ℕ
unfit [] = []
unfit ((address, info) ∷ rest) = if fits_register info then unfit rest else address ∷ unfit rest

-- The registers of the table whose own range does not fit 16 bits.
unfit_addresses :
    unfit holding_registers
    ≡ 62 ∷ 91 ∷ 27 ∷ 28 ∷ 42 ∷ 43 ∷ 46 ∷ 47 ∷ 50 ∷ 51 ∷ 106 ∷ 108 ∷ 115 ∷ 117 ∷ 119 ∷ 124 ∷ 134
      ∷ 135 ∷ 242 ∷ []
unfolding unfit holding_registers times
unfit_addresses = refl
