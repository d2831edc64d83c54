-- ===== src/Holding/Meta.antt =====
-- The entries of `HOLDING_REGISTERS` in collector/protocol.py.
-- Left out are `desc` and `unit`, which are display texts.
use Prim.Native.String.{String}
use lux_mon.Base.{ℕ, List, ℤ}

pub record HoldingMeta : Type 0 where
  pub name : String
  -- Raw steps in one engineering unit: 1, 10 or 100 for `scale` 1.0, 0.1 or 0.01.
  pub steps : ℕ
  -- The bounds, in engineering units.
  pub min : ℤ
  pub max : ℤ
  -- Empty where the source has no such key.
  pub capabilities : List String

abbrev pub register : ℕ → String → ℕ → ℤ → ℤ → List String → ℕ × HoldingMeta
register address n s lo hi caps =
    (address, record { name = n; steps = s; min = lo; max = hi; capabilities = caps })
