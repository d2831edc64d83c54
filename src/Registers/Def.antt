-- ===== src/Registers/Def.antt =====
-- `RegisterDef` of collector/registers.py and its `decode`. Left out are `unit` and `desc`, display
-- texts that no computation reads.
use Prim.Native.String.{String}
use Prim.Native.Nat.{bit_and}
use lux_mon.Base.{
  ℕ, ◌+◌, ◌*◌, ◌^◌, ◌/◌, Bool, true, false, ◌&&◌, Option, none, some, leb, if◌then◌else◌, ℤ, pos,
  sub_ℕ,
}
use lux_mon.Engineering.{times}

pub record RegisterDef : Type 0 where
  pub name : String
  -- `scale`, in thousandths.
  pub scale : ℕ
  pub is_signed : Bool
  pub bitmask : Option ℕ
  pub bitshift : ℕ
  pub pair_high : Option ℕ

abbrev pub plain : ℕ → String → ℕ → ℕ × RegisterDef
plain address n s = (
  address,
  record { name = n; scale = s; is_signed = false; bitmask = none; bitshift = 0; pair_high = none },
)

abbrev pub signed : ℕ → String → ℕ → ℕ × RegisterDef
signed address n s = (
  address,
  record { name = n; scale = s; is_signed = true; bitmask = none; bitshift = 0; pair_high = none },
)

abbrev pub packed : ℕ → String → ℕ → ℕ → ℕ → ℕ × RegisterDef
packed address n s mask shift = (
  address,
  record {
    name = n;
    scale = s;
    is_signed = false;
    bitmask = some mask;
    bitshift = shift;
    pair_high = none;
  },
)

abbrev pub pair : ℕ → String → ℕ → ℕ → ℕ × RegisterDef
pair address n s high = (
  address,
  record {
    name = n;
    scale = s;
    is_signed = false;
    bitmask = none;
    bitshift = 0;
    pair_high = some high;
  },
)

-- The value before the sign: a 32-bit pair, a field of the register, or the register.
abbrev pub raw_field : Option ℕ → Option ℕ → ℕ → ℕ → ℕ → ℕ
raw_field (some high) mask shift raw high_raw = raw + high_raw * 2 ^ 16
raw_field none (some mask) shift raw high_raw = bit_and raw mask / 2 ^ shift
raw_field none none shift raw high_raw = raw

-- `decode(self, raw, high_raw)`: the value in thousandths.
unfoldable pub decode : RegisterDef → ℕ → ℕ → ℤ
decode def raw high_raw =
    let val = raw_field def.pair_high def.bitmask def.bitshift raw high_raw in
    times def.scale (if def.is_signed && leb 0x8000 val then sub_ℕ val 0x10000 else pos val)
