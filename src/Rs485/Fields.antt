-- ===== src/Rs485/Fields.antt =====
-- The fields of the battery protocols in collector/rs485: numbers of two and four bytes, the high
-- byte first, and the names of the readings.
pub mod Reads
use Prim.Native.String.{String, ◌++◌ as str_append}
use mathlib.Core.Option
use lux_mon.Base.{
  get_elem?, ℕ, ◌+◌, ◌*◌, ◌/◌, ◌%◌, List, [], ◌∷◌, ltb, leb, if◌then◌else◌, Outcome, ok, ◌>>=◌, ℤ,
  pos, sub_ℕ,
}
use lux_mon.Protocol.Bytes.{Bytes, byte_at}

-- Readings by their names, in thousandths of their unit.
abbrev pub Readings : Type 0
Readings = List (String × ℤ)

-- An exact value, where thousandths do not do.
pub record Ratio : Type 0 where
  pub numerator : ℤ
  pub denominator : ℕ

abbrev pub over : ℤ → ℕ → Ratio
over n d = record { numerator = n; denominator = d }

abbrev pub whole : ℕ → ℤ
whole n = pos (1000 * n)

-- `(data[offset] << 8) | data[offset + 1]`, of bytes
unfoldable pub u16_be : Bytes → ℕ → Outcome ℕ
u16_be payload offset =
    byte_at payload offset >>= λ high. byte_at payload (offset + 1) >>= λ low. ok (high * 256 + low)

abbrev pub signed_16 : ℕ → ℤ
signed_16 val = if leb 0x8000 val then sub_ℕ val 0x10000 else pos val

unfoldable pub s16_be : Bytes → ℕ → Outcome ℤ
s16_be payload offset = u16_be payload offset >>= λ val. ok (signed_16 val)

unfoldable pub u32_be : Bytes → ℕ → Outcome ℕ
u32_be payload offset =
    u16_be payload offset >>= λ high. u16_be payload (offset + 2) >>= λ low. ok (high * 65536 + low)

-- The two bytes of a field.
abbrev pub be16 : ℕ → Bytes
be16 v = v / 256 ∷ v % 256 ∷ []

abbrev pub digits : List String
digits = "0" ∷ "1" ∷ "2" ∷ "3" ∷ "4" ∷ "5" ∷ "6" ∷ "7" ∷ "8" ∷ "9" ∷ []

abbrev pub digit : ℕ → String
digit n = Option.get_or (get_elem? digits n) ""

-- `str(n)`, for the numbers below 100 that count cells and sensors.
abbrev pub number_text : ℕ → String
number_text n = if ltb n 10 then digit n else str_append (digit (n / 10)) (digit (n % 10))

-- `f"cell_{n}_voltage"`
abbrev pub cell_key : ℕ → String
cell_key n = str_append "cell_" (str_append (number_text n) "_voltage")
