-- ===== src/Rs485/Jk/Tags.antt =====
-- The tagged values of a JK BMS status, behind the cells: `_parse_status` of
-- collector/rs485/jk_bms.py from the temperatures on.
use Prim.Native.String.{String}
use Prim.Native.Nat.{bit_and}
use lux_mon.Base.{
  ℕ, zero, suc, ◌+◌, ◌-◌, ◌*◌, min, List, [], ◌∷◌, ◌++◌, Bool, true, false, ltb, leb, ◌==◌,
  if◌then◌else◌, length, Outcome, ok, ◌>>=◌, ℤ, pos, sub_ℕ, pos_part, neg_part,
}
use lux_mon.Protocol.Bytes.{Bytes, byte_at}
use lux_mon.Rs485.Fields.{Ratio, over, u16_be, u32_be}

abbrev pub JkReadings : Type 0
JkReadings = List (String × Ratio)

-- `_temperature`
unfoldable pub temperature : ℕ → Ratio
temperature raw = over (if ltb 100 raw then sub_ℕ raw 200 else pos raw) 1

-- `_current`, in hundredths
unfoldable pub current : ℕ → ℕ → ℤ
current raw sign_byte = if bit_and sign_byte 0x01 == 0 then pos raw else sub_ℕ 0 raw

-- The offset of the parser, and the result so far.
pub record Cursor : Type 0 where
  pub offset : ℕ
  pub result : JkReadings

abbrev pub put : String → Ratio → Cursor → Cursor
put key v c = record c { result = c.result ++ (key, v) ∷ [] }

abbrev pub advance : ℕ → Cursor → Cursor
advance n c = record c { offset = c.offset + n }

-- `len(data) >= offset + size and data[offset] == tag`
unfoldable pub has_tag : ℕ → ℕ → Bytes → ℕ → Outcome Bool
has_tag size tag body offset =
    if leb (offset + size) (length body)
    then byte_at body offset >>= (λ found. ok (found == tag))
    else ok false

-- `tag_value`, where three bytes are left: it does not depend on the tag that stands there.
unfoldable pub tag_value : Bytes → Cursor → Outcome (ℕ × Cursor)
tag_value body c = u16_be body (c.offset + 1) >>= λ val. ok (val, advance 3 c)

unfoldable pub temperature_step : String → Bytes → Cursor → Outcome Cursor
temperature_step key body c =
    if leb (c.offset + 3) (length body)
    then tag_value body c >>= (λ (val, c). ok (put key (temperature val) c))
    else ok c

-- The total voltage, in hundredths, 0 where there is none.
abbrev pub voltage_found : Bytes → Cursor → Bool → Outcome (ℕ × Cursor)
voltage_found body c false = ok (0, c)
voltage_found body c true =
    tag_value body c >>= λ (val, c). ok (val, put "total_voltage" (over (pos val) 100) c)

unfoldable pub voltage_step : Bytes → Cursor → Outcome (ℕ × Cursor)
voltage_step body c = has_tag 3 0x83 body c.offset >>= voltage_found body c

-- `data[offset] if len(data) > offset else 0`
abbrev pub sign_byte_at : Bytes → ℕ → Outcome ℕ
sign_byte_at body offset = if ltb offset (length body) then byte_at body offset else ok 0

-- k * z
abbrev pub scaled : ℕ → ℤ → ℤ
scaled k z = sub_ℕ (k * pos_part z) (k * neg_part z)

-- The power and its two directions, in ten-thousandths; only with a total voltage.
abbrev pub put_power : ℕ → ℤ → Cursor → Cursor
put_power total_voltage amps c =
    if total_voltage == 0
    then c
    else put "discharge_power" (over (pos (neg_part (scaled total_voltage amps))) 10000) (
        put "charge_power" (over (pos (pos_part (scaled total_voltage amps))) 10000)
          (put "power" (over (scaled total_voltage amps) 10000) c))

abbrev pub current_found : Bytes → ℕ → Cursor → Bool → Outcome Cursor
current_found body total_voltage c false = ok c
current_found body total_voltage c true = tag_value body c >>= λ (raw_current, c).
    sign_byte_at body c.offset >>= λ sign_byte.
    let amps = current raw_current sign_byte in
    ok (put_power total_voltage amps (put "current" (over amps 100) c))

unfoldable pub current_step : Bytes → ℕ → Cursor → Outcome Cursor
current_step body total_voltage c =
    has_tag 3 0x84 body c.offset >>= current_found body total_voltage c

-- A tag with a value of one byte, of two and of four bytes; `size` is what the guard asks for.
abbrev pub byte_found : String → Bytes → Cursor → Bool → Outcome Cursor
byte_found key body c false = ok c
byte_found key body c true =
    byte_at body (c.offset + 1) >>= λ v. ok (advance 2 (put key (over (pos v) 1) c))

unfoldable pub byte_step : ℕ → ℕ → String → Bytes → Cursor → Outcome Cursor
byte_step size tag key body c = has_tag size tag body c.offset >>= byte_found key body c

abbrev pub word_found : String → Bytes → Cursor → Bool → Outcome Cursor
word_found key body c false = ok c
word_found key body c true =
    u16_be body (c.offset + 1) >>= λ v. ok (advance 3 (put key (over (pos v) 1) c))

unfoldable pub word_step : ℕ → String → Bytes → Cursor → Outcome Cursor
word_step tag key body c = has_tag 3 tag body c.offset >>= word_found key body c

abbrev pub long_found : String → Bytes → Cursor → Bool → Outcome Cursor
long_found key body c false = ok c
long_found key body c true =
    u32_be body (c.offset + 1) >>= λ v. ok (advance 5 (put key (over (pos v) 1) c))

unfoldable pub long_step : ℕ → String → Bytes → Cursor → Outcome Cursor
long_step tag key body c = has_tag 5 tag body c.offset >>= long_found key body c

-- `float(bool(mode & mask))`
abbrev pub flag : ℕ → ℕ → Ratio
flag mode mask = over (pos (if bit_and mode mask == 0 then 0 else 1)) 1

abbrev pub mode_found : Bytes → Cursor → Bool → Outcome Cursor
mode_found body c false = ok c
mode_found body c true = u16_be body (c.offset + 1) >>= λ mode. ok (
    advance 3 (
      put "balancing_enabled" (flag mode 0x04) (
        put "discharging_enabled" (flag mode 0x02) (
          put "charging_enabled" (flag mode 0x01)
            (put "operation_mode_bitmask" (over (pos mode) 1) c)))))

unfoldable pub mode_step : Bytes → Cursor → Outcome Cursor
mode_step body c = has_tag 3 0x8c body c.offset >>= mode_found body c

abbrev pub capacity_found : Bytes → ℕ → Cursor → Outcome Cursor → Bool → Outcome Cursor
capacity_found body scan c rest false = rest
capacity_found body scan c rest true =
    u32_be body (scan + 1) >>= λ v. ok (put "full_charge_capacity" (over (pos v) 1) c)

-- `for scan in range(…): …`, over the positions that are left, up to the first 0xAA.
unfoldable pub capacity_scan : ℕ → ℕ → Bytes → Cursor → Outcome Cursor
capacity_scan zero scan body c = ok c
capacity_scan (suc left) scan body c =
    let rest = capacity_scan left (scan + 1) body c in
    byte_at body scan >>= λ b. capacity_found body scan c rest (b == 0xaa)

unfoldable pub capacity_step : Bytes → Cursor → Outcome Cursor
capacity_step body c =
    capacity_scan (min (length body - 5) (c.offset + 120) - c.offset) c.offset body c

-- The tagged values behind the cells, in the order in which the code asks for them.
unfoldable pub parse_tags : Bytes → Cursor → Outcome Cursor
parse_tags body c = temperature_step "mosfet_temperature" body c >>= λ c.
    temperature_step "battery_box_temperature" body c >>= λ c.
    temperature_step "battery_temperature_1" body c >>= λ c.
    voltage_step body c >>= λ (total_voltage, c). current_step body total_voltage c >>= λ c.
    byte_step 1 0x85 "soc" body c >>= λ c.
    byte_step 2 0x86 "temperature_sensor_count" body c >>= λ c.
    word_step 0x87 "cycle_count" body c >>= λ c.
    long_step 0x89 "total_cycle_capacity" body c >>= λ c.
    word_step 0x8a "total_strings" body c >>= λ c.
    word_step 0x8b "warning_bitmask" body c >>= λ c. mode_step body c >>= λ c. capacity_step body c
