-- ===== src/Rs485/Eg4/Blocks.antt =====
-- The payloads of the register blocks, as `parse_response` of collector/rs485/eg4_bms.py reads them.
-- Amounts are in thousandths of their unit, and the units are left out.
use Prim.Native.String.{String, ◌++◌ as str_append}
use Prim.Native.Nat.{bit_and}
use lux_mon.Base.{
  ℕ, zero, suc, ◌+◌, ◌*◌, ◌/◌, ◌%◌, List, [], ◌∷◌, ◌++◌, Bool, true, false, ◌&&◌, Option, none,
  some, ltb, leb, ◌==◌, if◌then◌else◌, drop, Outcome, ok, raised, struct_error, ◌>>=◌, ℤ, pos,
  sub_ℕ,
}
use lux_mon.Engineering.{times}
use lux_mon.Protocol.Bytes.{Bytes, slice}
use lux_mon.Protocol.Frame.{Str}
use lux_mon.Automation.Clock.{lstrip, reversed}
use lux_mon.Rs485.Fields.{whole, signed_16, number_text, cell_key}
use lux_mon.Rs485.Cells.{CellScan, no_cells, see_cell}
use lux_mon.Rs485.A5.{power_of}
use lux_mon.Rs485.Eg4.Words.{decode_status, decode_warnings, decode_protection, decode_error}

pub data Value : Type 0 where
  amount : ℤ → Value
  missing : Value
  text : String → Value
  ascii : Str → Value

abbrev pub EgReadings : Type 0
EgReadings = List (String × Value)

unfoldable pub first_be : Bytes → Outcome ℕ
first_be (high ∷ (low ∷ rest)) = ok (high * 256 + low)
first_be _ = raised struct_error

-- `_read_u16`, `_read_s16` and `_read_u32`
unfoldable pub read_u16 : Bytes → ℕ → Outcome ℕ
read_u16 payload offset = first_be (drop offset payload)

unfoldable pub read_s16 : Bytes → ℕ → Outcome ℤ
read_s16 payload offset = read_u16 payload offset >>= λ v. ok (signed_16 v)

unfoldable pub read_u32 : Bytes → ℕ → Outcome ℕ
read_u32 payload offset = read_u16 payload offset >>= λ high.
    read_u16 payload (offset + 2) >>= λ low. ok (high * 65536 + low)

-- The loop over the cells: what is shown of each, the scan of those that are valid, and their count.
pub record EgScan : Type 0 where
  pub shown : List (Option ℕ)
  pub scan : CellScan
  pub valid_cells : ℕ

abbrev pub no_eg_cells : EgScan
no_eg_cells = record { shown = []; scan = no_cells 10000; valid_cells = 0 }

-- `0 < cell_mv < 5000`
abbrev pub is_valid : ℕ → Bool
is_valid mv = ltb 0 mv && ltb mv 5000

unfoldable pub eg_cell : ℕ → ℕ → EgScan → EgScan
eg_cell i mv s =
    if is_valid mv
    then record {
      shown = s.shown ++ some mv ∷ [];
      scan = see_cell i mv s.scan;
      valid_cells = s.valid_cells + 1;
    }
    else record s { shown = s.shown ++ none ∷ [] }

-- `for i in range(16): …`, with the cells that are left.
unfoldable pub eg_cells : ℕ → ℕ → Bytes → EgScan → Outcome EgScan
eg_cells zero i payload s = ok s
eg_cells (suc left) i payload s =
    read_u16 payload (4 + i * 2) >>= λ mv. eg_cells left (i + 1) payload (eg_cell i mv s)

abbrev pub shown_value : Option ℕ → Value
shown_value none = missing
shown_value (some mv) = amount (pos mv)

abbrev pub shown_cells : ℕ → List (Option ℕ) → EgReadings
shown_cells i [] = []
shown_cells i (mv ∷ mvs) = (cell_key i, shown_value mv) ∷ shown_cells (i + 1) mvs

-- `round(sum_cell / valid_cells, 3)`: the mean to the millivolt, to the even one at a tie.
abbrev pub rounded_mean : ℕ → ℕ → ℕ
rounded_mean n count =
    if ltb (2 * (n % count)) count
    then n / count
    else if ltb count (2 * (n % count))
    then n / count + 1
    else n / count + n / count % 2

unfoldable pub cell_summary : EgScan → EgReadings
cell_summary s =
    if s.valid_cells == 0
    then []
    else ("cell_min_voltage", amount (pos s.scan.min_v))
      ∷ ("cell_max_voltage", amount (pos s.scan.max_v))
      ∷ ("cell_delta_voltage", amount (sub_ℕ s.scan.max_v s.scan.min_v))
      ∷ ("cell_avg_voltage", amount (pos (rounded_mean s.scan.sum_v s.valid_cells)))
      ∷ ("cell_min_number", amount (whole s.scan.min_idx))
      ∷ ("cell_max_number", amount (whole s.scan.max_idx))
      ∷ []

-- 36 bytes: voltage, current, 16 cells
unfoldable pub parse_main : Bytes → Outcome EgReadings
parse_main payload = read_u16 payload 0 >>= λ total_voltage. read_s16 payload 2 >>= λ current_raw.
    eg_cells 16 0 payload no_eg_cells >>= λ s. ok (
      ("voltage", amount (pos (10 * total_voltage)))
        ∷ ("current", amount (times 10 current_raw))
        ∷ ("power", amount (power_of total_voltage current_raw))
        ∷ shown_cells 1 s.shown
      ++ cell_summary s)

-- The numbers at the head of a status block, with their signs.
abbrev pub status_head : List (String × Bool × ℕ)
status_head =
    ("pcb_temperature", true, 0)
    ∷ ("avg_temperature", true, 2)
    ∷ ("max_temperature", true, 4)
    ∷ ("remaining_capacity", false, 6)
    ∷ ("max_charge_current", false, 8)
    ∷ ("soh", false, 10)
    ∷ ("soc", false, 12)
    ∷ []

abbrev pub read_number : Bool → Bytes → ℕ → Outcome ℤ
read_number true payload offset = read_s16 payload offset
read_number false payload offset = read_u16 payload offset >>= λ v. ok (pos v)

unfoldable pub read_head : List (String × Bool × ℕ) → Bytes → Outcome EgReadings
read_head [] payload = ok []
read_head ((key, signed, offset) ∷ fields) payload = read_number signed payload offset >>= λ v.
    read_head fields payload >>= λ rest. ok ((key, amount (times 1000 v)) ∷ rest)

-- `1 if not (word & mask) else 0`
abbrev pub allowed : ℕ → ℕ → Value
allowed word mask = amount (whole (if bit_and word mask == 0 then 1 else 0))

abbrev pub word_readings : ℕ → ℕ → ℕ → ℕ → EgReadings
word_readings status warnings protection error =
    ("status_word", amount (whole status))
    ∷ ("status_text", text (decode_status status))
    ∷ ("heating", amount (whole (if bit_and status 0x8000 == 0 then 0 else 1)))
    ∷ ("warnings_word", amount (whole warnings))
    ∷ ("warnings_text", text (decode_warnings warnings))
    ∷ ("protection_word", amount (whole protection))
    ∷ ("protection_text", text (decode_protection protection))
    ∷ ("charging_allowed", allowed protection 0x0503)
    ∷ ("discharging_allowed", allowed protection 0x2e0c)
    ∷ ("error_word", amount (whole error))
    ∷ ("error_text", text (decode_error error))
    ∷ []

-- `int.from_bytes(…, "big", signed=True)` of one byte at most
abbrev pub from_signed : Bytes → ℤ
from_signed [] = pos 0
from_signed (b ∷ rest) = if leb 0x80 b then sub_ℕ b 0x100 else pos b

abbrev pub sensors : ℕ → ℕ → Bytes → EgReadings
sensors zero i payload = []
sensors (suc left) i payload =
    (
      str_append "temperature_" (number_text (i + 1)),
      amount (times 1000 (from_signed (slice payload (30 + i) (31 + i)))),
    )
    ∷ sensors left (i + 1) payload

-- 42 bytes: temperatures, capacity, charge and health, status
unfoldable pub parse_status : Bytes → Outcome EgReadings
parse_status payload = read_head status_head payload >>= λ head. read_u16 payload 14 >>= λ status.
    read_u16 payload 16 >>= λ warnings. read_u16 payload 18 >>= λ protection.
    read_u16 payload 20 >>= λ error. read_u32 payload 22 >>= λ cycle_count.
    read_u16 payload 38 >>= λ full_capacity. ok (
      head
      ++ word_readings status warnings protection error
      ++ ("cycle_count", amount (whole cycle_count)) ∷ sensors 6 0 payload
      ++ ("full_capacity", amount (pos (100 * full_capacity))) ∷ [])

-- The loop of `_extract_ascii`, which stops at a zero byte.
unfoldable pub ascii_until_zero : Bytes → Str
ascii_until_zero [] = []
ascii_until_zero (b ∷ bytes) =
    let rest = ascii_until_zero bytes in
    if b == 0 then [] else if leb 0x20 b && leb b 0x7e then b ∷ rest else rest

-- `_extract_ascii`
unfoldable pub extract_ascii : Bytes → Str
extract_ascii bytes = reversed (lstrip (reversed (ascii_until_zero bytes) [])) []

-- The blocks are told apart by their sizes.
unfoldable pub parse_block : ℕ → Bytes → Outcome EgReadings
parse_block byte_count payload =
    if byte_count == 0x24
    then parse_main payload
    else if byte_count == 0x2a
    then parse_status payload
    else if byte_count == 0x16
    then ok (("model", ascii (extract_ascii payload)) ∷ [])
    else if byte_count == 0x06
    then ok (("firmware", ascii (extract_ascii payload)) ∷ [])
    else if byte_count == 0x10
    then ok (("serial", ascii (extract_ascii payload)) ∷ [])
    else ok []
