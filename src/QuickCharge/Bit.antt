-- ===== src/QuickCharge/Bit.antt =====
-- The update of the enable bit in register 233.
use lux_mon.Base.{
  ℕ, ◌/◌, ◌%◌, ◌≡◌, refl, Bool, true, false, Option, none, some, if◌then◌else◌, Outcome, ok, raised,
  pos, arith,
}
use lux_mon.Base.Bits.{bit_or_one}
use lux_mon.Protocol.Frame.{Str}
use lux_mon.Automation.Link.{Link}
use lux_mon.Automation.Primitives.{Message, and_then, write_holding_register, read_holding_register}
use lux_mon.Automation.Write.{verify}
use lux_mon.Automation.Write.Verified.{Confirmed, verify-Confirmed}
use lux_mon.QuickCharge.{
  qc_enable_reg, new_value, confirmed_bit, written_bit, read_bit, set_enable_bit,
}

-- The new value of the register has bit 0 as it is asked for and every other bit as it was.
pub new_value-bits :
    (enable : Bool) (cur : ℕ)
    → (new_value enable cur / 2 ≡ cur / 2) × (new_value enable cur % 2 ≡ (if enable then 1 else 0))
unfolding new_value
new_value-bits true cur = (omega (arith, bit_or_one cur), omega (arith, bit_or_one cur))
new_value-bits false cur = (omega arith, omega arith)

module _ {S : Type 0} (link : Link S) (datalog_serial inverter_serial : Str) where
  -- What a successful update has done.
  abbrev pub Updated : Bool → S → ℕ → Type 0
  Updated enable s new =
      (new % 2 ≡ (if enable then 1 else 0))
      × Confirmed link datalog_serial inverter_serial qc_enable_reg s (pos new)

  abbrev pub BitSound : Bool → S × Outcome (Option ℕ) → Type 0
  BitSound enable (s, raised e) = Unit {0}
  BitSound enable (s, ok none) = Unit {0}
  BitSound enable (s, ok (some new)) = Updated enable s new

  verified-BitSound :
      (enable : Bool) (new : ℕ)
      → new % 2 ≡ (if enable then 1 else 0)
      → (x : S × Outcome Bool)
      → (x.1 ≡ ok true → Confirmed link datalog_serial inverter_serial qc_enable_reg x.0 (pos new))
      → BitSound enable (and_then x (confirmed_bit link datalog_serial inverter_serial new))
  verified-BitSound enable new low (s, raised e) h = tt
  verified-BitSound enable new low (s, ok true) h = (low, h refl)
  verified-BitSound enable new low (s, ok false) h = tt

  written-BitSound :
      (enable : Bool) (new : ℕ)
      → new % 2 ≡ (if enable then 1 else 0)
      → (x : S × Outcome (Bool × Message))
      → BitSound enable (and_then x (written_bit link datalog_serial inverter_serial new))
  written-BitSound enable new low (s, raised e) = tt
  written-BitSound enable new low (s, ok (false, msg)) = tt
  written-BitSound enable new low (s, ok (true, msg)) =
      verified-BitSound enable new low
        (verify link datalog_serial inverter_serial qc_enable_reg (pos new) 4 s)
        (verify-Confirmed link datalog_serial inverter_serial qc_enable_reg (pos new) 4 s)

  read-BitSound :
      (enable : Bool) (x : S × Outcome (Bool × Option ℕ × Message))
      → BitSound enable (and_then x (read_bit link datalog_serial inverter_serial enable))
  read-BitSound enable (s, raised e) = tt
  read-BitSound enable (s, ok (false, cur, msg)) = tt
  read-BitSound enable (s, ok (true, none, msg)) = tt
  read-BitSound enable (s, ok (true, some cur, msg)) =
      let new = new_value enable cur in
      written-BitSound enable new (new_value-bits enable cur).1
        (write_holding_register link datalog_serial inverter_serial qc_enable_reg (pos new) s)

  pub set_enable_bit-BitSound :
      (enable : Bool) (s : S)
      → BitSound enable (set_enable_bit link datalog_serial inverter_serial enable s)
  unfolding set_enable_bit
  set_enable_bit-BitSound enable s =
      read-BitSound enable
        (read_holding_register link datalog_serial inverter_serial qc_enable_reg s)
