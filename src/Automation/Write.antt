-- ===== src/Automation/Write.antt =====
-- `AutomationEngine._do_write` of collector/automation.py. The log is a table of the database; a
-- write adds one entry at most, which is its result. An entry's message is the branch that wrote it.
pub mod Verified
use Prim.Native.String.{String}
use text.Mathlib.Text.{◌==◌ as str_eq}
use lux_mon.Base.{
  ℕ, zero, suc, ◌+◌, ◌≡◌, refl, List, [], ◌∷◌, Bool, true, false, ◌&&◌, Option, none, some, ◌==◌,
  if◌then◌else◌, Outcome, ok, raised, ℤ, pos, negsuc,
}
use lux_mon.Base.Dict.{lookup, lookup_str}
use lux_mon.Holding.Meta.{HoldingMeta}
use lux_mon.Holding.{holding_registers, holding_by_name}
use lux_mon.Capabilities.Filter.{filter_holding_registers}
use lux_mon.Engineering.{Quantity, clamp_to_register, engineering_to_raw}
use lux_mon.Protocol.Frame.{Str}
use lux_mon.Automation.Link.{Link}
use lux_mon.Automation.Settings.{setting_name_to_register}
use lux_mon.Automation.Primitives.{Message, and_then, write_holding_register, read_holding_register}

pub data Note : Type 0 where
  unmapped not_found not_supported not_converted would_write not_confirmed : Note
  reply : Message → Note

-- A row of the log: `raw_value`, `scaled_value` in thousandths, `dry_run`, `success`, `message`.
pub record Entry : Type 0 where
  pub raw_value : Option ℤ
  pub scaled_value : Quantity
  pub dry_run : Bool
  pub success : Bool
  pub message : Note

abbrev pub entry : Option ℤ → Quantity → Bool → Bool → Note → Entry
entry r v d s m = record { raw_value = r; scaled_value = v; dry_run = d; success = s; message = m }

-- `d.get(name)` of a dictionary whose values may be None.
abbrev pub flatten : Option (Option String) → Option String
flatten none = none
flatten (some v) = v

unfoldable pub register_of : String → Option String
register_of setting_name = flatten (lookup_str setting_name setting_name_to_register)

-- `read_ok and raw == target`
abbrev pub reads_back : Bool × Option ℕ × Message → ℤ → Bool
reads_back (read_ok, none, m) target = false
reads_back (read_ok, some v, m) (pos n) = read_ok && (v == n)
reads_back (read_ok, some v, m) (negsuc n) = false

module _ {S : Type 0} (link : Link S) (datalog_serial inverter_serial : Str) where
  -- `for _ in range(4): …`, over the tries that are left.
  unfoldable pub verify : ℕ → ℤ → ℕ → S → S × Outcome Bool
  verify address raw zero s = (s, ok false)
  verify address raw (suc tries) s =
      and_then (read_holding_register link datalog_serial inverter_serial address s)
        (λ s r. if reads_back r raw then (s, ok true) else verify address raw tries s)

  -- From the successful write on.
  unfoldable pub confirm : ℕ → ℤ → Quantity → Message → S → S × Outcome (Option Entry)
  confirm address raw clamped msg s = and_then (verify address raw 4 s) (λ s verified. (
    s,
    ok (
        some (
          if verified
          then entry (some raw) clamped false true (reply msg)
          else entry (some raw) clamped false false not_confirmed)),
  ))

  -- From the write on.
  unfoldable pub write_through : ℕ → ℤ → Quantity → S → S × Outcome (Option Entry)
  write_through address raw clamped s =
      and_then (write_holding_register link datalog_serial inverter_serial address raw s)
        (λ s (wrote, msg).
          if wrote
          then confirm address raw clamped msg s
          else (s, ok (some (entry (some raw) clamped false false (reply msg)))))

  -- From the comparison with the current value on.
  unfoldable pub compare_write : ℕ → ℤ → Quantity → S → S × Outcome (Option Entry)
  compare_write address raw clamped s =
      and_then (read_holding_register link datalog_serial inverter_serial address s) (λ s current.
        if reads_back current raw then (s, ok none) else write_through address raw clamped s)

  -- With the register known: conversion and dry run.
  unfoldable pub convert_write :
      ℕ → HoldingMeta → Quantity → Option ℤ → Bool → S → S × Outcome (Option Entry)
  convert_write address info value none dry_run s =
      (s, ok (some (entry none value dry_run false not_converted)))
  convert_write address info value (some raw) dry_run s =
      if dry_run
      then (s, ok (some (entry (some raw) (clamp_to_register value info) true true would_write)))
      else compare_write address raw (clamp_to_register value info) s

  -- The register's entry in the map of the model that is active.
  unfoldable pub supported_write :
      ℕ → Option HoldingMeta → Quantity → Bool → S → S × Outcome (Option Entry)
  supported_write address none value dry_run s =
      (s, ok (some (entry none value dry_run false not_supported)))
  supported_write address (some info) value dry_run s =
      convert_write address info value (engineering_to_raw (clamp_to_register value info) info)
        dry_run s

  unfoldable pub addressed_write :
      Option ℕ → String → Quantity → Bool → S → S × Outcome (Option Entry)
  addressed_write none model value dry_run s =
      (s, ok (some (entry none value dry_run false not_found)))
  addressed_write (some address) model value dry_run s =
      supported_write address (lookup address (filter_holding_registers holding_registers model))
        value dry_run s

  unfoldable pub named_write :
      Option String → String → Quantity → Bool → S → S × Outcome (Option Entry)
  named_write none model value dry_run s = (s, ok (some (entry none value dry_run false unmapped)))
  named_write (some name) model value dry_run s =
      addressed_write (holding_by_name name) model value dry_run s

  -- `_do_write(setting_name, value, dry_run)`, on the active model.
  unfoldable pub do_write : String → String → Quantity → Bool → S → S × Outcome (Option Entry)
  do_write model setting_name value dry_run s =
      named_write (register_of setting_name) model value dry_run s
