-- ===== src/QuickCharge.antt =====
-- collector/quick_charge.py: starting and stopping the inverter's quick charge, and the tick that
-- ends it. The settings row that holds the state is `saved`, the log table is `rows`, newest first.
pub mod Bit
pub mod Session
use Prim.Native.String.{String}
use Prim.Native.Nat.{bit_or}
use lux_mon.Base.{
  ℕ, ◌+◌, ◌*◌, ◌/◌, ◌<◌, List, [], ◌∷◌, Bool, true, false, Option, none, some, not, ltb,
  if◌then◌else◌, Outcome, ok, raised, ℤ, pos, negsuc, min, max,
}
use lux_mon.Protocol.Frame.{Str}
use lux_mon.Automation.Link.{Link}
use lux_mon.Automation.Primitives.{Message, and_then, write_holding_register, read_holding_register}
use lux_mon.Automation.Write.{verify}

-- `QC_ENABLE_REG` and `QC_DURATION_REG`
abbrev pub qc_enable_reg : ℕ
qc_enable_reg = 233

abbrev pub qc_duration_reg : ℕ
qc_duration_reg = 234

abbrev pub qc_min_minutes : ℕ
qc_min_minutes = 1

abbrev pub qc_max_minutes : ℕ
qc_max_minutes = 1440

pub record QuickChargeState : Type 0 where
  pub active : Bool
  pub minutes : ℕ
  pub deadline_ts : ℕ
  -- The source keeps the time as text.
  pub started_at : ℕ

-- A row of the log, less its message.
pub record Row : Type 0 where
  pub register_address : ℕ
  pub raw : Option ℕ
  pub scaled : ℕ
  pub success : Bool

abbrev pub row : ℕ → Option ℕ → ℕ → Bool → Row
row a r v s = record { register_address = a; raw = r; scaled = v; success = s }

pub record World (S : Type 0) : Type 0 where
  pub connection : S
  pub saved : QuickChargeState
  pub rows : List Row

-- What a call answers: "ok", with the minutes, or the step that failed.
pub data Reply : Type 0 where
  dry started : ℕ → Reply
  stopped : Reply
  duration_failed enable_failed : Reply

-- `cur | 1` and `cur & ~1`
unfoldable pub new_value : Bool → ℕ → ℕ
new_value true cur = bit_or cur 1
new_value false cur = cur / 2 * 2

-- `max(QC_MIN_MINUTES, min(QC_MAX_MINUTES, minutes))`
unfoldable pub clamp_minutes : ℤ → ℕ
clamp_minutes (pos m) = max qc_min_minutes (min qc_max_minutes m)
clamp_minutes (negsuc m) = qc_min_minutes

module _ {S : Type 0} (link : Link S) (datalog_serial inverter_serial : Str) where
  -- The read-back of `_set_enable_bit`: whether it is confirmed, and the new value.
  abbrev pub confirmed_bit : ℕ → S → Bool → S × Outcome (Option ℕ)
  confirmed_bit new s true = (s, ok (some new))
  confirmed_bit new s false = (s, ok none)

  abbrev pub written_bit : ℕ → S → Bool × Message → S × Outcome (Option ℕ)
  written_bit new s (false, msg) = (s, ok none)
  written_bit new s (true, msg) =
      and_then (verify link datalog_serial inverter_serial qc_enable_reg (pos new) 4 s)
        (confirmed_bit new)

  abbrev pub read_bit : Bool → S → Bool × Option ℕ × Message → S × Outcome (Option ℕ)
  read_bit enable s (false, cur, msg) = (s, ok none)
  read_bit enable s (true, none, msg) = (s, ok none)
  read_bit enable s (true, some cur, msg) =
      let new = new_value enable cur in
      and_then
        (write_holding_register link datalog_serial inverter_serial qc_enable_reg (pos new) s)
        (written_bit new)

  -- `_set_enable_bit`: the new value, or none where it answers False.
  unfoldable pub set_enable_bit : Bool → S → S × Outcome (Option ℕ)
  set_enable_bit enable s =
      and_then (read_holding_register link datalog_serial inverter_serial qc_enable_reg s)
        (read_bit enable)

  -- The end of `start`, once the enable bit has been tried.
  abbrev pub start_enabled : ℕ → ℕ → World S → S × Outcome (Option ℕ) → World S × Outcome Reply
  start_enabled now minutes w (s, raised e) = (record w { connection = s }, raised e)
  start_enabled now minutes w (s, ok none) = (
    record w { connection = s; rows = row qc_enable_reg none 1 false ∷ w.rows },
    ok enable_failed,
  )
  start_enabled now minutes w (s, ok (some new)) = (
    record w {
      connection = s;
      rows = row qc_enable_reg (some new) 1 true ∷ w.rows;
      saved = record {
        active = true;
        minutes = minutes;
        deadline_ts = now + minutes * 60;
        started_at = now;
      };
    },
    ok (started minutes),
  )

  abbrev pub start_written :
      ℕ → ℕ → World S → S × Outcome (Bool × Message) → World S × Outcome Reply
  start_written now minutes w (s, raised e) = (record w { connection = s }, raised e)
  start_written now minutes w (s, ok (false, msg)) = (
    record w { connection = s; rows = row qc_duration_reg (some minutes) minutes false ∷ w.rows },
    ok duration_failed,
  )
  start_written now minutes w (s, ok (true, msg)) =
      start_enabled now minutes
        (record w {
          connection = s;
          rows = row qc_duration_reg (some minutes) minutes true ∷ w.rows;
        })
        (set_enable_bit true s)

  -- `start`, for the minutes that are asked for or, without, those of the setting. The register's
  -- scale is 1, at which `_engineering_to_raw` gives the minutes themselves and never None.
  unfoldable pub start : ℕ → ℤ → Bool → World S → World S × Outcome Reply
  start now requested dry_run w =
      let minutes = clamp_minutes requested in
      if dry_run
      then (
        record w { rows = row qc_duration_reg (some minutes) minutes true ∷ w.rows },
        ok (dry minutes),
      )
      else start_written now minutes w (
          write_holding_register link datalog_serial inverter_serial qc_duration_reg (pos minutes)
            w.connection)

  abbrev pub stop_cleared : World S → S × Outcome (Bool × Message) → World S × Outcome Reply
  stop_cleared w (s, raised e) = (record w { connection = s }, raised e)
  stop_cleared w (s, ok (false, msg)) = (
    record w { connection = s; rows = row qc_duration_reg (some 0) 0 false ∷ w.rows },
    ok duration_failed,
  )
  stop_cleared w (s, ok (true, msg)) = (
    record w {
      connection = s;
      rows = row qc_duration_reg (some 0) 0 true ∷ w.rows;
      saved = record w.saved { active = false };
    },
    ok stopped,
  )

  abbrev pub stop_disabled : World S → S × Outcome (Option ℕ) → World S × Outcome Reply
  stop_disabled w (s, raised e) = (record w { connection = s }, raised e)
  stop_disabled w (s, ok none) = (
    record w { connection = s; rows = row qc_enable_reg none 0 false ∷ w.rows },
    ok enable_failed,
  )
  stop_disabled w (s, ok (some new)) =
      stop_cleared
        (record w { connection = s; rows = row qc_enable_reg (some new) 0 true ∷ w.rows })
        (write_holding_register link datalog_serial inverter_serial qc_duration_reg (pos 0) s)

  unfoldable pub stop : Bool → World S → World S × Outcome Reply
  stop dry_run w =
      if dry_run
      then (record w { rows = row qc_enable_reg (some 0) 0 true ∷ w.rows }, ok (dry 0))
      else stop_disabled w (set_enable_bit false w.connection)

  -- The row that `tick` adds once its stop has succeeded.
  abbrev pub expired : World S × Outcome Reply → World S × Outcome (Option Reply)
  expired (w, ok stopped) =
      (record w { rows = row qc_duration_reg (some 0) 0 true ∷ w.rows }, ok (some stopped))
  expired (w, ok (dry m)) =
      (record w { rows = row qc_duration_reg (some 0) 0 true ∷ w.rows }, ok (some (dry m)))
  expired (w, ok (started m)) =
      (record w { rows = row qc_duration_reg (some 0) 0 true ∷ w.rows }, ok (some (started m)))
  expired (w, ok duration_failed) = (w, ok (some duration_failed))
  expired (w, ok enable_failed) = (w, ok (some enable_failed))
  expired (w, raised e) = (w, raised e)

  unfoldable pub tick : ℕ → World S → World S × Outcome (Option Reply)
  tick now w =
      if not w.saved.active
      then (w, ok none)
      else if ltb now w.saved.deadline_ts
      then (w, ok none)
      else expired (stop false w)
