-- ===== src/QuickCharge/Session.antt =====
-- The saved state and the registers across start and stop.
use lux_mon.Base.{
  ℕ, ◌+◌, ◌*◌, ◌≤◌, ◌≡◌, ◌⊎◌, inl, inr, refl, Bool, true, false, Option, none, some, Outcome, ok,
  raised, ℤ, pos, negsuc, arith, List, ◌∷◌,
}
use lux_mon.Protocol.Frame.{Str}
use lux_mon.Automation.Link.{Link}
use lux_mon.Automation.Primitives.{Message, write_holding_register}
use lux_mon.QuickCharge.{
  Row, row, qc_enable_reg, World, Reply, started, stopped, dry, duration_failed, enable_failed,
  clamp_minutes, qc_duration_reg, qc_min_minutes, qc_max_minutes, set_enable_bit, start_enabled,
  start_written, start, stop_cleared, stop_disabled, stop,
}
use lux_mon.QuickCharge.Bit.{Updated, BitSound, set_enable_bit-BitSound}

clamp_minutes-range :
    (z : ℤ) → (qc_min_minutes ≤ clamp_minutes z) × (clamp_minutes z ≤ qc_max_minutes)
unfolding clamp_minutes
clamp_minutes-range (pos m) = (omega arith, omega arith)
clamp_minutes-range (negsuc m) = (omega arith, omega arith)

abbrev pub is_started : Outcome Reply → Bool
is_started (ok (started m)) = true
is_started (ok (dry m)) = false
is_started (ok stopped) = false
is_started (ok duration_failed) = false
is_started (ok enable_failed) = false
is_started (raised e) = false

abbrev pub is_stopped : Outcome Reply → Bool
is_stopped (ok stopped) = true
is_stopped (ok (dry m)) = false
is_stopped (ok (started m)) = false
is_stopped (ok duration_failed) = false
is_stopped (ok enable_failed) = false
is_stopped (raised e) = false

module _ {S : Type 0} (link : Link S) (datalog_serial inverter_serial : Str) where
  -- A quick charge runs: it is saved as active with its deadline, and bit 0 of the register was read
  -- back as set.
  abbrev pub Running : ℕ → ℕ → World S → Type 0
  Running now m w =
      (w.saved
        ≡ record { active = true; minutes = m; deadline_ts = now + m * 60; started_at = now })
      × ((new : ℕ) × Updated link datalog_serial inverter_serial true w.connection new)

  -- Either a quick charge of these minutes was started, or none was and the saved state is as before.
  abbrev pub StartSound : ℕ → ℕ → World S → World S × Outcome Reply → Type 0
  StartSound now m w result =
      ((result.1 ≡ ok (started m)) × Running now m result.0)
      ⊎ ((is_started result.1 ≡ false) × (result.0.saved ≡ w.saved))

  enabled-StartSound :
      (now m : ℕ) (w : World S) (x : S × Outcome (Option ℕ))
      → BitSound link datalog_serial inverter_serial true x
      → StartSound now m w (start_enabled link datalog_serial inverter_serial now m w x)
  enabled-StartSound now m w (s, raised e) h = inr (refl, refl)
  enabled-StartSound now m w (s, ok none) h = inr (refl, refl)
  enabled-StartSound now m w (s, ok (some new)) h = inl (refl, (refl, (new, h)))

  written-StartSound :
      (now m : ℕ) (w : World S) (x : S × Outcome (Bool × Message))
      → StartSound now m w (start_written link datalog_serial inverter_serial now m w x)
  written-StartSound now m w (s, raised e) = inr (refl, refl)
  written-StartSound now m w (s, ok (false, msg)) = inr (refl, refl)
  written-StartSound now m w (s, ok (true, msg)) =
      enabled-StartSound now m (record w { connection = s; rows = _ })
        (set_enable_bit link datalog_serial inverter_serial true s)
        (set_enable_bit-BitSound link datalog_serial inverter_serial true s)

  -- Whatever the dongle answers, `start` either reports a quick charge of 1 to 1440 minutes, saved as
  -- active with its deadline and with bit 0 of the enable register read back as set, or it reports no
  -- start and leaves the saved state as it was.
  pub start-StartSound :
      (now : ℕ) (requested : ℤ) (w : World S)
      → (m : ℕ) × (qc_min_minutes ≤ m)
        × (m ≤ qc_max_minutes)
        × StartSound now m w (start link datalog_serial inverter_serial now requested false w)
  unfolding start
  start-StartSound now requested w =
      let m = clamp_minutes requested in
      let (low, high) = clamp_minutes-range requested in
      (
        m,
        low,
        high,
        written-StartSound now m w (
            write_holding_register link datalog_serial inverter_serial qc_duration_reg (pos m)
              w.connection),
      )

  -- The quick charge is stopped: bit 0 of the enable register was read back as cleared, then the
  -- duration register was set to 0, and the state is saved as not active and else as it was.
  abbrev pub Stopped : World S → World S → Type 0
  Stopped w after =
      (after.saved ≡ record w.saved { active = false })
      × ((disabled : S) × (new : ℕ) × (msg : Message) × Updated link datalog_serial inverter_serial
            false disabled new
          × (write_holding_register link datalog_serial inverter_serial qc_duration_reg (pos 0)
                disabled
              ≡ (after.connection, ok (true, msg))))

  -- Either the quick charge is stopped, or no stop is reported and the saved state is as before.
  abbrev pub StopSound : World S → World S × Outcome Reply → Type 0
  StopSound w result =
      ((result.1 ≡ ok stopped) × Stopped w result.0)
      ⊎ ((is_stopped result.1 ≡ false) × (result.0.saved ≡ w.saved))

  cleared-StopSound :
      (w : World S) (rows : List Row) (disabled : S) (new : ℕ)
      → Updated link datalog_serial inverter_serial false disabled new
      → (x : S × Outcome (Bool × Message))
      → write_holding_register link datalog_serial inverter_serial qc_duration_reg (pos 0) disabled
        ≡ x
      → StopSound w (
          stop_cleared link datalog_serial inverter_serial
            (record w { connection = disabled; rows = rows })
            x)
  cleared-StopSound w rows disabled new u (s, raised e) p = inr (refl, refl)
  cleared-StopSound w rows disabled new u (s, ok (false, msg)) p = inr (refl, refl)
  cleared-StopSound w rows disabled new u (s, ok (true, msg)) p =
      inl (refl, (refl, (disabled, new, msg, u, p)))

  disabled-StopSound :
      (w : World S) (x : S × Outcome (Option ℕ))
      → BitSound link datalog_serial inverter_serial false x
      → StopSound w (stop_disabled link datalog_serial inverter_serial w x)
  disabled-StopSound w (s, raised e) h = inr (refl, refl)
  disabled-StopSound w (s, ok none) h = inr (refl, refl)
  disabled-StopSound w (s, ok (some new)) h =
      cleared-StopSound w (row qc_enable_reg (some new) 0 true ∷ w.rows) s new h
        (write_holding_register link datalog_serial inverter_serial qc_duration_reg (pos 0) s) refl

  -- Whatever the dongle answers, `stop` either reports the stop, with bit 0 of the enable register
  -- read back as cleared, the duration register set to 0 after that, and the state saved as not
  -- active and else as it was; or it reports no stop and leaves the saved state as it was.
  pub stop-StopSound :
      (w : World S) → StopSound w (stop link datalog_serial inverter_serial false w)
  unfolding stop
  stop-StopSound w =
      disabled-StopSound w (set_enable_bit link datalog_serial inverter_serial false w.connection)
        (set_enable_bit-BitSound link datalog_serial inverter_serial false w.connection)
