-- ===== src/Tests/QuickCharge.antt =====
-- A quick charge of an hour that the dongle accepts.
use lux_mon.Base.{ℕ, zero, suc, ◌≤◌, [], ◌∷◌, true, false, pos}
use lux_mon.Protocol.Frame.{LuxFrame, new_frame}
use lux_mon.QuickCharge.{QuickChargeState, World, start, stop, qc_min_minutes, qc_max_minutes}
use lux_mon.QuickCharge.Session.{StartSound, StopSound, start-StartSound, stop-StopSound}
use lux_mon.Tests.Protocol.{serial, other_serial}
use lux_mon.Tests.Automation.{link_of}

abbrev frame_of : ℕ → ℕ → ℕ → LuxFrame
frame_of f r v = record (new_frame 1 0xc2 serial []) {
  device_function = f;
  register = r;
  values = v ∷ [];
}

-- The duration is echoed, the enable register is read, written and read back.
abbrev accepting : ℕ → LuxFrame
accepting zero = frame_of 6 234 60
accepting (suc zero) = frame_of 3 233 6
accepting (suc (suc zero)) = frame_of 6 233 7
accepting (suc (suc (suc k))) = frame_of 3 233 7

abbrev idle : QuickChargeState
idle = record { active = false; minutes = 0; deadline_ts = 0; started_at = 0 }

abbrev fresh : World ℕ
fresh = record { connection = 0; saved = idle; rows = [] }

start-StartSound_example :
    (m : ℕ) × (qc_min_minutes ≤ m)
    × (m ≤ qc_max_minutes)
    × StartSound
        (link_of accepting)
        serial
        other_serial
        1000
        m
        fresh
        (start (link_of accepting) serial other_serial 1000 (pos 60) false fresh)
start-StartSound_example =
    start-StartSound (link_of accepting) serial other_serial 1000 (pos 60) fresh

-- The enable register is read, written and read back, and the duration is echoed.
abbrev releasing : ℕ → LuxFrame
releasing zero = frame_of 3 233 7
releasing (suc zero) = frame_of 6 233 6
releasing (suc (suc zero)) = frame_of 3 233 6
releasing (suc (suc (suc k))) = frame_of 6 234 0

abbrev running : World ℕ
running = record fresh {
  saved = record { active = true; minutes = 60; deadline_ts = 4600; started_at = 1000 };
}

stop-StopSound_example :
    StopSound
      (link_of releasing)
      serial
      other_serial
      running
      (stop (link_of releasing) serial other_serial false running)
stop-StopSound_example = stop-StopSound (link_of releasing) serial other_serial running
