-- ===== src/Tests/Automation.antt =====
-- A write of a setting over a link that answers by a script.
use lux_mon.Base.{
  ℕ, zero, suc, ◌+◌, ◌≡◌, subst, refl, ap, List, [], ◌∷◌, arith, Bool, true, false, Option, none,
  some, Outcome, ok, raised, ℤ, pos,
}
use lux_mon.Base.Dict.{lookup, lookup_str, filter_items}
use lux_mon.Protocol.Bytes.{Bytes}
use lux_mon.Protocol.Crc.{crc16_modbus, crc16_loop, crc16_step, table_at}
use lux_mon.Protocol.Frame.{LuxFrame, new_frame}
use lux_mon.Protocol.Build.{
  build_write_request, build_read_request, register_value, serial_to_bytes, encode_ascii,
}
use lux_mon.Holding.{holding_by_name, holding_registers}
use lux_mon.Capabilities.{capabilities_for, register_applies}
use lux_mon.Capabilities.Filter.{filter_holding_registers}
use lux_mon.Base.Float.{nearest, halvings, doublings}
use lux_mon.Engineering.{
  engineering_to_raw, rounded_quotient, times, clamp, finite, clamp_to_register,
}
use lux_mon.Automation.Link.{Link}
use lux_mon.Automation.Primitives.{
  wrote, write_match, write_holding_register, read_holding_register, write_reply, read_reply,
}
use lux_mon.Automation.Primitives.Accepted.{AnswersWrite, write_holding_register-true}
use lux_mon.Automation.Write.{
  entry, reply, do_write, verify, confirm, write_through, compare_write, convert_write,
  supported_write, addressed_write, named_write, register_of,
}
use lux_mon.Automation.Write.Verified.{Target, Written, Confirmed, do_write-Confirmed}
use lux_mon.Comm.Active.{Batch, Poller, poll_round, poll_rounds}
use lux_mon.Comm.Active.Answers.{Polled, poll_rounds-Polled}
use lux_mon.Tests.Protocol.{serial, other_serial}

abbrev pub reading : ℕ → LuxFrame
reading v = record (new_frame 1 0xc2 serial []) {
  device_function = 3;
  register = 64;
  values = v ∷ [];
}

abbrev pub echo : LuxFrame
echo = record (new_frame 1 0xc2 serial []) { device_function = 6; register = 64; values = 50 ∷ [] }

-- The answers by the number of the call: the old value, the echo, then the new value.
abbrev pub script : ℕ → LuxFrame
script zero = reading 80
script (suc zero) = echo
script (suc (suc k)) = reading 50

abbrev pub pick : Bool → LuxFrame → Option LuxFrame
pick true f = some f
pick false f = none

pick-matches :
    (match : LuxFrame → Bool) (g f : LuxFrame) (b : Bool)
    → match g ≡ b
    → pick b g ≡ some f
    → match f ≡ true
pick-matches match g f true h e = subst (λ o. held o) e h
  where
    held : Option LuxFrame → Type 0
    held (some x) = match x ≡ true
    held none = Unit {0}
pick-matches match g f false h e = cc

abbrev pub get_frame : LuxFrame → Outcome (Option LuxFrame) → Option LuxFrame
get_frame f (ok o) = o
get_frame f (raised e) = none

-- The link whose calls see the frames of a script in turn.
unfoldable pub link_of : (ℕ → LuxFrame) → Link ℕ
unfolding pick-matches
link_of frames = record {
  transact = λ request match k. (k + 1, ok (pick (match (frames k)) (frames k)));
  matched = λ request match k f e.
      pick-matches match (frames k) f (match (frames k)) refl (ap (get_frame f) e);
}

abbrev pub scripted_link : Link ℕ
scripted_link = link_of script

-- 50% is asked for, 80% is set: read, written, read back.
written :
    do_write scripted_link serial other_serial "eg4_6000xp" "charge_power_percent"
      (finite (pos 50000))
      false
      0
    ≡ (
      3,
      ok (some (entry (some (pos 50)) (finite (pos 50000)) false true (reply (wrote 64 (pos 50))))),
    )
unfolding do_write named_write addressed_write supported_write convert_write compare_write
    write_through confirm verify register_of lookup lookup_str write_holding_register
    read_holding_register write_reply read_reply link_of holding_by_name filter_holding_registers
    filter_items register_applies engineering_to_raw build_read_request rounded_quotient nearest
    halvings doublings times clamp clamp_to_register capabilities_for holding_registers
    build_write_request register_value serial_to_bytes encode_ascii crc16_modbus crc16_loop
    crc16_step table_at
written = refl

do_write-Confirmed_example :
    (address : ℕ) × (raw : ℤ) × Target scripted_link serial other_serial "eg4_6000xp"
      "charge_power_percent"
      (finite (pos 50000))
      address
      raw
    × (some (pos 50) ≡ some raw)
    × Written scripted_link serial other_serial address raw
    × Confirmed scripted_link serial other_serial address 3 raw
do_write-Confirmed_example =
    do_write-Confirmed scripted_link serial other_serial "eg4_6000xp" "charge_power_percent"
      (finite (pos 50000)) 0 3
      (entry (some (pos 50)) (finite (pos 50000)) false true (reply (wrote 64 (pos 50)))) written
      refl

echoed :
    write_holding_register scripted_link serial other_serial 64 (pos 50) 1
    ≡ (2, ok (true, wrote 64 (pos 50)))
unfolding write_holding_register write_reply link_of build_write_request register_value
    serial_to_bytes encode_ascii crc16_modbus crc16_loop crc16_step table_at
echoed = refl

write_holding_register-true_example :
    (req : Bytes) × (f : LuxFrame) × (build_write_request serial other_serial 64 (pos 50) ≡ ok req)
    × (scripted_link.transact req (write_match 64) 1 ≡ (2, ok (some f)))
    × AnswersWrite 64 f
write_holding_register-true_example =
    write_holding_register-true scripted_link serial other_serial 64 (pos 50) 1 2
      (wrote 64 (pos 50)) echoed

abbrev batch_answer : LuxFrame
batch_answer = record (new_frame 1 0xc2 serial []) {
  device_function = 4;
  register = 40;
  values = 7 ∷ [];
}

abbrev batches : List Batch
batches = (0, 40) ∷ (40, 40) ∷ []

abbrev idle : Poller ℕ
idle = record { conn = 0; batch_idx = 0; frames_received = 0; poll_requests = 0; emitted = [] }

-- After two rounds: the first batch stayed without an answer, and the second was answered.
abbrev after_two : Poller ℕ
after_two = record {
  conn = 2;
  batch_idx = 0;
  frames_received = 1;
  poll_requests = 1;
  emitted = batch_answer ∷ [];
}

poll_rounds-Polled_example : Polled batches after_two
unfolding poll_rounds poll_round link_of
poll_rounds-Polled_example =
    poll_rounds-Polled (link_of (λ k. batch_answer)) 2 ((1 ∷ []) ∷ (2 ∷ []) ∷ []) batches idle
      (record { index = omega arith; answers = tt; received = refl; polled = omega arith })
