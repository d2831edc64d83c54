-- ===== src/Tests/Comm.antt =====
-- The persistent connection and the passive transport on concrete traffic.
use lux_mon.Base.{
  ℕ, zero, suc, ◌+◌, ◌≤◌, ◌≡◌, refl, [], ◌∷◌, ◌++◌, true, false, none, some, ok, replicate, arith,
}
use lux_mon.Protocol.Frame.{is_heartbeat}
use lux_mon.Protocol.Scan.{find_frames}
use lux_mon.Protocol.Scan.Stream.{find_frames-Stream}
use lux_mon.Comm.Persistent.{
  Connection, Attempt, timed_out, broken, chunk, recv_timeout, first_match, transact,
}
use lux_mon.Comm.Persistent.Transact.{AnswerOk, transact-AnswerOk}
use lux_mon.Comm.Persistent.Retry.{Answers, has_frame, transact-has_frame}
use lux_mon.Comm.Passive.{starts_with, find}
use lux_mon.Protocol.Bytes.{Bytes}
use lux_mon.Tests.Protocol.{heartbeat_bytes, heartbeat_frame, heartbeat-Stream}

abbrev pub closed_connection : Connection
closed_connection = record {
  connected = false;
  connect_count = 0;
  tx_count = 0;
  last_resp_sig = none;
  stale_count = 0;
}

-- The dongle is silent.
abbrev pub silent : Attempt
silent = record { probe = broken; connects = true; sends = true; receives = recv_timeout ∷ [] }

-- It answers with a heartbeat.
abbrev pub answering : Attempt
answering = record {
  probe = timed_out;
  connects = true;
  sends = true;
  receives = chunk heartbeat_bytes ∷ [];
}

abbrev pub refusing : Attempt
refusing = record { probe = broken; connects = false; sends = true; receives = [] }

-- Silent at first, then answering.
abbrev pub second_try : ℕ → Attempt
second_try zero = silent
second_try (suc k) = answering

abbrev pub late_answer : ℕ → Attempt
late_answer zero = refusing
late_answer (suc k) = answering

heartbeat_found : find_frames (heartbeat_bytes ++ []) ≡ ok (heartbeat_frame ∷ [])
heartbeat_found = find_frames-Stream heartbeat-Stream

heartbeat_match : first_match is_heartbeat (heartbeat_frame ∷ []) ≡ some heartbeat_frame
unfolding first_match
heartbeat_match = refl

answering-Answers : Answers is_heartbeat answering
answering-Answers = record {
  first = 0xa1;
  others =
      0x1a
      ∷ 2
      ∷ 0
      ∷ 13
      ∷ 0
      ∷ 1
      ∷ 0xc1
      ∷ (b'B' ∷ b'A' ∷ b'1' ∷ b'2' ∷ b'3' ∷ b'4' ∷ b'5' ∷ b'6' ∷ b'7' ∷ b'8' ∷ 0 ∷ []);
  later = [];
  frames = heartbeat_frame ∷ [];
  frame = heartbeat_frame;
  sent = refl;
  received = refl;
  found = heartbeat_found;
  matched = heartbeat_match;
}

transact-has_frame_example :
    has_frame (transact is_heartbeat 3 second_try closed_connection).1 ≡ true
transact-has_frame_example =
    transact-has_frame is_heartbeat 3 second_try 1 closed_connection connects (omega arith)
      answering-Answers
  where
    connects : (i : ℕ) → (second_try i).connects ≡ true
    connects zero = refl
    connects (suc i) = refl

transact-AnswerOk_example :
    let answer = transact is_heartbeat 3 second_try closed_connection in
    (0 ≤ answer.0.tx_count) × (answer.0.tx_count ≤ 0 + (3 + 1)) × AnswerOk is_heartbeat answer.1
transact-AnswerOk_example = transact-AnswerOk is_heartbeat 3 second_try closed_connection

-- Five repeats close an open connection.
first_at_one : find heartbeat_bytes ((0 ∷ []) ++ (heartbeat_bytes ++ [])) ≡ some 1
unfolding find starts_with
first_at_one = refl

-- A prefix behind one byte of noise, in an overlong buffer.
abbrev overlong : Bytes
overlong = 1 ∷ 0xa1 ∷ 0x1a ∷ replicate 8192 0
