-- ===== src/Comm/Active.antt =====
-- `TcpActiveTransport` of collector/comm/tcp_active.py: the polling of the register batches in turn over
-- a connection. The frames that are emitted are a list, the newest first; a round is one turn of the
-- loop of `_run`, and the waits between them are left out.
pub mod Answers
use lux_mon.Base.{
  ℕ, zero, suc, ◌+◌, ◌%◌, List, [], ◌∷◌, Bool, ◌&&◌, ◌||◌, Option, none, some, ◌==◌, if◌then◌else◌,
  length, get_elem?, Outcome, ok, raised, index_error, ◌>>=◌,
}
use lux_mon.Protocol.Bytes.{Bytes}
use lux_mon.Protocol.Frame.{LuxFrame, Str, modbus_read_input}
use lux_mon.Protocol.Build.{build_read_request}
use lux_mon.Automation.Link.{Link}
use lux_mon.Automation.Primitives.{and_then}

-- A start register and a count.
abbrev pub Batch : Type 0
Batch = ℕ × ℕ

-- `batches or [(0, 40), (40, 40), (80, 40)]`
unfoldable pub batches_or_default : List Batch → List Batch
batches_or_default [] = (0, 40) ∷ (40, 40) ∷ (80, 40) ∷ []
batches_or_default (b ∷ bs) = b ∷ bs

-- `_build_requests`
unfoldable pub build_requests : Str → Str → List Batch → Outcome (List Bytes)
build_requests datalog_serial inverter_serial [] = ok []
build_requests datalog_serial inverter_serial ((start, count) ∷ batches) =
    build_read_request datalog_serial inverter_serial modbus_read_input start count >>= λ request.
    build_requests datalog_serial inverter_serial batches >>= λ requests. ok (request ∷ requests)

abbrev pub is_read_input : LuxFrame → Bool
is_read_input f = f.device_function == modbus_read_input

-- The nested `match`.
abbrev pub batch_match : ℕ → LuxFrame → Bool
batch_match start f = f.is_error || (is_read_input f && f.register == start)

-- The transport with its connection; `batch_idx` is the local variable of `_run`.
pub record Poller (S : Type 0) : Type 0 where
  pub conn : S
  pub batch_idx : ℕ
  pub frames_received : ℕ
  pub poll_requests : ℕ
  pub emitted : List LuxFrame

module _ {S : Type 0} (link : Link S) where
  -- What is done with the answer.
  abbrev pub count_answer : Option LuxFrame → Poller S → Poller S
  count_answer none p = p
  count_answer (some f) p =
      if f.is_error then record p { poll_requests = p.poll_requests + 1 } else record p {
        poll_requests = p.poll_requests + 1;
        frames_received = p.frames_received + 1;
        emitted = f ∷ p.emitted;
      }

  abbrev pub after_transact :
      ℕ → Poller S → S × Outcome (Option LuxFrame) → Poller S × Outcome (Unit {0})
  after_transact count p (s, raised e) = (record p { conn = s }, raised e)
  after_transact count p (s, ok answer) =
      let q = count_answer answer (record p { conn = s }) in
      (record q { batch_idx = (q.batch_idx + 1) % count }, ok tt)

  abbrev pub round_with : ℕ → Option Bytes → Option Batch → Poller S → Poller S × Outcome (Unit {0})
  round_with total none batch p = (p, raised index_error)
  round_with total (some request) none p = (p, raised index_error)
  round_with total (some request) (some (start, count)) p =
      after_transact total p (link.transact request (batch_match start) p.conn)

  -- One turn of the loop.
  unfoldable pub poll_round : List Bytes → List Batch → Poller S → Poller S × Outcome (Unit {0})
  poll_round requests batches p =
      round_with (length batches) (get_elem? requests p.batch_idx) (get_elem? batches p.batch_idx) p

  -- So many turns; an exception ends the thread.
  unfoldable pub poll_rounds :
      ℕ → List Bytes → List Batch → Poller S → Poller S × Outcome (Unit {0})
  poll_rounds zero requests batches p = (p, ok tt)
  poll_rounds (suc n) requests batches p =
      and_then (poll_round requests batches p) (λ q u. poll_rounds n requests batches q)

  -- `_run`, over so many rounds
  unfoldable pub run : Str → Str → ℕ → List Batch → Poller S → Poller S × Outcome (Unit {0})
  run datalog_serial inverter_serial n batches p =
      and_then (p, build_requests datalog_serial inverter_serial batches)
        (λ q requests. poll_rounds n requests batches q)
