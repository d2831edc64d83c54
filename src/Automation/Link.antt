-- ===== src/Automation/Link.antt =====
-- What the register primitives of collector/automation.py use of the connection that
-- `get_shared_connection` returns: its `transact`, over a state of the connection's own.
use lux_mon.Base.{ℕ, ◌+◌, ◌≡◌, subst, Bool, true, Option, some, Outcome, ok}
use lux_mon.Protocol.Bytes.{Bytes}
use lux_mon.Protocol.Frame.{LuxFrame}
use lux_mon.Comm.Persistent.{Connection, Attempt, transact}
use lux_mon.Comm.Persistent.Transact.{AnswerOk, transact-CallOk}

pub record Link (S : Type 0) : Type 0 where
  pub transact : Bytes → (LuxFrame → Bool) → S → S × Outcome (Option LuxFrame)
  -- A frame that a call returns satisfies the match of the call.
  pub matched :
      (request : Bytes) (match : LuxFrame → Bool) (s : S) (f : LuxFrame)
      → (transact request match s).1 ≡ ok (some f)
      → match f ≡ true

-- The persistent connection is such a link. Its state counts the calls; `sockets` says what the
-- socket does in each round of each call. `max_retries` has its default.
unfoldable pub persistent_link : (ℕ → ℕ → Attempt) → Link (ℕ × Connection)
persistent_link sockets = record {
  transact = λ request match (call, conn).
      let (conn', answer) = transact match 3 (sockets call) conn in ((call + 1, conn'), answer);
  matched = λ request match (call, conn) f e.
      subst (AnswerOk match) e (transact-CallOk match 3 (sockets call) conn).3;
}
