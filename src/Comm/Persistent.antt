-- ===== src/Comm/Persistent.antt =====
-- `PersistentDongleConnection` of collector/comm/persistent.py: reconnecting, the stale-data guard and
-- `transact`. A call holds the lock throughout, so it is one sequence of steps. What the socket
-- answers is an argument, an `Attempt` for each round; whether it is open is the state's `connected`.
pub mod Stale
pub mod Transact
pub mod Retry
use lux_mon.Base.{
  ℕ, zero, suc, ◌+◌, List, [], ◌∷◌, ◌++◌, Bool, true, false, Option, none, some, ◌==◌, leb,
  if◌then◌else◌, ◌&&◌, Outcome, ok, raised, Exception, os_error, value_error, struct_error,
  index_error, out_of_fuel,
}
use lux_mon.Protocol.Bytes.{Bytes}
use lux_mon.Protocol.Frame.{LuxFrame}
use lux_mon.Protocol.Scan.{find_frames}

-- The fields that `transact` reads or changes.
pub record Connection : Type 0 where
  -- `_sock is not None`
  pub connected : Bool
  pub connect_count : ℕ
  pub tx_count : ℕ
  pub last_resp_sig : Option Bytes
  pub stale_count : ℕ

-- `_stale_threshold`
abbrev pub stale_threshold : ℕ
stale_threshold = 5

-- The zero-byte peek of `_ensure_connected`.
pub data Probe : Type 0 where
  peeked timed_out broken : Probe

-- What one `recv` does; an empty chunk is the end of the stream.
pub data Received : Type 0 where
  chunk : Bytes → Received
  recv_timeout recv_error : Received

-- What the socket does in one round: the peek, the connect and the send where they are called, and
-- the receives up to the deadline.
pub record Attempt : Type 0 where
  pub probe : Probe
  pub connects : Bool
  pub sends : Bool
  pub receives : List Received

abbrev pub bytes_eq : Bytes → Bytes → Bool
bytes_eq [] [] = true
bytes_eq [] (y ∷ ys) = false
bytes_eq (x ∷ xs) [] = false
bytes_eq (x ∷ xs) (y ∷ ys) = (x == y) && bytes_eq xs ys

abbrev pub is_last : Bytes → Option Bytes → Bool
is_last raw none = false
is_last raw (some sig) = bytes_eq raw sig

unfoldable pub note_response : Bytes → Connection → Connection
note_response raw conn =
    if is_last raw conn.last_resp_sig
    then (if leb stale_threshold (conn.stale_count + 1)
        then record conn { stale_count = 0; connected = false }
        else record conn { stale_count = conn.stale_count + 1 })
    else record conn { last_resp_sig = some raw; stale_count = 0 }

-- `_connect` with no socket open: `socket.connect` raises, or the connection is counted.
unfoldable pub connect : Bool → Connection → Connection × Outcome (Unit {0})
connect false conn = (record conn { connected = false }, raised os_error)
connect true conn =
    (record conn { connected = true; connect_count = conn.connect_count + 1 }, ok tt)

-- The peek fails on a dead socket only; otherwise the connection is kept.
abbrev pub peek : Probe → Bool → Connection → Connection × Outcome (Unit {0})
peek peeked connects conn = (conn, ok tt)
peek timed_out connects conn = (conn, ok tt)
peek broken connects conn = connect connects (record conn { connected = false })

unfoldable pub ensure_connected : Attempt → Connection → Connection × Outcome (Unit {0})
unfolding connect
ensure_connected a conn =
    if conn.connected then peek a.probe a.connects conn else connect a.connects conn

-- The first frame that matches.
unfoldable pub first_match : (LuxFrame → Bool) → List LuxFrame → Option LuxFrame
first_match match [] = none
first_match match (f ∷ fs) = if match f then some f else first_match match fs

-- How a round's receive loop is left: with a frame to return, without an answer, or by an exception.
pub data Round : Type 0 where
  answered : LuxFrame → Round
  unanswered : Round
  failed : Exception → Round

-- What is done with the frames of the buffer: the first that matches is returned, and without one
-- the loop goes on with `more`.
abbrev pub take_match : Connection → Option LuxFrame → Connection × Round → Connection × Round
take_match conn none more = more
take_match conn (some frame) more = (note_response frame.raw conn, answered frame)

abbrev pub scan_buffer :
    (LuxFrame → Bool)
    → Connection
    → Outcome (List LuxFrame)
    → Connection × Round
    → Connection × Round
scan_buffer match conn (raised e) more = (conn, failed e)
scan_buffer match conn (ok frames) more = take_match conn (first_match match frames) more

-- The receive loop, over what `recv` does until the deadline.
unfoldable pub receive : (LuxFrame → Bool) → Bytes → List Received → Connection → Connection × Round
receive match buffer [] conn = (conn, unanswered)
receive match buffer (recv_timeout ∷ rest) conn = (conn, unanswered)
receive match buffer (recv_error ∷ rest) conn = (conn, failed os_error)
receive match buffer (chunk [] ∷ rest) conn = (record conn { connected = false }, unanswered)
receive match buffer (chunk (b ∷ bs) ∷ rest) conn =
    scan_buffer match conn (find_frames (buffer ++ (b ∷ bs)))
      (receive match (buffer ++ (b ∷ bs)) rest conn)

-- The body of the `try`: the send, then the receive loop.
unfoldable pub exchange : (LuxFrame → Bool) → Attempt → Connection → Connection × Round
exchange match a conn =
    if a.sends
    then receive match [] a.receives (record conn { tx_count = conn.tx_count + 1 })
    else (conn, failed os_error)

abbrev pub Answer : Type 0
Answer = Connection × Outcome (Option LuxFrame)

-- How a round ends: by a return, by the next round, or by an exception that is not an `OSError`; an
-- `OSError` closes the socket.
abbrev pub after_round : (Connection → Answer) → Connection × Round → Answer
after_round next (conn, answered frame) = (conn, ok (some frame))
after_round next (conn, unanswered) = next conn
after_round next (conn, failed os_error) = next (record conn { connected = false })
after_round next (conn, failed value_error) = (conn, raised value_error)
after_round next (conn, failed struct_error) = (conn, raised struct_error)
after_round next (conn, failed index_error) = (conn, raised index_error)
after_round next (conn, failed out_of_fuel) = (conn, raised out_of_fuel)

-- A round: `_ensure_connected` stands outside the `try`.
abbrev pub after_connect :
    (Connection → Connection × Round)
    → (Connection → Answer)
    → Connection × Outcome (Unit {0})
    → Answer
after_connect talk next (conn, raised e) = (conn, raised e)
after_connect talk next (conn, ok _) = after_round next (talk conn)

-- The rounds that are left.
unfoldable pub rounds : (LuxFrame → Bool) → (ℕ → Attempt) → ℕ → ℕ → Connection → Answer
rounds match attempts k zero conn = (conn, ok none)
rounds match attempts k (suc left) conn =
    after_connect (exchange match (attempts k)) (rounds match attempts (k + 1) left)
      (ensure_connected (attempts k) conn)

-- `transact(request, match)`, with `max_retries`.
unfoldable pub transact : (LuxFrame → Bool) → ℕ → (ℕ → Attempt) → Connection → Answer
transact match max_retries attempts conn = rounds match attempts 0 (max_retries + 1) conn
