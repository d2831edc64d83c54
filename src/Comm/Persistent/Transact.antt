-- ===== src/Comm/Persistent/Transact.antt =====
-- What `transact` guarantees whatever the socket does.
use lux_mon.Base.{
  ℕ, zero, suc, ◌+◌, ◌≤◌, ◌<◌, ◌≡◌, refl, ◌⊎◌, List, [], ◌∷◌, ◌++◌, Bool, true, false, Option, none,
  some, if◌then◌else◌, arith, Outcome, ok, raised, os_error, value_error, struct_error, index_error,
  out_of_fuel, Returns, Bool-cases, inl, inr,
}
use lux_mon.Protocol.Bytes.{Bytes}
use lux_mon.Protocol.Frame.{LuxFrame}
use lux_mon.Protocol.Scan.{find_frames}
use lux_mon.Protocol.Scan.Stream.{find_frames-Returns}
use lux_mon.Comm.Persistent.{
  Connection, Attempt, Probe, peeked, timed_out, broken, Received, chunk, recv_timeout, recv_error,
  Round, answered, unanswered, failed, note_response, connect, peek, ensure_connected, first_match,
  take_match, scan_buffer, receive, exchange, Answer, after_round, after_connect, rounds, transact,
  stale_threshold,
}
use lux_mon.Comm.Persistent.Stale.{note_response-bound}

note_response-tx :
    (raw : Bytes) (conn : Connection) → (note_response raw conn).tx_count ≡ conn.tx_count
unfolding note_response
note_response-tx raw conn = ground arith

first_match-matches :
    (match : LuxFrame → Bool) (fs : List LuxFrame) (f : LuxFrame)
    → first_match match fs ≡ some f
    → match f ≡ true
unfolding first_match
first_match-matches match [] f e = cc
first_match-matches match (g ∷ fs) f e = elim (Bool-cases (match g)) [
  | inl t ↦ ground (arith, t)
  | inr t ↦ first_match-matches match fs f (ground (arith, t))
]

-- How a round may be left: the frame matches, and an exception is an `OSError`.
abbrev pub RoundOk : (LuxFrame → Bool) → Round → Type 0
RoundOk match (answered f) = match f ≡ true
RoundOk match unanswered = Unit {0}
RoundOk match (failed e) = e ≡ os_error

-- What a step may do to the connection's counters.
abbrev pub Kept : Connection → Connection → Type 0
Kept conn conn' =
    (conn.stale_count < stale_threshold → conn'.stale_count < stale_threshold)
    × (conn'.tx_count ≡ conn.tx_count)

receive-ok :
    (match : LuxFrame → Bool) (buffer : Bytes) (rs : List Received) (conn : Connection)
    → Kept conn (receive match buffer rs conn).0 × RoundOk match (receive match buffer rs conn).1
unfolding receive
receive-ok match buffer [] conn = ((λ h. h, refl), tt)
receive-ok match buffer (recv_timeout ∷ rest) conn = ((λ h. h, refl), tt)
receive-ok match buffer (recv_error ∷ rest) conn = ((λ h. h, refl), refl)
receive-ok match buffer (chunk [] ∷ rest) conn = ((λ h. h, refl), tt)
receive-ok match buffer (chunk (b ∷ bs) ∷ rest) conn =
    scanned (find_frames (buffer ++ (b ∷ bs))) (find_frames-Returns (buffer ++ (b ∷ bs)))
      (receive match (buffer ++ (b ∷ bs)) rest conn)
      (receive-ok match (buffer ++ (b ∷ bs)) rest conn)
  where
    taken :
        (o : Option LuxFrame) (more : Connection × Round)
        → ((f : LuxFrame) → o ≡ some f → match f ≡ true)
        → Kept conn more.0 × RoundOk match more.1
        → Kept conn (take_match conn o more).0 × RoundOk match (take_match conn o more).1
    taken none more h k = k
    taken (some f) more h k =
        ((note_response-bound f.raw conn, note_response-tx f.raw conn), h f refl)

    scanned :
        (m : Outcome (List LuxFrame))
        → Returns m
        → (more : Connection × Round) → Kept conn more.0 × RoundOk match more.1
        → Kept conn (scan_buffer match conn m more).0
          × RoundOk match (scan_buffer match conn m more).1
    scanned (raised e) r more k = cc
    scanned (ok frames) r more k =
        taken (first_match match frames) more (first_match-matches match frames) k

-- What `transact` may return or raise.
abbrev pub AnswerOk : (LuxFrame → Bool) → Outcome (Option LuxFrame) → Type 0
AnswerOk match (ok (some f)) = match f ≡ true
AnswerOk match (ok none) = Unit {0}
AnswerOk match (raised e) = e ≡ os_error

-- What holds of a whole call: the guard's count stays below the threshold, at most `left` requests
-- are sent, a frame that is returned matches, and an exception is an `OSError`.
abbrev pub CallOk : (LuxFrame → Bool) → ℕ → Connection → Answer → Type 0
CallOk match left conn answer =
    (conn.stale_count < stale_threshold → answer.0.stale_count < stale_threshold)
    × (conn.tx_count ≤ answer.0.tx_count)
    × (answer.0.tx_count ≤ conn.tx_count + left)
    × AnswerOk match answer.1

connect-ok :
    (b : Bool) (conn : Connection)
    → Kept conn (connect b conn).0
      × ((connect b conn).1 ≡ ok tt ⊎ (connect b conn).1 ≡ raised os_error)
unfolding connect
connect-ok true conn = ((λ h. h, refl), inl refl)
connect-ok false conn = ((λ h. h, refl), inr refl)

ensure_connected-ok :
    (a : Attempt) (conn : Connection)
    → Kept conn (ensure_connected a conn).0
      × ((ensure_connected a conn).1 ≡ ok tt ⊎ (ensure_connected a conn).1 ≡ raised os_error)
unfolding ensure_connected
ensure_connected-ok a conn = split conn.connected
  where
    peeked-ok :
        (p : Probe)
        → Kept conn (peek p a.connects conn).0
          × ((peek p a.connects conn).1 ≡ ok tt ⊎ (peek p a.connects conn).1 ≡ raised os_error)
    peeked-ok peeked = ((λ h. h, refl), inl refl)
    peeked-ok timed_out = ((λ h. h, refl), inl refl)
    peeked-ok broken = connect-ok a.connects (record conn { connected = false })

    tried : Bool → Connection × Outcome (Unit {0})
    tried b = if b then peek a.probe a.connects conn else connect a.connects conn

    split :
        (b : Bool) → Kept conn (tried b).0 × ((tried b).1 ≡ ok tt ⊎ (tried b).1 ≡ raised os_error)
    split true = peeked-ok a.probe
    split false = connect-ok a.connects conn

-- A round sends one request at most.
pub exchange-ok :
    (match : LuxFrame → Bool) (a : Attempt) (conn : Connection)
    → (conn.stale_count < stale_threshold → (exchange match a conn).0.stale_count < stale_threshold)
      × (conn.tx_count ≤ (exchange match a conn).0.tx_count)
      × ((exchange match a conn).0.tx_count ≤ conn.tx_count + 1)
      × RoundOk match (exchange match a conn).1
unfolding exchange
exchange-ok match a conn = elim (Bool-cases a.sends) [
  | inl t ↦
      let sent : Connection = record conn { tx_count = conn.tx_count + 1 } in
      let ((s, x), r) = receive-ok match [] a.receives sent in
      rw t (s, omega (arith, x), omega (arith, x), r)
  | inr t ↦ rw t (λ h. h, omega arith, omega arith, refl)
]

-- Calls compose: a step that keeps the counters within one request, then the rest of the call.
after_round-ok :
    (match : LuxFrame → Bool) (left : ℕ) (conn : Connection) (step : Connection × Round)
    (next : Connection → Answer)
    → ((c : Connection) → CallOk match left c (next c))
    → (conn.stale_count < stale_threshold → step.0.stale_count < stale_threshold)
    → conn.tx_count ≤ step.0.tx_count
    → step.0.tx_count ≤ conn.tx_count + 1
    → RoundOk match step.1
    → CallOk match (suc left) conn (after_round next step)
after_round-ok match left conn (c, answered f) next ih s x y r = (s, x, omega arith, r)
after_round-ok match left conn (c, unanswered) next ih s x y r =
    let (s', x', y', r') = ih c in (λ h. s' (s h), omega arith, omega arith, r')
after_round-ok match left conn (c, failed os_error) next ih s x y r =
    let (s', x', y', r') = ih (record c { connected = false }) in
    (λ h. s' (s h), omega arith, omega arith, r')
after_round-ok match left conn (c, failed value_error) next ih s x y r = cc
after_round-ok match left conn (c, failed struct_error) next ih s x y r = cc
after_round-ok match left conn (c, failed index_error) next ih s x y r = cc
after_round-ok match left conn (c, failed out_of_fuel) next ih s x y r = cc

rounds-ok :
    (match : LuxFrame → Bool) (attempts : ℕ → Attempt) (k left : ℕ) (conn : Connection)
    → CallOk match left conn (rounds match attempts k left conn)
unfolding rounds
rounds-ok match attempts k zero conn = (λ h. h, omega arith, omega arith, tt)
rounds-ok match attempts k (suc left) conn =
    connected (ensure_connected (attempts k) conn) (ensure_connected-ok (attempts k) conn)
      (rounds-ok match attempts (k + 1) left)
  where
    connected :
        (tried : Connection × Outcome (Unit {0}))
        → Kept conn tried.0 × (tried.1 ≡ ok tt ⊎ tried.1 ≡ raised os_error)
        → ((c : Connection) → CallOk match left c (rounds match attempts (k + 1) left c))
        → CallOk match
            (suc left)
            conn
            (after_connect (exchange match (attempts k)) (rounds match attempts (k + 1) left) tried)
    connected (c, raised e) ((s, x), o) ih =
        (s, omega (arith, x), omega (arith, x), elim o [ inl p ↦ cc | inr p ↦ cc ])
    connected (c, ok _) ((s, x), o) ih =
        let (s', x', y', r') = exchange-ok match (attempts k) c in
        after_round-ok match left conn (exchange match (attempts k) c)
          (rounds match attempts (k + 1) left) ih (λ h. s' (s h)) (omega (arith, x))
          (omega (arith, x)) r'

pub transact-CallOk :
    (match : LuxFrame → Bool) (max_retries : ℕ) (attempts : ℕ → Attempt) (conn : Connection)
    → CallOk match (max_retries + 1) conn (transact match max_retries attempts conn)
unfolding transact
transact-CallOk match max_retries attempts conn = rounds-ok match attempts 0 (max_retries + 1) conn

-- Whatever the socket does, a call sends at most `max_retries` + 1 requests; a frame that it returns
-- satisfies the caller's match, and it raises nothing but an `OSError`.
pub transact-AnswerOk :
    (match : LuxFrame → Bool) (max_retries : ℕ) (attempts : ℕ → Attempt) (conn : Connection)
    → let answer = transact match max_retries attempts conn in
      (conn.tx_count ≤ answer.0.tx_count)
      × (answer.0.tx_count ≤ conn.tx_count + (max_retries + 1))
      × AnswerOk match answer.1
transact-AnswerOk match max_retries attempts conn =
    let (s, x, y, r) = transact-CallOk match max_retries attempts conn in (x, y, r)

-- Whatever the socket does, a call that starts with the count of repeated responses below the
-- threshold ends with it below the threshold.
pub transact-stale_count :
    (match : LuxFrame → Bool) (max_retries : ℕ) (attempts : ℕ → Attempt) (conn : Connection)
    → conn.stale_count < stale_threshold
    → (transact match max_retries attempts conn).0.stale_count < stale_threshold
transact-stale_count match max_retries attempts conn =
    (transact-CallOk match max_retries attempts conn).0
