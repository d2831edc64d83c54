-- ===== src/Comm/Persistent/Retry.antt =====
-- When `transact` gets its answer: what the retries make up for, and what they do not.
use lux_mon.Base.{
  ℕ, zero, suc, ◌+◌, ◌≤◌, ◌<◌, ◌≡◌, refl, sym, List, ◌∷◌, Bool, true, false, Option, none, some,
  if◌then◌else◌, arith, Outcome, ok, raised, os_error, value_error, struct_error, index_error,
  out_of_fuel,
}
use lux_mon.Protocol.Bytes.{Bytes}
use lux_mon.Protocol.Frame.{LuxFrame}
use lux_mon.Protocol.Scan.{find_frames}
use lux_mon.Comm.Persistent.{
  Connection, Attempt, Probe, peeked, timed_out, broken, Received, chunk, Round, answered,
  unanswered, failed, connect, peek, ensure_connected, first_match, receive, exchange, Answer,
  after_round, after_connect, rounds, transact,
}
use lux_mon.Comm.Persistent.Transact.{RoundOk, exchange-ok}

-- The round is answered: the request is sent, and the first bytes received hold a frame that matches.
pub record Answers (match : LuxFrame → Bool) (a : Attempt) : Type 0 where
  pub first : ℕ
  pub others : Bytes
  pub later : List Received
  pub frames : List LuxFrame
  pub frame : LuxFrame
  pub sent : a.sends ≡ true
  pub received : a.receives ≡ chunk (first ∷ others) ∷ later
  pub found : find_frames (first ∷ others) ≡ ok frames
  pub matched : first_match match frames ≡ some frame

-- The call returns a frame.
abbrev pub has_frame : Outcome (Option LuxFrame) → Bool
has_frame (ok (some f)) = true
has_frame (ok none) = false
has_frame (raised e) = false

exchange-Answers :
    (match : LuxFrame → Bool) (a : Attempt) (conn : Connection) (h : Answers match a)
    → (exchange match a conn).1 ≡ answered h.frame
unfolding exchange receive
exchange-Answers match a conn h = rw (h.sent, h.received, h.found, h.matched)

connect-true : (b : Bool) (conn : Connection) → b ≡ true → (connect b conn).1 ≡ ok tt
unfolding connect
connect-true true conn h = refl
connect-true false conn h = cc

ensure_connected-connects :
    (a : Attempt) (conn : Connection) → a.connects ≡ true → (ensure_connected a conn).1 ≡ ok tt
unfolding ensure_connected
ensure_connected-connects a conn h = split conn.connected
  where
    peeked-ok : (p : Probe) → (peek p a.connects conn).1 ≡ ok tt
    peeked-ok peeked = refl
    peeked-ok timed_out = refl
    peeked-ok broken = connect-true a.connects (record conn { connected = false }) h

    split :
        (b : Bool) → (if b then peek a.probe a.connects conn else connect a.connects conn).1 ≡ ok tt
    split true = peeked-ok a.probe
    split false = connect-true a.connects conn h

-- A round that is not answered leads to the next one.
after_round-has_frame :
    (match : LuxFrame → Bool) (next : Connection → Answer) (step : Connection × Round)
    → RoundOk match step.1
    → ((f : LuxFrame) → step.1 ≡ answered f → has_frame (after_round next step).1 ≡ true)
      × (((c : Connection) → has_frame (next c).1 ≡ true)
          → has_frame (after_round next step).1 ≡ true)
after_round-has_frame match next (c, answered f) r = (λ g e. refl, λ h. refl)
after_round-has_frame match next (c, unanswered) r = (λ g e. cc, λ h. h c)
after_round-has_frame match next (c, failed os_error) r =
    (λ g e. cc, λ h. h (record c { connected = false }))
after_round-has_frame match next (c, failed value_error) r = cc
after_round-has_frame match next (c, failed struct_error) r = cc
after_round-has_frame match next (c, failed index_error) r = cc
after_round-has_frame match next (c, failed out_of_fuel) r = cc

rounds-has_frame :
    (match : LuxFrame → Bool) (attempts : ℕ → Attempt) (k left j : ℕ) (conn : Connection)
    → ((i : ℕ) → (attempts i).connects ≡ true)
    → j < left
    → Answers match (attempts (k + j))
    → has_frame (rounds match attempts k left conn).1 ≡ true
unfolding rounds
rounds-has_frame match attempts k zero j conn h l a = absurd (omega arith)
rounds-has_frame match attempts k (suc left) j conn h l a =
    go (ensure_connected (attempts k) conn) (ensure_connected-connects (attempts k) conn (h k))
      (λ i c. rounds-has_frame match attempts (k + 1) left i c h) j l a
  where
    go :
        (tried : Connection × Outcome (Unit {0}))
        → tried.1 ≡ ok tt
        → ((i : ℕ) (c : Connection)
            → i < left
            → Answers match (attempts (k + 1 + i))
            → has_frame (rounds match attempts (k + 1) left c).1 ≡ true)
        → (j : ℕ) → j < suc left
        → Answers match (attempts (k + j))
        → has_frame
            (after_connect
              (exchange match (attempts k))
              (rounds match attempts (k + 1) left)
              tried).1
          ≡ true
    go (c, raised e) o ih j l a = cc
    go (c, ok _) o ih zero l a =
        let here : k + 0 ≡ k = omega arith in
        let r = (exchange-ok match (attempts k) c).3 in
        let answer : Answers match (attempts k) = rw (sym here) a in
        (after_round-has_frame match (rounds match attempts (k + 1) left)
            (exchange match (attempts k) c) r).0
          answer.frame (exchange-Answers match (attempts k) c answer)
    go (c, ok _) o ih (suc i) l a =
        let there : k + suc i ≡ k + 1 + i = omega arith in
        let r = (exchange-ok match (attempts k) c).3 in
        let answer : Answers match (attempts (k + 1 + i)) = rw (sym there) a in
        (after_round-has_frame match (rounds match attempts (k + 1) left)
            (exchange match (attempts k) c) r).1
          (λ c'. ih i c' (omega arith) answer)

-- If the dongle accepts every connection, a call returns a frame as soon as in one of its
-- `max_retries` + 1 rounds the request is sent and the first bytes received hold a frame that
-- matches, whatever the rounds before it do.
pub transact-has_frame :
    (match : LuxFrame → Bool) (max_retries : ℕ) (attempts : ℕ → Attempt) (j : ℕ) (conn : Connection)
    → ((i : ℕ) → (attempts i).connects ≡ true)
    → j ≤ max_retries
    → Answers match (attempts j)
    → has_frame (transact match max_retries attempts conn).1 ≡ true
unfolding transact
transact-has_frame match max_retries attempts j conn h l a =
    let start : 0 + j ≡ j = omega arith in
    rounds-has_frame match attempts 0 (max_retries + 1) j conn h (omega arith) (rw start a)

rounds-refused :
    (match : LuxFrame → Bool) (attempts : ℕ → Attempt) (k n : ℕ) (conn : Connection)
    → conn.connected ≡ false
    → (attempts k).connects ≡ false
    → (rounds match attempts k (suc n) conn).1 ≡ raised os_error
unfolding rounds ensure_connected connect
rounds-refused match attempts k n conn h e = rw (h, e)

-- A refused connection is not retried: on a closed connection whose first connect fails, a call
-- raises `OSError`, however many retries are left and whatever the later rounds would do.
pub transact-refused :
    (match : LuxFrame → Bool) (max_retries : ℕ) (attempts : ℕ → Attempt) (conn : Connection)
    → conn.connected ≡ false
    → (attempts 0).connects ≡ false
    → (transact match max_retries attempts conn).1 ≡ raised os_error
unfolding transact
transact-refused match max_retries attempts conn h e =
    let more : max_retries + 1 ≡ suc max_retries = omega arith in
    rw more (rounds-refused match attempts 0 max_retries conn h e)
