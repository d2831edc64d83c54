-- ===== src/Comm/Persistent/Stale.antt =====
-- The stale-data guard: when repeated responses close the connection.
use lux_mon.Base.{
  ℕ, zero, suc, ◌+◌, ◌≤◌, ◌<◌, ◌≡◌, refl, ap, ◌∙◌, List, [], ◌∷◌, true, false, some, arith, le→leb,
  gt→leb, lt→ltb, ge→ltb, ltb→lt, ltb→ge, ltb, Bool-cases, inl, inr, replicate, ==_refl, ◌&&◌,
}
use lux_mon.Protocol.Bytes.{Bytes}
use lux_mon.Comm.Persistent.{Connection, is_last, bytes_eq, note_response, stale_threshold}

bytes_eq_refl : (d : Bytes) → bytes_eq d d ≡ true
bytes_eq_refl [] = refl
bytes_eq_refl (x ∷ d) = ground (arith, bytes_eq_refl d, ==_refl x)

-- The count stays below the threshold.
pub note_response-bound :
    (raw : Bytes) (conn : Connection)
    → conn.stale_count < stale_threshold
    → (note_response raw conn).stale_count < stale_threshold
unfolding note_response
note_response-bound raw conn h = ground arith

-- `_note_response` on each response in turn.
abbrev pub note_all : List Bytes → Connection → Connection
note_all [] conn = conn
note_all (raw ∷ rest) conn = note_all rest (note_response raw conn)

note_response-first :
    (raw : Bytes) (conn : Connection)
    → is_last raw conn.last_resp_sig ≡ false
    → note_response raw conn ≡ record conn { last_resp_sig = some raw; stale_count = 0 }
unfolding note_response
note_response-first raw conn d = rw d

note_response-same :
    (raw : Bytes) (conn : Connection)
    → conn.last_resp_sig ≡ some raw
    → conn.stale_count + 1 < stale_threshold
    → note_response raw conn ≡ record conn { stale_count = conn.stale_count + 1 }
unfolding note_response
note_response-same raw conn h k = rw (h, bytes_eq_refl raw, gt→leb 5 (conn.stale_count + 1) k)

note_response-stale :
    (raw : Bytes) (conn : Connection)
    → conn.last_resp_sig ≡ some raw
    → stale_threshold ≤ conn.stale_count + 1
    → note_response raw conn ≡ record conn { stale_count = 0; connected = false }
unfolding note_response
note_response-stale raw conn h k = rw (h, bytes_eq_refl raw, le→leb 5 (conn.stale_count + 1) k)

-- From a count below the threshold, repeats close the connection when the count reaches it.
repeats :
    (n : ℕ) (raw : Bytes) (conn : Connection)
    → conn.last_resp_sig ≡ some raw
    → conn.stale_count < stale_threshold
    → conn.stale_count + n ≤ stale_threshold
    → (note_all (replicate n raw) conn).connected
      ≡ (conn.connected && ltb (conn.stale_count + n) stale_threshold)
repeats zero raw conn h b k = rw (lt→ltb (conn.stale_count + 0) 5 (omega arith)) (ground arith)
repeats (suc n) raw conn h b k = elim (Bool-cases (ltb (conn.stale_count + 1) stale_threshold)) [
  | inl t ↦
      let l : conn.stale_count + 1 < 5 = ltb→lt (conn.stale_count + 1) 5 t in
      let next : Connection = record conn { stale_count = conn.stale_count + 1 } in
      let sum : conn.stale_count + 1 + n ≡ conn.stale_count + suc n = omega arith in
      ap (λ c. (note_all (replicate n raw) c).connected) (note_response-same raw conn h l)
      ∙ repeats n raw next h l (omega arith)
      ∙ ap (λ m. conn.connected && ltb m stale_threshold) sum
  | inr t ↦
      let g : 5 ≤ conn.stale_count + 1 = ltb→ge (conn.stale_count + 1) 5 t in
      let last : n ≡ 0 = omega arith in
      rw (last, ge→ltb (conn.stale_count + 1) 5 g)
        (ap (λ c. c.connected) (note_response-stale raw conn h g) ∙ ground arith)
]

-- A response that differs from the last one, followed by n ≤ 5 repeats of it, leaves the
-- connection open, if it was, exactly when n is below 5.
pub note_all-replicate :
    (n : ℕ) (raw : Bytes) (conn : Connection)
    → is_last raw conn.last_resp_sig ≡ false
    → n ≤ stale_threshold
    → (note_all (raw ∷ replicate n raw) conn).connected ≡ (conn.connected && ltb n stale_threshold)
note_all-replicate n raw conn d h =
    let start : 0 + n ≡ n = omega arith in
    ap (λ c. (note_all (replicate n raw) c).connected) (note_response-first raw conn d)
    ∙ repeats n raw (record conn { last_resp_sig = some raw; stale_count = 0 }) refl (omega arith)
        (omega arith)
    ∙ ap (λ m. conn.connected && ltb m stale_threshold) start
