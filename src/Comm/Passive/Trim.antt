-- ===== src/Comm/Passive/Trim.antt =====
-- What the limit of the receive loop leaves of an overlong buffer.
use lux_mon.Base.{
  ℕ, suc, ◌<◌, ◌≤◌, ◌≡◌, ◌⊎◌, inl, inr, refl, sym, [], ◌∷◌, true, Option, none, some, lt→ltb,
  length, length-drop, drop, arith, Bool-cases,
}
use lux_mon.Protocol.Bytes.{Bytes}
use lux_mon.Protocol.Frame.{prefix}
use lux_mon.Comm.Passive.{starts_with, find, next_position, from_prefix, trim_buffer}

-- Where a search answers, the text it looked for stands.
find-starts_with : (sub d : Bytes) (n : ℕ) → find sub d ≡ some n → starts_with sub (drop n d) ≡ true
unfolding find
find-starts_with sub [] n e = elim (Bool-cases (starts_with sub [])) [
  | inl t ↦ let start : n ≡ 0 = ground (arith, t) in rw start t
  | inr t ↦ ground (arith, t)
]
find-starts_with sub (x ∷ d) n e = elim (Bool-cases (starts_with sub (x ∷ d))) [
  | inl t ↦ let start : n ≡ 0 = ground (arith, t) in rw start t
  | inr t ↦ later (find sub d) refl (find-starts_with sub d) (rw t at e)
]
  where
    later :
        (o : Option ℕ)
        → find sub d ≡ o
        → ((m : ℕ) → find sub d ≡ some m → starts_with sub (drop m d) ≡ true)
        → next_position o ≡ some n
        → starts_with sub (drop n (x ∷ d)) ≡ true
    later none p ih q = cc
    later (some m) p ih q = let there : n ≡ suc m = ground (arith, q) in rw there (ih m p)

drop-next : (n : ℕ) (d : Bytes) → 1 ≤ length d → drop n (drop 1 d) ≡ drop (suc n) d
drop-next n [] h = absurd (omega arith)
drop-next n (x ∷ d) h = refl

-- Of a buffer of more than 8192 bytes the loop keeps fewer bytes than it had, and these are none or
-- begin with the prefix of a frame.
pub trim_buffer-starts_with :
    (buffer : Bytes)
    → 8192 < length buffer
    → (length (trim_buffer buffer) < length buffer)
      × ((trim_buffer buffer ≡ []) ⊎ (starts_with prefix (trim_buffer buffer) ≡ true))
unfolding trim_buffer
trim_buffer-starts_with buffer h =
    rw (lt→ltb 8192 (length buffer) h) (kept (find prefix (drop 1 buffer)) refl)
  where
    kept :
        (o : Option ℕ)
        → find prefix (drop 1 buffer) ≡ o
        → (length (from_prefix buffer o) < length buffer)
          × ((from_prefix buffer o ≡ []) ⊎ (starts_with prefix (from_prefix buffer o) ≡ true))
    kept none p = (omega arith, inl refl)
    kept (some n) p =
        let found : starts_with prefix (drop n (drop 1 buffer)) ≡ true =
          find-starts_with prefix (drop 1 buffer) n p in
        let same : drop n (drop 1 buffer) ≡ drop (suc n) buffer =
          drop-next n buffer (omega arith) in
        (omega (arith, length-drop (suc n) buffer), inr (rw (sym same) found))
