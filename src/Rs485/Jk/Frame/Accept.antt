-- ===== src/Rs485/Jk/Frame/Accept.antt =====
-- Which response frames of the JK BMS are accepted.
use lux_mon.Base.{
  ℕ, ◌+◌, ◌-◌, ◌/◌, ◌%◌, ◌^◌, ◌<◌, ◌≤◌, ◌≡◌, ◌⊎◌, refl, ap, subst, ◌∙◌, [], ◌∷◌, ◌++◌, append_assoc,
  false, ◌&&◌, ◌||◌, not, none, ltb, ◌==◌, if◌then◌else◌, length, length-append, take, drop,
  take-append_self, arith, ok, ge→ltb,
}
use lux_mon.Protocol.Bytes.{Bytes, byte_at, slice}
use lux_mon.Rs485.Fields.{be16, u16_be, u32_be}
use lux_mon.Rs485.Fields.Reads.{u16_be-at}
use lux_mon.Rs485.Jk.Status.{parse_status}
use lux_mon.Rs485.Jk.Frame.{sum_bytes, jk_checksum, check_frame, parse_frame}

abbrev pub be32 : ℕ → Bytes
be32 s = be16 (s / 65536) ++ be16 (s % 65536)

u32_be-at :
    (pre : Bytes) (s : ℕ) (rest : Bytes) → u32_be (pre ++ (be32 s ++ rest)) (length pre) ≡ ok s
unfolding u32_be
u32_be-at pre s rest =
    let high = u16_be-at pre (s / 65536) (be16 (s % 65536) ++ rest) in
    let low : u16_be (pre ++ (be32 s ++ rest)) (length pre + 2) ≡ ok (s % 65536) =
      subst (λ l. u16_be l (length pre + 2) ≡ ok (s % 65536))
        (append_assoc pre (be16 (s / 65536)) (be16 (s % 65536) ++ rest))
        (subst
          (λ n. u16_be ((pre ++ be16 (s / 65536)) ++ (be16 (s % 65536) ++ rest)) n ≡ ok (s % 65536))
          (length-append pre (be16 (s / 65536)))
          (u16_be-at (pre ++ be16 (s / 65536)) (s % 65536) rest)) in
    rw (high, low) (ap ok (omega arith))

-- The twelve bytes before the body: the magic, six bytes that are not looked at, the function, another
-- byte, and the length of the body.
abbrev pub header : ℕ → ℕ → ℕ → ℕ → ℕ → ℕ → ℕ → ℕ → ℕ → Bytes
header l0 l1 z0 z1 z2 z3 function address size =
    0x4e ∷ 0x57 ∷ l0 ∷ l1 ∷ z0 ∷ z1 ∷ z2 ∷ z3 ∷ function ∷ address ∷ be16 size

sum_bytes-append : (xs ys : Bytes) → sum_bytes (xs ++ ys) ≡ sum_bytes xs + sum_bytes ys
unfolding sum_bytes
sum_bytes-append [] ys = omega arith
sum_bytes-append (x ∷ xs) ys = omega (arith, sum_bytes-append xs ys)

sums_differ :
    (sb sc sd b c : ℕ)
    → sc + b ≡ sb + c
    → sd + 165 ≡ sc
    → sb < 4294967040
    → b < 256
    → c < 256
    → (sb % 4294967296 == sc % 4294967296 || sb % 4294967296 == sd % 4294967296)
      ≡ (c == b || c == b + 165)
sums_differ sb sc sd b c e d small hb hc =
    let sb' : sb % 4294967296 ≡ sb = omega (arith, small) in
    let sc' : sc % 4294967296 ≡ sc = omega (arith, small, e, hb, hc) in
    let sd' : sd % 4294967296 ≡ sd = omega (arith, small, e, d, hb, hc) in
    rw (sb', sc', sd') (ground arith)

module _ (l0 l1 z0 z1 z2 z3 function address : ℕ) where
  abbrev pub front : Bytes → Bytes
  front body = header l0 l1 z0 z1 z2 z3 function address (length body) ++ body

  check_frame-front :
      (body rest : Bytes) (s : ℕ)
      → check_frame (12 + length body) (front body ++ (be32 s ++ rest)) ≡ (
          if s == jk_checksum (front body) || s == jk_checksum (drop 2 (front body))
          then parse_status body
          else ok none)
  unfolding check_frame
  check_frame-front body rest s =
      let stream : Bytes = front body ++ (be32 s ++ rest) in
      let e : length (front body) ≡ 12 + length body = omega arith in
      let stored : u32_be stream (12 + length body) ≡ ok s =
        subst (λ n. u32_be stream n ≡ ok s) e (u32_be-at (front body) s rest) in
      let whole : take (12 + length body) stream ≡ front body =
        subst (λ n. take n stream ≡ front body) e
          (take-append_self (front body) (be32 s ++ rest)) in
      let e2 : length (drop 2 (front body)) ≡ 12 + length body - 2 = omega arith in
      let later : slice stream 2 (12 + length body) ≡ drop 2 (front body) =
        subst (λ n. take n (drop 2 stream) ≡ drop 2 (front body)) e2
          (take-append_self (drop 2 (front body)) (be32 s ++ rest)) in
      let e12 : length body ≡ 12 + length body - 12 = omega arith in
      let inner : slice stream 12 (12 + length body) ≡ body =
        subst (λ n. take n (body ++ (be32 s ++ rest)) ≡ body) e12
          (take-append_self body (be32 s ++ rest)) in
      rw (stored, whole, later, inner) refl

  -- A response with a known function and all of its body is accepted, and its body parsed, if and only
  -- if the four bytes behind the body are the sum of all the bytes before them, or of all but the
  -- magic.
  pub parse_frame-accept :
      (body rest : Bytes) (s : ℕ)
      → ((function ≡ 0x06) ⊎ (function ≡ 0x03))
      → 4 ≤ length body
      → parse_frame (front body ++ (be32 s ++ rest)) ≡ (
          if s == jk_checksum (front body) || s == jk_checksum (drop 2 (front body))
          then parse_status body
          else ok none)
  unfolding parse_frame byte_at
  parse_frame-accept body rest s known h =
      let stream : Bytes = front body ++ (be32 s ++ rest) in
      let size : length stream ≡ 16 + length body + length rest =
        omega (arith, length-append body (be32 s ++ rest)) in
      let long : ltb (length stream) 20 ≡ false = ge→ltb _ 20 (omega (arith, h, size)) in
      let there : ltb (length stream) (12 + length body + 4) ≡ false =
        ge→ltb _ _ (omega (arith, size)) in
      let len : u16_be stream 10 ≡ ok (length body) =
        u16_be-at (0x4e ∷ 0x57 ∷ l0 ∷ l1 ∷ z0 ∷ z1 ∷ z2 ∷ z3 ∷ function ∷ address ∷ [])
          (length body) (body ++ (be32 s ++ rest)) in
      let f : (not (function == 0x06) && not (function == 0x03)) ≡ false = ground arith in
      rw (long, len, f, there) (check_frame-front body rest s)

  -- If one byte of the body of a correct response is changed, the response is rejected, except where
  -- the byte grows by 165, the sum of the magic: then the changed body is parsed. The bytes of the
  -- response add up to less than 2^32 - 256.
  pub parse_frame-changed :
      (pre post rest : Bytes) (b c : ℕ)
      → ((function ≡ 0x06) ⊎ (function ≡ 0x03))
      → 4 ≤ length (pre ++ b ∷ post)
      → b < 256
      → c < 256
      → sum_bytes (front (pre ++ b ∷ post)) < 2 ^ 32 - 256
      → parse_frame
          (front (pre ++ c ∷ post) ++ (be32 (jk_checksum (front (pre ++ b ∷ post))) ++ rest))
        ≡ (if c == b || c == b + 165 then parse_status (pre ++ c ∷ post) else ok none)
  unfolding jk_checksum sum_bytes
  parse_frame-changed pre post rest b c known h hb hc small =
      let same : length (pre ++ c ∷ post) ≡ length (pre ++ b ∷ post) =
        omega (arith, length-append pre (c ∷ post), length-append pre (b ∷ post)) in
      let sums : sum_bytes (front (pre ++ c ∷ post)) + b ≡ sum_bytes (front (pre ++ b ∷ post)) + c =
        rw same (omega (arith, sum_bytes-append pre (c ∷ post), sum_bytes-append pre (b ∷ post))) in
      let tests =
        sums_differ _ _ (sum_bytes (drop 2 (front (pre ++ c ∷ post)))) b c sums (omega arith) small
          hb hc in
      parse_frame-accept (pre ++ c ∷ post) rest (jk_checksum (front (pre ++ b ∷ post))) known
        (omega (arith, h, same))
      ∙ ap (λ t. if t then parse_status (pre ++ c ∷ post) else ok none) tests
