-- ===== src/Rs485/Eg4/Frame/Reply.antt =====
-- A reply of the battery with its checksum is read.
use lux_mon.Base.{
  ℕ, ◌+◌, ◌-◌, ◌≡◌, refl, ap, ◌∙◌, [], ◌∷◌, ◌++◌, Option, none, some, Bool, true, false, ltb, not,
  ◌==◌, if◌then◌else◌, length, length-append, take, take-append_self, arith, Outcome, ok, ◌>>=◌,
  ge→ltb, ==_refl,
}
use lux_mon.Protocol.Bytes.{Bytes, u16, byte_at, unpack_from, slice}
use lux_mon.Protocol.Parse.Response.{unpack_from-append}
use lux_mon.Rs485.Eg4.Blocks.{EgReadings, parse_block}
use lux_mon.Rs485.Eg4.Frame.{Eg4Bms, crc16, check_reply, parse_reply, parse_response}

-- The reply of a slave to a read of registers, with its checksum.
abbrev pub pdu_of : ℕ → Bytes → Bytes
pdu_of slave payload = slave ∷ (3 ∷ (length payload ∷ payload))

abbrev pub reply_of : ℕ → Bytes → Bytes
reply_of slave payload = pdu_of slave payload ++ u16 (crc16 (pdu_of slave payload))

take_two_less : (xs : Bytes) (v : ℕ) → length (xs ++ u16 v) - 2 ≡ length xs
take_two_less xs v = omega (arith, length-append xs (u16 v))

slice-payload :
    (slave : ℕ) (payload rest : Bytes)
    → slice (pdu_of slave payload ++ rest) 3 (3 + length payload) ≡ payload
slice-payload slave payload rest =
    let n : 3 + length payload - 3 ≡ length payload = omega arith in
    ap (λ m. take m (payload ++ rest)) n ∙ take-append_self payload rest

check_reply-own :
    (slave : ℕ) (payload : Bytes)
    → check_reply (length payload) (reply_of slave payload)
      ≡ (parse_block (length payload) payload >>= (λ result. ok (some result)))
unfolding check_reply
check_reply-own slave payload =
    let pdu = pdu_of slave payload in
    let stored : unpack_from (pdu ++ u16 (crc16 pdu)) (length pdu) ≡ ok (crc16 pdu) =
      unpack_from-append pdu [] (length pdu) (crc16 pdu) refl in
    rw
      (
        take_two_less pdu (crc16 pdu),
        stored,
        take-append_self pdu (u16 (crc16 pdu)),
        ==_refl (crc16 pdu),
      )
      (ap (λ p. parse_block (length payload) p >>= (λ result. ok (some result)))
        (slice-payload slave payload (u16 (crc16 pdu))))

-- The reply of the battery to a read of registers, with its checksum, is read as the block of its
-- payload: the reply of another slave is not read.
pub parse_response-reply :
    (d : Eg4Bms) (slave : ℕ) (payload : Bytes)
    → parse_response d (reply_of slave payload) ≡ (
        if slave == d.slave
        then (parse_block (length payload) payload >>= (λ result. ok (some result)))
        else ok none)
unfolding parse_response parse_reply byte_at
parse_response-reply d slave payload =
    let stream = reply_of slave payload in
    let size : length stream ≡ 5 + length payload =
      length-append (pdu_of slave payload) (u16 (crc16 (pdu_of slave payload))) ∙ omega arith in
    let long : ltb (length stream) 5 ≡ false = ge→ltb _ _ (omega (arith, size)) in
    let whole : ltb (length stream) (3 + length payload + 2) ≡ false =
      ge→ltb _ _ (omega (arith, size)) in
    rw (long, whole, check_reply-own slave payload) (tested (slave == d.slave) _)
  where
    tested :
        (b : Bool) (r : Outcome (Option EgReadings))
        → (if not b then ok none else r) ≡ (if b then r else ok none)
    tested true r = refl
    tested false r = refl
