-- ===== src/Protocol/Parse.antt =====
-- The frame parser of collector/protocol.py. Reads past the end raise, as in Python.
pub mod Serial
pub mod Echo
pub mod Response
pub mod Total
use lux_mon.Base.{
  ℕ, zero, suc, ◌+◌, ◌-◌, ◌*◌, ◌/◌, List, [], ◌∷◌, ◌++◌, Bool, true, false, ◌&&◌, ◌||◌, map, ltb,
  leb, ◌==◌, if◌then◌else◌, length, Outcome, ok, ◌>>=◌, Option, none, some,
}
use lux_mon.Protocol.Bytes.{Bytes, byte_at, unpack_from, slice}
use lux_mon.Protocol.Frame.{
  Str, LuxFrame, new_frame, header_size, tcp_func_translated_data, modbus_write_single,
  modbus_write_multi, is_read,
}

-- `b.decode('ascii', errors='replace')`: what is not ASCII becomes U+FFFD.
unfoldable pub decode_ascii : Bytes → Str
decode_ascii bs = map (λ b. if ltb b 128 then b else 0xfffd) bs

-- `s.rstrip('\x00')`
unfoldable pub rstrip_nul : Str → Str
rstrip_nul [] = []
rstrip_nul (c ∷ cs) = elim (rstrip_nul cs) [
  | [] ↦ (if c == 0 then [] else c ∷ [])
  | d ∷ ds ↦ c ∷ (d ∷ ds)
]

unfoldable pub decode_serial : Bytes → Str
unfolding decode_ascii rstrip_nul
decode_serial bs = rstrip_nul (decode_ascii bs)

-- One round of the value loop: the value at `offset`, unless it would reach into the CRC.
unfoldable pub value_at : Bytes → ℕ → Outcome (List ℕ)
value_at d offset =
    if leb (offset + 2) (length d - 2) then unpack_from d offset >>= (λ v. ok (v ∷ [])) else ok []

-- `for i in range(num_regs)`, with `offset = vals_begin + i * 2`; the first number is `i`.
unfoldable pub read_values : Bytes → ℕ → ℕ → ℕ → Outcome (List ℕ)
read_values d vals_begin i zero = ok []
read_values d vals_begin i (suc rounds) = do
  here ← value_at d (vals_begin + i * 2)
  rest ← read_values d vals_begin (i + 1) rounds
  ok (here ++ rest)

-- The values of a read response, and the echo of a single write.
unfoldable pub parse_read : Bytes → LuxFrame → Outcome LuxFrame
parse_read d frame =
    if frame.device_function == modbus_write_single
    then (if leb 38 (length d)
        then unpack_from d 34 >>= (λ v. ok (record frame { values = frame.values ++ (v ∷ []) }))
        else ok frame)
    else (if ltb 34 (length d)
        then byte_at d 34 >>= (λ val_len.
          read_values d 35 0 (val_len / 2)
          >>= (λ vs. ok (record frame { values = frame.values ++ vs })))
        else ok frame)

-- The echo of a multiple write: start register and count.
unfoldable pub parse_write_multi : Bytes → LuxFrame → Outcome LuxFrame
parse_write_multi d frame =
    if leb 38 (length d)
    then unpack_from d 32
      >>= (λ r. unpack_from d 34 >>= (λ n. ok (record frame { register = r; write_count = n })))
    else ok frame

unfoldable pub parse_register : Bytes → LuxFrame → Outcome LuxFrame
parse_register d frame =
    if leb 34 (length d)
    then unpack_from d 32 >>= (λ r. ok (record frame { register = r }))
    else ok frame

unfoldable pub parse_serial : Bytes → LuxFrame → LuxFrame
parse_serial d frame =
    if leb 32 (length d)
    then record frame { inverter_serial = decode_serial (slice d 22 32) }
    else frame

unfoldable pub parse_payload : Bytes → LuxFrame → Outcome LuxFrame
unfolding parse_serial parse_register parse_read parse_write_multi
parse_payload d frame = do
  f ← parse_register d (parse_serial d frame)
  if is_read f || f.device_function == modbus_write_single
      then parse_read d f
      else (if f.device_function == modbus_write_multi then parse_write_multi d f else ok f)

-- The error response: function code + 128, then the error code.
unfoldable pub parse_error : Bytes → LuxFrame → Outcome LuxFrame
parse_error d frame =
    if ltb 22 (length d)
    then byte_at d 22 >>= (λ c. ok (record frame { is_error = true; error_code = c }))
    else ok (record frame { is_error = true })

unfoldable pub parse_modbus : Bytes → LuxFrame → Outcome LuxFrame
unfolding parse_error parse_payload
parse_modbus d frame = do
  a ← byte_at d 20
  f ← byte_at d 21
  let frame' = record frame { address = a; device_function = f }
  if leb 128 f then parse_error d frame' else parse_payload d frame'

-- `_parse_data_frame`
unfoldable pub parse_data_frame : Bytes → LuxFrame → Outcome LuxFrame
unfolding parse_modbus
parse_data_frame d frame = do
  data_len ← unpack_from d 18
  if ltb (length d) 22 then ok frame else parse_modbus d frame

-- The header of a frame that is long enough and has the prefix.
unfoldable pub parse_header : Bytes → Outcome LuxFrame
parse_header d = do
  protocol ← unpack_from d 2
  frame_length ← unpack_from d 4
  unknown ← byte_at d 6
  tcp_func ← byte_at d 7
  ok (new_frame protocol tcp_func (decode_serial (slice d 8 18)) d)

-- `data[0:2] == PREFIX`
unfoldable pub has_prefix : Bytes → Bool
has_prefix (a ∷ (b ∷ rest)) = a == 0xa1 && b == 0x1a
has_prefix _ = false

unfoldable pub parse_frame : Bytes → Outcome (Option LuxFrame)
unfolding has_prefix parse_header parse_data_frame
parse_frame d =
    if ltb (length d) header_size
    then ok none
    else if has_prefix d
    then (do
      frame ← parse_header d
      if frame.tcp_function == tcp_func_translated_data && leb 20 (length d)
          then parse_data_frame d frame >>= (λ f. ok (some f))
          else ok (some frame))
    else ok none
