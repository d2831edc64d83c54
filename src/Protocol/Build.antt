-- ===== src/Protocol/Build.antt =====
-- The request builders of collector/protocol.py, statement by statement.
pub mod Layout
use lux_mon.Base.{
  ℕ, zero, suc, ◌+◌, ◌-◌, ◌*◌, List, [], ◌∷◌, ◌++◌, Bool, true, false, ◌&&◌, map, ltb, leb,
  if◌then◌else◌, length, take, replicate, Outcome, ok, raised, value_error, require, ◌>>=◌, ◌>>◌, ℤ,
  pos, negsuc,
}
use lux_mon.Protocol.Bytes.{Bytes, zeros, put_at, pack_into, put_byte, slice}
use lux_mon.Protocol.Crc.{crc16_modbus}
use lux_mon.Protocol.Frame.{
  Str, prefix, tcp_func_heartbeat, tcp_func_translated_data, modbus_write_single,
  modbus_write_multi,
}

-- `s.encode('ascii', errors='replace')`: what is not ASCII becomes a question mark.
unfoldable pub encode_ascii : Str → Bytes
encode_ascii s = map (λ c. if ltb c 128 then c else b'?') s

-- `_serial_to_bytes`
unfoldable pub serial_to_bytes : Str → Bytes
serial_to_bytes s =
    let b = encode_ascii s in
    take 10 (if ltb (length b) 10 then b ++ replicate (10 - length b) b' ' else b)

unfoldable pub build_read_request : Str → Str → ℕ → ℕ → ℕ → Outcome Bytes
unfolding pack_into put_byte
build_read_request datalog_serial inverter_serial device_function start_register count = do
  p1 ← pack_into (put_at 0 prefix (zeros 38)) 2 1
  p2 ← pack_into p1 4 32
  p3 ← put_byte p2 6 0x01
  p4 ← put_byte p3 7 tcp_func_translated_data
  let p5 = put_at 8 (serial_to_bytes datalog_serial) p4
  p6 ← pack_into p5 18 18
  p7 ← put_byte p6 20 0x00
  p8 ← put_byte p7 21 device_function
  let p9 = put_at 22 (serial_to_bytes inverter_serial) p8
  p10 ← pack_into p9 32 start_register
  p11 ← pack_into p10 34 count
  pack_into p11 36 (crc16_modbus (slice p11 20 36))

-- `0 <= value <= 0xFFFF`, and the value itself.
unfoldable pub register_value : ℤ → Outcome ℕ
register_value (pos v) = if leb v 65535 then ok v else raised value_error
register_value (negsuc v) = raised value_error

unfoldable pub build_write_request : Str → Str → ℕ → ℤ → Outcome Bytes
unfolding pack_into put_byte
build_write_request datalog_serial inverter_serial register value = do
  v ← register_value value
  p1 ← pack_into (put_at 0 prefix (zeros 38)) 2 1
  p2 ← pack_into p1 4 32
  p3 ← put_byte p2 6 0x01
  p4 ← put_byte p3 7 tcp_func_translated_data
  let p5 = put_at 8 (serial_to_bytes datalog_serial) p4
  p6 ← pack_into p5 18 18
  p7 ← put_byte p6 20 0x00
  p8 ← put_byte p7 21 modbus_write_single
  let p9 = put_at 22 (serial_to_bytes inverter_serial) p8
  p10 ← pack_into p9 32 register
  p11 ← pack_into p10 34 v
  pack_into p11 36 (crc16_modbus (slice p11 20 36))

-- `for v in values: if not (0 <= v <= 0xFFFF): raise ValueError`
unfoldable pub check_values : List ℤ → Outcome (List ℕ)
check_values [] = ok []
check_values (x ∷ xs) = do v ← register_value x; vs ← check_values xs; ok (v ∷ vs)

-- `for i, v in enumerate(values): struct.pack_into('<H', pkt, 37 + i * 2, v)`
unfoldable pub pack_values : Bytes → ℕ → List ℕ → Outcome Bytes
unfolding pack_into
pack_values pkt o [] = ok pkt
pack_values pkt o (v ∷ vs) = do p ← pack_into pkt o v; pack_values p (o + 2) vs

unfoldable pub build_write_multi_request : Str → Str → ℕ → List ℤ → Outcome Bytes
build_write_multi_request datalog_serial inverter_serial start_register values = do
  require (leb 1 (length values)) value_error
  require (leb (length values) 123) value_error
  vs ← check_values values
  let n = length values
  let data_len = 1 + 1 + 10 + 2 + 2 + 1 + 2 * n + 2
  let total = 18 + 2 + data_len
  p1 ← pack_into (put_at 0 prefix (zeros total)) 2 1
  p2 ← pack_into p1 4 (total - 6)
  p3 ← put_byte p2 6 0x01
  p4 ← put_byte p3 7 tcp_func_translated_data
  let p5 = put_at 8 (serial_to_bytes datalog_serial) p4
  p6 ← pack_into p5 18 data_len
  p7 ← put_byte p6 20 0x00
  p8 ← put_byte p7 21 modbus_write_multi
  let p9 = put_at 22 (serial_to_bytes inverter_serial) p8
  p10 ← pack_into p9 32 start_register
  p11 ← pack_into p10 34 n
  p12 ← put_byte p11 36 (2 * n)
  p13 ← pack_values p12 37 vs
  pack_into p13 (37 + 2 * n) (crc16_modbus (slice p13 20 (37 + 2 * n)))

unfoldable pub build_heartbeat : Str → Outcome Bytes
unfolding pack_into put_byte
build_heartbeat datalog_serial = do
  p1 ← pack_into (put_at 0 prefix (zeros 19)) 2 2
  p2 ← pack_into p1 4 13
  p3 ← put_byte p2 6 0x01
  p4 ← put_byte p3 7 tcp_func_heartbeat
  put_byte (put_at 8 (serial_to_bytes datalog_serial) p4) 18 0
