-- ===== src/Protocol/Frame.antt =====
-- `LuxFrame` of collector/protocol.py, its properties, and the constants of the protocol.
use lux_mon.Base.{ℕ, List, [], ◌∷◌, Bool, false, ◌||◌, ◌==◌}
use lux_mon.Protocol.Bytes.{Bytes}

-- A Python `str`: its code points.
abbrev pub Str : Type 0
Str = List ℕ

abbrev pub prefix : Bytes
prefix = 0xa1 ∷ 0x1a ∷ []

abbrev pub header_size : ℕ
header_size = 18

abbrev pub tcp_func_heartbeat : ℕ
tcp_func_heartbeat = 0xc1

abbrev pub tcp_func_translated_data : ℕ
tcp_func_translated_data = 0xc2

abbrev pub modbus_read_hold : ℕ
modbus_read_hold = 3

abbrev pub modbus_read_input : ℕ
modbus_read_input = 4

abbrev pub modbus_write_single : ℕ
modbus_write_single = 6

abbrev pub modbus_write_multi : ℕ
modbus_write_multi = 16

pub record LuxFrame : Type 0 where
  pub protocol : ℕ
  pub tcp_function : ℕ
  pub datalog_serial : Str
  pub raw : Bytes
  pub address : ℕ
  pub device_function : ℕ
  pub inverter_serial : Str
  pub register : ℕ
  pub values : List ℕ
  pub write_count : ℕ
  pub is_error : Bool
  pub error_code : ℕ

-- `LuxFrame(protocol=…, tcp_function=…, datalog_serial=…, raw=…)`, with the class's defaults.
abbrev pub new_frame : ℕ → ℕ → Str → Bytes → LuxFrame
new_frame p f s d = record {
  protocol = p;
  tcp_function = f;
  datalog_serial = s;
  raw = d;
  address = 0;
  device_function = 0;
  inverter_serial = [];
  register = 0;
  values = [];
  write_count = 0;
  is_error = false;
  error_code = 0;
}

abbrev pub is_heartbeat : LuxFrame → Bool
is_heartbeat f = f.tcp_function == tcp_func_heartbeat

abbrev pub is_translated_data : LuxFrame → Bool
is_translated_data f = f.tcp_function == tcp_func_translated_data

abbrev pub is_read : LuxFrame → Bool
is_read f = f.device_function == modbus_read_hold || f.device_function == modbus_read_input

abbrev pub is_read_hold : LuxFrame → Bool
is_read_hold f = f.device_function == modbus_read_hold
