-- ===== src/Lib.antt =====
-- lux-mon: the core of the collector that talks to LuxPower and EG4 inverters.
--
-- The inverter's WiFi dongle speaks a framed protocol over TCP. The collector builds requests,
-- scans what it receives for frames, decodes register values, and writes settings back. The parts,
-- and the files that model them:
--
-- - Protocol: collector/protocol.py, the framing. Protocol/Crc is crc16_modbus with its table,
--   Protocol/Build the builders (build_read_request, build_write_request,
--   build_write_multi_request, build_heartbeat), Protocol/Parse is parse_frame with
--   _parse_data_frame, split where the source tests a length, and Protocol/Scan is find_frames.
--   Protocol/Bytes has the byte operations (struct fields of format <H, slices).
-- - Holding: the table HOLDING_REGISTERS of collector/protocol.py with the generated 7-day
--   schedule, and HOLDING_BY_NAME. Display texts are left out.
-- - Capabilities: collector/capabilities.py, which registers a model has.
-- - Engineering: the conversions between raw and engineering values and the clamp, of
--   collector/automation.py.
-- - Faults: collector/fault_codes.py.
-- - Registers: collector/registers.py, the table INPUT_REGISTERS with the battery blocks
--   (Registers/Batteries), RegisterDef.decode, decode_registers and decode_battery_serial.
-- - Drivers: collector/drivers, the register maps and batches of the inverter models and get_driver.
-- - Comm: collector/comm. Comm/Persistent is PersistentDongleConnection: _ensure_connected,
--   _note_response and transact. Comm/Passive is _consume_frames of tcp_passive.py and the limit
--   that its receive loop puts on the buffer. Comm/Active is the polling of TcpActiveTransport, over
--   any connection that keeps the law of Automation/Link; Comm/Replay is the loop of ReplayTransport.
-- - Automation: collector/automation.py. Automation/Primitives are the register primitives,
--   Automation/Write is _do_write. They use the connection through the record Automation/Link, a
--   transact and its one law; the persistent connection is an instance of it. Automation/Clock has
--   the time windows, Automation/Rule the rules, Automation/Condition the matching of conditions and
--   ranges, and Automation/Engine the evaluation of each type of rule, the write log and the notices;
--   Automation/Engine/Schedule is the target of a schedule.
-- - QuickCharge: collector/quick_charge.py over the same link, its saved state and log rows as
--   state: _set_enable_bit, start, stop and tick.
-- - Alerts: collector/alerts.py. Alerts/Rules are the rules, Alerts/Notifiers the texts, the email
--   and the webhook with their limit per alert, Alerts/Engine is AlertEngine, its transitions and
--   what it publishes.
-- - Rs485: the battery protocols of collector/rs485. Rs485/A5 is eg4_a5_bms.py, its frames and its
--   commands; Rs485/Jk is jk_bms.py, its frames, checksum and tags; Rs485/Eg4 is eg4_bms.py, its
--   words, blocks and frames. Rs485/Cells are the figures of a scan of cells that they all compute,
--   and Rs485/Fields the reads of fields.
-- - Settings: collector/settings.py. Settings/Tables and Settings/Meta are the tables DEFAULTS and
--   SETTING_META, Settings/Store the reads and the writes of the table lux_settings. Settings/Collation is what
--   they rely on in the database, how it compares names.
-- - Mqtt: collector/mqtt_commands.py. Mqtt/Text has the string operations, Mqtt/Number what float
--   reads, Mqtt/Validate is _validate_and_convert and Mqtt/Commands the handlers.
-- - Base: shared names, tests, lists over native numbers, outcomes of code that may raise,
--   integers, binary64 floats, dictionaries as association lists, and laws of the bit operations.
-- - Tests: concrete runs, and inputs at which the theorems' hypotheses hold.
--
-- Bytes and register values are natural numbers; a packed field is checked to fit, as struct does.
-- An exception is a value of Outcome. Engineering values are decimals in thousandths, each for
-- the float nearest to it, an infinity or not a number; the quotient by the scale is rounded as floats
-- are, and so is what float reads of a text. The socket is an argument: in each round of transact an Attempt says what
-- the peek, the connect, the send and the receives up to the deadline do. The lock makes a call one
-- sequence of steps. One evaluation of the rules or of the alerts happens at one moment, and times
-- are in milliseconds. Waiting and logging to the console are not modelled; a row of the automation
-- log and a message that goes out are elements of the state, the newest first. The database answers
-- or fails for a whole operation.
--
-- The scan of the protocol runs on fuel: one unit more than the buffer has bytes, and each round
-- passes a byte at least. The chunks of a replayed file have one unit for each of its bytes. The
-- other loops follow a list or a count.
--
-- Not modelled: the RS485 driver modbus_rtu and the forecasts; the HTTP API, the outputs and the
-- collector's loop, which are input and output around these parts. A text that is not ASCII is outside
-- the model of float and strip, and the sign of a zero is left out. The numbers of an automation are
-- finite. A publication that the MQTT client refuses is dropped, as the source does.
pub mod Base
pub mod Protocol
pub mod Holding
pub mod Capabilities
pub mod Engineering
pub mod Faults
pub mod Registers
pub mod Comm
pub mod Automation
pub mod QuickCharge
pub mod Drivers
pub mod Rs485
pub mod Alerts
pub mod Settings
pub mod Mqtt
pub mod Tests
