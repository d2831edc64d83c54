-- ===== src/Protocol.antt =====
-- collector/protocol.py: the framing of the dongle's TCP protocol, its requests and its parser.
-- A byte string is a list of numbers; a Python `str` is the list of its code points.
pub mod Bytes
pub mod Crc
pub mod Frame
pub mod Build
pub mod Parse
pub mod Scan
