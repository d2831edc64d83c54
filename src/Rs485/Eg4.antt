-- ===== src/Rs485/Eg4.antt =====
-- collector/rs485/eg4_bms.py: the battery protocol of the EG4 LL batteries, a Modbus RTU.
pub mod Words
pub mod Blocks
pub mod Frame
