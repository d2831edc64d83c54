-- ===== src/Rs485/Jk.antt =====
-- collector/rs485/jk_bms.py: the checksum, the response frame and the status payload of the JK BMS.
-- Readings are exact ratios; the source computes them in floats. Its keys are all different, so that a
-- dictionary is the list of its items.
pub mod Tags
pub mod Status
pub mod Frame
