-- ===== src/Rs485.antt =====
-- collector/rs485: the battery protocols on the serial bus, from the received bytes to the readings.
pub mod Fields
pub mod Cells
pub mod A5
pub mod Jk
pub mod Eg4
