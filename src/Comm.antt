-- ===== src/Comm.antt =====
-- collector/comm: the transports that carry frames between the collector and the dongle.
pub mod Persistent
pub mod Passive
pub mod Active
pub mod Replay
