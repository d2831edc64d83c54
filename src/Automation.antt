-- ===== src/Automation.antt =====
-- collector/automation.py: the register primitives on the dongle connection, the guarded, verified
-- write of a setting, the conditions of the automations, and the engine that evaluates them.
pub mod Settings
pub mod Link
pub mod Primitives
pub mod Write
pub mod Clock
pub mod Rule
pub mod Condition
pub mod Engine
