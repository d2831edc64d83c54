-- ===== src/Tests.antt =====
-- The tests: concrete inputs on which the theorems' hypotheses hold.
mod Protocol
mod Comm
mod Automation
mod Engine
mod QuickCharge
mod Registers
mod Alerts
mod Rs485
mod Settings
