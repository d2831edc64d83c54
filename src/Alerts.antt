-- ===== src/Alerts.antt =====
-- collector/alerts.py and collector/notifiers.py: the alert rules, the publication of the changes of
-- their states, and the throttled notifications.
pub mod Rules
pub mod Notifiers
pub mod Engine
