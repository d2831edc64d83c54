-- ===== src/Settings.antt =====
-- collector/settings.py: the settings in the database, their defaults and their environment variables.
pub mod Tables
pub mod Meta
pub mod Collation
pub mod Store
