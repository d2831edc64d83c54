-- ===== src/Mqtt.antt =====
-- collector/mqtt_commands.py: the settings that MQTT may change, the validation of a new value, and
-- the handlers of the two command topics.
pub mod Text
pub mod Number
pub mod Validate
pub mod Commands
