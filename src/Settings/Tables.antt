-- ===== src/Settings/Tables.antt =====
-- The environment variables and the defaults of collector/settings.py: `SETTING_ENV` and `DEFAULTS`.
use Prim.Native.String.{String}
use lux_mon.Base.{List, [], ◌∷◌}

-- `cast`: none for a string.
pub data Cast : Type 0 where
  as_text as_int as_float as_bool : Cast

unfoldable pub setting_env : List (String × (String × Cast))
setting_env =
    ("inverter_model", ("LUX_INVERTER_MODEL", as_text))
    ∷ ("dongle_host", ("LUX_DONGLE_HOST", as_text))
    ∷ ("dongle_port", ("LUX_DONGLE_PORT", as_int))
    ∷ ("datalog_serial", ("LUX_DATALOG_SERIAL", as_text))
    ∷ ("inverter_serial", ("LUX_INVERTER_SERIAL", as_text))
    ∷ ("write_interval_sec", ("LUX_WRITE_INTERVAL", as_int))
    ∷ ("transport", ("LUX_TRANSPORT", as_text))
    ∷ ("influx_enabled", ("LUX_INFLUX_ENABLED", as_bool))
    ∷ ("influx_url", ("LUX_INFLUX_URL", as_text))
    ∷ ("influx_database", ("LUX_INFLUX_DATABASE", as_text))
    ∷ ("influx_token", ("LUX_INFLUX_TOKEN", as_text))
    ∷ ("influx_org", ("LUX_INFLUX_ORG", as_text))
    ∷ ("influx_username", ("LUX_INFLUX_USERNAME", as_text))
    ∷ ("influx_password", ("LUX_INFLUX_PASSWORD", as_text))
    ∷ ("mqtt_enabled", ("LUX_MQTT_ENABLED", as_bool))
    ∷ ("mqtt_host", ("LUX_MQTT_HOST", as_text))
    ∷ ("mqtt_port", ("LUX_MQTT_PORT", as_int))
    ∷ ("mqtt_username", ("LUX_MQTT_USERNAME", as_text))
    ∷ ("mqtt_password", ("LUX_MQTT_PASSWORD", as_text))
    ∷ ("mqtt_topic_prefix", ("LUX_MQTT_TOPIC_PREFIX", as_text))
    ∷ ("mqtt_ha_discovery", ("LUX_MQTT_HA_DISCOVERY", as_bool))
    ∷ ("mqtt_device_name", ("LUX_MQTT_DEVICE_NAME", as_text))
    ∷ ("mqtt_device_id", ("LUX_MQTT_DEVICE_ID", as_text))
    ∷ ("temperature_unit", ("LUX_TEMPERATURE_UNIT", as_text))
    ∷ ("alerts_enabled", ("LUX_ALERTS_ENABLED", as_bool))
    ∷ ("alerts_soc_low", ("LUX_ALERTS_SOC_LOW", as_float))
    ∷ ("alerts_soc_critical", ("LUX_ALERTS_SOC_CRITICAL", as_float))
    ∷ ("alerts_battery_temp_high", ("LUX_ALERTS_BATTERY_TEMP_HIGH", as_float))
    ∷ ("alerts_inverter_temp_high", ("LUX_ALERTS_INVERTER_TEMP_HIGH", as_float))
    ∷ ("alerts_grid_lost_threshold_sec", ("LUX_ALERTS_GRID_LOST_THRESHOLD_SEC", as_float))
    ∷ ("alerts_email_enabled", ("LUX_ALERTS_EMAIL_ENABLED", as_bool))
    ∷ ("alerts_email_smtp_host", ("LUX_ALERTS_EMAIL_SMTP_HOST", as_text))
    ∷ ("alerts_email_smtp_port", ("LUX_ALERTS_EMAIL_SMTP_PORT", as_int))
    ∷ ("alerts_email_username", ("LUX_ALERTS_EMAIL_USERNAME", as_text))
    ∷ ("alerts_email_password", ("LUX_ALERTS_EMAIL_PASSWORD", as_text))
    ∷ ("alerts_email_from", ("LUX_ALERTS_EMAIL_FROM", as_text))
    ∷ ("alerts_email_to", ("LUX_ALERTS_EMAIL_TO", as_text))
    ∷ ("alerts_email_tls", ("LUX_ALERTS_EMAIL_TLS", as_bool))
    ∷ ("alerts_webhook_enabled", ("LUX_ALERTS_WEBHOOK_ENABLED", as_bool))
    ∷ ("alerts_webhook_url", ("LUX_ALERTS_WEBHOOK_URL", as_text))
    ∷ []

unfoldable pub defaults : List (String × String)
defaults =
    ("inverter_model", "eg4_6000xp")
    ∷ ("pv_max_power", "8000")
    ∷ ("grid_max_power", "6000")
    ∷ ("eps_max_power", "6000")
    ∷ ("charge_max_power", "5000")
    ∷ ("discharge_max_power", "5000")
    ∷ ("battery_type", "inverter")
    ∷ ("battery_capacity", "200")
    ∷ ("battery_metric", "soc")
    ∷ ("grid_provider", "default")
    ∷ ("dashboard_refresh_sec", "5")
    ∷ ("chart_default_hours", "6")
    ∷ ("timezone", "America/Chicago")
    ∷ ("temperature_unit", "fahrenheit")
    ∷ ("write_interval_sec", "5")
    ∷ ("transport", "tcp_active")
    ∷ ("dongle_host", "192.168.1.100")
    ∷ ("dongle_port", "8000")
    ∷ ("datalog_serial", "")
    ∷ ("inverter_serial", "")
    ∷ ("influx_enabled", "false")
    ∷ ("influx_url", "http://localhost:8086")
    ∷ ("influx_database", "luxmon")
    ∷ ("influx_token", "")
    ∷ ("influx_org", "luxmon")
    ∷ ("influx_username", "")
    ∷ ("influx_password", "")
    ∷ ("mqtt_enabled", "false")
    ∷ ("mqtt_host", "localhost")
    ∷ ("mqtt_port", "1883")
    ∷ ("mqtt_username", "")
    ∷ ("mqtt_password", "")
    ∷ ("mqtt_topic_prefix", "luxmon")
    ∷ ("mqtt_ha_discovery", "true")
    ∷ ("mqtt_device_name", "luxmon")
    ∷ ("mqtt_device_id", "luxmon_solar")
    ∷ ("alerts_enabled", "false")
    ∷ ("alerts_soc_low", "20")
    ∷ ("alerts_soc_critical", "10")
    ∷ ("alerts_battery_temp_high", "50")
    ∷ ("alerts_inverter_temp_high", "60")
    ∷ ("alerts_grid_lost_threshold_sec", "30")
    ∷ ("alerts_email_enabled", "false")
    ∷ ("alerts_email_smtp_host", "")
    ∷ ("alerts_email_smtp_port", "587")
    ∷ ("alerts_email_username", "")
    ∷ ("alerts_email_password", "")
    ∷ ("alerts_email_from", "")
    ∷ ("alerts_email_to", "")
    ∷ ("alerts_email_tls", "true")
    ∷ ("alerts_webhook_enabled", "false")
    ∷ ("alerts_webhook_url", "")
    ∷ ("automation_enabled", "false")
    ∷ ("automation_global_dry_run", "true")
    ∷ ("automations_v2", "[]")
    ∷ ("quick_charge_minutes", "60")
    ∷ ("quick_charge_state", "{}")
    ∷ ("forecast_enabled", "false")
    ∷ ("forecast_latitude", "30.0591")
    ∷ ("forecast_longitude", "-95.9324")
    ∷ ("array_kwp", "1.56")
    ∷ ("array_azimuth", "180")
    ∷ ("array_tilt", "21")
    ∷ ("array_bifacial_gain", "0.10")
    ∷ ("forecast_provider", "open-meteo")
    ∷ ("forecast_hours", "48")
    ∷ ("forecast_refresh_min", "120")
    ∷ ("forecast_bias_enabled", "true")
    ∷ ("forecast_bias_lookback_days", "7")
    ∷ ("forecast_bias_min_samples", "3")
    ∷ []
