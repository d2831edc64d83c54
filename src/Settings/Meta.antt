-- ===== src/Settings/Meta.antt =====
-- The metadata of the settings: `SETTING_META` of collector/settings.py, as far as validation reads it.
-- Bounds and steps are in millionths, and of an option the value is kept, not its label.
use Prim.Native.String.{String}
use lux_mon.Base.{List, [], ◌∷◌, ◌++◌, Option, none, some, ℤ, pos, negsuc}

pub data SettingType : Type 0 where
  number : Option ℤ → Option ℤ → Option ℤ → SettingType
  select : List String → SettingType
  checkbox text : SettingType

-- `_inverter_model_options`, by the names of the drivers.
abbrev pub inverter_model_options : List String
inverter_model_options =
    "eg4_12000xp" ∷ "eg4_12kpv" ∷ "eg4_18kpv" ∷ "eg4_3000ehv" ∷ "eg4_6000xp" ∷ "eg4_6500ex"
    ∷ "luxpower_sna" ∷ []

abbrev pub setting_meta_1 : List (String × SettingType)
setting_meta_1 =
    ("inverter_model", select inverter_model_options)
    ∷ ("pv_max_power", number (some (pos 10000000)) (some (pos 1000000000000)) none)
    ∷ ("grid_max_power", number (some (pos 10000000)) (some (pos 1000000000000)) none)
    ∷ ("eps_max_power", number (some (pos 10000000)) (some (pos 1000000000000)) none)
    ∷ ("charge_max_power", number (some (pos 10000000)) (some (pos 1000000000000)) none)
    ∷ ("discharge_max_power", number (some (pos 10000000)) (some (pos 1000000000000)) none)
    ∷ (
      "battery_type",
      select (
          "inverter" ∷ "emulated" ∷ "daly" ∷ "jbd" ∷ "jk" ∷ "modbus" ∷ "narada" ∷ "pylontech"
          ∷ "serial" ∷ "voltronic_lib" ∷ "ve_direct" ∷ "can" ∷ []),
    )
    ∷ ("battery_capacity", number (some (pos 100000)) (some (pos 100000000000)) (some (pos 100000)))
    ∷ ("battery_metric", select ("soc" ∷ "voltage" ∷ "both" ∷ []))
    ∷ ("grid_provider", select ("default" ∷ "eskom" ∷ "epex" ∷ "nordpool" ∷ []))
    ∷ ("dashboard_refresh_sec", number (some (pos 1000000)) (some (pos 60000000)) none)
    ∷ ("chart_default_hours", number (some (pos 1000000)) (some (pos 168000000)) none)
    ∷ (
      "timezone",
      select (
          "America/Chicago" ∷ "America/New_York" ∷ "America/Denver" ∷ "America/Los_Angeles"
          ∷ "America/Phoenix" ∷ "America/Anchorage" ∷ "Pacific/Honolulu" ∷ "Europe/London"
          ∷ "Europe/Berlin" ∷ "Europe/Paris" ∷ "Asia/Tokyo" ∷ "Asia/Shanghai" ∷ "Asia/Kolkata"
          ∷ "Australia/Sydney" ∷ "Pacific/Auckland" ∷ "UTC" ∷ []),
    )
    ∷ ("temperature_unit", select ("fahrenheit" ∷ "celsius" ∷ []))
    ∷ ("write_interval_sec", number (some (pos 1000000)) (some (pos 300000000)) none)
    ∷ []

abbrev pub setting_meta_2 : List (String × SettingType)
setting_meta_2 =
    ("transport", select ("tcp_active" ∷ "tcp_passive" ∷ "replay" ∷ []))
    ∷ ("dongle_host", text)
    ∷ ("dongle_port", number (some (pos 1000000)) (some (pos 65535000000)) none)
    ∷ ("datalog_serial", text)
    ∷ ("inverter_serial", text)
    ∷ ("influx_enabled", checkbox)
    ∷ ("influx_url", text)
    ∷ ("influx_database", text)
    ∷ ("influx_token", text)
    ∷ ("influx_org", text)
    ∷ ("influx_username", text)
    ∷ ("influx_password", text)
    ∷ ("mqtt_enabled", checkbox)
    ∷ ("mqtt_host", text)
    ∷ ("mqtt_port", number (some (pos 1000000)) (some (pos 65535000000)) none)
    ∷ ("mqtt_username", text)
    ∷ ("mqtt_password", text)
    ∷ ("mqtt_topic_prefix", text)
    ∷ ("mqtt_ha_discovery", checkbox)
    ∷ ("mqtt_device_name", text)
    ∷ ("mqtt_device_id", text)
    ∷ ("alerts_enabled", checkbox)
    ∷ []

abbrev pub setting_meta_3 : List (String × SettingType)
setting_meta_3 =
    ("alerts_soc_low", number (some (pos 0)) (some (pos 100000000)) none)
    ∷ ("alerts_soc_critical", number (some (pos 0)) (some (pos 100000000)) none)
    ∷ ("alerts_battery_temp_high", number (some (pos 0)) (some (pos 100000000)) none)
    ∷ ("alerts_inverter_temp_high", number (some (pos 0)) (some (pos 100000000)) none)
    ∷ ("alerts_grid_lost_threshold_sec", number (some (pos 0)) (some (pos 600000000)) none)
    ∷ ("alerts_email_enabled", checkbox)
    ∷ ("alerts_email_smtp_host", text)
    ∷ ("alerts_email_smtp_port", number (some (pos 1000000)) (some (pos 65535000000)) none)
    ∷ ("alerts_email_username", text)
    ∷ ("alerts_email_password", text)
    ∷ ("alerts_email_from", text)
    ∷ ("alerts_email_to", text)
    ∷ ("alerts_email_tls", checkbox)
    ∷ ("alerts_webhook_enabled", checkbox)
    ∷ ("alerts_webhook_url", text)
    ∷ ("automation_enabled", checkbox)
    ∷ ("automation_global_dry_run", checkbox)
    ∷ ("automations_v2", text)
    ∷ ("quick_charge_minutes", number (some (pos 1000000)) (some (pos 240000000)) none)
    ∷ ("forecast_enabled", select ("false" ∷ "true" ∷ []))
    ∷ ("forecast_latitude", number (some (negsuc 89999999)) (some (pos 90000000)) (some (pos 100)))
    ∷ []

abbrev pub setting_meta_4 : List (String × SettingType)
setting_meta_4 =
    ("forecast_longitude", number (some (negsuc 179999999)) (some (pos 180000000)) (some (pos 100)))
    ∷ ("array_kwp", number (some (pos 100000)) (some (pos 1000000000)) (some (pos 10000)))
    ∷ ("array_azimuth", number (some (pos 0)) (some (pos 360000000)) (some (pos 1000000)))
    ∷ ("array_tilt", number (some (pos 0)) (some (pos 90000000)) (some (pos 1000000)))
    ∷ ("array_bifacial_gain", number (some (pos 0)) (some (pos 500000)) (some (pos 10000)))
    ∷ ("forecast_provider", select ("open-meteo" ∷ "forecast.solar" ∷ []))
    ∷ ("forecast_hours", number (some (pos 1000000)) (some (pos 168000000)) (some (pos 1000000)))
    ∷ (
      "forecast_refresh_min",
      number (some (pos 15000000)) (some (pos 1440000000)) (some (pos 5000000)),
    )
    ∷ ("forecast_bias_enabled", select ("true" ∷ "false" ∷ []))
    ∷ (
      "forecast_bias_lookback_days",
      number (some (pos 1000000)) (some (pos 30000000)) (some (pos 1000000)),
    )
    ∷ (
      "forecast_bias_min_samples",
      number (some (pos 1000000)) (some (pos 30000000)) (some (pos 1000000)),
    )
    ∷ []

abbrev pub setting_meta : List (String × SettingType)
setting_meta = setting_meta_1 ++ setting_meta_2 ++ setting_meta_3 ++ setting_meta_4
