-- ===== src/Config/Defaults.antt =====
-- The defaults of the manual (docs/pages/openpressod.conf.5.md).
use Prim.Native.String.{String}
use openpressod.Prelude.{pos, true, false, none, List, [], ◌∷◌, ◌≡◌, arith}
use openpressod.Results.{ok}
use openpressod.Config.{ConfigLibrary, Kind, boolean, text, integer, natural, milliseconds, seconds}
use openpressod.Config.System.{
  user_settings_path, brew_profile_path, pid_state_monitoring_enabled, i2c_bus, gpio_chip,
  socket_path, tcp_enable, tcp_bind_address, log_message_pattern, log_level, watchdog_enabled,
  watchdog_device, watchdog_timeout, watchdog_temperature_limit, seconds_to_milliseconds,
}
use openpressod.Config.Panel.{
  buttons_logic_inverted, power_button_bistable, brew_button_bistable, steam_button_bistable,
  buttons_pull_mode, buttons_debounce_period, leds_logic_inverted,
}
use openpressod.Config.Sensors.{
  pressure_sensor_i2c_addr, weight_sensor_filter_timing, weight_sensor_i2c_addr,
  temperature_sensor_filter_timing, temperature_sensor_spi_addr,
}
use openpressod.Config.Boiler.{
  heater_ready_hysteresis_period, brew_temperature, brew_pressure, brew_temperature_window,
  steam_pressure_threshold, steam_temperature, steam_refill_flow, steam_temperature_window,
}

-- The keys that the manual calls optional, in its order.
abbrev pub optional_keys : List (Kind × List String)
optional_keys =
    (text, "global" ∷ "user_settings_path" ∷ [])
    ∷ (text, "global" ∷ "brew_profile_path" ∷ [])
    ∷ (text, "global" ∷ "i2c_bus" ∷ [])
    ∷ (text, "global" ∷ "gpio_chip" ∷ [])
    ∷ (boolean, "global" ∷ "pid_state_monitoring_enabled" ∷ [])
    ∷ (text, "service" ∷ "socket_path" ∷ [])
    ∷ (boolean, "service" ∷ "tcp_enable" ∷ [])
    ∷ (text, "service" ∷ "tcp_bind_address" ∷ [])
    ∷ (text, "log" ∷ "console_log_pattern" ∷ [])
    ∷ (text, "log" ∷ "console_log_level" ∷ [])
    ∷ (boolean, "watchdog" ∷ "enabled" ∷ [])
    ∷ (text, "watchdog" ∷ "device_path" ∷ [])
    ∷ (seconds, "watchdog" ∷ "timeout" ∷ [])
    ∷ (integer, "watchdog" ∷ "temperature_limit" ∷ [])
    ∷ (boolean, "buttons" ∷ "inverted" ∷ [])
    ∷ (boolean, "buttons" ∷ "power_bistable" ∷ [])
    ∷ (boolean, "buttons" ∷ "brew_bistable" ∷ [])
    ∷ (boolean, "buttons" ∷ "steam_bistable" ∷ [])
    ∷ (text, "buttons" ∷ "pull_mode" ∷ [])
    ∷ (milliseconds, "buttons" ∷ "debounce_period" ∷ [])
    ∷ (boolean, "leds" ∷ "inverted" ∷ [])
    ∷ (natural, "pressure_sensor" ∷ "i2c_addr" ∷ [])
    ∷ (milliseconds, "weight_sensor" ∷ "filter_timing" ∷ [])
    ∷ (natural, "weight_sensor" ∷ "i2c_addr" ∷ [])
    ∷ (milliseconds, "temperature_sensor" ∷ "filter_timing" ∷ [])
    ∷ (text, "temperature_sensor" ∷ "spi_addr" ∷ [])
    ∷ (milliseconds, "heater" ∷ "ready_hysteresis_period" ∷ [])
    ∷ (integer, "brew" ∷ "temperature" ∷ [])
    ∷ (integer, "brew" ∷ "pressure" ∷ [])
    ∷ (integer, "brew" ∷ "brew_temperature_window" ∷ [])
    ∷ (integer, "steam" ∷ "pressure_threshold" ∷ [])
    ∷ (integer, "steam" ∷ "temperature" ∷ [])
    ∷ (integer, "steam" ∷ "refill_flow" ∷ [])
    ∷ (integer, "steam" ∷ "steam_temperature_window" ∷ [])
    ∷ []

abbrev pub AllAbsent : (lib : ConfigLibrary) → lib.Value → List (Kind × List String) → Type 0
AllAbsent lib config [] = Unit
AllAbsent lib config ((k, path) ∷ l) = (lib.find k config path ≡ none) × AllAbsent lib config l

-- The value that the manual gives to each optional key that is left out.
pub record HasDocumentedDefaults (lib : ConfigLibrary) (config : lib.Value) : Type 0 where
  pub user_settings :
      user_settings_path lib config ≡ lib.join_path lib.data_dir "user_settings.json"
  pub brew_profile : brew_profile_path lib config ≡ lib.join_path lib.data_dir "brew_profile.json"
  pub bus : i2c_bus lib config ≡ "/dev/i2c-0"
  pub chip : gpio_chip lib config ≡ "/dev/gpiochip0"
  pub pid_monitoring : pid_state_monitoring_enabled lib config ≡ false
  pub socket : socket_path lib config ≡ lib.default_socket_path
  pub tcp : tcp_enable lib config ≡ false
  pub tcp_address : tcp_bind_address lib config ≡ "0.0.0.0:5001"
  pub log_pattern : log_message_pattern lib config ≡ "[%Y-%m-%d %H:%M:%S.%e] [%^%l%$] %v"
  pub level : log_level lib config ≡ ok lib.info
  pub watchdog : watchdog_enabled lib config ≡ true
  pub watchdog_path : watchdog_device lib config ≡ "/dev/watchdog0"
  pub watchdog_period : watchdog_timeout lib config ≡ pos 1000
  pub watchdog_limit : watchdog_temperature_limit lib config ≡ pos 170000
  pub buttons_inverted : buttons_logic_inverted lib config ≡ true
  pub power_bistable : power_button_bistable lib config ≡ false
  pub brew_bistable : brew_button_bistable lib config ≡ true
  pub steam_bistable : steam_button_bistable lib config ≡ true
  pub pull : buttons_pull_mode lib config ≡ ok lib.pull_up
  pub debounce : buttons_debounce_period lib config ≡ pos 10
  pub leds_inverted : leds_logic_inverted lib config ≡ false
  pub pressure_addr : pressure_sensor_i2c_addr lib config ≡ 0x48
  pub weight_filter : weight_sensor_filter_timing lib config ≡ pos 600
  pub weight_addr : weight_sensor_i2c_addr lib config ≡ 0x2a
  pub temperature_filter : temperature_sensor_filter_timing lib config ≡ pos 750
  pub temperature_spi : temperature_sensor_spi_addr lib config ≡ "/dev/spidev0.0"
  pub hysteresis : heater_ready_hysteresis_period lib config ≡ ok 5000
  pub brew_target : brew_temperature lib config ≡ pos 95000
  pub brew_bar : brew_pressure lib config ≡ pos 9000
  pub brew_window : brew_temperature_window lib config ≡ pos 500
  pub steam_threshold : steam_pressure_threshold lib config ≡ pos 2500
  pub steam_target : steam_temperature lib config ≡ pos 155000
  pub steam_flow : steam_refill_flow lib config ≡ pos 500
  pub steam_window : steam_temperature_window lib config ≡ pos 1000

-- A configuration file that leaves every optional key out has the documented defaults, and the log
-- level and the pull mode, which are read by name, throw nothing.
pub absent-HasDocumentedDefaults :
    (lib : ConfigLibrary) (config : lib.Value)
    → AllAbsent lib config optional_keys
    → HasDocumentedDefaults lib config
unfolding user_settings_path brew_profile_path pid_state_monitoring_enabled i2c_bus gpio_chip
    socket_path tcp_enable tcp_bind_address log_message_pattern log_level watchdog_enabled
    watchdog_device watchdog_timeout watchdog_temperature_limit seconds_to_milliseconds
    buttons_logic_inverted power_button_bistable brew_button_bistable steam_button_bistable
    buttons_pull_mode buttons_debounce_period leds_logic_inverted pressure_sensor_i2c_addr
    weight_sensor_filter_timing weight_sensor_i2c_addr temperature_sensor_filter_timing
    temperature_sensor_spi_addr heater_ready_hysteresis_period brew_temperature brew_pressure
    brew_temperature_window steam_pressure_threshold steam_temperature steam_refill_flow
    steam_temperature_window
absent-HasDocumentedDefaults lib config h =
    grind (arith, lib.find_or-none, lib.pull_cast-name, lib.level_cast-name)
