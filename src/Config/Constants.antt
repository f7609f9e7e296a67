-- ===== src/Config/Constants.antt =====
-- src/config/config_defaults.hpp: the values of the keys that the configuration file may leave out.
-- Durations are in milliseconds, but for the timeout of the watchdog, which counts seconds.
use Prim.Native.String.{String}
use openpressod.Prelude.{ℕ, ℤ, pos, Bool, true, false}
use openpressod.Config.{ConfigLibrary}

abbrev pub default_brew_profile_file_name : String
default_brew_profile_file_name = "brew_profile.json"

abbrev pub default_user_settings_file_name : String
default_user_settings_file_name = "user_settings.json"

abbrev pub default_i2c_bus : String
default_i2c_bus = "/dev/i2c-0"

abbrev pub default_gpio_chip : String
default_gpio_chip = "/dev/gpiochip0"

abbrev pub default_watchdog : String
default_watchdog = "/dev/watchdog0"

abbrev pub default_temperature_sensor_spi : String
default_temperature_sensor_spi = "/dev/spidev0.0"

abbrev pub default_service_tcp_enable : Bool
default_service_tcp_enable = false

abbrev pub default_service_tcp_bind_address : String
default_service_tcp_bind_address = "0.0.0.0:5001"

abbrev pub default_console_log_output_pattern : String
default_console_log_output_pattern = "[%Y-%m-%d %H:%M:%S.%e] [%^%l%$] %v"

abbrev pub default_console_log_level : (lib : ConfigLibrary) → lib.LogLevel
default_console_log_level lib = lib.info

abbrev pub default_watchdog_enable : Bool
default_watchdog_enable = true

abbrev pub default_pid_state_monitoring_enable : Bool
default_pid_state_monitoring_enable = false

abbrev pub default_power_button_bistable : Bool
default_power_button_bistable = false

abbrev pub default_brew_button_bistable : Bool
default_brew_button_bistable = true

abbrev pub default_steam_button_bistable : Bool
default_steam_button_bistable = true

abbrev pub default_buttons_logic_inverted : Bool
default_buttons_logic_inverted = true

abbrev pub default_leds_logic_inverted : Bool
default_leds_logic_inverted = false

abbrev pub default_buttons_pull_mode : (lib : ConfigLibrary) → lib.PinPull
default_buttons_pull_mode lib = lib.pull_up

abbrev pub default_button_debounce_period : ℤ
default_button_debounce_period = pos 10

abbrev pub default_heater_ready_hysteresis_period : ℤ
default_heater_ready_hysteresis_period = pos 5000

abbrev pub default_temperature_d_filter_smoothing_period : ℤ
default_temperature_d_filter_smoothing_period = pos 750

abbrev pub default_weight_d_filter_smoothing_period : ℤ
default_weight_d_filter_smoothing_period = pos 600

abbrev pub default_watchdog_timeout : ℤ
default_watchdog_timeout = pos 1

abbrev pub default_ads1115_addr : ℕ
default_ads1115_addr = 0x48

abbrev pub default_nau7802_addr : ℕ
default_nau7802_addr = 0x2a

abbrev pub default_brew_pressure : ℤ
default_brew_pressure = pos 9000

abbrev pub default_brew_temperature : ℤ
default_brew_temperature = pos 95000

abbrev pub default_brew_temperature_window : ℤ
default_brew_temperature_window = pos 500

abbrev pub default_steam_temperature : ℤ
default_steam_temperature = pos 155000

abbrev pub default_steam_temperature_window : ℤ
default_steam_temperature_window = pos 1000

abbrev pub default_steam_pressure_threshold : ℤ
default_steam_pressure_threshold = pos 2500

abbrev pub default_steam_refill_flow : ℤ
default_steam_refill_flow = pos 500

abbrev pub default_watchdog_reset_temperature : ℤ
default_watchdog_reset_temperature = pos 170000
