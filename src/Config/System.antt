-- ===== src/Config/System.antt =====
-- src/config/openpressod_config.cpp: the tables [global], [service], [log] and [watchdog].
use Prim.Native.String.{String}
use openpressod.Prelude.{ℕ, ℤ, pos, Bool, none, some, [], ◌∷◌, negsuc, ◌*◌, ◌+◌}
use openpressod.Results.{Result, ok, err, bad_optional_access}
use openpressod.Config.{ConfigLibrary, boolean, text, integer, natural, seconds, required}
use openpressod.Config.Constants.{
  default_user_settings_file_name, default_pid_state_monitoring_enable,
  default_brew_profile_file_name, default_i2c_bus, default_gpio_chip, default_service_tcp_enable,
  default_service_tcp_bind_address, default_console_log_output_pattern, default_console_log_level,
  default_watchdog_enable, default_watchdog, default_watchdog_timeout,
  default_watchdog_reset_temperature,
}

-- 1000 times as many, with `negsuc n` as -(n + 1).
unfoldable pub seconds_to_milliseconds : ℤ → ℤ
seconds_to_milliseconds (pos n) = pos (1000 * n)
seconds_to_milliseconds (negsuc n) = negsuc (1000 * n + 999)

module _ (lib : ConfigLibrary) (config : lib.Value) where
  open lib use {
    find_or, data_dir, default_socket_path, join_path, LogLevel, info, level_name, level_cast,
  }

  unfoldable pub user_settings_path : String
  user_settings_path =
      find_or text config ("global" ∷ "user_settings_path" ∷ [])
        (join_path data_dir default_user_settings_file_name)

  unfoldable pub pid_state_monitoring_enabled : Bool
  pid_state_monitoring_enabled =
      find_or boolean config ("global" ∷ "pid_state_monitoring_enabled" ∷ [])
        default_pid_state_monitoring_enable

  unfoldable pub brew_profile_path : String
  brew_profile_path =
      find_or text config ("global" ∷ "brew_profile_path" ∷ [])
        (join_path data_dir default_brew_profile_file_name)

  unfoldable pub mains_frequency : Result ℕ
  mains_frequency = required lib natural config ("global" ∷ "mains_frequency" ∷ [])

  unfoldable pub i2c_bus : String
  i2c_bus = find_or text config ("global" ∷ "i2c_bus" ∷ []) default_i2c_bus

  unfoldable pub gpio_chip : String
  gpio_chip = find_or text config ("global" ∷ "gpio_chip" ∷ []) default_gpio_chip

  unfoldable pub mains_zero_cross_pin : Result ℕ
  mains_zero_cross_pin = required lib natural config ("global" ∷ "mains_zc_pin" ∷ [])

  unfoldable pub socket_path : String
  socket_path = find_or text config ("service" ∷ "socket_path" ∷ []) default_socket_path

  unfoldable pub tcp_enable : Bool
  tcp_enable = find_or boolean config ("service" ∷ "tcp_enable" ∷ []) default_service_tcp_enable

  unfoldable pub tcp_bind_address : String
  tcp_bind_address =
      find_or text config ("service" ∷ "tcp_bind_address" ∷ []) default_service_tcp_bind_address

  unfoldable pub log_message_pattern : String
  log_message_pattern =
      find_or text config ("log" ∷ "console_log_pattern" ∷ []) default_console_log_output_pattern

  -- `std::optional::value`, which throws.
  unfoldable pub log_level : Result LogLevel
  log_level =
      elim (level_cast (
        find_or text config ("log" ∷ "console_log_level" ∷ [])
          (level_name (default_console_log_level lib)))) [
            | none ↦ err bad_optional_access
            | some l ↦ ok l
          ]

  unfoldable pub watchdog_enabled : Bool
  watchdog_enabled = find_or boolean config ("watchdog" ∷ "enabled" ∷ []) default_watchdog_enable

  unfoldable pub watchdog_device : String
  watchdog_device = find_or text config ("watchdog" ∷ "device_path" ∷ []) default_watchdog

  -- In milliseconds. The default is `1s`, so the value is read in whole seconds.
  unfoldable pub watchdog_timeout : ℤ
  watchdog_timeout =
      seconds_to_milliseconds
        (find_or seconds config ("watchdog" ∷ "timeout" ∷ []) default_watchdog_timeout)

  unfoldable pub watchdog_temperature_limit : ℤ
  watchdog_temperature_limit =
      find_or integer config ("watchdog" ∷ "temperature_limit" ∷ [])
        default_watchdog_reset_temperature
