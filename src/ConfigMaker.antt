-- ===== src/ConfigMaker.antt =====
-- src/config/libopenpresso_config_maker.hpp, libopenpresso_config_maker.cpp and
-- libopenpresso_config_constants.hpp: the description of the machine for libopenpresso, made of the
-- configuration. The logger, which is handed on, is left out.
pub mod Labels
pub mod Components
pub mod Wiring
pub mod Clients
pub mod WellTyped
pub mod Complete
use Prim.Native.String.{String}
use openpressod.Prelude.{
  ℕ, ℤ, pos, Bool, true, false, none, some, Option, List, [], ◌∷◌, if◌then◌else◌,
}
use openpressod.Results.{Result, ok, err, ◌>>=◌}
use openpressod.Config.{ConfigLibrary}
use openpressod.Config.System.{
  i2c_bus, gpio_chip, mains_zero_cross_pin, mains_frequency, pid_state_monitoring_enabled,
  watchdog_enabled, watchdog_device, watchdog_timeout, watchdog_temperature_limit,
}
use openpressod.Config.Panel.{
  buttons_debounce_period, buttons_pull_mode, buttons_logic_inverted, leds_logic_inverted,
  power_button_signal_pin, brew_button_signal_pin, steam_button_signal_pin, power_led_output_pin,
  brew_led_output_pin, steam_led_output_pin,
}
use openpressod.Config.Sensors.{
  pressure_sensor_signal_pin, pressure_sensor_i2c_addr, weight_sensor_scale,
  weight_sensor_filter_timing, weight_sensor_signal_pin, weight_sensor_i2c_addr,
  temperature_sensor_spi_addr, temperature_sensor_signal_pin,
}
use openpressod.Config.Boiler.{
  flow_controller_multiplier, pump_output_pin, pump_volume_per_pulse, pump_stall_pressure,
  valve_output_pin, heater_output_pin, brew_temperature_controller_pid_settings,
  steam_preheat_temperature_controller_pid_settings,
  steam_active_temperature_controller_pid_settings, steam_pressure_threshold, steam_refill_flow,
}
use openpressod.ConfigMaker.Labels.*
use openpressod.ConfigMaker.Components.{
  PinAddr, I2cAddr, Label, Component, ads1115_pressure_sensor, max31856_temperature_sensor,
  nau7802_weight_sensor, ac_zero_cross_sensor, vibro_pump_flow_sensor, logical_input_pin,
  logical_output_pin, pulse_controlled_device, pulse_power_controller, pulse_pressure_controller,
  integral_flow_rate_controller, vibro_pump_flow_controller, temperature_pid_controller,
  brew_profiler, steam_controller, ConfigEntry, WatchdogConfig, DeviceConfig,
}

abbrev pub pump_power_duty_cycle : ℕ
pump_power_duty_cycle = 16

abbrev pub heater_power_duty_cycle : ℕ
heater_power_duty_cycle = 64

-- In milliseconds.
abbrev pub brew_profiler_state_update_period : ℤ
brew_profiler_state_update_period = pos 50

abbrev pub steam_controller_state_update_period : ℤ
steam_controller_state_update_period = pos 250

abbrev pub steam_temperature_threshold_offset : ℤ
steam_temperature_threshold_offset = pos 10000

-- The values of a braced list are computed from left to right, and the first exception leaves it.
unfoldable pub in_order : {A : Type 0} → List (Result A) → Result (List A)
in_order [] = ok []
in_order (r ∷ l) = r >>= λ a. in_order l >>= λ k. ok (a ∷ k)

module _ (lib : ConfigLibrary) (config : lib.Value) where
  -- An entry, and a pin of the one GPIO chip.
  abbrev entry : Label → Component lib → ConfigEntry lib
  entry label component = record { label = label; component = component }

  abbrev gpio : ℕ → PinAddr
  gpio pin = record { chip = gpio_chip lib config; pin = pin }

  abbrev i2c : ℕ → I2cAddr
  i2c dev = record { bus = i2c_bus lib config; dev = dev }

  unfoldable pub make_pressure_sensor_config : Result (ConfigEntry lib)
  make_pressure_sensor_config = do
    pin ← pressure_sensor_signal_pin lib config
    ok (
        entry pressure_sensor_label
          (ads1115_pressure_sensor (i2c (pressure_sensor_i2c_addr lib config)) (gpio pin)))

  unfoldable pub make_temperature_sensor_config : Result (ConfigEntry lib)
  make_temperature_sensor_config = do
    pin ← temperature_sensor_signal_pin lib config
    ok (
        entry temperature_sensor_label (
          max31856_temperature_sensor (temperature_sensor_spi_addr lib config) (gpio pin) (pos 0)
            (watchdog_temperature_limit lib config)))

  unfoldable pub make_weight_sensor_config : Result (ConfigEntry lib)
  make_weight_sensor_config = do
    pin ← weight_sensor_signal_pin lib config
    scale ← weight_sensor_scale lib config
    ok (
        entry weight_sensor_label (
          nau7802_weight_sensor (i2c (weight_sensor_i2c_addr lib config)) (gpio pin) scale
            (weight_sensor_filter_timing lib config)))

  unfoldable pub make_ac_sensor_config : Result (ConfigEntry lib)
  make_ac_sensor_config = do
    pin ← mains_zero_cross_pin lib config
    ok (entry ac_sensor_label (ac_zero_cross_sensor (gpio pin)))

  unfoldable pub make_internal_flow_sensor_config : Result (ConfigEntry lib)
  make_internal_flow_sensor_config = do
    volume ← pump_volume_per_pulse lib config
    stall ← pump_stall_pressure lib config
    ok (
        entry internal_flow_sensor_label
          (vibro_pump_flow_sensor pressure_sensor_label pump_driver_label volume stall))

  -- The pin is read first, as the call's argument.
  unfoldable pub make_button_config : Label → Result ℕ → Result (ConfigEntry lib)
  make_button_config label signal_pin = do
    pin ← signal_pin
    pull ← buttons_pull_mode lib config
    ok (
        entry label (
          logical_input_pin (gpio pin) (buttons_debounce_period lib config) pull
            (buttons_logic_inverted lib config)))

  unfoldable pub make_led_config : Label → Result ℕ → Result (ConfigEntry lib)
  make_led_config label output_pin = do
    pin ← output_pin
    ok (entry label (logical_output_pin (gpio pin) false (leds_logic_inverted lib config)))

  unfoldable pub make_pump_driver_config : Result (ConfigEntry lib)
  make_pump_driver_config = do
    pin ← pump_output_pin lib config
    ok (entry pump_driver_label (pulse_controlled_device (gpio pin) ac_sensor_label))

  unfoldable pub make_heater_driver_config : Result (ConfigEntry lib)
  make_heater_driver_config = do
    pin ← heater_output_pin lib config
    ok (entry heater_driver_label (pulse_controlled_device (gpio pin) ac_sensor_label))

  unfoldable pub make_valve_driver_config : Result (ConfigEntry lib)
  make_valve_driver_config = do
    pin ← valve_output_pin lib config
    ok (entry valve_driver_label (logical_output_pin (gpio pin) false false))

  unfoldable pub make_pump_power_controller_config : Result (ConfigEntry lib)
  make_pump_power_controller_config = ok (
      entry pump_power_controller_label
        (pulse_power_controller pump_driver_label pump_power_duty_cycle))

  unfoldable pub make_heater_power_controller_config : Result (ConfigEntry lib)
  make_heater_power_controller_config = ok (
      entry heater_power_controller_label
        (pulse_power_controller heater_driver_label heater_power_duty_cycle))

  unfoldable pub make_pressure_controller_config : Result (ConfigEntry lib)
  make_pressure_controller_config = ok (
      entry pressure_controller_label
        (pulse_pressure_controller pump_driver_label pressure_sensor_label))

  unfoldable pub make_flow_rate_controller_config : Result (ConfigEntry lib)
  make_flow_rate_controller_config = do
    coef ← flow_controller_multiplier lib config
    ok (
        entry flow_rate_controller_label
          (integral_flow_rate_controller pump_power_controller_label weight_sensor_label coef))

  unfoldable pub make_internal_flow_rate_controller_config : Result (ConfigEntry lib)
  make_internal_flow_rate_controller_config = do
    frequency ← mains_frequency lib config
    ok (
        entry internal_flow_rate_controller_label
          (vibro_pump_flow_controller internal_flow_sensor_label frequency))

  unfoldable pub make_brew_temperature_controller_config : Result (ConfigEntry lib)
  make_brew_temperature_controller_config = do
    pid ← brew_temperature_controller_pid_settings lib config
    ok (
        entry brew_temperature_controller_label (
          temperature_pid_controller heater_power_controller_label temperature_sensor_label pid
            (pid_state_monitoring_enabled lib config) (some internal_flow_sensor_label)))

  unfoldable pub make_steam_preheat_temperature_controller_config : Result (ConfigEntry lib)
  make_steam_preheat_temperature_controller_config = do
    pid ← steam_preheat_temperature_controller_pid_settings lib config
    ok (
        entry steam_preheat_temperature_controller_label (
          temperature_pid_controller heater_power_controller_label temperature_sensor_label pid
            (pid_state_monitoring_enabled lib config) none))

  unfoldable pub make_steam_active_temperature_controller_config : Result (ConfigEntry lib)
  make_steam_active_temperature_controller_config = do
    pid ← steam_active_temperature_controller_pid_settings lib config
    ok (
        entry steam_active_temperature_controller_label (
          temperature_pid_controller heater_power_controller_label temperature_sensor_label pid
            (pid_state_monitoring_enabled lib config) none))

  unfoldable pub make_brew_profiler_config : Result (ConfigEntry lib)
  make_brew_profiler_config = ok (
      entry brew_profiler_label (
        brew_profiler brew_profiler_state_update_period pressure_controller_label
          flow_rate_controller_label valve_driver_label weight_sensor_label))

  unfoldable pub make_steam_controller_config : Result (ConfigEntry lib)
  make_steam_controller_config = ok (
      entry steam_controller_label (
        steam_controller (steam_pressure_threshold lib config) steam_temperature_threshold_offset
          (steam_refill_flow lib config) steam_controller_state_update_period
          steam_preheat_temperature_controller_label steam_active_temperature_controller_label
          temperature_sensor_label pressure_sensor_label internal_flow_rate_controller_label))

  unfoldable pub make_watchdog_config : Option WatchdogConfig
  make_watchdog_config =
      if watchdog_enabled lib config
      then some (record {
        watchdog_dev = watchdog_device lib config;
        timeout = watchdog_timeout lib config;
      })
      else none

  unfoldable pub component_configs : List (Result (ConfigEntry lib))
  component_configs =
      make_pressure_sensor_config
      ∷ make_temperature_sensor_config
      ∷ make_weight_sensor_config
      ∷ make_ac_sensor_config
      ∷ make_internal_flow_sensor_config
      ∷ make_button_config power_button_label (power_button_signal_pin lib config)
      ∷ make_button_config brew_button_label (brew_button_signal_pin lib config)
      ∷ make_button_config steam_button_label (steam_button_signal_pin lib config)
      ∷ make_led_config power_led_label (power_led_output_pin lib config)
      ∷ make_led_config brew_led_label (brew_led_output_pin lib config)
      ∷ make_led_config steam_led_label (steam_led_output_pin lib config)
      ∷ make_pump_driver_config
      ∷ make_heater_driver_config
      ∷ make_valve_driver_config
      ∷ make_pump_power_controller_config
      ∷ make_heater_power_controller_config
      ∷ make_pressure_controller_config
      ∷ make_flow_rate_controller_config
      ∷ make_internal_flow_rate_controller_config
      ∷ make_brew_temperature_controller_config
      ∷ make_steam_preheat_temperature_controller_config
      ∷ make_steam_active_temperature_controller_config
      ∷ make_brew_profiler_config
      ∷ make_steam_controller_config
      ∷ []

  unfoldable pub make : Result (DeviceConfig lib)
  unfolding component_configs
  make = do
    components ← in_order component_configs
    ok (record { components = components; watchdog = make_watchdog_config })
