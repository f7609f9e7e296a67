-- ===== src/ConfigMaker/Components.antt =====
-- The component descriptions of libopenpresso (component_config.hpp, outside this repository), by the
-- fields that src/config/libopenpresso_config_maker.cpp sets.
use Prim.Native.String.{String}
use openpressod.Prelude.{ℕ, ℤ, Bool, Option, List}
use openpressod.Messages.{Float}
use openpressod.Config.{ConfigLibrary}
use openpressod.Config.Boiler.{PidSettings}

pub record PinAddr : Type 0 where
  pub chip : String
  pub pin : ℕ

pub record I2cAddr : Type 0 where
  pub bus : String
  pub dev : ℕ

-- A label is the name of another component.
abbrev pub Label : Type 0
Label = String

pub data Component (lib : ConfigLibrary) : Type 0 where
  ads1115_pressure_sensor : (addr : I2cAddr) (signal_pin : PinAddr) → Component lib
  max31856_temperature_sensor :
      (spi_dev : String) (signal_pin : PinAddr) (watchdog_min_valid watchdog_max_valid : ℤ)
      → Component lib
  nau7802_weight_sensor :
      (addr : I2cAddr) (signal_pin : PinAddr) (scale : ℕ) (flow_rate_smoothing_time : ℤ)
      → Component lib
  ac_zero_cross_sensor : (signal_pin : PinAddr) → Component lib
  vibro_pump_flow_sensor :
      (pressure_sensor pump_pulse_controller : Label) (volume_per_pulse pump_stall_pressure : ℤ)
      → Component lib
  logical_input_pin :
      (addr : PinAddr) (debounce_period : ℤ) (pull : lib.PinPull) (inverted : Bool) → Component lib
  logical_output_pin : (addr : PinAddr) (init_state inverted : Bool) → Component lib
  pulse_controlled_device : (pulse_pin : PinAddr) (ac_zero_cross : Label) → Component lib
  pulse_power_controller : (pulse_device : Label) (duty_cycle : ℕ) → Component lib
  pulse_pressure_controller : (pulse_controller sensor : Label) → Component lib
  integral_flow_rate_controller :
      (power_controller sensor : Label) (feedback_coef : Float) → Component lib
  vibro_pump_flow_controller : (pump_flow_sensor : Label) (mains_frequency : ℕ) → Component lib
  temperature_pid_controller :
      (power_controller sensor : Label) (pid_settings : PidSettings) (enable_pid_state_dump : Bool)
      (flow_counter : Option Label)
      → Component lib
  brew_profiler :
      (update_period : ℤ)
      (pressure_controller flow_controller valve_controller weight_sensor : Label)
      → Component lib
  steam_controller :
      (pressure_threshold temperature_relative_threshold refill_flow refill_update_period : ℤ)
      (preheat_controller steaming_temperature_controller temperature_sensor : Label)
      (pressure_sensor flow_rate_controller : Label)
      → Component lib

pub record ConfigEntry (lib : ConfigLibrary) : Type 0 where
  pub label : Label
  pub component : Component lib

pub record WatchdogConfig : Type 0 where
  pub watchdog_dev : String
  pub timeout : ℤ

pub record DeviceConfig (lib : ConfigLibrary) : Type 0 where
  pub components : List (ConfigEntry lib)
  pub watchdog : Option WatchdogConfig
