-- ===== src/ConfigMaker/Labels.antt =====
-- src/config/libopenpresso_config_labels.hpp: the labels of the components.
use Prim.Native.String.{String}

abbrev pub pressure_sensor_label : String
pressure_sensor_label = "pressure_sensor"

abbrev pub temperature_sensor_label : String
temperature_sensor_label = "temperature_sensor"

abbrev pub ac_sensor_label : String
ac_sensor_label = "ac_sensor"

abbrev pub weight_sensor_label : String
weight_sensor_label = "weight_sensor"

abbrev pub internal_flow_sensor_label : String
internal_flow_sensor_label = "flow_sensor"

abbrev pub power_button_label : String
power_button_label = "power_button"

abbrev pub brew_button_label : String
brew_button_label = "brew_button"

abbrev pub steam_button_label : String
steam_button_label = "steam_button"

abbrev pub power_led_label : String
power_led_label = "power_led"

abbrev pub brew_led_label : String
brew_led_label = "brew_led"

abbrev pub steam_led_label : String
steam_led_label = "steam_led"

abbrev pub pump_driver_label : String
pump_driver_label = "pump_driver"

abbrev pub heater_driver_label : String
heater_driver_label = "heater_driver"

abbrev pub valve_driver_label : String
valve_driver_label = "valve_driver"

abbrev pub pump_power_controller_label : String
pump_power_controller_label = "pump_power_controller"

abbrev pub heater_power_controller_label : String
heater_power_controller_label = "heater_power_controller"

abbrev pub pressure_controller_label : String
pressure_controller_label = "pressure_controller"

abbrev pub flow_rate_controller_label : String
flow_rate_controller_label = "flow_rate_controller"

abbrev pub internal_flow_rate_controller_label : String
internal_flow_rate_controller_label = "internal_flow_rate_controller"

abbrev pub brew_temperature_controller_label : String
brew_temperature_controller_label = "brew_temperature_controller"

abbrev pub steam_preheat_temperature_controller_label : String
steam_preheat_temperature_controller_label = "steam_preheat_temperature_controller"

abbrev pub steam_active_temperature_controller_label : String
steam_active_temperature_controller_label = "steam_active_temperature_controller"

abbrev pub brew_profiler_label : String
brew_profiler_label = "brew_profiler"

abbrev pub steam_controller_label : String
steam_controller_label = "steam_controller"
