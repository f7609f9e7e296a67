-- ===== src/ConfigMaker/Clients.antt =====
-- What the daemon's classes ask libopenpresso for, by label and kind (src/leds/leds_handler.cpp,
-- src/state_manager/*.cpp, src/buttons/*.cpp and src/service/metrics_stream_reactor.cpp).
use openpressod.Prelude.{List, [], ◌∷◌, ◌++◌}
use openpressod.ConfigMaker.Labels.{
  pressure_sensor_label, temperature_sensor_label, weight_sensor_label, power_button_label,
  brew_button_label, steam_button_label, power_led_label, brew_led_label, steam_led_label,
  brew_temperature_controller_label, steam_preheat_temperature_controller_label,
  steam_active_temperature_controller_label, brew_profiler_label, steam_controller_label,
}
use openpressod.ConfigMaker.Components.{Label}
use openpressod.ConfigMaker.Wiring.{
  Role, pressure_source, temperature_source, weight_source, digital_input, digital_output,
  temperature_control, profiler,
}

abbrev pub leds_handler_uses : List (Label × Role)
leds_handler_uses =
    (power_led_label, digital_output)
    ∷ (brew_led_label, digital_output)
    ∷ (steam_led_label, digital_output)
    ∷ []

abbrev pub state_manager_uses : List (Label × Role)
state_manager_uses =
    (steam_button_label, digital_input)
    ∷ (brew_profiler_label, profiler)
    ∷ (brew_temperature_controller_label, temperature_control)
    ∷ (steam_controller_label, temperature_control)
    ∷ (weight_sensor_label, weight_source)
    ∷ []

abbrev pub status_manager_uses : List (Label × Role)
status_manager_uses = (temperature_sensor_label, temperature_source) ∷ []

abbrev pub buttons_uses : List (Label × Role)
buttons_uses =
    (power_button_label, digital_input)
    ∷ (brew_button_label, digital_input)
    ∷ (steam_button_label, digital_input)
    ∷ []

abbrev pub metrics_uses : List (Label × Role)
metrics_uses =
    (pressure_sensor_label, pressure_source)
    ∷ (temperature_sensor_label, temperature_source)
    ∷ (weight_sensor_label, weight_source)
    ∷ (brew_temperature_controller_label, temperature_control)
    ∷ (steam_preheat_temperature_controller_label, temperature_control)
    ∷ (steam_active_temperature_controller_label, temperature_control)
    ∷ []

abbrev pub daemon_uses : List (Label × Role)
daemon_uses =
    leds_handler_uses ++ state_manager_uses ++ status_manager_uses ++ buttons_uses ++ metrics_uses
