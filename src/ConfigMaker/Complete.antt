-- ===== src/ConfigMaker/Complete.antt =====
-- Which configuration files are enough.
use Prim.Native.String.{String}
use openpressod.Prelude.{Bool, true, false, ◌&&◌, none, some, List, [], ◌∷◌, ◌≡◌, refl, ◌∙◌, arith}
use openpressod.Results.{Result, ok, err, ◌>>=◌}
use openpressod.Config.{ConfigLibrary, Kind, natural, integer, real, required}
use openpressod.Config.System.{mains_frequency, mains_zero_cross_pin}
use openpressod.Config.Panel.{
  buttons_pull_mode, power_button_signal_pin, brew_button_signal_pin, steam_button_signal_pin,
  power_led_output_pin, brew_led_output_pin, steam_led_output_pin,
}
use openpressod.Config.Sensors.{
  pressure_sensor_signal_pin, weight_sensor_scale, weight_sensor_signal_pin,
  temperature_sensor_signal_pin,
}
use openpressod.Config.Boiler.{
  flow_controller_multiplier, pump_output_pin, pump_volume_per_pulse, pump_stall_pressure,
  valve_output_pin, heater_output_pin, brew_temperature_controller_pid_settings,
  steam_preheat_temperature_controller_pid_settings, steam_pid_settings,
  steam_active_temperature_controller_pid_settings,
}
use openpressod.ConfigMaker.{
  in_order, make, component_configs, make_pressure_sensor_config, make_temperature_sensor_config,
  make_weight_sensor_config, make_ac_sensor_config, make_internal_flow_sensor_config,
  make_button_config, make_led_config, make_pump_driver_config, make_heater_driver_config,
  make_valve_driver_config, make_pump_power_controller_config, make_heater_power_controller_config,
  make_pressure_controller_config, make_flow_rate_controller_config,
  make_internal_flow_rate_controller_config, make_brew_temperature_controller_config,
  make_steam_preheat_temperature_controller_config, make_steam_active_temperature_controller_config,
  make_brew_profiler_config, make_steam_controller_config,
}

-- The keys that the manual (docs/pages/openpressod.conf.5.md) calls required, in its order, with the
-- type that it gives.
abbrev pub required_keys : List (Kind × List String)
required_keys =
    (natural, "global" ∷ "mains_frequency" ∷ [])
    ∷ (natural, "global" ∷ "mains_zc_pin" ∷ [])
    ∷ (natural, "buttons" ∷ "power_pin" ∷ [])
    ∷ (natural, "buttons" ∷ "brew_pin" ∷ [])
    ∷ (natural, "buttons" ∷ "steam_pin" ∷ [])
    ∷ (natural, "leds" ∷ "power_pin" ∷ [])
    ∷ (natural, "leds" ∷ "brew_pin" ∷ [])
    ∷ (natural, "leds" ∷ "steam_pin" ∷ [])
    ∷ (natural, "pressure_sensor" ∷ "signal_pin" ∷ [])
    ∷ (natural, "weight_sensor" ∷ "scale" ∷ [])
    ∷ (natural, "weight_sensor" ∷ "signal_pin" ∷ [])
    ∷ (natural, "temperature_sensor" ∷ "signal_pin" ∷ [])
    ∷ (natural, "pump" ∷ "control_pin" ∷ [])
    ∷ (real, "pump" ∷ "flow_controller_multiplier" ∷ [])
    ∷ (integer, "pump" ∷ "volume_per_pulse" ∷ [])
    ∷ (integer, "pump" ∷ "stall_pressure" ∷ [])
    ∷ (natural, "valve" ∷ "control_pin" ∷ [])
    ∷ (natural, "heater" ∷ "control_pin" ∷ [])
    ∷ (real, "brew" ∷ "pid_settings" ∷ "p" ∷ [])
    ∷ (real, "brew" ∷ "pid_settings" ∷ "d" ∷ [])
    ∷ (real, "brew" ∷ "pid_settings" ∷ "d_relax" ∷ [])
    ∷ (real, "brew" ∷ "pid_settings" ∷ "i" ∷ [])
    ∷ (real, "brew" ∷ "pid_settings" ∷ "i_relax" ∷ [])
    ∷ (real, "brew" ∷ "pid_settings" ∷ "f" ∷ [])
    ∷ (real, "brew" ∷ "pid_settings" ∷ "w" ∷ [])
    ∷ (real, "brew" ∷ "pid_settings" ∷ "w_decay" ∷ [])
    ∷ (real, "steam" ∷ "preheat_pid_settings" ∷ "p" ∷ [])
    ∷ (real, "steam" ∷ "preheat_pid_settings" ∷ "d" ∷ [])
    ∷ (real, "steam" ∷ "preheat_pid_settings" ∷ "d_relax" ∷ [])
    ∷ (real, "steam" ∷ "preheat_pid_settings" ∷ "i" ∷ [])
    ∷ (real, "steam" ∷ "preheat_pid_settings" ∷ "i_relax" ∷ [])
    ∷ (real, "steam" ∷ "active_pid_settings" ∷ "p" ∷ [])
    ∷ (real, "steam" ∷ "active_pid_settings" ∷ "d" ∷ [])
    ∷ (real, "steam" ∷ "active_pid_settings" ∷ "d_relax" ∷ [])
    ∷ (real, "steam" ∷ "active_pid_settings" ∷ "i" ∷ [])
    ∷ (real, "steam" ∷ "active_pid_settings" ∷ "i_relax" ∷ [])
    ∷ []

abbrev pub returns : {A : Type 0} → Result A → Bool
returns (ok a) = true
returns (err e) = false

abbrev pub all_return : {A : Type 0} → List (Result A) → Bool
all_return [] = true
all_return (r ∷ l) = returns r && all_return l

in_order-returns : {A : Type 0} (l : List (Result A)) → returns (in_order l) ≡ all_return l
unfolding in_order
in_order-returns [] = refl
in_order-returns (r ∷ l) = ground (arith, in_order-returns l)

returns-map : {A B : Type 0} (r : Result A) (f : A → B) → returns (r >>= λ a. ok (f a)) ≡ returns r
returns-map (ok a) f = refl
returns-map (err e) f = refl

module _ (lib : ConfigLibrary) (config : lib.Value) where
  abbrev pub present : (k : Kind) → List String → Bool
  present k path = elim (lib.find k config path) [ none ↦ false | some a ↦ true ]

  abbrev pub all_present : List (Kind × List String) → Bool
  all_present [] = true
  all_present ((k, path) ∷ l) = present k path && all_present l

  returns-steam_pid :
      (pid : String)
      → returns (steam_pid_settings lib config pid) ≡ (
          present real ("steam" ∷ pid ∷ "p" ∷ [])
          && present real ("steam" ∷ pid ∷ "d" ∷ [])
          && present real ("steam" ∷ pid ∷ "d_relax" ∷ [])
          && present real ("steam" ∷ pid ∷ "i" ∷ [])
          && present real ("steam" ∷ pid ∷ "i_relax" ∷ []))
  unfolding steam_pid_settings required
  returns-steam_pid pid = ground arith

  returns-brew_pid : returns (brew_temperature_controller_pid_settings lib config) ≡ (
      present real ("brew" ∷ "pid_settings" ∷ "p" ∷ [])
      && present real ("brew" ∷ "pid_settings" ∷ "d" ∷ [])
      && present real ("brew" ∷ "pid_settings" ∷ "d_relax" ∷ [])
      && present real ("brew" ∷ "pid_settings" ∷ "i" ∷ [])
      && present real ("brew" ∷ "pid_settings" ∷ "i_relax" ∷ [])
      && present real ("brew" ∷ "pid_settings" ∷ "f" ∷ [])
      && present real ("brew" ∷ "pid_settings" ∷ "w" ∷ [])
      && present real ("brew" ∷ "pid_settings" ∷ "w_decay" ∷ []))
  unfolding brew_temperature_controller_pid_settings required
  returns-brew_pid = ground arith

  -- The components that read something, one after another.
  returns-components :
      all_return (component_configs lib config)
      ≡ (all_present required_keys && returns (buttons_pull_mode lib config))
  unfolding component_configs make_pressure_sensor_config make_temperature_sensor_config
      make_weight_sensor_config make_ac_sensor_config make_internal_flow_sensor_config
      make_button_config make_led_config make_pump_driver_config make_heater_driver_config
      make_valve_driver_config make_pump_power_controller_config make_heater_power_controller_config
      make_pressure_controller_config make_flow_rate_controller_config
      make_internal_flow_rate_controller_config make_brew_temperature_controller_config
      make_steam_preheat_temperature_controller_config
      make_steam_active_temperature_controller_config make_brew_profiler_config
      make_steam_controller_config required mains_frequency mains_zero_cross_pin
      power_button_signal_pin brew_button_signal_pin steam_button_signal_pin power_led_output_pin
      brew_led_output_pin steam_led_output_pin pressure_sensor_signal_pin weight_sensor_scale
      weight_sensor_signal_pin temperature_sensor_signal_pin flow_controller_multiplier
      pump_output_pin pump_volume_per_pulse pump_stall_pressure valve_output_pin heater_output_pin
      steam_preheat_temperature_controller_pid_settings
      steam_active_temperature_controller_pid_settings
  returns-components = ground (
    arith,
    returns-brew_pid,
    returns-steam_pid "preheat_pid_settings",
    returns-steam_pid "active_pid_settings",
  )

-- A description is made, and no exception thrown, exactly if every key that the manual calls required
-- is there with its type, and the pull mode, if it is given, is the name of one.
pub make-returns :
    (lib : ConfigLibrary) (config : lib.Value)
    → returns (make lib config)
      ≡ (all_present lib config required_keys && returns (buttons_pull_mode lib config))
unfolding make
make-returns lib config =
    returns-map (in_order (component_configs lib config)) _
    ∙ in_order-returns (component_configs lib config)
    ∙ returns-components lib config
