-- ===== src/Daemon/Start.antt =====
-- src/daemon/daemon.cpp: the constructor, from the configuration to a daemon that runs, with the
-- constructors that read the configuration (src/state_manager/status_manager.cpp, state_manager.cpp,
-- src/leds/leds_handler.cpp, src/buttons/buttons_callback_registrator.cpp) and `buildServer` of
-- src/service/service_manager.cpp. toml11 has read the configuration file, and `get_core` is
-- libopenpresso::getCore, which may throw. spdlog's own state is left out.
use Prim.Native.String.{String, ◌++◌}
use openpressod.Prelude.{Bool, List, [], ◌∷◌, if◌then◌else◌}
use openpressod.Core.{Core, Readings}
use openpressod.Results.{Result, ok, ◌>>=◌}
use openpressod.Files.{File, Json}
use openpressod.Config.{ConfigLibrary}
use openpressod.Config.System.{
  log_level, log_message_pattern, brew_profile_path, user_settings_path, socket_path, tcp_enable,
  tcp_bind_address,
}
use openpressod.Config.Panel.{power_button_bistable, brew_button_bistable, steam_button_bistable}
use openpressod.Config.Boiler.{
  heater_ready_hysteresis_period, brew_temperature, brew_pressure, brew_temperature_window,
  steam_temperature, steam_temperature_window,
}
use openpressod.ConfigMaker.Components.{Label, DeviceConfig}
use openpressod.ConfigMaker.Labels.{
  power_led_label, brew_led_label, steam_led_label, steam_button_label, brew_profiler_label,
  brew_temperature_controller_label, steam_controller_label, weight_sensor_label,
}
use openpressod.ConfigMaker
use openpressod.Leds.{LedsHandler}
use openpressod.Leds
use openpressod.Status.{StatusManager}
use openpressod.Status
use openpressod.Machine.{StateManager}
use openpressod.Machine
use openpressod.Profiles.{BrewProfileManager}
use openpressod.Settings.{UserSettingsManager}
use openpressod.Dispatcher.{Dispatcher}
use openpressod.Buttons.{ButtonsConfig}
use openpressod.Daemon.{setup_brew_profile_manager, setup_user_settings_manager, boot}

-- The components that the core hands out, by their labels.
pub record Hardware (core : Core) : Type 0 where
  pub logical_output : Label → core.Output
  pub button_state : Label → Bool
  pub profiler : Label → core.Profiler
  pub temperature_controller : Label → core.Controller
  pub scale : Label → core.Scale

-- What the daemon holds.
pub record Daemon (core : Core) : Type 0 where
  pub dispatcher : Dispatcher core
  pub buttons : ButtonsConfig
  pub listening_ports : List String

module _ {core : Core} (hardware : Hardware core) where
  open hardware use {logical_output, button_state, profiler, temperature_controller, scale}

  unfoldable pub make_leds : LedsHandler core
  make_leds =
      Leds.make (logical_output power_led_label) (logical_output brew_led_label)
        (logical_output steam_led_label)

  unfoldable pub make_state_manager : StatusManager core → StateManager core
  make_state_manager status =
      Machine.make (button_state steam_button_label) (profiler brew_profiler_label)
        (temperature_controller brew_temperature_controller_label)
        (temperature_controller steam_controller_label) (scale weight_sensor_label) status

module _ (lib : ConfigLibrary) (config : lib.Value) where
  -- The level and the pattern that spdlog gets.
  unfoldable pub setup_logger : Result (lib.LogLevel × String)
  setup_logger = do level ← log_level lib config; ok (level, log_message_pattern lib config)

  unfoldable pub make_status_manager :
      {core : Core} → LedsHandler core → Result (StatusManager core)
  make_status_manager leds = do
    period ← heater_ready_hysteresis_period lib config
    ok (
        Status.make (brew_temperature_window lib config) (steam_temperature_window lib config)
          period leds)

  unfoldable pub profile_manager : Json → Core → (String → File) → BrewProfileManager
  profile_manager json core files =
      setup_brew_profile_manager json core (brew_temperature lib config) (brew_pressure lib config)
        (files (brew_profile_path lib config))

  unfoldable pub settings_manager : Json → (String → File) → UserSettingsManager
  settings_manager json files =
      setup_user_settings_manager json (steam_temperature lib config)
        (files (user_settings_path lib config))

  unfoldable pub buttons_config : ButtonsConfig
  buttons_config = record {
    power_button_bistable = power_button_bistable lib config;
    brew_button_bistable = brew_button_bistable lib config;
    steam_button_bistable = steam_button_bistable lib config;
  }

  -- The addresses that `buildServer` adds.
  unfoldable pub build_server : List String
  build_server =
      ("unix:" ++ socket_path lib config)
      ∷ (if tcp_enable lib config then tcp_bind_address lib config ∷ [] else [])

  unfoldable pub start :
      {core : Core}
      → (get_core : DeviceConfig lib → Result (Hardware core)) → Json
      → (files : String → File) → Readings
      → Result (Daemon core)
  start {core} get_core json files r = do
    logger ← setup_logger
    device_config ← ConfigMaker.make lib config
    hardware ← get_core device_config
    status ← make_status_manager (make_leds hardware)
    dispatcher ←
        boot r (make_state_manager hardware status) (profile_manager json core files)
          (settings_manager json files)
    ok (record {
      dispatcher = dispatcher;
      buttons = buttons_config;
      listening_ports = build_server;
    })
