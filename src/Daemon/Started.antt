-- ===== src/Daemon/Started.antt =====
-- The machine that the daemon starts with.
use Prim.Native.String.{String}
use mathlib.Core.Path.{subst}
use openpressod.Prelude.{true, false, [], ◌≡◌, ap, refl, arith}
use openpressod.Core.{Core, Readings}
use openpressod.Results.{Result, ok, >>=-returns}
use openpressod.Files.{File, Json}
use openpressod.Config.{ConfigLibrary}
use openpressod.Config.Boiler.{
  heater_ready_hysteresis_period, brew_temperature_window, steam_temperature_window,
}
use openpressod.ConfigMaker.Labels.{
  brew_profiler_label, brew_temperature_controller_label, steam_controller_label,
  steam_button_label, weight_sensor_label,
}
use openpressod.ConfigMaker.Components.{DeviceConfig}
use openpressod.ConfigMaker
use openpressod.Status.{StatusManager}
use openpressod.Status.Consistent.{Dark}
use openpressod.Machine.{StateManager}
use openpressod.Machine
use openpressod.Machine.Safety.{IsSafe, set_steam_temperature-IsSafe, set_callback-IsSafe}
use openpressod.Machine.Reach.{AtRest, make-IsSafe}
use openpressod.Machine.Publishing.{set_callback-installed}
use openpressod.Machine.Behaviour.{set_steam_temperature-keeps, set_callback-keeps}
use openpressod.Profiles.{BrewProfileManager, apply_brew_profile}
use openpressod.Profiles.Apply.{apply-IsValidProfile, apply_brew_profile-IsSafe}
use openpressod.Settings.{UserSettingsManager, apply_settings}
use openpressod.Dispatcher.{Dispatcher}
use openpressod.Dispatcher
use openpressod.Daemon.{boot}
use openpressod.Daemon.Boot.{Boots-iff}
use openpressod.Daemon.Start.{
  Hardware, Daemon, make_leds, make_state_manager, setup_logger, make_status_manager,
  profile_manager, settings_manager, start,
}

pub ok_injective : {A : Type 0} {x y : A} → ok x ≡ ok y → x ≡ y
ok_injective h = ground arith

-- New components: no brew, no heater on, and every light off.
pub record IsFresh {core : Core} (hw : Hardware core) : Type 0 where
  pub at_rest :
      AtRest core
        (hw.profiler brew_profiler_label)
        (hw.temperature_controller brew_temperature_controller_label)
        (hw.temperature_controller steam_controller_label)
  pub dark : Dark (make_leds hw)

-- Off, safe, with no subscriber, and set to the temperatures of its profile and its settings.
pub record IsReady {core : Core} (d : Dispatcher core) : Type 0 where
  pub safe : IsSafe d.state_manager
  pub off : d.state_manager.power ≡ false
  pub not_brewing : core.is_brewing d.state_manager.brew_profiler ≡ false
  pub installed : d.state_manager.status_manager.callback_installed ≡ true
  pub no_sinks : d.events_sinks ≡ []
  pub brew_target :
      core.target_temperature d.state_manager.brew_temperature_controller
      ≡ d.brew_profile_manager.current_profile.temperature
  pub steam_target :
      core.target_temperature d.state_manager.steam_controller
      ≡ d.user_settings_manager.current_settings.steam_temperature

module _ {core : Core} where
  boot-IsReady :
      (r : Readings) (s : StateManager core) (p : BrewProfileManager) (u : UserSettingsManager)
      (d : Dispatcher core)
      → boot r s p u ≡ ok d
      → IsSafe s
      → s.power ≡ false
      → IsReady d
  unfolding boot Dispatcher.make apply_settings
  boot-IsReady r s p u d h v off =
      let (idle, known) = (Boots-iff r s p u).0 (d, h) in
      let n = (apply_brew_profile r p s).1 in
      let t = u.current_settings.steam_temperature in
      let m = apply_settings r u n in
      let applied = apply-IsValidProfile r p s idle known in
      let safe =
        set_callback-IsSafe m
          (set_steam_temperature-IsSafe t r n (apply_brew_profile-IsSafe r p s v)) in
      let steam = set_steam_temperature-keeps t r n in
      let called = set_callback-keeps m in
      let same : Dispatcher.make m p u ≡ d = ground arith in
      subst IsReady same (record {
        safe = safe;
        off = ground arith;
        not_brewing = ground (arith, core.is_brewing-set_steps, core.is_brewing-set_auto_stop);
        installed = set_callback-installed m;
        no_sinks = refl;
        brew_target = ground arith;
        steam_target = ground arith;
      })

  make_state_manager-IsSafe :
      (lib : ConfigLibrary) (config : lib.Value) (hw : Hardware core) (status : StatusManager core)
      → make_status_manager lib config (make_leds hw) ≡ ok status
      → IsFresh hw
      → IsSafe (make_state_manager hw status)
  unfolding make_status_manager make_state_manager
  make_state_manager-IsSafe lib config hw status h v =
      let (period, made, e) = >>=-returns (heater_ready_hysteresis_period lib config) _ status h in
      let same = ok_injective made in
      subst (λ s. IsSafe (make_state_manager hw s)) same
        (make-IsSafe (hw.button_state steam_button_label) (hw.profiler brew_profiler_label)
          (hw.temperature_controller brew_temperature_controller_label)
          (hw.temperature_controller steam_controller_label) (hw.scale weight_sensor_label)
          (brew_temperature_window lib config) (steam_temperature_window lib config) period
          (make_leds hw) v.at_rest v.dark)

  -- Whatever the configuration and the files, a daemon whose constructor throws nothing, on components
  -- that are new, holds a machine that is off, does not brew and meets the safety invariant, has no
  -- subscribers, and has set the two target temperatures of its current profile and settings.
  pub start-IsReady :
      (lib : ConfigLibrary) (config : lib.Value) (json : Json) (files : String → File)
      (get_core : DeviceConfig lib → Result (Hardware core)) (r : Readings) (d : Daemon core)
      → ((c : DeviceConfig lib) (hw : Hardware core) → get_core c ≡ ok hw → IsFresh hw)
      → start lib config get_core json files r ≡ ok d
      → IsReady d.dispatcher
  unfolding start make_state_manager Machine.make
  start-IsReady lib config json files get_core r d fresh h =
      let (logger, h1, e1) = >>=-returns (setup_logger lib config) _ d h in
      let (device, h2, e2) = >>=-returns (ConfigMaker.make lib config) _ d h1 in
      let (hw, h3, e3) = >>=-returns (get_core device) _ d h2 in
      let (status, h4, e4) = >>=-returns (make_status_manager lib config (make_leds hw)) _ d h3 in
      let m = make_state_manager hw status in
      let (dispatcher, h5, e5) =
        >>=-returns
          (boot r m (profile_manager lib config json core files)
            (settings_manager lib config json files))
          _ d h4 in
      let safe = make_state_manager-IsSafe lib config hw status e4 (fresh device hw e3) in
      let same = ap (λ x. x.dispatcher) (ok_injective h5) in
      subst IsReady same (
        boot-IsReady r m (profile_manager lib config json core files)
          (settings_manager lib config json files) dispatcher e5 safe refl)
