-- ===== src/Daemon/Starts.antt =====
-- When the daemon starts, and how.
use Prim.Native.String.{String}
use openpressod.Prelude.{Bool, true, false, ◌&&◌, ◌≡◌, ◌↔◌, refl, sym, ◌∙◌, arith}
use openpressod.Core.{Core, Readings}
use openpressod.Results.{Result, ok, err, done, >>=-returns}
use openpressod.Files.{File, Json}
use openpressod.Config.{ConfigLibrary}
use openpressod.Config.System.{log_level, brew_profile_path}
use openpressod.Config.Panel.{buttons_pull_mode}
use openpressod.Config.Boiler.{heater_ready_hysteresis_period, brew_temperature, brew_pressure}
use openpressod.ConfigMaker.Labels.{brew_profiler_label}
use openpressod.ConfigMaker.Components.{DeviceConfig}
use openpressod.ConfigMaker
use openpressod.ConfigMaker.Complete.{returns, all_present, required_keys, make-returns}
use openpressod.Machine
use openpressod.Profiles.Valid.{IsValidProfile}
use openpressod.Profiles.{BrewProfileManager, load_saved_profile}
use openpressod.Profiles
use openpressod.Status.{StatusManager}
use openpressod.Daemon.{boot}
use openpressod.Daemon.Boot.{setup-Boots_iff}
use openpressod.Daemon.Start.{
  Hardware, make_leds, make_state_manager, setup_logger, make_status_manager, profile_manager,
  settings_manager, buttons_config, build_server, start,
}

-- A call that returns, as the value that it returns.
abbrev pub Returns : {A : Type 0} → Result A → Type 0
Returns {A} x = (a : A) × (x ≡ ok a)

returns_iff : {A : Type 0} (x : Result A) → (returns x ≡ true) ↔ Returns x
returns_iff (ok a) = (λ h. (a, refl), λ h. refl)
returns_iff (err e) = (λ h. absurd (ground arith), λ h. absurd (ground arith))

&&_iff : (a b : Bool) → ((a && b) ≡ true) ↔ ((a ≡ true) × (b ≡ true))
&&_iff a b = (λ h. (ground arith, ground arith), λ h. ground arith)

setup_logger-returns :
    (lib : ConfigLibrary) (config : lib.Value)
    → (returns (setup_logger lib config) ≡ true) ↔ (returns (log_level lib config) ≡ true)
unfolding setup_logger
setup_logger-returns lib config = (λ h. ground arith, λ h. ground arith)

module _ (core : Core) (lib : ConfigLibrary) (config : lib.Value) (json : Json)
    (files : String → File) where
  -- The saved profile is one that can be applied, if one can be read.
  abbrev pub SavedProfileApplies : Type 0
  SavedProfileApplies =
      let (result, m) = load_saved_profile json (
        Profiles.make core (brew_temperature lib config) (brew_pressure lib config)
          (files (brew_profile_path lib config))) in
      result ≡ done → IsValidProfile m.current_profile

  make_status_manager-returns :
      (hw : Hardware core)
      → (returns (make_status_manager lib config (make_leds hw)) ≡ true)
        ↔ (returns (heater_ready_hysteresis_period lib config) ≡ true)
  unfolding make_status_manager
  make_status_manager-returns hw = (λ h. ground arith, λ h. ground arith)

  boot-Returns :
      (r : Readings) (hw : Hardware core) (status : StatusManager core)
      → core.is_brewing (hw.profiler brew_profiler_label) ≡ false
      → Returns (
          boot r
            (make_state_manager hw status)
            (profile_manager lib config json core files)
            (settings_manager lib config json files))
        ↔ SavedProfileApplies
  unfolding profile_manager make_state_manager Machine.make
  boot-Returns r hw status idle =
      setup-Boots_iff json (brew_temperature lib config) (brew_pressure lib config)
        (files (brew_profile_path lib config)) r (make_state_manager hw status)
        (settings_manager lib config json files) idle

  -- If libopenpresso's new brew profiler does not brew, the constructor of the daemon throws nothing
  -- exactly when the log level is known, every required key is there, the pull mode is known,
  -- libopenpresso makes its core of the description, the hysteresis period is not negative, and the
  -- saved profile, if one can be read, is known in every step and in its stop condition.
  pub start-Returns_iff :
      (get_core : DeviceConfig lib → Result (Hardware core)) (r : Readings)
      → ((c : DeviceConfig lib) (hw : Hardware core)
          → get_core c ≡ ok hw
          → core.is_brewing (hw.profiler brew_profiler_label) ≡ false)
      → Returns (start lib config get_core json files r) ↔ (
          (returns (log_level lib config) ≡ true)
          × (all_present lib config required_keys ≡ true)
          × (returns (buttons_pull_mode lib config) ≡ true)
          × ((c : DeviceConfig lib) → ConfigMaker.make lib config ≡ ok c → Returns (get_core c))
          × (returns (heater_ready_hysteresis_period lib config) ≡ true)
          × SavedProfileApplies)
  unfolding start
  start-Returns_iff get_core r idle = (
    λ (d, h).
        let (logger, h1, e1) = >>=-returns (setup_logger lib config) _ d h in
        let (device, h2, e2) = >>=-returns (ConfigMaker.make lib config) _ d h1 in
        let (hw, h3, e3) = >>=-returns (get_core device) _ d h2 in
        let (status, h4, e4) = >>=-returns (make_status_manager lib config (make_leds hw)) _ d h3 in
        let (dispatcher, h5, e5) =
          >>=-returns
            (boot r (make_state_manager hw status) (profile_manager lib config json core files)
              (settings_manager lib config json files))
            _ d h4 in
        let made = (returns_iff (ConfigMaker.make lib config)).1 (device, e2) in
        let keys = (&&_iff _ _).0 (sym (make-returns lib config) ∙ made) in
        (
          (setup_logger-returns lib config).0 ((returns_iff _).1 (logger, e1)),
          keys.0,
          keys.1,
          λ c same. (hw, ground arith),
          (make_status_manager-returns hw).0 ((returns_iff _).1 (status, e4)),
          (boot-Returns r hw status (idle device hw e3)).0 (dispatcher, e5),
        ),
    λ (level, keys, pull, opens, period, applies).
        let made = make-returns lib config ∙ (&&_iff _ _).1 (keys, pull) in
        let (device, e2) = (returns_iff _).0 made in
        let (hw, e3) = opens device e2 in
        let (logger, e1) = (returns_iff _).0 ((setup_logger-returns lib config).1 level) in
        let (status, e4) = (returns_iff _).0 ((make_status_manager-returns hw).1 period) in
        let (dispatcher, e5) = (boot-Returns r hw status (idle device hw e3)).1 applies in
        (
          record {
            dispatcher = dispatcher;
            buttons = buttons_config lib config;
            listening_ports = build_server lib config;
          },
          ground arith,
        ),
  )
