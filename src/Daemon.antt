-- ===== src/Daemon.antt =====
-- src/daemon/daemon.cpp: how the managers are set up from their files, and the part of the constructor
-- that applies them to the state manager and makes the dispatcher. The whole constructor is in Start.
pub mod Boot
pub mod Start
pub mod Starts
pub mod Started
use openpressod.Prelude.{ℤ}
use openpressod.Core.{Core, Readings}
use openpressod.Results.{Result, ok, err, Done}
use openpressod.Files.{File, Json}
use openpressod.Machine.{StateManager}
use openpressod.Profiles.{BrewProfileManager}
use openpressod.Profiles
use openpressod.Settings.{UserSettingsManager}
use openpressod.Settings
use openpressod.Dispatcher.{Dispatcher}
use openpressod.Dispatcher

-- The handlers of the two `try` blocks.
unfoldable pub profile_or_default : Done × BrewProfileManager → BrewProfileManager
profile_or_default (ok a, m) = m
profile_or_default (err e, m) = Profiles.load_default_profile m

unfoldable pub settings_or_default : Done × UserSettingsManager → UserSettingsManager
settings_or_default (ok a, m) = m
settings_or_default (err e, m) = Settings.load_default_settings m

unfoldable pub setup_brew_profile_manager :
    Json → (core : Core) → (brew_temperature brew_pressure : ℤ) → File → BrewProfileManager
unfolding profile_or_default
setup_brew_profile_manager json core brew_temperature brew_pressure file =
    profile_or_default
      (Profiles.load_saved_profile json (Profiles.make core brew_temperature brew_pressure file))

unfoldable pub setup_user_settings_manager :
    Json → (steam_temperature : ℤ) → File → UserSettingsManager
unfolding settings_or_default
setup_user_settings_manager json steam_temperature file =
    settings_or_default (Settings.load_saved_settings json (Settings.make steam_temperature file))

-- The constructor, once the managers are made; an exception leaves it.
unfoldable pub boot :
    {core : Core}
    → Readings
    → StateManager core
    → BrewProfileManager
    → UserSettingsManager
    → Result (Dispatcher core)
boot r s p u =
    let (result, m) = Profiles.apply_brew_profile r p s in
    elim result [ ok a ↦ ok (Dispatcher.make (Settings.apply_settings r u m) p u) | err e ↦ err e ]
