-- ===== src/Settings.antt =====
-- src/state_manager/user_settings_manager.hpp and user_settings_manager.cpp: the user settings, their
-- file, and how they are handed to the state manager. Log messages are left out.
use Prim.Native.String.{String}
use openpressod.Prelude.{ℤ, pos, Bool, none, some, if◌then◌else◌}
use openpressod.Messages.{UserSettings}
use openpressod.Core.{Core, Readings}
use openpressod.Results.{
  err, Done, done, cannot_open_to_read, cannot_read, cannot_deserialize, cannot_serialize,
  cannot_open_to_write, cannot_write,
}
use openpressod.Files.{File, unreadable, broken, content, Write, refused, failed, finished, Json}
use openpressod.Machine.{StateManager, set_steam_temperature}

-- `settings_file` is the file at `m_settingsPath`.
pub record UserSettingsManager : Type 0 where
  pub settings_file : File
  pub current_settings : UserSettings
  pub default_settings : UserSettings

-- `steamTemperature()` of the configuration.
pub make_default_settings : ℤ → UserSettings
make_default_settings steam_temperature = record { steam_temperature = steam_temperature }

-- The constructor.
unfoldable pub make : (steam_temperature : ℤ) → File → UserSettingsManager
unfolding make_default_settings
make steam_temperature file = record {
  settings_file = file;
  current_settings = record { steam_temperature = pos 0 };
  default_settings = make_default_settings steam_temperature;
}

unfoldable pub get_settings : UserSettingsManager → UserSettings
get_settings m = m.current_settings

pub load_default_settings : UserSettingsManager → UserSettingsManager
load_default_settings m = record m { current_settings = m.default_settings }

module _ (json : Json) where
  unfoldable pub parsed : Bool × UserSettings → UserSettingsManager → Done × UserSettingsManager
  parsed (good, u) m =
      (if good then done else err cannot_deserialize, record m { current_settings = u })

  unfoldable pub read_settings : File → UserSettingsManager → Done × UserSettingsManager
  unfolding parsed
  read_settings unreadable m = (err cannot_open_to_read, m)
  read_settings broken m = (err cannot_read, m)
  read_settings (content s) m = parsed (json.parse_settings s) m

  unfoldable pub load_saved_settings : UserSettingsManager → Done × UserSettingsManager
  unfolding read_settings
  load_saved_settings m = read_settings m.settings_file m

  unfoldable pub write_settings : Write → UserSettingsManager → Done × UserSettingsManager
  write_settings refused m = (err cannot_open_to_write, m)
  write_settings (failed f) m = (err cannot_write, record m { settings_file = f })
  write_settings (finished f) m = (done, record m { settings_file = f })

  -- `w` tells how the write of the printed text goes.
  unfoldable pub save_settings :
      UserSettings → (String → Write) → UserSettingsManager → Done × UserSettingsManager
  unfolding write_settings
  save_settings u w m =
      let n = record m { current_settings = u } in
      elim (json.print_settings u) [
        | none ↦ (err cannot_serialize, n)
        | some s ↦ write_settings (w s) n
      ]

unfoldable pub apply_settings :
    {core : Core} → Readings → UserSettingsManager → StateManager core → StateManager core
apply_settings r m s = set_steam_temperature m.current_settings.steam_temperature r s
