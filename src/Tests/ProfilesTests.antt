-- ===== src/Tests/ProfilesTests.antt =====
-- The profile manager and the start of the daemon.
use openpressod.Prelude.{pos, false, ◌≡◌, ◌↔◌, refl, List}
use openpressod.Messages.{StepTarget, StepCondition, UserSettings}
use openpressod.Core.Sample.{core}
use openpressod.Results.{err, done, steps_while_brewing}
use openpressod.Files.{content, finished}
use openpressod.Machine
use openpressod.Profiles.{apply_brew_profile, save_profile, load_saved_profile, make}
use openpressod.Profiles.Valid.{IsValidProfile}
use openpressod.Profiles.Converts.{StepsAre, StopIs}
use openpressod.Profiles.Apply.{apply-IsValidProfile, apply_while_brewing, apply_done_iff}
use openpressod.Settings.{save_settings}
use openpressod.Daemon.{setup_brew_profile_manager, setup_user_settings_manager}
use openpressod.Daemon.Boot.{Boots, save-setup_both, setup-Boots_iff}
use openpressod.Tests.Fixtures.{cold, at, profiles, settings, espresso, json}
use openpressod.Tests.MachineTests.{brewing}

espresso-IsValidProfile : IsValidProfile espresso
espresso-IsValidProfile = record { steps = ((tt, tt), ((tt, tt), tt)); stop = tt }

apply-IsValidProfile_example :
    let (result, n) = apply_brew_profile (at 20000 0) profiles cold in
    (result ≡ done)
    × (l : List (StepTarget × StepCondition)) × (c : StepCondition) × StepsAre core espresso.steps l
    × StopIs core espresso.stop_condition c
    × (n.brew_profiler ≡ core.set_auto_stop_condition c (core.set_steps l cold.brew_profiler))
    × (core.target_temperature n.brew_temperature_controller ≡ pos 93000)
    × (n.power ≡ cold.power)
    × (n.steam ≡ cold.steam)
unfolding Machine.make
apply-IsValidProfile_example =
    apply-IsValidProfile (at 20000 0) profiles cold refl espresso-IsValidProfile

apply_while_brewing_example :
    let (result, n) = apply_brew_profile (at 95000 0) profiles brewing in
    (result ≡ err steps_while_brewing)
    × (n.brew_profiler ≡ brewing.brew_profiler)
    × (core.target_temperature n.brew_temperature_controller ≡ pos 93000)
apply_while_brewing_example = apply_while_brewing (at 95000 0) profiles brewing refl

apply_done_iff_example :
    ((apply_brew_profile (at 20000 0) profiles cold).0 ≡ done)
    ↔ ((core.is_brewing cold.brew_profiler ≡ false) × IsValidProfile espresso)
apply_done_iff_example = apply_done_iff (at 20000 0) profiles cold

setup-Boots_iff_example :
    Boots core
      (at 20000 0)
      cold
      (setup_brew_profile_manager json core (pos 95000) (pos 9000) (content "espresso"))
      settings
    ↔ ((load_saved_profile json (make core (pos 95000) (pos 9000) (content "espresso"))).0 ≡ done
        → IsValidProfile
            (load_saved_profile json
              (make core (pos 95000) (pos 9000) (content "espresso"))).1.current_profile)
unfolding Machine.make
setup-Boots_iff_example =
    setup-Boots_iff json (pos 95000) (pos 9000) (content "espresso") (at 20000 0) cold settings refl

save-setup_both_example :
    let u : UserSettings = record { steam_temperature = pos 150000 } in
    let (saved, k) = save_profile json espresso (λ x. finished (content x)) profiles in
    let (kept, l) = save_settings json u (λ x. finished (content x)) settings in
    (saved ≡ done)
    × (k.current_profile ≡ espresso)
    × ((setup_brew_profile_manager json core (pos 95000) (pos 9000) k.profile_file).current_profile
        ≡ espresso)
    × (kept ≡ done)
    × (l.current_settings ≡ u)
    × ((setup_user_settings_manager json (pos 155000) l.settings_file).current_settings ≡ u)
save-setup_both_example =
    save-setup_both core json espresso (record { steam_temperature = pos 150000 }) "espresso"
      "settings" profiles settings (pos 95000) (pos 9000) (pos 155000) (refl, refl) (refl, refl)
