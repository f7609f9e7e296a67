-- ===== src/Daemon/Boot.antt =====
-- Which files the daemon starts with.
use Prim.Native.String.{String}
use mathlib.Core.Path.{subst}
use openpressod.Prelude.{ℤ, false, ◌≡◌, ◌↔◌, sym, arith, inl, inr}
use openpressod.Messages.{BrewProfile, UserSettings}
use openpressod.Core.{Core, Readings}
use openpressod.Results.{ok, done, Result-cases}
use openpressod.Files.{File, content, finished, Json, ReadsBack, ReadsBackSettings}
use openpressod.Machine.{StateManager}
use openpressod.Profiles.Valid.{IsValidProfile}
use openpressod.Profiles.Apply.{apply_done_iff}
use openpressod.Profiles.{
  BrewProfileManager, make, make_default_profile, load_default_profile, load_saved_profile,
  read_profile, parsed, save_profile, write_profile, apply_brew_profile,
}
use openpressod.Settings
use openpressod.Settings.{
  UserSettingsManager, apply_settings, save_settings, load_saved_settings, read_settings,
  write_settings,
}
use openpressod.Dispatcher.{Dispatcher}
use openpressod.Dispatcher
use openpressod.Daemon.{
  setup_brew_profile_manager, setup_user_settings_manager, profile_or_default, settings_or_default,
  boot,
}

-- A start that throws nothing.
abbrev pub Boots :
    (core : Core) → Readings → StateManager core → BrewProfileManager → UserSettingsManager → Type 0
Boots core r s p u = (d : Dispatcher core) × (boot r s p u ≡ ok d)

save-setup :
    (core : Core) (json : Json) (p : BrewProfile) (s : String) (m : BrewProfileManager) (bt bp : ℤ)
    → ReadsBack json p s
    → let (result, n) = save_profile json p (λ t. finished (content t)) m in
      (result ≡ done)
      × (n.current_profile ≡ p)
      × ((setup_brew_profile_manager json core bt bp n.profile_file).current_profile ≡ p)
unfolding save_profile setup_brew_profile_manager load_saved_profile read_profile parsed
    write_profile profile_or_default make
save-setup core json p s m bt bp rb = (ground arith, ground arith, ground arith)

save-setup_settings :
    (json : Json) (u : UserSettings) (s : String) (m : UserSettingsManager) (st : ℤ)
    → ReadsBackSettings json u s
    → let (result, n) = save_settings json u (λ t. finished (content t)) m in
      (result ≡ done)
      × (n.current_settings ≡ u)
      × ((setup_user_settings_manager json st n.settings_file).current_settings ≡ u)
unfolding save_settings setup_user_settings_manager load_saved_settings read_settings
    Settings.parsed write_settings settings_or_default Settings.make
save-setup_settings json u s m st rb = (ground arith, ground arith, ground arith)

-- A profile and settings that are saved, with writes that put their text in the files, are the
-- current ones after the next start, as long as the JSON functions read back what they printed; the
-- saves throw nothing.
pub save-setup_both :
    (core : Core) (json : Json) (p : BrewProfile) (u : UserSettings) (s t : String)
    (m : BrewProfileManager) (n : UserSettingsManager) (bt bp st : ℤ)
    → ReadsBack json p s
    → ReadsBackSettings json u t
    → let (saved, k) = save_profile json p (λ x. finished (content x)) m in
      let (kept, l) = save_settings json u (λ x. finished (content x)) n in
      (saved ≡ done)
      × (k.current_profile ≡ p)
      × ((setup_brew_profile_manager json core bt bp k.profile_file).current_profile ≡ p)
      × (kept ≡ done)
      × (l.current_settings ≡ u)
      × ((setup_user_settings_manager json st l.settings_file).current_settings ≡ u)
save-setup_both core json p u s t m n bt bp st h k =
    let (a, b, c) = save-setup core json p s m bt bp h in
    let (d, e, f) = save-setup_settings json u t n st k in (a, b, c, d, e, f)

make_default_profile-IsValidProfile :
    (core : Core) (bt bp : ℤ) → IsValidProfile (make_default_profile core bt bp)
unfolding make_default_profile
make_default_profile-IsValidProfile core bt bp = record { steps = ((tt, tt), tt); stop = tt }

module _ {core : Core} where
  pub Boots-iff :
      (r : Readings) (s : StateManager core) (p : BrewProfileManager) (u : UserSettingsManager)
      → Boots core r s p u
        ↔ ((core.is_brewing s.brew_profiler ≡ false) × IsValidProfile p.current_profile)
  unfolding boot
  Boots-iff r s p u = (
    λ (d, e). (apply_done_iff r p s).0 (ground arith),
    λ h. elim (Result-cases (apply_brew_profile r p s).0) [
      | inl (a, e) ↦
          (Dispatcher.make (apply_settings r u (apply_brew_profile r p s).1) p u, ground arith)
      | inr (x, e) ↦ absurd (ground (arith, (apply_done_iff r p s).1 h))
    ],
  )

  -- The daemon starts on a machine that does not brew, whatever the settings, if the profile file
  -- cannot be opened, cannot be read or is not a profile, or is one that is known in every step and in
  -- its stop condition; and only then.
  pub setup-Boots_iff :
      (json : Json) (bt bp : ℤ) (file : File) (r : Readings) (s : StateManager core)
      (u : UserSettingsManager)
      → core.is_brewing s.brew_profiler ≡ false
      → Boots core r s (setup_brew_profile_manager json core bt bp file) u ↔ (
          (load_saved_profile json (make core bt bp file)).0 ≡ done
          → IsValidProfile (load_saved_profile json (make core bt bp file)).1.current_profile)
  unfolding setup_brew_profile_manager profile_or_default load_default_profile make
      load_saved_profile read_profile parsed
  setup-Boots_iff json bt bp file r s u idle =
      let m = setup_brew_profile_manager json core bt bp file in
      let loaded = load_saved_profile json (make core bt bp file) in
      let starts = Boots-iff r s m u in
      elim (Result-cases loaded.0) [
        | inl (a, e) ↦
            let same : m.current_profile ≡ loaded.1.current_profile = ground arith in
            (
              λ h g. subst IsValidProfile same (starts.0 h).1,
              λ h. starts.1 (idle, subst IsValidProfile (sym same) (h (ground arith))),
            )
        | inr (x, e) ↦
            let same : m.current_profile ≡ make_default_profile core bt bp = ground arith in
            (
              λ h g. absurd (ground arith),
              λ h. starts.1 (
                idle,
                subst IsValidProfile (sym same) (make_default_profile-IsValidProfile core bt bp),
              ),
            )
      ]
