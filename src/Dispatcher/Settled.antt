-- ===== src/Dispatcher/Settled.antt =====
-- The user settings in the dispatcher, in the machine and as the subscribers know them.
use Prim.Native.String.{String}
use openpressod.Prelude.{
  Bool-cases, List, [], ◌∷◌, map, Bool, true, false, some, ◌≡◌, ◌⊎◌, inl, inr, refl, sym, ap, ◌∙◌,
  arith,
}
use mathlib.Core.Path.{subst}
use openpressod.Messages.{UserSettings, user_settings}
use openpressod.Core.{Core, Readings}
use openpressod.Results.{Error, err, Result-cases}
use openpressod.Files.{Json, Write}
use openpressod.Machine.Targets.{HasSteamTarget, HasSteamTarget-IsKept}
use openpressod.Settings.{
  UserSettingsManager, save_settings, write_settings, apply_settings, get_settings,
}
use openpressod.Machine.Behaviour.{set_steam_temperature-keeps}
use openpressod.Reactor.{EventsStreamReactor, notify_changed}
use openpressod.Dispatcher.View.{View, view, All, view-notify_changed}
use openpressod.Dispatcher.Knowledge.{IsApart, run-Knows}
use openpressod.Dispatcher.Kept.{run-Keeps}
use openpressod.Dispatcher.{
  Dispatcher, Procedure, run, broadcast, broadcast_if, do_set_power_state, do_start_brew,
  do_stop_brew, do_set_steam_mode_state, toggle_brew_body, add_sink, stop_brew_body,
  set_brew_profile_body, set_user_settings_body,
}

abbrev is_setting : Procedure → Bool
is_setting (Procedure.call_set_user_settings u w) = true
is_setting _ = false

settings-IsApart : IsApart (λ (v : View). v.settings)
settings-IsApart = record {
  power = λ b v. refl;
  brew = λ b v. refl;
  steam = λ b v. refl;
  profile = λ p v. refl;
  progress = λ n v. refl;
}

setting_of :
    (p : Procedure)
    → is_setting p ≡ true
    → (u : UserSettings) × (w : String → Write) × (p ≡ Procedure.call_set_user_settings u w)
setting_of (Procedure.call_set_user_settings u w) h = (u, w, refl)
setting_of p h = absurd (ground arith)

no_setting :
    (p : Procedure) (u : UserSettings) (w : String → Write)
    → is_setting p ≡ false
    → p ≡ Procedure.call_set_user_settings u w
    → ⊥
no_setting p u w n e = ground (arith, sym (ap is_setting e) ∙ n)

save_settings_current :
    (json : Json) (u : UserSettings) (w : String → Write) (m : UserSettingsManager)
    → (save_settings json u w m).1.current_settings ≡ u
unfolding save_settings write_settings
save_settings_current json u w m = ground arith

settings_told :
    (u : UserSettings) (l : List EventsStreamReactor)
    → All (λ s. (view s).settings ≡ some u) (map (notify_changed (user_settings u)) l)
settings_told u [] = tt
settings_told u (s ∷ l) =
    (ap (λ (v : View). v.settings) (view-notify_changed (user_settings u) s), settings_told u l)

module _ {core : Core} where
  -- The steam controller has the target of these settings, and every subscriber knows them.
  abbrev pub HasSettings : UserSettings → Dispatcher core → Type 0
  HasSettings u d =
      HasSteamTarget u.steam_temperature d.state_manager
      × All (λ s. (view s).settings ≡ some u) d.events_sinks

  run_settings :
      (json : Json) (r : Readings) (p : Procedure) (d : Dispatcher core)
      → is_setting p ≡ false
      → (run json r p d).1.user_settings_manager ≡ d.user_settings_manager
  unfolding run broadcast broadcast_if do_set_power_state do_start_brew do_stop_brew
      do_set_steam_mode_state toggle_brew_body add_sink stop_brew_body set_brew_profile_body
  run_settings json r p d n = ground arith

  -- What a call of setUserSettings leaves behind that throws.
  abbrev pub Refused : Json → Readings → Procedure → Dispatcher core → Type 0
  Refused json r p d =
      let (result, n) = run json r p d in
      (e : Error) × (u : UserSettings) × (w : String → Write) × (p
        ≡ Procedure.call_set_user_settings u w)
      × (result ≡ err e)
      × (n.user_settings_manager.current_settings ≡ u)
      × (n.state_manager ≡ d.state_manager)
      × (n.events_sinks ≡ d.events_sinks)

  abbrev pub IsSettled : Dispatcher core → Type 0
  IsSettled d = HasSettings d.user_settings_manager.current_settings d

  set_user_settings-IsSettled :
      (json : Json) (r : Readings) (u : UserSettings) (w : String → Write) (d : Dispatcher core)
      → IsSettled d
      → IsSettled (run json r (Procedure.call_set_user_settings u w) d).1
        ⊎ Refused json r (Procedure.call_set_user_settings u w) d
  unfolding run set_user_settings_body broadcast_if broadcast apply_settings
  set_user_settings-IsSettled json r u w d v =
      let m = (save_settings json u w d.user_settings_manager).1 in
      let current = save_settings_current json u w d.user_settings_manager in
      elim (Result-cases (save_settings json u w d.user_settings_manager).0) [
        | inl (a, e) ↦ rw e (
            inl (
              (set_steam_temperature-keeps m.current_settings.steam_temperature r
                  d.state_manager).4,
              subst
                  (λ x.
                    All (λ s. (view s).settings ≡ some x)
                      (map (notify_changed (user_settings u)) d.events_sinks))
                  (sym current) (settings_told u d.events_sinks),
            ))
        | inr (x, e) ↦ rw e (inr (x, u, w, refl, refl, current, refl, refl))
      ]

  run-IsSettled_apart :
      (json : Json) (r : Readings) (p : Procedure) (d : Dispatcher core)
      → is_setting p ≡ false
      → IsSettled d
      → IsSettled (run json r p d).1
  unfolding get_settings
  run-IsSettled_apart json r p d n v =
      let u = d.user_settings_manager.current_settings in
      subst (λ m. HasSettings m.current_settings (run json r p d).1)
        (sym (run_settings json r p d n))
        (
          run-Keeps (HasSteamTarget-IsKept u.steam_temperature) json r p d
              (λ x w e. absurd (no_setting p x w n e)) v.0,
          run-Knows settings-IsApart u json r p d (λ x e t. refl)
              (λ x w e. absurd (no_setting p x w n e)) refl v.1,
        )

  -- Let the steam controller have the target of the current settings, and let every subscriber know
  -- them. Whatever procedure runs, with any readings, files and JSON functions, this is so again,
  -- for the settings that are current then; or the procedure was a call of setUserSettings that threw,
  -- and then the settings that it refused are the current ones, while the machine and the
  -- subscribers are as they were.
  pub run-IsSettled :
      (json : Json) (r : Readings) (p : Procedure) (d : Dispatcher core)
      → IsSettled d
      → IsSettled (run json r p d).1 ⊎ Refused json r p d
  run-IsSettled json r p d v = elim (Bool-cases (is_setting p)) [
    | inr n ↦ inl (run-IsSettled_apart json r p d n v)
    | inl y ↦
        let (u, w, e) = setting_of p y in
        subst (λ q. IsSettled (run json r q d).1 ⊎ Refused json r q d) (sym e)
          (set_user_settings-IsSettled json r u w d v)
  ]
