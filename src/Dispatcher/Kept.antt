-- ===== src/Dispatcher/Kept.antt =====
-- The machine under the dispatcher: every procedure keeps what each method of the state manager keeps.
use Prim.Native.String.{String}
use openpressod.Prelude.{
  ℤ, refl, ◌≡◌, if_ind, if◌then◌else◌, Bool, true, false, inl, inr, Bool-cases,
}
use openpressod.Messages.{
  BrewProfile, UserSettings, Event, brew_state, steam_mode_state, brew_profile, user_settings,
}
use openpressod.Core.{Core, Readings}
use openpressod.Results.{ok, err, Done, done, Result-cases}
use openpressod.Files.{Json, Write}
use openpressod.Machine
use openpressod.Machine.{get_brew_state, StateManager, set_steam_temperature}
use openpressod.Machine.Kept.{IsKept}
use openpressod.Profiles
use openpressod.Profiles.Apply.{apply_brew_profile-kept}
use openpressod.Settings.{save_settings, apply_settings}
use openpressod.Dispatcher.{
  Dispatcher, Procedure, broadcast, broadcast_if, do_set_power_state, do_start_brew, do_stop_brew,
  do_set_steam_mode_state, toggle_brew_body, add_sink, stop_brew_body, set_brew_profile_body,
  set_user_settings_body, run, destroy,
}

-- What setting the steam temperature keeps.
abbrev pub Sets : {core : Core} → (StateManager core → Type 0) → Type 0
Sets {core} P =
    (t : ℤ) (r : Readings) (m : StateManager core) → P m → P (set_steam_temperature t r m)

module _ {core : Core} {P : StateManager core → Type 0} (k : IsKept P) where
  abbrev Keeps : Dispatcher core → Type 0
  Keeps d = P d.state_manager

  broadcast_if-Keeps :
      (e : Event) (x : Done) (d : Dispatcher core) → Keeps d → Keeps (broadcast_if e (x, d)).1
  unfolding broadcast_if broadcast
  broadcast_if-Keeps e (ok a) d v = v
  broadcast_if-Keeps e (err y) d v = v

  do_set_power_state-Keeps :
      (b : Bool) (r : Readings) (d : Dispatcher core) → Keeps d → Keeps (do_set_power_state b r d)
  unfolding do_set_power_state broadcast
  do_set_power_state-Keeps b r d v = k.power b r d.state_manager v

  do_start_brew-Keeps : (r : Readings) (d : Dispatcher core) → Keeps d → Keeps (do_start_brew r d).1
  unfolding do_start_brew
  do_start_brew-Keeps r d v = broadcast_if-Keeps (brew_state true) _ _ (k.start r d.state_manager v)

  do_stop_brew-Keeps : (r : Readings) (d : Dispatcher core) → Keeps d → Keeps (do_stop_brew r d)
  unfolding do_stop_brew broadcast
  do_stop_brew-Keeps r d v = elim (Bool-cases (get_brew_state d.state_manager)) [
    | inr e ↦ rw e v
    | inl e ↦ rw e (k.stop r d.state_manager v)
  ]

  do_set_steam_mode_state-Keeps :
      (b : Bool) (r : Readings) (d : Dispatcher core)
      → Keeps d
      → Keeps (do_set_steam_mode_state b r d).1
  unfolding do_set_steam_mode_state
  do_set_steam_mode_state-Keeps b r d v =
      broadcast_if-Keeps (steam_mode_state b) _ _ (k.steam_mode b r d.state_manager v)

  toggle_brew-Keeps :
      (r : Readings) (d : Dispatcher core) → Keeps d → Keeps (toggle_brew_body r d).1
  unfolding toggle_brew_body
  toggle_brew-Keeps r d v = elim (Bool-cases (get_brew_state d.state_manager)) [
    | inl e ↦ rw e (do_stop_brew-Keeps r d v)
    | inr e ↦ rw e (do_start_brew-Keeps r d v)
  ]

  set_brew_profile_body-Keeps :
      (json : Json) (p : BrewProfile) (w : String → Write) (r : Readings) (d : Dispatcher core)
      → Keeps d
      → Keeps (set_brew_profile_body json p w r d).1
  unfolding set_brew_profile_body
  set_brew_profile_body-Keeps json p w r d v =
      elim (Result-cases (Profiles.save_profile json p w d.brew_profile_manager).0) [
        | inl (a, e) ↦ rw e (
            broadcast_if-Keeps (brew_profile p) _ _
              (apply_brew_profile-kept k r _ d.state_manager v))
        | inr (x, e) ↦ rw e (broadcast_if-Keeps (brew_profile p) (err x) _ v)
      ]

  set_user_settings_body-Keeps :
      (json : Json) (u : UserSettings) (w : String → Write) (r : Readings) (d : Dispatcher core)
      → Sets P
      → Keeps d
      → Keeps (set_user_settings_body json u w r d).1
  unfolding set_user_settings_body apply_settings
  set_user_settings_body-Keeps json u w r d sets v =
      elim (Result-cases (save_settings json u w d.user_settings_manager).0) [
        | inl (a, e) ↦
            rw e (broadcast_if-Keeps (user_settings u) done _ (sets _ r d.state_manager v))
        | inr (x, e) ↦ rw e (broadcast_if-Keeps (user_settings u) (err x) _ v)
      ]

  -- Whatever procedure runs, also if it throws.
  pub run-Keeps :
      (json : Json) (r : Readings) (p : Procedure) (d : Dispatcher core)
      → ((u : UserSettings) (w : String → Write)
          → p ≡ Procedure.call_set_user_settings u w
          → Sets P)
      → Keeps d
      → Keeps (run json r p d).1
  unfolding run broadcast add_sink stop_brew_body
  run-Keeps json r Procedure.toggle_power_state d sets v = do_set_power_state-Keeps _ r d v
  run-Keeps json r (Procedure.set_power_state b) d sets v = do_set_power_state-Keeps b r d v
  run-Keeps json r Procedure.toggle_brew d sets v = toggle_brew-Keeps r d v
  run-Keeps json r Procedure.start_brew d sets v = do_start_brew-Keeps r d v
  run-Keeps json r Procedure.stop_brew d sets v = do_stop_brew-Keeps r d v
  run-Keeps json r Procedure.toggle_steam_mode_state d sets v =
      do_set_steam_mode_state-Keeps _ r d v
  run-Keeps json r (Procedure.set_steam_mode_state b) d sets v =
      do_set_steam_mode_state-Keeps b r d v
  run-Keeps json r (Procedure.add_events_stream_reactor s) d sets v = v
  run-Keeps json r (Procedure.release_events_stream_reactor id) d sets v = v
  run-Keeps json r (Procedure.notify_heating_status_change s) d sets v = v
  run-Keeps json r (Procedure.notify_brew_step_change x) d sets v = v
  run-Keeps json r Procedure.brew_stopped d sets v = do_stop_brew-Keeps r d v
  run-Keeps json r Procedure.call_reset_weight d sets v = k.scales d.state_manager v
  run-Keeps json r Procedure.call_get_brew_profile d sets v = v
  run-Keeps json r Procedure.call_get_power_state d sets v = v
  run-Keeps json r Procedure.call_get_brew_state d sets v = v
  run-Keeps json r Procedure.call_get_steam_mode_state d sets v = v
  run-Keeps json r Procedure.call_get_user_settings d sets v = v
  run-Keeps json r (Procedure.call_set_brew_profile p w) d sets v =
      set_brew_profile_body-Keeps json p w r d v
  run-Keeps json r (Procedure.call_set_power_state b) d sets v = do_set_power_state-Keeps b r d v
  run-Keeps json r (Procedure.call_set_steam_mode_state b) d sets v =
      do_set_steam_mode_state-Keeps b r d v
  run-Keeps json r Procedure.call_start_brew d sets v = k.start r d.state_manager v
  run-Keeps json r Procedure.call_stop_brew d sets v = k.stop r d.state_manager v
  run-Keeps json r (Procedure.call_set_user_settings u w) d sets v =
      set_user_settings_body-Keeps json u w r d (sets u w refl) v

  -- The destructor's procedure.
  pub destroy-Keeps : (r : Readings) (d : Dispatcher core) → Keeps d → Keeps (destroy r d)
  unfolding destroy
  destroy-Keeps r d v =
      let m = d.state_manager in
      let stopped = if get_brew_state m then Machine.stop_brew r m else m in
      let idle = if_ind P (get_brew_state m) (k.stop r m v) v in
      if_ind P (Machine.get_power_state stopped) (k.power false r stopped idle) idle
