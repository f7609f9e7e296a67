-- ===== src/Dispatcher/Sync.antt =====
-- The subscribers' view of power and steam mode stays that of the machine, whatever runs.
use Prim.Native.String.{String}
use openpressod.Prelude.{Bool, true, false, none, some, ◌≡◌, refl, arith, Bool-cases, inl, inr, ap}
use openpressod.Messages.{
  BrewProfile, UserSettings, Event, power_state, brew_state, steam_mode_state, heater_state,
  brew_profile, user_settings, brew_progress,
}
use openpressod.Core.{Core, Readings}
use openpressod.Results.{ok, err, Done, done, Result-cases}
use openpressod.Files.{Json, Write}
use openpressod.Machine.{StateManager, get_power_state, get_brew_state, get_steam_mode_state}
use openpressod.Machine
use openpressod.Machine.Modes.{
  set_power_state_modes, start_brew_modes, stop_brew_modes, set_steam_mode_state_modes,
  set_steam_temperature_modes, reset_scales_modes,
}
use openpressod.Profiles
use openpressod.Profiles.Apply.{apply_brew_profile_modes}
use openpressod.Settings
use openpressod.Settings.{apply_settings, save_settings}
use openpressod.Reactor.{EventsStreamReactor}
use openpressod.Dispatcher.View.{
  view_from, view-send_all, View, view, All-append, All-remove_sink, Sees, power_after, steam_after,
  Sees-notify_changed,
}
use openpressod.Dispatcher.{
  Dispatcher, Procedure, broadcast, broadcast_if, do_set_power_state, do_start_brew, do_stop_brew,
  do_set_steam_mode_state, toggle_brew_body, initial_events, send_all, add_sink, stop_brew_body,
  set_brew_profile_body, set_user_settings_body, run,
}

-- Every subscriber knows whether the power is on and whether steam mode is.
abbrev pub InSync : {core : Core} → Dispatcher core → Type 0
InSync d = Sees d.state_manager.power d.state_manager.steam d.events_sinks

module _ {core : Core} where
  -- A call that leaves power and steam mode alone, with an event about neither.
  broadcast-InSync :
      (e : Event) (power steam : Bool) (d : Dispatcher core)
      → Sees power steam d.events_sinks
      → d.state_manager.power ≡ power_after e power
      → d.state_manager.steam ≡ steam_after e steam
      → InSync (broadcast e d)
  unfolding broadcast
  broadcast-InSync e power steam d h p s =
      rw (p, s) (Sees-notify_changed e power steam d.events_sinks h)

  keeps-InSync :
      (m : StateManager core) (d : Dispatcher core)
      → InSync d
      → m.power ≡ d.state_manager.power
      → m.steam ≡ d.state_manager.steam
      → InSync (record d { state_manager = m })
  keeps-InSync m d h p s = rw (p, s) h

  -- The event goes out exactly if nothing was thrown.
  broadcast_if-InSync :
      (e : Event) (power steam : Bool) (x : Done) (d : Dispatcher core)
      → Sees power steam d.events_sinks
      → d.state_manager.power ≡ elim x [ ok a ↦ power_after e power | err y ↦ power ]
      → d.state_manager.steam ≡ elim x [ ok a ↦ steam_after e steam | err y ↦ steam ]
      → InSync (broadcast_if e (x, d)).1
  unfolding broadcast_if
  broadcast_if-InSync e power steam (ok a) d h p s = broadcast-InSync e power steam d h p s
  broadcast_if-InSync e power steam (err y) d h p s = rw (p, s) h

  do_set_power_state-InSync :
      (b : Bool) (r : Readings) (d : Dispatcher core) → InSync d → InSync (do_set_power_state b r d)
  unfolding do_set_power_state
  do_set_power_state-InSync b r d h =
      let modes = set_power_state_modes b r d.state_manager in
      broadcast-InSync (power_state b) d.state_manager.power d.state_manager.steam _ h modes.0
        modes.1

  do_start_brew-InSync :
      (r : Readings) (d : Dispatcher core) → InSync d → InSync (do_start_brew r d).1
  unfolding do_start_brew
  do_start_brew-InSync r d h =
      let m = d.state_manager in
      let modes = start_brew_modes r m in
      broadcast_if-InSync (brew_state true) m.power m.steam (Machine.start_brew r m).0
        (record d { state_manager = (Machine.start_brew r m).1 }) h (ground arith) (ground arith)

  do_stop_brew-InSync : (r : Readings) (d : Dispatcher core) → InSync d → InSync (do_stop_brew r d)
  unfolding do_stop_brew
  do_stop_brew-InSync r d h =
      let m = d.state_manager in
      let modes = stop_brew_modes r m in
      elim (Bool-cases (get_brew_state m)) [
        | inr e ↦ rw e h
        | inl e ↦ rw e (broadcast-InSync (brew_state false) m.power m.steam _ h modes.0 modes.1)
      ]

  do_set_steam_mode_state-InSync :
      (b : Bool) (r : Readings) (d : Dispatcher core)
      → InSync d
      → InSync (do_set_steam_mode_state b r d).1
  unfolding do_set_steam_mode_state
  do_set_steam_mode_state-InSync b r d h =
      let m = d.state_manager in
      let modes = set_steam_mode_state_modes b r m in
      broadcast_if-InSync (steam_mode_state b) m.power m.steam
        (Machine.set_steam_mode_state b r m).0
        (record d { state_manager = (Machine.set_steam_mode_state b r m).1 }) h (ground arith)
        modes.1

  toggle_brew-InSync :
      (r : Readings) (d : Dispatcher core) → InSync d → InSync (toggle_brew_body r d).1
  unfolding toggle_brew_body
  toggle_brew-InSync r d h = elim (Bool-cases (get_brew_state d.state_manager)) [
    | inl e ↦ rw e (do_stop_brew-InSync r d h)
    | inr e ↦ rw e (do_start_brew-InSync r d h)
  ]

  stop_brew_body-InSync :
      (r : Readings) (d : Dispatcher core) → InSync d → InSync (stop_brew_body r d)
  unfolding stop_brew_body
  stop_brew_body-InSync r d h =
      let m = d.state_manager in
      let modes = stop_brew_modes r m in
      broadcast-InSync (brew_progress none) m.power m.steam _ h modes.0 modes.1

  set_brew_profile_body-InSync :
      (json : Json) (p : BrewProfile) (w : String → Write) (r : Readings) (d : Dispatcher core)
      → InSync d
      → InSync (set_brew_profile_body json p w r d).1
  unfolding set_brew_profile_body
  set_brew_profile_body-InSync json p w r d h =
      let m = d.state_manager in
      let (saved, b) = Profiles.save_profile json p w d.brew_profile_manager in
      let n = record d { brew_profile_manager = b } in
      let modes = apply_brew_profile_modes r b m in
      elim (Result-cases (Profiles.save_profile json p w d.brew_profile_manager).0) [
        | inl (a, e) ↦ rw e (
            broadcast_if-InSync (brew_profile p) m.power m.steam
              (Profiles.apply_brew_profile r b m).0
              (record n { state_manager = (Profiles.apply_brew_profile r b m).1 }) h (ground arith)
              (ground arith))
        | inr (x, e) ↦
            rw e (broadcast_if-InSync (brew_profile p) m.power m.steam (err x) n h refl refl)
      ]

  set_user_settings_body-InSync :
      (json : Json) (u : UserSettings) (w : String → Write) (r : Readings) (d : Dispatcher core)
      → InSync d
      → InSync (set_user_settings_body json u w r d).1
  unfolding set_user_settings_body apply_settings
  set_user_settings_body-InSync json u w r d h =
      let m = d.state_manager in
      let (saved, b) = save_settings json u w d.user_settings_manager in
      let n = record d { user_settings_manager = b } in
      let modes = set_steam_temperature_modes b.current_settings.steam_temperature r m in
      elim (Result-cases (save_settings json u w d.user_settings_manager).0) [
        | inl (a, e) ↦ rw e (
            broadcast_if-InSync (user_settings u) m.power m.steam done
              (record n { state_manager = apply_settings r b m }) h modes.0 modes.1)
        | inr (x, e) ↦
            rw e (broadcast_if-InSync (user_settings u) m.power m.steam (err x) n h refl refl)
      ]

  abbrev pub full_view : Dispatcher core → View
  full_view d = record {
    power = some (get_power_state d.state_manager);
    brew = some (get_brew_state d.state_manager);
    steam = some (get_steam_mode_state d.state_manager);
    heater = some (Machine.heating_status d.state_manager);
    profile = some (Profiles.get_profile d.brew_profile_manager);
    settings = some (Settings.get_settings d.user_settings_manager);
  }

  -- A new subscriber is told the whole state, whatever was in its queue before.
  pub view-send_initial :
      (s : EventsStreamReactor) (d : Dispatcher core)
      → view (send_all (initial_events d) s) ≡ full_view d
  unfolding initial_events view_from
  view-send_initial s d = view-send_all (initial_events d) s

  add_sink-InSync :
      (s : EventsStreamReactor) (d : Dispatcher core) → InSync d → InSync (add_sink s d)
  unfolding add_sink get_power_state get_steam_mode_state
  add_sink-InSync s d h =
      let seen = view-send_initial s d in
      All-append _ d.events_sinks (send_all (initial_events d) s) h
        (ap (λ (v : View). v.power) seen, ap (λ (v : View). v.steam) seen)

  -- Whatever procedure runs, with any readings, files and JSON functions, and also if it throws:
  -- if every subscriber knows the power and the steam mode of the machine, every subscriber knows
  -- those of the machine afterwards.
  pub run-InSync :
      (json : Json) (r : Readings) (p : Procedure) (d : Dispatcher core)
      → InSync d
      → InSync (run json r p d).1
  unfolding run
  run-InSync json r Procedure.toggle_power_state d h = do_set_power_state-InSync _ r d h
  run-InSync json r (Procedure.set_power_state b) d h = do_set_power_state-InSync b r d h
  run-InSync json r Procedure.toggle_brew d h = toggle_brew-InSync r d h
  run-InSync json r Procedure.start_brew d h = do_start_brew-InSync r d h
  run-InSync json r Procedure.stop_brew d h = do_stop_brew-InSync r d h
  run-InSync json r Procedure.toggle_steam_mode_state d h = do_set_steam_mode_state-InSync _ r d h
  run-InSync json r (Procedure.set_steam_mode_state b) d h = do_set_steam_mode_state-InSync b r d h
  run-InSync json r (Procedure.add_events_stream_reactor s) d h = add_sink-InSync s d h
  run-InSync json r (Procedure.release_events_stream_reactor id) d h =
      All-remove_sink _ id d.events_sinks h
  run-InSync json r (Procedure.notify_heating_status_change s) d h =
      broadcast-InSync (heater_state s) _ _ d h refl refl
  run-InSync json r (Procedure.notify_brew_step_change n) d h =
      broadcast-InSync (brew_progress (some n)) _ _ d h refl refl
  run-InSync json r Procedure.brew_stopped d h = do_stop_brew-InSync r d h
  run-InSync json r Procedure.call_reset_weight d h =
      let modes = reset_scales_modes d.state_manager in
      keeps-InSync (Machine.reset_scales d.state_manager).1 d h modes.0 modes.1
  run-InSync json r Procedure.call_get_brew_profile d h = h
  run-InSync json r Procedure.call_get_power_state d h = h
  run-InSync json r Procedure.call_get_brew_state d h = h
  run-InSync json r Procedure.call_get_steam_mode_state d h = h
  run-InSync json r Procedure.call_get_user_settings d h = h
  run-InSync json r (Procedure.call_set_brew_profile p w) d h =
      set_brew_profile_body-InSync json p w r d h
  run-InSync json r (Procedure.call_set_power_state b) d h = do_set_power_state-InSync b r d h
  run-InSync json r (Procedure.call_set_steam_mode_state b) d h =
      do_set_steam_mode_state-InSync b r d h
  run-InSync json r Procedure.call_start_brew d h =
      let modes = start_brew_modes r d.state_manager in
      keeps-InSync (Machine.start_brew r d.state_manager).1 d h modes.0 modes.1
  run-InSync json r Procedure.call_stop_brew d h = stop_brew_body-InSync r d h
  run-InSync json r (Procedure.call_set_user_settings u w) d h =
      set_user_settings_body-InSync json u w r d h
