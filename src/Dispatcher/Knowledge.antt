-- ===== src/Dispatcher/Knowledge.antt =====
-- What the subscribers know of one part of the state, while procedures run that do not change it.
use Prim.Native.String.{String}
use openpressod.Prelude.{
  ℕ, Bool, true, false, inl, inr, ◌∙◌, not, none, some, Option, ◌≡◌, refl, ap, if_ind,
}
use openpressod.Messages.{
  HeatingStatus, BrewProfile, UserSettings, Event, power_state, brew_state, steam_mode_state,
  heater_state, brew_profile, user_settings, brew_progress,
}
use openpressod.Core.{Core, Readings}
use openpressod.Results.{ok, err, Done, done, Result-cases}
use openpressod.Files.{Json, Write}
use openpressod.Machine
use openpressod.Profiles
use openpressod.Settings
use openpressod.Reactor.{EventsStreamReactor, notify_changed}
use openpressod.Dispatcher.View.{
  View, view, see, view-notify_changed, All, All-map, All-append, All-remove_sink,
}
use openpressod.Dispatcher.Sync.{view-send_initial, full_view}
use openpressod.Dispatcher.{
  Dispatcher, Procedure, broadcast, broadcast_if, do_set_power_state, do_start_brew, do_stop_brew,
  do_set_steam_mode_state, toggle_brew_body, initial_events, send_all, add_sink, stop_brew_body,
  set_brew_profile_body, set_user_settings_body, run,
}

-- An event that does not touch what is looked at.
abbrev pub IsNeutral : {A : Type 0} → (View → Option A) → Event → Type 0
IsNeutral look e = (v : View) → look (see v e) ≡ look v

-- Neither the heating status nor the settings are told by these.
pub record IsApart {A : Type 0} (look : View → Option A) : Type 0 where
  pub power : (b : Bool) → IsNeutral look (power_state b)
  pub brew : (b : Bool) → IsNeutral look (brew_state b)
  pub steam : (b : Bool) → IsNeutral look (steam_mode_state b)
  pub profile : (p : BrewProfile) → IsNeutral look (brew_profile p)
  pub progress : (n : Option ℕ) → IsNeutral look (brew_progress n)

module _ {core : Core} {A : Type 0} {look : View → Option A} (apart : IsApart look)
    (value : A) where
  abbrev pub Knows : Dispatcher core → Type 0
  Knows d = All (λ s. look (view s) ≡ some value) d.events_sinks

  broadcast-Knows :
      (e : Event) (d : Dispatcher core) → IsNeutral look e → Knows d → Knows (broadcast e d)
  unfolding broadcast
  broadcast-Knows e d n v =
      All-map _ _ (notify_changed e) d.events_sinks
        (λ s h. ap look (view-notify_changed e s) ∙ n (view s) ∙ h) v

  broadcast_if-Knows :
      (e : Event) (x : Done) (d : Dispatcher core)
      → IsNeutral look e
      → Knows d
      → Knows (broadcast_if e (x, d)).1
  unfolding broadcast_if
  broadcast_if-Knows e (ok a) d n v = broadcast-Knows e d n v
  broadcast_if-Knows e (err y) d n v = v

  do_stop_brew-Knows : (r : Readings) (d : Dispatcher core) → Knows d → Knows (do_stop_brew r d)
  unfolding do_stop_brew
  do_stop_brew-Knows r d v =
      if_ind Knows (not (Machine.get_brew_state d.state_manager)) v
        (broadcast-Knows (brew_state false) _ (apart.brew false) v)

  do_start_brew-Knows : (r : Readings) (d : Dispatcher core) → Knows d → Knows (do_start_brew r d).1
  unfolding do_start_brew
  do_start_brew-Knows r d v = broadcast_if-Knows (brew_state true) _ _ (apart.brew true) v

  toggle_brew-Knows :
      (r : Readings) (d : Dispatcher core) → Knows d → Knows (toggle_brew_body r d).1
  unfolding toggle_brew_body
  toggle_brew-Knows r d v =
      if_ind (λ (x : Done × Dispatcher core). Knows x.1) (Machine.get_brew_state d.state_manager)
        (do_stop_brew-Knows r d v) (do_start_brew-Knows r d v)

  set_brew_profile_body-Knows :
      (json : Json) (p : BrewProfile) (w : String → Write) (r : Readings) (d : Dispatcher core)
      → Knows d
      → Knows (set_brew_profile_body json p w r d).1
  unfolding set_brew_profile_body
  set_brew_profile_body-Knows json p w r d v =
      elim (Result-cases (Profiles.save_profile json p w d.brew_profile_manager).0) [
        | inl (a, e) ↦ rw e (broadcast_if-Knows (brew_profile p) _ _ (apart.profile p) v)
        | inr (x, e) ↦ rw e (broadcast_if-Knows (brew_profile p) (err x) _ (apart.profile p) v)
      ]

  set_user_settings_body-Knows :
      (json : Json) (u : UserSettings) (w : String → Write) (r : Readings) (d : Dispatcher core)
      → IsNeutral look (user_settings u)
      → Knows d
      → Knows (set_user_settings_body json u w r d).1
  unfolding set_user_settings_body
  set_user_settings_body-Knows json u w r d n v =
      elim (Result-cases (Settings.save_settings json u w d.user_settings_manager).0) [
        | inl (a, e) ↦ rw e (broadcast_if-Knows (user_settings u) done _ n v)
        | inr (x, e) ↦ rw e (broadcast_if-Knows (user_settings u) (err x) _ n v)
      ]

  -- A new subscriber is told what is current.
  add_sink-Knows :
      (s : EventsStreamReactor) (d : Dispatcher core)
      → look (full_view d) ≡ some value
      → Knows d
      → Knows (add_sink s d)
  unfolding add_sink
  add_sink-Knows s d current v =
      All-append _ d.events_sinks (send_all (initial_events d) s) v
        (ap look (view-send_initial s d) ∙ current)

  -- A procedure that does not announce it leaves it as the subscribers know it.
  pub run-Knows :
      (json : Json) (r : Readings) (p : Procedure) (d : Dispatcher core)
      → ((x : HeatingStatus)
          → p ≡ Procedure.notify_heating_status_change x
          → IsNeutral look (heater_state x))
      → ((u : UserSettings) (w : String → Write)
          → p ≡ Procedure.call_set_user_settings u w
          → IsNeutral look (user_settings u))
      → look (full_view d) ≡ some value
      → Knows d
      → Knows (run json r p d).1
  unfolding run do_set_power_state do_set_steam_mode_state stop_brew_body
  run-Knows json r Procedure.toggle_power_state d h u c v = broadcast-Knows _ _ (apart.power _) v
  run-Knows json r (Procedure.set_power_state b) d h u c v = broadcast-Knows _ _ (apart.power b) v
  run-Knows json r Procedure.toggle_brew d h u c v = toggle_brew-Knows r d v
  run-Knows json r Procedure.start_brew d h u c v = do_start_brew-Knows r d v
  run-Knows json r Procedure.stop_brew d h u c v = do_stop_brew-Knows r d v
  run-Knows json r Procedure.toggle_steam_mode_state d h u c v =
      broadcast_if-Knows _ _ _ (apart.steam _) v
  run-Knows json r (Procedure.set_steam_mode_state b) d h u c v =
      broadcast_if-Knows _ _ _ (apart.steam b) v
  run-Knows json r (Procedure.add_events_stream_reactor s) d h u c v = add_sink-Knows s d c v
  run-Knows json r (Procedure.release_events_stream_reactor id) d h u c v =
      All-remove_sink _ id d.events_sinks v
  run-Knows json r (Procedure.notify_heating_status_change s) d h u c v =
      broadcast-Knows _ _ (h s refl) v
  run-Knows json r (Procedure.notify_brew_step_change k) d h u c v =
      broadcast-Knows _ _ (apart.progress (some k)) v
  run-Knows json r Procedure.brew_stopped d h u c v = do_stop_brew-Knows r d v
  run-Knows json r Procedure.call_reset_weight d h u c v = v
  run-Knows json r Procedure.call_get_brew_profile d h u c v = v
  run-Knows json r Procedure.call_get_power_state d h u c v = v
  run-Knows json r Procedure.call_get_brew_state d h u c v = v
  run-Knows json r Procedure.call_get_steam_mode_state d h u c v = v
  run-Knows json r Procedure.call_get_user_settings d h u c v = v
  run-Knows json r (Procedure.call_set_brew_profile p w) d h u c v =
      set_brew_profile_body-Knows json p w r d v
  run-Knows json r (Procedure.call_set_power_state b) d h u c v =
      broadcast-Knows _ _ (apart.power b) v
  run-Knows json r (Procedure.call_set_steam_mode_state b) d h u c v =
      broadcast_if-Knows _ _ _ (apart.steam b) v
  run-Knows json r Procedure.call_start_brew d h u c v = v
  run-Knows json r Procedure.call_stop_brew d h u c v = broadcast-Knows _ _ (apart.progress none) v
  run-Knows json r (Procedure.call_set_user_settings x w) d h u c v =
      set_user_settings_body-Knows json x w r d (u x w refl) v
