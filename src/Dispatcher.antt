-- ===== src/Dispatcher.antt =====
-- src/async_events_dispatcher/async_events_dispatcher.hpp and async_events_dispatcher.cpp. A
-- procedure is what one call of the dispatcher puts on the serial executor; `run` is its body, which
-- the executor's thread runs with no other procedure in between. A call of `m_executor` itself is in
-- Executor.
pub mod View
pub mod Sync
pub mod BrewSync
pub mod Kept
pub mod Knowledge
pub mod Heater
pub mod Settled
use Prim.Native.String.{String}
use openpressod.Prelude.{
  ℕ, Bool, true, false, not, none, some, List, [], ◌∷◌, ◌++◌, map, ◌==◌, if◌then◌else◌,
}
use openpressod.Messages.{
  HeatingStatus, BrewProfile, UserSettings, Event, power_state, brew_state, steam_mode_state,
  heater_state, brew_profile, user_settings, brew_progress,
}
use openpressod.Core.{Core, Readings}
use openpressod.Results.{Result, ok, err, Done, done}
use openpressod.Files.{Json, Write}
use openpressod.Machine.{StateManager}
use openpressod.Machine
use openpressod.Profiles.{BrewProfileManager}
use openpressod.Profiles
use openpressod.Settings.{UserSettingsManager}
use openpressod.Settings
use openpressod.Reactor.{EventsStreamReactor, notify_changed}

pub record Dispatcher (core : Core) : Type 0 where
  pub state_manager : StateManager core
  pub brew_profile_manager : BrewProfileManager
  pub user_settings_manager : UserSettingsManager
  pub events_sinks : List EventsStreamReactor

-- `m_eventsSinks.remove_if` by address.
pub remove_sink : ℕ → List EventsStreamReactor → List EventsStreamReactor
remove_sink id [] = []
remove_sink id (s ∷ l) =
    let rest = remove_sink id l in if s.reactor_id == id then rest else s ∷ rest

-- The procedures that the dispatcher's methods enqueue. The first group comes from the buttons, the
-- brew profiler, the status manager and the event streams; the second from the gRPC service, with a
-- callback that gets the result. A write tells how writing the file goes.
pub data Procedure : Type 0 where
  toggle_power_state toggle_brew toggle_steam_mode_state : Procedure
  set_power_state : Bool → Procedure
  start_brew stop_brew : Procedure
  set_steam_mode_state : Bool → Procedure
  add_events_stream_reactor : EventsStreamReactor → Procedure
  release_events_stream_reactor : ℕ → Procedure
  notify_heating_status_change : HeatingStatus → Procedure
  notify_brew_step_change : ℕ → Procedure
  brew_stopped : Procedure
  call_reset_weight : Procedure
  call_get_brew_profile call_get_power_state call_get_brew_state : Procedure
  call_get_steam_mode_state call_get_user_settings : Procedure
  call_set_brew_profile : BrewProfile → (String → Write) → Procedure
  call_set_power_state call_set_steam_mode_state : Bool → Procedure
  call_start_brew call_stop_brew : Procedure
  call_set_user_settings : UserSettings → (String → Write) → Procedure

-- `brewCallback`: the brew profiler reports the step it goes to, or that it has stopped.
pub data BrewReport : Type 0 where
  step_index : ℕ → BrewReport
  stopped_flag : BrewReport

abbrev pub brew_callback : BrewReport → Procedure
brew_callback (step_index n) = notify_brew_step_change n
brew_callback stopped_flag = brew_stopped

-- What a procedure returns to its callback.
pub data Reply : Type 0 where
  nothing : Reply
  flag : Bool → Reply
  profile : BrewProfile → Reply
  settings : UserSettings → Reply

abbrev pub reply : Done → Result Reply
reply (ok a) = ok nothing
reply (err e) = err e

-- One `notifyChanged` after another.
pub send_all : List Event → EventsStreamReactor → EventsStreamReactor
send_all [] s = s
send_all (e ∷ l) s = send_all l (notify_changed e s)

module _ {core : Core} where
  -- The constructor; the callback of the heating status enqueues a procedure from now on.
  unfoldable pub make :
      StateManager core → BrewProfileManager → UserSettingsManager → Dispatcher core
  make m p u = record {
    state_manager = Machine.set_heating_status_change_callback m;
    brew_profile_manager = p;
    user_settings_manager = u;
    events_sinks = [];
  }

  -- `for (auto&& sink : m_eventsSinks) sink->notifyChanged(event)`.
  unfoldable pub broadcast : Event → Dispatcher core → Dispatcher core
  broadcast e d = record d { events_sinks = map (notify_changed e) d.events_sinks }

  -- The event goes out only if the call before it has not thrown.
  unfoldable pub broadcast_if : Event → Done × Dispatcher core → Done × Dispatcher core
  broadcast_if e (ok a, d) = (ok a, broadcast e d)
  broadcast_if e (err x, d) = (err x, d)

  abbrev pub with_state : Done × StateManager core → Dispatcher core → Done × Dispatcher core
  with_state (x, m) d = (x, record d { state_manager = m })

  unfoldable pub do_set_power_state : Bool → Readings → Dispatcher core → Dispatcher core
  do_set_power_state b r d =
      broadcast (power_state b)
        (record d { state_manager = Machine.set_power_state b r d.state_manager })

  unfoldable pub do_start_brew : Readings → Dispatcher core → Done × Dispatcher core
  do_start_brew r d =
      broadcast_if (brew_state true) (with_state (Machine.start_brew r d.state_manager) d)

  unfoldable pub do_stop_brew : Readings → Dispatcher core → Dispatcher core
  do_stop_brew r d =
      if not (Machine.get_brew_state d.state_manager)
      then d
      else broadcast (brew_state false)
          (record d { state_manager = Machine.stop_brew r d.state_manager })

  unfoldable pub do_set_steam_mode_state :
      Bool → Readings → Dispatcher core → Done × Dispatcher core
  do_set_steam_mode_state b r d =
      broadcast_if (steam_mode_state b)
        (with_state (Machine.set_steam_mode_state b r d.state_manager) d)

  unfoldable pub toggle_brew_body : Readings → Dispatcher core → Done × Dispatcher core
  toggle_brew_body r d =
      if Machine.get_brew_state d.state_manager then (done, do_stop_brew r d) else do_start_brew r d

  -- The six events of `sendInitialState`, in their order.
  pub initial_events : Dispatcher core → List Event
  initial_events d =
      power_state (Machine.get_power_state d.state_manager)
      ∷ brew_state (Machine.get_brew_state d.state_manager)
      ∷ steam_mode_state (Machine.get_steam_mode_state d.state_manager)
      ∷ heater_state (Machine.heating_status d.state_manager)
      ∷ brew_profile (Profiles.get_profile d.brew_profile_manager)
      ∷ user_settings (Settings.get_settings d.user_settings_manager)
      ∷ []

  unfoldable pub add_sink : EventsStreamReactor → Dispatcher core → Dispatcher core
  add_sink s d = record d { events_sinks = d.events_sinks ++ send_all (initial_events d) s ∷ [] }

  -- The body of the callback overload of `stopBrew`.
  unfoldable pub stop_brew_body : Readings → Dispatcher core → Dispatcher core
  stop_brew_body r d =
      broadcast (brew_progress none)
        (record d { state_manager = Machine.stop_brew r d.state_manager })

  unfoldable pub set_brew_profile_body :
      Json → BrewProfile → (String → Write) → Readings → Dispatcher core → Done × Dispatcher core
  set_brew_profile_body json p w r d =
      let (saved, m) = Profiles.save_profile json p w d.brew_profile_manager in
      let n = record d { brew_profile_manager = m } in
      broadcast_if (brew_profile p) (elim saved [
        | ok a ↦ with_state (Profiles.apply_brew_profile r m d.state_manager) n
        | err x ↦ (err x, n)
      ])

  unfoldable pub set_user_settings_body :
      Json → UserSettings → (String → Write) → Readings → Dispatcher core → Done × Dispatcher core
  set_user_settings_body json u w r d =
      let (saved, m) = Settings.save_settings json u w d.user_settings_manager in
      let n = record d { user_settings_manager = m } in
      broadcast_if (user_settings u) (elim saved [
        | ok a ↦ (done, record n { state_manager = Settings.apply_settings r m d.state_manager })
        | err x ↦ (err x, n)
      ])

  abbrev pub toggle_power_state_body : Readings → Dispatcher core → Dispatcher core
  toggle_power_state_body r d =
      do_set_power_state (not (Machine.get_power_state d.state_manager)) r d

  abbrev pub toggle_steam_mode_state_body : Readings → Dispatcher core → Done × Dispatcher core
  toggle_steam_mode_state_body r d =
      do_set_steam_mode_state (not (Machine.get_steam_mode_state d.state_manager)) r d

  abbrev pub do_notify_heating_status_change : HeatingStatus → Dispatcher core → Dispatcher core
  do_notify_heating_status_change s d = broadcast (heater_state s) d

  abbrev pub do_notify_brew_step_change : ℕ → Dispatcher core → Dispatcher core
  do_notify_brew_step_change n d = broadcast (brew_progress (some n)) d

  abbrev answer : Done × Dispatcher core → Result Reply × Dispatcher core
  answer (x, d) = (reply x, d)

  -- The body of each procedure.
  unfoldable pub run :
      Json → Readings → Procedure → Dispatcher core → Result Reply × Dispatcher core
  run json r toggle_power_state d = (ok nothing, toggle_power_state_body r d)
  run json r (set_power_state b) d = (ok nothing, do_set_power_state b r d)
  run json r toggle_brew d = answer (toggle_brew_body r d)
  run json r start_brew d = answer (do_start_brew r d)
  run json r stop_brew d = (ok nothing, do_stop_brew r d)
  run json r toggle_steam_mode_state d = answer (toggle_steam_mode_state_body r d)
  run json r (set_steam_mode_state b) d = answer (do_set_steam_mode_state b r d)
  run json r (add_events_stream_reactor s) d = (ok nothing, add_sink s d)
  run json r (release_events_stream_reactor id) d =
      (ok nothing, record d { events_sinks = remove_sink id d.events_sinks })
  run json r (notify_heating_status_change s) d = (ok nothing, do_notify_heating_status_change s d)
  run json r (notify_brew_step_change n) d = (ok nothing, do_notify_brew_step_change n d)
  run json r brew_stopped d = (ok nothing, do_stop_brew r d)
  run json r call_reset_weight d = answer (with_state (Machine.reset_scales d.state_manager) d)
  run json r call_get_brew_profile d =
      (ok (profile (Profiles.get_profile d.brew_profile_manager)), d)
  run json r call_get_power_state d = (ok (flag (Machine.get_power_state d.state_manager)), d)
  run json r call_get_brew_state d = (ok (flag (Machine.get_brew_state d.state_manager)), d)
  run json r call_get_steam_mode_state d =
      (ok (flag (Machine.get_steam_mode_state d.state_manager)), d)
  run json r call_get_user_settings d =
      (ok (settings (Settings.get_settings d.user_settings_manager)), d)
  run json r (call_set_brew_profile p w) d = answer (set_brew_profile_body json p w r d)
  run json r (call_set_power_state b) d = (ok nothing, do_set_power_state b r d)
  run json r (call_set_steam_mode_state b) d = answer (do_set_steam_mode_state b r d)
  run json r call_start_brew d = answer (with_state (Machine.start_brew r d.state_manager) d)
  run json r call_stop_brew d = (ok nothing, stop_brew_body r d)
  run json r (call_set_user_settings u w) d = answer (set_user_settings_body json u w r d)

  -- The destructor's procedure, without the unregistered callback.
  unfoldable pub destroy : Readings → Dispatcher core → Dispatcher core
  destroy r d =
      let m = d.state_manager in
      let n = if Machine.get_brew_state m then Machine.stop_brew r m else m in
      record d {
        state_manager = if Machine.get_power_state n then Machine.set_power_state false r n else n;
      }
