-- ===== src/Machine.antt =====
-- src/state_manager/state_manager.hpp and state_manager.cpp: power, brewing and steam mode. A method
-- that can throw returns its result beside the new state. Log messages are left out.
pub mod Safety
pub mod Reach
pub mod Behaviour
pub mod Modes
pub mod Publishing
pub mod Kept
pub mod Targets
use openpressod.Prelude.{ℤ, Bool, true, false, not, ◌&&◌, List, if◌then◌else◌}
use openpressod.Messages.{HeatingStatus, StepTarget, StepCondition}
use openpressod.Core.{Core, Readings}
use openpressod.Results.{
  Result, ok, err, Done, done, brew_while_off, brew_in_steam_mode, steam_while_brewing,
  scale_while_brewing, steps_while_brewing, stop_condition_while_brewing,
}
use openpressod.Timer.{BrewTimer}
use openpressod.Timer
use openpressod.Status.{StatusManager}
use openpressod.Status

pub record StateManager (core : Core) : Type 0 where
  pub power : Bool
  pub steam : Bool
  pub brew_timer : BrewTimer
  pub brew_profiler : core.Profiler
  pub brew_temperature_controller : core.Controller
  pub steam_controller : core.Controller
  pub weight_sensor : core.Scale
  pub status_manager : StatusManager core

abbrev pub same_bool : Bool → Bool → Bool
same_bool true b = b
same_bool false b = not b

module _ {core : Core} where
  open core use {
    Profiler, Controller, Scale, is_brewing, activate, deactivate, turn_on, turn_off,
    target_temperature, set_target_temperature, tare, set_steps as profiler_set_steps,
    set_auto_stop_condition as profiler_set_auto_stop_condition,
  }

  -- The constructor; `steam_button` is the state of the steam button.
  unfoldable pub make :
      (steam_button : Bool)
      → Profiler
      → Controller
      → Controller
      → Scale
      → StatusManager core
      → StateManager core
  make steam_button profiler brew steam scale status = record {
    power = false;
    steam = steam_button;
    brew_timer = Timer.initial;
    brew_profiler = profiler;
    brew_temperature_controller = brew;
    steam_controller = steam;
    weight_sensor = scale;
    status_manager = status;
  }

  unfoldable pub get_power_state : StateManager core → Bool
  get_power_state m = m.power

  unfoldable pub get_brew_state : StateManager core → Bool
  get_brew_state m = is_brewing m.brew_profiler

  unfoldable pub get_steam_mode_state : StateManager core → Bool
  get_steam_mode_state m = m.steam

  unfoldable pub heating_status : StateManager core → HeatingStatus
  heating_status m = Status.get_current_status m.status_manager

  unfoldable pub switch_off : StateManager core → StateManager core
  switch_off m = record m {
    brew_profiler = deactivate m.brew_profiler;
    steam_controller = turn_off m.steam_controller;
    brew_temperature_controller = turn_off m.brew_temperature_controller;
    status_manager = Status.disable m.status_manager;
    brew_timer = Timer.reset m.brew_timer;
  }

  -- Activate the steam controller and show its state.
  pub heat_steam : Readings → StateManager core → StateManager core
  heat_steam r m =
      let c = turn_on m.steam_controller in
      record m {
        steam_controller = c;
        status_manager = Status.indicate_steam_state (target_temperature c) r m.status_manager;
      }

  unfoldable pub heat_brew : Readings → StateManager core → StateManager core
  heat_brew r m =
      let c = turn_on m.brew_temperature_controller in
      record m {
        brew_temperature_controller = c;
        status_manager = Status.indicate_brew_state (target_temperature c) r m.status_manager;
      }

  unfoldable pub set_power_state : Bool → Readings → StateManager core → StateManager core
  set_power_state state r m =
      if same_bool m.power state
      then m
      else let n =
          if m.power then switch_off m else if m.steam then heat_steam r m else heat_brew r m in
        record n { power = state }

  unfoldable pub start_brew : Readings → StateManager core → Done × StateManager core
  start_brew r m =
      if is_brewing m.brew_profiler
      then (done, m)
      else if not m.power
      then (err brew_while_off, m)
      else if m.steam
      then (err brew_in_steam_mode, m)
      else (
        done,
        record m {
          brew_profiler = activate m.brew_profiler;
          brew_timer = Timer.start r.clock m.brew_timer;
        },
      )

  unfoldable pub stop_brew : Readings → StateManager core → StateManager core
  stop_brew r m = if not (is_brewing m.brew_profiler) then m else record m {
    brew_timer = Timer.stop r.clock m.brew_timer;
    brew_profiler = deactivate m.brew_profiler;
  }

  pub set_brew_temperature : ℤ → Readings → StateManager core → StateManager core
  set_brew_temperature t r m =
      let n = record m {
        brew_temperature_controller = set_target_temperature t m.brew_temperature_controller;
      } in
      if not m.steam && m.power
      then record n { status_manager = Status.indicate_brew_state t r n.status_manager }
      else n

  pub set_steam_temperature : ℤ → Readings → StateManager core → StateManager core
  set_steam_temperature t r m =
      let n = record m { steam_controller = set_target_temperature t m.steam_controller } in
      if m.steam && m.power
      then record n { status_manager = Status.indicate_steam_state t r n.status_manager }
      else n

  switch_mode : Readings → StateManager core → StateManager core
  switch_mode r m =
      if m.steam
      then heat_brew r (record m { steam_controller = turn_off m.steam_controller })
      else heat_steam r
          (record m { brew_temperature_controller = turn_off m.brew_temperature_controller })

  pub set_steam_mode_state : Bool → Readings → StateManager core → Done × StateManager core
  set_steam_mode_state state r m =
      if same_bool m.steam state
      then (done, m)
      else if is_brewing m.brew_profiler
      then (err steam_while_brewing, m)
      else let n = if m.power then switch_mode r m else m in (done, record n { steam = state })

  unfoldable pub reset_scales : StateManager core → Done × StateManager core
  reset_scales m =
      if is_brewing m.brew_profiler
      then (err scale_while_brewing, m)
      else (done, record m { weight_sensor = tare m.weight_sensor })

  -- `steps` is what reading the range yields or throws; it is read after the test.
  unfoldable pub set_brew_steps :
      Result (List (StepTarget × StepCondition)) → StateManager core → Done × StateManager core
  set_brew_steps steps m =
      if is_brewing m.brew_profiler then (err steps_while_brewing, m) else elim steps [
        | ok l ↦ (done, record m { brew_profiler = profiler_set_steps l m.brew_profiler })
        | err e ↦ (err e, m)
      ]

  unfoldable pub set_auto_stop_condition :
      StepCondition → StateManager core → Done × StateManager core
  set_auto_stop_condition c m =
      if is_brewing m.brew_profiler
      then (err stop_condition_while_brewing, m)
      else (done, record m { brew_profiler = profiler_set_auto_stop_condition c m.brew_profiler })

  unfoldable pub set_heating_status_change_callback : StateManager core → StateManager core
  set_heating_status_change_callback m = record m {
    status_manager = Status.set_callback m.status_manager;
  }
