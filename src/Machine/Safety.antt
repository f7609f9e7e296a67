-- ===== src/Machine/Safety.antt =====
-- The safety invariant of the state manager, and that every call keeps it.
use openpressod.Prelude.{
  ℤ, Bool, true, false, not, ◌&&◌, Option, none, some, ◌≡◌, List, arith, if◌then◌else◌,
}
use openpressod.Messages.{StepTarget, StepCondition}
use openpressod.Core.{Core, Readings}
use openpressod.Results.{Result}
use openpressod.Timer.{is_running}
use openpressod.Timer.Running.{start-is_running}
use openpressod.Status.{on_temperature}
use openpressod.Status.Consistent.{IsConsistent, step-IsConsistent, set_callback-IsConsistent}
use openpressod.Status.Registered.{
  shown, disable-shown, indicate-shown, on_temperature-shown, set_callback-callback,
}
use openpressod.Machine.{
  StateManager, set_power_state, start_brew, stop_brew, set_brew_temperature, set_steam_temperature,
  set_steam_mode_state, reset_scales, set_brew_steps, set_auto_stop_condition,
  set_heating_status_change_callback, switch_off, heat_brew, heat_steam, switch_mode,
}

-- What the status manager has to show: nothing, or a mode and its controller's target.
abbrev pub wanted : {core : Core} → StateManager core → Option (Bool × ℤ)
wanted {core} m =
    if m.power
    then (if m.steam
        then some (true, core.target_temperature m.steam_controller)
        else some (false, core.target_temperature m.brew_temperature_controller))
    else none

pub record IsSafe {core : Core} (m : StateManager core) : Type 0 where
  pub brew_heater : core.is_heating m.brew_temperature_controller ≡ (m.power && not m.steam)
  pub steam_heater : core.is_heating m.steam_controller ≡ (m.power && m.steam)
  pub brew_powered : core.is_brewing m.brew_profiler ≡ true → m.power ≡ true
  pub brew_not_steam : core.is_brewing m.brew_profiler ≡ true → m.steam ≡ false
  pub brew_timed : core.is_brewing m.brew_profiler ≡ true → is_running m.brew_timer ≡ true
  pub consistent : IsConsistent m.status_manager
  pub shows : shown m.status_manager.temperature_callback ≡ wanted m

module _ {core : Core} where
  open core use {
    is_brewing-activate, is_brewing-deactivate, is_brewing-set_steps, is_brewing-set_auto_stop,
    is_heating-turn_on, is_heating-turn_off, is_heating-set_target, target-turn_on, target-turn_off,
    target-set_target,
  }

  heat_brew-IsSafe :
      (p q : Bool) (r : Readings) (m : StateManager core)
      → p ≡ true
      → q ≡ false
      → core.is_heating m.steam_controller ≡ false
      → core.is_brewing m.brew_profiler ≡ false
      → IsConsistent m.status_manager
      → IsSafe (record (heat_brew r m) { power = p; steam = q })
  unfolding heat_brew
  heat_brew-IsSafe p q r m hp hq off idle c =
      let t = core.target_temperature (core.turn_on m.brew_temperature_controller) in
      ground (
        arith,
        is_heating-turn_on m.brew_temperature_controller,
        step-IsConsistent r t m.status_manager c,
        indicate-shown t r m.status_manager,
      )

  heat_steam-IsSafe :
      (p q : Bool) (r : Readings) (m : StateManager core)
      → p ≡ true
      → q ≡ true
      → core.is_heating m.brew_temperature_controller ≡ false
      → core.is_brewing m.brew_profiler ≡ false
      → IsConsistent m.status_manager
      → IsSafe (record (heat_steam r m) { power = p; steam = q })
  unfolding heat_steam
  heat_steam-IsSafe p q r m hp hq off idle c =
      let t = core.target_temperature (core.turn_on m.steam_controller) in
      ground (
        arith,
        is_heating-turn_on m.steam_controller,
        step-IsConsistent r t m.status_manager c,
        indicate-shown t r m.status_manager,
      )

  switch_off-IsSafe :
      (p : Bool) (r : Readings) (m : StateManager core)
      → p ≡ false
      → IsConsistent m.status_manager
      → IsSafe (record (switch_off m) { power = p })
  unfolding switch_off
  switch_off-IsSafe p r m h c = ground (
    arith,
    is_heating-turn_off m.steam_controller,
    is_heating-turn_off m.brew_temperature_controller,
    is_brewing-deactivate m.brew_profiler,
    step-IsConsistent r (core.target_temperature m.steam_controller) m.status_manager c,
    disable-shown m.status_manager,
  )

  idle_unless_powered :
      (m : StateManager core) → IsSafe m → m.power ≡ false → core.is_brewing m.brew_profiler ≡ false
  idle_unless_powered m v h = ground arith

  pub set_power_state-IsSafe :
      (b : Bool) (r : Readings) (m : StateManager core) → IsSafe m → IsSafe (set_power_state b r m)
  unfolding set_power_state heat_brew heat_steam switch_off
  set_power_state-IsSafe b r m v = ground (
    arith,
    idle_unless_powered m v,
    switch_off-IsSafe b r m,
    heat_steam-IsSafe b m.steam r m,
    heat_brew-IsSafe b m.steam r m,
  )

  pub start_brew-IsSafe :
      (r : Readings) (m : StateManager core) → IsSafe m → IsSafe (start_brew r m).1
  unfolding start_brew
  start_brew-IsSafe r m v =
      ground (arith, is_brewing-activate m.brew_profiler, start-is_running r.clock m.brew_timer)

  pub stop_brew-IsSafe : (r : Readings) (m : StateManager core) → IsSafe m → IsSafe (stop_brew r m)
  unfolding stop_brew
  stop_brew-IsSafe r m v = ground (arith, is_brewing-deactivate m.brew_profiler)

  pub set_brew_temperature-IsSafe :
      (t : ℤ) (r : Readings) (m : StateManager core)
      → IsSafe m
      → IsSafe (set_brew_temperature t r m)
  unfolding set_brew_temperature
  set_brew_temperature-IsSafe t r m v = ground (
    arith,
    is_heating-set_target t m.brew_temperature_controller,
    target-set_target t m.brew_temperature_controller,
    step-IsConsistent r t m.status_manager v.consistent,
    indicate-shown t r m.status_manager,
  )

  pub set_steam_temperature-IsSafe :
      (t : ℤ) (r : Readings) (m : StateManager core)
      → IsSafe m
      → IsSafe (set_steam_temperature t r m)
  unfolding set_steam_temperature
  set_steam_temperature-IsSafe t r m v = ground (
    arith,
    is_heating-set_target t m.steam_controller,
    target-set_target t m.steam_controller,
    step-IsConsistent r t m.status_manager v.consistent,
    indicate-shown t r m.status_manager,
  )

  pub set_steam_mode_state-IsSafe :
      (b : Bool) (r : Readings) (m : StateManager core)
      → IsSafe m
      → IsSafe (set_steam_mode_state b r m).1
  unfolding set_steam_mode_state switch_mode heat_brew heat_steam
  set_steam_mode_state-IsSafe b r m v =
      let brew_off = record m {
        brew_temperature_controller = core.turn_off m.brew_temperature_controller;
      } in
      let steam_off = record m { steam_controller = core.turn_off m.steam_controller } in
      ground (
        arith,
        is_heating-turn_off m.brew_temperature_controller,
        is_heating-turn_off m.steam_controller,
        heat_brew-IsSafe m.power b r steam_off,
        heat_steam-IsSafe m.power b r brew_off,
      )

  pub reset_scales-IsSafe : (m : StateManager core) → IsSafe m → IsSafe (reset_scales m).1
  unfolding reset_scales
  reset_scales-IsSafe m v = ground arith

  pub set_brew_steps-IsSafe :
      (l : Result (List (StepTarget × StepCondition))) (m : StateManager core)
      → IsSafe m
      → IsSafe (set_brew_steps l m).1
  unfolding set_brew_steps
  set_brew_steps-IsSafe (Result.ok l) m v = ground (arith, is_brewing-set_steps l m.brew_profiler)
  set_brew_steps-IsSafe (Result.err e) m v = ground arith

  pub set_auto_stop_condition-IsSafe :
      (c : StepCondition) (m : StateManager core)
      → IsSafe m
      → IsSafe (set_auto_stop_condition c m).1
  unfolding set_auto_stop_condition
  set_auto_stop_condition-IsSafe c m v = ground (arith, is_brewing-set_auto_stop c m.brew_profiler)

  pub set_callback-IsSafe :
      (m : StateManager core) → IsSafe m → IsSafe (set_heating_status_change_callback m)
  unfolding set_heating_status_change_callback
  set_callback-IsSafe m v = ground (
    arith,
    set_callback-IsConsistent m.status_manager v.consistent,
    set_callback-callback m.status_manager,
  )

  pub sense-IsSafe :
      (r : Readings) (m : StateManager core)
      → IsSafe m
      → IsSafe (record m { status_manager = on_temperature r m.status_manager })
  sense-IsSafe r m v = ground (
    arith,
    step-IsConsistent r (core.target_temperature m.steam_controller) m.status_manager v.consistent,
    on_temperature-shown r m.status_manager,
  )
