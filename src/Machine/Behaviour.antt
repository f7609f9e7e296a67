-- ===== src/Machine/Behaviour.antt =====
-- What each method of the state manager does on each of its branches.
use openpressod.Prelude.{
  ℕ, ℤ, ◌+◌, ◌-◌, ◌*◌, ◌≤◌, ◌<◌, Bool, true, false, not, ◌&&◌, ◌||◌, ◌≡◌, refl, ◌≢◌, ◌⊎◌, List,
  arith, if◌then◌else◌,
}
use openpressod.Messages.{StepTarget, StepCondition, disabled}
use openpressod.Core.{Core, Readings}
use openpressod.Results.{
  Result, err, Done, done, brew_while_off, brew_in_steam_mode, steam_while_brewing,
}
use openpressod.Timer.{elapsed_time, running_flag}
use openpressod.Timer.Running.{start-stop-elapsed, reset-elapsed_time}
use openpressod.Machine.Safety.{IsSafe, set_power_state-IsSafe}
use openpressod.Machine.{
  StateManager, set_power_state, start_brew, stop_brew, set_brew_temperature, set_steam_temperature,
  set_steam_mode_state, set_heating_status_change_callback, reset_scales, set_brew_steps,
  set_auto_stop_condition, same_bool, switch_off, switch_mode, heat_brew, heat_steam,
}

-- What a call did that threw: nothing.
abbrev pub Unchanged : {core : Core} → StateManager core → Done × StateManager core → Type 0
Unchanged m (r, n) = (r ≡ done) ⊎ (n ≡ m)

module _ {core : Core} where
  open core use {is_brewing, is_brewing-activate, is_brewing-deactivate}

  -- A method of the state manager that throws has changed nothing: `startBrew`, `setSteamModeState`,
  -- `resetScales`, `setBrewSteps` and `setAutoStopCondition`, at any arguments and in any state.
  pub thrown-Unchanged :
      (r : Readings) (b : Bool) (l : Result (List (StepTarget × StepCondition))) (c : StepCondition)
      (m : StateManager core)
      → Unchanged m (start_brew r m)
        × Unchanged m (set_steam_mode_state b r m)
        × Unchanged m (reset_scales m)
        × Unchanged m (set_brew_steps l m)
        × Unchanged m (set_auto_stop_condition c m)
  unfolding start_brew set_steam_mode_state reset_scales set_brew_steps set_auto_stop_condition
  thrown-Unchanged r b l c m =
      (ground arith, ground arith, ground arith, ground arith, ground arith)

  -- `startBrew` returns exactly if a brew runs already, or the power is on and steam mode is off;
  -- then a brew runs afterwards. Otherwise it throws the error for the power, if that is off, or else
  -- for the steam mode, and changes nothing.
  pub start_brew_cases :
      (r : Readings) (m : StateManager core)
      → let (result, n) = start_brew r m in
        let may_brew = is_brewing m.brew_profiler || m.power && not m.steam in
        (result ≡ (
          if may_brew then done else err (if m.power then brew_in_steam_mode else brew_while_off)))
        × (is_brewing n.brew_profiler ≡ may_brew)
        × (result ≢ done → n ≡ m)
  unfolding start_brew
  start_brew_cases r m =
      (ground arith, ground (arith, is_brewing-activate m.brew_profiler), λ h. ground arith)

  -- A brew that is started and stopped within one period of the 31-bit clock leaves the time between
  -- the two calls on the brew timer, at any later moment.
  pub start-stop-elapsed_time :
      (r s : Readings) (k later : ℕ) (m : StateManager core)
      → is_brewing m.brew_profiler ≡ false
      → m.power ≡ true
      → m.steam ≡ false
      → k * running_flag ≤ r.clock
      → r.clock ≤ s.clock
      → s.clock < k * running_flag + running_flag
      → let n = stop_brew s (start_brew r m).1 in
        (is_brewing n.brew_profiler ≡ false) × (elapsed_time later n.brew_timer ≡ s.clock - r.clock)
  unfolding start_brew stop_brew
  start-stop-elapsed_time r s k later m idle on brew lo le hi = ground (
    arith,
    is_brewing-activate m.brew_profiler,
    is_brewing-deactivate (core.activate m.brew_profiler),
    start-stop-elapsed k r.clock s.clock later m.brew_timer lo le hi,
  )

  -- Setting the power a second time to the same value changes nothing, whatever the sensors say.
  set_power_state_idempotent :
      (b : Bool) (r s : Readings) (m : StateManager core)
      → set_power_state b s (set_power_state b r m) ≡ set_power_state b r m
  unfolding set_power_state
  set_power_state_idempotent b r s m = ground arith

  -- Switching the power off, whatever went before, leaves no brew running, both heaters off, the
  -- timer at zero, the three lights out and the status DISABLED; only the steam mode stays. Switching
  -- it off a second time changes nothing, whatever the sensors say.
  pub set_power_state-off :
      (r s : Readings) (later : ℕ) (m : StateManager core)
      → IsSafe m
      → m.power ≡ true
      → let n = set_power_state false r m in
        (n.power ≡ false)
        × (n.steam ≡ m.steam)
        × (is_brewing n.brew_profiler ≡ false)
        × (core.is_heating n.brew_temperature_controller ≡ false)
        × (core.is_heating n.steam_controller ≡ false)
        × (elapsed_time later n.brew_timer ≡ 0)
        × (core.level n.status_manager.leds.power ≡ false)
        × (core.level n.status_manager.leds.brew ≡ false)
        × (core.level n.status_manager.leds.steam ≡ false)
        × (n.status_manager.heating_status ≡ disabled)
        × (set_power_state false s n ≡ n)
  unfolding set_power_state switch_off
  set_power_state-off r s later m v on = ground (
    arith,
    is_brewing-deactivate m.brew_profiler,
    core.is_heating-turn_off m.brew_temperature_controller,
    core.is_heating-turn_off m.steam_controller,
    reset-elapsed_time later m.brew_timer,
    set_power_state-IsSafe false r m v,
    set_power_state_idempotent false r s m,
  )

  -- `setSteamModeState` throws exactly if it would change the mode while a brew runs. Otherwise the
  -- mode is the wanted one, the power and the brew state stay, and under power it is the heater of
  -- the new mode, and no other, that is on.
  pub set_steam_mode_state_cases :
      (b : Bool) (r : Readings) (m : StateManager core)
      → IsSafe m
      → let (result, n) = set_steam_mode_state b r m in
        let blocked = is_brewing m.brew_profiler && not (same_bool m.steam b) in
        (result ≡ (if blocked then err steam_while_brewing else done))
        × (n.steam ≡ (if blocked then m.steam else b))
        × (n.power ≡ m.power)
        × (is_brewing n.brew_profiler ≡ is_brewing m.brew_profiler)
        × (core.is_heating n.steam_controller ≡ (m.power && n.steam))
        × (core.is_heating n.brew_temperature_controller ≡ (m.power && not n.steam))
  unfolding set_steam_mode_state switch_mode heat_brew heat_steam
  set_steam_mode_state_cases b r m v = ground (
    arith,
    core.is_heating-turn_off m.brew_temperature_controller,
    core.is_heating-turn_off m.steam_controller,
    core.is_heating-turn_on m.brew_temperature_controller,
    core.is_heating-turn_on m.steam_controller,
  )

  -- A new brew temperature leaves the power, the mode and the profiler alone.
  pub set_brew_temperature-keeps :
      (t : ℤ) (r : Readings) (m : StateManager core)
      → let n = set_brew_temperature t r m in
        (n.power ≡ m.power)
        × (n.steam ≡ m.steam)
        × (n.brew_profiler ≡ m.brew_profiler)
        × (core.target_temperature n.brew_temperature_controller ≡ t)
  unfolding set_brew_temperature
  set_brew_temperature-keeps t r m =
      ground (arith, core.target-set_target t m.brew_temperature_controller)

  -- A new steam temperature leaves all but the steam controller's target and the lights alone.
  pub set_steam_temperature-keeps :
      (t : ℤ) (r : Readings) (m : StateManager core)
      → let n = set_steam_temperature t r m in
        (n.power ≡ m.power)
        × (n.steam ≡ m.steam)
        × (n.brew_profiler ≡ m.brew_profiler)
        × (n.brew_temperature_controller ≡ m.brew_temperature_controller)
        × (core.target_temperature n.steam_controller ≡ t)
  unfolding set_steam_temperature
  set_steam_temperature-keeps t r m = ground (arith, core.target-set_target t m.steam_controller)

  -- The callback touches the status manager only.
  pub set_callback-keeps :
      (m : StateManager core)
      → let n = set_heating_status_change_callback m in
        (n.power ≡ m.power)
        × (n.steam ≡ m.steam)
        × (n.brew_profiler ≡ m.brew_profiler)
        × (n.brew_temperature_controller ≡ m.brew_temperature_controller)
        × (n.steam_controller ≡ m.steam_controller)
  unfolding set_heating_status_change_callback
  set_callback-keeps m = (refl, refl, refl, refl, refl)
